-- ===== src/Demo1/Sources/Mock.antt =====
-- The samples of the mock source.
use okmx8mm.Base.{ℕ, zero, suc, ◌+◌, ◌-◌, ◌*◌, ◌^◌, ◌%◌, ◌≤◌, ◌<◌, ◌≡◌, refl, arith}
use okmx8mm.Base.{ap, ◌∙◌, all_below_sound, leb, ◌&&◌, true, get_or, pos, u16, u32}
use okmx8mm.Demo1.Engine.Rows.{IsTick}
use okmx8mm.Demo1.Sources.{MockSource, mock_channel, mock_channels, mock_read_tick, analog_bases}

bases_bound :
    (channel : ℕ)
    → channel < 14
    → (100 ≤ get_or analog_bases channel 0) × (get_or analog_bases channel 0 ≤ 1700)
bases_bound channel h =
    let within =
      all_below_sound 14
        (λ c. leb 100 (get_or analog_bases c 0) && leb (get_or analog_bases c 0) 1700) channel refl
        h in
    ground (arith, within)

around :
    (base x : ℕ)
    → 100 ≤ base
    → base ≤ 1700
    → x < 11
    → (base ≤ u16 (base + u16 (u32 (x + (2 ^ 32 - 5)))) + 5)
      × (u16 (base + u16 (u32 (x + (2 ^ 32 - 5)))) ≤ base + 5)
around base x low high h = (omega arith, omega arith)

-- Each channel lies within 5 of its base.
mock_channel_bound :
    (seed_mod tick channel : ℕ)
    → channel < 14
    → (get_or analog_bases channel 0 ≤ mock_channel seed_mod tick channel + 5)
      × (mock_channel seed_mod tick channel ≤ get_or analog_bases channel 0 + 5)
unfolding mock_channel
mock_channel_bound seed_mod tick channel h =
    let (low, high) = bases_bound channel h in
    around (get_or analog_bases channel 0) (u32 (u32 (seed_mod + u32 (tick * 2)) + channel) % 11)
      low high (omega arith)

get_or-mock_channels :
    (left seed_mod tick first i : ℕ)
    → i < left
    → get_or (mock_channels left seed_mod tick first) i 0 ≡ mock_channel seed_mod tick (first + i)
unfolding mock_channels
get_or-mock_channels zero seed_mod tick first i h = absurd (omega arith)
get_or-mock_channels (suc left) seed_mod tick first zero h =
    ap (mock_channel seed_mod tick) (omega arith)
get_or-mock_channels (suc left) seed_mod tick first (suc i) h =
    get_or-mock_channels left seed_mod tick (first + 1) i (omega arith)
    ∙ ap (mock_channel seed_mod tick) (omega arith)

-- An initialised mock source always returns a sample that the engine does not refuse. It has
-- fourteen channels, each within 5 of its base, and the source stays initialised.
pub mock_read_tick_lem :
    (source : MockSource) (now : ℕ)
    → source.initialized ≡ true
    → let (code, s, next) = mock_read_tick source now in
      (code ≡ pos 0)
      × IsTick s
      × ((channel : ℕ)
          → channel < 14
          → (get_or analog_bases channel 0 ≤ get_or s.analog channel 0 + 5)
            × (get_or s.analog channel 0 ≤ get_or analog_bases channel 0 + 5))
      × (next.initialized ≡ true)
      × (next.tick_count ≡ u32 (source.tick_count + 1))
unfolding mock_read_tick
mock_read_tick_lem source now ready =
    rw ready (refl, (omega arith, omega arith, refl), bounds, refl, refl)
  where
    none_before : (channel : ℕ) → 0 + channel ≡ channel
    none_before channel = omega arith

    bounds :
        (channel : ℕ)
        → channel < 14
        → (get_or analog_bases channel 0
            ≤ get_or (mock_channels 14 (source.seed % 11) source.tick_count 0) channel 0 + 5)
          × (get_or (mock_channels 14 (source.seed % 11) source.tick_count 0) channel 0
              ≤ get_or analog_bases channel 0 + 5)
    bounds channel h =
        rw
          (
            get_or-mock_channels 14 (source.seed % 11) source.tick_count 0 channel h,
            none_before channel,
          )
          (mock_channel_bound (source.seed % 11) source.tick_count channel h)
