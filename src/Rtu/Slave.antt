-- ===== src/Rtu/Slave.antt =====
-- The collector and its slaves: one that answers function 4 with the registers of a sample, and
-- the STM32F407.
use Prim.Native.Nat.{bit_or}
use okmx8mm.Base.{ℕ, zero, suc, ◌+◌, ◌*◌, ◌/◌, ◌%◌, ◌^◌, ◌≤◌, ◌<◌, ◌≡◌, refl, arith, ap, sym, subst}
use okmx8mm.Base.{List, [], ◌∷◌, some, true, false, length, get_or, drop, IsByte, IsU16}
use okmx8mm.Base.{All, All-get_or, append-nil, ok, err, pos, u16, u32, ◌<<<◌, ◌∙◌}
use okmx8mm.Base.Bits.{or_of_fields}
use okmx8mm.Sample.{Sample, IsSample}
use okmx8mm.Sample.Registers.{sample_from_registers}
use okmx8mm.Sample.Registers.RoundTrip.{registers_of, length-registers_of, from_registers_lem}
use okmx8mm.Modbus.{build_response, bad_request}
use okmx8mm.Modbus.Exchange.{registers_of-IsU16}
use okmx8mm.Rtu.{Line, done, read_registers, collect_gateway, sample_of_data, join_registers}
use okmx8mm.Rtu.Response.{framed}
use okmx8mm.Rtu.Fragments.{asked, joined, Delivers, read_registers-pieces}

-- The STM32F407 refuses each request of the collector: it answers function 3 only.
pub build_response-collector :
    (address start count capacity : ℕ) (s : Sample)
    → 57 ≤ capacity
    → build_response true (asked address start count) s capacity ≡ err 2
unfolding build_response bad_request
build_response-collector address start count capacity s h = ground arith

-- Words as bytes, the high byte first.
abbrev pub words_be : List ℕ → List ℕ
words_be [] = []
words_be (w ∷ ws) = w / 2 ^ 8 ∷ w % 2 ^ 8 ∷ words_be ws

length-words_be : (ws : List ℕ) → length (words_be ws) ≡ length ws * 2
length-words_be [] = refl
length-words_be (w ∷ ws) = omega (arith, length-words_be ws)

words_be-IsByte : (ws : List ℕ) → All IsU16 ws → All IsByte (words_be ws)
words_be-IsByte [] h = tt
words_be-IsByte (w ∷ ws) h = (omega (arith, h.0), (omega arith, words_be-IsByte ws h.1))

high_at : (ws : List ℕ) (i : ℕ) → get_or (words_be ws) (i * 2) 0 ≡ get_or ws i 0 / 2 ^ 8
high_at [] i = ground arith
high_at (w ∷ ws) zero = ground arith
high_at (w ∷ ws) (suc i) =
    let two : suc i * 2 ≡ suc (suc (i * 2)) = omega arith in rw two (high_at ws i)

low_at : (ws : List ℕ) (i : ℕ) → get_or (words_be ws) (i * 2 + 1) 0 ≡ get_or ws i 0 % 2 ^ 8
low_at [] i = ground arith
low_at (w ∷ ws) zero = ground arith
low_at (w ∷ ws) (suc i) =
    let two : suc i * 2 + 1 ≡ suc (suc (i * 2 + 1)) = omega arith in rw two (low_at ws i)

rejoined : (v : ℕ) → IsU16 v → u16 (bit_or (u16 (v / 2 ^ 8 <<< 8)) (v % 2 ^ 8)) ≡ v
rejoined v h = ground (arith, or_of_fields 8 (v / 2 ^ 8) (v % 2 ^ 8))

drop_next : (ws : List ℕ) (i : ℕ) → i < length ws → drop i ws ≡ get_or ws i 0 ∷ drop (suc i) ws
drop_next [] i h = absurd (omega arith)
drop_next (w ∷ ws) zero h = refl
drop_next (w ∷ ws) (suc i) h = drop_next ws i (omega arith)

drop_all : (ws : List ℕ) (i : ℕ) → i ≡ length ws → drop i ws ≡ []
drop_all [] zero h = refl
drop_all [] (suc i) h = refl
drop_all (w ∷ ws) zero h = absurd (omega arith)
drop_all (w ∷ ws) (suc i) h = drop_all ws i (omega arith)

join_registers-words :
    (left i : ℕ) (ws : List ℕ)
    → All IsU16 ws
    → i + left ≡ length ws
    → join_registers left i (words_be ws) ≡ drop i ws
unfolding join_registers
join_registers-words zero i ws h e = sym (drop_all ws i (omega arith))
join_registers-words (suc left) i ws h e =
    let next : i + 1 ≡ suc i = omega arith in
    rw
      (
        high_at ws i,
        low_at ws i,
        rejoined (get_or ws i 0) (All-get_or IsU16 ws i 0 h (omega arith)),
        drop_next ws i (omega arith),
        join_registers-words left (i + 1) ws h (omega arith),
        next,
      )
      refl

sample_of_data-words :
    (now_ms : ℕ) (s : Sample)
    → IsSample s
    → sample_of_data now_ms (words_be (registers_of s))
      ≡ ok (record s { timestamp_ms = u32 now_ms; flags = bit_or s.flags 1 })
unfolding sample_of_data
sample_of_data-words now_ms s valid =
    let registers : join_registers 26 0 (words_be (registers_of s)) ≡ registers_of s =
      join_registers-words 26 0 (registers_of s) (registers_of-IsU16 s valid)
        (omega (arith, length-registers_of s)) in
    let read : sample_from_registers true (registers_of s) ≡ ok (record s { timestamp_ms = 0 }) =
      ap (sample_from_registers true) (sym (append-nil (registers_of s)))
      ∙ from_registers_lem s [] valid in
    rw (sample_of_data, registers, read) refl

module _ {L : Type 0} (line : Line L) where
  -- From a slave that answers function 4 with the registers of a sample, in any pieces, the
  -- collector gets that sample with its own time and the valid flag.
  pub collect_gateway-sample :
      (fuel address now_ms : ℕ) (s : Sample) (pieces : List (List ℕ)) (l l1 : L)
      → IsSample s
      → IsByte address
      → line.write l (asked address 0 26) ≡ (pos 8, l1)
      → joined pieces ≡ framed address (words_be (registers_of s))
      → Delivers line l1 pieces
      → length pieces ≤ fuel
      → 2 ≤ fuel
      → (l' : L) × (collect_gateway line fuel false address now_ms l
          ≡ (done (ok (record s { timestamp_ms = u32 now_ms; flags = bit_or s.flags 1 })), l'))
  unfolding collect_gateway
  collect_gateway-sample fuel address now_ms s pieces l l1 valid byte w e d f g =
      let xs = words_be (registers_of s) in
      let words = registers_of-IsU16 s valid in
      let long : length xs ≡ 52 =
        omega (arith, length-words_be (registers_of s), length-registers_of s) in
      let (l', got) =
        read_registers-pieces line fuel address 0 26 xs pieces l l1
          (byte, (omega arith, (omega arith, words_be-IsByte (registers_of s) words))) (omega arith)
          w e d f g in
      let got' : read_registers line fuel false address 0 26 52 l ≡ (done (some xs), l') =
        subst (λ n. read_registers line fuel false address 0 26 n l ≡ (done (some xs), l')) long
          got in
      (l', rw (collect_gateway, got', sample_of_data-words now_ms s valid, got') refl)
