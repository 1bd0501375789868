-- ===== src/Demo1/Engine/Rows.antt =====
-- The rows of a batch, filled from the front.
use okmx8mm.Base.{ℕ, zero, suc, ◌+◌, ◌-◌, ◌≤◌, ◌<◌, ◌≡◌, refl, sym, ap, ◌∙◌, arith}
use okmx8mm.Base.{List, [], ◌∷◌, ◌++◌, length, get_or, set, replicate, take}
use okmx8mm.Base.{length-take, get_or-append, set_free, length-snoc}
use okmx8mm.Demo1.{TickSample}
use okmx8mm.Demo1.Engine.{copy_channels}

-- A sample that the engine does not refuse.
abbrev pub IsTick : TickSample → Type 0
IsTick s = (0 < s.analog_channel_count) × (s.analog_channel_count ≤ 14) × (length s.analog ≡ 14)

-- The row of a sample: its channels, and zeros behind them.
abbrev pub row_of : TickSample → List ℕ
row_of s = take s.analog_channel_count s.analog ++ replicate (14 - s.analog_channel_count) 0

-- Ten entries, the last of them free.
abbrev pub padded {ℓ} : {A : Type ℓ} → List A → A → List A
padded xs z = xs ++ replicate (10 - length xs) z

free_entries : (k : ℕ) → k < 10 → 10 - k ≡ suc (9 - k)
free_entries k h = omega arith

pub set-padded {ℓ} :
    {A : Type ℓ} (xs : List A) (z v : A) (i : ℕ)
    → length xs ≡ i
    → i < 10
    → set (padded xs z) i v ≡ padded (xs ++ (v ∷ [])) z
set-padded xs z v i h below =
    ap (λ n. set (xs ++ replicate n z) i v) (ap (λ k. 10 - k) h ∙ free_entries i below)
    ∙ set_free xs z v i (9 - i) h
    ∙ ap (λ n. (xs ++ (v ∷ [])) ++ replicate n z)
        (sym (ap (λ k. 10 - k) (length-snoc xs v ∙ ap suc h) ∙ omega arith))

pub get_or-padded {ℓ} :
    {A : Type ℓ} (xs : List A) (z d : A) (i : ℕ)
    → length xs ≡ i
    → i < 10
    → get_or (padded xs z) i d ≡ z
get_or-padded xs z d i h below =
    ap (λ n. get_or (xs ++ replicate n z) i d) (ap (λ k. 10 - k) h ∙ free_entries i below)
    ∙ ap (λ j. get_or (xs ++ (z ∷ replicate (9 - i) z)) j d) (sym h)
    ∙ get_or-append xs z (replicate (9 - i) z) d

take-snoc :
    (xs : List ℕ) (c : ℕ) → c < length xs → take c xs ++ (get_or xs c 0 ∷ []) ≡ take (suc c) xs
take-snoc [] c h = absurd (omega arith)
take-snoc (x ∷ xs) zero h = refl
take-snoc (x ∷ xs) (suc c) h = ap (λ t. x ∷ t) (take-snoc xs c (omega arith))

-- The loop over the channels, from any channel on.
pub copy_channels_loop :
    (left channel n : ℕ) (analog : List ℕ)
    → channel + left ≤ length analog
    → copy_channels left channel analog (take channel analog ++ replicate (left + n) 0)
      ≡ take (channel + left) analog ++ replicate n 0
unfolding copy_channels
copy_channels_loop zero channel n analog h = rw (eqn, same) refl
  where
    eqn : 0 + n ≡ n
    eqn = omega arith

    same : channel + 0 ≡ channel
    same = omega arith
copy_channels_loop (suc left) channel n analog h =
    ap (copy_channels left (channel + 1) analog) written
    ∙ copy_channels_loop left (channel + 1) n analog (omega arith)
    ∙ ap (λ k. take k analog ++ replicate n 0) next
  where
    more : suc left + n ≡ suc (left + n)
    more = omega arith

    up : suc channel ≡ channel + 1
    up = omega arith

    written :
        set (take channel analog ++ replicate (suc left + n) 0) channel (get_or analog channel 0)
        ≡ take (channel + 1) analog ++ replicate (left + n) 0
    written =
        ap (λ k. set (take channel analog ++ replicate k 0) channel (get_or analog channel 0)) more
        ∙ set_free (take channel analog) 0 (get_or analog channel 0) channel (left + n)
            (length-take channel analog (omega arith))
        ∙ ap (λ t. t ++ replicate (left + n) 0)
            (take-snoc analog channel (omega arith) ∙ ap (λ k. take k analog) up)

    next : channel + 1 + left ≡ channel + suc left
    next = omega arith

-- The row of a sample, in a batch that has been reset.
pub copy_channels_lem :
    (s : TickSample)
    → IsTick s
    → copy_channels s.analog_channel_count 0 s.analog (replicate 14 0) ≡ row_of s
copy_channels_lem s (some_channel, fits, full) =
    ap (λ k. copy_channels s.analog_channel_count 0 s.analog (replicate k 0)) whole
    ∙ copy_channels_loop s.analog_channel_count 0 (14 - s.analog_channel_count) s.analog
        (omega arith)
    ∙ ap (λ k. take k s.analog ++ replicate (14 - s.analog_channel_count) 0) none_before
  where
    whole : 14 ≡ s.analog_channel_count + (14 - s.analog_channel_count)
    whole = omega arith

    none_before : 0 + s.analog_channel_count ≡ s.analog_channel_count
    none_before = omega arith
