-- ===== src/Public/Checksum.antt =====
-- What the checksum of the public information finds.
use Prim.Native.Nat.{bit_and}
use okmx8mm.Base.{
  ℕ, zero, suc, ◌+◌, ◌-◌, ◌*◌, ◌%◌, ◌^◌, ◌≤◌, ◌<◌, ◌≡◌, refl, arith, ap, ◌∙◌, sym, ◌≢◌,
}
use okmx8mm.Base.{List, [], ◌∷◌, ◌++◌, Bool, true, some, length, get_or, All, All-get_or}
use okmx8mm.Base.{IsByte, pos, get_or-append, eq-cases, subst}
use okmx8mm.Base.{inl, inr, ◌⊎◌}
use okmx8mm.Base.Bits.{or_of_low_field, and_of_mask}
use okmx8mm.Public.{read_short_lsb, sum_loop, sum_digest, Context, Calls, process_packet}

read_short_lsb_lem :
    (buffer : List ℕ) (k : ℕ)
    → All IsByte buffer
    → read_short_lsb buffer k ≡ get_or buffer (k + 1) 0 * 256 + get_or buffer k 0
unfolding read_short_lsb
read_short_lsb_lem buffer k h =
    let low : get_or buffer k 0 < 2 ^ 8 = All-get_or IsByte buffer k 0 h (omega arith) in
    ground (arith, or_of_low_field 8 (get_or buffer (k + 1) 0) (get_or buffer k 0))

-- The bytes from `i` on, summed without a bound.
abbrev pub total : ℕ → ℕ → List ℕ → ℕ
total zero i buffer = 0
total (suc left) i buffer = get_or buffer i 0 + total left (i + 1) buffer

pub sum_loop-total :
    (left i sum : ℕ) (buffer : List ℕ)
    → All IsByte buffer
    → sum < 2 ^ 32
    → sum_loop left i sum buffer ≡ (sum + total left i buffer) % 2 ^ 32
unfolding sum_loop
sum_loop-total zero i sum buffer h small = omega arith
sum_loop-total (suc left) i sum buffer h small =
    let byte : get_or buffer i 0 < 2 ^ 8 = All-get_or IsByte buffer i 0 h (omega arith) in
    omega (
      arith,
      and_of_mask 8 (get_or buffer i 0),
      byte,
      sum_loop-total left (i + 1) ((sum + bit_and (get_or buffer i 0) 0xFF) % 2 ^ 32) buffer h
          (omega arith),
    )

-- Two buffers that agree but at `p`.
abbrev Agree : ℕ → List ℕ → List ℕ → Type 0
Agree p a b = (j : ℕ) → j ≢ p → get_or a j 0 ≡ get_or b j 0

total-Agree :
    (left i p : ℕ) (a b : List ℕ)
    → Agree p a b
    → ((i ≤ p) × (p < i + left) × (total left i a + get_or b p 0 ≡ total left i b + get_or a p 0))
      ⊎ (((p < i) ⊎ (i + left ≤ p)) × (total left i a ≡ total left i b))
total-Agree zero i p a b same = inr (ground arith, refl)
total-Agree (suc left) i p a b same =
    let rest = total-Agree left (i + 1) p a b same in
    elim (eq-cases i p) [
      | inl here ↦ inl (omega arith, omega arith, ground (arith, rest, here))
      | inr other ↦
          let equal = same i other in
          elim rest [
            | inl (after, within, e) ↦ inl (omega arith, omega arith, omega (arith, e, equal))
            | inr (outside, e) ↦ inr (ground (arith, outside, other), omega (arith, e, equal))
          ]
    ]

-- A packet that is processed to the end has the right checksum within its length.
accepted-checksum :
    {T : Type 0} (calls : Calls T) (locked : Bool) (buffer : List ℕ) (context after : Context)
    (t t' : T)
    → process_packet calls locked buffer context t ≡ some (pos 0, after, t')
    → let n = read_short_lsb buffer 2 in
      (n ≤ length buffer) × (2 ≤ n) × (read_short_lsb buffer (n - 2) ≡ sum_digest buffer (n - 2))
unfolding process_packet
accepted-checksum calls locked buffer context after t t' e = ground (arith, e)

get_or-other :
    (front : List ℕ) (x y : ℕ) (back : List ℕ)
    → Agree (length front) (front ++ (x ∷ back)) (front ++ (y ∷ back))
get_or-other [] x y back zero h = absurd (h refl)
get_or-other [] x y back (suc j) h = refl
get_or-other (c ∷ cs) x y back zero h = refl
get_or-other (c ∷ cs) x y back (suc j) h = get_or-other cs x y back j (λ e. h (ap suc e))

-- Two sums that agree, of buffers that differ in a byte.
equal_sums :
    (a b x y : ℕ)
    → IsByte x
    → IsByte y
    → a + y ≡ b + x
    → (0 + a) % 2 ^ 32 ≡ (0 + b) % 2 ^ 32
    → x ≡ y
equal_sums a b x y hx hy e f = omega arith

-- The checksums of two buffers that differ at `p` only, within their length.
same_checksum :
    (a b : List ℕ) (p n : ℕ)
    → Agree p a b
    → All IsByte a
    → All IsByte b
    → 2 ≤ n
    → p < n
    → read_short_lsb a (n - 2) ≡ sum_digest a (n - 2)
    → read_short_lsb b (n - 2) ≡ sum_digest b (n - 2)
    → get_or a p 0 ≡ get_or b p 0
same_checksum a b p n same ha hb two within ea eb =
    let byte_a : get_or a p 0 < 2 ^ 8 = All-get_or IsByte a p 0 ha (omega arith) in
    let byte_b : get_or b p 0 < 2 ^ 8 = All-get_or IsByte b p 0 hb (omega arith) in
    let sum_a =
      sym (read_short_lsb_lem a (n - 2) ha) ∙ ea ∙ sum_loop-total (n - 2) 0 0 a ha (omega arith) in
    let sum_b =
      sym (read_short_lsb_lem b (n - 2) hb) ∙ eb ∙ sum_loop-total (n - 2) 0 0 b hb (omega arith) in
    elim (total-Agree (n - 2) 0 p a b same) [
      | inl (low, high, e) ↦
          let first = same (n - 2) (omega arith) in
          let second = same (n - 2 + 1) (omega arith) in
          equal_sums (total (n - 2) 0 a) (total (n - 2) 0 b) (get_or a p 0) (get_or b p 0) byte_a
            byte_b e (sym sum_a ∙ omega (arith, first, second) ∙ sum_b)
      | inr (outside, e) ↦
          let sums : (0 + total (n - 2) 0 a) % 2 ^ 32 ≡ (0 + total (n - 2) 0 b) % 2 ^ 32 =
            ap (λ t. (0 + t) % 2 ^ 32) e in
          let parts = sum_a ∙ sums ∙ sym sum_b in
          elim (eq-cases (n - 2) p) [
            | inl low ↦
                let at_a = ap (λ j. get_or a j 0) low in
                let at_b = ap (λ j. get_or b j 0) low in
                let high = same (n - 2 + 1) (omega (arith, low)) in
                omega (arith, parts, at_a, at_b, high)
            | inr not_low ↦
                let last : n - 2 + 1 ≡ p = ground (arith, outside, not_low) in
                let at_a = ap (λ j. get_or a j 0) last in
                let at_b = ap (λ j. get_or b j 0) last in
                let low = same (n - 2) not_low in omega (arith, parts, at_a, at_b, low)
          ]
    ]

module _ {T : Type 0} (calls : Calls T) where
  -- Two packets of bytes that are both processed to the end, whatever the context and the clock,
  -- and differ in at most one byte behind the length field and within the length, are equal.
  pub process_finds_byte :
      (front back : List ℕ) (x y : ℕ) (c c' d d' : Context) (t t' s s' : T)
      → let a = front ++ (x ∷ back) in
        let b = front ++ (y ∷ back) in
        All IsByte a
        → All IsByte b
        → 4 ≤ length front
        → length front < read_short_lsb a 2
        → process_packet calls true a c t ≡ some (pos 0, c', t')
        → process_packet calls true b d s ≡ some (pos 0, d', s')
        → a ≡ b
  process_finds_byte front back x y c c' d d' t t' s s' ha hb far within ea eb =
      let a = front ++ (x ∷ back) in
      let b = front ++ (y ∷ back) in
      let p = length front in
      let same = get_or-other front x y back in
      let (long, two, sum_a) = accepted-checksum calls true a c c' t t' ea in
      let (long', two', sum_b) = accepted-checksum calls true b d d' s s' eb in
      let equal_length : read_short_lsb a 2 ≡ read_short_lsb b 2 = omega (
        arith,
        read_short_lsb_lem a 2 ha,
        read_short_lsb_lem b 2 hb,
        same 2 (omega arith),
        same 3 (omega arith),
      ) in
      let sum_b' =
        subst (λ n. read_short_lsb b (n - 2) ≡ sum_digest b (n - 2)) (sym equal_length) sum_b in
      let equal = same_checksum a b p (read_short_lsb a 2) same ha hb two within sum_a sum_b' in
      ap (λ z. front ++ (z ∷ back))
        (sym (get_or-append front x back 0) ∙ equal ∙ get_or-append front y back 0)
