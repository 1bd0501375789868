-- ===== src/Led/Search.antt =====
-- The search for a sensor with an error ends, or it never does.
use Prim.Native.Nat.{bit_and}
use okmx8mm.Base.{ℕ, zero, suc, ◌+◌, ◌-◌, ◌≤◌, ◌<◌, ◌≡◌, refl, arith, sym, inl, inr, ◌⊎◌}
use okmx8mm.Base.{
  Bool, true, false, Option, none, some, leb, ◌==◌, if◌then◌else◌, ◌<<<◌, Bool-cases, subst, ◌&&◌,
}
use okmx8mm.Base.{all_below, all_below_sound, ==_iff}
use okmx8mm.Led.{next_index, search_sensor}

-- The flag of a sensor.
abbrev pub IsFlagged : ℕ → ℕ → Type 0
IsFlagged flags index = (bit_and flags (1 <<< index) == 0) ≡ false

abbrev steps : ℕ → ℕ → ℕ
steps zero index = index
steps (suc n) index = steps n (next_index index)

search_sensor-steps :
    (n fuel flags index : ℕ)
    → (flags == 0) ≡ false
    → IsFlagged flags (steps n index)
    → n < fuel
    → (k : ℕ) × (search_sensor fuel flags index ≡ some k) × IsFlagged flags k
unfolding search_sensor
search_sensor-steps n zero flags index h s f = absurd (omega arith)
search_sensor-steps zero (suc fuel) flags index h s f = (index, rw (search_sensor, h, s) refl, s)
search_sensor-steps (suc n) (suc fuel) flags index h s f =
    elim (Bool-cases (bit_and flags (1 <<< index) == 0)) [
      | inr here ↦ (index, rw (search_sensor, h, here) refl, here)
      | inl clear ↦
          let (k, found, set_at) =
            search_sensor-steps n fuel flags (next_index index) h s (omega arith) in
          (k, rw (search_sensor, h, clear) found, set_at)
    ]

-- The rounds from one index to another.
abbrev distance : ℕ → ℕ → ℕ
distance index goal =
    if leb index goal then goal - index else if index == 8 then goal + 1 else 8 - index + goal

distances :
    all_below 9 (λ i. all_below 8 (λ j. steps (distance i j) i == j && leb (distance i j) 8)) ≡ true
distances = refl

both : (a b : Bool) → a && b ≡ true → (a ≡ true) × (b ≡ true)
both true b e = (refl, e)
both false b e = absurd (ground (arith, e))

leb_sound : (a b : ℕ) → leb a b ≡ true → a ≤ b
leb_sound a b e = ground (arith, e)

distance_lem : (i j : ℕ) → i < 9 → j < 8 → (steps (distance i j) i ≡ j) × (distance i j ≤ 8)
distance_lem i j hi hj =
    let row =
      all_below_sound 9
        (λ i. all_below 8 (λ j. steps (distance i j) i == j && leb (distance i j) 8)) i distances
        hi in
    let here =
      all_below_sound 8 (λ j. steps (distance i j) i == j && leb (distance i j) 8) j row hj in
    let (there, near) = both (steps (distance i j) i == j) (leb (distance i j) 8) here in
    ((==_iff (steps (distance i j) i) j).0 there, leb_sound (distance i j) 8 near)

-- What the search finds: the same index without a flag, else one whose flag is set.
picked :
    (a b : Bool) (index k : ℕ) (rest : Option ℕ)
    → (if a then some index else if b then rest else some index) ≡ some k
    → ((a ≡ true) × (k ≡ index)) ⊎ (((b ≡ false) × (k ≡ index)) ⊎ ((b ≡ true) × (rest ≡ some k)))
picked true b index k rest e = inl (refl, ground (arith, e))
picked false true index k rest e = inr (inr (refl, e))
picked false false index k rest e = inr (inl (refl, ground (arith, e)))

pub search_sensor-index :
    (fuel flags index k : ℕ)
    → index < 9
    → search_sensor fuel flags index ≡ some k
    → (k < 9) × (((flags == 0) ≡ true) ⊎ IsFlagged flags k)
unfolding search_sensor
search_sensor-index zero flags index k small e = absurd (ground (arith, e))
search_sensor-index (suc fuel) flags index k small e =
    elim (picked (flags == 0) (bit_and flags (1 <<< index) == 0) index k
      (search_sensor fuel flags (next_index index)) e) [
        | inl (zero_flags, same) ↦ (omega (arith, same, small), inl zero_flags)
        | inr (inl (set_at, same)) ↦
            (omega (arith, same, small), inr (subst (IsFlagged flags) (sym same) set_at))
        | inr (inr (clear, rest)) ↦
            search_sensor-index fuel flags (next_index index) k (ground arith) rest
      ]

-- With one of the first eight flags set nine rounds are enough, from each index.
pub search_sensor-found :
    (flags index goal : ℕ)
    → index < 9
    → goal < 8
    → IsFlagged flags goal
    → (k : ℕ) × (search_sensor 9 flags index ≡ some k)
unfolding search_sensor
search_sensor-found flags index goal hi hg s = elim (Bool-cases (flags == 0)) [
  | inl none_set ↦ (index, rw (search_sensor, none_set) refl)
  | inr some_set ↦
      let (there, near) = distance_lem index goal hi hg in
      let (k, found, set_at) =
        search_sensor-steps (distance index goal) 9 flags index some_set
          (subst (IsFlagged flags) (sym there) s) (omega arith) in
      (k, found)
]

-- With none of them set, but another flag, no number of rounds is.
pub search_sensor-lost :
    (fuel flags index : ℕ)
    → (flags == 0) ≡ false
    → ((j : ℕ) → j < 8 → (bit_and flags (1 <<< j) == 0) ≡ true)
    → index < 8
    → search_sensor fuel flags index ≡ none
unfolding search_sensor
search_sensor-lost zero flags index h clear small = refl
search_sensor-lost (suc fuel) flags index h clear small =
    rw (search_sensor, h, clear index small)
      (search_sensor-lost fuel flags (next_index index) h clear (ground arith))
