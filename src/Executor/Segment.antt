-- ===== src/Executor/Segment.antt =====
-- What the queue's memory holds between its two indices.
use okmx8mm.Base.{ℕ, zero, suc, ◌+◌, ◌%◌, ◌≤◌, ◌<◌, ◌≡◌, ◌⊎◌, arith}
use okmx8mm.Base.{List, [], ◌∷◌, ◌++◌, length, subst}
use okmx8mm.Executor.{write_element}

-- The next index of a ring.
pub next-cases :
    (n i : ℕ) → i < n → ((i + 1 < n) × ((i + 1) % n ≡ i + 1)) ⊎ ((i + 1 ≡ n) × ((i + 1) % n ≡ 0))
next-cases n i h = grind arith

-- From the index `start` on the elements are `xs`.
abbrev pub Segment : {A : Type 0} → ℕ → (ℕ → A) → ℕ → List A → Type 0
Segment n elements start [] = Unit
Segment n elements start (x ∷ xs) = (elements start ≡ x) × Segment n elements ((start + 1) % n) xs

-- `end` is `k` steps behind `start`.
abbrev pub IsBehind : ℕ → ℕ → ℕ → ℕ → Type 0
IsBehind n start k end = (start < n) × (end < n) × ((end ≡ start + k) ⊎ (end + n ≡ start + k))

pub next-IsBehind :
    (n start k end : ℕ) → IsBehind n start (suc k) end → IsBehind n ((start + 1) % n) k end
next-IsBehind n start k end h = ground (arith, next-cases n start)

pub end-IsBehind :
    (n start k end : ℕ) → k < n → IsBehind n start k end → IsBehind n start (suc k) ((end + 1) % n)
end-IsBehind n start k end small h = ground (arith, next-cases n end)

-- A write behind the elements leaves them alone.
pub Segment-write :
    {A : Type 0} (n : ℕ) (elements : ℕ → A) (start k end : ℕ) (v : A) (xs : List A)
    → IsBehind n start k end
    → length xs ≤ k
    → k < n
    → Segment n elements start xs
    → Segment n (write_element elements end v) start xs
unfolding write_element
Segment-write n elements start k end v [] h short small s = tt
Segment-write n elements start zero end v (x ∷ xs) h short small s = absurd (omega arith)
Segment-write n elements start (suc k) end v (x ∷ xs) h short small s = (
  ground arith,
  Segment-write n elements ((start + 1) % n) k end v xs (next-IsBehind n start k end h)
      (omega arith) (omega arith) s.1,
)

pub write_element-same :
    {A : Type 0} (elements : ℕ → A) (i : ℕ) (v : A) → write_element elements i v i ≡ v
unfolding write_element
write_element-same elements i v = ground arith

-- An element behind the last one.
pub Segment-snoc :
    {A : Type 0} (n : ℕ) (elements : ℕ → A) (start end : ℕ) (v : A) (xs : List A)
    → IsBehind n start (length xs) end
    → length xs < n
    → elements end ≡ v
    → Segment n elements start xs
    → Segment n elements start (xs ++ (v ∷ []))
Segment-snoc n elements start end v [] h small e s =
    (subst (λ i. elements i ≡ v) (omega arith) e, tt)
Segment-snoc n elements start end v (x ∷ xs) h small e s = (
  s.0,
  Segment-snoc n elements ((start + 1) % n) end v xs (next-IsBehind n start (length xs) end h)
      (omega arith) e s.1,
)
