-- ===== src/Base/Ends.antt =====
-- Lists that grow at the end, and arrays that are filled from the front.
use Prim.Native.Nat.{ℕ, suc}
use mathlib.Core.Path.{◌≡◌, refl, sym, ap, ◌∙◌}
use mathlib.Core.List.{List, [], ◌∷◌, ◌++◌, map}
use native.Mathlib.Omega.{arith}
use okmx8mm.Base.Lists.{length, get_or, set, replicate, length-append}

pub set-append {ℓ} :
    {A : Type ℓ} (xs : List A) (y : A) (ys : List A) (v : A)
    → set (xs ++ (y ∷ ys)) (length xs) v ≡ xs ++ (v ∷ ys)
set-append [] y ys v = refl
set-append (x ∷ xs) y ys v = ap (λ t. x ∷ t) (set-append xs y ys v)

pub get_or-append {ℓ} :
    {A : Type ℓ} (xs : List A) (y : A) (ys : List A) (d : A)
    → get_or (xs ++ (y ∷ ys)) (length xs) d ≡ y
get_or-append [] y ys d = refl
get_or-append (x ∷ xs) y ys d = get_or-append xs y ys d

pub append-snoc {ℓ} :
    {A : Type ℓ} (xs ys : List A) (v : A) → xs ++ (v ∷ ys) ≡ (xs ++ (v ∷ [])) ++ ys
append-snoc [] ys v = refl
append-snoc (x ∷ xs) ys v = ap (λ t. x ∷ t) (append-snoc xs ys v)

pub length-map {ℓ κ} :
    {A : Type ℓ} {B : Type κ} (f : A → B) (xs : List A) → length (map f xs) ≡ length xs
length-map f [] = refl
length-map f (x ∷ xs) = ap suc (length-map f xs)

pub map-append {ℓ κ} :
    {A : Type ℓ} {B : Type κ} (f : A → B) (xs ys : List A) → map f (xs ++ ys) ≡ map f xs ++ map f ys
map-append f [] ys = refl
map-append f (x ∷ xs) ys = ap (λ t. f x ∷ t) (map-append f xs ys)

-- A write to the first free entry of an array.
pub set_free {ℓ} :
    {A : Type ℓ} (xs : List A) (z v : A) (i n : ℕ)
    → length xs ≡ i
    → set (xs ++ replicate (suc n) z) i v ≡ (xs ++ (v ∷ [])) ++ replicate n z
set_free xs z v i n h =
    ap (λ j. set (xs ++ (z ∷ replicate n z)) j v) (sym h)
    ∙ set-append xs z (replicate n z) v
    ∙ append-snoc xs (replicate n z) v

pub length-snoc {ℓ} : {A : Type ℓ} (xs : List A) (v : A) → length (xs ++ (v ∷ [])) ≡ suc (length xs)
length-snoc xs v = length-append xs (v ∷ []) ∙ omega arith

pub append_assoc {ℓ} : {A : Type ℓ} (xs ys zs : List A) → (xs ++ ys) ++ zs ≡ xs ++ (ys ++ zs)
append_assoc [] ys zs = refl
append_assoc (x ∷ xs) ys zs = ap (λ t. x ∷ t) (append_assoc xs ys zs)
