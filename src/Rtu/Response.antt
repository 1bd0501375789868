-- ===== src/Rtu/Response.antt =====
-- The responses that the master of the collector takes, and what it keeps of them.
use Prim.Native.Nat.{bit_and, bit_or}
use okmx8mm.Base.{ℕ, zero, suc, ◌+◌, ◌*◌, ◌/◌, ◌%◌, ◌^◌, ◌≤◌, ◌<◌, ◌≡◌, refl, arith, ap, ◌∙◌, sym}
use okmx8mm.Base.{List, [], ◌∷◌, ◌++◌, Bool, true, false, ◌==◌, all_below, all_below_sound}
use okmx8mm.Base.{none, some, length, get_or, drop, take, ◌<<<◌, IsByte}
use okmx8mm.Base.{
  All, take-append, length-append, get_or-append_left, append_assoc, append-snoc, length-snoc,
  append-nil, length-take, subst, All-get_or, All-append, if◌then◌else◌, ◌⊎◌, inl, inr,
}
use okmx8mm.Base.Bits.{and_of_mask, or_of_fields}
use okmx8mm.Crc.{crc16_modbus}
use okmx8mm.Crc.Detect.{crc16-lt}
use okmx8mm.Crc.Table.{crc16_digest, digest-eq-crc16}
use okmx8mm.Rtu.{done, success, check, checked_data}

-- A response with its CRC, low byte first.
abbrev pub body : ℕ → List ℕ → List ℕ
body address xs = address ∷ 0x04 ∷ length xs ∷ xs

abbrev pub checksum : List ℕ → ℕ
checksum xs = crc16_modbus (some xs) (length xs)

abbrev pub framed : ℕ → List ℕ → List ℕ
framed address xs =
    let crc = checksum (body address xs) in body address xs ++ (crc % 2 ^ 8 ∷ crc / 2 ^ 8 ∷ [])

high_byte_stays : all_below 256 (λ high. bit_and (high <<< 8) 0xFF00 == high * 256) ≡ true
high_byte_stays = refl

-- The CRC out of its two bytes.
pub joined_crc :
    (low high : ℕ)
    → IsByte low
    → IsByte high
    → bit_or (bit_and (high <<< 8) 0xFF00) (bit_and low 0xFF) ≡ high * 2 ^ 8 + low
joined_crc low high hl hh = ground (
  arith,
  all_below_sound 256 (λ high. bit_and (high <<< 8) 0xFF00 == high * 256) high high_byte_stays hh,
  and_of_mask 8 low,
  or_of_fields 8 high low,
)

pub length-framed : (address : ℕ) (xs : List ℕ) → length (framed address xs) ≡ length xs + 5
length-framed address xs =
    let crc = checksum (body address xs) in
    ground (arith, length-append xs (crc % 2 ^ 8 ∷ crc / 2 ^ 8 ∷ []))

-- The comparison of the CRC, with its parts.
checked_data_lem :
    (expected : ℕ) (bytes : List ℕ) (crc : ℕ)
    → All IsByte bytes
    → crc16_digest false (take (expected + 3) bytes) ≡ some crc
    → checked_data false expected bytes ≡ (
        if get_or bytes (expected + 4) 0 * 2 ^ 8 + get_or bytes (expected + 3) 0 == crc
        then done (some (take expected (drop 3 bytes)))
        else done none)
unfolding checked_data
checked_data_lem expected bytes crc h e =
    let joined =
      joined_crc (get_or bytes (expected + 3) 0) (get_or bytes (expected + 4) 0)
        (All-get_or IsByte bytes (expected + 3) 0 h (omega arith))
        (All-get_or IsByte bytes (expected + 4) 0 h (omega arith)) in
    ground (arith, e, joined)

get_or_at :
    (xs : List ℕ) (y : ℕ) (ys : List ℕ) (i : ℕ) → length xs ≡ i → get_or (xs ++ (y ∷ ys)) i 0 ≡ y
get_or_at [] y ys zero h = refl
get_or_at [] y ys (suc i) h = absurd (omega arith)
get_or_at (x ∷ xs) y ys zero h = absurd (omega arith)
get_or_at (x ∷ xs) y ys (suc i) h = get_or_at xs y ys i (omega arith)

get_or_next :
    (xs : List ℕ) (y z : ℕ) (ys : List ℕ) (i : ℕ)
    → suc (length xs) ≡ i
    → get_or (xs ++ (y ∷ z ∷ ys)) i 0 ≡ z
get_or_next xs y z ys i h =
    rw (append-snoc xs (z ∷ ys) y)
      (get_or_at (xs ++ (y ∷ [])) z ys i (omega (arith, length-snoc xs y)))

-- The data of a response with the right CRC is returned, whatever follows.
pub checked_data-framed :
    (address : ℕ) (xs rest : List ℕ)
    → All IsByte (body address xs)
    → All IsByte rest
    → checked_data false (length xs) (framed address xs ++ rest) ≡ done (some xs)
checked_data-framed address xs rest h k =
    let crc = checksum (body address xs) in
    let tail = crc % 2 ^ 8 ∷ crc / 2 ^ 8 ∷ rest in
    let small = crc16-lt (body address xs) (length (body address xs)) in
    let bytes : All IsByte (body address xs ++ tail) =
      All-append IsByte (body address xs) tail h (omega arith, (omega arith, k)) in
    let front : take (length xs + 3) (body address xs ++ tail) ≡ body address xs =
      take-append (body address xs) tail (length xs + 3) (omega arith) in
    let digest = ap (crc16_digest false) front ∙ digest-eq-crc16 (body address xs) h in
    rw (append_assoc (body address xs) (crc % 2 ^ 8 ∷ crc / 2 ^ 8 ∷ []) rest) (
      checked_data_lem (length xs) (body address xs ++ tail) crc bytes digest
      ∙ ground (
        arith,
        get_or_at (body address xs) (crc % 2 ^ 8) (crc / 2 ^ 8 ∷ rest) (length xs + 3),
        get_or_next (body address xs) (crc % 2 ^ 8) (crc / 2 ^ 8) rest (length xs + 4),
        take-append xs tail (length xs) refl,
      ))

-- Two elements by themselves in the middle of a list.
split_two :
    (n : ℕ) (xs : List ℕ)
    → n + 2 ≤ length xs
    → xs ≡ take n xs ++ (get_or xs n 0 ∷ get_or xs (suc n) 0 ∷ drop (suc (suc n)) xs)
split_two n [] h = absurd (omega arith)
split_two n (x ∷ []) h = absurd (omega arith)
split_two zero (x ∷ y ∷ xs) h = refl
split_two (suc n) (x ∷ y ∷ xs) h = ap (λ t. x ∷ t) (split_two n (y ∷ xs) (omega arith))

pub All-take : (n : ℕ) (xs : List ℕ) → All IsByte xs → All IsByte (take n xs)
All-take zero xs h = tt
All-take (suc n) [] h = tt
All-take (suc n) (x ∷ xs) h = (h.0, All-take n xs h.1)

if_done :
    (b : Bool) (xs ys : List ℕ)
    → (if b then done (some xs) else done none) ≡ done (some ys)
    → (b ≡ true) × (xs ≡ ys)
if_done true xs ys e = (refl, ground (arith, e))
if_done false xs ys e = absurd (ground (arith, e))

two_bytes :
    (low high crc : ℕ)
    → IsByte low
    → high * 2 ^ 8 + low ≡ crc
    → (low ≡ crc % 2 ^ 8) × (high ≡ crc / 2 ^ 8)
two_bytes low high crc h e = omega arith

-- What is returned stood in a response with the right CRC.
pub framed-checked_data :
    (address expected : ℕ) (ds xs : List ℕ)
    → let bytes = address ∷ 0x04 ∷ expected ∷ ds in
      All IsByte bytes
      → expected + 2 ≤ length ds
      → checked_data false expected bytes ≡ done (some xs)
      → (length xs ≡ expected) × (bytes ≡ framed address xs ++ drop (suc (suc expected)) ds)
framed-checked_data address expected ds xs h long e =
    let bytes = address ∷ 0x04 ∷ expected ∷ ds in
    let kept = take expected ds in
    let front = address ∷ 0x04 ∷ expected ∷ kept in
    let three : expected + 3 ≡ suc (suc (suc expected)) = omega arith in
    let short : take (expected + 3) bytes ≡ front = ap (λ n. take n bytes) three in
    let digest =
      ap (crc16_digest false) short
      ∙ digest-eq-crc16 front (h.0, (h.1.0, (h.1.1.0, All-take expected ds h.1.1.1))) in
    let (equal, same) =
      if_done
        (get_or bytes (expected + 4) 0 * 2 ^ 8 + get_or bytes (expected + 3) 0 == checksum front)
        (take expected (drop 3 bytes)) xs
        (sym (checked_data_lem expected bytes (checksum front) h digest) ∙ e) in
    let crc = checksum front in
    let rest = drop (suc (suc expected)) ds in
    let whole : length kept ≡ expected = length-take expected ds (omega arith) in
    let (low, high) =
      two_bytes (get_or ds expected 0) (get_or ds (suc expected) 0) crc
        (All-get_or IsByte ds expected 0 h.1.1.1 (omega arith)) (ground (arith, equal)) in
    let tail : ds ≡ (kept ++ (crc % 2 ^ 8 ∷ crc / 2 ^ 8 ∷ [])) ++ rest =
      split_two expected ds long
      ∙ ap (λ t. kept ++ t) (rw (low, high) refl)
      ∙ sym (append_assoc kept (crc % 2 ^ 8 ∷ crc / 2 ^ 8 ∷ []) rest) in
    subst (λ ys. (length ys ≡ expected) × (bytes ≡ framed address ys ++ rest)) same
      (
        whole,
        subst
            (λ n.
              let c = checksum (address ∷ 0x04 ∷ n ∷ kept) in
              bytes ≡ ((address ∷ 0x04 ∷ n ∷ kept) ++ (c % 2 ^ 8 ∷ c / 2 ^ 8 ∷ [])) ++ rest)
            (sym whole) (ap (λ t. address ∷ 0x04 ∷ expected ∷ t) tail),
      )

check-framed :
    (address : ℕ) (xs : List ℕ) → check address (length xs) (framed address xs) ≡ some success
unfolding check
check-framed address xs =
    let crc = checksum (body address xs) in
    ground (arith, length-append xs (crc % 2 ^ 8 ∷ crc / 2 ^ 8 ∷ []))

check-part :
    (address n : ℕ) (bytes : List ℕ)
    → length bytes < n + 5
    → (0 < length bytes → get_or bytes 0 0 ≡ address)
    → (1 < length bytes → get_or bytes 1 0 ≡ 0x04)
    → (2 < length bytes → get_or bytes 2 0 ≡ n)
    → check address n bytes ≡ none
unfolding check
check-part address n bytes short h0 h1 h2 = ground arith

-- The checks on a part of a response from the front: all of it ends the loop, less goes on.
pub check-prefix :
    (address : ℕ) (xs front back : List ℕ)
    → front ++ back ≡ framed address xs
    → ((length front < length xs + 5) × (check address (length xs) front ≡ none))
      ⊎ ((front ≡ framed address xs) × (check address (length xs) front ≡ some success))
check-prefix address xs front [] e =
    let whole = sym (append-nil front) ∙ e in
    inr (whole, ap (check address (length xs)) whole ∙ check-framed address xs)
check-prefix address xs front (b ∷ back) e =
    let short : length front < length xs + 5 =
      omega (arith, length-append front (b ∷ back), ap length e, length-framed address xs) in
    let same : (i : ℕ) → i < length front → get_or front i 0 ≡ get_or (framed address xs) i 0 =
      λ i h. sym (get_or-append_left front (b ∷ back) i 0 h) ∙ ap (λ t. get_or t i 0) e in
    inl (short, check-part address (length xs) front short (same 0) (same 1) (same 2))
