-- ===== src/Rtu/Fragments.antt =====
-- A response that arrives in pieces.
use okmx8mm.Base.{ℕ, zero, suc, ◌+◌, ◌≤◌, ◌<◌, ◌-◌, ◌≡◌, refl, arith, ap, ◌∙◌, sym, inl, inr}
use okmx8mm.Base.{List, [], ◌∷◌, ◌++◌, true, false, some, length, IsByte, All}
use okmx8mm.Base.{append_assoc, length-append, append-nil, ltb}
use okmx8mm.Rtu.{Line, ready, done, success, read_more, read_round, read_response}
use Prim.Native.Nat.{bit_and}
use okmx8mm.Base.{leb, pos, ◌>>>◌}
use okmx8mm.Base.Bits.{and_of_mask}
use okmx8mm.Crc.Table.{digest-eq-crc16}
use okmx8mm.Rtu.{request_head, request, write_loop, read_registers, finish, checked_data, check}
use okmx8mm.Rtu.Response.{checksum, framed, body, length-framed, check-prefix, checked_data-framed}

abbrev pub joined : List (List ℕ) → List ℕ
joined [] = []
joined (piece ∷ pieces) = piece ++ joined pieces

module _ {L : Type 0} (line : Line L) where
  -- From `l` on the line gives these pieces, one for each round, with no shutdown before one.
  abbrev pub Delivers : L → List (List ℕ) → Type 0
  Delivers l [] = Unit
  Delivers l (piece ∷ pieces) =
      let selected = line.select l in
      let size = line.available selected.1 in
      let got = line.read size.1 (length piece) in
      (line.is_shutdown l ≡ false)
      × (selected.0 ≡ ready true)
      × (size.0 ≡ some (length piece))
      × (got.0 ≡ some piece)
      × Delivers got.1 pieces

  abbrev after_piece : L → List ℕ → L
  after_piece l piece = (line.read (line.available (line.select l).1).1 (length piece)).1

  read_round-piece :
      (address expected : ℕ) (bytes piece : List ℕ) (l : L)
      → (line.select l).0 ≡ ready true
      → (line.available (line.select l).1).0 ≡ some (length piece)
      → (line.read (line.available (line.select l).1).1 (length piece)).0 ≡ some piece
      → length bytes + length piece ≤ 256
      → read_round line address expected bytes l
        ≡ (check address expected (bytes ++ piece), bytes ++ piece, after_piece l piece)
  unfolding read_round read_more
  read_round-piece address expected bytes piece l h0 h1 h2 room =
      let fits : ltb (256 - length bytes) (length piece) ≡ false = ground arith in
      rw (read_round, h0, read_more, h1, h2, fits) refl

  -- The loop ends with the whole response.
  read_response-pieces :
      (fuel address : ℕ) (xs bytes : List ℕ) (pieces : List (List ℕ)) (l : L)
      → length xs + 5 ≤ 256
      → length bytes < length xs + 5
      → bytes ++ joined pieces ≡ framed address xs
      → Delivers l pieces
      → length pieces ≤ fuel
      → (l' : L) × (read_response line fuel address (length xs) bytes l
          ≡ (done success, framed address xs, l'))
  unfolding read_response
  read_response-pieces fuel address xs bytes [] l fits short e d f =
      absurd (omega (arith, ap length (sym (append-nil bytes) ∙ e), length-framed address xs))
  read_response-pieces zero address xs bytes (piece ∷ pieces) l fits short e d f =
      absurd (omega arith)
  read_response-pieces (suc fuel) address xs bytes (piece ∷ pieces) l fits short e
        (on, h0, h1, h2, d) f =
      let e' = append_assoc bytes piece (joined pieces) ∙ e in
      let total : length bytes + length piece ≤ 256 = omega (
        arith,
        ap length e',
        length-append bytes piece,
        length-framed address xs,
        length-append (bytes ++ piece) (joined pieces),
      ) in
      let round = read_round-piece address (length xs) bytes piece l h0 h1 h2 total in
      elim (check-prefix address xs (bytes ++ piece) (joined pieces) e') [
        | inl (less, c) ↦
            let (l', rest) =
              read_response-pieces fuel address xs (bytes ++ piece) pieces (after_piece l piece)
                fits less e' d (omega arith) in
            (l', rw (on, round, c, round) rest)
        | inr (whole, c) ↦ (after_piece l piece, rw (on, round, c, round, whole) refl)
      ]

-- The request with its CRC.
abbrev pub asked : ℕ → ℕ → ℕ → List ℕ
asked address start count =
    let crc = checksum (request_head address start count) in
    request_head address start count ++ (bit_and crc 0xFF ∷ bit_and (crc >>> 8) 0xFF ∷ [])

masked-IsByte : (n : ℕ) → IsByte (bit_and n 0xFF)
masked-IsByte n = omega (arith, and_of_mask 8 n)

pub request-asked :
    (address start count : ℕ) → request false address start count ≡ some (asked address start count)
unfolding request
request-asked address start count =
    rw
      (
        request,
        digest-eq-crc16 (request_head address start count) (
          omega arith,
          (
            omega arith,
            (
              masked-IsByte (start >>> 8),
              (masked-IsByte start, (masked-IsByte (count >>> 8), (masked-IsByte count, tt))),
            ),
          ),
        ),
      )
      refl

module _ {L : Type 0} (line : Line L) where
  write_loop-whole :
      (fuel : ℕ) (bytes : List ℕ) (l l1 : L)
      → line.write l bytes ≡ (pos (length bytes), l1)
      → 0 < length bytes
      → write_loop line (suc (suc fuel)) bytes 0 l ≡ (done (length bytes), l1)
  unfolding write_loop
  write_loop-whole fuel bytes l l1 h some_bytes =
      let first : leb (length bytes) 0 ≡ false = ground arith in
      let last : leb (length bytes) (length bytes) ≡ true = ground arith in
      let plain : 0 + length bytes ≡ length bytes = omega arith in rw (h, first, plain, last) refl

  -- A valid response that arrives in any pieces within the line's time is accepted: if the line
  -- takes the request, and there is fuel for the pieces, the master returns the data.
  pub read_registers-pieces :
      (fuel address start count : ℕ) (xs : List ℕ) (pieces : List (List ℕ)) (l l1 : L)
      → All IsByte (body address xs)
      → length xs + 5 ≤ 256
      → line.write l (asked address start count) ≡ (pos 8, l1)
      → joined pieces ≡ framed address xs
      → Delivers line l1 pieces
      → length pieces ≤ fuel
      → 2 ≤ fuel
      → (l' : L) × (read_registers line fuel false address start count (length xs) l
          ≡ (done (some xs), l'))
  unfolding read_registers finish
  read_registers-pieces zero address start count xs pieces l l1 h fits w e d f g =
      absurd (omega arith)
  read_registers-pieces (suc zero) address start count xs pieces l l1 h fits w e d f g =
      absurd (omega arith)
  read_registers-pieces (suc (suc fuel)) address start count xs pieces l l1 h fits w e d f g =
      let wrote = write_loop-whole fuel (asked address start count) l l1 w (omega arith) in
      let (l', got) =
        read_response-pieces line (suc (suc fuel)) address xs [] pieces l1 fits (omega arith) e d
          f in
      let exact : ltb (3 + length xs + 2) (length (framed address xs)) ≡ false =
        ground (arith, length-framed address xs) in
      let data_ok =
        ap (checked_data false (length xs)) (sym (append-nil (framed address xs)))
        ∙ checked_data-framed address xs [] h tt in
      (
        l',
        rw
            (
              read_registers,
              request-asked address start count,
              wrote,
              wrote,
              got,
              wrote,
              got,
              finish,
              exact,
              data_ok,
            )
            refl,
      )
