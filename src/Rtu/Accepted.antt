-- ===== src/Rtu/Accepted.antt =====
-- What the master of the collector returns has stood on the line.
use okmx8mm.Base.{ℕ, suc, ◌+◌, ◌≤◌, ◌≡◌, refl, arith, ap, ◌∙◌, sym, inl, inr, ◌⊎◌}
use okmx8mm.Base.{List, [], ◌∷◌, ◌++◌, Bool, true, false, Option, none, some, length, IsByte, All}
use okmx8mm.Base.{ltb, drop, subst, ◌||◌, if◌then◌else◌}
use okmx8mm.Rtu.{Line, Stop}
use okmx8mm.Rtu.{
  Ended, done, outside, running, read_response, check, checked_data, finish, skip_loop,
}
use okmx8mm.Rtu.{write_loop, read_registers}
use okmx8mm.Rtu.Response.{framed, framed-checked_data}
use okmx8mm.Rtu.Fragments.{asked, request-asked}
use okmx8mm.Rtu.Kept.{IsLine, IsKept, IsKept-short, stop_of, read_response-IsKept}

-- The checks let only a whole response of the device pass.
check-passed :
    (address expected : ℕ) (bytes : List ℕ) (stop : Stop)
    → check address expected bytes ≡ some stop
    → stop.error ≡ false
    → (ds : List ℕ) × (bytes ≡ address ∷ 0x04 ∷ expected ∷ ds) × (expected + 2 ≤ length ds)
unfolding check
check-passed address expected [] stop e ok = absurd (ground (arith, e, ok))
check-passed address expected (x ∷ []) stop e ok = absurd (ground (arith, e, ok))
check-passed address expected (x ∷ y ∷ []) stop e ok = absurd (ground (arith, e, ok))
check-passed address expected (x ∷ y ∷ z ∷ ds) stop e ok =
    let parts : (x ≡ address) × (y ≡ 0x04) × (z ≡ expected) × (expected + 2 ≤ length ds) =
      ground (arith, e, ok) in
    (ds, rw (parts.0, parts.1, parts.2) refl, parts.3)

finish-cases :
    {L : Type 0} (line : Line L) (fuel expected : ℕ) (stop : Stop) (bytes : List ℕ) (l : L)
    → let result = (finish line fuel false expected (stop, bytes, l)).0 in
      (result ≡ (if stop.error then done none else checked_data false expected bytes))
      ⊎ ((result ≡ outside) ⊎ (result ≡ running))
unfolding finish
finish-cases line fuel expected stop bytes l =
    go (stop.data_exception || ltb (3 + expected + 2) (length bytes)) (skip_loop line fuel l).0 refl
      refl
  where
    go :
        (skips : Bool) (skipped : Ended Bool)
        → (stop.data_exception || ltb (3 + expected + 2) (length bytes)) ≡ skips
        → (skip_loop line fuel l).0 ≡ skipped
        → let result = (finish line fuel false expected (stop, bytes, l)).0 in
          (result ≡ (if stop.error then done none else checked_data false expected bytes))
          ⊎ ((result ≡ outside) ⊎ (result ≡ running))
    go false skipped e f = rw (finish, e) (inl refl)
    go true (done finished) e f = rw (finish, e, f) (inl refl)
    go true outside e f = rw (finish, e, f) (inr (inl refl))
    go true running e f = rw (finish, e, f) (inr (inr refl))

finish-passed :
    {L : Type 0} (line : Line L) (fuel expected : ℕ) (stop : Stop) (bytes xs : List ℕ) (l : L)
    → (finish line fuel false expected (stop, bytes, l)).0 ≡ done (some xs)
    → (stop.error ≡ false) × (checked_data false expected bytes ≡ done (some xs))
finish-passed line fuel expected stop bytes xs l e =
    elim (finish-cases line fuel expected stop bytes l) [
      | inl same ↦ passed stop.error (sym same ∙ e)
      | inr (inl out) ↦ absurd (ground (arith, sym out ∙ e))
      | inr (inr out) ↦ absurd (ground (arith, sym out ∙ e))
    ]
  where
    passed :
        (error : Bool)
        → (if error then done none else checked_data false expected bytes) ≡ done (some xs)
        → (error ≡ false) × (checked_data false expected bytes ≡ done (some xs))
    passed true f = absurd (ground (arith, f))
    passed false f = (refl, f)

framed-passed :
    (address expected : ℕ) (bytes xs : List ℕ) (stop : Stop)
    → All IsByte bytes
    → check address expected bytes ≡ some stop
    → stop.error ≡ false
    → checked_data false expected bytes ≡ done (some xs)
    → (length xs ≡ expected) × (bytes ≡ framed address xs ++ drop (expected + 5) bytes)
framed-passed address expected bytes xs stop fit e ok passed =
    let (ds, shape, long) = check-passed address expected bytes stop e ok in
    let (same, whole) =
      framed-checked_data address expected ds xs (subst (All IsByte) shape fit) long
        (ap (checked_data false expected) (sym shape) ∙ passed) in
    let five : expected + 5 ≡ suc (suc (suc (suc (suc expected)))) = omega arith in
    (same, rw (shape, five) whole)

-- The data that is returned, if there is any, and the bytes that are kept of the response.
abbrev pub Accepted : ℕ → ℕ → List ℕ → Ended (Option (List ℕ)) → Type 0
Accepted address expected kept outside = Unit
Accepted address expected kept running = Unit
Accepted address expected kept (done none) = Unit
Accepted address expected kept (done (some xs)) =
    (length xs ≡ expected) × (kept ≡ framed address xs ++ drop (expected + 5) kept)

module _ {L : Type 0} (line : Line L) (lawful : IsLine line) where
  -- What follows the two loops.
  abbrev follow : ℕ → ℕ → Ended ℕ → Ended Stop → List ℕ × L → Ended (Option (List ℕ))
  follow fuel expected outside ended got = outside
  follow fuel expected running ended got = running
  follow fuel expected (done total) outside got = outside
  follow fuel expected (done total) running got = running
  follow fuel expected (done total) (done stop) got =
      (finish line fuel false expected (stop, got.0, got.1)).0

  read_registers-follow :
      (fuel address start count expected : ℕ) (written : Ended ℕ) (ended : Ended Stop) (l : L)
      → let wrote = write_loop line fuel (asked address start count) 0 l in
        let got = read_response line fuel address expected [] wrote.1 in
        wrote.0 ≡ written
        → got.0 ≡ ended
        → (read_registers line fuel false address start count expected l).0
          ≡ follow fuel expected written ended (got.1, got.2)
  unfolding read_registers
  read_registers-follow fuel address start count expected outside ended l f g =
      rw (read_registers, request-asked address start count, f) refl
  read_registers-follow fuel address start count expected running ended l f g =
      rw (read_registers, request-asked address start count, f) refl
  read_registers-follow fuel address start count expected (done total) outside l f g =
      rw (read_registers, request-asked address start count, f, g) refl
  read_registers-follow fuel address start count expected (done total) running l f g =
      rw (read_registers, request-asked address start count, f, g) refl
  read_registers-follow fuel address start count expected (done total) (done stop) l f g =
      rw (read_registers, request-asked address start count, f, g) refl

  -- Data that is returned stood in a response of the device.
  read_registers-some :
      (fuel address start count expected : ℕ) (xs : List ℕ) (l : L)
      → (read_registers line fuel false address start count expected l).0 ≡ done (some xs)
      → let wrote = write_loop line fuel (asked address start count) 0 l in
        let got = read_response line fuel address expected [] wrote.1 in
        Accepted address expected got.1 (done (some xs))
  read_registers-some fuel address start count expected xs l e =
      go wrote.0 got.0 refl refl (
        sym (read_registers-follow fuel address start count expected wrote.0 got.0 l refl refl) ∙ e)
    where
      wrote : Ended ℕ × L
      wrote = write_loop line fuel (asked address start count) 0 l

      got : Ended Stop × List ℕ × L
      got = read_response line fuel address expected [] wrote.1

      go :
          (written : Ended ℕ) (ended : Ended Stop)
          → wrote.0 ≡ written
          → got.0 ≡ ended
          → follow fuel expected written ended (got.1, got.2) ≡ done (some xs)
          → Accepted address expected got.1 (done (some xs))
      go outside ended f g h = absurd (ground (arith, h))
      go running ended f g h = absurd (ground (arith, h))
      go (done total) outside f g h = absurd (ground (arith, h))
      go (done total) running f g h = absurd (ground (arith, h))
      go (done total) (done stop) f g h =
          let (ok, passed) = finish-passed line fuel expected stop got.1 xs got.2 h in
          let (fits, fit, checked) =
            subst (λ ended. IsKept address expected (stop_of ended) got.1) g
              (read_response-IsKept line lawful address expected fuel [] wrote.1 (omega arith)
                tt) in
          framed-passed address expected got.1 xs stop fit (checked ok) ok passed

  -- On a line whose reads give bytes, and no more than they are told to: however the exchange ends,
  -- the bytes that are kept of the response fit into the buffer of 256 bytes, and data that is
  -- returned has the length asked for and stood, in these bytes, in a response of the device with
  -- function 4 and the right CRC.
  pub read_registers-framed :
      (fuel address start count expected : ℕ) (l : L)
      → let wrote = write_loop line fuel (asked address start count) 0 l in
        let got = read_response line fuel address expected [] wrote.1 in
        (length got.1 ≤ 256)
        × Accepted address expected got.1
            (read_registers line fuel false address start count expected l).0
  read_registers-framed fuel address start count expected l = (
    IsKept-short address expected (stop_of got.0) got.1
        (read_response-IsKept line lawful address expected fuel [] wrote.1 (omega arith) tt),
    go (read_registers line fuel false address start count expected l).0 refl,
  )
    where
      wrote : Ended ℕ × L
      wrote = write_loop line fuel (asked address start count) 0 l

      got : Ended Stop × List ℕ × L
      got = read_response line fuel address expected [] wrote.1

      go :
          (result : Ended (Option (List ℕ)))
          → (read_registers line fuel false address start count expected l).0 ≡ result
          → Accepted address expected got.1 result
      go outside e = tt
      go running e = tt
      go (done none) e = tt
      go (done (some xs)) e = read_registers-some fuel address start count expected xs l e
