-- ===== src/Mqtt/Sent.antt =====
-- What the socket takes.
use okmx8mm.Base.{ℕ, zero, suc, ◌+◌, ◌≤◌, ◌<◌, ◌≡◌, refl, sym, ap, ◌∙◌, arith, List, [], ◌∷◌, ◌++◌}
use okmx8mm.Base.{
  Bool, true, false, Bool-cases, Option, some, length, take, drop, ◌==◌, ◌⊎◌, inl, inr,
}
use okmx8mm.Base.{append_assoc, append-nil, subst}
use okmx8mm.Mqtt.{Send, SendStatus, taken, interrupted, failure, send_all}

-- A stream socket: `log` are the bytes that it has taken. It takes no more than it is given, and
-- takes them from the front; a call that fails or is interrupted takes none. It is interrupted no
-- more often than `patience` says.
pub record IsSocket {W : Type 0} (send : Send W) (log : W → List ℕ) (patience : W → ℕ)
    : Type 0 where
  pub takes :
      (w : W) (bytes : List ℕ) (n : ℕ)
      → (send w bytes).0 ≡ taken n
      → (n ≤ length bytes)
        × (log (send w bytes).1 ≡ log w ++ take n bytes)
        × (patience (send w bytes).1 ≤ patience w)
  pub interrupts :
      (w : W) (bytes : List ℕ)
      → (send w bytes).0 ≡ interrupted
      → (log (send w bytes).1 ≡ log w) × (patience (send w bytes).1 < patience w)

take-drop : (n : ℕ) (xs : List ℕ) → take n xs ++ drop n xs ≡ xs
take-drop zero xs = refl
take-drop (suc n) [] = refl
take-drop (suc n) (x ∷ xs) = ap (λ t. x ∷ t) (take-drop n xs)

length-drop : (n : ℕ) (xs : List ℕ) → n ≤ length xs → length (drop n xs) + n ≡ length xs
length-drop zero xs h = omega arith
length-drop (suc n) [] h = absurd (omega arith)
length-drop (suc n) (x ∷ xs) h = omega (arith, length-drop n xs (omega arith))

status-cases : (s : SendStatus) → ((n : ℕ) × (s ≡ taken n)) ⊎ ((s ≡ interrupted) ⊎ (s ≡ failure))
status-cases (taken n) = inl (n, refl)
status-cases interrupted = inr (inl refl)
status-cases failure = inr (inr refl)

module _ {W : Type 0} (send : Send W) (log : W → List ℕ) (patience : W → ℕ)
    (socket : IsSocket send log patience) where
  -- A call of `send` with bytes to take fails, or takes none of them.
  abbrev pub HasFailed : Type 0
  HasFailed =
      (w : W) × (b : ℕ) × (bs : List ℕ) × (((send w (b ∷ bs)).0 ≡ failure)
        ⊎ ((send w (b ∷ bs)).0 ≡ taken 0))

  -- The run ends: with 0, and then the socket has taken all the bytes in order, or with -1.
  abbrev pub Done : List ℕ → Option Bool × W → Type 0
  Done goal result =
      ((result.0 ≡ some true) × (log result.1 ≡ goal)) ⊎ ((result.0 ≡ some false) × HasFailed)

  -- On a stream socket, with fuel for the bytes and the interruptions, `send_all` returns 0 after
  -- the socket has taken all the bytes, in order and none twice, or it returns -1, and only if a
  -- call of `send` can fail or take none of its bytes.
  pub send_all-Done :
      (fuel : ℕ) (bytes : List ℕ) (w : W)
      → length bytes + patience w < fuel
      → Done (log w ++ bytes) (send_all send fuel bytes w)
  unfolding send_all
  send_all-Done zero bytes w h = absurd (omega arith)
  send_all-Done (suc fuel) [] w h = inl (refl, sym (append-nil (log w)))
  send_all-Done (suc fuel) (b ∷ bs) w h =
      let bytes = b ∷ bs in
      let go_on : (suc (length bs) == 0) ≡ false = ground arith in
      let after = (send w bytes).1 in
      elim (status-cases (send w bytes).0) [
        | inr (inr e) ↦ rw (e, go_on) (inr (refl, (w, b, bs, inl e)))
        | inr (inl e) ↦
            let (same, less) = socket.interrupts w bytes e in
            rw (e, go_on)
              (subst (λ t. Done (t ++ bytes) (send_all send fuel bytes after)) same
                (send_all-Done fuel bytes after (omega arith)))
        | inl (n, e) ↦
            let (few, logged, left) = socket.takes w bytes n e in
            let shorter = length-drop n bytes few in
            elim (Bool-cases (n == 0)) [
              | inl none_taken ↦
                  (let zero_taken : n ≡ 0 = ground arith in
                    rw (e, none_taken, go_on)
                      (inr (refl, (w, b, bs, inr (e ∙ ap taken zero_taken)))))
              | inr some_taken ↦
                  let positive : 0 < n = ground arith in
                  rw (e, some_taken, go_on)
                    (subst (λ t. Done t (send_all send fuel (drop n bytes) after))
                      (ap (λ t. t ++ drop n bytes) logged
                        ∙ append_assoc (log w) (take n bytes) (drop n bytes)
                        ∙ ap (λ t. log w ++ t) (take-drop n bytes))
                      (send_all-Done fuel (drop n bytes) after (omega arith)))
            ]
      ]
