-- ===== src/Tests/Mqtt.antt =====
-- Tests of the MQTT packets.
use okmx8mm.Base.{ℕ, ◌≤◌, ◌<◌, ◌≡◌, refl, arith, List, [], ◌∷◌, ◌++◌, length, take, append-nil}
use okmx8mm.Mqtt.{Send, taken, interrupted, send_all}
use okmx8mm.Mqtt.Sent.{IsSocket, Done, send_all-Done}

-- A socket that takes one byte at a time.
abbrev slow : Send (List ℕ)
slow w [] = (taken 0, w)
slow w (b ∷ bs) = (taken 1, w ++ (b ∷ []))

slow-IsSocket : IsSocket slow (λ w. w) (λ w. 0)
slow-IsSocket = record { takes = takes; interrupts = interrupts }
  where
    takes :
        (w bytes : List ℕ) (n : ℕ)
        → (slow w bytes).0 ≡ taken n
        → (n ≤ length bytes) × ((slow w bytes).1 ≡ w ++ take n bytes) × (0 ≤ 0)
    takes w [] n e =
        let none_taken : n ≡ 0 = ground arith in
        (omega arith, rw (none_taken, append-nil w) refl, omega arith)
    takes w (b ∷ bs) n e =
        let one_taken : n ≡ 1 = ground arith in (omega arith, rw one_taken refl, omega arith)

    interrupts :
        (w bytes : List ℕ) → (slow w bytes).0 ≡ interrupted → ((slow w bytes).1 ≡ w) × (0 < 0)
    interrupts w [] e = absurd (ground arith)
    interrupts w (b ∷ bs) e = absurd (ground arith)

send_all-Done_example :
    Done slow
      (λ w. w)
      (λ w. 0)
      slow-IsSocket
      (9 ∷ 1 ∷ 2 ∷ 3 ∷ [])
      (send_all slow 4 (1 ∷ 2 ∷ 3 ∷ []) (9 ∷ []))
send_all-Done_example =
    send_all-Done slow (λ w. w) (λ w. 0) slow-IsSocket 4 (1 ∷ 2 ∷ 3 ∷ []) (9 ∷ []) (omega arith)
