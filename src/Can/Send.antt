-- ===== src/Can/Send.antt =====
-- The two senders.
use okmx8mm.Base.{
  ℕ, zero, suc, ◌+◌, ◌≤◌, ◌<◌, ◌^◌, ◌%◌, failed, Bool-cases, ◌≡◌, refl, arith, Bool, true, ℤ, pos,
  minus,
}
use okmx8mm.Base.{◌⊎◌, inl, inr, if◌then◌else◌}
use okmx8mm.Sample.{Sample}
use okmx8mm.Can.{Frame, Written, whole, interrupted, short, frame_bytes}
use okmx8mm.Can.{linux_loop, linux_send, stm32_loop, stm32_send, stm32_base_id}
use okmx8mm.Can.Payload.{encode_sample_lem}

-- The frame with this index.
abbrev pub frame_at : Sample → ℕ → ℕ → Frame
frame_at s base index = record { id = base + index; dlc = 8; bytes = frame_bytes s index }

module _ {W : Type 0} (write : W → Frame → Written × W) (s : Sample) (base : ℕ)
    (fits : base ≤ 0x7FA) where
  -- The state after the frames from `index` on have been written, `n` of them.
  abbrev pub after_frames : ℕ → ℕ → W → W
  after_frames zero index w = w
  after_frames (suc n) index w = after_frames n (index + 1) (write w (frame_at s base index)).1

  -- All of these writes are whole.
  abbrev pub AllWhole : ℕ → ℕ → W → Type 0
  AllWhole zero index w = Unit
  AllWhole (suc n) index w =
      ((write w (frame_at s base index)).0 ≡ whole)
      × AllWhole n (index + 1) (write w (frame_at s base index)).1

  -- How the write of a frame fails, and the code that tells it.
  abbrev pub Failed : Written → ℤ → Type 0
  Failed status code =
      ((status ≡ interrupted) × (code ≡ minus 3)) ⊎ ((status ≡ short) × (code ≡ minus 4))

  -- Behind `n` whole writes from `index` on, the next write fails and gives the code.
  abbrev pub StopsBehind : ℕ → ℕ → W → ℤ → Type 0
  StopsBehind zero index w code = Failed (write w (frame_at s base index)).0 code
  StopsBehind (suc n) index w code =
      ((write w (frame_at s base index)).0 ≡ whole)
      × StopsBehind n (index + 1) (write w (frame_at s base index)).1 code

  -- How a run over `left` frames ends: all are written, or it stops at a failed write behind `n`
  -- whole ones.
  abbrev pub Outcome : ℕ → ℕ → W → ℤ × W → Type 0
  Outcome left index w result =
      (AllWhole left index w × (result ≡ (pos 0, after_frames left index w)))
      ⊎ ((n : ℕ) × (n < left)
          × StopsBehind n index w result.0
          × (result.1 ≡ after_frames (suc n) index w))

  linux_loop-Outcome :
      (left index : ℕ) (w : W)
      → index + left ≡ 6
      → Outcome left index w (linux_loop write left index s base w)
  unfolding linux_loop
  linux_loop-Outcome zero index w h = inl (tt, refl)
  linux_loop-Outcome (suc left) index w h =
      rw ((encode_sample_lem s base index fits (omega arith)).0, linux_loop)
        (by_write (write w (frame_at s base index)).0 refl
          (linux_loop-Outcome left (index + 1) (write w (frame_at s base index)).1 (omega arith)))
    where
      after : W
      after = (write w (frame_at s base index)).1

      by_write :
          (outcome : Written)
          → (write w (frame_at s base index)).0 ≡ outcome
          → Outcome left (index + 1) after (linux_loop write left (index + 1) s base after)
          → Outcome (suc left) index w (elim outcome as (λ _. ℤ × W) [
            | whole ↦ linux_loop write left (index + 1) s base after
            | interrupted ↦ (minus 3, after)
            | short ↦ (minus 4, after)
          ])
      by_write whole e (inl (all, ended)) = inl ((e, all), ended)
      by_write whole e (inr (n, below, stops, stopped)) =
          inr (suc n, omega arith, (e, stops), stopped)
      by_write interrupted e rest = inr (0, omega arith, inl (e, refl), refl)
      by_write short e rest = inr (0, omega arith, inr (e, refl), refl)

  -- With a base up to 0x7FA the A53 sender either writes the six frames whole, in the order of
  -- their indices, and returns 0, or it stops behind fewer than six whole writes at one that is
  -- not, and returns -3 if `errno` then says that it was interrupted and -4 if not.
  pub linux_send-Outcome : (w : W) → Outcome 6 0 w (linux_send write true s base w)
  unfolding linux_send
  linux_send-Outcome w = linux_loop-Outcome 6 0 w (omega arith)

module _ {W : Type 0} (add_message : W → Frame → Bool × W) (s : Sample) where
  -- The HAL's mailbox as a socket.
  abbrev pub as_write : W → Frame → Written × W
  as_write w frame = ((if (add_message w frame).0 then whole else short), (add_message w frame).1)

  -- The code of the one sender for that of the other.
  abbrev pub as_code : ℤ → ℤ
  as_code code = if failed code then minus 4 else code

  loops_agree :
      (left index : ℕ) (w : W)
      → index + left ≡ 6
      → linux_loop as_write left index s stm32_base_id w ≡ (
        as_code (stm32_loop add_message left index s w).0,
        (stm32_loop add_message left index s w).1,
      )
  unfolding linux_loop stm32_loop
  loops_agree zero index w h = refl
  loops_agree (suc left) index w h =
      let encoded = (encode_sample_lem s stm32_base_id index (omega arith) (omega arith)).0 in
      elim (Bool-cases (add_message w (frame_at s stm32_base_id index)).0) [
        | inl e ↦
            rw (encoded, linux_loop, stm32_loop, same_id, e)
              (loops_agree left (index + 1) (add_message w (frame_at s stm32_base_id index)).1
                (omega arith))
        | inr e ↦ rw (encoded, linux_loop, stm32_loop, same_id, e)
      ]
    where
      same_id : (0x300 + index) % 2 ^ 32 ≡ 0x300 + index
      same_id = omega arith

  -- The STM32F407 and the A53 cores put the same frames on the bus: the sender of the one, with
  -- its mailbox as the socket, leaves the bus as the sender of the other does with the base
  -- 0x300, and fails when it fails.
  pub senders_agree :
      (w : W)
      → linux_send as_write true s stm32_base_id w
        ≡ (as_code (stm32_send add_message true s w).0, (stm32_send add_message true s w).1)
  unfolding linux_send stm32_send
  senders_agree w = loops_agree 6 0 w (omega arith)
