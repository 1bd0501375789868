-- ===== src/Public/Train.antt =====
-- When a packet sets the clock.
use Prim.Native.Nat.{bit_and}
use okmx8mm.Base.{ℕ, ◌*◌, ◌/◌, ◌-◌, ◌≤◌, ◌<◌, ◌≡◌, refl, arith, ap, ◌∙◌, sym, ◌⊎◌, inl, inr}
use okmx8mm.Base.{List, Bool, true, false, not, Option, none, some, length, get_or, leb, ltb}
use okmx8mm.Base.{◌==◌, ◌/=◌, pos, minus, ℤ, failed, Bool-cases, if◌then◌else◌}
use okmx8mm.Public.{Packet, Context, Calls, decode_packet, copy_train_no, store_packet}
use okmx8mm.Public.{set_time, sync_time, process_packet, read_short_lsb, sum_digest}

-- The time that the packet carries.
abbrev pub time_of : {T : Type 0} → Calls T → Packet → ℤ
time_of calls packet =
    calls.mktime packet.year packet.month packet.date packet.hour packet.min packet.second

abbrev Outcome : Type 0 → Type 0
Outcome T = ℤ × Context × T

abbrev from_some : {T : Type 0} → Outcome T → Option (Outcome T) → Outcome T
from_some r none = r
from_some r (some r') = r'

store-synchronized :
    (packet : Packet) (context : Context)
    → (store_packet packet context).time_synchronized ≡ (
        if leb 8 (length packet.train_no)
        then context.time_synchronized / 256 * 256
        else context.time_synchronized)
unfolding store_packet copy_train_no
store-synchronized packet context = refl

sync_time-on :
    {T : Type 0} (calls : Calls T) (packet : Packet) (context : Context) (t : T)
    → context.time_synchronized ≡ 1
    → sync_time calls packet context t ≡ (context, t)
unfolding sync_time
sync_time-on calls packet context t e =
    let on : (context.time_synchronized == 0) ≡ false = ground (arith, e) in rw (sync_time, on) refl

sync_time-off :
    {T : Type 0} (calls : Calls T) (packet : Packet) (context : Context) (t : T)
    → context.time_synchronized ≡ 0
    → (bit_and (get_or packet.flags 0 0) 4 /= 0) ≡ true
    → (sync_time calls packet context t).1 ≡ (set_time calls t (time_of calls packet)).1
unfolding sync_time
sync_time-off calls packet context t e valid =
    let off : (context.time_synchronized == 0) ≡ true = ground (arith, e) in
    elim (Bool-cases (failed (set_time calls t (time_of calls packet)).0)) [
      | inl bad ↦ rw (sync_time, off, valid, bad) refl
      | inr good ↦ rw (sync_time, off, valid, good) refl
    ]

module _ {T : Type 0} where
  -- The branches of the packet's processing.
  branches :
      (short front_of wrong locked : Bool) (context : Context) (t : T) (stored : Context × T)
      (outcome : Outcome T)
      → (if short
          then some (minus 1, context, t)
          else if front_of
          then none
          else if wrong
          then some (minus 1, context, t)
          else if not locked
          then some (minus 1, context, t)
          else some (pos 0, stored.0, stored.1))
        ≡ some outcome
      → ((minus 1, context, t) ≡ outcome) ⊎ ((pos 0, stored.0, stored.1) ≡ outcome)
  branches true front_of wrong locked context t stored outcome e = inl (ap (from_some outcome) e)
  branches false true wrong locked context t stored outcome e = absurd (ground (arith, e))
  branches false false true locked context t stored outcome e = inl (ap (from_some outcome) e)
  branches false false false false context t stored outcome e = inl (ap (from_some outcome) e)
  branches false false false true context t stored outcome e = inr (ap (from_some outcome) e)

  -- A packet is refused and changes nothing, or it is stored and the clock is synchronised.
  process-cases :
      (calls : Calls T) (locked : Bool) (buffer : List ℕ) (context : Context) (t : T)
      (outcome : Outcome T)
      → process_packet calls locked buffer context t ≡ some outcome
      → let packet = decode_packet buffer in
        let stored = sync_time calls packet (store_packet packet context) t in
        ((minus 1, context, t) ≡ outcome) ⊎ ((pos 0, stored.0, stored.1) ≡ outcome)
  unfolding process_packet
  process-cases calls locked buffer context t outcome e =
      let packet = decode_packet buffer in
      let n = read_short_lsb buffer 2 in
      branches (ltb (length buffer) n) (ltb n 2)
        (read_short_lsb buffer (n - 2) /= sum_digest buffer (n - 2)) locked context t
        (sync_time calls packet (store_packet packet context) t) outcome e

  -- Once the clock is synchronised, a packet whose train number has a byte of zero never touches
  -- it again. One of eight other bytes that is accepted and says that its time is valid sets it
  -- once more.
  pub process_packet-clock :
      (calls : Calls T) (locked : Bool) (buffer : List ℕ) (context after : Context) (code : ℤ)
      (t t' : T)
      → context.time_synchronized ≡ 1
      → process_packet calls locked buffer context t ≡ some (code, after, t')
      → let packet = decode_packet buffer in
        (length packet.train_no < 8 → (t' ≡ t) × (after.time_synchronized ≡ 1))
        × (8 ≤ length packet.train_no
            → code ≡ pos 0
            → (bit_and (get_or packet.flags 0 0) 4 /= 0) ≡ true
            → t' ≡ (set_time calls t (time_of calls packet)).1)
  process_packet-clock calls locked buffer context after code t t' on e =
      let packet = decode_packet buffer in
      elim (process-cases calls locked buffer context t (code, after, t') e) [
        | inl kept ↦ (
          λ short. (
            sym (ap (λ (r : Outcome T). r.2) kept),
            ap (λ (r : Outcome T). r.1.time_synchronized) (sym kept) ∙ on,
          ),
          λ long ok valid. absurd (ground (arith, ap (λ (r : Outcome T). r.0) kept, ok)),
        )
        | inr done ↦
            let stored = store_packet packet context in
            let synced = sync_time calls packet stored t in
            let same_time : synced.1 ≡ t' = ap (λ (r : Outcome T). r.2) done in
            let same_after : synced.0 ≡ after = ap (λ (r : Outcome T). r.1) done in
            (
              λ short.
                  let still : stored.time_synchronized ≡ 1 =
                    store-synchronized packet context ∙ ground (arith, short, on) in
                  let kept = sync_time-on calls packet stored t still in
                  (
                    sym same_time ∙ ap (λ (r : Context × T). r.1) kept,
                    ap (λ (c : Context). c.time_synchronized)
                          (sym same_after ∙ ap (λ (r : Context × T). r.0) kept)
                        ∙ still,
                  ),
              λ long ok valid.
                  let cleared : stored.time_synchronized ≡ 0 =
                    store-synchronized packet context ∙ ground (arith, long, on) in
                  sym same_time ∙ sync_time-off calls packet stored t cleared valid,
            )
      ]
