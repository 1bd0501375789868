-- ===== src/Rpmsg/Bridge.antt =====
-- From a frame to the sink of samples: `demo3_rpmsg_process_frame` and `demo3_rpmsg_reader_step`
-- in OKMX8MM-Demo3/data-collector-demo3/src/bridge/ (demo3_rpmsg_bridge.c,
-- demo3_rpmsg_reader.c). The sink's context is the state `C`, the device's the state `R`.
pub mod Delivery
use okmx8mm.Base.{ℕ, suc, List, Bool, true, false, Option, none, some, take, ◌==◌, ◌/=◌}
use okmx8mm.Base.{if◌then◌else◌, ok, err, ℤ, pos, negsuc, minus}
use okmx8mm.Sample.{Sample}
use okmx8mm.Rpmsg.{frame_length, decode}

-- A callback that takes a sample, with its return code and its context after the call.
abbrev pub Sink : Type 0 → Type 0
Sink C = C → Sample → ℤ × C

-- `none` stands for a null pointer.
unfoldable pub process_frame : {C : Type 0} → Option (List ℕ) → C → Option (Sink C) → ℤ × C
process_frame frame context none = (minus 1, context)
process_frame frame context (some sink) = elim (decode frame true) [
  | ok s ↦ sink context s
  | err n ↦ (minus n, context)
]

-- The device's callback: the return code, the bytes of the buffer after the call, and its context.
abbrev pub Read : Type 0 → Type 0
Read R = R → ℕ → ℤ × List ℕ × R

-- What follows the read, by its return code. The buffer holds `frame_length` bytes.
unfoldable pub after_read : {C : Type 0} → ℤ → List ℕ → C → Sink C → ℤ × C
after_read (negsuc n) buffer context sink = (negsuc n, context)
after_read (pos ℕ.zero) buffer context sink = (pos 0, context)
after_read (pos (suc n)) buffer context sink =
    if suc n /= frame_length
    then (minus 2, context)
    else process_frame (some (take (suc n) buffer)) context (some sink)

-- `given` says that the reader is no null pointer; `read` and `sink` may be.
unfoldable pub reader_step :
    {R C : Type 0} → Bool → Option (Read R) → R → C → Option (Sink C) → ℤ × R × C
reader_step false read device context sink = (minus 1, device, context)
reader_step true none device context sink = (minus 1, device, context)
reader_step true (some read) device context none = (minus 1, device, context)
reader_step true (some read) device context (some sink) =
    let (code, buffer, device') = read device frame_length in
    let (result, context') = after_read code buffer context sink in (result, device', context')
