-- ===== src/Tests/Can.antt =====
-- Tests of the CAN senders.
use okmx8mm.Base.{ℕ, zero, suc, arith, List, [], ◌∷◌, true, false}
use okmx8mm.Base.{Bool}
use okmx8mm.Can.{Frame, Written, whole, short, linux_send}
use okmx8mm.Can.Send.{Outcome, linux_send-Outcome}
use okmx8mm.Tests.Data.{reading}

-- A bus that takes the frames while there is room.
abbrev bus : (ℕ × List Frame) → Frame → Written × (ℕ × List Frame)
bus (zero, sent) frame = (short, (0, sent))
bus (suc room, sent) frame = (whole, (room, frame ∷ sent))

linux_send-Outcome_example :
    Outcome bus reading 0x300 (omega arith) 6 0 (4, []) (linux_send bus true reading 0x300 (4, []))
linux_send-Outcome_example = linux_send-Outcome bus reading 0x300 (omega arith) (4, [])

-- The same bus as a mailbox.
abbrev mailbox : (ℕ × List Frame) → Frame → Bool × (ℕ × List Frame)
mailbox (zero, sent) frame = (false, (0, sent))
mailbox (suc room, sent) frame = (true, (room, frame ∷ sent))
