-- ===== src/Tests/Public.antt =====
-- Tests of the public train information.
use Prim.Native.Nat.{bit_and}
use okmx8mm.Base.{
  ℕ, ◌+◌, ◌<◌, ◌≤◌, ◌≡◌, refl, arith, [], ◌∷◌, true, some, pos, length, get_or, ◌/=◌,
}
use okmx8mm.Base.{take, drop}
use okmx8mm.Public.{
  Context, Calls, process_packet, sync_time, store_packet, decode_packet, set_time,
}
use okmx8mm.Public.{
  read_short_lsb, train_text, sum_loop, copy_train_no, is_invalid_time, read_int_lsb,
}
use okmx8mm.Public.Checksum.{process_finds_byte}
use okmx8mm.Public.Train.{time_of, process_packet-clock}
use okmx8mm.Public.Packets.{Info, packet_bytes, meant}

-- A locomotive whose number has eight bytes.
abbrev info : Info
info = record {
  packet_no = 513;
  flags = 5 ∷ 0 ∷ 0 ∷ 1 ∷ [];
  years = 25;
  month = 6;
  date = 30;
  hour = 23;
  min = 59;
  second = 58;
  quarters = 249;
  speed = 12050;
  km_post = 4294967295;
  train_serial_no = 4711;
  temperature = 251;
  double_heading = 1;
  carriage_no = 2;
  train = 72 ∷ 88 ∷ 68 ∷ 49 ∷ 48 ∷ 48 ∷ 48 ∷ 49 ∷ [];
}

-- A clock that counts how often it is set, and that takes a second for a number.
abbrev clock : Calls ℕ
clock = record {
  mktime = λ year month date hour min second. pos second;
  settimeofday = λ t seconds. (pos 0, t + 1);
  hwclock = λ t. (pos 0, t);
}

abbrev context : ℕ → Context
context synchronized = record { public_packet = meant info; time_synchronized = synchronized }

abbrev once : ℕ
once = 1

abbrev processed : Context
processed = record { public_packet = (context 0).public_packet; time_synchronized = 1 }

processed_lem :
    process_packet clock true (packet_bytes info) (context 1) 0 ≡ some (pos 0, processed, 1)
unfolding process_packet read_short_lsb read_int_lsb train_text sum_loop decode_packet store_packet
    copy_train_no sync_time set_time is_invalid_time
processed_lem = refl

-- This number clears the flag, and the clock is set again.
process_packet-clock_example :
    let packet = decode_packet (packet_bytes info) in
    (length packet.train_no < 8 → (once ≡ 0) × (processed.time_synchronized ≡ 1))
    × (8 ≤ length packet.train_no
        → pos 0 ≡ pos 0
        → (bit_and (get_or packet.flags 0 0) 4 /= 0) ≡ true
        → once ≡ (set_time clock 0 (time_of clock packet)).1)
process_packet-clock_example =
    process_packet-clock clock true (packet_bytes info) (context 1) processed (pos 0) 0 1 refl
      processed_lem

process_finds_byte_example : packet_bytes info ≡ packet_bytes info
unfolding read_short_lsb
process_finds_byte_example =
    process_finds_byte clock (take 13 (packet_bytes info)) (drop 14 (packet_bytes info)) 6 6
      (context 1) processed (context 1) processed 0 1 0 1 (omega arith) (omega arith) (omega arith)
      (omega arith) processed_lem processed_lem
