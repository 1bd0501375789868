-- ===== src/Public.antt =====
-- The collector of public train information,
-- OKMX8MM-Demo3/data-collector-demo3/src/public/public-udp-collector.c, where char is unsigned, as
-- on the target. The buffer is the bytes received, and what is read behind them are the zeros of
-- `memset`. The clock of the system is the state `T`.
pub mod Checksum
pub mod Train
pub mod Packets
pub mod Heard
pub mod Sent
use Prim.Native.Nat.{bit_and, bit_or}
use okmx8mm.Base.{
  ℕ, zero, suc, ◌+◌, ◌-◌, ◌*◌, ◌/◌, List, [], ◌∷◌, ◌++◌, Bool, true, false, ◌&&◌, ◌||◌,
}
use okmx8mm.Base.{not, Option, none, some, length, get_or, ltb, leb, ◌==◌, ◌/=◌, if◌then◌else◌}
use okmx8mm.Base.{u8, u32, ◌<<<◌, ℤ, pos, negsuc, minus, failed, take, drop}

-- `read_short_lsb` and `read_int_lsb` of util.c.
unfoldable pub read_short_lsb : List ℕ → ℕ → ℕ
read_short_lsb buffer start = bit_or (get_or buffer start 0) (get_or buffer (start + 1) 0 <<< 8)

unfoldable pub read_int_lsb : List ℕ → ℕ → ℕ
read_int_lsb buffer start =
    bit_or
      (bit_or (bit_or (get_or buffer (start + 3) 0 <<< 24) (get_or buffer (start + 2) 0 <<< 16))
        (get_or buffer (start + 1) 0 <<< 8))
      (get_or buffer start 0)

-- The loop of `sum_digest`, with the rounds left.
unfoldable pub sum_loop : ℕ → ℕ → ℕ → List ℕ → ℕ
sum_loop zero i sum buffer = sum
sum_loop (suc left) i sum buffer =
    sum_loop left (i + 1) (u32 (sum + bit_and (get_or buffer i 0) 0xFF)) buffer

abbrev pub sum_digest : List ℕ → ℕ → ℕ
sum_digest buffer n = sum_loop n 0 0 buffer

-- The fields of a packet. The speed is in hundredths; `km_post` is a bit pattern.
pub record Packet : Type 0 where
  pub packet_no : ℕ
  pub flags : List ℕ
  pub year : ℕ
  pub month : ℕ
  pub date : ℕ
  pub hour : ℕ
  pub min : ℕ
  pub second : ℕ
  pub millisecond : ℕ
  pub speed : ℕ
  pub km_post : ℕ
  pub train_serial_no : ℕ
  pub temperature_outside : ℤ
  pub locomotive_double_heading_status : ℕ
  pub carriage_no : ℕ
  pub train_no : List ℕ

abbrev pub to_int8 : ℕ → ℤ
to_int8 b = if ltb b 128 then pos b else minus (256 - b)

-- The loop over the train number, with the rounds left: the text that it leaves in the zeros of
-- `train_no`.
unfoldable pub train_text : ℕ → ℕ → List ℕ → List ℕ
train_text zero i buffer = []
train_text (suc left) i buffer =
    let rest = train_text left (i + 1) buffer in
    if get_or buffer i 0 == 0 then rest else get_or buffer i 0 ∷ rest

-- What is read before the checksum is. `train_no` is the text without its zero.
unfoldable pub decode_packet : List ℕ → Packet
decode_packet buffer = record {
  packet_no = read_short_lsb buffer 6;
  flags = get_or buffer 8 0 ∷ get_or buffer 9 0 ∷ get_or buffer 10 0 ∷ get_or buffer 11 0 ∷ [];
  year = 2000 + get_or buffer 12 0;
  month = get_or buffer 13 0;
  date = get_or buffer 14 0;
  hour = get_or buffer 15 0;
  min = get_or buffer 16 0;
  second = get_or buffer 17 0;
  millisecond = get_or buffer 18 0 * 4;
  speed = read_short_lsb buffer 19;
  km_post = read_int_lsb buffer 21;
  train_serial_no = read_short_lsb buffer 25;
  temperature_outside = to_int8 (get_or buffer 27 0);
  locomotive_double_heading_status = get_or buffer 28 0;
  carriage_no = get_or buffer 29 0;
  train_no = train_text 8 30 buffer;
}

-- The context. The train number of its packet is an array of eight bytes, and
-- `time_synchronized`, an `int`, is the member behind the packet.
pub record Context : Type 0 where
  pub public_packet : Packet
  pub time_synchronized : ℕ

-- `strcpy` of a text of at most eight bytes into the array: the zero behind a text of eight bytes
-- falls on the low byte of `time_synchronized`.
unfoldable pub copy_train_no : List ℕ → Context → Context
copy_train_no text context = record {
  public_packet = record context.public_packet {
    train_no =
        text
        ++ (if leb 8 (length text)
            then []
            else 0 ∷ drop (length text + 1) context.public_packet.train_no);
  };
  time_synchronized =
      if leb 8 (length text)
      then context.time_synchronized / 256 * 256
      else context.time_synchronized;
}

-- The fields are written, all but the train number, and then that one.
unfoldable pub store_packet : Packet → Context → Context
store_packet packet context =
    copy_train_no packet.train_no (record context {
      public_packet = record packet { train_no = context.public_packet.train_no };
    })

abbrev pub before : ℤ → ℤ → Bool
before (pos a) (pos b) = ltb a b
before (pos a) (negsuc b) = false
before (negsuc a) (pos b) = true
before (negsuc a) (negsuc b) = ltb b a

abbrev pub later : ℤ → ℕ → ℤ
later (pos a) n = pos (a + n)
later (negsuc a) n = if ltb a n then pos (n - (a + 1)) else negsuc (a - n)

-- The calls on time: mktime for a year, month, day, hour, minute and second, settimeofday, and
-- the command hwclock.
pub record Calls (T : Type 0) : Type 0 where
  pub mktime : ℕ → ℕ → ℕ → ℕ → ℕ → ℕ → ℤ
  pub settimeofday : T → ℤ → ℤ × T
  pub hwclock : T → ℤ × T

module _ {T : Type 0} (calls : Calls T) where
  unfoldable pub is_invalid_time : ℤ → Bool
  is_invalid_time time =
      let min_timestamp = calls.mktime 2024 1 1 0 0 0 in
      before time min_timestamp || before (later min_timestamp (3600 * 24 * 365 * 50)) time

  unfoldable pub set_time : T → ℤ → ℤ × T
  set_time t time_seconds =
      if is_invalid_time time_seconds
      then (minus 1, t)
      else let set = calls.settimeofday t time_seconds in
        if failed set.0
        then (minus 1, set.1)
        else let saved = calls.hwclock set.1 in
          if failed saved.0 then (minus 1, saved.1) else (pos 0, saved.1)

  -- The synchronisation, once the packet is stored.
  unfoldable pub sync_time : Packet → Context → T → Context × T
  sync_time packet context t =
      let set =
        set_time t (
          calls.mktime packet.year packet.month packet.date packet.hour packet.min packet.second) in
      if context.time_synchronized == 0 && bit_and (get_or packet.flags 0 0) 4 /= 0
      then (if failed set.0
          then (context, set.1)
          else (record context { time_synchronized = 1 }, set.1))
      else (context, t)

  -- `process_public_info_packet`: the code, the context and the clock; `none` where the checksum
  -- would be read in front of the buffer. `locked` says that the mutex can be locked.
  unfoldable pub process_packet : Bool → List ℕ → Context → T → Option (ℤ × Context × T)
  process_packet locked buffer context t =
      let data_length = read_short_lsb buffer 2 in
      let packet = decode_packet buffer in
      if ltb (length buffer) data_length
      then some (minus 1, context, t)
      else if ltb data_length 2
      then none
      else if read_short_lsb buffer (data_length - 2) /= sum_digest buffer (data_length - 2)
      then some (minus 1, context, t)
      else if not locked
      then some (minus 1, context, t)
      else let synced = sync_time packet (store_packet packet context) t in
        some (pos 0, synced.0, synced.1)

  -- One datagram in the loop: it is skipped, or it is processed. `none` is a failed receive.
  unfoldable pub receive : Bool → Option (List ℕ) → Context → T → Option (ℤ × Context × T)
  receive locked none context t = some (pos 0, context, t)
  receive locked (some buffer) context t =
      if ltb (length buffer) 5
      then some (pos 0, context, t)
      else if not (get_or buffer 0 0 == 0xAA && get_or buffer 1 0 == 0xAA)
      then some (pos 0, context, t)
      else if read_short_lsb buffer 4 == 0xFF01
      then process_packet locked buffer context t
      else some (pos 0, context, t)
