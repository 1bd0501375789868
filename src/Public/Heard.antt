-- ===== src/Public/Heard.antt =====
-- What a sender leaves in the context of public information, and of the clock.
use Prim.Native.Nat.{bit_and}
use okmx8mm.Base.{ℕ, ◌+◌, ◌*◌, ◌/◌, ◌≡◌, refl, arith}
use okmx8mm.Base.{List, ◌∷◌, ◌++◌, true, false, length, get_or}
use okmx8mm.Base.{
  Bool, Bool-cases, leb, inl, inr, append-nil, ◌&&◌, failed, ltb, drop, ◌==◌, ◌/=◌, if◌then◌else◌,
}
use okmx8mm.Public.{Context, Calls, to_int8}
use okmx8mm.Public.{copy_train_no, set_time, store_packet, sync_time}
use okmx8mm.Public.Packets.{Info, nonzero, meant}

-- The eight bytes of the train number in the context: the text with its zero, and behind it what
-- stood there.
abbrev pub train_array : List ℕ → List ℕ → List ℕ
train_array text old = if ltb (length text) 8 then text ++ 0 ∷ drop (length text + 1) old else text

-- The zero of a text of eight bytes clears the low byte of the flag behind the array.
abbrev pub flag_behind : List ℕ → ℕ → ℕ
flag_behind text flag = if ltb (length text) 8 then flag else flag / 256 * 256

-- The context with each field as the sender means it, and the flag `synchronized`.
abbrev pub heard : Info → Context → ℕ → Context
heard info context synchronized = record {
  public_packet = record {
    packet_no = info.packet_no;
    flags = info.flags;
    year = 2000 + info.years;
    month = info.month;
    date = info.date;
    hour = info.hour;
    min = info.min;
    second = info.second;
    millisecond = info.quarters * 4;
    speed = info.speed;
    km_post = info.km_post;
    train_serial_no = info.train_serial_no;
    temperature_outside = to_int8 info.temperature;
    locomotive_double_heading_status = info.double_heading;
    carriage_no = info.carriage_no;
    train_no = train_array (nonzero info.train) context.public_packet.train_no;
  };
  time_synchronized = synchronized;
}

-- The sender says that its time is valid.
abbrev pub has_time : Info → Bool
has_time info = bit_and (get_or info.flags 0 0) 4 /= 0

-- What is left in the context and of the clock: the clock is set to the time of the sender if the
-- flag is 0 then and the sender has the time, and the flag is 1 if that succeeds.
abbrev pub after_info : {T : Type 0} → Calls T → Info → Context → T → Context × T
after_info calls info context t =
    let flag = flag_behind (nonzero info.train) context.time_synchronized in
    let set =
      set_time calls t
        (calls.mktime (2000 + info.years) info.month info.date info.hour info.min info.second) in
    if flag == 0 && has_time info
    then (heard info context (if failed set.0 then flag else 1), set.1)
    else (heard info context flag, t)

pub store_packet-heard :
    (info : Info) (context : Context)
    → store_packet (meant info) context
      ≡ heard info context (flag_behind (nonzero info.train) context.time_synchronized)
unfolding store_packet copy_train_no
store_packet-heard info context =
    let text = nonzero info.train in
    elim (Bool-cases (leb 8 (length text))) [
      | inl full ↦
          let not_short : ltb (length text) 8 ≡ false = ground (arith, full) in
          rw (store_packet, copy_train_no, full, not_short, append-nil text) refl
      | inr room ↦
          let short : ltb (length text) 8 ≡ true = ground (arith, room) in
          rw (store_packet, copy_train_no, room, short) refl
    ]

pub sync_time-heard :
    {T : Type 0} (calls : Calls T) (info : Info) (context : Context) (t : T)
    → sync_time calls
        (meant info)
        (heard info context (flag_behind (nonzero info.train) context.time_synchronized))
        t
      ≡ after_info calls info context t
unfolding sync_time
sync_time-heard calls info context t = ground arith
