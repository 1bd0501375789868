-- ===== src/Public/Packets.antt =====
-- The packet of public information as its sender writes it, and what is decoded of it.
use Prim.Native.Nat.{bit_or}
use okmx8mm.Base.{ℕ, zero, suc, ◌+◌, ◌*◌, ◌/◌, ◌%◌, ◌^◌, ◌≤◌, ◌<◌, ◌≡◌, refl, arith, ap, ◌∙◌}
use okmx8mm.Base.{
  List, [], ◌∷◌, ◌++◌, false, length, get_or, All, All-append, All-get_or, tabulate-get_or, IsByte,
  IsU16,
}
use okmx8mm.Base.{◌==◌, ◌/=◌, if◌then◌else◌, ◌<<<◌, IsU32}
use okmx8mm.Base.Bits.{or_of_low_field, or_of_fields}
use okmx8mm.Public.{Packet, read_short_lsb, read_int_lsb, to_int8, train_text, decode_packet}
use okmx8mm.Public.{sum_digest}
use okmx8mm.Public.Checksum.{total, sum_loop-total}

-- What the sender has to say. The year counts from 2000, a quarter is 4 milliseconds, and the
-- train number is eight bytes.
pub record Info : Type 0 where
  pub packet_no : ℕ
  pub flags : List ℕ
  pub years : ℕ
  pub month : ℕ
  pub date : ℕ
  pub hour : ℕ
  pub min : ℕ
  pub second : ℕ
  pub quarters : ℕ
  pub speed : ℕ
  pub km_post : ℕ
  pub train_serial_no : ℕ
  pub temperature : ℕ
  pub double_heading : ℕ
  pub carriage_no : ℕ
  pub train : List ℕ

abbrev pub word : ℕ → List ℕ
word w = w % 2 ^ 8 ∷ w / 2 ^ 8 ∷ []

-- The first part, of 38 bytes, and the whole packet with its checksum.
abbrev pub head : Info → List ℕ
head info =
    0xAA ∷ 0xAA ∷ 40 ∷ 0 ∷ 0x01 ∷ 0xFF ∷ word info.packet_no
    ++ (get_or info.flags 0 0
          ∷ get_or info.flags 1 0
          ∷ get_or info.flags 2 0
          ∷ get_or info.flags 3 0
          ∷ info.years
          ∷ info.month
          ∷ info.date
          ∷ info.hour
          ∷ info.min
          ∷ info.second
          ∷ info.quarters
          ∷ word info.speed
        ++ (info.km_post % 2 ^ 8
              ∷ info.km_post / 2 ^ 8 % 2 ^ 8
              ∷ info.km_post / 2 ^ 16 % 2 ^ 8
              ∷ info.km_post / 2 ^ 24
              ∷ word info.train_serial_no
            ++ (info.temperature
                ∷ info.double_heading
                ∷ info.carriage_no
                ∷ get_or info.train 0 0
                ∷ get_or info.train 1 0
                ∷ get_or info.train 2 0
                ∷ get_or info.train 3 0
                ∷ get_or info.train 4 0
                ∷ get_or info.train 5 0
                ∷ get_or info.train 6 0
                ∷ get_or info.train 7 0
                ∷ [])))

abbrev pub packet_bytes : Info → List ℕ
packet_bytes info = head info ++ word (total 38 0 (head info))

abbrev pub nonzero : List ℕ → List ℕ
nonzero [] = []
nonzero (b ∷ bs) = if b == 0 then nonzero bs else b ∷ nonzero bs

-- The packet that the sender means.
abbrev pub meant : Info → Packet
meant info = record {
  packet_no = info.packet_no;
  flags = info.flags;
  year = 2000 + info.years;
  month = info.month;
  date = info.date;
  hour = info.hour;
  min = info.min;
  second = info.second;
  millisecond = info.quarters * 4;
  speed = info.speed;
  km_post = info.km_post;
  train_serial_no = info.train_serial_no;
  temperature_outside = to_int8 info.temperature;
  locomotive_double_heading_status = info.double_heading;
  carriage_no = info.carriage_no;
  train_no = nonzero info.train;
}

pub record IsInfo (info : Info) : Type 0 where
  pub no_fits : IsU16 info.packet_no
  pub speed_fits : IsU16 info.speed
  pub km_fits : IsU32 info.km_post
  pub serial_fits : IsU16 info.train_serial_no
  pub four_flags : length info.flags ≡ 4
  pub eight : length info.train ≡ 8
  pub bytes : All IsByte (head info)

short_of_word : (w : ℕ) → IsU16 w → bit_or (w % 2 ^ 8) (w / 2 ^ 8 <<< 8) ≡ w
short_of_word w h = ground (arith, or_of_low_field 8 (w / 2 ^ 8) (w % 2 ^ 8))

int_of_bytes :
    (v : ℕ)
    → IsU32 v
    → bit_or
        (bit_or (bit_or (v / 2 ^ 24 <<< 24) (v / 2 ^ 16 % 2 ^ 8 <<< 16)) (v / 2 ^ 8 % 2 ^ 8 <<< 8))
        (v % 2 ^ 8)
      ≡ v
int_of_bytes v h =
    let a = v / 2 ^ 24 in
    let b = v / 2 ^ 16 % 2 ^ 8 in
    let c = v / 2 ^ 8 % 2 ^ 8 in
    let high : bit_or (a <<< 24) (b <<< 16) ≡ (a * 2 ^ 8 + b) * 2 ^ 16 =
      or_of_fields 24 a (b <<< 16) (omega arith) ∙ omega arith in
    let middle : bit_or (bit_or (a <<< 24) (b <<< 16)) (c <<< 8)
        ≡ ((a * 2 ^ 8 + b) * 2 ^ 8 + c) * 2 ^ 8 =
      ap (λ n. bit_or n (c <<< 8)) high
      ∙ or_of_fields 16 (a * 2 ^ 8 + b) (c <<< 8) (omega arith)
      ∙ omega arith in
    ap (λ n. bit_or n (v % 2 ^ 8)) middle
    ∙ or_of_fields 8 ((a * 2 ^ 8 + b) * 2 ^ 8 + c) (v % 2 ^ 8) (omega arith)
    ∙ omega arith

pub decode_packet-bytes :
    (info : Info) → IsInfo info → decode_packet (packet_bytes info) ≡ meant info
unfolding decode_packet read_short_lsb read_int_lsb train_text
decode_packet-bytes info h = λ i. record {
  packet_no = short_of_word info.packet_no h.no_fits i;
  flags = tabulate-get_or 0 4 info.flags h.four_flags i;
  year = 2000 + info.years;
  month = info.month;
  date = info.date;
  hour = info.hour;
  min = info.min;
  second = info.second;
  millisecond = info.quarters * 4;
  speed = short_of_word info.speed h.speed_fits i;
  km_post = int_of_bytes info.km_post h.km_fits i;
  train_serial_no = short_of_word info.train_serial_no h.serial_fits i;
  temperature_outside = to_int8 info.temperature;
  locomotive_double_heading_status = info.double_heading;
  carriage_no = info.carriage_no;
  train_no = nonzero (tabulate-get_or 0 8 info.train h.eight i);
}

pub length_field : (info : Info) → read_short_lsb (packet_bytes info) 2 ≡ 40
unfolding read_short_lsb
length_field info = refl

pub type_field : (info : Info) → read_short_lsb (packet_bytes info) 4 ≡ 0xFF01
unfolding read_short_lsb
type_field info = refl

total-bound : (left i : ℕ) (buffer : List ℕ) → All IsByte buffer → total left i buffer ≤ left * 255
total-bound zero i buffer h = omega arith
total-bound (suc left) i buffer h =
    let byte : get_or buffer i 0 < 2 ^ 8 = All-get_or IsByte buffer i 0 h (omega arith) in
    omega (arith, byte, total-bound left (i + 1) buffer h)

pub checksum_right :
    (info : Info)
    → IsInfo info
    → (read_short_lsb (packet_bytes info) 38 /= sum_digest (packet_bytes info) 38) ≡ false
checksum_right info h =
    let sum = total 38 0 (head info) in
    let small : sum ≤ 38 * 255 = total-bound 38 0 (head info) h.bytes in
    let sent : read_short_lsb (packet_bytes info) 38 ≡ sum =
      unfold read_short_lsb in short_of_word sum (omega arith) in
    let bytes : All IsByte (packet_bytes info) =
      All-append IsByte (head info) (word sum) h.bytes (omega arith, (omega arith, tt)) in
    let summed : sum_digest (packet_bytes info) 38 ≡ (0 + sum) % 2 ^ 32 =
      sum_loop-total 38 0 0 (packet_bytes info) bytes (omega arith) in
    ground (arith, sent, summed, small)
