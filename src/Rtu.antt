-- ===== src/Rtu.antt =====
-- The Modbus RTU master of the collector: `modbus_rtu_read_registers` and the collection of a
-- sample in OKMX8MM-Demo3/data-collector-demo3/src/modbus-rtu/modbus-rtu.c. The serial line, with
-- the flag of the shutdown, is the state `L`. The loops run on fuel.
pub mod Response
pub mod Fragments
pub mod Slave
pub mod Kept
pub mod Accepted
use Prim.Native.Nat.{bit_and, bit_or}
use okmx8mm.Base.{ℕ, zero, suc, ◌+◌, ◌-◌, ◌*◌, List, [], ◌∷◌, ◌++◌, Bool, true, false, ◌&&◌, ◌||◌}
use okmx8mm.Base.{Option, none, some, length, get_or, drop, take, ltb, leb, ◌==◌, ◌/=◌}
use okmx8mm.Base.{if◌then◌else◌, u8, u16, u32, ◌<<<◌, ◌>>>◌, Result, ok, err, ℤ, pos, negsuc}
use okmx8mm.Crc.Table.{crc16_digest}
use okmx8mm.Sample.{Sample, modbus_register_count}
use okmx8mm.Sample.Registers.{sample_from_registers}

-- What `select` returns: a negative code, 0, or whether the line is in the set.
pub data Selected : Type 0 where
  select_failed timed_out : Selected
  ready : Bool → Selected

-- The calls on the line. `available` is the ioctl FIONREAD, and `read` is told how much to read;
-- `none` is a negative code.
pub record Line (L : Type 0) : Type 0 where
  pub is_shutdown : L → Bool
  pub write : L → List ℕ → ℤ × L
  pub select : L → Selected × L
  pub available : L → Option ℕ × L
  pub read : L → ℕ → Option (List ℕ) × L

-- How a loop ends: with a value, with an access outside of a buffer, or not within the fuel.
pub data Ended (A : Type 0) : Type 0 where
  done : A → Ended A
  outside running : Ended A

-- The request up to its CRC.
abbrev pub request_head : ℕ → ℕ → ℕ → List ℕ
request_head address start count =
    u8 address
    ∷ 0x04
    ∷ bit_and (start >>> 8) 0xFF
    ∷ bit_and start 0xFF
    ∷ bit_and (count >>> 8) 0xFF
    ∷ bit_and count 0xFF
    ∷ []

-- The request, where the table-driven CRC is defined. `signed` is the sign of `char`.
unfoldable pub request : Bool → ℕ → ℕ → ℕ → Option (List ℕ)
request signed address start count = elim (crc16_digest signed (request_head address start count)) [
  | none ↦ none
  | some crc ↦
      some (request_head address start count ++ (bit_and crc 0xFF ∷ bit_and (crc >>> 8) 0xFF ∷ []))
]

-- `write_total += written`: whether the sum is negative, and the sum if it is not.
abbrev pub moved : ℕ → ℤ → Bool × ℕ
moved total (pos n) = (false, total + n)
moved total (negsuc n) = (leb total n, total - suc n)

module _ {L : Type 0} (line : Line L) where
  -- With a negative total the next write reads in front of the buffer.
  unfoldable pub write_loop : ℕ → List ℕ → ℕ → L → Ended ℕ × L
  write_loop zero bytes total l = (running, l)
  write_loop (suc fuel) bytes total l =
      let wrote = line.write l (drop total bytes) in
      let next = moved total wrote.0 in
      let rest = write_loop fuel bytes next.1 wrote.1 in
      if leb (length bytes) total
      then (done total, l)
      else if next.0
      then (outside, wrote.1)
      else rest

-- How the loop over the response ends: the flags `error` and `response_data_exception`.
pub record Stop : Type 0 where
  pub error : Bool
  pub data_exception : Bool

abbrev pub failure : Stop
failure = record { error = true; data_exception = false }

abbrev pub exception : Stop
exception = record { error = true; data_exception = true }

abbrev pub success : Stop
success = record { error = false; data_exception = false }

-- The checks of what has been read so far; `none` goes on.
unfoldable pub check : ℕ → ℕ → List ℕ → Option Stop
check address expected bytes =
    if leb 1 (length bytes) && get_or bytes 0 0 /= address
    then some exception
    else if leb 2 (length bytes) && get_or bytes 1 0 == 0x83
    then some exception
    else if leb 2 (length bytes) && get_or bytes 1 0 /= 0x04
    then some exception
    else if leb 3 (length bytes) && get_or bytes 2 0 /= expected
    then some exception
    else if leb (3 + expected + 2) (length bytes)
    then some success
    else none

-- The response so far with what a read returns. A negative code adds nothing.
abbrev pub received : List ℕ → Option (List ℕ) → List ℕ
received bytes none = bytes
received bytes (some more) = bytes ++ more

module _ {L : Type 0} (line : Line L) where
  -- A round whose `select` saw the line: it stops, or it goes on with more bytes.
  unfoldable pub read_more : ℕ → ℕ → List ℕ → L → Option Stop × List ℕ × L
  read_more address expected bytes l =
      let (size, l1) = line.available l in
      elim size [
        | none ↦ (some failure, bytes, l1)
        | some n ↦
            let (got, l2) = line.read l1 n in
            let bytes' = received bytes got in
            if ltb (256 - length bytes) n
            then (some exception, bytes, l1)
            else (check address expected bytes', bytes', l2)
      ]

  -- A round of the loop over the response.
  unfoldable pub read_round : ℕ → ℕ → List ℕ → L → Option Stop × List ℕ × L
  read_round address expected bytes l =
      let (selected, l1) = line.select l in
      elim selected [
        | select_failed ↦ (some failure, bytes, l1)
        | timed_out ↦ (some failure, bytes, l1)
        | ready false ↦ (none, bytes, l1)
        | ready true ↦ read_more address expected bytes l1
      ]

  unfoldable pub read_response : ℕ → ℕ → ℕ → List ℕ → L → Ended Stop × List ℕ × L
  read_response zero address expected bytes l = (running, bytes, l)
  read_response (suc fuel) address expected bytes l =
      let round = read_round address expected bytes l in
      let rest = read_response fuel address expected round.1 round.2 in
      if line.is_shutdown l
      then (done failure, bytes, l)
      else elim round.0 [ some stop ↦ (done stop, round.1, round.2) | none ↦ rest ]

  -- The loop that skips the rest. Its buffer has 256 bytes, and it reads all that is available.
  unfoldable pub skip_loop : ℕ → L → Ended Bool × L
  skip_loop zero l = (running, l)
  skip_loop (suc fuel) l =
      let (selected, l1) = line.select l in
      let (size, l2) = line.available l1 in
      let n : ℕ = elim size [ none ↦ 0 | some k ↦ k ] in
      let (got, l3) = line.read l2 n in
      let again = skip_loop fuel l1 in
      let rest = skip_loop fuel l3 in
      elim selected [
        | select_failed ↦ (done true, l1)
        | timed_out ↦ (done true, l1)
        | ready false ↦ again
        | ready true ↦ elim size [
          | none ↦ (done true, l2)
          | some k ↦ if ltb 256 k then (outside, l3) else rest
        ]
      ]

-- The comparison of the CRC, and the data that is returned.
unfoldable pub checked_data : Bool → ℕ → List ℕ → Ended (Option (List ℕ))
checked_data signed expected bytes =
    let low = get_or bytes (expected + 3) 0 in
    let high = get_or bytes (expected + 4) 0 in
    let crc = bit_or (bit_and (high <<< 8) 0xFF00) (bit_and low 0xFF) in
    elim (crc16_digest signed (take (expected + 3) bytes)) [
      | none ↦ outside
      | some calculated ↦
          if crc /= calculated then done none else done (some (take expected (drop 3 bytes)))
    ]

module _ {L : Type 0} (line : Line L) where
  -- What follows the loop over the response.
  unfoldable pub finish : ℕ → Bool → ℕ → Stop × List ℕ × L → Ended (Option (List ℕ)) × L
  finish fuel signed expected (stop, bytes, l) =
      let result = if stop.error then done none else checked_data signed expected bytes in
      let skipped = skip_loop line fuel l in
      if stop.data_exception || ltb (3 + expected + 2) (length bytes)
      then elim skipped.0 [
        | done finished ↦ (result, skipped.1)
        | outside ↦ (outside, skipped.1)
        | running ↦ (running, skipped.1)
      ]
      else (result, l)

  -- `modbus_rtu_read_registers` with `expected` bytes of data: the data, or `none` for -1.
  unfoldable pub read_registers : ℕ → Bool → ℕ → ℕ → ℕ → ℕ → L → Ended (Option (List ℕ)) × L
  read_registers fuel signed address start count expected l =
      elim (request signed address start count) [
        | none ↦ (outside, l)
        | some bytes ↦
            let wrote = write_loop line fuel bytes 0 l in
            elim wrote.0 [
              | outside ↦ (outside, wrote.1)
              | running ↦ (running, wrote.1)
              | done total ↦
                  let got = read_response line fuel address expected [] wrote.1 in
                  elim got.0 [
                    | outside ↦ (outside, got.2)
                    | running ↦ (running, got.2)
                    | done stop ↦ finish fuel signed expected (stop, got.1, got.2)
                  ]
            ]
      ]

-- The loop over the registers, with the rounds left.
unfoldable pub join_registers : ℕ → ℕ → List ℕ → List ℕ
join_registers zero i bytes = []
join_registers (suc left) i bytes =
    u16 (bit_or (u16 (get_or bytes (i * 2) 0 <<< 8)) (get_or bytes (i * 2 + 1) 0))
    ∷ join_registers left (i + 1) bytes

-- The sample of a data block, with the time of the collector.
unfoldable pub sample_of_data : ℕ → List ℕ → Result Sample
sample_of_data now_ms bytes =
    elim (sample_from_registers true (join_registers modbus_register_count 0 bytes)) [
      | err n ↦ err 1
      | ok s ↦ ok (record s { timestamp_ms = u32 now_ms; flags = bit_or s.flags 1 })
    ]

module _ {L : Type 0} (line : Line L) where
  -- `collect_modbus_rtu_data_demo3_gateway`; `now_ms` is what get_time_millis returns.
  unfoldable pub collect_gateway : ℕ → Bool → ℕ → ℕ → L → Ended (Result Sample) × L
  collect_gateway fuel signed address now_ms l =
      let got =
        read_registers line fuel signed address 0 modbus_register_count (modbus_register_count * 2)
          l in
      elim got.0 [
        | outside ↦ (outside, got.1)
        | running ↦ (running, got.1)
        | done none ↦ (done (err 1), got.1)
        | done (some bytes) ↦ (done (sample_of_data now_ms bytes), got.1)
      ]
