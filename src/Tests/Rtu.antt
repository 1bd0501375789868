-- ===== src/Tests/Rtu.antt =====
-- Tests of the Modbus master of the collector.
use Prim.Native.Nat.{bit_or}
use okmx8mm.Base.{ℕ, zero, suc, ◌+◌, ◌/◌, ◌%◌, ◌^◌, ◌≤◌, ◌≡◌, refl, arith, List, [], ◌∷◌}
use okmx8mm.Base.{true, false, some, length, take, drop, subst, pos, u32, ok, err, IsByte, All}
use okmx8mm.Crc.Detect.{crc16-lt}
use okmx8mm.Rtu.{Line, ready, done, read_registers, collect_gateway, write_loop, read_response}
use okmx8mm.Rtu.Response.{body, checksum, framed, All-take}
use okmx8mm.Rtu.Fragments.{asked, read_registers-pieces}
use okmx8mm.Rtu.Kept.{IsLine}
use okmx8mm.Rtu.Accepted.{Accepted, read_registers-framed}
use okmx8mm.Rtu.Slave.{words_be, collect_gateway-sample, build_response-collector}
use okmx8mm.Sample.Registers.RoundTrip.{registers_of}
use okmx8mm.Modbus.{build_response}
use okmx8mm.Tests.Data.{reading, reading-IsSample}

-- A line that takes each request and then gives its pieces.
abbrev fed : (ℕ → List ℕ) → Line ℕ
fed piece = record {
  is_shutdown = λ l. false;
  write = λ l bytes. (pos (length bytes), l);
  select = λ l. (ready true, l);
  available = λ l. (some (length (piece l)), l);
  read = λ l n. (some (take n (piece l)), suc l);
}

abbrev answered : List ℕ
answered = 7 ∷ 8 ∷ []

abbrev crc : ℕ
crc = checksum (body 9 (7 ∷ 8 ∷ []))

-- The address alone, then the rest.
abbrev two : ℕ → List ℕ
two zero = 9 ∷ []
two (suc zero) = 4 ∷ 2 ∷ 7 ∷ 8 ∷ crc % 2 ^ 8 ∷ crc / 2 ^ 8 ∷ []
two (suc (suc n)) = []

read_two : (l' : ℕ) × (read_registers (fed two) 2 false 9 0 1 2 0 ≡ (done (some (7 ∷ 8 ∷ [])), l'))
read_two =
    read_registers-pieces (fed two) 2 9 0 1 (7 ∷ 8 ∷ []) (two 0 ∷ two 1 ∷ []) 0 0 (omega arith)
      (omega arith) refl refl (refl, refl, refl, refl, (refl, refl, refl, refl, tt)) (omega arith)
      (omega arith)

length-take_le : (n : ℕ) (xs : List ℕ) → length (take n xs) ≤ n
length-take_le zero xs = omega arith
length-take_le (suc n) [] = omega arith
length-take_le (suc n) (x ∷ xs) = omega (arith, length-take_le n xs)

two-IsByte : (l : ℕ) → All IsByte (two l)
two-IsByte zero = omega arith
two-IsByte (suc zero) = omega (arith, crc16-lt (body 9 (7 ∷ 8 ∷ [])) 5)
two-IsByte (suc (suc l)) = tt

taken : (l n : ℕ) (more : List ℕ) → ((fed two).read l n).0 ≡ some more → take n (two l) ≡ more
taken l n more e = ground (arith, e)

fed-IsLine : IsLine (fed two)
fed-IsLine = record {
  within = λ l n more e. subst (λ m. length m ≤ n) (taken l n more e) (length-take_le n (two l));
  bytes = λ l n more e. subst (All IsByte) (taken l n more e) (All-take n (two l) (two-IsByte l));
}

read_registers-framed_example :
    let wrote = write_loop (fed two) 2 (asked 9 0 1) 0 0 in
    let got = read_response (fed two) 2 9 2 [] wrote.1 in
    (length got.1 ≤ 256) × Accepted 9 2 got.1 (read_registers (fed two) 2 false 9 0 1 2 0).0
read_registers-framed_example = read_registers-framed (fed two) fed-IsLine 2 9 0 1 2 0

-- A slave at address 9 that answers function 4 with the registers of the sample, in two pieces.
abbrev answer : List ℕ
answer = framed 9 (words_be (registers_of reading))

abbrev gateway : ℕ → List ℕ
gateway zero = take 7 answer
gateway (suc l) = drop 7 answer

collect_gateway-sample_example :
    (l' : ℕ) × (collect_gateway (fed gateway) 2 false 9 (2 ^ 32 + 5) 0
      ≡ (done (ok (record reading { timestamp_ms = u32 (2 ^ 32 + 5); flags = bit_or 1 1 })), l'))
unfolding registers_of
collect_gateway-sample_example =
    collect_gateway-sample (fed gateway) 2 9 (2 ^ 32 + 5) reading (gateway 0 ∷ gateway 1 ∷ []) 0 0
      reading-IsSample (omega arith) refl refl
      (refl, refl, refl, refl, (refl, refl, refl, refl, tt)) (omega arith) (omega arith)

build_response-collector_example : build_response true (asked 9 0 26) reading 64 ≡ err 2
build_response-collector_example = build_response-collector 9 0 26 64 reading (omega arith)
