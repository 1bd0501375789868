-- ===== src/Rpmsg/Bridge/Delivery.antt =====
-- What reaches the sink.
use okmx8mm.Base.{ℕ, zero, suc, ◌≡◌, refl, arith, List, some, take}
use okmx8mm.Base.{
  true, ◌++◌, Bool-cases, ◌/=◌, Result-cases, ok, ℤ, pos, negsuc, ◌⊎◌, inl, inr, take-append,
}
use okmx8mm.Sample.{Sample, IsSample}
use okmx8mm.Rpmsg.{decode, encode}
use okmx8mm.Rpmsg.RoundTrip.{decode-encode, length-encode}
use okmx8mm.Rpmsg.Bridge.{Sink, Read, process_frame, after_read, reader_step}

module _ {C : Type 0} (context : C) (sink : Sink C) where
  -- The sink has not run, or it has run once, on the sample that the frame decodes to.
  abbrev pub Delivered : List ℕ → ℤ × C → Type 0
  Delivered frame result =
      (result.1 ≡ context)
      ⊎ ((s : Sample) × (decode (some frame) true ≡ ok s) × (result ≡ sink context s))

  process-Delivered :
      (frame : List ℕ) → Delivered frame (process_frame (some frame) context (some sink))
  unfolding process_frame
  process-Delivered frame = elim (Result-cases (decode (some frame) true)) [
    | inl (s, e) ↦ inr (s, e, rw (e, process_frame))
    | inr (n, e) ↦ inl (rw (e, process_frame))
  ]

  after_read-Delivered :
      (code : ℤ) (buffer : List ℕ)
      → Delivered (take 63 buffer) (after_read code buffer context sink)
  unfolding after_read
  after_read-Delivered (negsuc n) buffer = inl refl
  after_read-Delivered (pos zero) buffer = inl refl
  after_read-Delivered (pos (suc n)) buffer = elim (Bool-cases (suc n /= 63)) [
    | inl other ↦ inl (rw other)
    | inr whole ↦
        let full : suc n ≡ 63 = ground arith in
        rw (whole, full) (process-Delivered (take 63 buffer))
  ]

  -- Whatever the device returns, one step of the reader leaves the sink's context alone, or runs
  -- the sink once, on the sample that the 63 bytes of the buffer decode to, and returns its code.
  pub reader_step-Delivered :
      {R : Type 0} (read : Read R) (device : R)
      → let step = reader_step true (some read) device context (some sink) in
        Delivered (take 63 (read device 63).1) (step.0, step.2)
  unfolding reader_step
  reader_step-Delivered read device = after_read-Delivered (read device 63).0 (read device 63).1

  -- A frame that the M4 core publishes for a sample, delivered whole by the device, runs the sink
  -- once on that sample: the step returns the sink's code and context.
  pub reader_step-encode :
      {R : Type 0} (read : Read R) (device next : R) (s : Sample) (rest : List ℕ)
      → IsSample s
      → read device 63 ≡ (pos 63, encode s ++ rest, next)
      → reader_step true (some read) device context (some sink)
        ≡ ((sink context s).0, next, (sink context s).1)
  unfolding reader_step after_read process_frame
  reader_step-encode read device next s rest valid e = rw (
    e,
    take-append (encode s) rest 63 (length-encode s valid),
    decode-encode s valid,
    process_frame,
  )
