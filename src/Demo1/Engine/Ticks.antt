-- ===== src/Demo1/Engine/Ticks.antt =====
-- The engine from tick to tick.
use okmx8mm.Base.{ℕ, suc, ◌+◌, ◌<◌, ◌≡◌, refl, sym, ap, ◌∙◌, arith}
use okmx8mm.Base.{List, [], ◌∷◌, ◌++◌, Bool, true, false, ◌||◌, length, u32, ◌==◌}
use okmx8mm.Base.{ltb, u8, pos, failed, ◌⊎◌, inl, inr, Bool-cases, length-snoc}
use okmx8mm.Demo1.{TickSample, Batch}
use okmx8mm.Demo1.Engine.{ReadTick, Engine, accept, opened, tick}
use okmx8mm.Demo1.Engine.Rows.{IsTick}
use okmx8mm.Demo1.Engine.Batches.{batch_of, put-opened, put-batch_of}

-- The guard of the tick.
abbrev pub refused : TickSample → Bool
refused s = s.analog_channel_count == 0 || ltb 14 s.analog_channel_count

accepted : (s : TickSample) → refused s ≡ false → length s.analog ≡ 14 → IsTick s
accepted s h full = ground arith

module _ {S : Type 0} where
  -- The open batch holds the samples that were read, fewer than ten.
  abbrev pub IsOpen : Engine S → Type 0
  IsOpen engine =
      (engine.sample_index ≡ 0)
      ⊎ ((time : ℕ) × (s : TickSample) × (ss : List TickSample) × (engine.sample_index
            ≡ suc (length ss))
          × (engine.sample_index < 10)
          × (engine.current_batch ≡ batch_of engine.next_sequence time s ss))

  -- A batch that waits for its consumer holds ten samples.
  abbrev pub IsReady : Engine S → Type 0
  IsReady engine =
      engine.batch_ready ≡ true
      → (sequence : ℕ) × (time : ℕ) × (s : TickSample) × (ss : List TickSample) × (length ss ≡ 9)
        × (engine.ready_batch ≡ batch_of sequence time s ss)

  abbrev pub IsEngine : Engine S → Type 0
  IsEngine engine = IsOpen engine × IsReady engine

  -- The engine after a tick that opens a batch, adds to it, or completes it.
  abbrev pub with_open : Engine S → Batch → ℕ → Engine S
  with_open engine batch index = record engine { current_batch = batch; sample_index = index }

  abbrev pub with_ready : Engine S → Batch → Engine S
  with_ready engine batch = record engine {
    current_batch = batch;
    ready_batch = batch;
    batch_ready = true;
    sample_index = 0;
    next_sequence = u32 (engine.next_sequence + 1);
  }

  pub accept_first :
      (engine : Engine S) (time : ℕ) (s : TickSample)
      → IsTick s
      → engine.sample_index ≡ 0
      → accept engine time s ≡ (false, with_open engine (batch_of engine.next_sequence time s []) 1)
  unfolding accept
  accept_first engine time s good none_yet =
      rw (none_yet, put-opened engine.current_batch engine.next_sequence time s good) refl

  opened-next :
      (engine : Engine S) (time now : ℕ) (s : TickSample) (ss : List TickSample) (t : TickSample)
      → engine.current_batch ≡ batch_of engine.next_sequence time s ss
      → engine.sample_index ≡ suc (length ss)
      → opened engine.current_batch engine.sample_index t.analog_channel_count engine.next_sequence
          now
        ≡ batch_of engine.next_sequence time s ss
  unfolding opened
  opened-next engine time now s ss t held at_index = rw (at_index, further) held
    where
      further : (suc (length ss) == 0) ≡ false
      further = ground arith

  pub accept_next :
      (engine : Engine S) (time now : ℕ) (s : TickSample) (ss : List TickSample) (t : TickSample)
      → IsTick t
      → engine.sample_index ≡ suc (length ss)
      → length ss < 8
      → engine.current_batch ≡ batch_of engine.next_sequence time s ss
      → accept engine now t ≡ (
        false,
        with_open engine
            (batch_of engine.next_sequence time s (ss ++ (t ∷ [])))
            (suc (suc (length ss))),
      )
  unfolding accept
  accept_next engine time now s ss t good at_index below held =
      rw
        (
          opened-next engine time now s ss t held at_index,
          put-batch_of engine.next_sequence time engine.sample_index s ss t good at_index
              (omega arith),
          at_index,
          step,
          below_ten,
        )
        refl
    where
      step : u8 (suc (length ss) + 1) ≡ suc (suc (length ss))
      step = omega arith

      below_ten : ltb (suc (suc (length ss))) 10 ≡ true
      below_ten = ground arith

  pub accept_last :
      (engine : Engine S) (time now : ℕ) (s : TickSample) (ss : List TickSample) (t : TickSample)
      → IsTick t
      → engine.sample_index ≡ suc (length ss)
      → length ss ≡ 8
      → engine.current_batch ≡ batch_of engine.next_sequence time s ss
      → accept engine now t
        ≡ (true, with_ready engine (batch_of engine.next_sequence time s (ss ++ (t ∷ []))))
  unfolding accept
  accept_last engine time now s ss t good at_index last held =
      rw
        (
          opened-next engine time now s ss t held at_index,
          put-batch_of engine.next_sequence time engine.sample_index s ss t good at_index
              (omega arith),
          nine,
        )
        refl
    where
      nine : engine.sample_index ≡ 9
      nine = omega arith

  pub tick-accept :
      (read : ReadTick S) (engine : Engine S) (now : ℕ) (s : TickSample)
      → (read engine.source now).0 ≡ pos 0
      → (read engine.source now).1 ≡ s
      → IsTick s
      → tick read true engine now
        ≡ accept (record engine { source = (read engine.source now).2 }) now s
  unfolding tick
  tick-accept read engine now s fine it good = rw (fine, it, taken) refl
    where
      taken : refused s ≡ false
      taken = ground arith

  accept-IsEngine :
      (engine : Engine S) (now : ℕ) (t : TickSample)
      → IsTick t
      → IsEngine engine
      → IsEngine (accept engine now t).1
  accept-IsEngine engine now t good (inl none_yet, ready) =
      rw (accept_first engine now t good none_yet)
        (inr (now, t, [], refl, omega arith, refl), ready)
  accept-IsEngine engine now t good (inr (time, s, ss, at_index, below, held), ready) =
      elim (Bool-cases (length ss == 8)) [
        | inl last ↦
            let full : length ss ≡ 8 = ground arith in
            rw (accept_last engine time now s ss t good at_index full held) (
              inl refl,
              λ h. (
                engine.next_sequence,
                time,
                s,
                ss ++ (t ∷ []),
                length-snoc ss t ∙ ap suc full,
                refl,
              ),
            )
        | inr more ↦
            let room : length ss < 8 = ground arith in
            rw (accept_next engine time now s ss t good at_index room held) (
              inr (time, s, ss ++ (t ∷ []), ap suc (sym (length-snoc ss t)), omega arith, refl),
              ready,
            )
      ]

  -- The source fills all fourteen entries of a sample.
  abbrev pub IsSource : ReadTick S → Type 0
  IsSource read = (source : S) (time : ℕ) → length (read source time).1.analog ≡ 14

  -- Whatever the source returns, its arrays being of fourteen channels, a tick keeps the
  -- invariant: no sample has been put in the open batch, or it is the batch of as many samples as
  -- the index says, fewer than ten; and a batch that is ready is the batch of ten samples.
  pub tick-IsEngine :
      (read : ReadTick S) (given : Bool) (engine : Engine S) (now : ℕ)
      → IsSource read
      → IsEngine engine
      → IsEngine (tick read given engine now).1
  unfolding tick
  tick-IsEngine read false engine now arrays h = h
  tick-IsEngine read true engine now arrays h =
      elim (Bool-cases (failed (read engine.source now).0)) [
        | inl broken ↦ rw broken h
        | inr fine ↦ elim (Bool-cases (refused (read engine.source now).1)) [
          | inl bad ↦ rw (fine, bad) h
          | inr good ↦
              rw (fine, good)
                (accept-IsEngine (record engine { source = (read engine.source now).2 }) now
                  (read engine.source now).1
                  (accepted (read engine.source now).1 good (arrays engine.source now)) h)
        ]
      ]
