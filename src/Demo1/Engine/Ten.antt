-- ===== src/Demo1/Engine/Ten.antt =====
-- Ten ticks make a batch.
use okmx8mm.Base.{ℕ, suc, ◌+◌, ◌<◌, ◌≡◌, refl, sym, ap, ◌∙◌, arith}
use okmx8mm.Base.{
  List, [], ◌∷◌, ◌++◌, Bool, true, false, length, u32, pos, append-snoc, length-snoc,
}
use okmx8mm.Base.{ok}
use okmx8mm.Demo1.{TickSample, Batch}
use okmx8mm.Demo1.Engine.{ReadTick, Engine, accept, tick, consume_batch}
use okmx8mm.Demo1.Engine.Rows.{IsTick}
use okmx8mm.Demo1.Engine.Batches.{batch_of}
use okmx8mm.Demo1.Engine.Ticks.{accept_first, accept_next, accept_last, tick-accept}

module _ {S : Type 0} (read : ReadTick S) where
  -- Ticks at these times.
  unfoldable pub ticks : Engine S → List (ℕ × TickSample) → Engine S
  ticks engine [] = engine
  ticks engine ((now, t) ∷ rest) = ticks (tick read true engine now).1 rest

  -- At these times the source returns these samples, which the engine does not refuse.
  abbrev pub Delivers : S → List (ℕ × TickSample) → Type 0
  Delivers source [] = Unit
  Delivers source ((now, t) ∷ rest) =
      ((read source now).0 ≡ pos 0)
      × ((read source now).1 ≡ t)
      × IsTick t
      × Delivers (read source now).2 rest

  -- The batch is ready, and the next one has the next number.
  abbrev pub Completed : Engine S → ℕ → Batch → Type 0
  Completed engine sequence batch =
      (engine.batch_ready ≡ true)
      × (engine.ready_batch ≡ batch)
      × (engine.sample_index ≡ 0)
      × (engine.next_sequence ≡ u32 (sequence + 1))

  abbrev pub samples_of : List (ℕ × TickSample) → List TickSample
  samples_of [] = []
  samples_of ((now, t) ∷ rest) = t ∷ samples_of rest

  ticks-nil : (engine : Engine S) → ticks engine [] ≡ engine
  unfolding ticks
  ticks-nil engine = refl

  -- One tick of such a source.
  advance :
      (engine engine' : Engine S) (done : Bool) (now : ℕ) (t : TickSample)
      (rest : List (ℕ × TickSample))
      → Delivers engine.source ((now, t) ∷ rest)
      → accept (record engine { source = (read engine.source now).2 }) now t ≡ (done, engine')
      → ticks engine ((now, t) ∷ rest) ≡ ticks engine' rest
  unfolding ticks
  advance engine engine' done now t rest (fine, it, good, h) e =
      ap (λ r. ticks r.1 rest) (tick-accept read engine now t fine it good ∙ e)

  ticks-Completed :
      (rest : List (ℕ × TickSample)) (engine : Engine S) (time : ℕ) (s : TickSample)
      (ss : List TickSample)
      → engine.sample_index ≡ suc (length ss)
      → length ss + length rest ≡ 9
      → length ss < 9
      → engine.current_batch ≡ batch_of engine.next_sequence time s ss
      → Delivers engine.source rest
      → Completed
          (ticks engine rest)
          engine.next_sequence
          (batch_of engine.next_sequence time s (ss ++ samples_of rest))
  ticks-Completed [] engine time s ss at_index total below held h = absurd (omega arith)
  ticks-Completed ((now, t) ∷ []) engine time s ss at_index total below held h =
      let moved = record engine { source = (read engine.source now).2 } in
      rw
        (
          advance engine _ true now t [] h
              (accept_last moved time now s ss t h.2 at_index (omega arith) held),
          ticks-nil,
        )
        (refl, refl, refl, refl)
  ticks-Completed ((now, t) ∷ next ∷ rest) engine time s ss at_index total below held h =
      let moved = record engine { source = (read engine.source now).2 } in
      rw
        (
          advance engine _ false now t (next ∷ rest) h
              (accept_next moved time now s ss t h.2 at_index (omega arith) held),
          append-snoc ss (samples_of (next ∷ rest)) t,
        )
        (ticks-Completed (next ∷ rest)
          (record engine {
            source = (read engine.source now).2;
            current_batch = batch_of engine.next_sequence time s (ss ++ (t ∷ []));
            sample_index = suc (suc (length ss));
          })
          time s (ss ++ (t ∷ [])) (ap suc (sym (length-snoc ss t)))
          (omega (arith, length-snoc ss t)) (omega (arith, length-snoc ss t)) refl h.3)

  -- From an engine without an open batch, ten ticks of a source whose samples are not refused
  -- make a batch ready: it is the description's batch of these ten samples, in order, with the
  -- number and the time of the first. The consumer gets that batch, and the next batch will have
  -- the next number modulo 2 ^ 32.
  pub ticks-batch_of :
      (engine : Engine S) (time : ℕ) (s : TickSample) (rest : List (ℕ × TickSample))
      → engine.sample_index ≡ 0
      → length rest ≡ 9
      → Delivers engine.source ((time, s) ∷ rest)
      → let after = ticks engine ((time, s) ∷ rest) in
        let batch = batch_of engine.next_sequence time s (samples_of rest) in
        Completed after engine.next_sequence batch
        × ((consume_batch true after).0 ≡ ok batch)
        × ((consume_batch true after).1.batch_ready ≡ false)
  unfolding consume_batch
  ticks-batch_of engine time s rest none_yet nine (fine, it, good, h) =
      let opened_engine = record engine {
        source = (read engine.source time).2;
        current_batch = batch_of engine.next_sequence time s [];
        sample_index = 1;
      } in
      rw
        (advance engine _ false time s rest (fine, it, good, h)
          (accept_first (record engine { source = (read engine.source time).2 }) time s good
            none_yet))
        (finish (ticks opened_engine rest)
          (ticks-Completed rest opened_engine time s [] refl (omega arith) (omega arith) refl h))
    where
      batch : Batch
      batch = batch_of engine.next_sequence time s (samples_of rest)

      finish :
          (after : Engine S)
          → Completed after engine.next_sequence batch
          → Completed after engine.next_sequence batch
            × ((consume_batch true after).0 ≡ ok batch)
            × ((consume_batch true after).1.batch_ready ≡ false)
      finish after (ready, held, index, next) =
          ((ready, held, index, next), rw (ready, held) refl, rw ready refl)
