-- ===== src/CircularBuffer/MainReads/Invariant.antt =====
-- The invariant holds between any two turns of the main thread and the interrupts.
use native.Mathlib.Decide.{ℕ_discrete}
use picolibrary.Common.{
  ℕ, ◌+◌, ◌-◌, ◌≡◌, ◌≢◌, refl, ◌∙◌, Bool, true, false, ◌==◌, Option, none, some, List, [], ◌∷◌,
  ◌++◌, length, length-append, Bool-cases, inl, inr, arith,
}
use picolibrary.Expectation.{GenericError, done, fatal, would_overflow}
use picolibrary.CircularBuffer.{CircularBuffer, increment, decrement, new_buffer, front}
use picolibrary.CircularBuffer.FromInterrupt.{
  push_from_interrupt, push_from_interrupt_bypass, full_from_interrupt, size_from_interrupt,
}
use picolibrary.CircularBuffer.Represents.{IsCapacity, new_buffer-Represents}
use picolibrary.CircularBuffer.View.{
  Contains-push, Contains-pop, Contains-front, increment-eq, decrement-eq, history-push,
  history-pop,
}
use picolibrary.CircularBuffer.MainReads.{
  MainAt, idle, checked, destroyed, advanced, locked, loaded, stored, System, Turn, main_turn,
  interrupt_turn, check, pop_step, pushed_by, push_turn, turn, run_turns, start,
}
use picolibrary.CircularBuffer.MainReads.Knowledge.{Inv, Knows-push, system}

module _ {ℓ} {A : Type ℓ} (digits capacity : ℕ) (initially : Bool)
    (c : IsCapacity digits capacity) where
  faulted :
      {at : MainAt} {b : CircularBuffer A} {enabled : Bool} {pushed : List A}
      {popped : List (Option A)} {fault next : Option GenericError} {values : List A}
      → Inv digits capacity initially (system at b enabled pushed popped fault) values
      → Inv digits capacity initially (system at b enabled pushed popped next) values
  faulted i = record {
    contents = i.contents;
    sized = i.sized;
    size_in = i.size_in;
    knows = i.knows;
    guarded = i.guarded;
    history = i.history;
  }

  push_full :
      (b : CircularBuffer A) (x : A)
      → b.m_size ≡ capacity
      → push_from_interrupt digits capacity b x ≡ fatal would_overflow
  unfolding push_from_interrupt full_from_interrupt size_from_interrupt
  push_full b x h = ground arith

  push_room :
      (b : CircularBuffer A) (x : A)
      → b.m_size ≢ capacity
      → push_from_interrupt digits capacity b x
        ≡ done (push_from_interrupt_bypass digits capacity b x)
  unfolding push_from_interrupt full_from_interrupt size_from_interrupt
  push_room b x h = ground arith

  push-Inv :
      (s : System A) (values : List A) (x : A)
      → Inv digits capacity initially s values
      → s.interrupts_enabled ≡ true
      → s.buffer.m_size ≢ capacity
      → Inv digits capacity initially
          (record s {
            buffer = push_from_interrupt_bypass digits capacity s.buffer x;
            pushed = s.pushed ++ (x ∷ []);
          })
          (values ++ (x ∷ []))
  unfolding push_from_interrupt_bypass
  push-Inv s values x i on room = record {
    contents =
        Contains-push digits capacity c _ s.buffer.m_write s.buffer.m_storage values x i.contents
          (omega (arith, i.sized, i.size_in));
    sized = grown ∙ omega (arith, i.sized, longer);
    size_in = omega (arith, grown, i.size_in);
    knows =
        Knows-push initially s.main_at s.interrupts_enabled s.buffer.m_size (length values)
          (increment digits s.buffer.m_size) (length (values ++ (x ∷ []))) on longer i.guarded
          i.knows;
    guarded = i.guarded;
    history = history-push s.pushed s.popped values x i.history;
  }
    where
      grown : increment digits s.buffer.m_size ≡ s.buffer.m_size + 1
      grown = increment-eq digits s.buffer.m_size (omega (arith, c.representable, i.size_in))

      longer : length (values ++ (x ∷ [])) ≡ length values + 1
      longer = length-append values (x ∷ [])

  pop_step-Inv :
      (at : MainAt) (b : CircularBuffer A) (enabled : Bool) (pushed : List A)
      (popped : List (Option A)) (fault : Option GenericError) (values : List A)
      → Inv digits capacity initially (system at b enabled pushed popped fault) values
      → (rest : List A) × Inv digits capacity initially
          (pop_step digits capacity at (system at b enabled pushed popped fault))
          rest
  unfolding pop_step check front
  pop_step-Inv idle b enabled pushed popped fault values i = elim (Bool-cases (b.m_size == 0)) [
    | inl e ↦ rw (e, check) (values, faulted i)
    | inr e ↦
        rw (e, check)
          (
            values,
            record {
              contents = i.contents;
              sized = i.sized;
              size_in = i.size_in;
              knows = ground (arith, i.sized);
              guarded = i.guarded;
              history = i.history;
            },
          )
  ]
  pop_step-Inv checked b enabled pushed popped fault [] i = absurd (omega (arith, i.knows))
  pop_step-Inv checked b enabled pushed popped fault (x ∷ values) i = (
    values,
    record {
      contents = Contains-pop digits capacity c b.m_read b.m_write b.m_storage x values i.contents;
      sized = omega (arith, i.sized);
      size_in = i.size_in;
      knows = tt;
      guarded = i.guarded;
      history =
          history-pop pushed popped x values _
            (Contains-front digits capacity c b.m_read b.m_write b.m_storage x values i.contents)
            i.history;
    },
  )
  pop_step-Inv destroyed b enabled pushed popped fault values i = (
    values,
    record {
      contents = i.contents;
      sized = i.sized;
      size_in = i.size_in;
      knows = tt;
      guarded = i.guarded;
      history = i.history;
    },
  )
  pop_step-Inv advanced b enabled pushed popped fault values i = (
    values,
    record {
      contents = i.contents;
      sized = i.sized;
      size_in = i.size_in;
      knows = tt;
      guarded = (refl, i.guarded);
      history = i.history;
    },
  )
  pop_step-Inv (locked guard) b enabled pushed popped fault values i = (
    values,
    record {
      contents = i.contents;
      sized = i.sized;
      size_in = i.size_in;
      knows = refl;
      guarded = i.guarded;
      history = i.history;
    },
  )
  pop_step-Inv (loaded guard size) b enabled pushed popped fault values i =
      let lower : decrement digits size ≡ size - 1 =
        decrement-eq digits size (omega (arith, i.knows, i.sized))
          (omega (arith, i.knows, i.size_in, c.representable)) in
      (
        values,
        record {
          contents = i.contents;
          sized = omega (arith, lower, i.knows, i.sized);
          size_in = omega (arith, lower, i.knows, i.size_in);
          knows = tt;
          guarded = i.guarded;
          history = i.history;
        },
      )
  pop_step-Inv (stored guard) b enabled pushed popped fault values i = (
    values,
    record {
      contents = i.contents;
      sized = i.sized;
      size_in = i.size_in;
      knows = tt;
      guarded = i.guarded.1;
      history = i.history;
    },
  )

  push_turn-Inv :
      (s : System A) (enabled : Bool) (values : List A) (x : A)
      → s.interrupts_enabled ≡ enabled
      → Inv digits capacity initially s values
      → (rest : List A) × Inv digits capacity initially (push_turn digits capacity enabled s x) rest
  unfolding push_turn
  push_turn-Inv s false values x e i = (values, i)
  push_turn-Inv s true values x e i = elim (ℕ_discrete s.buffer.m_size capacity) [
    | yes full ↦ rw (push_full s.buffer x full, pushed_by) (values, faulted i)
    | no room ↦
        rw (push_room s.buffer x room, pushed_by) (values ++ (x ∷ []), push-Inv s values x i e room)
  ]

  turn-Inv :
      (fault : Option GenericError) (s : System A) (t : Turn A) (values : List A)
      → Inv digits capacity initially s values
      → (rest : List A) × Inv digits capacity initially (turn digits capacity fault s t) rest
  unfolding turn
  turn-Inv (some e) s t values i = (values, i)
  turn-Inv none s main_turn values i =
      pop_step-Inv s.main_at s.buffer s.interrupts_enabled s.pushed s.popped s.fault values i
  turn-Inv none s (interrupt_turn x) values i = push_turn-Inv s s.interrupts_enabled values x refl i

  run_turns-Inv :
      (turns : List (Turn A)) (s : System A) (values : List A)
      → Inv digits capacity initially s values
      → (rest : List A) × Inv digits capacity initially (run_turns digits capacity turns s) rest
  unfolding run_turns
  run_turns-Inv [] s values i = (values, i)
  run_turns-Inv (t ∷ turns) s values i =
      let (rest, j) = turn-Inv s.fault s t values i in
      run_turns-Inv turns (turn digits capacity s.fault s t) rest j

  -- For a capacity that is a power of two and a value of the size type, interrupts that are
  -- enabled or disabled at the start, and any order of the accesses of a main thread that pops
  -- with the pushes of the interrupts between them: at every point some values remain that, behind
  -- those that were popped, are the values that were pushed in their order; the slots hold exactly
  -- these and `m_size` counts them, with one more while a pop has emptied its slot and not yet
  -- stored the size; every pop that has passed its check finds a value; within the critical
  -- section, until the destructor of its guard has run, interrupts are disabled, and the size that
  -- it has read is the stored one until it stores its own; and outside it interrupts are as they
  -- were at the start.
  pub pop_turns_lem :
      (turns : List (Turn A))
      → (values : List A) × Inv digits capacity initially
          (run_turns digits capacity turns (start digits capacity initially))
          values
  unfolding start new_buffer
  pop_turns_lem turns = run_turns-Inv turns (start digits capacity initially) [] (record {
    contents = new_buffer-Represents digits capacity c;
    sized = refl;
    size_in = omega arith;
    knows = tt;
    guarded = refl;
    history = refl;
  })
