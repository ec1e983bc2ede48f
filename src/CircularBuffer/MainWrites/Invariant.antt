-- ===== src/CircularBuffer/MainWrites/Invariant.antt =====
-- The invariant holds between any two turns of the main thread and the interrupt.
use native.Mathlib.Decide.{ℕ_discrete}
use picolibrary.Common.{
  ℕ, ◌+◌, ◌-◌, ◌≡◌, ◌≢◌, refl, Bool, true, false, ◌==◌, Option, none, some, List, [], ◌∷◌, ◌++◌,
  length, length-append, Bool-cases, inl, inr, arith,
}
use picolibrary.Expectation.{GenericError, done, fatal, would_underflow}
use picolibrary.CircularBuffer.{CircularBuffer, increment, decrement, new_buffer, front}
use picolibrary.CircularBuffer.FromInterrupt.{
  pop_from_interrupt, pop_from_interrupt_bypass, empty_from_interrupt, size_from_interrupt,
  front_from_interrupt,
}
use picolibrary.CircularBuffer.Represents.{IsCapacity, new_buffer-Represents}
use picolibrary.CircularBuffer.View.{
  Contains-push, Contains-pop, Contains-front, increment-eq, decrement-eq, history-push,
  history-pop,
}
use picolibrary.CircularBuffer.MainWrites.{
  MainAt, idle, checked, placed, advanced, locked, loaded, stored, System, Turn, main_turn,
  interrupt_turn, check, push_step, popped_by, pop_turn, turn, run_turns, start,
}
use picolibrary.CircularBuffer.MainWrites.Knowledge.{Inv, Knows-pop, system}

module _ {ℓ} {A : Type ℓ} (digits capacity : ℕ) (initially : Bool)
    (c : IsCapacity digits capacity) where
  faulted :
      {at : MainAt A} {b : CircularBuffer A} {enabled : Bool} {pushed : List A}
      {popped : List (Option A)} {fault next : Option GenericError} {values : List A}
      → Inv digits capacity initially (system at b enabled pushed popped fault) values
      → Inv digits capacity initially (system at b enabled pushed popped next) values
  faulted i = record {
    contents = i.contents;
    sized = i.sized;
    knows = i.knows;
    guarded = i.guarded;
    history = i.history;
  }

  pop_empty :
      (b : CircularBuffer A)
      → b.m_size ≡ 0
      → pop_from_interrupt digits capacity b ≡ fatal would_underflow
  unfolding pop_from_interrupt empty_from_interrupt size_from_interrupt
  pop_empty b h = ground arith

  pop_some :
      (b : CircularBuffer A)
      → b.m_size ≢ 0
      → pop_from_interrupt digits capacity b ≡ done (pop_from_interrupt_bypass digits capacity b)
  unfolding pop_from_interrupt empty_from_interrupt size_from_interrupt
  pop_some b h = ground arith

  pop-Inv :
      (s : System A) (x : A) (values : List A)
      → Inv digits capacity initially s (x ∷ values)
      → s.interrupts_enabled ≡ true
      → s.buffer.m_size ≢ 0
      → Inv digits capacity initially
          (record s {
            buffer = pop_from_interrupt_bypass digits capacity s.buffer;
            popped = s.popped ++ (front_from_interrupt digits capacity s.buffer ∷ []);
          })
          values
  unfolding pop_from_interrupt_bypass front_from_interrupt front
  pop-Inv s x values i on some_left = record {
    contents =
        Contains-pop digits capacity c s.buffer.m_read _ s.buffer.m_storage x values i.contents;
    sized = omega (arith, lower, i.sized);
    knows =
        Knows-pop capacity initially s.main_at s.interrupts_enabled s.buffer.m_size (length values)
          (decrement digits s.buffer.m_size) on i.guarded i.knows;
    guarded = i.guarded;
    history =
        history-pop s.pushed s.popped x values _
          (Contains-front digits capacity c s.buffer.m_read _ s.buffer.m_storage x values
            i.contents)
          i.history;
  }
    where
      lower : decrement digits s.buffer.m_size ≡ s.buffer.m_size - 1
      lower =
          decrement-eq digits s.buffer.m_size (omega arith)
            (omega (arith, i.sized, i.contents.size_in, c.representable))

  push_step-Inv :
      (at : MainAt A) (b : CircularBuffer A) (enabled : Bool) (pushed : List A)
      (popped : List (Option A)) (fault : Option GenericError) (values : List A) (y : A)
      → Inv digits capacity initially (system at b enabled pushed popped fault) values
      → (rest : List A) × Inv digits capacity initially
          (push_step digits capacity at (system at b enabled pushed popped fault) y)
          rest
  unfolding push_step check
  push_step-Inv idle b enabled pushed popped fault values y i =
      elim (Bool-cases (b.m_size == capacity)) [
        | inl e ↦ rw (e, check) (values, faulted i)
        | inr e ↦
            rw (e, check)
              (
                values,
                record {
                  contents = i.contents;
                  sized = i.sized;
                  knows = ground (arith, i.sized, i.contents.size_in);
                  guarded = i.guarded;
                  history = i.history;
                },
              )
      ]
  push_step-Inv (checked x) b enabled pushed popped fault values y i = (
    values ++ (x ∷ []),
    record {
      contents =
          Contains-push digits capacity c b.m_read b.m_write b.m_storage values x i.contents
            i.knows;
      sized = omega (arith, i.sized, length-append values (x ∷ []));
      knows = tt;
      guarded = i.guarded;
      history = history-push pushed popped values x i.history;
    },
  )
  push_step-Inv placed b enabled pushed popped fault values y i = (
    values,
    record {
      contents = i.contents;
      sized = i.sized;
      knows = tt;
      guarded = i.guarded;
      history = i.history;
    },
  )
  push_step-Inv advanced b enabled pushed popped fault values y i = (
    values,
    record {
      contents = i.contents;
      sized = i.sized;
      knows = tt;
      guarded = (refl, i.guarded);
      history = i.history;
    },
  )
  push_step-Inv (locked guard) b enabled pushed popped fault values y i = (
    values,
    record {
      contents = i.contents;
      sized = i.sized;
      knows = refl;
      guarded = i.guarded;
      history = i.history;
    },
  )
  push_step-Inv (loaded guard size) b enabled pushed popped fault values y i =
      let higher : increment digits size ≡ size + 1 =
        increment-eq digits size
          (omega (arith, i.knows, i.sized, i.contents.size_in, c.representable)) in
      (
        values,
        record {
          contents = i.contents;
          sized = omega (arith, higher, i.knows, i.sized);
          knows = tt;
          guarded = i.guarded;
          history = i.history;
        },
      )
  push_step-Inv (stored guard) b enabled pushed popped fault values y i = (
    values,
    record {
      contents = i.contents;
      sized = i.sized;
      knows = tt;
      guarded = i.guarded.1;
      history = i.history;
    },
  )

  pop_turn-Inv :
      (s : System A) (enabled : Bool) (values : List A)
      → s.interrupts_enabled ≡ enabled
      → Inv digits capacity initially s values
      → (rest : List A) × Inv digits capacity initially (pop_turn digits capacity enabled s) rest
  unfolding pop_turn
  pop_turn-Inv s false values e i = (values, i)
  pop_turn-Inv s true values e i = elim (ℕ_discrete s.buffer.m_size 0) [
    | yes empty ↦ rw (pop_empty s.buffer empty, popped_by) (values, faulted i)
    | no some_left ↦ rw (pop_some s.buffer some_left, popped_by) (popped_one values i some_left)
  ]
    where
      popped_one :
          (values : List A)
          → Inv digits capacity initially s values
          → s.buffer.m_size ≢ 0
          → (rest : List A) × Inv digits capacity initially
              (record s {
                buffer = pop_from_interrupt_bypass digits capacity s.buffer;
                popped = s.popped ++ (front_from_interrupt digits capacity s.buffer ∷ []);
              })
              rest
      popped_one [] i some_left = absurd (some_left (omega (arith, i.sized)))
      popped_one (x ∷ values) i some_left = (values, pop-Inv s x values i e some_left)

  turn-Inv :
      (fault : Option GenericError) (s : System A) (t : Turn A) (values : List A)
      → Inv digits capacity initially s values
      → (rest : List A) × Inv digits capacity initially (turn digits capacity fault s t) rest
  unfolding turn
  turn-Inv (some e) s t values i = (values, i)
  turn-Inv none s (main_turn x) values i =
      push_step-Inv s.main_at s.buffer s.interrupts_enabled s.pushed s.popped s.fault values x i
  turn-Inv none s interrupt_turn values i = pop_turn-Inv s s.interrupts_enabled values refl i

  run_turns-Inv :
      (turns : List (Turn A)) (s : System A) (values : List A)
      → Inv digits capacity initially s values
      → (rest : List A) × Inv digits capacity initially (run_turns digits capacity turns s) rest
  unfolding run_turns
  run_turns-Inv [] s values i = (values, i)
  run_turns-Inv (t ∷ turns) s values i =
      let (rest, j) = turn-Inv s.fault s t values i in
      run_turns-Inv turns (turn digits capacity s.fault s t) rest j

  -- For a capacity that is a power of two and a value of the size type, interrupts that are
  -- enabled or disabled at the start, and any order of the accesses of a main thread that pushes
  -- with the pops of the interrupt between them: at every point some values remain that, behind
  -- those that were popped, are the values that were pushed in their order; the slots hold exactly
  -- these and `m_size` counts them, but for one while a push has filled its slot and not yet
  -- stored the size; every push that has passed its check finds room, and every pop that passes
  -- its check finds a value; within the critical section, until the destructor of its guard has
  -- run, interrupts are disabled, and the size that it has read is the stored one until it stores
  -- its own; and outside it interrupts are as they were at the start.
  pub push_turns_lem :
      (turns : List (Turn A))
      → (values : List A) × Inv digits capacity initially
          (run_turns digits capacity turns (start digits capacity initially))
          values
  unfolding start new_buffer
  push_turns_lem turns = run_turns-Inv turns (start digits capacity initially) [] (record {
    contents = new_buffer-Represents digits capacity c;
    sized = refl;
    knows = tt;
    guarded = refl;
    history = refl;
  })
