-- ===== src/CircularBuffer/InterruptsOnly.antt =====
-- include/picolibrary/circular_buffer.h: the use case INTERRUPT_READS_INTERRUPTS_WRITE. The main
-- thread does not use the buffer, and the interrupts that do run one after the other.
use picolibrary.Common.{
  ℕ, zero, suc, ◌≡◌, refl, ap, ◌∙◌, ◌==◌, Bool-cases, none, List, [], ◌∷◌, if◌then◌else◌, inl, inr,
}
use picolibrary.Expectation.{Checked, done, fatal, ◌>>=◌}
use picolibrary.CircularBuffer.{
  CircularBuffer, new_buffer, front, back, empty, full, push, push_bypass, pop, pop_bypass, clear,
  clear_loop,
}
use picolibrary.CircularBuffer.Queue.{Call, push_call, pop_call, clear_call, Observation, run_queue}
use picolibrary.CircularBuffer.Represents.{IsCapacity}
use picolibrary.CircularBuffer.Refinement.{
  call_buffer, observe_buffer, run_buffer, run_buffer-eq-run_queue,
}
use picolibrary.CircularBuffer.FromInterrupt.{
  size_from_interrupt, empty_from_interrupt, full_from_interrupt, front_from_interrupt,
  back_from_interrupt, push_from_interrupt, push_from_interrupt_bypass, pop_from_interrupt,
  pop_from_interrupt_bypass, clear_from_interrupt, clear_from_interrupt_loop,
}

bind-ext {ℓ κ} :
    {A : Type ℓ} {B : Type κ} (m : Checked A) {f g : A → Checked B}
    → ((a : A) → f a ≡ g a)
    → (m >>= f) ≡ (m >>= g)
bind-ext (done a) h = h a
bind-ext (fatal e) h = refl

module _ {ℓ} {A : Type ℓ} (digits capacity : ℕ) where
  unfoldable pub call_from_interrupt : CircularBuffer A → Call A → Checked (CircularBuffer A)
  call_from_interrupt b (push_call x) = push_from_interrupt digits capacity b x
  call_from_interrupt b pop_call = pop_from_interrupt digits capacity b
  call_from_interrupt b clear_call = done (clear_from_interrupt digits capacity b)

  unfoldable pub observe_from_interrupt : CircularBuffer A → Observation A
  observe_from_interrupt b = record {
    size = size_from_interrupt digits capacity b;
    is_empty = empty_from_interrupt digits capacity b;
    is_full = full_from_interrupt digits capacity b;
    oldest =
        if empty_from_interrupt digits capacity b
        then none
        else front_from_interrupt digits capacity b;
    newest =
        if empty_from_interrupt digits capacity b
        then none
        else back_from_interrupt digits capacity b;
  }

  unfoldable pub run_from_interrupt :
      List (Call A) → CircularBuffer A → Checked (List (Observation A))
  unfolding call_from_interrupt observe_from_interrupt
  run_from_interrupt [] b = done (observe_from_interrupt b ∷ [])
  run_from_interrupt (call ∷ calls) b = call_from_interrupt b call >>= λ next.
      run_from_interrupt calls next >>= λ seen. done (observe_from_interrupt b ∷ seen)

  clear_loop-eq :
      (fuel : ℕ) (b : CircularBuffer A)
      → clear_from_interrupt_loop digits capacity fuel b ≡ clear_loop digits capacity fuel b
  unfolding clear_from_interrupt_loop clear_loop empty_from_interrupt empty size_from_interrupt
      pop_from_interrupt_bypass pop_bypass
  clear_loop-eq zero b = refl
  clear_loop-eq (suc fuel) b = elim (Bool-cases (b.m_size == 0)) [
    | inl e ↦ rw (e, clear_from_interrupt_loop, clear_loop) refl
    | inr e ↦
        rw (e, clear_from_interrupt_loop, clear_loop)
          (clear_loop-eq fuel (pop_bypass digits capacity b))
  ]

  call-eq :
      (b : CircularBuffer A) (call : Call A)
      → call_from_interrupt b call ≡ call_buffer digits capacity b call
  unfolding call_from_interrupt call_buffer push_from_interrupt push pop_from_interrupt pop
      clear_from_interrupt clear full_from_interrupt full empty_from_interrupt empty
      size_from_interrupt push_from_interrupt_bypass push_bypass pop_from_interrupt_bypass
      pop_bypass
  call-eq b (push_call x) = refl
  call-eq b pop_call = refl
  call-eq b clear_call = ap done (clear_loop-eq b.m_size b)

  observe-eq : (b : CircularBuffer A) → observe_from_interrupt b ≡ observe_buffer digits capacity b
  unfolding observe_from_interrupt observe_buffer size_from_interrupt empty_from_interrupt
      full_from_interrupt front_from_interrupt back_from_interrupt empty full front back
  observe-eq b = refl

  run-eq :
      (calls : List (Call A)) (b : CircularBuffer A)
      → run_from_interrupt calls b ≡ run_buffer digits capacity calls b
  unfolding run_from_interrupt run_buffer
  run-eq [] b = rw (observe-eq b) refl
  run-eq (call ∷ calls) b =
      rw (call-eq b call, observe-eq b)
        (bind-ext (call_buffer digits capacity b call) (λ next.
          ap (λ m. m >>= λ seen. done (observe_buffer digits capacity b ∷ seen))
            (run-eq calls next)))

  -- For a capacity that is a power of two and a value of the size type, and any sequence of
  -- pushes, pops and clears by interrupts from a new buffer on, the interrupts see what the
  -- bounded queue shows: the same sizes, the same answers of `empty_from_interrupt` and
  -- `full_from_interrupt`, the same front and back elements where there are any, and the same
  -- fatal error where a call has one.
  pub run_from_interrupt-eq-run_queue :
      IsCapacity digits capacity
      → (calls : List (Call A))
      → run_from_interrupt calls (new_buffer digits capacity) ≡ run_queue capacity calls []
  run_from_interrupt-eq-run_queue c calls =
      run-eq calls (new_buffer digits capacity) ∙ run_buffer-eq-run_queue digits capacity c calls
