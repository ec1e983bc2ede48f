-- ===== src/Debounce/Multiple.antt =====
-- include/picolibrary/debounce.h, `Multiple_Signals_Debouncer`. `digits` is the width of `State`, and
-- `samples` is `SAMPLES`. `~` and the operations around it are of a promoted type in C++; the bits
-- of `State` are the same here.
pub mod Ring
pub mod Signals
mod Tests
use picolibrary.Common.{
  ℕ, zero, suc, ◌+◌, ◌-◌, ◌%◌, ◌^◌, bit_and, bit_or, bit_xor, List, [], ◌∷◌, set, replicate,
}

pub record MultipleSignalsDebouncer : Type 0 where
  pub m_samples : List ℕ
  pub m_samples_i : ℕ
  pub m_state : ℕ

module _ (digits : ℕ) where
  abbrev pub max_state : ℕ
  max_state = 2 ^ digits - 1

  abbrev pub complement : ℕ → ℕ
  complement x = bit_xor x max_state

  -- The loop over the samples, with `high` and `low`.
  unfoldable pub gather : List ℕ → ℕ × ℕ → ℕ × ℕ
  gather [] (high, low) = (high, low)
  gather (sample ∷ rest) (high, low) =
      gather rest (bit_and high sample, bit_and low (complement sample))

module _ (digits samples : ℕ) where
  unfoldable pub new_multiple_signals_debouncer : ℕ → MultipleSignalsDebouncer
  new_multiple_signals_debouncer state = record {
    m_samples = replicate samples state;
    m_samples_i = 0;
    m_state = state;
  }

  unfoldable pub debounce : MultipleSignalsDebouncer → ℕ → MultipleSignalsDebouncer
  unfolding gather
  debounce d state =
      let sampled = set d.m_samples d.m_samples_i state in
      let levels = gather digits sampled (max_state digits, max_state digits) in
      record {
        m_samples = sampled;
        m_samples_i = (d.m_samples_i + 1) % samples;
        m_state = bit_and (bit_or d.m_state levels.0) (complement digits levels.1);
      }

  -- The debouncer after some samples, the newest first.
  unfoldable pub debounce_samples : ℕ → List ℕ → MultipleSignalsDebouncer
  unfolding new_multiple_signals_debouncer debounce
  debounce_samples initial [] = new_multiple_signals_debouncer initial
  debounce_samples initial (state ∷ older) = debounce (debounce_samples initial older) state

unfoldable pub state : MultipleSignalsDebouncer → ℕ
state d = d.m_state
