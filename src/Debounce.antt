-- ===== src/Debounce.antt =====
-- include/picolibrary/debounce.h. `digits` is the width of `Samples`, `samples` is `SAMPLES`. The
-- shifted stream is converted to `Samples` here before the mask is applied; where C++ promotes it
-- to `int` first, the masked value is the same.
pub mod Single
pub mod Multiple
mod Tests
use picolibrary.Common.{
  ℕ, ◌*◌, ◌%◌, ◌^◌, Bool, true, false, not, bit_and, bit_or, bit_of, ◌==◌, if◌then◌else◌,
}
use picolibrary.BitManipulation.{mask}

pub record SingleSignalDebouncer : Type 0 where
  pub m_samples : ℕ
  pub m_is_high : Bool

module _ (digits samples : ℕ) where
  unfoldable pub samples_mask : ℕ
  samples_mask = mask digits samples 0

  unfoldable pub new_single_signal_debouncer : Bool → SingleSignalDebouncer
  new_single_signal_debouncer is_high = record {
    m_samples = if is_high then samples_mask else 0;
    m_is_high = is_high;
  }

  unfoldable pub debounce : SingleSignalDebouncer → Bool → SingleSignalDebouncer
  debounce d sample =
      let stream = bit_and (bit_or (d.m_samples * 2) (bit_of sample) % 2 ^ digits) samples_mask in
      let raised = if stream == samples_mask then true else d.m_is_high in
      record { m_samples = stream; m_is_high = if stream == 0 then false else raised }

unfoldable pub is_high : SingleSignalDebouncer → Bool
is_high d = d.m_is_high

unfoldable pub is_low : SingleSignalDebouncer → Bool
is_low d = not d.m_is_high
