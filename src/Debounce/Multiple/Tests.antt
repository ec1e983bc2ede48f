-- ===== src/Debounce/Multiple/Tests.antt =====
-- Four signals and two samples: a signal that is sampled low twice goes low, and one that is sampled
-- high only once stays low.
use picolibrary.Common.{ℕ, ◌≡◌, refl, List, [], ◌∷◌, map, arith}
use picolibrary.Common.Bits.{bit_at}
use picolibrary.Debounce.Multiple.{
  debounce_samples, state, debounce, new_multiple_signals_debouncer,
}
use picolibrary.Debounce.Multiple.Signals.{state_bit-eq-settled}
use picolibrary.Debounce.Single.{settled}

abbrev history : List ℕ
history = 0xc ∷ 0x4 ∷ 0x2 ∷ []

state_bit-eq-settled_example :
    bit_at 2 (state (debounce_samples 4 2 0x3 history))
    ≡ settled 2 (bit_at 2 0x3) (map (bit_at 2) history)
state_bit-eq-settled_example = state_bit-eq-settled 4 2 (omega arith) 1 0x3 history

state_result : state (debounce_samples 4 2 0x3 history) ≡ 0x4
unfolding state debounce_samples new_multiple_signals_debouncer debounce
state_result = refl
