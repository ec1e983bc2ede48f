-- ===== src/Expectation.antt =====
-- include/picolibrary/precondition.h, with the error codes of include/picolibrary/error.h that an
-- expectation reports. `trap_fatal_error` does not return, so a call that it ends has the value
-- `fatal`, with the error, and nothing after it is executed.
use picolibrary.Common.{Bool, true, false}

-- `Generic_Error`.
pub data GenericError : Type 0 where
  arbitration_lost bus_error endpoint_in_use ephemeral_ports_exhausted : GenericError
  excessive_message_size insufficient_capacity insufficient_sockets_available : GenericError
  invalid_argument io_stream_degraded logic_error nonresponsive_device : GenericError
  not_connected no_sockets_available operation_timeout out_of_range runtime_error : GenericError
  unexpected_event_handling_result would_block would_overflow would_underflow : GenericError

pub data Checked {ℓ} (A : Type ℓ) : Type ℓ where
  done : A → Checked A
  fatal : GenericError → Checked A

infixl 5 ◌>>=◌ ◌>>◌
abbrev pub ◌>>=◌ {ℓ κ} : {A : Type ℓ} {B : Type κ} → Checked A → (A → Checked B) → Checked B
done a >>= f = f a
fatal e >>= f = fatal e

abbrev pub ◌>>◌ {ℓ} : {B : Type ℓ} → Checked (Unit {0}) → Checked B → Checked B
m >> k = m >>= λ _. k

-- `PICOLIBRARY_EXPECT`.
abbrev pub expect : Bool → GenericError → Checked (Unit {0})
expect true error = done tt
expect false error = fatal error
