-- ===== src/Lib.antt =====
-- picolibrary: algorithms, containers and addresses of a C++ library for microcontrollers, with
-- the theorems that make them correct. The library is a set of headers; a component is a class
-- template or a set of function templates, and its template arguments are arguments here.
--
-- The parts, and the files that model them:
-- - BitManipulation: include/picolibrary/bit_manipulation.h. `mask`, `highest_bit_set`, `reflect`
--   and `is_power_of_two` have their names. The loops run on fuel, as much as the type has bits.
--   The other parts build their masks with these functions.
-- - Expectation: include/picolibrary/precondition.h and the generic error codes of error.h.
--   PICOLIBRARY_EXPECT is `expect`: a computation is `done` with a value, or `fatal` with the error
--   after which the program does not go on.
-- - Crc: include/picolibrary/crc.h. The calculation parameters and the processing functions are in
--   Crc, `Bitwise_Calculator` in Crc.Bitwise, the lookup tables in Crc.Table, the augmented
--   calculators in Crc.Augmented and the direct ones in Crc.Direct. `_bytes` and `_nibbles` tell
--   the byte indexed and nibble indexed classes apart. Proofs go from one round (Crc.Step) to
--   several (Crc.Chunk), to a table entry (Crc.Lookup), to a message (Crc.Feed, Crc.FeedNibbles),
--   and end in Crc.Equivalence and Crc.Remainder.
-- - CircularBuffer: include/picolibrary/circular_buffer.h, the use case MAIN_READS_MAIN_WRITES. The
--   state is the class's four members, where a storage slot holds an object or none. The
--   specification is CircularBuffer.Queue; CircularBuffer.Index, Holds and Represents lead to
--   CircularBuffer.Refinement. The loop of `clear` runs on fuel, the number of elements.
-- - CircularBuffer.FromInterrupt: the functions of circular_buffer.h that interrupt service routines
--   call, each of which runs to its end before another does. CircularBuffer.InterruptsOnly is the
--   use case INTERRUPT_READS_INTERRUPTS_WRITE. CircularBuffer.MainReads is
--   MAIN_READS_INTERRUPTS_WRITE and CircularBuffer.MainWrites is INTERRUPT_READS_MAIN_WRITES: the
--   function of the main thread takes one step for each access to shared state, and a list of turns
--   is an order of these steps and of the calls of interrupts. The invariant of
--   each is in its Knowledge, by where the main thread stands; CircularBuffer.View has what the two
--   share.
-- - Interrupt: include/picolibrary/interrupt.h, the critical section guards. Interrupts are enabled
--   or disabled; a controller's state has nothing else that a guard uses.
-- - Debounce: include/picolibrary/debounce.h, `Single_Signal_Debouncer` in Debounce, and
--   `Multiple_Signals_Debouncer` in Debounce.Multiple, whose array of samples is a ring
--   (Debounce.Multiple.Ring).
-- - Algorithm: include/picolibrary/algorithm.h, `equal`, by which arrays are compared.
-- - Ipv4: include/picolibrary/ipv4.h. MacAddress: include/picolibrary/mac_address.h with the
--   formatting of an address. Both stand on Common.BigEndian.
-- - Hsm: include/picolibrary/hsm.h, states and path discovery, over handlers that are a parameter.
--   Hsm.Chain has the hierarchy that well behaved handlers span. The loop of `discover` runs on
--   fuel, the capacity of the path, and a round more would find the path full. Hsm.Transition has
--   `remove_common_superstates`, `enter`, `exit`, `transition_from`, `dispatch` and
--   `execute_topmost_initial_transition`; `transition_from` is `exit_current`, `source_to_target` and
--   `conclude_round` in the loop `transition_loop`. Its loop and that of `dispatch` run on fuel that
--   a client gives: with handlers of any kind they need not end. Hsm.Run tells fatal errors,
--   missing fuel and undefined behaviour apart. Proofs go from the log of entry and exit events
--   (Hsm.Active) and the parts of paths (Hsm.Paths, Hsm.Parts) to one round (Hsm.Round), to an event
--   (Hsm.Dispatch) and to a machine's life (Hsm.Machine); Hsm.Disjoint and Hsm.Shared are about the
--   states that a source and a target have in common, and end in Hsm.Transfer.
-- - StateMachine: include/picolibrary/state_machine.h, over handlers that are a parameter.
--   `dispatch_from` and `conclude` are the body of `dispatch` and its switch, `execute_from` and
--   `begin_in` that of `execute_initial_transition`. StateMachine.Active logs the entry and exit
--   events by handlers that wrap the given ones; StateMachine.Progress follows the handlers without a
--   machine.
-- - FixedCapacityVector: include/picolibrary/fixed_capacity_vector.h. The state is the class's two
--   members, where a storage slot holds an object or none; an iterator is an index, and the calls
--   that differ in how an argument is passed are one function. The specification is
--   FixedCapacityVector.Sequence; the loops are in FixedCapacityVector.Slots, the vector that holds
--   a sequence in FixedCapacityVector.Stored, the operations on it in FixedCapacityVector.Holding,
--   Ranges, Elements and Copies, and all calls together in FixedCapacityVector.Refinement. The loops run
--   on the number of elements that the source's loops go through.
-- - I2c: include/picolibrary/i2c.h, the addresses of devices.
-- - Format: include/picolibrary/format.h, the text of an unsigned integer in base two, ten and
--   sixteen. The size of the array for base ten is an argument; the code takes digits10 + 1 of the
--   type, which holds every value of it. Format.Digits has a reader that accepts the prefix and the
--   digits of a base and nothing else.
-- - Common: Boolean tests, lists and bit operations over the natural numbers.
--
-- A value of an unsigned type of `digits` bits is a natural number below 2 ^ digits, and each
-- conversion to the type is written as a remainder. `digits` is arbitrary, save where a theorem
-- states a bound.
--
-- Not modelled: the erasure of a range from a vector, whose code does not compile, the comparison
-- of vectors, streams, the text of signed decimals and of hex dumps, the control of the buses, and
-- the device drivers with the network stack on them. Accessors of hardware registers, testing
-- support and the build have no logic of their own to state.
pub mod Common
pub mod BitManipulation
pub mod Crc
pub mod Expectation
pub mod I2c
pub mod Interrupt
pub mod CircularBuffer
pub mod Debounce
pub mod Algorithm
pub mod Ipv4
pub mod MacAddress
pub mod Hsm
pub mod FixedCapacityVector
pub mod Format
pub mod StateMachine
