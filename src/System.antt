-- ===== src/System.antt =====
-- The parts of the controller at work together: the handlers of pkg/controller/eventhandler.go,
-- the goroutine of each queue, the loop of pkg/scheduler/scheduler.go and the goroutines that it
-- starts, which share the queues and the plugins. A step is a handler of a queue, a flush of one
-- queue, or the part of a handler of a unit, of the loop or of a goroutine up to its next call of a
-- queue or of the plugins; the steps come in any order. A queue is an object with an address: a
-- queue that the map has lost can still be reached by the scheduler and by a handler that has found
-- it.
pub mod State
pub mod Handlers
pub mod Rounds
pub mod Step
pub mod Addresses
pub mod Consumers
pub mod Objects
pub mod Invariant
pub mod Alone
pub mod Calls
pub mod Kept
pub mod Variables
pub mod Popping
pub mod Loop
pub mod LoopVariable
pub mod Reservations
pub mod Soundness
pub mod Units
pub mod Busy
pub mod Head
pub mod Race
pub mod Order
pub mod Stays
pub mod Fate
pub mod Ran
pub mod Care
pub mod Runs
pub mod Custody
pub mod Races
pub mod Pass
