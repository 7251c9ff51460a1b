-- ===== src/Lib.antt =====
-- kube-queue: a job queue in front of the Kubernetes scheduler. A controller receives Queue and
-- QueueUnit objects from informers. Each Queue has a scheduling queue, with an active heap under the
-- order of its policy and a backoff heap under the end of the backoff; a multi scheduling queue
-- keeps the scheduling queues by namespace. The scheduler takes the head of each queue, asks the
-- filter plugins, and reserves the resources of a unit that passes.
--
-- The modules and the code that they model:
--   Heap              pkg/queue/heap/heap.go (data, Heap), over Container, which writes the up and
--                     down loops of Go's container/heap for any interface
--   Framework         pkg/framework/type.go, pkg/framework/interface.go
--   SchedulingQueue   pkg/queue/schedulingqueue/priority_scheduling_queue.go
--   MultiSchedulingQueue  pkg/queue/multischedulingqueue/multi_scheduling_queue.go
--   Plugins.Priority  pkg/framework/plugins/priority/priority.go
--   Plugins.ResourceQuota  pkg/framework/plugins/resourcequota/resource_quota.go
--   Plugins.Registry  pkg/framework/plugins/registry.go
--   Runtime           pkg/framework/runtime/framework.go, pkg/framework/runtime/registry.go
--   Controller        pkg/controller/eventhandler.go, the handlers; Controller.Notifications, the
--                     filters of addAllEventHandlers; Controller.Construction, NewController of
--                     pkg/controller/controller.go
--   Scheduler         pkg/scheduler/scheduler.go, one queue of a round and the goroutine of a unit
--   System            all of these at work together, in small steps
--   Command           cmd/app/options/options.go, cmd/app/server/server.go and cmd/main.go
-- Base has the shared lists, maps, integers and the type Outcome: a call ends with a value, with a
-- panic, or the model runs out of fuel. Definitions have the names of the Go functions in small
-- letters; a method that writes returns the new state, a nil pointer is none, an error is a value.
--
-- System has the state of the whole program: the queues by address, since the scheduler can hold a
-- queue that the map has lost, the map, the plugins, where the loop of schedule and each goroutine of
-- a unit stand, the handlers of units that have found their queue and not called it yet, and the
-- loop variable of each round, which the goroutines share. A step (step, run) is a handler of a
-- queue, a flush of one queue, a change of what the lister of the plugins answers, or the part of the
-- loop, of a goroutine or of a handler of a unit up to its next call; Length and Pop of the loop are
-- two steps. Coarser than the code are these: SortedQueue; a call of all the filters, or of all the
-- reserve plugins; Dequeue with its Get and its Update; and ErrorFunc with its Get and its
-- AddUnschedulableIfNotPresent, on a queue that a goroutine has read in a step before and that the
-- loop reads in the same step, since only the loop writes the variable of its round. A list of labels
-- says which step comes next and what the API and the clock answer, so every order of these steps is
-- a run. The endless loop of internalSchedule is the choice of the label began.
--
-- System.Invariant is the invariant of the program, System.Soundness and System.Runs are about it
-- over a step and a run; System.Race and System.Races are about a Delete between Length and Pop,
-- System.Fate, System.Care and System.Custody about the units that the scheduler has popped,
-- System.Order about the order in which it visits the queues, System.Pass about one call of schedule
-- with nothing in between, and Command.Start about the way from the command line to the runs.
--
-- SchedulingQueue.Refinement has the abstract queue: two maps of units by key, active and in backoff,
-- and what each call may answer and leave. The queue of two heaps implements it.
--
-- Bounds: int64 durations wrap around in Backoff; int32 priorities and times are integers, since the
-- code only compares them, apart from the sum of a time and a duration. The loop of
-- flushBackoffQCompleted has the length of the backoff heap plus one as fuel, which is enough
-- because each round removes a unit. The loops of container/heap have fuel in the same way.
--
-- Parameters: resource.Quantity is the interface Quantity with the laws IsExact; the lister of quota
-- objects, the API client, FilteringResourceEventHandler of client-go, sort.Slice, the clock and the
-- order in which Go ranges over a map are functions or the order of a list. The order of the queues
-- of equal priority may differ in each round, and what the lister answers may change in each step
-- relisted. The client libraries of the command are the record Libraries. Locks make each method of a
-- queue, Reserve and Unreserve one step; Filter, which holds a lock only for each reservation that it
-- reads, is one step too. The attempts of a unit are a natural number: its int counter is taken not
-- to overflow.
--
-- Not modelled: what resource.Quantity shares between copies. A quantity such as 1.5Gi keeps its
-- amount behind a pointer, and Add and Sub of a copy write through it, in Filter, Reserve and
-- Unreserve alike. The results on one call of these hold for such quantities too; those on several
-- calls are about quantities held by value (IsByValue). Also not modelled: the clients, the event recorder and the goroutines of the informers in
-- pkg/controller/controller.go, which only call libraries; the syntax of a command line; races on
-- fields without a lock; and logging.
pub mod Base
pub mod Container
pub mod Heap
pub mod Framework
pub mod Plugins
pub mod SchedulingQueue
pub mod MultiSchedulingQueue
pub mod Controller
pub mod Runtime
pub mod Scheduler
pub mod System
pub mod Command
pub mod Tests
