-- ===== src/Sched.antt =====
-- src/sched: the states of a task that the scheduler and the wakers of the task change together, and the run
-- queue of a processor.
pub mod TaskStates
pub mod Deactivation
pub mod Wakeups
pub mod Time
pub mod BinaryHeap
pub mod RunnableTask
pub mod RunQueue
pub mod ListHeap
mod Tests
