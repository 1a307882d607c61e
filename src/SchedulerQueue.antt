-- ===== src/SchedulerQueue.antt =====
-- runtime/gc/scheduler-queue.c and scheduler-queue.h: the queues of runnable threads of a processor.
pub mod Fifo
pub mod Buffer
pub mod Lock
pub mod State
