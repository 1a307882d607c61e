-- ===== src/Heap.antt =====
-- runtime/gc/heap.c and heap.h: creating, growing, shrinking and releasing the memory of a heap;
-- runtime/gc/heap_predicates.c. The debug and progress messages have no counterpart.
pub mod Types
pub mod Predicates
pub mod Alloc
pub mod Retry
pub mod Create
pub mod Runaway
pub mod Shrink
pub mod Copying
pub mod Secondary
pub mod Grow
mod Tests
