-- ===== src/Lib.antt =====
-- The runtime system of MultiMLton (runtime/gc and runtime/util): rounding, object pointers, headers
-- and sizes of objects, card maps, heaps and their chunks, stacks, allocation, the queues of the
-- scheduler, barriers and signals, the walk over objects, and forwarding and threading of pointers.
--
-- How the parts interact. The mutator allocates at a frontier in the local heap of its processor; the
-- sizes of heaps, maps, stacks and arrays are all rounded by runtime/util/align.h. A heap comes from
-- the operating system with a card map behind it, and is created, remapped, shrunk, grown and copied
-- by runtime/gc/heap.c. Objects in it are found by object pointers and sized by their headers. Each
-- processor has three queues of threads, circular buffers behind a recursive lock, which other
-- processors put threads in and which the collector walks. All processors meet at a barrier for a
-- collection of the shared heap. The collector visits the pointers of an object in one walk, and can
-- share equal objects through a hash table. It copies an object by forwarding a pointer to it, which
-- leaves the new address in the old object, and compacts a heap by threading the slots that point at
-- an object onto its header until the address of the object is known. The shared heap is handed out in
-- chunks by compare-and-swap; what a chunk leaves unused is filled with objects that no one points at.
--
-- Which file models which part.
-- - Prelude: names shared by all files; Prelude/Tests, Lists, Bits, BitLaws: helpers and their lemmas.
-- - Align: runtime/util/align.h and runtime/gc/align.c (isAligned, alignDown, align, alignWithExtra,
--   alignFrontier), laws in Align/Laws.
-- - Objptr: runtime/gc/objptr.c, pointer.c and model.h (isObjptr, objptrToPointer, pointerToObjptr).
-- - CardMap: runtime/gc/generational.c (sizeofCardMap, setCardMapAndCrossMap, markCard and others).
-- - Object: runtime/gc/object.c, object.h, array.c (splitHeader, buildHeaderFromTypeIndex and others).
-- - ObjectSize: runtime/gc/object-size.c (sizeofObject and its kin); Chains has forwarding pointers
--   and threaded headers as inductive chains, Agree and Arrays the laws.
-- - Heap: Types has the heap record and the operating system as an interface; Alloc createHeap and
--   remapHeap, Shrink releaseHeap, shrinkHeap and the copying loop, Grow growHeap and resizeHeap,
--   Predicates runtime/gc/heap_predicates.c; Retry, Create, Copying, Secondary and Runaway are proofs.
-- - ArrayAllocate: runtime/gc/array-allocate.c (GC_arrayAllocate).
-- - Stack and DanglingStacks: runtime/gc/stack.c.
-- - SchedulerQueue: runtime/gc/scheduler-queue.c. Fifo is the abstract queue, Buffer the circular
--   buffer, Lock the lock as a step relation, State the queues of all processors.
-- - CriticalSection: runtime/gc/processor.c. The barrier as a step relation over the accesses to the
--   two shared variables; Stage and Round have the stages of a round, Safety and Progress what follows.
-- - Sleep: Parallel_wait and Parallel_wakeUpThread of runtime/gc/parallel.c, with the waking loop of
--   Proc_beginCriticalSection, as a step relation.
-- - Foreach: runtime/gc/foreach.c (callIfIsObjptr, foreachObjptrInObject); Slots says which addresses
--   are visited, Visits and Whole that they are.
-- - HashCons: runtime/gc/hash-cons.c (allocHashTable, insertHashTableElem, growHashTableMaybe,
--   hashConsPointer); Probes has the arithmetic of double hashing, Entries the entries of a table,
--   Insert and Grow the two operations, Equal what is shared.
-- - NewObject: runtime/gc/new-object.c, weak.c and the sizes of thread.c (newObject, newStack, newThread,
--   GC_weakNew, GC_weakGet); Stores and Words have the laws of words in memory.
-- - Signals: runtime/gc/handler.c and atomic.c (GC_handler, GC_startSignalHandler,
--   GC_finishSignalHandler, beginAtomic, endAtomic); Pending interleaves them, access by
--   access, with handlers on any threads.
-- - MarkCompact: runtime/gc/mark-compact.c (threadInternalObjptr, the loop of unthreading, updateWeaks);
--   Threading has the chain of threaded slots, Unthreading that the loop undoes it, Weaks the weak list.
-- - Forward: runtime/gc/forward.c (forwardObjptr, fixFwdObjptr); Places says where the object and its
--   copy lie, Copy what one call does, Twice what a second call does, Barrier the read barrier.
-- - Gap: fillGap of runtime/gc/garbage-collection.c; Fillers has the objects, Walk their walk.
-- - SharedChunks: allocChunkInSharedHeap of runtime/gc/garbage-collection.c as a step relation, and the
--   first chunks of setGCStateCurrentSharedHeap of runtime/gc/gc_state.c.
-- - Nursery: setGCStateCurrentLocalHeap of runtime/gc/gc_state.c.
-- - CommaString: runtime/util/to-string.c; Digits, Loop, Groups, Written and Turns follow the loop.
--
-- State is passed explicitly: a record of the fields that the code reads, and a function from
-- addresses to bytes where memory matters. `size_t` and pointers are numbers below 2^64 whose sums
-- and differences wrap as in C; `uint32_t` wraps at 2^32. Debugging output, assertions and profiling
-- have no counterpart, except that code which would be undefined after a failed assertion answers
-- `none`. Library and system calls (malloc, realloc, mmap, mremap, munmap) are parameters with their
-- documented behaviour as named hypotheses, and products by floating-point ratios are parameters.
--
-- Fuel. Loops over a size or a count recurse on it. createHeap and remapHeap try at most 32 sizes
-- when the step between sizes is not above the least size, since the step is a sixteenth of the
-- distance or more, rounded up to pages, and 31 steps cover it. The copying loop takes a unit for each
-- 32M. The walk over a circular buffer takes a unit for each slot. Forwarding pointers and threaded
-- headers take a unit for each link, and the chain is given by the hypotheses. The search in the hash
-- table takes a unit for each slot, since the odd step reaches all of them; the walk over an object, the
-- comparison and the hash take one for each pointer, element or word. Unthreading takes a unit for each
-- threaded slot, the weak list one for each weak pointer, a forwarding one for the call and one for the
-- test of the loop, the read barrier one for each link. The loop over digits takes 22 units, enough
-- for the 20 digits of a number below 2^64 since each turn divides it by ten.
--
-- Not modelled: the queue of objects of the Cheney scan (cheney-copy.c), the lifting of objects to the
-- shared heap (lwtgc.c, forwardObjptrToSharedHeap, copyObjptr), the marking by pointer reversal
-- (dfs-mark.c), the two passes of mark-compact.c over a heap, the choice and the order of collections
-- (performGC and its kin), the switch of threads, start-up, images and reports, the bytecode
-- interpreter, wrappers of system calls, vendored libraries, and all Standard ML code. The collectors
-- keep their state in the whole GC_state and visit every object of a heap.
pub mod Prelude
pub mod Align
pub mod Objptr
pub mod CardMap
pub mod Object
pub mod ObjectSize
pub mod Heap
pub mod ArrayAllocate
pub mod Stack
pub mod DanglingStacks
pub mod Foreach
pub mod HashCons
pub mod MarkCompact
pub mod Forward
pub mod Gap
pub mod SharedChunks
pub mod Nursery
pub mod CommaString
pub mod NewObject
pub mod SchedulerQueue
pub mod CriticalSection
pub mod Sleep
pub mod Signals
