-- ===== src/NewObject/Threads.antt =====
-- A new thread and its stack point at each other.
use multi_mlton.Prelude.{ℕ, ◌+◌, ◌^◌, ◌≤◌, ◌<◌, ◌≡◌, refl, ◌∙◌, arith, inl, inr}
use multi_mlton.Align.{IsPow2, size_mod, add_size, sub_size, align}
use multi_mlton.Align.Laws.{align_bounds, pow-le}
use multi_mlton.CardMap.{Memory}
use multi_mlton.Objptr.{native64, pointer_to_objptr}
use multi_mlton.Object.{load, build_header_from_type_index}
use multi_mlton.ArrayAllocate.{Machine, store}
use multi_mlton.NewObject.{
  sizeof_thread, offsetof_thread, new_object, new_stack, make_thread, thread_bytes, new_thread,
  bogus_exn_stack, stack_type_index, thread_type_index,
}
use multi_mlton.NewObject.Stores.{load-store, load-store_apart}

-- Memory after newThread: `s` is the stack, `h` the header of the thread's object, `th` the thread.
abbrev chain : Memory → ℕ → ℕ → ℕ → ℕ → ℕ → ℕ → Memory
chain mem s h th reserved sp tp =
    store 8
      (store 8
        (store 8
          (store 8
            (store 8
              (store 1 (store 8 (store 8 (store 8 mem (s + 16) reserved) (s + 24) 0) (s + 32) 1)
                (s + 40) 0)
              h (build_header_from_type_index thread_type_index))
            th 0)
          (th + 8) bogus_exn_stack)
        (th + 16) sp)
      (s + 32) tp

module _ (mem : Memory) (s h th reserved sp tp : ℕ) (above : s + 48 ≤ h) (behind : h + 8 ≤ th)
    (fits : th + 24 < size_mod) where
  thread_there : tp < 2 ^ 64 → load 8 (chain mem s h th reserved sp tp) (s + 32) ≡ tp
  thread_there lt = load-store 8 _ (s + 32) tp (omega arith) lt

  stack_there : sp < 2 ^ 64 → load 8 (chain mem s h th reserved sp tp) (th + 16) ≡ sp
  stack_there lt =
      load-store_apart 8 8 _ (s + 32) tp (th + 16) (omega arith) (omega arith) (inr (omega arith))
      ∙ load-store 8 _ (th + 16) sp (omega arith) lt

  -- A word of the stack below its pointer to the thread.
  below_thread :
      (q : ℕ)
      → q + 8 ≤ s + 32
      → load 8 (chain mem s h th reserved sp tp) q
        ≡ load 8 (store 8 (store 8 mem (s + 16) reserved) (s + 24) 0) q
  below_thread q low =
      load-store_apart 8 8 _ (s + 32) tp q (omega arith) (omega arith) (inl low)
      ∙ load-store_apart 8 8 _ (th + 16) sp q (omega arith) (omega arith) (inl (omega arith))
      ∙ load-store_apart 8 8 _ (th + 8) bogus_exn_stack q (omega arith) (omega arith)
          (inl (omega arith))
      ∙ load-store_apart 8 8 _ th 0 q (omega arith) (omega arith) (inl (omega arith))
      ∙ load-store_apart 8 8 _ h _ q (omega arith) (omega arith) (inl (omega arith))
      ∙ load-store_apart 8 1 _ (s + 40) 0 q (omega arith) (omega arith) (inl (omega arith))
      ∙ load-store_apart 8 8 _ (s + 32) 1 q (omega arith) (omega arith) (inl low)

  reserved_there : reserved < 2 ^ 64 → load 8 (chain mem s h th reserved sp tp) (s + 16) ≡ reserved
  reserved_there lt =
      below_thread (s + 16) (omega arith)
      ∙ load-store_apart 8 8 _ (s + 24) 0 (s + 16) (omega arith) (omega arith) (inl (omega arith))
      ∙ load-store 8 mem (s + 16) reserved (omega arith) lt

  used_there : load 8 (chain mem s h th reserved sp tp) (s + 24) ≡ 0
  used_there =
      below_thread (s + 24) (omega arith) ∙ load-store 8 _ (s + 24) 0 (omega arith) (omega arith)

objptr-lt : (p b : ℕ) → pointer_to_objptr native64 p b < 2 ^ 64
unfolding pointer_to_objptr
objptr-lt p b = omega arith

sizeof_thread_lem :
    (alignment : ℕ)
    → IsPow2 alignment
    → (32 ≤ sizeof_thread alignment) × (offsetof_thread alignment + 32 ≡ sizeof_thread alignment)
unfolding sizeof_thread offsetof_thread
sizeof_thread_lem alignment pow =
    let high = pow-le pow in
    let bounds = align_bounds 32 pow (omega (arith, high)) in
    (
      omega (arith, bounds),
      less_header (align 32 alignment) (omega (arith, bounds)) (omega (arith, bounds, high)),
    )
  where
    less_header : (x : ℕ) → 32 ≤ x → x < size_mod → sub_size x 32 + 32 ≡ x
    less_header x le lt = omega arith

module _ (alignment reserved : ℕ) (m : Machine) (pow : IsPow2 alignment)
    (room : m.state.frontier + 56 + reserved + sizeof_thread alignment + 8 < size_mod) where
  abbrev thread_at : ℕ
  thread_at = m.state.frontier + 56 + reserved + 8 + offsetof_thread alignment

  abbrev filled : Memory
  filled =
      chain (store 8 m.mem m.state.frontier (build_header_from_type_index stack_type_index))
        (m.state.frontier + 8) (m.state.frontier + 56 + reserved) thread_at reserved
        (pointer_to_objptr native64 (m.state.frontier + 8) m.state.heap.start)
        (pointer_to_objptr native64 thread_at m.state.heap.start)

  make_thread_parts :
      ((make_thread alignment reserved m).0 ≡ thread_at)
      × ((make_thread alignment reserved m).1.mem ≡ filled)
  unfolding make_thread new_stack new_object
  make_thread_parts =
      let sizes = sizeof_thread_lem alignment pow in
      let f = m.state.frontier in
      let a0 : add_size f 8 ≡ f + 8 = omega (arith, room) in
      let a1 : add_size (f + 8) 16 ≡ f + 8 + 16 = omega (arith, room) in
      let a2 : add_size (f + 8) 24 ≡ f + 8 + 24 = omega (arith, room) in
      let a3 : add_size (f + 8) 32 ≡ f + 8 + 32 = omega (arith, room) in
      let a4 : add_size (f + 8) 40 ≡ f + 8 + 40 = omega (arith, room) in
      let h : add_size f (add_size (add_size 8 48) reserved) ≡ f + 56 + reserved =
        omega (arith, room) in
      let t0 : add_size (add_size (f + 56 + reserved) 8) (offsetof_thread alignment) ≡ thread_at =
        omega (arith, room, sizes) in
      let t1 : add_size thread_at 8 ≡ thread_at + 8 = omega (arith, room, sizes) in
      let t2 : add_size thread_at 16 ≡ thread_at + 16 = omega (arith, room, sizes) in
      (rw (h, t0) refl, rw (a0, a1, a2, a3, a4, h, t0, t1, t2) refl)

-- The stack at `stack` and the thread at `thread` point at each other, through object pointers; the
-- stack has its size and nothing on it, and ends before the thread.
pub record Linked (stack reserved start thread : ℕ) (mem : Memory) : Type 0 where
  pub to_stack : load 8 mem (thread + 16) ≡ pointer_to_objptr native64 stack start
  pub to_thread : load 8 mem (stack + 32) ≡ pointer_to_objptr native64 thread start
  pub reserved_eq : load 8 mem (stack + 16) ≡ reserved
  pub used_eq : load 8 mem (stack + 24) ≡ 0
  pub apart : stack + 48 + reserved < thread

make_thread-Linked :
    (alignment reserved : ℕ) (m : Machine)
    → IsPow2 alignment
    → m.state.frontier + 56 + reserved + sizeof_thread alignment + 8 < size_mod
    → Linked
        (m.state.frontier + 8)
        reserved
        m.state.heap.start
        (make_thread alignment reserved m).0
        (make_thread alignment reserved m).1.mem
make_thread-Linked alignment reserved m pow room =
    let sizes = sizeof_thread_lem alignment pow in
    let parts = make_thread_parts alignment reserved m pow room in
    let f = m.state.frontier in
    let th = thread_at alignment reserved m pow room in
    let start = m.state.heap.start in
    let mem = store 8 m.mem f (build_header_from_type_index stack_type_index) in
    let sp = pointer_to_objptr native64 (f + 8) start in
    let tp = pointer_to_objptr native64 th start in
    let above : f + 8 + 48 ≤ f + 56 + reserved = omega arith in
    let behind : f + 56 + reserved + 8 ≤ th = omega arith in
    let fits : th + 24 < size_mod = omega (arith, room, sizes) in
    rw (parts.0, parts.1)
      (record {
        to_stack =
            stack_there mem (f + 8) (f + 56 + reserved) th reserved sp tp above behind fits
              (objptr-lt (f + 8) start);
        to_thread =
            thread_there mem (f + 8) (f + 56 + reserved) th reserved sp tp above behind fits
              (objptr-lt th start);
        reserved_eq =
            reserved_there mem (f + 8) (f + 56 + reserved) th reserved sp tp above behind fits
              (omega (arith, room));
        used_eq = used_there mem (f + 8) (f + 56 + reserved) th reserved sp tp above behind fits;
        apart = omega arith;
      })

-- For an alignment that is a power of two and a collector that leaves room for the stack and the
-- thread before the last bytes of the address space, newThread makes a stack at the frontier and a
-- thread behind it that point at each other through object pointers; the stack has the size asked
-- for, nothing is on it, and it ends before the thread.
pub new_thread-Linked :
    (alignment : ℕ) (ensure : ℕ → Machine → Machine) (reserved : ℕ) (m m₀ : Machine)
    → ensure (thread_bytes alignment reserved) m ≡ m₀
    → IsPow2 alignment
    → m₀.state.frontier + 56 + reserved + sizeof_thread alignment + 8 < size_mod
    → Linked
        (m₀.state.frontier + 8)
        reserved
        m₀.state.heap.start
        (new_thread alignment ensure reserved m).0
        (new_thread alignment ensure reserved m).1.mem
unfolding new_thread
new_thread-Linked alignment ensure reserved m m₀ collected pow room =
    rw collected (make_thread-Linked alignment reserved m₀ pow room)
