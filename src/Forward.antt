-- ===== src/Forward.antt =====
-- runtime/gc/forward.c: the copying of an object to the to-space, the forwarding pointer that it
-- leaves behind, and the slot that follows it; and the read barrier fixFwdObjptr. `s` is the GC state
-- with memory, `s->weaks` and `s->forwardState`. GC_memcpy copies between regions that do not
-- overlap. getStackCurrent (s) is the argument `current_stack`; the size of the frame on top of a
-- stack, which the compiled program's tables give, is the argument `top_frame_size`. Loops take fuel.
pub mod Places
pub mod Copy
pub mod Barrier
pub mod Twice
mod Tests
use multi_mlton.Prelude.{
  ℕ, zero, suc, ◌+◌, ◌-◌, ◌*◌, ◌^◌, Bool, true, false, not, ◌&&◌, ◌||◌, ◌==◌, ltb, leb,
  if◌then◌else◌, Option, none, some, List,
}
use multi_mlton.Align.{add_size, sub_size, normal_header_size}
use multi_mlton.CardMap.{Memory}
use multi_mlton.Objptr.{native64, is_objptr, is_pointer, objptr_to_pointer, pointer_to_objptr}
use multi_mlton.Object.{
  ObjectTypeTag, ObjectType, array_tag, normal_tag, stack_tag, weak_tag, header_only_tag, fill_tag,
  load, header_size, objptr_size, array_header_size, get_header, get_headerp, get_array_length,
  split_header,
}
use multi_mlton.ObjectSize.{
  forwarded, element_bytes, sizeof_array_no_header, sizeof_stack_struct, stack_reserved_offset,
}
use multi_mlton.ArrayAllocate.{store}
use multi_mlton.Heap.Types.{Heap}
use multi_mlton.Heap.Predicates.{
  GcState, is_object_lifted, is_objptr_in_from_space, is_objptr_in_nursery, is_pointer_in_heap,
}
use multi_mlton.Stack.{Stack, Controls, is_stack_empty, sizeof_stack_shrink_reserved}
use multi_mlton.Foreach.{stack_used_offset, stack_thread_offset}
use multi_mlton.NewObject.{offsetof_weak, weak_objptr_offset}

-- `struct GC_forwardState`, less the ranges to skip and the fields of the lifting of one object.
pub record ForwardState : Type 0 where
  pub am_in_minor_gc : Bool
  pub back : ℕ
  pub to_start : ℕ
  pub to_limit : ℕ
  pub force_stack_forwarding : Bool

pub record Collector : Type 0 where
  pub state : GcState
  pub mem : Memory
  pub weaks : ℕ
  pub forward_state : ForwardState

-- What a function leaves: `stuck` is a header without a type, or the end of the fuel.
pub data Outcome : Type 0 where
  returned : Collector → Outcome
  died : Outcome
  stuck : Outcome

abbrev pub and_then : Outcome → (Collector → Outcome) → Outcome
and_then (returned s) f = f s
and_then died f = died
and_then stuck f = stuck

-- GC_memcpy
unfoldable pub memcpy : Memory → ℕ → ℕ → ℕ → Memory
memcpy mem src dst size a = if leb dst a && ltb a (dst + size) then mem (src + (a - dst)) else mem a

unfoldable pub is_pointer_in_to_space : ForwardState → ℕ → Bool
is_pointer_in_to_space f p = not (is_pointer native64 p) || (leb f.to_start p && ltb p f.to_limit)

unfoldable pub is_objptr_in_to_space : ForwardState → ℕ → Bool
unfolding is_pointer_in_to_space
is_objptr_in_to_space f op =
    if not (is_objptr native64 op)
    then true
    else is_pointer_in_to_space f (objptr_to_pointer native64 op f.to_start)

-- saveForwardState and restoreForwardState
unfoldable pub save_forward_state : ForwardState → ForwardState → ForwardState
save_forward_state f fwd = record fwd { force_stack_forwarding = f.force_stack_forwarding }

unfoldable pub restore_forward_state : ForwardState → ForwardState → ForwardState
restore_forward_state f fwd = record f { force_stack_forwarding = fwd.force_stack_forwarding }

-- The loop of fixFwdObjptr, on the slot at opp.
unfoldable pub fix_loop : ℕ → ℕ → Memory → ℕ → Option Memory
unfolding load store get_header objptr_to_pointer
fix_loop zero start mem opp = none
fix_loop (suc fuel) start mem opp =
    let op = load objptr_size mem opp in
    let p = objptr_to_pointer native64 op start in
    let rest = fix_loop fuel start (store objptr_size mem opp (load objptr_size mem p)) opp in
    if is_objptr native64 op && get_header mem p == forwarded then rest else some mem

unfoldable pub fix_fwd_objptr : ℕ → ℕ → Memory → ℕ → Option Memory
unfolding fix_loop
fix_fwd_objptr fuel start mem opp =
    let op = load objptr_size mem opp in
    let fixed = fix_loop fuel start mem opp in
    if is_objptr native64 op && not (op == 0) then fixed else some mem

-- fixFwdObjptrAndFetch
unfoldable pub fix_fwd_objptr_and_fetch : ℕ → ℕ → Memory → ℕ → Option (ℕ × Memory)
unfolding fix_fwd_objptr
fix_fwd_objptr_and_fetch fuel start mem opp = elim (fix_fwd_objptr fuel start mem opp) [
  | none ↦ none
  | some mem' ↦ some (load objptr_size mem' opp, mem')
]

-- The bytes of the header and of the object, those to skip behind it, the old reserved bytes of a
-- stack that shrinks or 0, and memory.
pub record Space : Type 0 where
  pub header_bytes : ℕ
  pub object_bytes : ℕ
  pub skip : ℕ
  pub old_reserved : ℕ
  pub mem : Memory

-- `*opp = *((objptr*)p);`
unfoldable pub follow : ℕ → ℕ → Collector → Collector
unfolding load store
follow opp p s = record s { mem = store objptr_size s.mem opp (load objptr_size s.mem p) }

-- `while (isObjptrInFromSpace (s, s->heap, *opp)) forwardObjptr (s, opp);`
unfoldable pub while_in_from_space : (Collector → Outcome) → ℕ → ℕ → Collector → Outcome
unfolding load
while_in_from_space forward opp zero s = stuck
while_in_from_space forward opp (suc fuel) s =
    let rest = and_then (forward s) λ s'. while_in_from_space forward opp fuel s' in
    if is_objptr_in_from_space s.state s.state.heap (load objptr_size s.mem opp)
    then rest
    else returned s

module _ (types : List ObjectType) (c : Controls) (top_frame_size : ℕ → ℕ) (current_stack : ℕ) where
  -- The computation for a stack, with its pointer to a thread that has been forwarded.
  unfoldable pub stack_space : ℕ → Memory → ℕ → Space
  unfolding load store get_header objptr_to_pointer is_stack_empty
  stack_space start mem p =
      let reserved = load 8 mem (add_size p stack_reserved_offset) in
      let used = load 8 mem (add_size p stack_used_offset) in
      let stack : Stack = record {
        address = p;
        reserved = reserved;
        used = used;
        top_frame_size = top_frame_size p;
      } in
      let is_current = current_stack == p && not (is_stack_empty stack) in
      let reserved_new = sizeof_stack_shrink_reserved c stack is_current in
      let shrinks = ltb reserved_new reserved in
      let mem' =
        if shrinks then store 8 mem (add_size p stack_reserved_offset) reserved_new else mem in
      let thread_at = add_size p stack_thread_offset in
      let thread = objptr_to_pointer native64 (load objptr_size mem' thread_at) start in
      record {
        header_bytes = header_size;
        object_bytes = add_size sizeof_stack_struct used;
        skip = sub_size (if shrinks then reserved_new else reserved) used;
        old_reserved = if shrinks then reserved else 0;
        mem =
            if get_header mem' thread == forwarded
            then store objptr_size mem' thread_at (load objptr_size mem' thread)
            else mem';
      }

  unfoldable pub space_of : ObjectType → ℕ → Memory → ℕ → Space
  unfolding stack_space element_bytes sizeof_array_no_header
  space_of t start mem p =
      let fixed : Space = record {
        header_bytes = normal_header_size;
        object_bytes = element_bytes t;
        skip = 0;
        old_reserved = 0;
        mem = mem;
      } in
      elim t.tag [
        | normal_tag ↦ fixed
        | weak_tag ↦ fixed
        | array_tag ↦ record fixed {
          header_bytes = array_header_size;
          object_bytes = sizeof_array_no_header c.alignment (get_array_length mem p) t;
        }
        | stack_tag ↦ stack_space start mem p
        | header_only_tag ↦ stack_space start mem p
        | fill_tag ↦ stack_space start mem p
      ]

  abbrev pub has_weak_pointer : ObjectType → Bool
  has_weak_pointer t = elim t.tag [ weak_tag ↦ t.num_objptrs == 1 | _ ↦ false ]

  -- The copy of a weak pointer that has been made at `back` goes to the list of weak pointers.
  unfoldable pub link_weak : Collector → Collector
  unfolding load store offsetof_weak
  link_weak s =
      let w =
        add_size (add_size s.forward_state.back normal_header_size) (offsetof_weak c.alignment) in
      let op = load objptr_size s.mem (add_size w weak_objptr_offset) in
      if is_objptr native64 op
        && (not s.forward_state.am_in_minor_gc || is_objptr_in_nursery s.state s.state.heap op)
      then record s { mem = store 8 s.mem w s.weaks; weaks = w }
      else s

  -- The copy, and the forwarding pointer that the object at p keeps.
  unfoldable pub copy_out : ObjectType → Space → ℕ → Collector → Outcome
  unfolding memcpy link_weak store get_headerp pointer_to_objptr
  copy_out t space p s =
      let f = s.forward_state in
      let size = add_size space.header_bytes space.object_bytes in
      let copied = memcpy space.mem (sub_size p space.header_bytes) f.back size in
      let restored =
        if space.old_reserved == 0
        then copied
        else store 8 copied (add_size p stack_reserved_offset) space.old_reserved in
      let s' = record s { mem = restored } in
      let s'' = if has_weak_pointer t then link_weak s' else s' in
      let new = pointer_to_objptr native64 (add_size f.back space.header_bytes) f.to_start in
      let left = store objptr_size (store header_size s''.mem (get_headerp p) forwarded) p new in
      if ltb f.to_limit (add_size (add_size f.back size) space.skip)
      then died
      else returned (record s'' {
        mem = left;
        forward_state = record f { back = add_size f.back (add_size size space.skip) };
      })

  -- The branch of an object that is not forwarded yet.
  unfoldable pub copy_object : ℕ → ℕ → Collector → Outcome
  unfolding split_header space_of copy_out
  copy_object header p s = elim (split_header types header) [
    | none ↦ stuck
    | some t ↦ copy_out t (space_of t s.state.heap.start s.mem p) p s
  ]

  -- The body of forwardObjptr, at the object p with its header; `forward` is the recursive call.
  unfoldable pub forward_at : (Collector → Outcome) → ℕ → ℕ → ℕ → ℕ → Collector → Outcome
  unfolding copy_object while_in_from_space follow
  forward_at forward fuel opp p header s =
      let copied = if header == forwarded then returned s else copy_object header p s in
      let done = and_then copied λ s'. while_in_from_space forward opp fuel (follow opp p s') in
      if is_object_lifted header then returned s else done

  unfoldable pub forward_objptr : ℕ → Collector → ℕ → Outcome
  unfolding forward_at load get_header objptr_to_pointer
  forward_objptr zero s opp = stuck
  forward_objptr (suc fuel) s opp =
      let p = objptr_to_pointer native64 (load objptr_size s.mem opp) s.state.heap.start in
      forward_at (λ s'. forward_objptr fuel s' opp) fuel opp p (get_header s.mem p) s

  unfoldable pub forward_objptr_if_in_nursery : ℕ → Collector → ℕ → Outcome
  unfolding forward_objptr
  forward_objptr_if_in_nursery fuel s opp =
      let p = objptr_to_pointer native64 (load objptr_size s.mem opp) s.state.heap.start in
      if ltb p s.state.heap.nursery || is_pointer_in_heap s.state.shared_heap p
      then returned s
      else forward_objptr fuel s opp

  unfoldable pub forward_objptr_if_in_local_heap : ℕ → Collector → ℕ → Outcome
  unfolding forward_objptr
  forward_objptr_if_in_local_heap fuel s opp =
      let p = objptr_to_pointer native64 (load objptr_size s.mem opp) s.state.heap.start in
      if not (is_pointer_in_heap s.state.heap p) then returned s else forward_objptr fuel s opp
