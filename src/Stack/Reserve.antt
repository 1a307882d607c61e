-- ===== src/Stack/Reserve.antt =====
-- What reserving promises: room for the used part and the slop, on an aligned end.
use multi_mlton.Prelude.{
  ℕ, ◌+◌, ◌*◌, ◌^◌, ◌≤◌, ◌<◌, min, max, ◌≡◌, true, false, Bool-cases, inl, inr, arith, leb, leb→le,
  not_leb→lt, if◌then◌else◌,
}
use multi_mlton.Align.{IsPow2, align_with_extra, add_size, sub_size}
use multi_mlton.Align.Laws.{align_with_extra_bounds}
use multi_mlton.Stack.{
  Stack, Controls, stack_extra, is_stack_reserved_aligned, sizeof_stack_slop, align_stack_reserved,
  sizeof_stack_minimum_reserved, sizeof_stack_grow_reserved, sizeof_stack_shrink_reserved,
}

-- The sizes of a stack and of the controls that keep every sum below the end of the address space.
pub record Fits (c : Controls) (k : Stack) : Type 0 where
  pub is_pow2 : IsPow2 c.alignment
  pub alignment_le : c.alignment ≤ 2 ^ 32
  pub frame_lt : c.max_frame_size < 2 ^ 16
  pub used_le : k.used ≤ k.reserved
  pub reserved_le : k.reserved ≤ 2 ^ 62
  pub top_le : k.top_frame_size ≤ k.used + 2 * c.max_frame_size

align_stack_reserved_bounds :
    (c : Controls) (n : ℕ)
    → IsPow2 c.alignment
    → c.alignment ≤ 2 ^ 32
    → n ≤ 2 ^ 63
    → (is_stack_reserved_aligned c (align_stack_reserved c n) ≡ true)
      × (n ≤ align_stack_reserved c n)
      × (align_stack_reserved c n < n + c.alignment)
unfolding is_stack_reserved_aligned align_stack_reserved
align_stack_reserved_bounds c n w le small =
    let b = align_with_extra_bounds c.alignment n stack_extra w (omega arith) in
    let e : add_size stack_extra (align_with_extra c.alignment n stack_extra)
        ≡ align_with_extra c.alignment n stack_extra + stack_extra =
      omega (arith, b) in
    (rw e b.0, b.1, b.2)

minimum_bounds :
    (c : Controls) (k : Stack)
    → Fits c k
    → (k.used + 2 * c.max_frame_size ≤ sizeof_stack_minimum_reserved c k + k.top_frame_size)
      × (sizeof_stack_minimum_reserved c k < k.used + 2 * c.max_frame_size + c.alignment)
unfolding sizeof_stack_minimum_reserved sizeof_stack_slop
minimum_bounds c k f =
    let b = align_stack_reserved_bounds c need f.is_pow2 f.alignment_le (omega (arith, f)) in
    (omega (arith, b, f), omega (arith, b, f))
  where
    need : ℕ
    need = sub_size (add_size k.used (sizeof_stack_slop c)) k.top_frame_size

-- With sizes far below the address space and the product by the ratio cut to RESERVED_MAX,
-- sizeofStackGrowReserved gives an aligned end, at least what the ratio asks for, and room for the
-- used part and the slop less the frame on top.
pub sizeof_stack_grow_reserved_bounds :
    (c : Controls) (k : Stack)
    → Fits c k
    → c.ratios.current_grow k.reserved ≤ 2 ^ 62
    → let r = sizeof_stack_grow_reserved c k in
      (is_stack_reserved_aligned c r ≡ true)
      × (c.ratios.current_grow k.reserved ≤ r)
      × (k.used + 2 * c.max_frame_size ≤ r + k.top_frame_size)
unfolding sizeof_stack_grow_reserved
sizeof_stack_grow_reserved_bounds c k f le =
    let m = minimum_bounds c k f in
    let b =
      align_stack_reserved_bounds c
        (max (c.ratios.current_grow k.reserved) (sizeof_stack_minimum_reserved c k)) f.is_pow2
        f.alignment_le (omega (arith, m, f)) in
    (b.0, omega (arith, b), omega (arith, b, m))

min_aligned :
    (c : Controls) (a b : ℕ)
    → is_stack_reserved_aligned c a ≡ true
    → is_stack_reserved_aligned c b ≡ true
    → is_stack_reserved_aligned c (min a b) ≡ true
min_aligned c a b ea eb = elim (Bool-cases (leb a b)) [
  | inl le ↦ (let e : min a b ≡ a = omega (arith, leb→le a b le) in rw e ea)
  | inr gt ↦ (let e : min a b ≡ b = omega (arith, not_leb→lt a b gt) in rw e eb)
]

-- For a paused stack, with sizes far below the address space, the product by the ratio cut to
-- RESERVED_MAX and an aligned end: sizeofStackShrinkReserved gives an aligned end, does not grow
-- the stack, and keeps all of its used part.
pub shrink_paused_bounds :
    (c : Controls) (k : Stack)
    → Fits c k
    → c.ratios.max_reserved k.used ≤ 2 ^ 62
    → is_stack_reserved_aligned c k.reserved ≡ true
    → let r = sizeof_stack_shrink_reserved c k false in
      (is_stack_reserved_aligned c r ≡ true) × (r ≤ k.reserved) × (k.used ≤ r)
unfolding sizeof_stack_shrink_reserved
shrink_paused_bounds c k f le al =
    let b =
      align_stack_reserved_bounds c
        (max (min (c.ratios.max_reserved k.used) (c.ratios.shrink k.reserved)) k.used) f.is_pow2
        f.alignment_le (omega (arith, f)) in
    (
      min_aligned c k.reserved
          (align_stack_reserved c
            (max (min (c.ratios.max_reserved k.used) (c.ratios.shrink k.reserved)) k.used))
          al b.0,
      omega arith,
      omega (arith, b, f),
    )

-- For the current stack, with sizes far below the address space, the product by the ratio cut to
-- RESERVED_MAX, an aligned end and the room that the stack invariant asks for:
-- sizeofStackShrinkReserved gives an aligned end, does not grow the stack, and keeps the room for
-- its used part and the slop less the frame on top.
pub shrink_current_bounds :
    (c : Controls) (k : Stack)
    → Fits c k
    → c.ratios.current_max_reserved k.used ≤ 2 ^ 62
    → is_stack_reserved_aligned c k.reserved ≡ true
    → k.used + 2 * c.max_frame_size ≤ k.reserved + k.top_frame_size
    → let r = sizeof_stack_shrink_reserved c k true in
      (is_stack_reserved_aligned c r ≡ true)
      × (r ≤ k.reserved)
      × (k.used + 2 * c.max_frame_size ≤ r + k.top_frame_size)
unfolding sizeof_stack_shrink_reserved
shrink_current_bounds c k f le al room =
    let m = minimum_bounds c k f in
    let b = align_stack_reserved_bounds c wanted f.is_pow2 f.alignment_le (omega (arith, m, f)) in
    (
      min_aligned c k.reserved (align_stack_reserved c wanted) al b.0,
      omega arith,
      omega (arith, b, m, room),
    )
  where
    wanted : ℕ
    wanted =
        max
          (min (c.ratios.current_max_reserved k.used) (
            if leb k.reserved (c.ratios.current_permit_reserved k.used)
            then k.reserved
            else c.ratios.current_shrink k.reserved))
          (sizeof_stack_minimum_reserved c k)
