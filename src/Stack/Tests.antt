-- ===== src/Stack/Tests.antt =====
-- A stack of 968 bytes with 200 in use, under the default-like ratios 2, 4, 16 and one half.
use multi_mlton.Prelude.{◌+◌, ◌*◌, ◌/◌, ◌≤◌, ◌≡◌, refl, true, arith}
use multi_mlton.Align.{is_aligned, align, align_with_extra}
use multi_mlton.Stack.{Stack, Controls, is_stack_reserved_aligned, sizeof_stack_shrink_reserved}
use multi_mlton.Stack.Reserve.{Fits, shrink_current_bounds}

abbrev controls : Controls
controls = record {
  alignment = 8;
  max_frame_size = 48;
  ratios = record {
    current_grow = λ r. r * 2;
    current_max_reserved = λ u. u * 32;
    current_permit_reserved = λ u. u * 4;
    current_shrink = λ r. r / 2;
    max_reserved = λ u. u * 8;
    shrink = λ r. r / 2;
  };
}

abbrev some_stack : Stack
some_stack = record { address = 4096; reserved = 968; used = 200; top_frame_size = 40 }

fits : Fits controls some_stack
fits = record {
  is_pow2 = (3, refl, omega arith);
  alignment_le = omega arith;
  frame_lt = omega arith;
  used_le = omega arith;
  reserved_le = omega arith;
  top_le = omega arith;
}

aligned : is_stack_reserved_aligned controls 968 ≡ true
unfolding is_stack_reserved_aligned is_aligned
aligned = refl

shrink_runs : sizeof_stack_shrink_reserved controls some_stack true ≡ 488
unfolding sizeof_stack_shrink_reserved align_with_extra align
shrink_runs = refl

shrink_current_bounds_example :
    (is_stack_reserved_aligned controls (sizeof_stack_shrink_reserved controls some_stack true)
      ≡ true)
    × (sizeof_stack_shrink_reserved controls some_stack true ≤ 968)
    × (200 + 2 * 48 ≤ sizeof_stack_shrink_reserved controls some_stack true + 40)
shrink_current_bounds_example =
    shrink_current_bounds controls some_stack fits (omega arith) aligned (omega arith)
