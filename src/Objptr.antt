-- ===== src/Objptr.antt =====
-- runtime/gc/objptr.c, runtime/gc/pointer.c and the representations of runtime/gc/model.h: object
-- pointers of Z bits, shifted left by S and added to a base on their way to a 64-bit address.
-- fetchObjptrToPointer is left out here: it first follows forwarding pointers.
pub mod Laws
mod Tests
use multi_mlton.Prelude.{
  ℕ, ◌+◌, ◌-◌, ◌*◌, ◌/◌, ◌%◌, ◌^◌, max, Bool, true, false, ◌==◌, if◌then◌else◌, bit_and,
}
use multi_mlton.Align.{size_mod, add_size, sub_size}

-- GC_MODEL_OBJPTR_SIZE, GC_MODEL_OBJPTR_SHIFT and GC_MODEL_OBJPTR_BASE.
pub record Model : Type 0 where
  pub objptr_bits : ℕ
  pub objptr_shift : ℕ
  pub has_base : Bool

abbrev pub native32 : Model
native32 = record { objptr_bits = 32; objptr_shift = 0; has_base = false }

abbrev pub native64 : Model
native64 = record { objptr_bits = 64; objptr_shift = 0; has_base = false }

-- `~((~ 0) << shift)` in words of the given width.
unfoldable pub low_mask : ℕ → ℕ → ℕ
low_mask bits shift = 2 ^ bits - 1 - (2 ^ bits - 1) * 2 ^ shift % 2 ^ bits

abbrev pub bogus_objptr : ℕ
bogus_objptr = 1

module _ (m : Model) where
  -- GC_MODEL_MINALIGN_SHIFT
  abbrev pub minalign_shift : ℕ
  minalign_shift = max 2 (m.objptr_shift + 1)

  unfoldable pub is_objptr : ℕ → Bool
  unfolding low_mask
  is_objptr p = 0 == bit_and p (low_mask m.objptr_bits (minalign_shift - m.objptr_shift))

  unfoldable pub is_pointer : ℕ → Bool
  unfolding low_mask
  is_pointer p = 0 == bit_and p (low_mask 64 minalign_shift)

  abbrev pub base_of : ℕ → ℕ
  base_of b = if m.has_base then b else 0

  unfoldable pub objptr_to_pointer : ℕ → ℕ → ℕ
  objptr_to_pointer o b = add_size (o * 2 ^ m.objptr_shift % size_mod) (base_of b)

  unfoldable pub pointer_to_objptr : ℕ → ℕ → ℕ
  pointer_to_objptr p b = sub_size p (base_of b) / 2 ^ m.objptr_shift % 2 ^ m.objptr_bits
