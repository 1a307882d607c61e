-- ===== src/Objptr/Tests.antt =====
-- Pointers in the representations that the runtime is built for.
use multi_mlton.Prelude.{◌≡◌, refl, true, false}
use multi_mlton.Objptr.{Model, native64, is_objptr, is_pointer, bogus_objptr, pointer_to_objptr}

bogus_is_no_objptr : is_objptr native64 bogus_objptr ≡ false
unfolding is_objptr
bogus_is_no_objptr = refl

aligned_pointer : is_pointer native64 0x1008 ≡ true
unfolding is_pointer
aligned_pointer = refl

native_is_identity : pointer_to_objptr native64 0x1008 0x1000 ≡ 0x1008
unfolding pointer_to_objptr
native_is_identity = refl

-- Scheme CX of model.h: 32 bits, shifted by two, over a base.
abbrev scheme_cx : Model
scheme_cx = record { objptr_bits = 32; objptr_shift = 2; has_base = true }
