-- ===== src/Foreach/Slots.antt =====
-- The addresses of the object pointers in an object, said without the loops: n of them from p on; in
-- each of k elements those behind the other data; and those of an object of a given type.
use multi_mlton.Prelude.{
  ℕ, zero, suc, ◌+◌, ◌*◌, ◌≡◌, refl, ap, arith, if◌then◌else◌, Bool, List, [], ◌∷◌, ◌++◌,
}
use native.Mathlib.Nat.{zero-add, add-zero, mul-zero, zero-mul}
use multi_mlton.CardMap.{Memory}
use multi_mlton.Object.{
  ObjectTypeTag, ObjectType, array_tag, normal_tag, stack_tag, weak_tag, header_only_tag, fill_tag,
}
use multi_mlton.Foreach.{call_if_is_objptr}

abbrev pub slots : ℕ → ℕ → List ℕ
slots zero p = []
slots (suc n) p = p ∷ slots n (p + 8)

-- k elements of b bytes of other data and n object pointers each.
abbrev pub element_slots : ℕ → ℕ → ℕ → ℕ → List ℕ
element_slots zero b n p = []
element_slots (suc k) b n p = slots n (p + b) ++ element_slots k b n (p + b + 8 * n)

-- `count` is the length of an array.
abbrev pub object_slots : Bool → ℕ → ObjectTypeTag → ObjectType → ℕ → List ℕ
object_slots skip_weaks count normal_tag t p = slots t.num_objptrs (p + t.bytes_non_objptrs)
object_slots skip_weaks count array_tag t p =
    element_slots count t.bytes_non_objptrs t.num_objptrs p
object_slots skip_weaks count weak_tag t p =
    if skip_weaks then [] else slots t.num_objptrs (p + t.bytes_non_objptrs)
object_slots skip_weaks count stack_tag t p = []
object_slots skip_weaks count header_only_tag t p = []
object_slots skip_weaks count fill_tag t p = []

-- The callback at each of the addresses, in order.
abbrev pub visit_all : (Memory → ℕ → Memory) → List ℕ → Memory → Memory
visit_all f [] mem = mem
visit_all f (p ∷ ps) mem = visit_all f ps (call_if_is_objptr f mem p)

slots-append : (m n p : ℕ) → slots (m + n) p ≡ slots m p ++ slots n (p + 8 * m)
slots-append zero n p = rw (zero-add, mul-zero, add-zero) refl
slots-append (suc m) n p =
    let e : p + 8 + 8 * m ≡ p + 8 * suc m = omega arith in
    let s : suc m + n ≡ suc (m + n) = omega arith in
    rw (s, ← e) (ap (λ (t : List ℕ). p ∷ t) (slots-append m n (p + 8)))

pub element_slots_none : (k b p : ℕ) → element_slots k b 0 p ≡ []
element_slots_none zero b p = refl
element_slots_none (suc k) b p = element_slots_none k b (p + b + 8 * 0)

pub element_slots_pure : (k n p : ℕ) → slots (k * n) p ≡ element_slots k 0 n p
element_slots_pure zero n p = rw zero-mul refl
element_slots_pure (suc k) n p =
    let e : suc k * n ≡ n + k * n = omega arith in
    let z : p + 0 ≡ p = omega arith in
    rw (e, z, slots-append n (k * n) p)
      (ap (λ (t : List ℕ). slots n p ++ t) (element_slots_pure k n (p + 8 * n)))
