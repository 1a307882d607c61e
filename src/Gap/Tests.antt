-- ===== src/Gap/Tests.antt =====
-- Gaps of each kind, from address 64 on.
use multi_mlton.Prelude.{ℕ, ◌≡◌, ◌≢◌, inr, refl, true, false, some, none, List, [], ◌∷◌, arith}
use multi_mlton.Align.{IsPow2, is_aligned}
use multi_mlton.CardMap.{Memory}
use multi_mlton.Object.{
  ObjectTypeTag, ObjectType, array_tag, normal_tag, header_only_tag, fill_tag,
  advance_to_object_data,
}
use multi_mlton.ObjectSize.{sizeof_object}
use multi_mlton.Gap.{fill_gap}
use multi_mlton.Gap.Fillers.{Fillers}
use multi_mlton.Gap.Walk.{fill_gap_lem}

abbrev blank : Memory
blank a = 0

abbrev type_of : ObjectTypeTag → ℕ → ObjectType
type_of tag bytes = record {
  tag = tag;
  has_identity = false;
  bytes_non_objptrs = bytes;
  num_objptrs = 0;
  has_identity_transitive = false;
  is_unbounded = false;
}

abbrev nine_types : List ObjectType
nine_types =
    type_of normal_tag 8
    ∷ type_of normal_tag 8
    ∷ type_of normal_tag 8
    ∷ type_of array_tag 1
    ∷ type_of array_tag 4
    ∷ type_of array_tag 2
    ∷ type_of array_tag 8
    ∷ type_of header_only_tag 0
    ∷ type_of fill_tag 0
    ∷ []

nine_types_Fillers : Fillers nine_types
nine_types_Fillers = record {
  vector = type_of array_tag 1;
  vector_at = refl;
  vector_tag = refl;
  vector_bytes = refl;
  vector_objptrs = refl;
  header_only = type_of header_only_tag 0;
  header_only_at = refl;
  header_only_is = refl;
  fill = type_of fill_tag 0;
  fill_at = refl;
  fill_is = refl;
}

eight_IsPow2 : IsPow2 8
eight_IsPow2 = (3, refl, omega arith)

not_null : ◌≢◌ {A = ℕ} 64 0
not_null e = absurd (omega arith)

forty_IsAligned : is_aligned 40 8 ≡ true
unfolding is_aligned
forty_IsAligned = refl

fill_gap_lem_example :
    (mem' : Memory) × (fill_gap blank 64 104 ≡ some (40, mem'))
    × (sizeof_object nine_types 0 8 1 mem' (advance_to_object_data mem' 64) ≡ some 40)
fill_gap_lem_example =
    fill_gap_lem nine_types 0 8 0 nine_types_Fillers blank 64 40 (omega arith) not_null
      (inr (omega arith)) eight_IsPow2 (omega arith) (λ large. forty_IsAligned)

too_short : fill_gap blank 64 75 ≡ none
unfolding fill_gap
too_short = refl
