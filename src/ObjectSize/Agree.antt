-- ===== src/ObjectSize/Agree.antt =====
-- The two size functions of object-size.c repeat one dispatch on the tag; here they are compared.
use multi_mlton.Prelude.{ℕ, ◌<◌, ◌≡◌, some, List, refl}
use multi_mlton.Align.{add_size}
use multi_mlton.CardMap.{Memory}
use multi_mlton.Object.{
  ObjectTypeTag, ObjectType, array_tag, normal_tag, stack_tag, weak_tag, header_only_tag, fill_tag,
  get_header, split_header,
}
use multi_mlton.ObjectSize.{
  header_and_object_bytes, object_bytes, header_bytes_of, sizeof_object, sizeof_object_no_header,
  sizeof_object_header,
}
use multi_mlton.ObjectSize.Chains.{Forwards, Threads, type_of_object_lem}

bytes_agree :
    (alignment : ℕ) (mem : Memory) (t : ObjectType) (p q : ℕ)
    → header_and_object_bytes alignment mem t p q
      ≡ (header_bytes_of t, object_bytes alignment mem t p q)
unfolding header_and_object_bytes header_bytes_of object_bytes
bytes_agree alignment mem t p q = by_tag t.tag
  where
    by_tag :
        (g : ObjectTypeTag)
        → header_and_object_bytes alignment mem (record t { tag = g }) p q ≡ (
          header_bytes_of (record t { tag = g }),
          object_bytes alignment mem (record t { tag = g }) p q,
        )
    by_tag array_tag = refl
    by_tag normal_tag = refl
    by_tag stack_tag = refl
    by_tag weak_tag = refl
    by_tag header_only_tag = refl
    by_tag fill_tag = refl

-- At an object that n forwarding pointers and m threaded words lead to a header h from, with fuel
-- beyond n and m and h naming a type of the table, sizeofObject, sizeofObjectNoHeader and
-- sizeofObjectHeader all answer, and the first is the sum of the other two, whatever the tag.
pub sizeof_object_lem :
    (alignment : ℕ) (types : List ObjectType) (fuel : ℕ) {mem : Memory} {base n m p q h : ℕ}
    {t : ObjectType}
    → Forwards mem base n p q
    → n < fuel
    → Threads mem m (get_header mem q) h
    → m < fuel
    → split_header types h ≡ some t
    → (header_bytes : ℕ) × (rest : ℕ) × (sizeof_object_header types h ≡ some header_bytes)
      × (sizeof_object_no_header types base alignment fuel mem p ≡ some rest)
      × (sizeof_object types base alignment fuel mem p ≡ some (add_size header_bytes rest))
unfolding sizeof_object sizeof_object_no_header sizeof_object_header
sizeof_object_lem alignment types fuel {mem} {p = p} {q = q} {t = t} f lf w lw e =
    let found = type_of_object_lem types fuel f lf w lw e in
    (
      header_bytes_of t,
      object_bytes alignment mem t p q,
      rw (sizeof_object_header, e) refl,
      rw (sizeof_object_no_header, found) refl,
      rw (sizeof_object, found, bytes_agree alignment mem t p q) refl,
    )
