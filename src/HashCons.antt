-- ===== src/HashCons.antt =====
-- runtime/gc/hash-cons.c: the table of shared objects. It stands in an open-addressed table of 2^k
-- slots, which double hashing probes. `mult` is the multiplier that the C code computes in floating
-- point, `types` is `s->objectTypes`. What insertHashTableElem counts in static variables for its
-- debug output is left out. Loops take fuel, one unit for each turn.
pub mod Alloc
pub mod Probes
pub mod Equal
pub mod Entries
pub mod Insert
pub mod Grow
mod Tests
use multi_mlton.Prelude.{
  ℕ, zero, suc, ◌+◌, ◌-◌, ◌*◌, ◌/◌, ◌%◌, ◌^◌, Bool, true, false, not, ◌||◌, ◌&&◌, ◌==◌, ltb, leb,
  if◌then◌else◌, Option, none, some, List, ◌>>=◌,
}
use multi_mlton.Align.{add_size, sub_size, normal_header_size}
use multi_mlton.CardMap.{Memory}
use multi_mlton.Object.{
  ObjectTypeTag, ObjectType, array_tag, normal_tag, stack_tag, weak_tag, header_only_tag, fill_tag,
  load, objptr_size, array_header_size, get_header, get_array_length, split_header,
}
use multi_mlton.ObjectSize.{element_bytes, sizeof_array_no_header}

-- `struct GC_objectHashElement`; the null pointer is 0.
pub record Element : Type 0 where
  pub hash : ℕ
  pub object : ℕ

-- sizeof (struct GC_objectHashElement)
abbrev pub sizeof_element : ℕ
sizeof_element = 16

pub record HashTable : Type 0 where
  pub elements : ℕ → Element
  pub elements_is_in_heap : Bool
  pub elements_length_cur : ℕ
  pub elements_length_max : ℕ
  pub elements_length_max_log2 : ℕ
  pub may_insert : Bool

abbrev pub word32 : ℕ
word32 = 2 ^ 32

abbrev pub no_elements : ℕ → Element
no_elements i = record { hash = 0; object = 0 }

-- `for ( ; t->elementsLengthMax <= elementsLengthMax; t->elementsLengthMax <<= 1, ...)`
unfoldable pub fit_length : ℕ → ℕ → ℕ → ℕ → Option (ℕ × ℕ)
fit_length zero limit length log2 = none
fit_length (suc fuel) limit length log2 =
    let rest = fit_length fuel limit (length * 2 % word32) ((log2 + 1) % word32) in
    if leb length limit then rest else some (length, log2)

abbrev pub empty_table : Bool → ℕ → ℕ → HashTable
empty_table in_heap length log2 = record {
  elements = no_elements;
  elements_is_in_heap = in_heap;
  elements_length_cur = 0;
  elements_length_max = length;
  elements_length_max_log2 = log2;
  may_insert = true;
}

-- allocHashTable, from the region of the heap that it chose on.
unfoldable pub alloc_hash_table : ℕ → ℕ → ℕ → Option HashTable
unfolding fit_length
alloc_hash_table fuel region_start region_end =
    let limit = sub_size region_end region_start / sizeof_element % word32 in
    if ltb limit 64 then some (empty_table false 64 6) else elim (fit_length fuel limit 64 6) [
      | none ↦ none
      | some (length, log2) ↦ some (empty_table true (length / 2) ((log2 + word32 - 1) % word32))
    ]

-- `mult` is the multiplier.
unfoldable pub first_slot : ℕ → ℕ → ℕ → ℕ
first_slot mult log2 hash = mult * hash % 2 ^ 64 % word32 / 2 ^ (32 - log2)

unfoldable pub probe_of : ℕ → ℕ
probe_of slot = if 1 == slot % 2 then slot else (slot + word32 - 1) % word32

-- "It's not in the table.  Add it."
unfoldable pub add_elem : HashTable → ℕ → ℕ → ℕ → HashTable
add_elem table slot hash object =
    if table.may_insert
    then record table {
      elements = λ (i : ℕ).
          if i == slot then record { hash = hash; object = object } else table.elements i;
      elements_length_cur = (table.elements_length_cur + 1) % word32;
    }
    else table

-- `ARRAY_TAG == tag and (getArrayLength (object) != getArrayLength (e->object))` goes on looking.
unfoldable pub lengths_match : ObjectTypeTag → ℕ → ℕ → Bool
lengths_match array_tag a b = a == b
lengths_match normal_tag a b = true
lengths_match stack_tag a b = true
lengths_match weak_tag a b = true
lengths_match header_only_tag a b = true
lengths_match fill_tag a b = true

module _ (mem : Memory) where
  -- `for (p1 = ..., p2 = ...; p1 < max; ++p1, ++p2) unless (*p1 == *p2) ...`
  unfoldable pub same_words : ℕ → ℕ → ℕ → ℕ → Option Bool
  unfolding load
  same_words zero p1 p2 max = none
  same_words (suc fuel) p1 p2 max =
      let rest = same_words fuel (add_size p1 4) (add_size p2 4) max in
      if ltb p1 max
      then (if load 4 mem p1 == load 4 mem p2 then rest else some false)
      else some true

  -- `for (p = (GC_hash* )object; p < max; ++p) hash = hash * 31 + *p;`
  unfoldable pub hash_words : ℕ → ℕ → ℕ → ℕ → Option ℕ
  unfolding load
  hash_words zero hash p max = none
  hash_words (suc fuel) hash p max =
      let rest = hash_words fuel ((hash * 31 + load 4 mem p) % word32) (add_size p 4) max in
      if ltb p max then rest else some hash

  -- `max - object`, of an array or a normal object.
  unfoldable pub shared_bytes : ℕ → ObjectType → ℕ → ℕ
  unfolding element_bytes sizeof_array_no_header get_array_length
  shared_bytes alignment t object = elim t.tag [
    | array_tag ↦ sizeof_array_no_header alignment (get_array_length mem object) t
    | _ ↦ element_bytes t
  ]

-- `if (countBytesHashConsed and res != object)`
unfoldable pub bytes_saved : Bool → Memory → ℕ → ObjectType → ℕ → ℕ → ℕ
unfolding shared_bytes
bytes_saved count_bytes mem alignment t object res =
    let max = add_size object (shared_bytes mem alignment t object) in
    let header_bytes : ℕ = elim t.tag [ array_tag ↦ array_header_size | _ ↦ normal_header_size ] in
    if count_bytes && not (res == object) then add_size (sub_size max object) header_bytes else 0

module _ (types : List ObjectType) (mem : Memory) (words : ℕ) where
  unfoldable pub same_length : ℕ → ℕ → Option Bool
  unfolding split_header get_header get_array_length lengths_match
  same_length object other = elim (split_header types (get_header mem object)) [
    | none ↦ none
    | some t ↦ some (lengths_match t.tag (get_array_length mem object) (get_array_length mem other))
  ]

  -- "Compare object to e->object."
  unfoldable pub same_object : ℕ → ℕ → ℕ → Option Bool
  unfolding same_words same_length get_header
  same_object object other max =
      if object == other
      then some true
      else (if get_header mem object == get_header mem other
          then elim (same_words mem words object other max) [
            | none ↦ none
            | some true ↦ same_length object other
            | some false ↦ some false
          ]
          else some false)

  -- The labels look and lookNext.
  unfoldable pub look : ℕ → HashTable → ℕ → ℕ → ℕ → Bool → ℕ → ℕ → Option (ℕ × HashTable)
  unfolding same_object add_elem
  look zero table hash object max might_be_there slot probe = none
  look (suc fuel) table hash object max might_be_there slot probe =
      let e = table.elements slot in
      let next =
        look fuel table hash object max might_be_there
          ((slot + probe) % word32 % table.elements_length_max) probe in
      let compared : Option (ℕ × HashTable) = elim (same_object object e.object max) [
        | none ↦ none
        | some true ↦ some (e.object, table)
        | some false ↦ next
      ] in
      if 0 == e.object
      then some (object, add_elem table slot hash object)
      else (if not (hash == e.hash) then next else (if not might_be_there then next else compared))

  module _ (mult : ℕ) where
    unfoldable pub insert_hash_table_elem :
        ℕ → HashTable → ℕ → ℕ → ℕ → Bool → Option (ℕ × HashTable)
    unfolding look first_slot probe_of
    insert_hash_table_elem fuel table hash object max might_be_there =
        let slot = first_slot mult table.elements_length_max_log2 hash in
        look fuel table hash object max might_be_there slot (probe_of slot)

    -- The loop of growHashTableMaybe over the n old elements from i on.
    unfoldable pub reinsert : ℕ → (ℕ → Element) → ℕ → ℕ → HashTable → Option HashTable
    unfolding insert_hash_table_elem
    reinsert fuel old zero i table = some table
    reinsert fuel old (suc n) i table =
        let e = old i in
        if 0 == e.object
        then reinsert fuel old n (i + 1) table
        else elim (insert_hash_table_elem fuel table e.hash e.object 0 false) [
          | none ↦ none
          | some (p, table') ↦ reinsert fuel old n (i + 1) table'
        ]

    -- `granted` is whether calloc gives the new elements.
    unfoldable pub grow_hash_table_maybe : ℕ → (ℕ → Bool) → HashTable → Option HashTable
    unfolding reinsert
    grow_hash_table_maybe fuel granted t =
        let new_length = t.elements_length_max * 2 % word32 in
        let emptied = record t {
          elements = no_elements;
          elements_length_max = new_length;
          elements_length_max_log2 = (t.elements_length_max_log2 + 1) % word32;
          elements_is_in_heap = false;
        } in
        if not t.may_insert || leb (t.elements_length_cur * 2 % word32) t.elements_length_max
        then some t
        else (if not (granted new_length)
            then some (record t { may_insert = false })
            else reinsert fuel t.elements t.elements_length_max 0 emptied)

    -- hashConsPointer: the shared object, the table, and how many bytes are saved.
    module _ (alignment : ℕ) (granted : ℕ → Bool) where
      unfoldable pub hash_cons_typed :
          ℕ → Bool → HashTable → ObjectType → ℕ → Option (ℕ × HashTable × ℕ)
      unfolding hash_words shared_bytes bytes_saved insert_hash_table_elem grow_hash_table_maybe
      hash_cons_typed fuel count_bytes table t object =
          let max = add_size object (shared_bytes mem alignment t object) in
          do
            hash ← hash_words mem words (get_header mem object % word32) object max
            (res, inserted) ← insert_hash_table_elem fuel table hash object max true
            grown ← grow_hash_table_maybe (fuel * 2) granted inserted
            some (res, grown, bytes_saved count_bytes mem alignment t object res)

      unfoldable pub hash_cons_pointer : ℕ → Bool → HashTable → ℕ → Option (ℕ × HashTable × ℕ)
      unfolding hash_cons_typed split_header
      hash_cons_pointer fuel count_bytes table object =
          elim (split_header types (get_header mem object)) [
            | none ↦ none
            | some t ↦
                if t.has_identity
                then some (object, table, 0)
                else hash_cons_typed fuel count_bytes table t object
          ]
