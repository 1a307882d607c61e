-- ===== src/HashCons/Tests.antt =====
-- A region of 100 elements, one of 2^31, a table about to grow, and a pair to be shared.
use multi_mlton.Prelude.{
  ℕ, ◌+◌, suc, ◌*◌, ◌/◌, ◌%◌, ◌^◌, ◌≤◌, ◌<◌, ◌≡◌, ◌≢◌, ◌==◌, ◌⊎◌, ◌↔◌, refl, false, true, Bool,
  none, some, [], ◌∷◌, arith, if◌then◌else◌, ltb,
}
use multi_mlton.Align.{sub_size}
use multi_mlton.CardMap.{Memory}
use multi_mlton.Object.{ObjectType, normal_tag, get_header, load, split_header}
use multi_mlton.ObjectSize.{element_bytes}
use multi_mlton.HashCons.{
  Element, HashTable, sizeof_element, word32, empty_table, alloc_hash_table, grow_hash_table_maybe,
  shared_bytes, hash_cons_pointer,
}
use multi_mlton.HashCons.Alloc.{alloc_hash_table_lem, alloc_hash_table_runaway}
use multi_mlton.HashCons.Entries.{occupied, HasEntry}
use multi_mlton.HashCons.Grow.Invariant.{IsTable}
use multi_mlton.HashCons.Grow.Whole.{grow_hash_table_maybe_lem, grow_counts_twice}
use multi_mlton.HashCons.Equal.{SameContent, hash_cons_pointer_lem}

abbrev pair_type : ObjectType
pair_type = record {
  tag = normal_tag;
  has_identity = false;
  bytes_non_objptrs = 0;
  num_objptrs = 2;
  has_identity_transitive = false;
  is_unbounded = false;
}

alloc_hash_table_lem_example :
    (in_heap : Bool) × (k : ℕ) × (alloc_hash_table 31 4096 5696
      ≡ some (empty_table in_heap (2 ^ k) k))
    × (6 ≤ k)
    × (k < 31)
    × (in_heap ≡ true
        → (2 ^ k ≤ sub_size 5696 4096 / sizeof_element % word32)
          × (sub_size 5696 4096 / sizeof_element % word32 < 2 ^ suc k))
alloc_hash_table_lem_example = alloc_hash_table_lem 31 4096 5696 (omega arith) (omega arith)

alloc_hash_table_runaway_example : alloc_hash_table 1000 4096 (4096 + 2 ^ 35) ≡ none
alloc_hash_table_runaway_example = alloc_hash_table_runaway 1000 4096 (4096 + 2 ^ 35) (omega arith)

-- 33 of 64 slots are in use.
abbrev half_full : HashTable
half_full = record {
  elements = λ (i : ℕ).
      if ltb i 33
      then record { hash = i * 67108864; object = 64 + i * 8 }
      else record { hash = 0; object = 0 };
  elements_is_in_heap = true;
  elements_length_cur = 33;
  elements_length_max = 64;
  elements_length_max_log2 = 6;
  may_insert = true;
}

half_full_count : occupied half_full.elements 64 ≡ 33
half_full_count = refl

half_full-IsTable : IsTable 1 half_full
half_full-IsTable = record {
  sized = record { length = refl; log2_high = omega arith };
  log2_low = omega arith;
  used = omega (arith, half_full_count);
  counts = λ e. (omega (arith, half_full_count), omega (arith, half_full_count), omega (arith));
}

abbrev always : ℕ → Bool
always n = true

abbrev no_memory : Memory
no_memory a = 0

grow_hash_table_maybe_lem_example :
    (t' : HashTable) × (grow_hash_table_maybe [] no_memory 1 2654435769 128 always half_full
      ≡ some t')
    × IsTable 0 t'
    × ((e : Element) → e.object ≢ 0 → HasEntry half_full e ↔ HasEntry t' e)
grow_hash_table_maybe_lem_example =
    grow_hash_table_maybe_lem [] no_memory 1 2654435769 128 always half_full half_full-IsTable
      (omega arith) (omega arith)

grow_counts_twice_example :
    (t' : HashTable) × (grow_hash_table_maybe [] no_memory 1 2654435769 128 always half_full
      ≡ some t')
    × (t'.elements_length_max ≡ 64 * 2)
    × (occupied t'.elements t'.elements_length_max ≡ occupied half_full.elements 64)
    × (t'.elements_length_cur ≡ 33 + occupied half_full.elements 64)
grow_counts_twice_example =
    grow_counts_twice [] no_memory 1 2654435769 128 always half_full half_full-IsTable (omega arith)
      (omega arith) refl (omega arith) refl

-- A pair at 64, whose header has type index 0, and a table with nothing in it.
abbrev shared_mem : Memory
shared_mem a = if a == 56 then 1 else 0

fresh-IsTable : IsTable 0 (empty_table false 64 6)
fresh-IsTable = record {
  sized = record { length = refl; log2_high = omega arith };
  log2_low = omega arith;
  used = omega (arith, new_table_occupied);
  counts = λ e. (omega (arith, new_table_occupied), omega (arith, new_table_occupied), omega arith);
}
  where
    new_table_occupied : occupied (empty_table false 64 6).elements 64 ≡ 0
    new_table_occupied = refl

shared_split : split_header (pair_type ∷ []) (get_header shared_mem 64) ≡ some pair_type
unfolding split_header get_header load
shared_split = refl

pair_bytes : shared_bytes shared_mem 8 pair_type 64 ≡ 16
unfolding shared_bytes element_bytes
pair_bytes = refl

hash_cons_pointer_lem_example :
    (r : ℕ) × (table' : HashTable) × (saved : ℕ) × (hash_cons_pointer
        (pair_type ∷ [])
        shared_mem
        5
        2654435769
        8
        always
        64
        true
        (empty_table false 64 6)
        64
      ≡ some (r, table', saved))
    × IsTable 0 table'
    × ((r ≡ 64)
        ⊎ SameContent shared_mem pair_type 64 r (64 + shared_bytes shared_mem 8 pair_type 64))
hash_cons_pointer_lem_example =
    hash_cons_pointer_lem (pair_type ∷ []) shared_mem 5 2654435769 8 always 64 true
      (empty_table false 64 6) 64 fresh-IsTable (omega arith) (omega arith) (omega arith)
      shared_split (omega (arith, pair_bytes)) (omega (arith, pair_bytes))
