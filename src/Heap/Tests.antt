-- ===== src/Heap/Tests.antt =====
-- Heaps in pages of 4096 bytes, over systems that grant a request up to a size, and in a place of
-- their own.
use multi_mlton.Prelude.{
  ℕ, ◌+◌, ◌≡◌, refl, Bool, true, false, Option, none, some, List, leb, if◌then◌else◌, arith,
}
use multi_mlton.Align.{IsPow2, align}
use multi_mlton.CardMap.{sizeof_card_map_and_cross_map}
use multi_mlton.Heap.Types.{local_heap, Heap, Os, Platform, Statistics}
use multi_mlton.Heap.Alloc.{out_of_fuel, next_size, retry, backoff_of, probe, placed, create_heap}
use multi_mlton.Heap.Create.{Created, Sizes, create_heap_lem}
use multi_mlton.Heap.Runaway.{retry_runaway}
use multi_mlton.Heap.Shrink.{Move, copy_down}
use multi_mlton.Heap.Copying.{Covers, copy_down-Covers}

abbrev limited : ℕ → Os
limited n = record {
  State = ℕ;
  mmap_anon = λ st a size. (if leb size n then some 0x10000 else none, st + 1);
  mremap = λ st a old size. (if leb size n then some 0x20000 else none, st + 1);
  munmap = λ st a size. st + 1;
}

abbrev pages : Platform
pages = record { marks_cards = false; page_size = 4096; address_bits = 48; has_remap = true }

abbrev no_stats : Statistics
no_stats = record { max_heap_size = 0; max_shared_heap_size = 0 }

abbrev fresh : Heap
fresh = record {
  kind = local_heap;
  nursery = 0;
  old_gen_size = 0;
  size = 0;
  start = 0;
  with_maps_size = 0;
  available_size = 0;
  frontier = 0;
}

abbrev used : Heap
used = record fresh {
  size = 0x8000;
  start = 0x10000;
  with_maps_size = 0x8000;
  old_gen_size = 0x2000;
}

page-IsPow2 : IsPow2 4096
page-IsPow2 = (12, refl, omega arith)

sizes : Sizes 4096 0x40000 0x10000
unfolding align backoff_of
sizes = record {
  page_pow2 = page-IsPow2;
  room = omega arith;
  fits = omega arith;
  ordered = omega arith;
  step = omega arith;
}

created_size : Option (Bool × Heap × Statistics) → ℕ
created_size none = 0
created_size (some (ok, h, stats)) = h.size

-- The system grants 0x30000 bytes; 0x40000 is asked for first, and the step is 0x3000.
create_heap_backs_off :
    created_size (create_heap (limited 0x30000) pages 32 0 false fresh no_stats 0x40000 0x10000).0
    ≡ 0x2e000
unfolding create_heap created_size retry backoff_of next_size probe align
    sizeof_card_map_and_cross_map placed
create_heap_backs_off = refl

create_heap_lem_example :
    Created
      (limited 0x30000)
      pages
      (probe (limited 0x30000) pages 32 1)
      fresh
      (align 0x10000 4096)
      (align 0x40000 4096)
      (create_heap (limited 0x30000) pages 32 0 false fresh no_stats 0x40000 0x10000).0
create_heap_lem_example =
    create_heap_lem (limited 0x30000) pages 0 false fresh no_stats 0x40000 0x10000 sizes

-- A megabyte is wanted and a page would do, but nothing is granted: after a thousand million rounds
-- the loop still runs.
retry_runaway_example :
    (retry {State = ℕ} (λ st size. (none, st)) 0x10000 0x1000 1000000000 0 0x100000).0 ≡ out_of_fuel
retry_runaway_example =
    retry_runaway (λ st size. (none, st)) 0x10000 0x1000 (λ st size. refl) 1000000000 0 0x100000
      (omega arith) (omega arith) (omega arith) (omega arith)

abbrev large : Heap
large = record used { size = 0x5000000; with_maps_size = 0x5000000; old_gen_size = 0x5000000 }

copy_down-Covers_example :
    (moves : List Move) × (h' : Heap) × (st' : ℕ) × (copy_down
        (limited 0)
        pages
        3
        0
        large
        0x20000000
        0x5010000
        0x25000000
        0x5000000
      ≡ some (moves, h', st'))
    × Covers 0x10000 0x20000000 moves 0x5000000
    × (h'.start ≡ 0)
copy_down-Covers_example =
    copy_down-Covers (limited 0) pages 3 0 large 0x10000 0x20000000 0x5010000 0x25000000 0x5000000
      page-IsPow2 (omega arith) (λ low. (refl, omega arith)) (omega arith) (omega arith)
      (omega arith) (omega arith) (omega arith)

same-Sizes : Sizes 4096 0x20000 0x20000
unfolding align backoff_of
same-Sizes = record {
  page_pow2 = page-IsPow2;
  room = omega arith;
  fits = omega arith;
  ordered = omega arith;
  step = omega arith;
}
