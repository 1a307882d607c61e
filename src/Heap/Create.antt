-- ===== src/Heap/Create.antt =====
-- What createHeap and remapHeap return.
use multi_mlton.Prelude.{
  ℕ, ◌+◌, ◌*◌, ◌/◌, ◌%◌, ◌≤◌, ◌<◌, ◌≡◌, Bool, true, false, Option, none, some, ltb, if◌then◌else◌,
  arith, ◌==◌,
}
use multi_mlton.Align.{size_mod, sub_size, IsPow2, is_aligned, align}
use multi_mlton.Align.Laws.{align_bounds, align_mono, pow-le, mod_of_is_aligned}
use multi_mlton.Heap.Types.{Heap, Os, Platform, Statistics}
use multi_mlton.Heap.Alloc.{
  Outcome, retry, backoff_of, with_maps, probe, placed, settle, create_heap, remap_heap,
}
use multi_mlton.Heap.Retry.{Ending, granted, refused, IsSafe, InRange, retry-Ending}

-- A heap of the size that was granted, in place of `h`.
abbrev pub placed_heap : (os : Os) (pf : Platform) → Heap → ℕ → ℕ → Heap
placed_heap os pf h start size = record h {
  start = start;
  size = size;
  with_maps_size = with_maps os pf size;
}

-- What the functions may return: TRUE and the heap at an address that the system gave for its size
-- with the maps; or FALSE and the heap as it was, the least size having been refused.
pub data Created (os : Os) (pf : Platform) (try : os.State → ℕ → Option ℕ × os.State) (h : Heap)
    (least most : ℕ) : Option (Bool × Heap × Statistics) → Type 0 where
  success :
      (st st' : os.State) (start size : ℕ) (stats : Statistics)
      → try st size ≡ (some start, st')
      → least ≤ size
      → size ≤ most
      → size % pf.page_size ≡ 0
      → Created os pf try h least most (some (true, placed_heap os pf h start size, stats))
  failure :
      (st st' : os.State) (stats : Statistics)
      → try st least ≡ (none, st')
      → Created os pf try h least most (some (false, h, stats))

settle-Created :
    (os : Os) (pf : Platform) (try : os.State → ℕ → Option ℕ × os.State) (is_shared : Bool)
    (h : Heap) (stats : Statistics) (backoff least most : ℕ) (outcome : Outcome)
    → Ending try backoff least most pf.page_size outcome
    → Created os pf try h least most (settle os pf is_shared h stats outcome)
unfolding placed
settle-Created os pf try is_shared h stats backoff least most _
      (granted st st' start size e lo hi w) =
    success st st' start size _ e lo hi w
settle-Created os pf try is_shared h stats backoff least most _ (refused st st' e) =
    failure st st' stats e

module _ (page desired least : ℕ) (w : IsPow2 page) (le : least ≤ desired)
    (fits : desired + page ≤ size_mod) where
  sixteenth : ℕ
  sixteenth = sub_size desired least / 16

  unit : ℕ
  unfolding sixteenth
  unit = if 0 == sixteenth then 1 else sixteenth

  -- The step is made of whole pages, and 31 of them cover the distance.
  pub backoff_bounds :
      (is_aligned (backoff_of page desired least) page ≡ true)
      × (0 < backoff_of page desired least)
      × (desired ≤ least + 31 * backoff_of page desired least)
  unfolding backoff_of unit
  backoff_bounds =
      let b = align_bounds unit w (ground (arith, pow-le w)) in
      (b.0, ground (arith, b), ground (arith, b))

-- The arguments of createHeap, as far as the loop depends on them: the sizes leave room for
-- rounding, and the step that the code computes from them is not above the least size.
pub record Sizes (page desired_size min_size : ℕ) : Type 0 where
  pub page_pow2 : IsPow2 page
  pub room : align desired_size page + page ≤ size_mod
  pub fits : desired_size + page ≤ size_mod
  pub ordered : min_size ≤ desired_size
  pub step : backoff_of page (align desired_size page) (align min_size page) ≤ align min_size page

-- `if (desiredSize < minSize) desiredSize = minSize;`
abbrev pub clipped : ℕ → ℕ → ℕ
clipped desired_size min_size = if ltb desired_size min_size then min_size else desired_size

module _ (page desired_size min_size : ℕ) (z : Sizes page desired_size min_size) where
  most : ℕ
  most = align desired_size page

  least : ℕ
  least = align min_size page

  ordered : least ≤ most
  unfolding least most
  ordered = align_mono min_size desired_size z.page_pow2 z.ordered z.fits

  covered :
      (is_aligned (backoff_of page most least) page ≡ true)
      × (0 < backoff_of page most least)
      × (most ≤ least + 31 * backoff_of page most least)
  unfolding most
  covered = backoff_bounds page most least z.page_pow2 ordered z.room

  safe : IsSafe (backoff_of page most least) least most page
  unfolding most least
  safe = record {
    step_pos = covered.1;
    step_le = z.step;
    fits = omega (arith, z, pow-le z.page_pow2);
    whole_least = mod_of_is_aligned _ page (align_bounds min_size z.page_pow2 (omega (arith, z))).0;
    whole_step = mod_of_is_aligned _ page covered.0;
  }

  in_range : InRange least most page most
  unfolding most
  in_range = record {
    low = ordered;
    high = omega arith;
    whole = mod_of_is_aligned _ page (align_bounds desired_size z.page_pow2 z.fits).0;
  }

module _ (os : Os) (pf : Platform) (st : os.State) (is_shared : Bool) (h : Heap)
    (stats : Statistics) where
  -- Either loop, with the step of the code and fuel for 32 rounds.
  loop_Created :
      (try : os.State → ℕ → Option ℕ × os.State) (desired_size min_size : ℕ)
      → Sizes pf.page_size desired_size min_size
      → let d = align desired_size pf.page_size in
        let m = align min_size pf.page_size in
        Created os pf try h m d
          (settle os pf is_shared h stats (retry try (backoff_of pf.page_size d m) m 32 st d).0)
  unfolding most least
  loop_Created try desired_size min_size z = settle-Created os pf try is_shared h stats _ _ _ _ (
      retry-Ending try _ _ _ pf.page_size 31 st (align desired_size pf.page_size)
        (safe pf.page_size desired_size min_size z) (in_range pf.page_size desired_size min_size z)
        (covered pf.page_size desired_size min_size z).2)

  -- With sizes that leave room for rounding and a step that is not above the least size (Sizes),
  -- createHeap ends within 32 sizes, whatever the system answers: it gives a heap of whole pages
  -- between the least and the desired size, or leaves the heap as it was after the system refused
  -- the least size.
  pub create_heap_lem :
      (desired_size min_size : ℕ)
      → Sizes pf.page_size (clipped desired_size min_size) min_size
      → Created os pf
          (probe os pf 32 1)
          h
          (align min_size pf.page_size)
          (align (clipped desired_size min_size) pf.page_size)
          (create_heap os pf 32 st is_shared h stats desired_size min_size).0
  unfolding create_heap
  create_heap_lem desired_size min_size z =
      loop_Created (probe os pf 32 1) (clipped desired_size min_size) min_size z

  -- On a platform with mremap, and with sizes that leave room for rounding and a step that is not
  -- above the least size (Sizes), remapHeap ends within 32 sizes, whatever the system answers: it
  -- gives a heap of whole pages between the least and the desired size, or leaves the heap as it
  -- was after the system refused the least size.
  pub remap_heap_lem :
      (desired_size min_size : ℕ)
      → pf.has_remap ≡ true
      → Sizes pf.page_size desired_size min_size
      → Created os pf
          (λ t size. os.mremap t h.start (with_maps os pf h.size) (with_maps os pf size))
          h
          (align min_size pf.page_size)
          (align desired_size pf.page_size)
          (remap_heap os pf 32 st is_shared h stats desired_size min_size).0
  unfolding remap_heap
  remap_heap_lem desired_size min_size has z = simp has (
      loop_Created (λ t size. os.mremap t h.start (with_maps os pf h.size) (with_maps os pf size))
        desired_size min_size z)
