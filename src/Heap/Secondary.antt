-- ===== src/Heap/Secondary.antt =====
-- Resizing a secondary heap (runtime/gc/heap.c, resizeLocalHeapSecondary and
-- resizeSharedHeapSecondary).
use multi_mlton.Prelude.{
  ℕ, ◌+◌, ◌≤◌, ◌<◌, ◌≡◌, ◌⊎◌, inl, inr, refl, subst, Bool, true, false, Option, none, some, ltb,
  ◌==◌, if◌then◌else◌, arith, Bool-cases,
}
use multi_mlton.Align.{size_mod, mul_size, is_aligned, align}
use multi_mlton.Align.Laws.{align_self}
use multi_mlton.Heap.Types.{Heap, Os, Platform, Statistics, init_heap}
use multi_mlton.Heap.Alloc.{with_maps, remap_heap}
use multi_mlton.Heap.Create.{Created, success, failure, Sizes, remap_heap_lem}
use multi_mlton.Heap.Shrink.{release_heap, shrink_heap, resize_heap_secondary}
use multi_mlton.Heap.Copying.{shrink_heap_lem}

module _ (os : Os) (pf : Platform) where
  -- A returned pair, with the heap's size read off.
  abbrev Answer : Heap → ℕ → Option (Bool × Heap × Statistics) → Type 0
  Answer h size r =
      (ok : Bool) × (h' : Heap) × (stats : Statistics) × (r ≡ some (ok, h', stats))
      × (((ok ≡ true) × (h'.size ≡ size)) ⊎ ((ok ≡ false) × (h' ≡ h)))

  Created-Answer :
      (try : os.State → ℕ → Option ℕ × os.State) (h : Heap) (size : ℕ)
      (r : Option (Bool × Heap × Statistics))
      → Created os pf try h size size r
      → Answer h size r
  Created-Answer try h size _ (success st st' start n stats e lo hi w) =
      (true, _, stats, refl, inl (refl, omega arith))
  Created-Answer try h size _ (failure st st' stats e) = (false, h, stats, refl, inr (refl, refl))

  remap_heap-Answer :
      (st : os.State) (is_shared : Bool) (h : Heap) (stats : Statistics) (size : ℕ)
      → Sizes pf.page_size size size
      → align size pf.page_size ≡ size
      → Answer h size (remap_heap os pf 32 st is_shared h stats size size).0
  unfolding remap_heap
  remap_heap-Answer st is_shared h stats size z e = elim (Bool-cases (pf.has_remap)) [
    | inl has ↦
        Created-Answer (λ t n. os.mremap t h.start (with_maps os pf h.size) (with_maps os pf n)) h
          size _
          (subst
            (λ k.
              Created os pf
                (λ t n. os.mremap t h.start (with_maps os pf h.size) (with_maps os pf n)) h k k
                (remap_heap os pf 32 st is_shared h stats size size).0)
            e (remap_heap_lem os pf st is_shared h stats size size has z))
    | inr no_remap ↦ (false, h, stats, simp no_remap, inr (refl, refl))
  ]

  released_size :
      (st : os.State) (h : Heap) → (h.start ≡ 0 → h.size ≡ 0) → (release_heap os pf st h).0.size ≡ 0
  unfolding release_heap init_heap
  released_size st h wf = ground (arith, wf)

  -- The end of the branch that grows the secondary heap by mremap.
  abbrev after_remap :
      Option (Bool × Heap × Statistics) → os.State → Option (Heap × Statistics) × os.State
  after_remap r st = elim r [
    | none ↦ (none, st)
    | some (done, h, stats) ↦
        (let gone = release_heap os pf st h in
          if done then (some (h, stats), st) else (some (gone.0, stats), gone.1))
  ]

  remapped_end :
      (st : os.State) (is_shared : Bool) (h : Heap) (stats : Statistics) (size : ℕ)
      → (h.start ≡ 0 → h.size ≡ 0)
      → Answer h size (remap_heap os pf 32 st is_shared h stats size size).0
      → (h' : Heap) × (stats' : Statistics) × ((after_remap
            (remap_heap os pf 32 st is_shared h stats size size).0
            (remap_heap os pf 32 st is_shared h stats size size).1).0
          ≡ some (h', stats'))
        × ((h'.size ≡ 0) ⊎ (h'.size ≡ size))
  remapped_end st is_shared h stats size wf (ok, h', stats', e, inl (yes_ok, sized)) =
      (h', stats', rw (e, yes_ok), inr sized)
  remapped_end st is_shared h stats size wf (ok, h', stats', e, inr (not_ok, same)) =
      let t = (remap_heap os pf 32 st is_shared h stats size size).1 in
      ((release_heap os pf t h').0, stats', rw (e, not_ok), inl (rw same (released_size t h wf)))

  -- With a primary size in whole pages that is not 0 and leaves room for rounding, and a secondary
  -- heap of whole pages that has size 0 if it has no memory, resizing the secondary heap ends
  -- within 32 rounds, and the heap is gone or as large as the primary one, whatever the system
  -- answers.
  pub resize_heap_secondary_lem :
      (st : os.State) (is_shared : Bool) (ram primary_size : ℕ) (h : Heap) (stats : Statistics)
      → Sizes pf.page_size primary_size primary_size
      → is_aligned primary_size pf.page_size ≡ true
      → is_aligned h.size pf.page_size ≡ true
      → h.size + pf.page_size ≤ size_mod
      → (h.start ≡ 0 → h.size ≡ 0)
      → 0 < primary_size
      → (h' : Heap) × (stats' : Statistics) × ((resize_heap_secondary os pf 32 st is_shared ram
            primary_size h stats).0
          ≡ some (h', stats'))
        × ((h'.size ≡ 0) ⊎ (h'.size ≡ primary_size))
  unfolding resize_heap_secondary
  resize_heap_secondary_lem st is_shared ram size h stats z al alh fits wf pos =
      elim (Bool-cases (0 == h.size)) [
        | inl e0 ↦ (h, stats, rw e0, inl (ground arith))
        | inr e0 ↦ elim (Bool-cases (ltb ram (mul_size 2 size))) [
          | inl e1 ↦ ((release_heap os pf st h).0, stats, rw (e0, e1), inl (released_size st h wf))
          | inr e1 ↦ elim (Bool-cases (ltb h.size size)) [
            | inl e2 ↦
                let (h', stats', e, out) =
                  remapped_end st is_shared h stats size wf
                    (remap_heap-Answer st is_shared h stats size z same) in
                (h', stats', rw (e0, e1, e2) e, out)
            | inr e2 ↦ elim (Bool-cases (ltb size h.size)) [
              | inl e3 ↦
                  let s =
                    shrink_heap_lem os pf st h size z.page_pow2 z.fits alh fits pos
                      (ground arith) in
                  (
                    (shrink_heap os pf st h size).0,
                    stats,
                    rw (e0, e1, e2, e3),
                    inr (omega (arith, s, same)),
                  )
              | inr e3 ↦ (h, stats, rw (e0, e1, e2, e3), inr (ground arith))
            ]
          ]
        ]
      ]
    where
      same : align size pf.page_size ≡ size
      same = align_self size z.page_pow2 z.fits al
