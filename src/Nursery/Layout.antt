-- ===== src/Nursery/Layout.antt =====
-- What setGCStateCurrentLocalHeap asserts at its end, and when it dies.
use multi_mlton.Prelude.{
  le→leb, ℕ, ◌+◌, ◌-◌, ◌/◌, ◌≤◌, ◌<◌, ◌≡◌, ◌∙◌, refl, Bool, true, false, ◌&&◌, leb, if◌then◌else◌,
  none, some, Bool-cases, inl, inr, leb→le, arith,
}
use multi_mlton.Align.{
  size_mod, IsPow2, add_size, sub_size, mul_size, is_frontier_aligned, align_frontier,
  align_with_extra, align, is_aligned,
}
use multi_mlton.Align.Laws.{align_frontier_bounds, align_least, align_bounds, pow-le}
use multi_mlton.Heap.Types.{Heap, local_heap}
use multi_mlton.Heap.Predicates.{has_heap_bytes_free}
use multi_mlton.CardMap.{clear_card_map}
use multi_mlton.Nursery.{Mutator, place_nursery, set_gc_state_current_local_heap}

-- A heap of which `old` bytes are taken from its start on; both ends of the rest are aligned.
pub record Layable (alignment old : ℕ) (h : Heap) : Type 0 where
  pub pow : IsPow2 alignment
  pub inside : h.start + h.size + 8 + alignment ≤ size_mod
  pub taken : old ≤ h.size
  pub low_aligned : is_frontier_aligned alignment (h.start + old) ≡ true
  pub high_aligned : is_frontier_aligned alignment (h.start + h.size) ≡ true

-- What holds when the nursery has been laid out, as the assertions of the source say it.
pub record IsLaidOut (alignment old_gen_bytes nursery_bytes : ℕ) (s s' : Mutator) : Type 0 where
  pub aligned : is_frontier_aligned alignment s'.state.heap.nursery ≡ true
  pub above_old_gen :
      s.state.heap.start + s.state.heap.old_gen_size + old_gen_bytes ≤ s'.state.heap.nursery
  pub has_bytes : s'.state.frontier + nursery_bytes ≤ s'.state.limit_plus_slop
  pub ends : s'.state.limit_plus_slop ≡ s.state.heap.start + s.state.heap.size
  pub free : has_heap_bytes_free s'.state local_heap old_gen_bytes nursery_bytes ≡ true
  pub old_gen : s'.state.heap.old_gen_size ≡ s.state.heap.old_gen_size

-- Rounding up to an aligned frontier does not pass one.
align_frontier_least :
    (alignment p q : ℕ)
    → IsPow2 alignment
    → q + 8 + alignment ≤ size_mod
    → p ≤ q
    → is_frontier_aligned alignment q ≡ true
    → align_frontier alignment p ≤ q
unfolding align_frontier align_with_extra is_frontier_aligned
align_frontier_least alignment p q pow inside le al =
    let sum : add_size p 8 ≡ p + 8 = omega (arith, pow-le pow) in
    let sum' : add_size q 8 ≡ q + 8 = omega (arith, pow-le pow) in
    let al' : is_aligned (q + 8) alignment ≡ true = rw sum' at al in
    let least = align_least (p + 8) (q + 8) pow (omega arith) al' (omega arith) in
    let bounds = align_bounds (p + 8) pow (omega arith) in
    let back : sub_size (align (p + 8) alignment) 8 ≡ align (p + 8) alignment - 8 =
      omega (arith, least, bounds) in
    rw (sum, back) (omega (arith, least))

module _ (alignment old_gen_bytes nursery_bytes : ℕ) (s : Mutator)
    (w : Layable alignment (s.state.heap.old_gen_size + old_gen_bytes) s.state.heap) where
  placed_lem :
      (s₁ : Mutator) (m : ℕ) (can_minor : Bool)
      → s₁.state ≡ s.state
      → is_frontier_aligned alignment m ≡ true
      → s.state.heap.start + (s.state.heap.old_gen_size + old_gen_bytes) ≤ m
      → m + nursery_bytes ≤ s.state.heap.start + s.state.heap.size
      → IsLaidOut alignment old_gen_bytes nursery_bytes s (place_nursery m can_minor s₁)
  unfolding place_nursery has_heap_bytes_free
  placed_lem s₁ m can_minor same al above room =
      let end : add_size s.state.heap.start s.state.heap.size
          ≡ s.state.heap.start + s.state.heap.size =
        omega (arith, w.inside, pow-le w.pow) in
      let old : add_size s.state.heap.old_gen_size old_gen_bytes
          ≡ s.state.heap.old_gen_size + old_gen_bytes =
        omega (arith, w.inside, w.taken) in
      let empty : sub_size m m ≡ 0 = omega arith in
      let none_used : (k : ℕ) → mul_size k 0 ≡ 0 = λ k. omega arith in
      let total : add_size (s.state.heap.old_gen_size + old_gen_bytes) 0
          ≡ s.state.heap.old_gen_size + old_gen_bytes =
        omega (arith, w.inside, w.taken) in
      let bottom : add_size (add_size s.state.heap.start s.state.heap.old_gen_size) old_gen_bytes
          ≡ s.state.heap.start + (s.state.heap.old_gen_size + old_gen_bytes) =
        omega (arith, w.inside, w.taken) in
      let left : sub_size (s.state.heap.start + s.state.heap.size) m
          ≡ s.state.heap.start + s.state.heap.size - m =
        omega (arith, w.inside) in
      rw (same, end)
        (record {
          aligned = al;
          above_old_gen = omega arith;
          has_bytes = room;
          ends = refl;
          free =
              rw
                (
                  old,
                  empty,
                  none_used,
                  total,
                  bottom,
                  left,
                  le→leb (s.state.heap.old_gen_size + old_gen_bytes) s.state.heap.size w.taken,
                  le→leb (s.state.heap.start + (s.state.heap.old_gen_size + old_gen_bytes)) m above,
                  le→leb nursery_bytes (s.state.heap.start + s.state.heap.size - m) (omega arith),
                )
                refl;
          old_gen = refl;
        })

  abbrev lps : ℕ
  lps = s.state.heap.start + s.state.heap.size

  abbrev free_bytes : ℕ
  free_bytes = s.state.heap.size - (s.state.heap.old_gen_size + old_gen_bytes)

  abbrev gen_nursery : ℕ
  gen_nursery = align_frontier alignment (lps - free_bytes / 2)

  -- The generational nursery starts in the free part, on an aligned address.
  gen_nursery_bounds :
      (is_frontier_aligned alignment gen_nursery ≡ true)
      × (s.state.heap.start + (s.state.heap.old_gen_size + old_gen_bytes) ≤ gen_nursery)
      × (gen_nursery ≤ lps)
  gen_nursery_bounds =
      let b =
        align_frontier_bounds alignment (lps - free_bytes / 2) w.pow (omega (arith, w.inside)) in
      let top =
        align_frontier_least alignment (lps - free_bytes / 2) lps w.pow (w.inside) (omega arith)
          w.high_aligned in
      (b.0, omega (arith, b, w.taken), top)

  -- The function with its words read as numbers.
  set_local_eq :
      (marks : Bool) (worth : ℕ → Bool) (reason : Bool)
      → set_gc_state_current_local_heap alignment marks worth reason old_gen_bytes nursery_bytes s
        ≡ (if marks && leb nursery_bytes (lps - gen_nursery) && worth free_bytes && reason
            then some
                (place_nursery gen_nursery true (record s { mem = clear_card_map s.maps s.mem }))
            else (if leb nursery_bytes free_bytes
                then some (
                    place_nursery
                      (s.state.heap.start + (s.state.heap.old_gen_size + old_gen_bytes))
                      false
                      s)
                else none))
  unfolding set_gc_state_current_local_heap
  set_local_eq marks worth reason =
      let b = gen_nursery_bounds in
      let end : add_size s.state.heap.start s.state.heap.size ≡ lps =
        omega (arith, w.inside, pow-le w.pow) in
      let old : add_size s.state.heap.old_gen_size old_gen_bytes
          ≡ s.state.heap.old_gen_size + old_gen_bytes =
        omega (arith, w.inside, w.taken) in
      let left : sub_size s.state.heap.size (s.state.heap.old_gen_size + old_gen_bytes)
          ≡ free_bytes =
        omega (arith, w.inside, w.taken) in
      let half : sub_size lps (free_bytes / 2) ≡ lps - free_bytes / 2 =
        omega (arith, w.inside, w.taken) in
      let low : sub_size lps free_bytes
          ≡ s.state.heap.start + (s.state.heap.old_gen_size + old_gen_bytes) =
        omega (arith, w.inside, w.taken) in
      let gen : sub_size lps gen_nursery ≡ lps - gen_nursery = omega (arith, w.inside, b) in
      rw (end, old, left, half, low, gen) refl

  -- For a heap whose old generation and the bytes requested there end, like the heap itself, on an
  -- aligned frontier (Layable), and whatever the two conditions on ratios say: if the nursery bytes
  -- requested fit in what is left, setGCStateCurrentLocalHeap gives an aligned nursery above the
  -- old generation with room for them, in a state for which hasHeapBytesFree says so; and if they
  -- do not fit, it dies.
  pub set_gc_state_current_local_heap_lem :
      (marks : Bool) (worth : ℕ → Bool) (reason : Bool)
      → (nursery_bytes ≤ s.state.heap.size - (s.state.heap.old_gen_size + old_gen_bytes)
          → (s' : Mutator) × (set_gc_state_current_local_heap alignment marks worth reason
                old_gen_bytes nursery_bytes s
              ≡ some s')
            × IsLaidOut alignment old_gen_bytes nursery_bytes s s')
        × (s.state.heap.size - (s.state.heap.old_gen_size + old_gen_bytes) < nursery_bytes
            → set_gc_state_current_local_heap alignment marks worth reason old_gen_bytes
                nursery_bytes s
              ≡ none)
  set_gc_state_current_local_heap_lem marks worth reason =
      let b = gen_nursery_bounds in
      let eq = set_local_eq marks worth reason in
      elim (Bool-cases
        (marks && leb nursery_bytes (lps - gen_nursery) && worth free_bytes && reason)) [
          | inl y ↦
              (let fits = leb→le _ _ (second marks _ _ reason y) in
                (
                  λ le. (
                    place_nursery gen_nursery true (record s { mem = clear_card_map s.maps s.mem }),
                    eq ∙ rw y refl,
                    placed_lem (record s { mem = clear_card_map s.maps s.mem }) gen_nursery true
                        refl b.0 b.1 (omega (arith, b, fits)),
                  ),
                  λ lt. absurd (omega (arith, b, fits, w.taken)),
                ))
          | inr n ↦ (
            λ le. (
              place_nursery (s.state.heap.start + (s.state.heap.old_gen_size + old_gen_bytes)) false
                  s,
              eq ∙ rw (n, le→leb nursery_bytes free_bytes le) refl,
              placed_lem s (s.state.heap.start + (s.state.heap.old_gen_size + old_gen_bytes)) false
                  refl w.low_aligned (omega arith) (omega (arith, w.taken)),
            ),
            λ lt.
                (let over : leb nursery_bytes free_bytes ≡ false = ground arith in
                  eq ∙ rw (n, over) refl),
          )
        ]
    where
      second : (a c d e : Bool) → (a && c && d && e) ≡ true → c ≡ true
      second true true d e h = refl
      second true false d e h = absurd (cc)
      second false c d e h = absurd (cc)
