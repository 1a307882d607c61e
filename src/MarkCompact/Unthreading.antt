-- ===== src/MarkCompact/Unthreading.antt =====
-- The loop that unthreads a chain gives each of its words the new address, and the object its header.
use multi_mlton.Prelude.{
  ℕ, zero, suc, ◌+◌, ◌%◌, ◌<◌, ◌≤◌, ◌≡◌, ◌∙◌, refl, sym, subst, ◌==◌, if◌then◌else◌, List, [], ◌∷◌,
  some, length, bit_and, arith,
}
use multi_mlton.Align.{size_mod}
use multi_mlton.CardMap.{Memory}
use multi_mlton.Objptr.{native64, objptr_to_pointer}
use multi_mlton.Objptr.Laws.{objptr_to_pointer_native}
use multi_mlton.Object.{load, get_header, get_headerp}
use multi_mlton.ArrayAllocate.{store}
use multi_mlton.MarkCompact.{copy_for_thread_internal, unthread}
use multi_mlton.NewObject.Words.{
  Apart, ApartFromAll, Separate, Hold, Inside, Even, Same, load_eight-lt, written, kept, Apart-sym,
}
use multi_mlton.MarkCompact.Threading.{
  Chain, Chain-Same, test_odd, test_even, thread_all, thread_all_kept, thread_all-Chain,
}

-- One round of the loop that unthreads: the slot at the head of the chain gets the new pointer, and
-- the header what the slot held.
module _ (start headerp new_objptr : ℕ) (fits : headerp + 8 < size_mod)
    (short : new_objptr < size_mod) where
  abbrev turn : Memory → ℕ → Memory
  turn m x = store 8 (store 8 m headerp (load 8 m x)) x new_objptr

  unthread_step :
      (fuel : ℕ) (m : Memory) (x h : ℕ)
      → load 8 m headerp ≡ x
      → x < size_mod
      → load 8 (turn m x) headerp ≡ h
      → unthread (suc fuel) start new_objptr m headerp ≡ (
          if 0 == bit_and 1 h
          then unthread fuel start new_objptr (turn m x) headerp
          else some (h, turn m x))
  unfolding unthread copy_for_thread_internal
  unthread_step fuel m x h e lt e' =
      let at : objptr_to_pointer native64 (load 8 m headerp) start ≡ x =
        rw e (objptr_to_pointer_native x start lt) in
      rw (at, e') refl

  module _ (m : Memory) (x : ℕ) (inside : x + 8 < size_mod) (apart : Apart headerp x) where
    turn_header : load 8 (turn m x) headerp ≡ load 8 m x
    turn_header =
        kept (store 8 m headerp (load 8 m x)) x new_objptr inside headerp (Apart-sym apart) fits
        ∙ written m headerp (load 8 m x) fits (load_eight-lt m x)

    turn_slot : load 8 (turn m x) x ≡ new_objptr
    turn_slot = written (store 8 m headerp (load 8 m x)) x new_objptr inside short

    turn_kept :
        (y : ℕ) → Apart headerp y → Apart x y → y + 8 < size_mod → load 8 (turn m x) y ≡ load 8 m y
    turn_kept y a b lt =
        kept (store 8 m headerp (load 8 m x)) x new_objptr inside y b lt
        ∙ kept m headerp (load 8 m x) fits y a lt

    turn_Same :
        (ys : List ℕ)
        → ApartFromAll headerp ys
        → ApartFromAll x ys
        → Inside ys
        → Same m (turn m x) ys
    turn_Same [] a b lt = tt
    turn_Same (y ∷ ys) a b lt = (turn_kept y a.0 b.0 lt.0, turn_Same ys a.1 b.1 lt.1)

  -- What the loop leaves: the header, the new pointer in every slot, and all other words.
  pub record Unthreaded (m : Memory) (h : ℕ) (xs : List ℕ) (m' : Memory) : Type 0 where
    pub header : load 8 m' headerp ≡ h
    pub slots : Hold m' new_objptr xs
    pub others :
        (y : ℕ) → Apart headerp y → ApartFromAll y xs → y + 8 < size_mod → load 8 m' y ≡ load 8 m y

  Unthreaded-turn :
      (m : Memory) (h x : ℕ) (xs : List ℕ) {m' : Memory}
      → x + 8 < size_mod
      → Separate (headerp ∷ x ∷ xs)
      → Unthreaded (turn m x) h xs m'
      → Unthreaded m h (x ∷ xs) m'
  Unthreaded-turn m h x xs inside sep u = record {
    header = u.header;
    slots = (u.others x sep.0.0 sep.1.0 inside ∙ turn_slot m x inside sep.0.0, u.slots);
    others = λ y a b lt. u.others y a b.1 lt ∙ turn_kept m x inside sep.0.0 y a (Apart-sym b.0) lt;
  }

  Unthreaded-none : (m : Memory) (h : ℕ) → load 8 m headerp ≡ h → Unthreaded m h [] m
  Unthreaded-none m h e = record { header = e; slots = tt; others = λ y a b lt. refl }

  module _ (h : ℕ) (odd : h % 2 ≡ 1) where
    pub unthread-Chain :
        (fuel : ℕ) (m : Memory) (x : ℕ) (xs : List ℕ)
        → Chain m headerp h (x ∷ xs)
        → Inside (x ∷ xs)
        → Even (x ∷ xs)
        → Separate (headerp ∷ x ∷ xs)
        → length xs < fuel
        → (m' : Memory) × (unthread fuel start new_objptr m headerp ≡ some (h, m'))
          × Unthreaded m h (x ∷ xs) m'
    unthread-Chain zero m x xs c lt even sep enough = absurd (omega arith)
    unthread-Chain (suc fuel) m x [] c lt even sep enough =
        let now = turn_header m x lt.0 sep.0.0 ∙ c.1 in
        let step = unthread_step fuel m x h c.0 (omega (arith, lt)) now in
        (
          turn m x,
          step ∙ rw (test_odd h odd) refl,
          Unthreaded-turn m h x [] lt.0 sep (Unthreaded-none (turn m x) h now),
        )
    unthread-Chain (suc fuel) m x (z ∷ xs) c lt even sep enough =
        let now = turn_header m x lt.0 sep.0.0 ∙ c.1.0 in
        let step = unthread_step fuel m x z c.0 (omega (arith, lt)) now in
        let same = turn_Same m x lt.0 sep.0.0 (z ∷ xs) sep.0.1 sep.1.0 lt.1 in
        let c' =
          Chain-Same m (turn m x) x headerp h (z ∷ xs) c.1 (turn_header m x lt.0 sep.0.0) same in
        let (m', done, u) =
          unthread-Chain fuel (turn m x) z xs c' lt.1 even.1 (sep.0.1, sep.1.1) (omega arith) in
        (m', step ∙ rw (test_even z even.1.0) done, Unthreaded-turn m h x (z ∷ xs) lt.0 sep u)

get_headerp_lem : (p : ℕ) → 8 ≤ p → p < size_mod → get_headerp p + 8 ≡ p
unfolding get_headerp
get_headerp_lem p low lt = omega arith

-- For an object whose header is odd, and one or more slots that hold its address, at even
-- addresses, which neither overlap each other nor the header nor reach the last 8 bytes of the
-- address space: after threadInternalObjptr has been applied to each of them, the loop of
-- updateForwardPointersForMarkCompact ends within as many rounds as there are slots, finds the old
-- header and leaves it in its place, gives every slot the new pointer, and leaves every other word
-- as it was before the threading.
pub unthread-thread_all :
    (fuel start p new_objptr : ℕ) (m : Memory) (x : ℕ) (xs : List ℕ)
    → 8 ≤ p
    → p < size_mod
    → new_objptr < size_mod
    → get_header m p % 2 ≡ 1
    → Hold m p (x ∷ xs)
    → Inside (x ∷ xs)
    → Even (x ∷ xs)
    → Separate (get_headerp p ∷ x ∷ xs)
    → length xs < fuel
    → (m' : Memory) × (unthread fuel start new_objptr (thread_all start m (x ∷ xs)) (get_headerp p)
        ≡ some (get_header m p, m'))
      × (get_header m' p ≡ get_header m p)
      × Hold m' new_objptr (x ∷ xs)
      × ((y : ℕ)
          → Apart (get_headerp p) y
          → ApartFromAll y (x ∷ xs)
          → y + 8 < size_mod
          → load 8 m' y ≡ load 8 m y)
unfolding get_header
unthread-thread_all fuel start p new_objptr m x xs low lt short odd hold inside even sep enough =
    let at : get_headerp p + 8 ≡ p = get_headerp_lem p low lt in
    let fits : get_headerp p + 8 < size_mod = rw at lt in
    let hold' : Hold m (get_headerp p + 8) (x ∷ xs) =
      subst (λ t. Hold m t (x ∷ xs)) (sym at) hold in
    let c = thread_all-Chain start (get_headerp p) fits m (x ∷ xs) hold' inside sep in
    let r =
      unthread-Chain start (get_headerp p) new_objptr fits short (get_header m p) odd fuel
        (thread_all start m (x ∷ xs)) x xs c inside even sep enough in
    (
      r.0,
      r.1,
      r.2.header,
      r.2.slots,
      λ y a b ly.
          r.2.others y a b ly
          ∙ thread_all_kept start (get_headerp p) fits m (x ∷ xs) hold' inside sep y a b ly,
    )
