-- ===== src/MarkCompact/Threading.antt =====
-- Pointers that are threaded through a header are a chain that ends in the header.
use multi_mlton.Prelude.{
  ℕ, ◌+◌, ◌/◌, ◌%◌, ◌<◌, ◌≡◌, ◌∙◌, refl, ◌==◌, true, false, List, [], ◌∷◌, bit_and, arith,
}
use multi_mlton.Prelude.Bits.{bit_and_step, zero-bit_and}
use multi_mlton.Align.{size_mod, sub_size}
use multi_mlton.CardMap.{Memory}
use multi_mlton.Objptr.Laws.{objptr_to_pointer_native, pointer_to_objptr_native}
use multi_mlton.Object.{load, get_headerp}
use multi_mlton.ArrayAllocate.{store}
use multi_mlton.MarkCompact.{copy_for_thread_internal, thread_internal_objptr}
use multi_mlton.NewObject.Words.{
  Apart, ApartFromAll, Separate, Hold, Inside, Same, load_eight-lt, written, kept, Apart-sym,
}

-- From the word at a, the words xs lead one to the next, and the last of them holds h.
abbrev pub Chain : Memory → ℕ → ℕ → List ℕ → Type 0
Chain m a h [] = load 8 m a ≡ h
Chain m a h (x ∷ xs) = (load 8 m a ≡ x) × Chain m x h xs

pub Chain-Same :
    (m m' : Memory) (a b h : ℕ) (xs : List ℕ)
    → Chain m a h xs
    → load 8 m' b ≡ load 8 m a
    → Same m m' xs
    → Chain m' b h xs
Chain-Same m m' a b h [] c e same = e ∙ c
Chain-Same m m' a b h (x ∷ xs) c e same = (e ∙ c.0, Chain-Same m m' x x h xs c.1 same.0 same.1)

pub test_odd : (h : ℕ) → h % 2 ≡ 1 → (0 == bit_and 1 h) ≡ false
test_odd h odd =
    let e : bit_and 1 h ≡ 1 = omega (arith, bit_and_step 1 h, zero-bit_and (h / 2)) in rw e refl

pub test_even : (h : ℕ) → h % 2 ≡ 0 → (0 == bit_and 1 h) ≡ true
test_even h even =
    let e : bit_and 1 h ≡ 0 = omega (arith, bit_and_step 1 h, zero-bit_and (h / 2)) in rw e refl

-- Threading from the last of the list to the first.
abbrev pub thread_all : ℕ → Memory → List ℕ → Memory
thread_all start m [] = m
thread_all start m (x ∷ xs) = thread_internal_objptr start (thread_all start m xs) x

module _ (start headerp : ℕ) (fits : headerp + 8 < size_mod) where
  -- The two writes of one threading, in an object whose header is at headerp.
  thread_step :
      (m : Memory) (x : ℕ)
      → load 8 m x ≡ headerp + 8
      → x < size_mod
      → thread_internal_objptr start m x ≡ store 8 (store 8 m x (load 8 m headerp)) headerp x
  unfolding thread_internal_objptr copy_for_thread_internal get_headerp
  thread_step m x points lt =
      let back : sub_size (headerp + 8) 8 ≡ headerp = omega arith in
      rw
        (
          points,
          objptr_to_pointer_native (headerp + 8) start fits,
          pointer_to_objptr_native x start lt,
          back,
        )
        refl

  module _ (m : Memory) (x : ℕ) (points : load 8 m x ≡ headerp + 8) (inside : x + 8 < size_mod)
      (apart : Apart headerp x) where
    step_header : load 8 (thread_internal_objptr start m x) headerp ≡ x
    step_header =
        rw (thread_step m x points (omega arith))
          (written (store 8 m x (load 8 m headerp)) headerp x fits (omega arith))

    step_slot : load 8 (thread_internal_objptr start m x) x ≡ load 8 m headerp
    step_slot = rw (thread_step m x points (omega arith)) (
        kept (store 8 m x (load 8 m headerp)) headerp x fits x apart inside
        ∙ written m x (load 8 m headerp) inside (load_eight-lt m headerp))

    step_kept :
        (y : ℕ)
        → Apart headerp y
        → Apart x y
        → y + 8 < size_mod
        → load 8 (thread_internal_objptr start m x) y ≡ load 8 m y
    step_kept y a b lt = rw (thread_step m x points (omega arith)) (
        kept (store 8 m x (load 8 m headerp)) headerp x fits y a lt
        ∙ kept m x (load 8 m headerp) inside y b lt)

    step_Same :
        (ys : List ℕ)
        → ApartFromAll headerp ys
        → ApartFromAll x ys
        → Inside ys
        → Same m (thread_internal_objptr start m x) ys
    step_Same [] a b lt = tt
    step_Same (y ∷ ys) a b lt = (step_kept y a.0 b.0 lt.0, step_Same ys a.1 b.1 lt.1)

  pub thread_all_kept :
      (m : Memory) (xs : List ℕ)
      → Hold m (headerp + 8) xs
      → Inside xs
      → Separate (headerp ∷ xs)
      → (y : ℕ) → Apart headerp y
      → ApartFromAll y xs
      → y + 8 < size_mod
      → load 8 (thread_all start m xs) y ≡ load 8 m y
  thread_all_kept m [] hold lt sep y a b inside = refl
  thread_all_kept m (x ∷ xs) hold lt sep y a b inside =
      let before = thread_all_kept m xs hold.1 lt.1 (sep.0.1, sep.1.1) in
      step_kept (thread_all start m xs) x (before x sep.0.0 sep.1.0 lt.0 ∙ hold.0) lt.0 sep.0.0 y a
        (Apart-sym b.0) inside
      ∙ before y a b.1 inside

  -- Threaded, the words are a chain from the header to what the header was.
  pub thread_all-Chain :
      (m : Memory) (xs : List ℕ)
      → Hold m (headerp + 8) xs
      → Inside xs
      → Separate (headerp ∷ xs)
      → Chain (thread_all start m xs) headerp (load 8 m headerp) xs
  thread_all-Chain m [] hold lt sep = refl
  thread_all-Chain m (x ∷ xs) hold lt sep =
      let sep' : Separate (headerp ∷ xs) = (sep.0.1, sep.1.1) in
      let points = thread_all_kept m xs hold.1 lt.1 sep' x sep.0.0 sep.1.0 lt.0 ∙ hold.0 in
      (
        step_header (thread_all start m xs) x points lt.0 sep.0.0,
        Chain-Same (thread_all start m xs) (thread_internal_objptr start (thread_all start m xs) x)
            headerp x (load 8 m headerp) xs (thread_all-Chain m xs hold.1 lt.1 sep')
            (step_slot (thread_all start m xs) x points lt.0 sep.0.0)
            (step_Same (thread_all start m xs) x points lt.0 sep.0.0 xs sep.0.1 sep.1.0 lt.1),
      )
