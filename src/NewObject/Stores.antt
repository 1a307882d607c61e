-- ===== src/NewObject/Stores.antt =====
-- Words in memory: what is written is read back, and nothing else changes.
use multi_mlton.Prelude.{
  ℕ, zero, suc, ◌+◌, ◌-◌, ◌/◌, ◌^◌, ◌≤◌, ◌<◌, ◌≡◌, refl, ◌==◌, arith, ◌⊎◌, inl, inr, false, true,
}
use native.Mathlib.Nat.{pow-suc, div-lt_iff_lt-mul}
use multi_mlton.Align.{size_mod, add_size, sub_size}
use multi_mlton.CardMap.{Memory}
use multi_mlton.Object.{load, get_header, get_headerp}
use multi_mlton.ArrayAllocate.{store}

pub load_same :
    (n : ℕ) (m m' : Memory) (q : ℕ)
    → q + n < size_mod
    → ((a : ℕ) → q ≤ a → a < q + n → m a ≡ m' a)
    → load n m q ≡ load n m' q
unfolding load
load_same zero m m' q fits same = refl
load_same (suc n) m m' q fits same =
    let next : add_size q 1 ≡ q + 1 = omega arith in
    let rest =
      load_same n m m' (q + 1) (omega arith) (λ a le lt. same a (omega arith) (omega arith)) in
    rw (next, rest, same q (omega arith) (omega arith)) refl

pub store_outside :
    (n : ℕ) (m : Memory) (p v a : ℕ)
    → p + n < size_mod
    → (a < p) ⊎ (p + n ≤ a)
    → store n m p v a ≡ m a
unfolding store
store_outside zero m p v a fits out = refl
store_outside (suc n) m p v a fits out =
    let next : add_size p 1 ≡ p + 1 = omega arith in
    let other : (a == p) ≡ false = elim out [ inl l ↦ ground arith | inr r ↦ ground arith ] in
    let out' : (a < p + 1) ⊎ (p + 1 + n ≤ a) = elim out [
      | inl l ↦ inl (omega arith)
      | inr r ↦ inr (omega arith)
    ] in
    rw (other, next) (store_outside n m (p + 1) (v / 256) a (omega arith) out')

store_behind :
    (n : ℕ) (m : Memory) (p v a : ℕ)
    → p < a
    → p + suc n < size_mod
    → store (suc n) m p v a ≡ store n m (p + 1) (v / 256) a
unfolding store
store_behind n m p v a lt fits =
    let next : add_size p 1 ≡ p + 1 = omega arith in
    let other : (a == p) ≡ false = ground arith in rw (other, next) refl

pub load-store :
    (n : ℕ) (m : Memory) (p v : ℕ) → p + n < size_mod → v < 256 ^ n → load n (store n m p v) p ≡ v
unfolding load store
load-store zero m p v fits lt = omega arith
load-store (suc n) m p v fits lt =
    let next : add_size p 1 ≡ p + 1 = omega arith in
    let here : (p == p) ≡ true = ground arith in
    let high : v / 256 < 256 ^ n =
      (div-lt_iff_lt-mul {k = 256} (omega arith)).1 (rw (← pow-suc 256 n) lt) in
    let rest =
      load_same n (store (suc n) m p v) (store n m (p + 1) (v / 256)) (p + 1) (omega arith)
        (λ a le less. store_behind n m p v a (omega arith) fits) in
    rw (here, next, rest, load-store n m (p + 1) (v / 256) (omega arith) high) (omega arith)

-- Two words that do not overlap.
pub load-store_apart :
    (n k : ℕ) (m : Memory) (p v q : ℕ)
    → p + k < size_mod
    → q + n < size_mod
    → (q + n ≤ p) ⊎ (p + k ≤ q)
    → load n (store k m p v) q ≡ load n m q
load-store_apart n k m p v q fits fits' apart = load_same n (store k m p v) m q fits' (λ a le lt.
    store_outside k m p v a fits
      (elim apart [ inl l ↦ inl (omega arith) | inr r ↦ inr (omega arith) ]))

pub get_header-store :
    (m : Memory) (p h : ℕ)
    → p + 8 < size_mod
    → h < 2 ^ 64
    → get_header (store 8 m p h) (add_size p 8) ≡ h
unfolding get_header
get_header-store m p h fits lt =
    let back : sub_size (add_size p 8) 8 ≡ p = omega arith in
    rw (get_header, get_headerp, back) (load-store 8 m p h fits lt)

-- A word that is written behind the header of q leaves it.
pub get_header-store_above :
    (m : Memory) (a v q : ℕ)
    → 8 ≤ q
    → q ≤ a
    → a + 8 < size_mod
    → get_header (store 8 m a v) q ≡ get_header m q
unfolding get_header
get_header-store_above m a v q low above fits =
    let at : sub_size q 8 ≡ q - 8 = omega arith in
    rw (get_header, get_headerp, at)
      (load-store_apart 8 8 m a v (q - 8) fits (omega arith) (inl (omega arith)))
