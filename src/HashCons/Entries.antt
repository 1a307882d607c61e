-- ===== src/HashCons/Entries.antt =====
-- How many slots of the table are in use, and which entries they hold.
use multi_mlton.Prelude.{
  ℕ, zero, suc, ◌+◌, ◌%◌, ◌≤◌, ◌<◌, ◌≡◌, ◌≢◌, refl, sym, ap, ◌∙◌, true, false, ◌==◌, ==_iff,
  if◌then◌else◌, arith, Bool-cases, inl, inr, ◌⊎◌,
}
use multi_mlton.HashCons.{Element, HashTable, no_elements, word32, add_elem}

abbrev pub in_use : Element → ℕ
in_use e = if 0 == e.object then 0 else 1

not_==→ne : (a b : ℕ) → (a == b) ≡ false → a ≢ b
not_==→ne a b h = ground arith

-- Of the first n slots.
abbrev pub occupied : (ℕ → Element) → ℕ → ℕ
occupied elements zero = 0
occupied elements (suc n) = in_use (elements n) + occupied elements n

abbrev pub set_slot : (ℕ → Element) → ℕ → Element → ℕ → Element
set_slot elements slot e i = if i == slot then e else elements i

in_use-le : (e : Element) → in_use e ≤ 1
in_use-le e = ground arith

pub in_use_free : (e : Element) → e.object ≡ 0 → in_use e ≡ 0
in_use_free e z = rw z refl

pub in_use_full : (e : Element) → e.object ≢ 0 → in_use e ≡ 1
in_use_full e nz = ground arith

pub occupied-no_elements : (n : ℕ) → occupied no_elements n ≡ 0
occupied-no_elements zero = refl
occupied-no_elements (suc n) = rw (occupied-no_elements n) refl

pub free_slot :
    (elements : ℕ → Element) (n : ℕ)
    → occupied elements n < n
    → (j : ℕ) × (j < n) × ((elements j).object ≡ 0)
free_slot elements zero lt = absurd (omega arith)
free_slot elements (suc n) lt = elim (Bool-cases (0 == (elements n).object)) [
  | inl free ↦ (n, omega arith, sym ((==_iff 0 (elements n).object).0 free))
  | inr full ↦
      (let one : in_use (elements n) ≡ 1 = rw full refl in
        let (j, less, e) = free_slot elements n (omega (arith, one)) in (j, omega (arith, less), e))
]

occupied_outside :
    (elements : ℕ → Element) (slot : ℕ) (e : Element) (n : ℕ)
    → n ≤ slot
    → occupied (set_slot elements slot e) n ≡ occupied elements n
occupied_outside elements slot e zero le = refl
occupied_outside elements slot e (suc n) le =
    let other : (n == slot) ≡ false = ground arith in
    rw (other, occupied_outside elements slot e n (omega arith)) refl

pub occupied-set_slot :
    (elements : ℕ → Element) (slot : ℕ) (e : Element) (n : ℕ)
    → slot < n
    → (elements slot).object ≡ 0
    → e.object ≢ 0
    → occupied (set_slot elements slot e) n ≡ suc (occupied elements n)
occupied-set_slot elements slot e zero lt free full = absurd (omega arith)
occupied-set_slot elements slot e (suc n) lt free full = elim (Bool-cases (n == slot)) [
  | inl here ↦
      (let at : n ≡ slot = (==_iff n slot).0 here in
        let before : in_use (elements n) ≡ 0 = in_use_free (elements n) (rw at free) in
        rw
          (here, occupied_outside elements slot e n (omega (arith, at)), in_use_full e full, before)
          (omega arith))
  | inr other ↦
      (let rest =
          occupied-set_slot elements slot e n (omega (arith, not_==→ne n slot other)) free full in
        rw (other, rest) (omega arith))
]

-- The entry with this hash and this object stands in the table.
abbrev pub HasEntry : HashTable → Element → Type 0
HasEntry t e = (i : ℕ) × (i < t.elements_length_max) × (t.elements i ≡ e)

pub occupied_mono :
    (elements : ℕ → Element) (n i : ℕ) → occupied elements i ≤ occupied elements (n + i)
occupied_mono elements zero i = let e : 0 + i ≡ i = omega arith in rw e (omega arith)
occupied_mono elements (suc n) i =
    let e : suc n + i ≡ suc (n + i) = omega arith in
    rw e (omega (arith, occupied_mono elements n i))

pub add_elem-length :
    (t : HashTable) (slot hash object : ℕ)
    → ((add_elem t slot hash object).elements_length_max ≡ t.elements_length_max)
      × ((add_elem t slot hash object).elements_length_max_log2 ≡ t.elements_length_max_log2)
unfolding add_elem
add_elem-length t slot hash object = elim (Bool-cases t.may_insert) [
  | inl may ↦ rw (add_elem, may) (refl, refl)
  | inr no_more ↦ rw (add_elem, no_more) (refl, refl)
]

module _ (t : HashTable) (slot hash object : ℕ) (may : t.may_insert ≡ true) where
  pub add_elem-elements :
      (add_elem t slot hash object).elements
      ≡ set_slot t.elements slot (record { hash = hash; object = object })
  unfolding add_elem
  add_elem-elements = rw may refl

  pub add_elem-counts :
      ((add_elem t slot hash object).elements_length_cur ≡ (t.elements_length_cur + 1) % word32)
      × ((add_elem t slot hash object).elements_length_max ≡ t.elements_length_max)
      × ((add_elem t slot hash object).elements_length_max_log2 ≡ t.elements_length_max_log2)
      × ((add_elem t slot hash object).may_insert ≡ true)
  unfolding add_elem
  add_elem-counts = rw may (refl, refl, refl, refl)

  pub add_elem_keeps :
      (e : Element)
      → (t.elements slot).object ≡ 0
      → e.object ≢ 0
      → HasEntry t e
      → HasEntry (add_elem t slot hash object) e
  add_elem_keeps e free full (i, lt, at) =
      let other : (i == slot) ≡ false = elim (Bool-cases (i == slot)) [
        | inl here ↦
            absurd
              (full (ap (λ (x : Element). x.object) (sym at) ∙ rw ((==_iff i slot).0 here) free))
        | inr differs ↦ differs
      ] in
      (i, rw (add_elem-counts.1) lt, rw (add_elem-elements, other) at)

  pub add_elem_has :
      slot < t.elements_length_max
      → HasEntry (add_elem t slot hash object) (record { hash = hash; object = object })
  add_elem_has lt =
      let here : (slot == slot) ≡ true = (==_iff slot slot).1 refl in
      (slot, rw (add_elem-counts.1) lt, rw (add_elem-elements, here) refl)

  pub add_elem_only :
      (e : Element)
      → HasEntry (add_elem t slot hash object) e
      → (e ≡ record { hash = hash; object = object }) ⊎ HasEntry t e
  add_elem_only e (i, lt, at) =
      let at' : set_slot t.elements slot (record { hash = hash; object = object }) i ≡ e =
        rw add_elem-elements at at in
      elim (Bool-cases (i == slot)) [
        | inl here ↦ inl (sym (rw here at at'))
        | inr other ↦ inr (i, rw (add_elem-counts.1) at lt, rw other at at')
      ]
