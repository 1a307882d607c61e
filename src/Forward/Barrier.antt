-- ===== src/Forward/Barrier.antt =====
-- The read barrier fixFwdObjptr moves a slot along the forwarding pointers to their end.
use multi_mlton.Prelude.{
  ℕ, zero, suc, ◌+◌, ◌<◌, ◌≡◌, ◌∙◌, inl, inr, refl, false, true, ◌&&◌, ◌==◌, some, arith,
  Bool-cases,
}
use multi_mlton.Align.{size_mod}
use multi_mlton.CardMap.{Memory}
use multi_mlton.Objptr.{native64, is_objptr, objptr_to_pointer}
use multi_mlton.Object.{load, get_header, get_headerp}
use multi_mlton.ObjectSize.{forwarded}
use multi_mlton.ArrayAllocate.{store}
use multi_mlton.NewObject.Words.{Apart, written, kept, load_eight-lt}
use multi_mlton.Forward.{fix_loop, fix_fwd_objptr}

-- `Leads mem start opp n op q`: n forwarding pointers lead from the object pointer op to q, which is
-- no pointer, or one to an object that is not forwarded; the slot at opp lies apart from the words
-- that are read on the way.
pub data Leads (mem : Memory) (start opp : ℕ) : ℕ → ℕ → ℕ → Type 0 where
  value : {op : ℕ} → is_objptr native64 op ≡ false → Leads mem start opp 0 op op
  object :
      {op : ℕ}
      → (get_header mem (objptr_to_pointer native64 op start) == forwarded) ≡ false
      → Apart opp (get_headerp (objptr_to_pointer native64 op start))
      → get_headerp (objptr_to_pointer native64 op start) + 8 < size_mod
      → Leads mem start opp 0 op op
  hop :
      {n op q : ℕ}
      → is_objptr native64 op ≡ true
      → (get_header mem (objptr_to_pointer native64 op start) == forwarded) ≡ true
      → Apart opp (get_headerp (objptr_to_pointer native64 op start))
      → get_headerp (objptr_to_pointer native64 op start) + 8 < size_mod
      → Apart opp (objptr_to_pointer native64 op start)
      → objptr_to_pointer native64 op start + 8 < size_mod
      → Leads mem start opp n (load 8 mem (objptr_to_pointer native64 op start)) q
      → Leads mem start opp (suc n) op q

-- All words but the one at opp are the same.
abbrev pub SameBut : ℕ → Memory → Memory → Type 0
SameBut opp m m' = (y : ℕ) → Apart opp y → y + 8 < size_mod → load 8 m' y ≡ load 8 m y

module _ (start : ℕ) (mem : Memory) (opp : ℕ) (inside : opp + 8 < size_mod) where
  stop_loop :
      (fuel : ℕ) (m : Memory) (op : ℕ)
      → load 8 m opp ≡ op
      → (is_objptr native64 op && get_header m (objptr_to_pointer native64 op start) == forwarded)
        ≡ false
      → fix_loop (suc fuel) start m opp ≡ some m
  unfolding fix_loop
  stop_loop fuel m op e stop = rw (e, stop) refl

  go_loop :
      (fuel : ℕ) (m : Memory) (op : ℕ)
      → load 8 m opp ≡ op
      → (is_objptr native64 op && get_header m (objptr_to_pointer native64 op start) == forwarded)
        ≡ true
      → fix_loop (suc fuel) start m opp
        ≡ fix_loop fuel start (store 8 m opp (load 8 m (objptr_to_pointer native64 op start))) opp
  unfolding fix_loop
  go_loop fuel m op e go = rw (e, go) refl

  test_same :
      (m : Memory) (p : ℕ)
      → SameBut opp mem m
      → Apart opp (get_headerp p)
      → get_headerp p + 8 < size_mod
      → get_header m p ≡ get_header mem p
  unfolding get_header
  test_same m p same apart fits = same (get_headerp p) apart fits

  pub fix_loop_lem :
      (fuel : ℕ) (m : Memory) {n op q : ℕ}
      → Leads mem start opp n op q
      → n < fuel
      → load 8 m opp ≡ op
      → SameBut opp mem m
      → (m' : Memory) × (fix_loop fuel start m opp ≡ some m')
        × (load 8 m' opp ≡ q)
        × SameBut opp mem m'
  fix_loop_lem zero m l lt e same = absurd (omega arith)
  fix_loop_lem (suc fuel) m {op} (value no_pointer) lt e same =
      (m, stop_loop fuel m op e (rw no_pointer refl), e, same)
  fix_loop_lem (suc fuel) m {op} (object fresh apart fits) lt e same =
      let h = test_same m (objptr_to_pointer native64 op start) same apart fits in
      let stop : (is_objptr native64 op
            && get_header m (objptr_to_pointer native64 op start) == forwarded)
          ≡ false =
        elim (Bool-cases (is_objptr native64 op)) [
          | inl y ↦ rw (y, h, fresh) refl
          | inr n ↦ rw n refl
        ] in
      (m, stop_loop fuel m op e stop, e, same)
  fix_loop_lem (suc fuel) m {op} (hop pointer seen apart fits apart' fits' l) lt e same =
      let p = objptr_to_pointer native64 op start in
      let h = test_same m p same apart fits in
      let go : (is_objptr native64 op && get_header m p == forwarded) ≡ true =
        rw (pointer, h, seen) refl in
      let next : load 8 m p ≡ load 8 mem p = same p apart' fits' in
      let m' = store 8 m opp (load 8 m p) in
      let r =
        fix_loop_lem fuel m' l (omega arith)
          (written m opp (load 8 m p) inside (load_eight-lt m p) ∙ next)
          (λ y a ly. kept m opp (load 8 m p) inside y a ly ∙ same y a ly) in
      (r.0, go_loop fuel m op e go ∙ r.1, r.2, r.3)

  -- For a slot that holds an object pointer other than null from which n forwarding pointers lead
  -- on (Leads), apart from the words that are read on the way, and fuel beyond n: fixFwdObjptr
  -- ends, leaves in the slot the pointer at the end of the chain, and changes no word apart from
  -- the slot.
  pub fix_fwd_objptr_lem :
      (fuel n op q : ℕ)
      → load 8 mem opp ≡ op
      → (op == 0) ≡ false
      → Leads mem start opp n op q
      → n < fuel
      → (m' : Memory) × (fix_fwd_objptr fuel start mem opp ≡ some m')
        × (load 8 m' opp ≡ q)
        × SameBut opp mem m'
  unfolding fix_fwd_objptr
  fix_fwd_objptr_lem fuel n op q e not_null l lt = elim (Bool-cases (is_objptr native64 op)) [
    | inl y ↦
        (let r = fix_loop_lem fuel mem l lt e (λ y a ly. refl) in
          (r.0, rw (e, y, not_null) (r.1), r.2, r.3))
    | inr n ↦ (mem, rw (e, n) refl, e ∙ stays l n, λ y a ly. refl)
  ]
    where
      stays : {n op q : ℕ} → Leads mem start opp n op q → is_objptr native64 op ≡ false → op ≡ q
      stays (value x) no_pointer = refl
      stays (object x a b) no_pointer = refl
      stays (hop pointer x a b d g l) no_pointer = absurd (cc)
