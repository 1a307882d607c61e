-- ===== src/MarkCompact/Weaks.antt =====
-- updateWeaksForMarkCompact clears the weak pointers whose object is not marked, and no others.
use multi_mlton.Prelude.{
  ℕ, zero, suc, ◌+◌, ◌<◌, ◌≡◌, ◌∙◌, inl, inr, refl, ap, false, not, ◌==◌, some, List, [], ◌∷◌,
  length, Bool, Bool-cases, if◌then◌else◌, arith,
}
use Prim.Native.Nat.{bit_or}
use multi_mlton.Align.{size_mod, add_size, sub_size}
use multi_mlton.CardMap.{Memory}
use multi_mlton.Objptr.{native64, bogus_objptr, objptr_to_pointer}
use multi_mlton.Object.{load, get_header, get_headerp, build_header_from_type_index}
use multi_mlton.ArrayAllocate.{store}
use multi_mlton.NewObject.{offsetof_weak, weak_gone_type_index}
use multi_mlton.NewObject.Words.{Apart, Apart-sym, written, kept}
use multi_mlton.MarkCompact.{mark_mask, is_pointer_marked, update_weak, update_weaks}

module _ (alignment start : ℕ) where
  -- The words of the weak pointer at w: its header and its object pointer.
  abbrev pub header_at : ℕ → ℕ
  header_at w = get_headerp (sub_size w (offsetof_weak alignment))

  abbrev pub gone_header : ℕ
  gone_header = bit_or (build_header_from_type_index weak_gone_type_index) mark_mask

  -- Whether the object of the weak pointer at w has died.
  abbrev pub is_dead : Memory → ℕ → Bool
  is_dead mem w =
      if bogus_objptr == load 8 mem (w + 8)
      then false
      else not (is_pointer_marked mem (objptr_to_pointer native64 (load 8 mem (w + 8)) start))

  abbrev pub target_header : Memory → ℕ → ℕ
  target_header mem v = get_headerp (objptr_to_pointer native64 (load 8 mem (v + 8)) start)

  -- The words of the weak pointer at w lie in the address space and do not overlap.
  pub record Fits (mem : Memory) (w : ℕ) : Type 0 where
    pub inside : w + 16 < size_mod
    pub header_inside : header_at w + 8 < size_mod
    pub target_inside : target_header mem w + 8 < size_mod
    pub header_objptr : Apart (header_at w) (w + 8)
    pub header_link : Apart (header_at w) w

  -- A word apart from the two words of w that may be written.
  abbrev pub Untouched : ℕ → ℕ → Type 0
  Untouched w y = Apart (header_at w) y × Apart (w + 8) y

  -- What the weak pointer at w may have written leaves alone all that is read of the one at v: its
  -- words, and the header of its object.
  pub record Clear (mem : Memory) (w v : ℕ) : Type 0 where
    pub link : Untouched w v
    pub objptr : Untouched w (v + 8)
    pub header : Untouched w (header_at v)
    pub target : Untouched w (target_header mem v)

  abbrev pub AllClear : Memory → ℕ → List ℕ → Type 0
  AllClear mem w [] = Unit
  AllClear mem w (v ∷ vs) = Clear mem w v × AllClear mem w vs

  -- The links lead from the first address along the list to the null pointer.
  pub data Linked (mem : Memory) : ℕ → List ℕ → Type 0 where
    end : Linked mem 0 []
    link :
        {w : ℕ} {ws : List ℕ}
        → (w == 0) ≡ false
        → Fits mem w
        → AllClear mem w ws
        → Linked mem (load 8 mem w) ws
        → Linked mem w (w ∷ ws)

  -- What becomes of each weak pointer, said of the memory before.
  abbrev pub Settled : Memory → Memory → ℕ → Type 0
  Settled mem mem' w =
      (load 8 mem' (w + 8) ≡ (if is_dead mem w then bogus_objptr else load 8 mem (w + 8)))
      × (load 8 mem' (header_at w)
          ≡ (if is_dead mem w then gone_header else load 8 mem (header_at w)))

  abbrev pub AllSettled : Memory → Memory → List ℕ → Type 0
  AllSettled mem mem' [] = Unit
  AllSettled mem mem' (w ∷ ws) = Settled mem mem' w × AllSettled mem mem' ws

  gone_lem : gone_header ≡ 0x80000005
  unfolding build_header_from_type_index
  gone_lem = refl

  module _ (mem : Memory) (w : ℕ) (fits : Fits mem w) where
    cleared : Memory
    cleared = store 8 (store 8 mem (header_at w) gone_header) (w + 8) bogus_objptr

    update_weak_lem : update_weak alignment start mem w ≡ (if is_dead mem w then cleared else mem)
    unfolding update_weak cleared
    update_weak_lem =
        let at : add_size w 8 ≡ w + 8 = omega (arith, fits.inside) in
        rw at (elim (Bool-cases (bogus_objptr == load 8 mem (w + 8))) [
          | inl y ↦ rw y refl
          | inr n ↦
              (elim (Bool-cases
                (is_pointer_marked mem (objptr_to_pointer native64 (load 8 mem (w + 8)) start))) [
                  | inl y ↦ rw (n, y) refl
                  | inr m ↦ rw (n, m) refl
                ])
        ])

    cleared_kept : (y : ℕ) → Untouched w y → y + 8 < size_mod → load 8 cleared y ≡ load 8 mem y
    unfolding cleared
    cleared_kept y apart inside =
        kept (store 8 mem (header_at w) gone_header) (w + 8) bogus_objptr
          (omega (arith, fits.inside)) y apart.1 inside
        ∙ kept mem (header_at w) gone_header fits.header_inside y apart.0 inside

    cleared_objptr : load 8 cleared (w + 8) ≡ bogus_objptr
    unfolding cleared
    cleared_objptr =
        written (store 8 mem (header_at w) gone_header) (w + 8) bogus_objptr
          (omega (arith, fits.inside)) (omega arith)

    cleared_header : load 8 cleared (header_at w) ≡ gone_header
    unfolding cleared
    cleared_header =
        kept (store 8 mem (header_at w) gone_header) (w + 8) bogus_objptr
          (omega (arith, fits.inside)) (header_at w)
          (elim (fits.header_objptr) [ inl l ↦ inr l | inr r ↦ inl r ]) fits.header_inside
        ∙ written mem (header_at w) gone_header fits.header_inside (omega (arith, gone_lem))

    -- The body of the loop, on both outcomes.
    body_kept :
        (y : ℕ)
        → Untouched w y
        → y + 8 < size_mod
        → load 8 (update_weak alignment start mem w) y ≡ load 8 mem y
    body_kept y apart inside = rw update_weak_lem (elim (Bool-cases (is_dead mem w)) [
      | inl d ↦ rw d (cleared_kept y apart inside)
      | inr a ↦ rw a refl
    ])

    body_Settled : Settled mem (update_weak alignment start mem w) w
    body_Settled = rw update_weak_lem (elim (Bool-cases (is_dead mem w)) [
      | inl d ↦ rw d (cleared_objptr, cleared_header)
      | inr a ↦ rw a (refl, refl)
    ])

  -- The words of v and the header of its object hold the same in both memories.
  pub record Agree (mem m' : Memory) (v : ℕ) : Type 0 where
    pub link : load 8 m' v ≡ load 8 mem v
    pub objptr : load 8 m' (v + 8) ≡ load 8 mem (v + 8)
    pub header : load 8 m' (header_at v) ≡ load 8 mem (header_at v)
    pub target : load 8 m' (target_header mem v) ≡ load 8 mem (target_header mem v)

  abbrev pub AllAgree : Memory → Memory → List ℕ → Type 0
  AllAgree mem m' [] = Unit
  AllAgree mem m' (v ∷ vs) = Agree mem m' v × AllAgree mem m' vs

  module _ (mem m' : Memory) where
    target_header-Agree : (v : ℕ) → Agree mem m' v → target_header m' v ≡ target_header mem v
    target_header-Agree v a =
        ap (λ (op : ℕ). get_headerp (objptr_to_pointer native64 op start)) a.objptr

    is_dead-Agree : (v : ℕ) → Agree mem m' v → is_dead m' v ≡ is_dead mem v
    unfolding is_pointer_marked get_header
    is_dead-Agree v a = rw (a.objptr, a.target) refl

    Settled-Agree : (m'' : Memory) (v : ℕ) → Agree mem m' v → Settled m' m'' v → Settled mem m'' v
    Settled-Agree m'' v a s =
        let d = is_dead-Agree v a in (s.0 ∙ rw (d, a.objptr) refl, s.1 ∙ rw (d, a.header) refl)

    AllSettled-Agree :
        (m'' : Memory) (vs : List ℕ)
        → AllAgree mem m' vs
        → AllSettled m' m'' vs
        → AllSettled mem m'' vs
    AllSettled-Agree m'' [] a s = tt
    AllSettled-Agree m'' (v ∷ vs) a s =
        (Settled-Agree m'' v a.0 s.0, AllSettled-Agree m'' vs a.1 s.1)

    AllClear-Agree :
        (w : ℕ) (vs : List ℕ) → AllAgree mem m' vs → AllClear mem w vs → AllClear m' w vs
    AllClear-Agree w [] a c = tt
    AllClear-Agree w (v ∷ vs) a c = (
      record {
        link = c.0.link;
        objptr = c.0.objptr;
        header = c.0.header;
        target = rw (target_header-Agree v a.0) c.0.target;
      },
      AllClear-Agree w vs a.1 c.1,
    )

    Linked-Agree : {a : ℕ} {vs : List ℕ} → AllAgree mem m' vs → Linked mem a vs → Linked m' a vs
    Linked-Agree agree end = end
    Linked-Agree agree (link {w} {ws} not_null fits clear l) =
        link not_null
          (record {
            inside = fits.inside;
            header_inside = fits.header_inside;
            target_inside = rw (target_header-Agree w agree.0) fits.target_inside;
            header_objptr = fits.header_objptr;
            header_link = fits.header_link;
          })
          (AllClear-Agree w ws agree.1 clear) (rw (agree.0.link) (Linked-Agree agree.1 l))

  AllAgree-body :
      (mem : Memory) (w : ℕ) (vs : List ℕ) {a : ℕ}
      → Fits mem w
      → AllClear mem w vs
      → Linked mem a vs
      → AllAgree mem (update_weak alignment start mem w) vs
  AllAgree-body mem w [] fits clear end = tt
  AllAgree-body mem w (v ∷ vs) fits clear (link x fits' y l) = (
    record {
      link = body_kept mem w fits v clear.0.link (omega (arith, fits'.inside));
      objptr = body_kept mem w fits (v + 8) clear.0.objptr (omega (arith, fits'.inside));
      header = body_kept mem w fits (header_at v) clear.0.header fits'.header_inside;
      target = body_kept mem w fits (target_header mem v) clear.0.target fits'.target_inside;
    },
    AllAgree-body mem w vs fits clear.1 l,
  )

  abbrev pub AllUntouched : ℕ → List ℕ → Type 0
  AllUntouched y [] = Unit
  AllUntouched y (w ∷ ws) = Untouched w y × AllUntouched y ws

  -- What the loop does to the list, and to every other word.
  abbrev pub Updated : Memory → Memory → List ℕ → Type 0
  Updated mem mem' ws =
      AllSettled mem mem' ws
      × ((y : ℕ) → AllUntouched y ws → y + 8 < size_mod → load 8 mem' y ≡ load 8 mem y)

  null_step : (fuel : ℕ) (mem : Memory) → update_weaks (suc fuel) alignment start mem 0 ≡ some mem
  unfolding update_weaks
  null_step fuel mem = refl

  link_step :
      (fuel : ℕ) (mem : Memory) (w next : ℕ)
      → (w == 0) ≡ false
      → load 8 (update_weak alignment start mem w) w ≡ next
      → update_weaks (suc fuel) alignment start mem w
        ≡ update_weaks fuel alignment start (update_weak alignment start mem w) next
  unfolding update_weaks
  link_step fuel mem w next not_null e = rw (not_null, e) refl

  later_Untouched :
      (mem : Memory) (w : ℕ) (vs : List ℕ)
      → AllClear mem w vs
      → AllUntouched (w + 8) vs × AllUntouched (header_at w) vs
  later_Untouched mem w [] c = (tt, tt)
  later_Untouched mem w (v ∷ vs) c =
      let rest = later_Untouched mem w vs c.1 in
      (
        ((Apart-sym (c.0.header.1), Apart-sym (c.0.objptr.1)), rest.0),
        ((Apart-sym (c.0.header.0), Apart-sym (c.0.objptr.0)), rest.1),
      )

  -- For a list of weak pointers that do not overlap, and none of which overlaps what is read of a
  -- later one (Linked), and more fuel than weak pointers: updateWeaksForMarkCompact ends, gives the
  -- bogus pointer and the header GC_WEAK_GONE_HEADER | MARK_MASK to each of them whose object was
  -- not marked, leaves the others as they are, and changes no word apart from their headers and
  -- object pointers.
  pub update_weaks_lem :
      (fuel : ℕ) (mem : Memory) (ws : List ℕ) {w : ℕ}
      → Linked mem w ws
      → length ws < fuel
      → (mem' : Memory) × (update_weaks fuel alignment start mem w ≡ some mem')
        × Updated mem mem' ws
  update_weaks_lem zero mem ws l lt = absurd (omega arith)
  update_weaks_lem (suc fuel) mem [] end lt = (mem, null_step fuel mem, (tt, λ y a b. refl))
  update_weaks_lem (suc fuel) mem (w ∷ ws) (link not_null fits clear l) lt =
      let m = update_weak alignment start mem w in
      let agree = AllAgree-body mem w ws fits clear l in
      let next =
        body_kept mem w fits w (fits.header_link, inr (omega arith)) (omega (arith, fits.inside)) in
      let (m', done, u) = update_weaks_lem fuel m ws (Linked-Agree mem m agree l) (omega arith) in
      let later = later_Untouched mem w ws clear in
      let now = body_Settled mem w fits in
      let head : Settled mem m' w = (
        u.1 (w + 8) later.0 (omega (arith, fits.inside)) ∙ now.0,
        u.1 (header_at w) later.1 fits.header_inside ∙ now.1,
      ) in
      (
        m',
        link_step fuel mem w (load 8 mem w) not_null next ∙ done,
        (
          (head, AllSettled-Agree mem m m' ws agree u.0),
          λ y a inside. u.1 y a.1 inside ∙ body_kept mem w fits y a.0 inside,
        ),
      )
