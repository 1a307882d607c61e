-- ===== src/NewObject/Words.antt =====
-- Words of 8 bytes at addresses: which do not overlap, and what a list of them holds.
use multi_mlton.Prelude.{ℕ, ◌+◌, ◌%◌, ◌<◌, ◌≤◌, ◌≡◌, ◌⊎◌, inl, inr, List, [], ◌∷◌, ◌∙◌, arith}
use multi_mlton.Align.{size_mod}
use multi_mlton.CardMap.{Memory}
use multi_mlton.Object.{load}
use multi_mlton.ArrayAllocate.{store}
use multi_mlton.NewObject.Stores.{load-store, load-store_apart}

abbrev pub Apart : ℕ → ℕ → Type 0
Apart x y = (x + 8 ≤ y) ⊎ (y + 8 ≤ x)

abbrev pub ApartFromAll : ℕ → List ℕ → Type 0
ApartFromAll x [] = Unit
ApartFromAll x (y ∷ ys) = Apart x y × ApartFromAll x ys

-- No two of the words overlap.
abbrev pub Separate : List ℕ → Type 0
Separate [] = Unit
Separate (x ∷ xs) = ApartFromAll x xs × Separate xs

-- Each of the words holds w.
abbrev pub Hold : Memory → ℕ → List ℕ → Type 0
Hold mem w [] = Unit
Hold mem w (x ∷ xs) = (load 8 mem x ≡ w) × Hold mem w xs

-- Each of the words lies before the last 8 bytes of the address space.
abbrev pub Inside : List ℕ → Type 0
Inside [] = Unit
Inside (x ∷ xs) = (x + 8 < size_mod) × Inside xs

abbrev pub Even : List ℕ → Type 0
Even [] = Unit
Even (x ∷ xs) = (x % 2 ≡ 0) × Even xs

-- Each of the words holds in both memories the same.
abbrev pub Same : Memory → Memory → List ℕ → Type 0
Same m m' [] = Unit
Same m m' (x ∷ xs) = (load 8 m' x ≡ load 8 m x) × Same m m' xs

pub load_eight-lt : (mem : Memory) (p : ℕ) → load 8 mem p < size_mod
unfolding load
load_eight-lt mem p = omega arith

module _ (m : Memory) (x v : ℕ) (fits : x + 8 < size_mod) where
  pub written : v < size_mod → load 8 (store 8 m x v) x ≡ v
  written lt = load-store 8 m x v fits lt

  pub kept : (y : ℕ) → Apart x y → y + 8 < size_mod → load 8 (store 8 m x v) y ≡ load 8 m y
  kept y apart inside =
      load-store_apart 8 8 m x v y fits inside (elim apart [ inl l ↦ inr l | inr r ↦ inl r ])

  pub all_kept : (ys : List ℕ) → ApartFromAll x ys → Inside ys → Same m (store 8 m x v) ys
  all_kept [] apart inside = tt
  all_kept (y ∷ ys) apart inside = (kept y apart.0 inside.0, all_kept ys apart.1 inside.1)

pub Apart-sym : {x y : ℕ} → Apart x y → Apart y x
Apart-sym (inl l) = inr l
Apart-sym (inr r) = inl r

pub Same-trans : (m m' m'' : Memory) (ys : List ℕ) → Same m m' ys → Same m' m'' ys → Same m m'' ys
Same-trans m m' m'' [] e e' = tt
Same-trans m m' m'' (y ∷ ys) e e' = (e'.0 ∙ e.0, Same-trans m m' m'' ys e.1 e'.1)
