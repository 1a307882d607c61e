-- ===== src/DanglingStacks/Loops.antt =====
-- Each loop over the array as an operation on the stretch that it walks.
use multi_mlton.Prelude.{
  ℕ, zero, suc, ◌+◌, ◌≤◌, ◌<◌, ◌≡◌, Bool, true, false, not, ◌==◌, if◌then◌else◌, List, [], ◌∷◌,
  ◌++◌, length, get_or, set, take, drop, refl, ap, ap₂, sym, ◌∙◌, arith, Bool-cases, inl, inr,
  length-set,
}
use multi_mlton.Heap.Types.{Heap}
use multi_mlton.Heap.Predicates.{is_pointer_in_heap}
use multi_mlton.DanglingStacks.{update_from, is_in_from, refresh_from}

pub take-drop-step :
    (xs : List ℕ) (i n : ℕ)
    → i < length xs
    → take (suc n) (drop i xs) ≡ get_or xs i 0 ∷ take n (drop (suc i) xs)
take-drop-step [] i n h = elim h [ ]
take-drop-step (x ∷ xs) zero n h = refl
take-drop-step (x ∷ xs) (suc i) n h = take-drop-step xs i n (omega arith)

-- Membership as a Boolean.
abbrev pub elem : ℕ → List ℕ → Bool
elem p [] = false
elem p (x ∷ xs) = if x == p then true else elem p xs

-- The first `old` in a list replaced by `new`.
abbrev pub replace : ℕ → ℕ → List ℕ → List ℕ
replace old new [] = []
replace old new (x ∷ xs) = if x == old then new ∷ xs else x ∷ replace old new xs

abbrev pub filter : (ℕ → Bool) → List ℕ → List ℕ
filter f [] = []
filter f (x ∷ xs) = if f x then x ∷ filter f xs else filter f xs

pub is_in_from_lem :
    (n i : ℕ) (items : List ℕ) (p : ℕ)
    → i + n ≤ length items
    → is_in_from n i items p ≡ elem p (take n (drop i items))
unfolding is_in_from
is_in_from_lem zero i items p h = refl
is_in_from_lem (suc n) i items p h =
    rw (take-drop-step items i n (omega arith), is_in_from_lem n (suc i) items p (omega arith)) refl

-- What writing at an index does to the stretch before it, at it, and behind it.
pub take-set :
    (xs : List ℕ) (i v : ℕ) → i < length xs → take (suc i) (set xs i v) ≡ take i xs ++ (v ∷ [])
take-set [] i v h = elim h [ ]
take-set (x ∷ xs) zero v h = refl
take-set (x ∷ xs) (suc i) v h = ap (λ (t : List ℕ). x ∷ t) (take-set xs i v (omega arith))

pub take-set_before : (xs : List ℕ) (n i v : ℕ) → n ≤ i → take n (set xs i v) ≡ take n xs
take-set_before [] n i v h = refl
take-set_before (x ∷ xs) zero i v h = refl
take-set_before (x ∷ xs) (suc n) zero v h = absurd (omega arith)
take-set_before (x ∷ xs) (suc n) (suc i) v h =
    ap (λ (t : List ℕ). x ∷ t) (take-set_before xs n i v (omega arith))

pub drop-set_behind : (xs : List ℕ) (i v : ℕ) → drop (suc i) (set xs i v) ≡ drop (suc i) xs
drop-set_behind [] i v = refl
drop-set_behind (x ∷ xs) zero v = refl
drop-set_behind (x ∷ xs) (suc i) v = drop-set_behind xs i v

pub take-drop-set :
    (xs : List ℕ) (i n v : ℕ)
    → i < length xs
    → take (suc n) (drop i (set xs i v)) ≡ v ∷ take n (drop (suc i) xs)
take-drop-set [] i n v h = elim h [ ]
take-drop-set (x ∷ xs) zero n v h = refl
take-drop-set (x ∷ xs) (suc i) n v h = take-drop-set xs i n v (omega arith)

append_assoc : (xs ys zs : List ℕ) → (xs ++ ys) ++ zs ≡ xs ++ (ys ++ zs)
append_assoc [] ys zs = refl
append_assoc (x ∷ xs) ys zs = ap (λ (t : List ℕ). x ∷ t) (append_assoc xs ys zs)

append-nil : (xs : List ℕ) → xs ++ [] ≡ xs
append-nil [] = refl
append-nil (x ∷ xs) = ap (λ (t : List ℕ). x ∷ t) (append-nil xs)

get_or-set_later : (xs : List ℕ) (i j v : ℕ) → i < j → get_or (set xs j v) i 0 ≡ get_or xs i 0
get_or-set_later [] i j v h = refl
get_or-set_later (x ∷ xs) i zero v h = absurd (omega arith)
get_or-set_later (x ∷ xs) zero (suc j) v h = refl
get_or-set_later (x ∷ xs) (suc i) (suc j) v h = get_or-set_later xs i j v (omega arith)

-- The first `old` from i on is overwritten, and nothing before i is touched.
pub update_from_lem :
    (n i : ℕ) (items : List ℕ) (old new : ℕ)
    → i + n ≤ length items
    → let r = update_from n i items old new in
      (r.0 ≡ elem old (take n (drop i items)))
      × (take n (drop i r.1) ≡ replace old new (take n (drop i items)))
      × (length r.1 ≡ length items)
      × ((j : ℕ) → j < i → get_or r.1 j 0 ≡ get_or items j 0)
unfolding update_from
update_from_lem zero i items old new h = (refl, refl, refl, λ j _. refl)
update_from_lem (suc n) i items old new h =
    let rest = update_from_lem n (suc i) items old new (omega arith) in
    let step = take-drop-step items i n (omega arith) in
    elim (Bool-cases (get_or items i 0 == old)) [
      | inl found ↦
          rw (found, step, found)
            (
              refl,
              take-drop-set items i n new (omega arith),
              length-set items i new,
              λ j lt. get_or-set_later items j i new lt,
            )
      | inr other ↦
          (let after =
              take-drop-step (update_from n (suc i) items old new).1 i n (omega (arith, rest.2)) in
            rw (other, step, other, after)
              (
                rest.0,
                ap₂ (λ (x : ℕ) (xs : List ℕ). x ∷ xs) (rest.3 i (omega arith)) rest.1,
                rest.2,
                λ j lt. rest.3 j (omega arith),
              ))
    ]

-- The entries from i on that pass the test follow those that were kept before.
pub refresh_from_lem :
    (hp : Heap) (thread_of : ℕ → ℕ) (n i : ℕ) (items : List ℕ) (count : ℕ) (new : List ℕ)
    → i + n ≤ length items
    → count + n ≤ length new
    → let r = refresh_from hp thread_of n i items count new in
      (take r.0 r.1
        ≡ take count new
          ++ filter (λ op. not (is_pointer_in_heap hp (thread_of op))) (take n (drop i items)))
      × (length r.1 ≡ length new)
      × (r.0 ≤ count + n)
unfolding refresh_from
refresh_from_lem hp thread_of zero i items count new h k =
    (sym (append-nil (take count new)), refl, omega arith)
refresh_from_lem hp thread_of (suc n) i items count new h k =
    let op = get_or items i 0 in
    let step = take-drop-step items i n (omega arith) in
    let put = set new count op in
    elim (Bool-cases (not (is_pointer_in_heap hp (thread_of op)))) [
      | inl keep ↦
          (let room : suc count + n ≤ length put = omega (arith, length-set new count op) in
            let r =
              refresh_from_lem hp thread_of n (suc i) items (suc count) put (omega arith) room in
            let later =
              filter (λ op. not (is_pointer_in_heap hp (thread_of op)))
                (take n (drop (suc i) items)) in
            rw (keep, step, keep)
              (
                r.0
                    ∙ (ap (λ (t : List ℕ). t ++ later) (take-set new count op (omega arith))
                        ∙ append_assoc (take count new) (op ∷ []) later),
                r.1 ∙ length-set new count op,
                omega (arith, r.2),
              ))
      | inr drop_it ↦
          (let r =
              refresh_from_lem hp thread_of n (suc i) items count new (omega arith) (omega arith) in
            rw (drop_it, step, drop_it) (r.0, r.1, omega (arith, r.2)))
    ]
