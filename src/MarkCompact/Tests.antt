-- ===== src/MarkCompact/Tests.antt =====
-- The slots at 200 and 216 point at the object at 64, which moves to 48.
use multi_mlton.Prelude.{
  ℕ, ◌+◌, ◌%◌, ◌<◌, ◌≡◌, refl, true, false, inl, inr, some, [], ◌∷◌, arith, ◌==◌, if◌then◌else◌,
}
use multi_mlton.Align.{size_mod}
use multi_mlton.CardMap.{Memory}
use multi_mlton.Object.{load, get_header, get_headerp}
use multi_mlton.Objptr.{objptr_to_pointer}
use multi_mlton.NewObject.{offsetof_weak}
use multi_mlton.MarkCompact.{unthread, is_pointer_marked, update_weaks}
use multi_mlton.MarkCompact.Weaks.{
  Fits, Clear, Linked, link, end, Updated, is_dead, update_weaks_lem,
}
use multi_mlton.NewObject.Words.{Apart, ApartFromAll, Separate, Hold, Inside, Even}
use multi_mlton.MarkCompact.Threading.{thread_all}
use multi_mlton.MarkCompact.Unthreading.{unthread-thread_all}

abbrev two_slots : Memory
two_slots a = if a == 56 then 1 else (if a == 200 then 64 else (if a == 216 then 64 else 0))

two_slots_header : get_header two_slots 64 % 2 ≡ 1
unfolding get_header load get_headerp
two_slots_header = refl

two_slots_hold : Hold two_slots 64 (200 ∷ 216 ∷ [])
unfolding load
two_slots_hold = (refl, (refl, tt))

two_slots-Inside : Inside (200 ∷ 216 ∷ [])
two_slots-Inside = (omega arith, (omega arith, tt))

two_slots-Even : Even (200 ∷ 216 ∷ [])
two_slots-Even = (refl, (refl, tt))

two_slots-Separate : Separate (get_headerp 64 ∷ 200 ∷ 216 ∷ [])
unfolding get_headerp
two_slots-Separate =
    ((inl (omega arith), (inl (omega arith), tt)), ((inl (omega arith), tt), (tt, tt)))

unthread-thread_all_example :
    (m' : Memory) × (unthread 2 0 48 (thread_all 0 two_slots (200 ∷ 216 ∷ [])) (get_headerp 64)
      ≡ some (get_header two_slots 64, m'))
    × (get_header m' 64 ≡ get_header two_slots 64)
    × Hold m' 48 (200 ∷ 216 ∷ [])
    × ((y : ℕ)
        → Apart (get_headerp 64) y
        → ApartFromAll y (200 ∷ 216 ∷ [])
        → y + 8 < size_mod
        → load 8 m' y ≡ load 8 two_slots y)
unthread-thread_all_example =
    unthread-thread_all 2 0 64 48 two_slots 200 (216 ∷ []) (omega arith) (omega arith) (omega arith)
      two_slots_header two_slots_hold two_slots-Inside two_slots-Even two_slots-Separate
      (omega arith)

-- Weak pointers at 224 and 264, to an object at 64, which is not marked, and one at 96, which is.
abbrev two_weaks : Memory
two_weaks a =
    if a == 224
    then 8
    else (if a == 225
        then 1
        else (if a == 232
            then 64
            else (if a == 272 then 96 else (if a == 56 then 1 else (if a == 91 then 128 else 0)))))

two_weaks_Fits : Fits 8 0 two_weaks 224 × Fits 8 0 two_weaks 264
unfolding load get_headerp offsetof_weak objptr_to_pointer
two_weaks_Fits = (
  record {
    inside = omega arith;
    header_inside = omega arith;
    target_inside = omega arith;
    header_objptr = inl (omega arith);
    header_link = inl (omega arith);
  },
  record {
    inside = omega arith;
    header_inside = omega arith;
    target_inside = omega arith;
    header_objptr = inl (omega arith);
    header_link = inl (omega arith);
  },
)

two_weaks-Clear : Clear 8 0 two_weaks 224 264
unfolding load get_headerp offsetof_weak objptr_to_pointer
two_weaks-Clear = record {
  link = (inl (omega arith), inl (omega arith));
  objptr = (inl (omega arith), inl (omega arith));
  header = (inl (omega arith), inl (omega arith));
  target = (inr (omega arith), inr (omega arith));
}

two_weaks-Linked : Linked 8 0 two_weaks 224 (224 ∷ 264 ∷ [])
unfolding load
two_weaks-Linked =
    link refl two_weaks_Fits.0 (two_weaks-Clear, tt) (link refl two_weaks_Fits.1 tt end)

update_weaks_lem_example :
    (mem' : Memory) × (update_weaks 3 8 0 two_weaks 224 ≡ some mem')
    × Updated 8 0 two_weaks mem' (224 ∷ 264 ∷ [])
update_weaks_lem_example =
    update_weaks_lem 8 0 3 two_weaks (224 ∷ 264 ∷ []) two_weaks-Linked (omega arith)

one_dies : (is_dead 8 0 two_weaks 224 ≡ true) × (is_dead 8 0 two_weaks 264 ≡ false)
unfolding load is_pointer_marked get_header get_headerp objptr_to_pointer
one_dies = (refl, refl)
