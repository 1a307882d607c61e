-- ===== src/Forward/Places.antt =====
-- Where an object, its copy and the slot lie, and the memory after the copy.
use multi_mlton.Prelude.{
  le→leb, ℕ, suc, ◌+◌, ◌-◌, ◌≤◌, ◌<◌, ◌≡◌, ◌⊎◌, ◌∙◌, inl, inr, refl, false, ltb, leb, arith, lt→ltb,
  Bool-cases,
}
use multi_mlton.Align.{size_mod, sub_size}
use multi_mlton.CardMap.{Memory}
use multi_mlton.Object.{load, get_header, get_headerp}
use multi_mlton.ObjectSize.{forwarded}
use multi_mlton.ArrayAllocate.{store}
use multi_mlton.Heap.Predicates.{is_objptr_in_from_space}
use multi_mlton.NewObject.Stores.{store_outside}
use multi_mlton.NewObject.Words.{Apart, written, kept}
use multi_mlton.Forward.{Collector, Outcome, returned, memcpy, follow, while_in_from_space}

pub memcpy_inside :
    (mem : Memory) (src dst size i : ℕ)
    → i < size
    → memcpy mem src dst size (dst + i) ≡ mem (src + i)
unfolding memcpy
memcpy_inside mem src dst size i lt =
    let e : dst + i - dst ≡ i = omega arith in
    rw (le→leb dst (dst + i) (omega arith), lt→ltb (dst + i) (dst + size) (omega arith), e) refl

pub memcpy_outside :
    (mem : Memory) (src dst size a : ℕ)
    → (a < dst) ⊎ (dst + size ≤ a)
    → memcpy mem src dst size a ≡ mem a
unfolding memcpy
memcpy_outside mem src dst size a (inl l) = let e : leb dst a ≡ false = ground arith in rw e refl
memcpy_outside mem src dst size a (inr r) =
    let e : ltb a (dst + size) ≡ false = ground arith in
    elim (Bool-cases (leb dst a)) [ inl y ↦ rw (y, e) refl | inr n ↦ rw n refl ]

-- Where the slot at opp, the object at p and its copy lie: the copy fits in the to-space, does not
-- overlap the object, and the slot overlaps neither the copy nor the two words that change.
pub record Places (s : Collector) (opp p header_bytes object_bytes : ℕ) : Type 0 where
  pub points : load 8 s.mem opp ≡ p
  pub header_low : 8 ≤ header_bytes
  pub header_in : header_bytes ≤ p
  pub object_large : 8 ≤ object_bytes
  pub object_in : p + object_bytes + 8 < size_mod
  pub room : s.forward_state.back + (header_bytes + object_bytes) ≤ s.forward_state.to_limit
  pub limit_in : s.forward_state.to_limit + 8 < size_mod
  pub slot_in : opp + 8 < size_mod
  pub copy_apart :
      (p + object_bytes ≤ s.forward_state.back)
      ⊎ (s.forward_state.back + (header_bytes + object_bytes) ≤ p - header_bytes)
  pub slot_apart :
      (opp + 8 ≤ s.forward_state.back)
      ⊎ (s.forward_state.back + (header_bytes + object_bytes) ≤ opp)
  pub slot_object : (opp + 8 ≤ p - 8) ⊎ (p + 8 ≤ opp)

-- What is left in the collector after an object of those bytes has been copied.
abbrev pub forwarded_mem : Collector → ℕ → ℕ → ℕ → Memory
forwarded_mem s p hb ob =
    store 8 (store 8 (memcpy s.mem (p - hb) s.forward_state.back (hb + ob)) (p - 8) forwarded) p
      (s.forward_state.back + hb)

abbrev pub after : Collector → ℕ → ℕ → ℕ → Collector
after s p hb ob = record s {
  mem = forwarded_mem s p hb ob;
  forward_state = record (s.forward_state) { back = s.forward_state.back + (hb + ob) };
}

-- What forwardObjptr leaves: the slot and the first word of the object hold the address of the
-- copy, the header says so, the copy has the bytes of the object, and all else is as before.
pub record Forwarded (s s' : Collector) (opp p hb ob : ℕ) : Type 0 where
  pub slot : load 8 s'.mem opp ≡ s.forward_state.back + hb
  pub header : get_header s'.mem p ≡ forwarded
  pub pointer : load 8 s'.mem p ≡ s.forward_state.back + hb
  pub copy : (i : ℕ) → i < hb + ob → s'.mem (s.forward_state.back + i) ≡ s.mem (p - hb + i)
  pub others :
      (a : ℕ)
      → (a < s.forward_state.back) ⊎ (s.forward_state.back + (hb + ob) ≤ a)
      → (a < opp) ⊎ (opp + 8 ≤ a)
      → (a < p - 8) ⊎ (p + 8 ≤ a)
      → s'.mem a ≡ s.mem a
  pub state : s'.state ≡ s.state
  pub forward_state :
      s'.forward_state ≡ record (s.forward_state) { back = s.forward_state.back + (hb + ob) }
  pub weaks : s'.weaks ≡ s.weaks

module _ (s : Collector) (opp p hb ob : ℕ) (w : Places s opp p hb ob) where
  header_Apart : Apart p (p - 8)
  header_Apart = inr (omega (arith, w.header_low, w.header_in))

  header_slot : Apart opp (p - 8)
  header_slot = elim (w.slot_object) [
    | inl l ↦ inl (omega arith)
    | inr r ↦ inr (omega (arith, w.header_low, w.header_in))
  ]

  pointer_slot : Apart opp p
  pointer_slot = elim (w.slot_object) [
    | inl l ↦ inl (omega (arith, w.header_low, w.header_in))
    | inr r ↦ inr (omega arith)
  ]

  new_fits : s.forward_state.back + hb < size_mod
  new_fits = omega (arith, w.room, w.limit_in)

  pointer_left : load 8 (forwarded_mem s p hb ob) p ≡ s.forward_state.back + hb
  pointer_left =
      written (store 8 (memcpy s.mem (p - hb) s.forward_state.back (hb + ob)) (p - 8) forwarded) p
        (s.forward_state.back + hb) (omega (arith, w.object_in)) new_fits

  header_left : load 8 (forwarded_mem s p hb ob) (p - 8) ≡ forwarded
  header_left =
      kept (store 8 (memcpy s.mem (p - hb) s.forward_state.back (hb + ob)) (p - 8) forwarded) p
        (s.forward_state.back + hb) (omega (arith, w.object_in)) (p - 8) header_Apart
        (omega (arith, w.object_in))
      ∙ written (memcpy s.mem (p - hb) s.forward_state.back (hb + ob)) (p - 8) forwarded
          (omega (arith, w.object_in)) (omega arith)

  -- The three words that are written lie outside the copy.
  byte_left :
      (a : ℕ)
      → (a < p - 8) ⊎ (p + 8 ≤ a)
      → forwarded_mem s p hb ob a ≡ memcpy s.mem (p - hb) s.forward_state.back (hb + ob) a
  byte_left a out =
      store_outside 8
        (store 8 (memcpy s.mem (p - hb) s.forward_state.back (hb + ob)) (p - 8) forwarded) p
        (s.forward_state.back + hb) a (omega (arith, w.object_in))
        (elim out [ inl l ↦ inl (omega arith) | inr r ↦ inr (omega arith) ])
      ∙ store_outside 8 (memcpy s.mem (p - hb) s.forward_state.back (hb + ob)) (p - 8) forwarded a
          (omega (arith, w.object_in))
          (elim out [
            | inl l ↦ inl (omega arith)
            | inr r ↦ inr (omega (arith, w.header_low, w.header_in))
          ])

  copy_outside_object :
      (i : ℕ)
      → i < hb + ob
      → (s.forward_state.back + i < p - 8) ⊎ (p + 8 ≤ s.forward_state.back + i)
  copy_outside_object i lt = elim (w.copy_apart) [
    | inl l ↦ inr (omega (arith, w.object_large))
    | inr r ↦ inl (omega (arith, w.header_low, w.header_in))
  ]

  copy_outside_slot :
      (i : ℕ)
      → i < hb + ob
      → (s.forward_state.back + i < opp) ⊎ (opp + 8 ≤ s.forward_state.back + i)
  copy_outside_slot i lt = elim (w.slot_apart) [
    | inl l ↦ inr (omega arith)
    | inr r ↦ inl (omega arith)
  ]

  follow_after : follow opp p (after s p hb ob) ≡ record (after s p hb ob) {
    mem = store 8 (forwarded_mem s p hb ob) opp (s.forward_state.back + hb);
  }
  unfolding follow
  follow_after = rw pointer_left refl

  pub Forwarded-follow : Forwarded s (follow opp p (after s p hb ob)) opp p hb ob
  unfolding get_header get_headerp
  Forwarded-follow = rw follow_after (record {
    slot = written (forwarded_mem s p hb ob) opp (s.forward_state.back + hb) w.slot_in new_fits;
    header =
        (let at : sub_size p 8 ≡ p - 8 = omega (arith, w.header_in, w.header_low, w.object_in) in
          rw at (
            kept (forwarded_mem s p hb ob) opp (s.forward_state.back + hb) w.slot_in (p - 8)
              header_slot (omega (arith, w.object_in))
            ∙ header_left));
    pointer =
        kept (forwarded_mem s p hb ob) opp (s.forward_state.back + hb) w.slot_in p pointer_slot
          (omega (arith, w.object_in))
        ∙ pointer_left;
    copy = λ i lt.
        store_outside 8 (forwarded_mem s p hb ob) opp (s.forward_state.back + hb)
          (s.forward_state.back + i) w.slot_in (copy_outside_slot i lt)
        ∙ byte_left (s.forward_state.back + i) (copy_outside_object i lt)
        ∙ memcpy_inside s.mem (p - hb) s.forward_state.back (hb + ob) i lt;
    others = λ a copy slot object.
        store_outside 8 (forwarded_mem s p hb ob) opp (s.forward_state.back + hb) a w.slot_in slot
        ∙ byte_left a object
        ∙ memcpy_outside s.mem (p - hb) s.forward_state.back (hb + ob) a copy;
    state = refl;
    forward_state = refl;
    weaks = refl;
  })

pub leaves_from_space :
    (s s' : Collector) (opp new : ℕ)
    → load 8 s'.mem opp ≡ new
    → s'.state ≡ s.state
    → is_objptr_in_from_space s.state s.state.heap new ≡ false
    → is_objptr_in_from_space s'.state s'.state.heap (load 8 s'.mem opp) ≡ false
leaves_from_space s s' opp new slot state out = rw (slot, state) out

pub stop_while :
    (f : Collector → Outcome) (opp fuel : ℕ) (s : Collector)
    → is_objptr_in_from_space s.state s.state.heap (load 8 s.mem opp) ≡ false
    → while_in_from_space f opp (suc fuel) s ≡ returned s
unfolding while_in_from_space
stop_while f opp fuel s out = rw out refl
