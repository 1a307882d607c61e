-- ===== src/Forward/Copy.antt =====
-- A normal object or an array that forwardObjptr meets for the first time.
use multi_mlton.Prelude.{
  ℕ, suc, ◌+◌, ◌-◌, ◌<◌, ◌≡◌, ◌⊎◌, ◌∙◌, inl, inr, refl, ap, false, true, ltb, ◌==◌, some, List,
  arith,
}
use multi_mlton.Align.{size_mod, add_size, sub_size}
use multi_mlton.CardMap.{Memory}
use multi_mlton.Objptr.{native64, objptr_to_pointer}
use multi_mlton.Object.{
  ObjectType, normal_tag, array_tag, load, get_header, get_headerp, split_header,
}
use multi_mlton.ObjectSize.{forwarded, header_and_object_bytes}
use multi_mlton.Heap.Predicates.{is_object_lifted, is_objptr_in_from_space}
use multi_mlton.Stack.{Controls}
use multi_mlton.Objptr.Laws.{objptr_to_pointer_native, pointer_to_objptr_native}
use multi_mlton.Forward.{
  Collector, Outcome, returned, Space, space_of, copy_out, copy_object, follow, while_in_from_space,
  forward_at, forward_objptr, has_weak_pointer,
}
use multi_mlton.Forward.Places.{
  Places, after, Forwarded, Forwarded-follow, leaves_from_space, stop_while,
}

-- A normal object or an array.
abbrev pub IsPlain : ObjectType → Type 0
IsPlain t = (t.tag ≡ normal_tag) ⊎ (t.tag ≡ array_tag)

module _ (types : List ObjectType) (c : Controls) (top_frame_size : ℕ → ℕ) (current_stack : ℕ) where
  abbrev pub sizes : ObjectType → Collector → ℕ → ℕ × ℕ
  sizes t s p = header_and_object_bytes c.alignment s.mem t p p

  space_of_lem :
      (t : ObjectType) (start : ℕ) (mem : Memory) (p : ℕ)
      → IsPlain t
      → space_of types c top_frame_size current_stack t start mem p ≡ record {
        header_bytes = (header_and_object_bytes c.alignment mem t p p).0;
        object_bytes = (header_and_object_bytes c.alignment mem t p p).1;
        skip = 0;
        old_reserved = 0;
        mem = mem;
      }
  unfolding space_of header_and_object_bytes
  space_of_lem t start mem p (inl e) = rw e refl
  space_of_lem t start mem p (inr e) = rw e refl

  has_weak_pointer-IsPlain :
      (t : ObjectType) → IsPlain t → has_weak_pointer types c top_frame_size current_stack t ≡ false
  has_weak_pointer-IsPlain t (inl e) = rw e refl
  has_weak_pointer-IsPlain t (inr e) = rw e refl

  copy_out_lem :
      (t : ObjectType) (s : Collector) (opp p hb ob : ℕ)
      → IsPlain t
      → Places s opp p hb ob
      → copy_out types c top_frame_size current_stack t
          (record { header_bytes = hb; object_bytes = ob; skip = 0; old_reserved = 0; mem = s.mem })
          p
          s
        ≡ returned (after s p hb ob)
  unfolding copy_out get_headerp
  copy_out_lem t s opp p hb ob plain w =
      let size : add_size hb ob ≡ hb + ob = omega (arith, w.room, w.limit_in) in
      let from : sub_size p hb ≡ p - hb = omega (arith, w.header_in, w.object_in) in
      let at : sub_size p 8 ≡ p - 8 = omega (arith, w.header_in, w.header_low, w.object_in) in
      let total : add_size (add_size s.forward_state.back (hb + ob)) 0
          ≡ s.forward_state.back + (hb + ob) =
        omega (arith, w.room, w.limit_in) in
      let room : ltb s.forward_state.to_limit (s.forward_state.back + (hb + ob)) ≡ false =
        ground (arith, w.room) in
      let new : add_size s.forward_state.back hb ≡ s.forward_state.back + hb =
        omega (arith, w.room, w.limit_in) in
      let plain_size : add_size (hb + ob) 0 ≡ hb + ob = omega (arith, w.room, w.limit_in) in
      let back : add_size s.forward_state.back (hb + ob) ≡ s.forward_state.back + (hb + ob) =
        omega (arith, w.room, w.limit_in) in
      rw
        (
          size,
          from,
          at,
          has_weak_pointer-IsPlain t plain,
          total,
          room,
          new,
          pointer_to_objptr_native (s.forward_state.back + hb) s.forward_state.to_start
              (omega (arith, w.room, w.limit_in)),
          plain_size,
          back,
        )
        refl

  copy_object_lem :
      (s : Collector) (opp p header : ℕ) (t : ObjectType)
      → split_header types header ≡ some t
      → IsPlain t
      → Places s opp p (sizes t s p).0 (sizes t s p).1
      → copy_object types c top_frame_size current_stack header p s
        ≡ returned (after s p (sizes t s p).0 (sizes t s p).1)
  unfolding copy_object
  copy_object_lem s opp p header t e plain w =
      rw (copy_object, e)
        (ap (λ (q : Space). copy_out types c top_frame_size current_stack t q p s)
            (space_of_lem t s.state.heap.start s.mem p plain)
          ∙ copy_out_lem t s opp p (sizes t s p).0 (sizes t s p).1 plain w)

  forward_at_new :
      (f : Collector → Outcome) (fuel opp p header : ℕ) (s s' : Collector)
      → is_object_lifted header ≡ false
      → (header == forwarded) ≡ false
      → copy_object types c top_frame_size current_stack header p s ≡ returned s'
      → forward_at types c top_frame_size current_stack f fuel opp p header s
        ≡ while_in_from_space f opp fuel (follow opp p s')
  unfolding forward_at
  forward_at_new f fuel opp p header s s' unlifted fresh copied = rw (unlifted, fresh, copied) refl

  pub forward_at_old :
      (f : Collector → Outcome) (fuel opp p header : ℕ) (s : Collector)
      → is_object_lifted header ≡ false
      → (header == forwarded) ≡ true
      → forward_at types c top_frame_size current_stack f fuel opp p header s
        ≡ while_in_from_space f opp fuel (follow opp p s)
  unfolding forward_at
  forward_at_old f fuel opp p header s unlifted seen = rw (unlifted, seen) refl

  -- The object that the slot points at.
  pub forward_objptr_at :
      (fuel : ℕ) (s : Collector) (opp p : ℕ)
      → load 8 s.mem opp ≡ p
      → p < size_mod
      → forward_objptr types c top_frame_size current_stack (suc fuel) s opp
        ≡ forward_at types c top_frame_size current_stack
            (λ s'. forward_objptr types c top_frame_size current_stack fuel s' opp)
            fuel
            opp
            p
            (get_header s.mem p)
            s
  unfolding forward_objptr
  forward_objptr_at fuel s opp p points inside =
      let at : objptr_to_pointer native64 (load 8 s.mem opp) s.state.heap.start ≡ p =
        rw points (objptr_to_pointer_native p s.state.heap.start inside) in
      ap
        (λ (q : ℕ).
          forward_at types c top_frame_size current_stack
            (λ s'. forward_objptr types c top_frame_size current_stack fuel s' opp) fuel opp q
            (get_header s.mem q) s)
        at

  -- For a normal object or an array whose header names a type of the table and is neither lifted
  -- nor forwarded, a slot that points at it, a to-space with room for the copy, places that do not
  -- overlap (Places) and a copy outside the from-space: forwardObjptr returns; the slot and the
  -- first word of the object hold the address of the copy, the header of the object is
  -- GC_FORWARDED, the copy has the bytes that the object had, `back` has moved by its size, and
  -- every other byte is as before.
  pub forward_objptr_lem :
      (fuel : ℕ) (s : Collector) (opp p : ℕ) (t : ObjectType)
      → split_header types (get_header s.mem p) ≡ some t
      → IsPlain t
      → is_object_lifted (get_header s.mem p) ≡ false
      → (get_header s.mem p == forwarded) ≡ false
      → Places s opp p (sizes t s p).0 (sizes t s p).1
      → is_objptr_in_from_space s.state s.state.heap (s.forward_state.back + (sizes t s p).0)
        ≡ false
      → (s' : Collector) × (forward_objptr types c top_frame_size current_stack
            (suc (suc fuel))
            s
            opp
          ≡ returned s')
        × Forwarded s s' opp p (sizes t s p).0 (sizes t s p).1
  forward_objptr_lem fuel s opp p t e plain unlifted fresh w out =
      let s' = after s p (sizes t s p).0 (sizes t s p).1 in
      let left = Forwarded-follow s opp p (sizes t s p).0 (sizes t s p).1 w in
      (
        follow opp p s',
        forward_objptr_at (suc fuel) s opp p w.points (omega (arith, w.object_in))
            ∙ forward_at_new _ (suc fuel) opp p (get_header s.mem p) s s' unlifted fresh
                (copy_object_lem s opp p (get_header s.mem p) t e plain w)
            ∙ stop_while _ opp fuel (follow opp p s')
                (leaves_from_space s (follow opp p s') opp _ left.slot left.state out),
        left,
      )
