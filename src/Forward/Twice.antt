-- ===== src/Forward/Twice.antt =====
-- Two slots that point at one object end up with one copy.
use multi_mlton.Prelude.{
  ℕ, suc, ◌+◌, ◌<◌, ◌≡◌, ◌∙◌, inl, inr, refl, sym, ap, false, true, ◌==◌, some, List, arith,
}
use multi_mlton.Align.{size_mod}
use multi_mlton.Object.{ObjectType, load, get_header, split_header}
use multi_mlton.ObjectSize.{forwarded}
use multi_mlton.ArrayAllocate.{store}
use multi_mlton.Heap.Predicates.{is_object_lifted, is_objptr_in_from_space}
use multi_mlton.Stack.{Controls}
use multi_mlton.NewObject.Stores.{load_same}
use multi_mlton.NewObject.Words.{Apart, written, kept, load_eight-lt}
use multi_mlton.Forward.{Collector, returned, follow, forward_objptr}
use multi_mlton.Forward.Copy.{IsPlain, sizes, forward_objptr_lem, forward_objptr_at, forward_at_old}
use multi_mlton.Forward.Places.{Places, stop_while, leaves_from_space}

forwarded_unlifted : (h : ℕ) → h ≡ forwarded → is_object_lifted h ≡ false
unfolding is_object_lifted
forwarded_unlifted h e = rw e refl

seen_test : (h : ℕ) → h ≡ forwarded → (h == forwarded) ≡ true
seen_test h e = rw e refl

module _ (types : List ObjectType) (c : Controls) (top_frame_size : ℕ → ℕ) (current_stack : ℕ) where
  -- A slot at an object that has been forwarded gets what the first word of the object says.
  forward_objptr-forwarded :
      (fuel : ℕ) (s : Collector) (opp p new : ℕ)
      → load 8 s.mem opp ≡ p
      → p < size_mod
      → opp + 8 < size_mod
      → get_header s.mem p ≡ forwarded
      → load 8 s.mem p ≡ new
      → is_objptr_in_from_space s.state s.state.heap new ≡ false
      → (forward_objptr types c top_frame_size current_stack (suc (suc fuel)) s opp
          ≡ returned (record s { mem = store 8 s.mem opp new }))
        × (load 8 (store 8 s.mem opp new) opp ≡ new)
  unfolding follow
  forward_objptr-forwarded fuel s opp p new points inside slot_in seen pointer out =
      let to : follow opp p s ≡ record s { mem = store 8 s.mem opp new } =
        ap (λ (v : ℕ). record s { mem = store 8 s.mem opp v }) pointer in
      let short : new < size_mod = rw (← pointer) (load_eight-lt s.mem p) in
      let slot = written s.mem opp new slot_in short in
      (
        forward_objptr_at types c top_frame_size current_stack (suc fuel) s opp p points inside
            ∙ forward_at_old types c top_frame_size current_stack _ (suc fuel) opp p
                (get_header s.mem p) s (forwarded_unlifted (get_header s.mem p) seen)
                (seen_test (get_header s.mem p) seen)
            ∙ ap
                (λ (q : Collector).
                  multi_mlton.Forward.while_in_from_space
                    (λ s'. forward_objptr types c top_frame_size current_stack (suc fuel) s' opp)
                    opp (suc fuel) q)
                to
            ∙ stop_while _ opp fuel (record s { mem = store 8 s.mem opp new })
                (leaves_from_space s (record s { mem = store 8 s.mem opp new }) opp new slot refl
                  out),
        slot,
      )

  -- For a normal object or an array whose header is neither lifted nor forwarded, two slots that
  -- point at it and do not overlap, places as in Places for both, and a copy outside the from-
  -- space: forwardObjptr returns at the first slot and then at the second one, both slots hold the
  -- same address, that of the copy, and the second call makes no copy.
  pub forward_objptr_twice :
      (fuel : ℕ) (s : Collector) (opp opp' p : ℕ) (t : ObjectType)
      → split_header types (get_header s.mem p) ≡ some t
      → IsPlain t
      → is_object_lifted (get_header s.mem p) ≡ false
      → (get_header s.mem p == forwarded) ≡ false
      → Places s opp p
          (sizes types c top_frame_size current_stack t s p).0
          (sizes types c top_frame_size current_stack t s p).1
      → Places s opp' p
          (sizes types c top_frame_size current_stack t s p).0
          (sizes types c top_frame_size current_stack t s p).1
      → Apart opp opp'
      → is_objptr_in_from_space s.state s.state.heap
          (s.forward_state.back + (sizes types c top_frame_size current_stack t s p).0)
        ≡ false
      → (s' s'' : Collector) × (forward_objptr types c top_frame_size current_stack
            (suc (suc fuel))
            s
            opp
          ≡ returned s')
        × (forward_objptr types c top_frame_size current_stack (suc (suc fuel)) s' opp'
            ≡ returned s'')
        × (load 8 s''.mem opp ≡ load 8 s''.mem opp')
        × (load 8 s''.mem opp'
            ≡ s.forward_state.back + (sizes types c top_frame_size current_stack t s p).0)
        × (s''.forward_state ≡ s'.forward_state)
  forward_objptr_twice fuel s opp opp' p t e plain unlifted fresh w w' apart out =
      let (s', done, f) =
        forward_objptr_lem types c top_frame_size current_stack fuel s opp p t e plain unlifted
          fresh w out in
      let points : load 8 s'.mem opp' ≡ p =
        load_same 8 s'.mem s.mem opp' (w'.slot_in) (λ a le lt.
          f.others a
            (elim (w'.slot_apart) [ inl l ↦ inl (omega arith) | inr r ↦ inr (omega arith) ])
            (elim apart [ inl l ↦ inr (omega arith) | inr r ↦ inl (omega arith) ])
            (elim (w'.slot_object) [ inl l ↦ inl (omega arith) | inr r ↦ inr (omega arith) ]))
        ∙ w'.points in
      let new = s.forward_state.back + (sizes types c top_frame_size current_stack t s p).0 in
      let out' : is_objptr_in_from_space s'.state s'.state.heap new ≡ false = rw (f.state) out in
      let again =
        forward_objptr-forwarded fuel s' opp' p new points (omega (arith, w.object_in)) w'.slot_in
          f.header f.pointer out' in
      (
        s',
        record s' { mem = store 8 s'.mem opp' new },
        done,
        again.0,
        kept s'.mem opp' new w'.slot_in opp (elim apart [ inl l ↦ inr l | inr r ↦ inl r ]) w.slot_in
            ∙ f.slot
            ∙ sym (again.1),
        again.1,
        refl,
      )
