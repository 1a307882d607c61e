-- ===== src/HashCons/Equal.antt =====
-- What compares equal, and the whole of hashConsPointer.
use multi_mlton.Prelude.{
  ℕ, zero, suc, ◌+◌, ◌*◌, ◌%◌, ◌≤◌, ◌<◌, ◌≡◌, ◌≢◌, refl, sym, ◌∙◌, Bool, true, false, ltb, ltb→lt,
  not_ltb→le, ◌==◌, ==_iff, arith, Bool-cases, inl, inr, ◌⊎◌, some, List,
}
use multi_mlton.Align.{size_mod, add_size}
use multi_mlton.CardMap.{Memory}
use multi_mlton.Object.{
  ObjectTypeTag, ObjectType, array_tag, normal_tag, stack_tag, weak_tag, header_only_tag, fill_tag,
  load, get_header, get_array_length, split_header,
}
use multi_mlton.HashCons.{
  HashTable, word32, same_words, same_length, lengths_match, shared_bytes, bytes_saved, same_object,
  hash_words, insert_hash_table_elem, grow_hash_table_maybe, hash_cons_typed, hash_cons_pointer,
}
use multi_mlton.HashCons.Grow.Invariant.{IsTable, insert-IsTable}
use multi_mlton.HashCons.Grow.Whole.{grow_hash_table_maybe_lem}

-- The address of word j, in pointer arithmetic.
abbrev pub word_at : ℕ → ℕ → ℕ
word_at p zero = p
word_at p (suc j) = add_size p (4 * suc j)

word_at_next : (p j : ℕ) → word_at (add_size p 4) j ≡ word_at p (suc j)
word_at_next p zero = omega arith
word_at_next p (suc j) = omega arith

-- The 32-bit words of the two objects agree up to `max`.
abbrev pub WordsAgree : Memory → ℕ → ℕ → ℕ → Type 0
WordsAgree mem p q max =
    (j : ℕ) → p + 4 * j < max → load 4 mem (p + 4 * j) ≡ load 4 mem (word_at q j)

module _ (mem : Memory) where
  words_step :
      (p q max : ℕ)
      → load 4 mem p ≡ load 4 mem q
      → add_size p 4 ≡ p + 4
      → WordsAgree mem (add_size p 4) (add_size q 4) max
      → WordsAgree mem p q max
  words_step p q max here next rest zero lt = let e : p + 4 * 0 ≡ p = omega arith in rw e here
  words_step p q max here next rest (suc j) lt =
      let e : p + 4 * suc j ≡ add_size p 4 + 4 * j = omega (arith, next) in
      rw (e, ← word_at_next q j) (rest j (omega (arith, next)))

  same_words_lem :
      (words p q max : ℕ)
      → p < max + 4
      → max + 4 ≤ size_mod
      → max + 4 ≤ p + 4 * words
      → (b : Bool) × (same_words mem words p q max ≡ some b) × (b ≡ true → WordsAgree mem p q max)
  unfolding same_words
  same_words_lem zero p q max lt fits enough = absurd (omega arith)
  same_words_lem (suc words) p q max lt fits enough = elim (Bool-cases (ltb p max)) [
    | inr stop ↦
        (true, rw (same_words, stop) refl, λ e j less. absurd (omega (arith, not_ltb→le _ _ stop)))
    | inl go ↦
        (let less = ltb→lt _ _ go in
          let next : add_size p 4 ≡ p + 4 = omega (arith, less) in
          let (b, e, agree) =
            same_words_lem words (add_size p 4) (add_size q 4) max (omega (arith, next, less)) fits
              (omega (arith, next)) in
          elim (Bool-cases (load 4 mem p == load 4 mem q)) [
            | inl same ↦ (
              b,
              rw (same_words, go, same) e,
              λ t.
                  words_step p q max ((==_iff (load 4 mem p) (load 4 mem q)).0 same) next (agree t),
            )
            | inr differs ↦
                (false, rw (same_words, go, differs) refl, λ (t : false ≡ true). absurd (cc))
          ])
  ]

  hash_words_lem :
      (words hash p max : ℕ)
      → p < max + 4
      → max + 4 ≤ size_mod
      → max + 4 ≤ p + 4 * words
      → (h : ℕ) × (hash_words mem words hash p max ≡ some h)
  unfolding hash_words
  hash_words_lem zero hash p max lt fits enough = absurd (omega arith)
  hash_words_lem (suc words) hash p max lt fits enough = elim (Bool-cases (ltb p max)) [
    | inr stop ↦ (hash, rw (hash_words, stop) refl)
    | inl go ↦
        (let less = ltb→lt _ _ go in
          let next : add_size p 4 ≡ p + 4 = omega (arith, less) in
          let (h, e) =
            hash_words_lem words ((hash * 31 + load 4 mem p) % word32) (add_size p 4) max
              (omega (arith, next, less)) fits (omega (arith, next)) in
          (h, rw (hash_words, go) e))
  ]

-- The two objects have the same header, the same words up to `max`, and, as arrays, one length.
pub record SameContent (mem : Memory) (t : ObjectType) (p q max : ℕ) : Type 0 where
  pub header : get_header mem p ≡ get_header mem q
  pub words : WordsAgree mem p q max
  pub length : t.tag ≡ array_tag → get_array_length mem p ≡ get_array_length mem q

lengths_match_lem :
    (g : ObjectTypeTag) (a b : ℕ) → lengths_match g a b ≡ true → g ≡ array_tag → a ≡ b
unfolding lengths_match
lengths_match_lem array_tag a b e is = (==_iff a b).0 e
lengths_match_lem normal_tag a b e is = absurd (cc)
lengths_match_lem stack_tag a b e is = absurd (cc)
lengths_match_lem weak_tag a b e is = absurd (cc)
lengths_match_lem header_only_tag a b e is = absurd (cc)
lengths_match_lem fill_tag a b e is = absurd (cc)

same_length_lem :
    (types : List ObjectType) (mem : Memory) (words object q : ℕ) {t : ObjectType}
    → split_header types (get_header mem object) ≡ some t
    → (b : Bool) × (same_length types mem words object q ≡ some b)
      × (b ≡ true → t.tag ≡ array_tag → get_array_length mem object ≡ get_array_length mem q)
unfolding same_length
same_length_lem types mem words object q {t} typed = (
  lengths_match t.tag (get_array_length mem object) (get_array_length mem q),
  rw (same_length, typed) refl,
  lengths_match_lem t.tag (get_array_length mem object) (get_array_length mem q),
)

module _ (types : List ObjectType) (mem : Memory) (words : ℕ) {t : ObjectType} {object max : ℕ}
    (typed : split_header types (get_header mem object) ≡ some t) (after : object < max + 4)
    (fits : max + 4 ≤ size_mod) (enough : max + 4 ≤ object + 4 * words) where
  same_object_lem :
      (q : ℕ)
      → (b : Bool) × (same_object types mem words object q max ≡ some b)
        × (b ≡ true → (q ≡ object) ⊎ SameContent mem t object q max)
  unfolding same_object
  same_object_lem q = elim (Bool-cases (object == q)) [
    | inl itself ↦
        (true, rw (same_object, itself) refl, λ e. inl (sym ((==_iff object q).0 itself)))
    | inr other ↦ elim (Bool-cases (get_header mem object == get_header mem q)) [
      | inr differs ↦
          (false, rw (same_object, other, differs) refl, λ (x : false ≡ true). absurd (cc))
      | inl same ↦
          (let (b, e, agree) = same_words_lem mem words object q max after fits enough in
            elim (Bool-cases b) [
              | inr apart ↦ (
                false,
                rw (same_object, other, same, e, apart) refl,
                λ (x : false ≡ true). absurd (cc),
              )
              | inl alike ↦
                  (let (b', e', counted) = same_length_lem types mem words object q typed in
                    (
                      b',
                      rw (same_object, other, same, e, alike) e',
                      λ x. inr (record {
                        header = (==_iff (get_header mem object) (get_header mem q)).0 same;
                        words = agree alike;
                        length = counted x;
                      }),
                    ))
            ])
    ]
  ]

module _ (types : List ObjectType) (mem : Memory) (words mult alignment : ℕ)
    (granted : ℕ → Bool) where
  typed_steps :
      (fuel : ℕ) (count_bytes : Bool) (table inserted grown : HashTable) (t : ObjectType)
      (object max h r : ℕ)
      → add_size object (shared_bytes mem alignment t object) ≡ max
      → hash_words mem words (get_header mem object % word32) object max ≡ some h
      → insert_hash_table_elem types mem words mult fuel table h object max true
        ≡ some (r, inserted)
      → grow_hash_table_maybe types mem words mult (fuel * 2) granted inserted ≡ some grown
      → hash_cons_typed types mem words mult alignment granted fuel count_bytes table t object
        ≡ some (r, grown, bytes_saved count_bytes mem alignment t object r)
  unfolding hash_cons_typed
  typed_steps fuel count_bytes table inserted grown t object max h r end hashed found grew =
      rw (hash_cons_typed, end, hashed, found, grew) refl

  typed_lem :
      (fuel : ℕ) (count_bytes : Bool) (table : HashTable) (t : ObjectType) (object : ℕ)
      → IsTable 0 table
      → table.elements_length_max_log2 < 31
      → table.elements_length_max ≤ fuel
      → object ≢ 0
      → split_header types (get_header mem object) ≡ some t
      → object + shared_bytes mem alignment t object + 4 ≤ size_mod
      → shared_bytes mem alignment t object + 4 ≤ 4 * words
      → (r : ℕ) × (table' : HashTable) × (saved : ℕ) × (hash_cons_typed types mem words mult
            alignment granted fuel count_bytes table t object
          ≡ some (r, table', saved))
        × IsTable 0 table'
        × ((r ≡ object) ⊎ SameContent mem t object r (object + shared_bytes mem alignment t object))
  typed_lem fuel count_bytes table t object v high enough nz typed fits long =
      let max = object + shared_bytes mem alignment t object in
      let end : add_size object (shared_bytes mem alignment t object) ≡ max = omega (arith, fits) in
      let (h, eh) =
        hash_words_lem mem words (get_header mem object % word32) object max (omega arith) fits
          (omega (arith, long)) in
      let same = same_object_lem types mem words typed (omega arith) fits (omega (arith, long)) in
      let (r, t₁, e₁, v₁, l₁, k₁, is) =
        insert-IsTable types mem words mult fuel table h object max v nz
          (λ x p. (let s = same p in (s.0, s.1))) enough in
      let (t₂, e₂, v₂, kept) =
        grow_hash_table_maybe_lem types mem words mult (fuel * 2) granted t₁ v₁ (rw k₁ high)
          (rw l₁ (omega (arith, enough))) in
      (
        r,
        t₂,
        bytes_saved count_bytes mem alignment t object r,
        typed_steps fuel count_bytes table t₁ t₂ t object max h r end eh e₁ e₂,
        v₂,
        elim is [
          | inl itself ↦ inl itself
          | inr eq ↦
              (let s = same r in
                let truth : s.0 ≡ true = (let both = sym s.1 ∙ eq in cc) in s.2 truth)
        ],
      )

  -- For a table that satisfies the invariant, has fewer than 2^31 slots and no more slots than
  -- fuel, and an object other than the null pointer whose header names a type and whose bytes end
  -- before the last word of the address space, hashConsPointer returns; the table satisfies the
  -- invariant again; and the answer is the object itself or one with the same header, the same
  -- 32-bit words up to the end of the object and, for an array, the same length.
  pub hash_cons_pointer_lem :
      (fuel : ℕ) (count_bytes : Bool) (table : HashTable) {t : ObjectType} (object : ℕ)
      → IsTable 0 table
      → table.elements_length_max_log2 < 31
      → table.elements_length_max ≤ fuel
      → object ≢ 0
      → split_header types (get_header mem object) ≡ some t
      → object + shared_bytes mem alignment t object + 4 ≤ size_mod
      → shared_bytes mem alignment t object + 4 ≤ 4 * words
      → (r : ℕ) × (table' : HashTable) × (saved : ℕ) × (hash_cons_pointer types mem words mult
            alignment granted fuel count_bytes table object
          ≡ some (r, table', saved))
        × IsTable 0 table'
        × ((r ≡ object) ⊎ SameContent mem t object r (object + shared_bytes mem alignment t object))
  unfolding hash_cons_pointer
  hash_cons_pointer_lem fuel count_bytes table {t} object v high enough nz typed fits long =
      elim (Bool-cases t.has_identity) [
        | inl unshared ↦
            (object, table, 0, rw (hash_cons_pointer, typed, unshared) refl, v, inl refl)
        | inr shared ↦
            (let (r, t', saved, e, v', is) =
                typed_lem fuel count_bytes table t object v high enough nz typed fits long in
              (r, t', saved, rw (hash_cons_pointer, typed, shared) e, v', is))
      ]
