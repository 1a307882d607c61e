-- ===== src/CardMap/Sizes.antt =====
-- The maps have an element for each card of the heap, in whole pages.
use multi_mlton.Prelude.{ℕ, ◌+◌, ◌*◌, ◌/◌, ◌^◌, ◌≤◌, ◌<◌, ◌≡◌, refl, Bool, true, false, arith}
use multi_mlton.Align.{size_mod, mul_size, IsPow2, is_aligned, align}
use multi_mlton.Align.Laws.{align_bounds, align_mono}
use multi_mlton.CardMap.{size_to_card_map_index, sizeof_card_map, sizeof_card_map_and_cross_map}

card_bytes :
    (heap_size : ℕ)
    → heap_size < size_mod
    → mul_size (size_to_card_map_index heap_size) 1 ≡ heap_size / 256
unfolding size_to_card_map_index
card_bytes heap_size lt = omega arith

no_maps : (page heap_size : ℕ) → sizeof_card_map false page heap_size ≡ 0
unfolding sizeof_card_map
no_maps page heap_size = refl

with_maps :
    (page heap_size : ℕ)
    → heap_size < size_mod
    → sizeof_card_map true page heap_size ≡ align (heap_size / 256) page
unfolding sizeof_card_map
with_maps page heap_size lt = rw (card_bytes heap_size lt)

-- With cards marked, pages a power of two, and a heap size that is a word and whose number of cards
-- leaves room for rounding, the card map is a whole number of pages with room for a byte for each
-- card, and less than a page more.
pub sizeof_card_map_bounds :
    (page heap_size : ℕ)
    → IsPow2 page
    → heap_size < size_mod
    → heap_size / 256 + page ≤ size_mod
    → let n = sizeof_card_map true page heap_size in
      (is_aligned n page ≡ true) × (heap_size / 256 ≤ n) × (n < heap_size / 256 + page)
unfolding sizeof_card_map
sizeof_card_map_bounds page heap_size w lt le =
    rw (card_bytes heap_size lt) (align_bounds (heap_size / 256) w le)

-- The cross map is as large as the card map, and both together are two of them.
pub sizeof_card_map_and_cross_map_lem :
    (marks : Bool) (page heap_size : ℕ)
    → IsPow2 page
    → page ≤ 2 ^ 32
    → heap_size < 2 ^ 63
    → sizeof_card_map_and_cross_map marks page heap_size ≡ 2 * sizeof_card_map marks page heap_size
unfolding sizeof_card_map_and_cross_map
sizeof_card_map_and_cross_map_lem false page heap_size w small lt = refl
sizeof_card_map_and_cross_map_lem true page heap_size w small lt =
    omega (arith, sizeof_card_map_bounds page heap_size w (omega arith) (omega arith))

-- With pages a power of two up to 2^32, of two heap sizes below 2^63 the larger has no smaller card
-- map and cross map together, whether cards are marked or not.
pub maps_mono :
    (marks : Bool) (page a b : ℕ)
    → IsPow2 page
    → page ≤ 2 ^ 32
    → a ≤ b
    → b < 2 ^ 63
    → sizeof_card_map_and_cross_map marks page a ≤ sizeof_card_map_and_cross_map marks page b
maps_mono false page a b w small le lt =
    rw
      (
        sizeof_card_map_and_cross_map_lem false page a w small (omega arith),
        sizeof_card_map_and_cross_map_lem false page b w small lt,
        no_maps page a,
        no_maps page b,
      )
      (omega arith)
maps_mono true page a b w small le lt =
    let step : sizeof_card_map true page a ≤ sizeof_card_map true page b =
      rw (with_maps page a (omega arith), with_maps page b (omega arith))
        (align_mono (a / 256) (b / 256) w (omega arith) (omega arith)) in
    omega (
      arith,
      step,
      sizeof_card_map_and_cross_map_lem true page a w small (omega arith),
      sizeof_card_map_and_cross_map_lem true page b w small lt,
    )
