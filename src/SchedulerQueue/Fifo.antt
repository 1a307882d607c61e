-- ===== src/SchedulerQueue/Fifo.antt =====
-- What a scheduler queue promises: an unbounded queue of keys, oldest first.
use multi_mlton.Prelude.{ℕ, Option, none, some, List, [], ◌∷◌, ◌++◌}

abbrev pub Fifo : Type 0
Fifo = List ℕ

unfoldable pub push : Fifo → ℕ → Fifo
push q k = q ++ (k ∷ [])

unfoldable pub pop : Fifo → Option ℕ × Fifo
pop [] = (none, [])
pop (k ∷ q) = (some k, q)
