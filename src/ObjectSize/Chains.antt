-- ===== src/ObjectSize/Chains.antt =====
-- Forwarding pointers and threaded headers as chains, and the fuel that walks a whole one.
use multi_mlton.Prelude.{
  ℕ, zero, suc, ◌<◌, ◌≡◌, ◌==◌, true, false, some, List, bit_and, refl, arith,
}
use multi_mlton.CardMap.{Memory}
use multi_mlton.Objptr.{native64, objptr_to_pointer}
use multi_mlton.Object.{ObjectType, load, header_size, get_header, split_header}
use multi_mlton.ObjectSize.{forwarded, follow_forwarded, follow_threaded, type_of_object}

-- `Forwards mem base n p q`: n forwarding pointers lead from p to q, which is not forwarded.
pub data Forwards : Memory → ℕ → ℕ → ℕ → ℕ → Type 0 where
  here :
      {mem : Memory} {base p : ℕ}
      → (get_header mem p == forwarded) ≡ false
      → Forwards mem base 0 p p
  there :
      {mem : Memory} {base n p q : ℕ}
      → (get_header mem p == forwarded) ≡ true
      → Forwards mem base n (objptr_to_pointer native64 (load 8 mem p) base) q
      → Forwards mem base (suc n) p q

-- `Threads mem n h k`: n threaded words lead from the header word h to the header k.
pub data Threads : Memory → ℕ → ℕ → ℕ → Type 0 where
  header : {mem : Memory} {h : ℕ} → (bit_and h 1 == 0) ≡ false → Threads mem 0 h h
  thread :
      {mem : Memory} {n h k : ℕ}
      → (bit_and h 1 == 0) ≡ true
      → Threads mem n (load header_size mem h) k
      → Threads mem (suc n) h k

pub follow_forwarded_lem :
    (fuel : ℕ) {mem : Memory} {base n p q : ℕ}
    → Forwards mem base n p q
    → n < fuel
    → follow_forwarded fuel mem base p ≡ some q
unfolding follow_forwarded
follow_forwarded_lem zero w h = absurd (omega arith)
follow_forwarded_lem (suc fuel) (here e) h = rw e refl
follow_forwarded_lem (suc fuel) (there e w) h = rw e (follow_forwarded_lem fuel w (omega arith))

pub follow_threaded_lem :
    (fuel : ℕ) {mem : Memory} {n h k : ℕ}
    → Threads mem n h k
    → n < fuel
    → follow_threaded fuel mem h ≡ some k
unfolding follow_threaded
follow_threaded_lem zero w lt = absurd (omega arith)
follow_threaded_lem (suc fuel) (header e) lt = rw e refl
follow_threaded_lem (suc fuel) (thread e w) lt = rw e (follow_threaded_lem fuel w (omega arith))

pub type_of_object_lem :
    (types : List ObjectType) (fuel : ℕ) {mem : Memory} {base n m p q h : ℕ} {t : ObjectType}
    → Forwards mem base n p q
    → n < fuel
    → Threads mem m (get_header mem q) h
    → m < fuel
    → split_header types h ≡ some t
    → type_of_object types base fuel mem p ≡ some (q, t)
unfolding type_of_object
type_of_object_lem types fuel f lf w lw e =
    rw (type_of_object, follow_forwarded_lem fuel f lf, follow_threaded_lem fuel w lw, e) refl
