-- ===== src/SchedulerQueue/Lock/Safety.antt =====
-- Who holds the lock in a reachable state.
use multi_mlton.Prelude.{◌||◌, ℕ, ◌+◌, ◌<◌, ◌≡◌, refl, true, none, ◌==◌, if◌then◌else◌, arith}
use multi_mlton.SchedulerQueue.Lock.{
  Lock, is_owner, is_free, Phase, enter, swap, done, acquire_step, release, System, Step, call, go,
  leave, init, Reach, start, later,
}

-- The depth that the lock records for a processor.
abbrev pub held : Lock → ℕ → ℕ
held l i = if is_owner i l then l.count + 1 else 0

pub record Inv (s : System) : Type 0 where
  pub depths : (i : ℕ) → (s.threads i).depth ≡ held s.lock i
  pub unowned : s.lock.id ≡ none → s.lock.count ≡ 0
  pub waiting : (i : ℕ) → (s.threads i).phase ≡ swap → (s.threads i).depth ≡ 0

Inv-init : Inv init
Inv-init = record { depths = λ i. refl; unowned = λ e. refl; waiting = λ i e. refl }

Step-Inv : {s t : System} → Step s t → Inv s → Inv t
unfolding acquire_step release
Step-Inv (call i e) inv = record {
  depths = λ j. ground (arith, inv.depths j);
  unowned = inv.unowned;
  waiting = λ j q. ground (arith, inv.waiting j);
}
Step-Inv {s} (go i e) inv = record {
  depths = λ j. ground (arith, inv.depths j, inv.depths i, inv.unowned);
  unowned = λ q. ground (arith, inv.unowned);
  waiting = λ j q. ground (arith, inv.waiting j, inv.depths j);
}
Step-Inv (leave i e d) inv = record {
  depths = λ j. ground (arith, inv.depths j, inv.depths i);
  unowned = λ q. ground (arith, inv.unowned);
  waiting = λ j q. ground (arith, inv.waiting j);
}

pub Reach-Inv : {s : System} → Reach s → Inv s
Reach-Inv start = Inv-init
Reach-Inv (later r st) = Step-Inv st (Reach-Inv r)

-- In every state that interleaved steps of GC_sqAcquireLock and GC_sqReleaseLock reach from a free
-- lock, two processors that both hold acquisitions which they have not given back are the same one.
pub mutual_exclusion :
    {s : System} → Reach s → (i j : ℕ) → 0 < (s.threads i).depth → 0 < (s.threads j).depth → i ≡ j
mutual_exclusion r i j hi hj = ground (arith, (Reach-Inv r).depths i, (Reach-Inv r).depths j)

-- In a reachable state, a release by a holder frees the lock exactly if it gives back the last of
-- the holder's acquisitions.
pub release-IsFree :
    {s : System}
    → Reach s
    → (i : ℕ) → 0 < (s.threads i).depth
    → is_free (release s.lock) ≡ ((s.threads i).depth == 1)
unfolding release
release-IsFree r i h = ground (arith, (Reach-Inv r).depths i)

-- Three steps of GC_sqAcquireLock with no other processor in between.
abbrev pub acquire_now : ℕ → Lock → Phase × Lock
acquire_now self l =
    let (p, l1) = acquire_step self enter l in
    let (q, l2) = acquire_step self p l1 in acquire_step self q l2

-- In a reachable state where the lock is free, or the caller's own, three steps of GC_sqAcquireLock
-- with no other processor in between return with the lock held by the caller, and a release then
-- leaves the lock as it was found.
pub release-acquire_now :
    {s : System}
    → Reach s
    → (i : ℕ) → (is_free s.lock || is_owner i s.lock) ≡ true
    → let (p, l) = acquire_now i s.lock in (p ≡ done) × (is_owner i l ≡ true) × (release l ≡ s.lock)
unfolding acquire_step release
release-acquire_now r i h = ground (arith, (Reach-Inv r).unowned)
