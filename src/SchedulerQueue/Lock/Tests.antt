-- ===== src/SchedulerQueue/Lock/Tests.antt =====
-- Processor 0 takes the lock; processor 1 waits for it.
use multi_mlton.Prelude.{ℕ, ◌<◌, ◌≡◌, refl, true, arith}
use multi_mlton.SchedulerQueue.Lock.{
  is_owner, enter, again, acquire_step, System, moved, advance, call, go, init, Reach, start, later,
}
use multi_mlton.SchedulerQueue.Lock.Safety.{mutual_exclusion}

-- A call and a step of it, by evaluation.
abbrev called : System → ℕ → System
called s i = moved s i (record { phase = enter; depth = (s.threads i).depth }) s.lock

abbrev stepped : System → ℕ → System
stepped s i =
    moved s i (advance (s.threads i) (acquire_step i (s.threads i).phase s.lock).0)
      (acquire_step i (s.threads i).phase s.lock).1

abbrev owned : System
owned = stepped (stepped (stepped (called init 0) 0) 0) 0

owned_reached : Reach owned
unfolding acquire_step
owned_reached =
    later (later (later (later start (call 0 refl)) (go 0 (cc))) (go 0 (cc))) (go 0 (cc))

owner_depth : 0 < (owned.threads 0).depth
unfolding acquire_step
owner_depth = omega arith

-- Processor 1 is turned away at its test.
waiter_waits : (acquire_step 1 again owned.lock).0 ≡ again
unfolding acquire_step
waiter_waits = refl

mutual_exclusion_example : ◌≡◌ {A = ℕ} 0 0
mutual_exclusion_example = mutual_exclusion owned_reached 0 0 owner_depth owner_depth

owned_by_0 : is_owner 0 owned.lock ≡ true
unfolding acquire_step
owned_by_0 = refl
