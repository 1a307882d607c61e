-- ===== src/Sleep/Tests.antt =====
-- Processor 1 of 2 finds the data that Parallel_initResources announces, and then goes to sleep.
use multi_mlton.Prelude.{◌≡◌, refl, false, arith}
use multi_mlton.Sleep.{System, wait, with_waiter, init, Reach, start, later, sleeps, asleep, awake}
use multi_mlton.Sleep.Wakeups.{IsInformed, no_lost_wake_up}

abbrev looked : System
looked = with_waiter init 1 (wait false (init.waiters 1))

abbrev fell_asleep : System
fell_asleep = with_waiter looked 1 (wait false (looked.waiters 1))

looked_awake : (looked.waiters 1).phase ≡ awake
unfolding wait
looked_awake = refl

now_asleep : (fell_asleep.waiters 1).phase ≡ asleep
unfolding wait
now_asleep = refl

sleeper-Reach : Reach 2 fell_asleep
sleeper-Reach = later (later start (sleeps 1 refl)) (sleeps 1 looked_awake)

no_lost_wake_up_example : IsInformed 1 fell_asleep
no_lost_wake_up_example = no_lost_wake_up 2 1 sleeper-Reach (omega arith) now_asleep
