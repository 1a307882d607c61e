-- ===== src/SchedulerQueue/Lock.antt =====
-- The lock of a scheduler queue in runtime/gc/scheduler-queue.c: GC_sqAcquireLock and
-- GC_sqReleaseLock, one access to the shared lock at a time, and the processors interleaved.
-- The fields are `int32_t`; an owner of -1 is `none`. The nesting `count` is not bounded by the
-- code, which leaves its overflow undefined; here it does not overflow. The debug assertion on a
-- deadlock and the test that is switched off by `and FALSE` have no counterpart.
pub mod Safety
mod Tests
use multi_mlton.Prelude.{
  ℕ, zero, suc, ◌+◌, ◌-◌, ◌<◌, ◌≡◌, ◌≢◌, Bool, true, false, Option, none, some, ◌==◌, ltb,
  if◌then◌else◌,
}

pub record Lock : Type 0 where
  pub count : ℕ
  pub id : Option ℕ

abbrev pub is_owner : ℕ → Lock → Bool
is_owner self l = elim (l.id) [ none ↦ false | some p ↦ p == self ]

abbrev pub is_free : Lock → Bool
is_free l = elim (l.id) [ none ↦ true | some p ↦ false ]

-- Where a processor stands in GC_sqAcquireLock: at its first test, at the label AGAIN, before the
-- compare-and-swap, or out of the function.
pub data Phase : Type 0 where
  enter : Phase
  again : Phase
  swap : Phase
  done : Phase

-- One step of GC_sqAcquireLock on processor `self`.
unfoldable pub acquire_step : ℕ → Phase → Lock → Phase × Lock
acquire_step self enter l =
    if is_owner self l then (done, record l { count = l.count + 1 }) else (again, l)
acquire_step self again l = if is_free l then (swap, l) else (again, l)
acquire_step self swap l = if is_free l then (done, record l { id = some self }) else (again, l)
acquire_step self done l = (done, l)

unfoldable pub release : Lock → Lock
release l = if ltb 0 l.count then record l { count = l.count - 1 } else record l { id = none }

-- `depth` is the number of acquisitions that the processor has not yet given back.
pub record Thread : Type 0 where
  pub phase : Phase
  pub depth : ℕ

pub record System : Type 0 where
  pub lock : Lock
  pub threads : ℕ → Thread

abbrev pub update {ℓ} : {A : Type ℓ} → (ℕ → A) → ℕ → A → ℕ → A
update f i a j = if i == j then a else f j

abbrev pub moved : System → ℕ → Thread → Lock → System
moved s i t l = record { lock = l; threads = update s.threads i t }

-- Depth after a step of the acquisition: it has one more when the step leaves the function.
abbrev pub advance : Thread → Phase → Thread
advance t done = record { phase = done; depth = t.depth + 1 }
advance t p = record t { phase = p }

-- A processor calls GC_sqAcquireLock, makes a step of it, or calls GC_sqReleaseLock for an
-- acquisition that it holds.
pub data Step (s : System) : System → Type 0 where
  call :
      (i : ℕ)
      → (s.threads i).phase ≡ done
      → Step s (moved s i (record { phase = enter; depth = (s.threads i).depth }) s.lock)
  go :
      (i : ℕ)
      → (s.threads i).phase ≢ done
      → Step s (
          moved s i
            (advance (s.threads i) (acquire_step i (s.threads i).phase s.lock).0)
            (acquire_step i (s.threads i).phase s.lock).1)
  leave :
      (i : ℕ)
      → (s.threads i).phase ≡ done
      → 0 < (s.threads i).depth
      → Step s
          (moved s i (record { phase = done; depth = (s.threads i).depth - 1 }) (release s.lock))

-- The state in which GC_sqCreateQueues leaves a lock, with every processor outside.
abbrev pub init : System
init = record {
  lock = record { count = 0; id = none };
  threads = λ _. record { phase = done; depth = 0 };
}

pub data Reach : System → Type 0 where
  start : Reach init
  later : {s t : System} → Reach s → Step s t → Reach t
