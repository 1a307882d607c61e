-- ===== src/CriticalSection/Tests.antt =====
-- Two processors: both arrive, the second one opens, and the first has its turn.
use multi_mlton.Prelude.{ℕ, ◌<◌, ◌≡◌, refl, some, [], ◌∷◌, arith}
use multi_mlton.CriticalSection.{
  outside, waiting, inside, leaving, System, Reach, start, later, step, init,
}
use multi_mlton.CriticalSection.Stage.{Stage}
use multi_mlton.CriticalSection.Round.{Reach-Stage}
use multi_mlton.CriticalSection.Safety.{critical_section_alone}
use multi_mlton.CriticalSection.Progress.{run, CanEnter, waiting_can_enter}

abbrev opened : System
opened = step 2 1 (step 2 1 (step 2 0 init))

abbrev first_inside : System
first_inside = step 2 0 opened

runs_through : (run 2 (0 ∷ 0 ∷ 1 ∷ 1 ∷ 1 ∷ 1 ∷ 0 ∷ 1 ∷ []) opened).phases 1 ≡ outside
unfolding step
runs_through = refl

ticket_moves : (run 2 (0 ∷ 0 ∷ 1 ∷ []) opened).barrier.critical_ticket ≡ some 1
unfolding step
ticket_moves = refl

opened-Reach : Reach 2 opened
opened-Reach = later (later (later start 0 (omega arith)) 1 (omega arith)) 1 (omega arith)

first_inside-Reach : Reach 2 first_inside
first_inside-Reach = later opened-Reach 0 (omega arith)

is_inside : first_inside.phases 0 ≡ inside
unfolding step
is_inside = refl

second_waits : opened.phases 1 ≡ waiting
unfolding step
second_waits = refl

Reach-Stage_example : Stage 2 first_inside
Reach-Stage_example = Reach-Stage 2 (omega arith) first_inside-Reach

critical_section_alone_example :
    ((j : ℕ) → j < 0 → first_inside.phases j ≡ leaving)
    × ((j : ℕ) → 0 < j → j < 2 → first_inside.phases j ≡ waiting)
critical_section_alone_example =
    critical_section_alone 2 0 first_inside-Reach (omega arith) is_inside

waiting_can_enter_example : CanEnter 2 1 opened
waiting_can_enter_example = waiting_can_enter 2 1 opened-Reach (omega arith) second_waits
