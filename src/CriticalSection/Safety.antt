-- ===== src/CriticalSection/Safety.antt =====
-- What the barrier promises while a processor is in its critical section.
use multi_mlton.Prelude.{
  ℕ, suc, ◌<◌, ◌≡◌, ◌≢◌, ◌⊎◌, inl, inr, ap, subst, true, arith, dec_lt, ℕ_discrete,
}
use multi_mlton.CriticalSection.{
  Phase, outside, waiting, inside, leaving, System, Reach, thread_in_section, executing_in_section,
}
use multi_mlton.CriticalSection.Tally.{tally_pos}
use multi_mlton.CriticalSection.Stage.{
  Stage, gather, full, serve, shut, reset, IsGathering, out, in_line, behind, arrived, is_waiting,
}
use multi_mlton.CriticalSection.Round.{Reach-Stage}

gathering-ne-inside : {p : Phase} → IsGathering p → p ≢ inside
gathering-ne-inside out e = cc
gathering-ne-inside in_line e = cc
gathering-ne-inside behind e = cc

-- One of the indices up to l.
pub last_or_before :
    (P : ℕ → Type 0) (n l j : ℕ) → suc l ≡ n → j < n → P l → ((k : ℕ) → k < l → P k) → P j
last_or_before P n l j last jn at before = elim (dec_lt j l) [
  | yes low ↦ before j low
  | no high ↦ (let same : l ≡ j = omega arith in subst P same at)
]

Stage-inside :
    (n i : ℕ) {s : System}
    → i < n
    → s.phases i ≡ inside
    → Stage n s
    → ((j : ℕ) → j < i → s.phases j ≡ leaving) × ((j : ℕ) → i < j → j < n → s.phases j ≡ waiting)
Stage-inside n i lt e (gather free count few all) = absurd (gathering-ne-inside (all i lt) e)
Stage-inside n i {s} lt e (full o lo free count eo others) = elim (ℕ_discrete i o) [
  | yes same ↦ cc
  | no ne ↦ (let w = others i lt ne in cc)
]
Stage-inside n i {s} lt e (serve t l tick count turn before after) = elim (dec_lt i t) [
  | yes low ↦ (let w = before i low in cc)
  | no high ↦ elim (dec_lt t i) [
    | yes above ↦ (let w = after i above lt in cc)
    | no below ↦
        (let same : t ≡ i = omega arith in
          (λ j ji. before j (omega arith), λ j ij jn. after j (omega arith) jn))
  ]
]
Stage-inside n i {s} lt e (shut l last tick count el before) = absurd (
    last_or_before (λ j. s.phases j ≢ inside) n l i last lt (λ q. cc)
      (λ k kl q. (let w = before k kl in cc)) e)
Stage-inside n i {s} lt e (reset l last tick count el before) = absurd (
    last_or_before (λ j. s.phases j ≢ inside) n l i last lt (λ q. cc)
      (λ k kl q. (let w = before k kl in cc)) e)

-- In every state that n processors reach by interleaved accesses of Proc_beginCriticalSection and
-- Proc_endCriticalSection, while one of them is in its critical section, those of lower number are
-- on their way out and those of higher number wait at the barrier: no two are inside, and nobody
-- runs the mutator.
pub critical_section_alone :
    (n i : ℕ) {s : System}
    → Reach n s
    → i < n
    → s.phases i ≡ inside
    → ((j : ℕ) → j < i → s.phases j ≡ leaving) × ((j : ℕ) → i < j → j < n → s.phases j ≡ waiting)
critical_section_alone n i r lt e = Stage-inside n i lt e (Reach-Stage n (omega arith) r)

Stage-executing :
    (n j : ℕ) {s : System}
    → j < n
    → executing_in_section s.barrier ≡ true
    → Stage n s
    → s.phases j ≢ outside
unfolding executing_in_section
Stage-executing n j lt h (gather free count few all) q = ground arith
Stage-executing n j lt h (full o lo free count eo others) q = ground arith
Stage-executing n j lt h (serve t l tick count turn before after) q = elim (dec_lt j t) [
  | yes low ↦ (let w = before j low in cc)
  | no high ↦ elim (dec_lt t j) [
    | yes above ↦ (let w = after j above lt in cc)
    | no below ↦ (let same : t ≡ j = omega arith in ground arith)
  ]
]
Stage-executing n j {s} lt h (shut l last tick count el before) q =
    last_or_before (λ j. s.phases j ≢ outside) n l j last lt (λ q. cc)
      (λ k kl q. (let w = before k kl in cc)) q
Stage-executing n j {s} lt h (reset l last tick count el before) q =
    last_or_before (λ j. s.phases j ≢ outside) n l j last lt (λ q. cc)
      (λ k kl q. (let w = before k kl in cc)) q

Stage-in_section :
    (n i : ℕ) {s : System}
    → i < n
    → (s.phases i ≡ waiting) ⊎ (s.phases i ≡ inside)
    → Stage n s
    → thread_in_section s.barrier ≡ true
unfolding thread_in_section
Stage-in_section n i {s} lt (inl e) (gather free count few all) =
    ground (arith, tally_pos (arrived s) n i lt (ap is_waiting e), count)
Stage-in_section n i {s} lt (inr e) (gather free count few all) =
    absurd (gathering-ne-inside (all i lt) e)
Stage-in_section n i lt p (full o lo free count eo others) = ground (arith)
Stage-in_section n i lt p (serve t l tick count turn before after) = ground (arith)
Stage-in_section n i lt p (shut l last tick count el before) = ground (arith)
Stage-in_section n i {s} lt p (reset l last tick count el before) = absurd (
    last_or_before (λ j. ((s.phases j ≡ waiting) ⊎ (s.phases j ≡ inside)) → ⊥) n l i last lt
      (λ q. ground arith) (λ k kl q. (let w = before k kl in ground arith)) p)

-- In every reachable state, while a processor below n waits at the barrier or is in its critical
-- section Proc_threadInSection answers true, and when Proc_executingInSection answers true no
-- processor below n is outside both functions.
pub section_tests :
    (n i : ℕ) {s : System}
    → Reach n s
    → i < n
    → ((s.phases i ≡ waiting) ⊎ (s.phases i ≡ inside) → thread_in_section s.barrier ≡ true)
      × (executing_in_section s.barrier ≡ true → s.phases i ≢ outside)
section_tests n i r lt =
    let st = Reach-Stage n (omega arith) r in
    (λ p. Stage-in_section n i lt p st, λ h. Stage-executing n i lt h st)
