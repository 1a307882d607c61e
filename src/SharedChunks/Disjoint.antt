-- ===== src/SharedChunks/Disjoint.antt =====
-- Chunks that are disjoint and below the frontier, and what the phases of the processors promise.
use multi_mlton.Prelude.{ℕ, ◌+◌, ◌^◌, ◌≤◌, ◌<◌, ◌≡◌, ◌≢◌, ◌⊎◌, inl, inr, ◌==◌, Bool-cases, arith}
use multi_mlton.CardMap.{Memory}
use multi_mlton.Gap.{bonus_slop}
use multi_mlton.SharedChunks.{
  Chunk, Phase, idle, asking, swapping, collecting, exited, Processor, System, put,
}

-- Chunks with the slop behind them.
abbrev pub Disjoint : Chunk → Chunk → Type 0
Disjoint a b =
    (a.limit_plus_slop + bonus_slop ≤ b.frontier) ⊎ (b.limit_plus_slop + bonus_slop ≤ a.frontier)

Disjoint-sym : (a b : Chunk) → Disjoint a b → Disjoint b a
Disjoint-sym a b (inl l) = inr l
Disjoint-sym a b (inr r) = inl r

module _ (end : ℕ) where
  -- The chunk c', with its bytes, that a processor with chunk c has computed from the frontier old.
  pub record Proposed (old : ℕ) (c : Chunk) (bytes : ℕ) (c' : Chunk) (frontier : ℕ) : Type 0 where
    pub grows : old ≤ frontier
    pub top : frontier ≤ end
    pub limit : c'.limit_plus_slop + bonus_slop ≡ frontier
    pub room : c'.frontier + bytes ≤ c'.limit_plus_slop
    pub small : bytes < 2 ^ 62
    pub from :
        ((old ≡ c.limit_plus_slop + bonus_slop) × (c'.frontier ≡ c.frontier)) ⊎ (old ≡ c'.frontier)

  abbrev pub PhaseOk : ℕ → Chunk → Phase → Type 0
  PhaseOk f c idle = Unit
  PhaseOk f c (asking bytes) = bytes < 2 ^ 62
  PhaseOk f c (swapping bytes c' f' old) = Proposed old c bytes c' f' × (old ≤ f)
  PhaseOk f c (collecting bytes) = Unit
  PhaseOk f c exited = Unit

  pub record Inside (f : ℕ) (p : Processor) : Type 0 where
    pub chunk : p.chunk.frontier ≤ p.chunk.limit_plus_slop
    pub below : p.chunk.limit_plus_slop + bonus_slop ≤ f
    pub phase : PhaseOk f p.chunk p.phase

  PhaseOk-mono : {f f' : ℕ} (c : Chunk) (x : Phase) → f ≤ f' → PhaseOk f c x → PhaseOk f' c x
  PhaseOk-mono c idle le ok = tt
  PhaseOk-mono c (asking bytes) le ok = ok
  PhaseOk-mono c (swapping bytes c' f' old) le ok = (ok.0, omega (arith, ok.1))
  PhaseOk-mono c (collecting bytes) le ok = tt
  PhaseOk-mono c exited le ok = tt

  Inside-mono : {f f' : ℕ} (p : Processor) → f ≤ f' → Inside f p → Inside f' p
  Inside-mono p le i = record {
    chunk = i.chunk;
    below = omega (arith, i.below);
    phase = PhaseOk-mono p.chunk p.phase le i.phase;
  }

  pub record Laid (n : ℕ) (s : System) : Type 0 where
    pub inside : (k : ℕ) → k < n → Inside s.frontier (s.procs k)
    pub apart : (j k : ℕ) → j < n → k < n → j ≢ k → Disjoint (s.procs j).chunk (s.procs k).chunk
    pub top : s.frontier ≤ end

  -- Processor k changes, and the frontier may move up.
  pub Laid-put :
      (n : ℕ) (s : System) (k : ℕ) (p : Processor) (f : ℕ) (mem : Memory)
      → Laid n s
      → k < n
      → s.frontier ≤ f
      → f ≤ end
      → Inside f p
      → ((j : ℕ) → j < n → j ≢ k → Disjoint (s.procs j).chunk p.chunk)
      → Laid n (record { procs = put s.procs k p; frontier = f; mem = mem })
  unfolding put
  Laid-put n s k p f mem l lt up top i apart = record {
    inside = λ j less. elim (Bool-cases (j == k)) [
      | inl y ↦ rw y i
      | inr m ↦ rw m (Inside-mono (s.procs j) up (l.inside j less))
    ];
    apart = λ a b la lb differ. elim (Bool-cases (a == k)) [
      | inl y ↦ (elim (Bool-cases (b == k)) [
        | inl z ↦ absurd (differ (ground (arith)))
        | inr m ↦
            rw (y, m)
              (Disjoint-sym (s.procs b).chunk p.chunk (apart b lb (λ e. absurd (ground arith))))
      ])
      | inr m ↦ (elim (Bool-cases (b == k)) [
        | inl z ↦ rw (m, z) (apart a la (λ e. absurd (ground arith)))
        | inr m' ↦ rw (m, m') (l.apart a b la lb differ)
      ])
    ];
    top = top;
  }
