-- ===== src/HashCons/Probes.antt =====
-- Double hashing reaches every slot: with 2^k slots and an odd step, 2^k probes pass each of them.
use multi_mlton.Prelude.{
  ℕ, zero, suc, ◌+◌, ◌*◌, ◌/◌, ◌%◌, ◌^◌, ◌<◌, ◌≡◌, refl, sym, subst, ◌∙◌, arith, ◌⊎◌, inl, inr,
}
use native.Mathlib.Nat.{pow-suc, mod-eq_of_lt, add-mul-mod_self_right, mod-add-div'}

-- a and b differ by a multiple of m.
abbrev pub Congruent : ℕ → ℕ → ℕ → Type 0
Congruent m a b = (x : ℕ) × (y : ℕ) × (a + x * m ≡ b + y * m)

-- a number is twice another, or that and one.
half_cases : (n : ℕ) → ((h : ℕ) × (n ≡ 2 * h)) ⊎ ((h : ℕ) × (n ≡ 2 * h + 1))
half_cases zero = inl (0, refl)
half_cases (suc n) = elim (half_cases n) [
  | inl (h, e) ↦ inr (h, omega arith)
  | inr (h, e) ↦ inl (suc h, omega arith)
]

-- Modulo twice m, a number that is congruent modulo m is congruent, or is when m is added.
double_Congruent :
    (m a b : ℕ) → Congruent m a b → Congruent (m * 2) a b ⊎ Congruent (m * 2) (a + m) b
double_Congruent m a b (x, y, e) = elim (half_cases x) [
  | inl (g, ex) ↦ elim (half_cases y) [
    | inl (h, ey) ↦ inl (g, h, omega (arith, rw (ex, ey) at e))
    | inr (h, ey) ↦ inr (g, suc h, omega (arith, rw (ex, ey) at e))
  ]
  | inr (g, ex) ↦ elim (half_cases y) [
    | inl (h, ey) ↦ inr (g, h, omega (arith, rw (ex, ey) at e))
    | inr (h, ey) ↦ inl (g, h, omega (arith, rw (ex, ey) at e))
  ]
]

-- From s, in steps of 2 * d + 1, some one of the first 2^k slots is congruent to t.
pub probes_Congruent :
    (k s d t : ℕ) → (i : ℕ) × (i < 2 ^ k) × Congruent (2 ^ k) (s + i * (2 * d + 1)) t
probes_Congruent zero s d t = (0, omega arith, (t, s, omega arith))
probes_Congruent (suc k) s d t =
    let (i, lt, c) = probes_Congruent k s d t in
    rw (pow-suc 2 k) (elim (double_Congruent (2 ^ k) (s + i * (2 * d + 1)) t c) [
      | inl c' ↦ (i, omega (arith, lt), c')
      | inr (x, y, e) ↦ (i + 2 ^ k, omega (arith, lt), (x, y + d, omega (arith, e)))
    ])

pub probes_reach :
    (m k s d t : ℕ) → m ≡ 2 ^ k → (i : ℕ) × (i < m) × Congruent m (s + i * (2 * d + 1)) t
probes_reach m k s d t e = rw e (probes_Congruent k s d t)

pub Congruent-eq : (m a b : ℕ) → a < m → b < m → Congruent m a b → a ≡ b
Congruent-eq m a b la lb (x, y, e) =
    sym (mod-eq_of_lt la)
    ∙ sym (add-mul-mod_self_right a x m)
    ∙ rw e (add-mul-mod_self_right b y m)
    ∙ mod-eq_of_lt lb

-- The remainder of a remainder, where m divides n.
pub mod-mod_Congruent : (m n c x : ℕ) → n ≡ c * m → Congruent m (x % n % m) x
mod-mod_Congruent m n c x e =
    let outer : x % n + x / n * (c * m) ≡ x =
      subst (λ (z : ℕ). x % n + x / n * z ≡ x) e (mod-add-div' x n) in
    let inner = mod-add-div' (x % n) m in (x % n / m + x / n * c, 0, omega (arith, outer, inner))

pub step_Congruent :
    (m a b i p j : ℕ)
    → Congruent m b (a + p)
    → Congruent m (a + suc i * p) j
    → Congruent m (b + i * p) j
step_Congruent m a b i p j (u, v, e) (x, y, e') = (u + x, y + v, omega arith)
