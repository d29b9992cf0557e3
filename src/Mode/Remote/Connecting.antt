-- ===== src/Mode/Remote/Connecting.antt =====
-- The loop of `retryFunc` of mode/mode_remote.go, which connects.
use terraform_provisioner_an.Base.{
  ℕ, zero, suc, ◌+◌, ◌≤◌, ◌<◌, ◌≡◌, refl, ◌∙◌, ◌⊎◌, inl, inr, Bool, true, false, Bool-cases, ◌==◌,
  ==_iff, Option, none, some, Text, arith,
}
use mathlib.Core.Path.{subst}
use terraform_provisioner_an.Base.Outcome.{Outcome}
use terraform_provisioner_an.Mode.Remote.{Remote, answer}
use terraform_provisioner_an.Mode.Remote.Run.{after_attempt, retry_func}

going_on : (e : Text) → (◌≡◌ {A = Option Text} (some e) none) ⊎ (false ≡ true) → ⊥
going_on e (inl p) = cc
going_on e (inr p) = cc

after_last :
    (o : Option Text) (over : Bool) (rest : Option (Outcome (Unit {0})))
    → (o ≡ none) ⊎ (over ≡ true)
    → after_attempt o over rest ≡ some (answer o)
after_last none over rest h = refl
after_last (some e) true rest h = refl
after_last (some e) false rest h = absurd (going_on e h)

last_or_not :
    (o : Option Text) (over : Bool)
    → ((o ≡ none) ⊎ (over ≡ true))
      ⊎ (((o ≡ none) ⊎ (over ≡ true) → ⊥)
          × ((rest : Option (Outcome (Unit {0}))) → after_attempt o over rest ≡ rest))
last_or_not none over = inl (inl refl)
last_or_not (some e) true = inl (inr refl)
last_or_not (some e) false = inr (going_on e, λ rest. refl)

cases_le : (k j : ℕ) → k ≤ j → (j ≡ k) ⊎ (suc k ≤ j)
cases_le k j h = elim (Bool-cases (j == k)) [
  | inl e ↦ inl ((==_iff j k).0 e)
  | inr e ↦ inr (ground arith)
]

module _ (remote : Remote) where
  -- The loop ends with the attempt: it connects, or the time is over after it.
  abbrev pub IsLast : ℕ → Type 0
  IsLast k = (remote.connect k ≡ none) ⊎ (remote.is_over k ≡ true)

  -- What the loop gives from attempt `k` on.
  abbrev Ends : ℕ → ℕ → ℕ → Type 0
  Ends fuel k n =
      (m : ℕ) × (k ≤ m)
      × (m ≤ n)
      × IsLast m
      × ((j : ℕ) → k ≤ j → j < m → IsLast j → ⊥)
      × (retry_func remote fuel k ≡ some (answer (remote.connect m)))

  Ends-now : (fuel k n : ℕ) → k ≤ n → IsLast k → Ends (suc fuel) k n
  unfolding retry_func
  Ends-now fuel k n h last =
      (k, omega arith, h, last, λ j p q. absurd (omega arith), after_last _ _ _ last)

  -- No attempt from `k` on is the last one before `m`, if none from the next one on is and `k` is not.
  none_before :
      (k m : ℕ)
      → (IsLast k → ⊥)
      → ((j : ℕ) → suc k ≤ j → j < m → IsLast j → ⊥)
      → (j : ℕ) → k ≤ j
      → j < m
      → IsLast j
      → ⊥
  none_before k m now later j p q last = elim (cases_le k j p) [
    | inl e ↦ now (subst IsLast e last)
    | inr r ↦ later j r q last
  ]

  retry_func-Ends :
      (d k n fuel : ℕ) → k + d ≡ n → remote.is_over n ≡ true → d < fuel → Ends fuel k n
  unfolding retry_func
  retry_func-Ends d k n zero q o h = absurd (omega arith)
  retry_func-Ends zero k n (suc fuel) q o h =
      Ends-now fuel k n (omega arith) (inr (subst (λ i. remote.is_over i ≡ true) (omega arith) o))
  retry_func-Ends (suc d) k n (suc fuel) q o h =
      let (m, above, below, last, first, r) =
        retry_func-Ends d (suc k) n fuel (omega arith) o (omega arith) in
      elim (last_or_not (remote.connect k) (remote.is_over k)) [
        | inl now ↦ Ends-now fuel k n (omega arith) now
        | inr (not_now, goes_on) ↦
            (m, omega arith, below, last, none_before k m not_now first, goes_on _ ∙ r)
      ]

  -- If the time is over after attempt `n`, the loop ends, with fuel for the attempts up to `n`: at the
  -- first attempt that connects or after which the time is over, with the answer of this attempt.
  pub retry_func-ends :
      (n fuel : ℕ)
      → remote.is_over n ≡ true
      → n < fuel
      → (m : ℕ) × (m ≤ n)
        × IsLast m
        × ((j : ℕ) → j < m → IsLast j → ⊥)
        × (retry_func remote fuel 0 ≡ some (answer (remote.connect m)))
  retry_func-ends n fuel o h =
      let (m, above, below, last, first, r) = retry_func-Ends n 0 n fuel (omega arith) o h in
      (m, below, last, λ j. first j (omega arith), r)
