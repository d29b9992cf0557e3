-- ===== src/Mode/HostKeys/Fetched.antt =====
-- The target's host key that the loop in `Run` of mode/mode_local.go fetches.
use mathlib.Core.Path.{subst}
use terraform_provisioner_an.Base.{
  ℕ, zero, suc, ◌+◌, ◌≤◌, ◌<◌, ◌≡◌, ◌⊎◌, inl, inr, refl, sym, Bool, true, false, Bool-cases, Option,
  none, some, ◌++◌, arith, Text, text, is_empty,
}
use terraform_provisioner_an.Base.Outcome.{Outcome, ok, err, panic}
use terraform_provisioner_an.Types.AnsibleSshSettings.{AnsibleSshSettings}
use terraform_provisioner_an.Mode.ConnectionInfo.{ConnectionInfo}
use terraform_provisioner_an.Mode.Retry.{
  Answer, arrived, gave_up, retries, retries-InRange, InRange, allowed, first_answer,
  retry_loop-retries,
}
use terraform_provisioner_an.Mode.HostKeys.{
  Network, dial_error, received, key_after, key_of, fetched_key,
}

-- A connection failed if it ended with an error.
abbrev pub IsFailed : Outcome (Unit {0}) → Type 0
IsFailed (err _) = Unit
IsFailed _ = ⊥

-- The first key that was presented in the connections before `n`, or an empty one.
pub data FirstKey (presented : ℕ → Text) (n : ℕ) : Text → Type 0 where
  presented_at :
      (i : ℕ)
      → i < n
      → is_empty (presented i) ≡ false
      → ((j : ℕ) → j < i → is_empty (presented j) ≡ true)
      → FirstKey presented n (presented i)
  not_presented :
      (key : Text)
      → is_empty key ≡ true
      → ((j : ℕ) → j < n → is_empty (presented j) ≡ true)
      → FirstKey presented n key

-- How fetching ends with at most `n` retries: with the first key that the host presented until a
-- connection succeeded, with an error if it presented none, or with the last connection's error.
pub data FetchEnds (network : Network) (host : Text) (n : ℕ) : Outcome Text → Type 0 where
  fetched :
      (i : ℕ) (key : Text)
      → i ≤ n
      → ((j : ℕ) → j < i → IsFailed (network.dial j).0)
      → (IsFailed (network.dial i).0 → ⊥)
      → FirstKey (λ j. (network.dial j).1) (suc i) key
      → is_empty key ≡ false
      → FetchEnds network host n (ok key)
  no_key :
      (i : ℕ)
      → i ≤ n
      → ((j : ℕ) → j < i → IsFailed (network.dial j).0)
      → (IsFailed (network.dial i).0 → ⊥)
      → ((j : ℕ) → j < suc i → is_empty (network.dial j).1 ≡ true)
      → FetchEnds network host n (
          err (
            text "expected to receive the host key for '"
            ++ (host ++ text "', but no host key arrived")))
  timed_out :
      (e : Text)
      → ((j : ℕ) → j < n → IsFailed (network.dial j).0)
      → (network.dial n).0 ≡ err e
      → FetchEnds network host n (err e)

not_empty : {b : Bool} → b ≡ true → b ≡ false → ⊥
not_empty h k = cc

below-suc : (P : ℕ → Type 0) (n : ℕ) → ((j : ℕ) → j < n → P j) → P n → (j : ℕ) → j < suc n → P j
below-suc P n before here j h = elim (lt_or_eq j n h) [
  | inl below ↦ before j below
  | inr same ↦ subst P (sym same) here
]
  where
    lt_or_eq : (j n : ℕ) → j < suc n → (j < n) ⊎ (j ≡ n)
    lt_or_eq j n h = omega arith

FirstKey-received :
    (presented : ℕ → Text) (n : ℕ) (key : Text)
    → FirstKey presented n key
    → FirstKey presented (suc n) (received key (presented n))
FirstKey-received presented n key (presented_at i h there before) =
    rw there (presented_at i (omega arith) there before)
FirstKey-received presented n key (not_presented _ none_yet before) =
    elim (Bool-cases (is_empty (presented n))) [
      | inl nothing ↦ rw none_yet (
          not_presented (presented n) nothing
            (below-suc (λ j. is_empty (presented j) ≡ true) n before nothing))
      | inr there ↦ rw none_yet (presented_at n (omega arith) there before)
    ]

FirstKey-empty :
    (presented : ℕ → Text) (n : ℕ) (key : Text)
    → FirstKey presented n key
    → is_empty key ≡ true
    → (j : ℕ) → j < n
    → is_empty (presented j) ≡ true
FirstKey-empty presented n key (presented_at i h there before) e = absurd (not_empty e there)
FirstKey-empty presented n key (not_presented _ none_yet before) e = before

-- The answer of the loop from attempt `k` on, when all before it have failed.
data FirstOf (attempts : ℕ → Option Text) (n : ℕ) : Answer → Type 0 where
  first_success :
      (i : ℕ)
      → i ≤ n
      → ((j : ℕ) → j < i → (e : Text) × (attempts j ≡ some e))
      → attempts i ≡ none
      → FirstOf attempts n (arrived i)
  last_failure :
      (e : Text)
      → ((j : ℕ) → j < n → (e : Text) × (attempts j ≡ some e))
      → attempts n ≡ some e
      → FirstOf attempts n (gave_up n e)

cases_of : (o : Option Text) → (o ≡ none) ⊎ (e : Text) × (o ≡ some e)
cases_of none = inl refl
cases_of (some e) = inr (e, refl)

first_answer-FirstOf :
    (attempts : ℕ → Option Text) (d k n : ℕ)
    → k + d ≡ n
    → ((j : ℕ) → j < k → (e : Text) × (attempts j ≡ some e))
    → FirstOf attempts n (first_answer attempts d k)
unfolding first_answer
first_answer-FirstOf attempts zero k n h before = elim (cases_of (attempts k)) [
  | inl now ↦ rw (first_answer, now) (first_success k (omega arith) before now)
  | inr (e, failed) ↦
      let same : k ≡ n = omega arith in
      rw (first_answer, failed)
        (subst (λ m. FirstOf attempts m (gave_up k e)) same (last_failure e before failed))
]
first_answer-FirstOf attempts (suc d) k n h before = elim (cases_of (attempts k)) [
  | inl now ↦ rw (first_answer, now) (first_success k (omega arith) before now)
  | inr (e, failed) ↦
      rw (first_answer, failed)
        (first_answer-FirstOf attempts d (suc k) n (omega arith)
          (below-suc (λ j. (e : Text) × (attempts j ≡ some e)) k before (e, failed)))
]

dial_error-some : (o : Outcome (Unit {0})) (e : Text) → dial_error o ≡ some e → o ≡ err e
dial_error-some (err x) e h = cc
dial_error-some (ok _) e h = absurd (cc)
dial_error-some panic e h = absurd (cc)

some-IsFailed : (o : Outcome (Unit {0})) → (e : Text) × (dial_error o ≡ some e) → IsFailed o
some-IsFailed (err x) h = tt
some-IsFailed (ok _) (e, h) = absurd (cc)
some-IsFailed panic (e, h) = absurd (cc)

none-IsFailed : (o : Outcome (Unit {0})) → dial_error o ≡ none → IsFailed o → ⊥
none-IsFailed (err x) h _ = cc
none-IsFailed (ok _) h f = f
none-IsFailed panic h f = f

module _ (network : Network) (v : ConnectionInfo) (not_given : is_empty v.host_key ≡ true) where
  key_after-FirstKey :
      (n : ℕ) → FirstKey (λ j. (network.dial j).1) n (key_after network n v.host_key)
  unfolding key_after
  key_after-FirstKey zero = not_presented v.host_key not_given λ j h. absurd (omega arith)
  key_after-FirstKey (suc n) =
      FirstKey-received (λ j. (network.dial j).1) n _ (key_after-FirstKey n)

  FetchEnds-key_of :
      (n : ℕ) (a : Answer)
      → FirstOf (λ k. dial_error (network.dial k).0) n a
      → FetchEnds network v.host n (key_of network v (some a))
  FetchEnds-key_of n a (first_success i h before now) =
      let key = key_after network (suc i) v.host_key in
      let failed : (j : ℕ) → j < i → IsFailed (network.dial j).0 =
        λ j below. some-IsFailed (network.dial j).0 (before j below) in
      elim (Bool-cases (is_empty key)) [
        | inl nothing ↦ rw nothing (
            no_key i h failed (none-IsFailed (network.dial i).0 now)
              (FirstKey-empty _ (suc i) key (key_after-FirstKey (suc i)) nothing))
        | inr there ↦ rw there (
            fetched i key h failed (none-IsFailed (network.dial i).0 now)
              (key_after-FirstKey (suc i)) there)
      ]
  FetchEnds-key_of n a (last_failure e before failed) =
      timed_out e (λ j below. some-IsFailed (network.dial j).0 (before j below))
        (dial_error-some (network.dial n).0 e failed)

  pub fetched_key-FetchEnds :
      (settings : AnsibleSshSettings)
      → FetchEnds network v.host
          (retries settings.ssh_keyscan_seconds)
          (fetched_key network v settings)
  unfolding fetched_key
  fetched_key-FetchEnds settings =
      let secs = settings.ssh_keyscan_seconds in
      let attempts : ℕ → Option Text = λ k. dial_error (network.dial k).0 in
      subst (λ o. FetchEnds network v.host (retries secs) (key_of network v o))
        (sym (retry_loop-retries attempts secs (suc (retries secs)) (omega arith)))
        (FetchEnds-key_of (retries secs) (first_answer attempts (retries secs) 0) (
          first_answer-FirstOf attempts (retries secs) 0 (retries secs) (omega arith)
            λ j h. absurd (omega arith)))

  -- When no host key was given for the target, and the timeout is in the range, fetching the key
  -- always comes to an end, with at most one retry for each five seconds: at the first connection
  -- that succeeds, with the first key that the target presented until then, or with an error that
  -- says that there was none; or with the error of the last connection that the timeout allows.
  pub fetched_key-ends :
      (settings : AnsibleSshSettings)
      → InRange settings.ssh_keyscan_seconds
      → FetchEnds network v.host
          (allowed settings.ssh_keyscan_seconds)
          (fetched_key network v settings)
  fetched_key-ends settings r =
      subst (λ n. FetchEnds network v.host n (fetched_key network v settings))
        (retries-InRange settings.ssh_keyscan_seconds r) (fetched_key-FetchEnds settings)
