-- ===== src/Mode/Retry.antt =====
-- The loop in which `scan` of mode/ssh_bastion_keyscan.go and `Run` of mode/mode_local.go ask for a
-- host key until it arrives or the time is over. Both are the same loop, with the same interval.
use mathlib.Core.Path.{subst}
use terraform_provisioner_an.Base.{
  ℕ, zero, suc, ◌+◌, ◌-◌, ◌*◌, ◌/◌, ◌%◌, if◌then◌else◌, ◌≤◌, ◌<◌, ◌≡◌, ◌⊎◌, inl, inr, refl, ap, ◌∙◌,
  Bool, true, false, Option, none, some, arith, Text, ltb,
}
use terraform_provisioner_an.Base.Int.{ℤ, pos, negsuc}

-- The attempt that succeeded, or the last one, with its error.
pub data Answer : Type 0 where
  arrived : ℕ → Answer
  gave_up : ℕ → Text → Answer

abbrev pub interval_ms : ℕ
interval_ms = 5000

-- How many values an `int` has.
abbrev two_64 : ℕ
two_64 = 18446744073709551616

-- The `int` with these 64 bits.
abbrev to_int : ℕ → ℤ
to_int n = if ltb n 9223372036854775808 then pos n else negsuc (18446744073709551615 - n)

-- `seconds * 1000`, which wraps around.
unfoldable pub timeout_ms : ℤ → ℤ
timeout_ms (pos seconds) = to_int ((seconds * 1000) % two_64)
timeout_ms (negsuc n) = to_int ((two_64 - (suc n * 1000) % two_64) % two_64)

-- `timeSpentMs > timeoutMs`. The time that was spent stays below 2 ^ 63 for 292 million years.
abbrev is_over : ℕ → ℤ → Bool
is_over spent (pos timeout) = ltb timeout spent
is_over spent (negsuc _) = true

-- What follows one attempt: an error ends the loop if the time is over, else the rest decides.
abbrev answered : Option Text → Bool → ℕ → Option Answer → Option Answer
answered none over k rest = some (arrived k)
answered (some e) true k rest = some (gave_up k e)
answered (some e) false k rest = rest

-- `attempts k` is the error of attempt `k`, or none. The first argument is fuel.
unfoldable pub retry_loop : ℕ → (ℕ → Option Text) → ℤ → ℕ → ℕ → Option Answer
retry_loop zero attempts seconds time_spent_ms k = none
retry_loop (suc fuel) attempts seconds time_spent_ms k =
    let time_spent_ms = time_spent_ms + interval_ms in
    answered (attempts k) (is_over time_spent_ms (timeout_ms seconds)) k
      (retry_loop fuel attempts seconds time_spent_ms (suc k))

-- `n` retries at most after attempt `k`.
unfoldable pub first_answer : (ℕ → Option Text) → ℕ → ℕ → Answer
first_answer attempts zero k = elim (attempts k) [ none ↦ arrived k | some e ↦ gave_up k e ]
first_answer attempts (suc n) k = elim (attempts k) [
  | none ↦ arrived k
  | some e ↦ first_answer attempts n (suc k)
]

-- One retry for each five seconds of a timeout in milliseconds.
abbrev rounds : ℤ → ℕ
rounds (pos timeout) = timeout / interval_ms
rounds (negsuc _) = 0

unfoldable pub retries : ℤ → ℕ
unfolding timeout_ms
retries seconds = rounds (timeout_ms seconds)

-- One retry for each five seconds of a timeout in seconds.
abbrev pub allowed : ℤ → ℕ
allowed (pos seconds) = seconds / 5
allowed (negsuc _) = 0

-- The timeouts, up to 292 million years, for which no `int` in the loop wraps around.
abbrev pub InRange : ℤ → Type 0
InRange (pos seconds) = seconds ≤ 9223372036854770
InRange (negsuc n) = n < 9223372036854775

pub retries-InRange : (seconds : ℤ) → InRange seconds → retries seconds ≡ allowed seconds
unfolding retries timeout_ms
retries-InRange (pos s) h =
    let small : ltb ((s * 1000) % two_64) 9223372036854775808 ≡ true = ground arith in
    rw small (omega arith)
retries-InRange (negsuc n) h =
    let large : ltb ((two_64 - (suc n * 1000) % two_64) % two_64) 9223372036854775808 ≡ false =
      ground arith in
    rw large refl

answered_last :
    (attempts : ℕ → Option Text) (k : ℕ) (rest : Option Answer)
    → answered (attempts k) true k rest ≡ some (first_answer attempts 0 k)
unfolding first_answer
answered_last attempts k rest =
    elim (attempts k)
      as (λ o. answered o true k rest ≡ some (elim o [ none ↦ arrived k | some e ↦ gave_up k e ])) [
        | none ↦ refl
        | some e ↦ refl
      ]

answered_more :
    (attempts : ℕ → Option Text) (n k : ℕ)
    → answered (attempts k) false k (some (first_answer attempts n (suc k)))
      ≡ some (first_answer attempts (suc n) k)
unfolding first_answer
answered_more attempts n k =
    elim (attempts k)
      as (λ o.
        answered o false k (some (first_answer attempts n (suc k)))
        ≡ some (elim o [ none ↦ arrived k | some e ↦ first_answer attempts n (suc k) ])) [
          | none ↦ refl
          | some e ↦ refl
        ]

over_at_end : (t k : ℕ) → k ≡ t / interval_ms → ltb t (5000 * k + 5000) ≡ true
over_at_end t k h = ground arith

not_over_before : (t k n : ℕ) → k + suc n ≡ t / interval_ms → ltb t (5000 * k + 5000) ≡ false
not_over_before t k n h = ground arith

-- Only as many retries are left as the timeout has, and the fuel is enough for them.
retry_loop-steps :
    (attempts : ℕ → Option Text) (seconds timeout : ℤ) (n k fuel : ℕ)
    → timeout_ms seconds ≡ timeout
    → k + n ≡ rounds timeout
    → n < fuel
    → retry_loop fuel attempts seconds (5000 * k) k ≡ some (first_answer attempts n k)
unfolding retry_loop
retry_loop-steps attempts seconds timeout n k zero e h f = absurd (omega arith)
retry_loop-steps attempts seconds (pos t) zero k (suc fuel) e h f =
    rw (e, over_at_end t k (omega arith)) (answered_last attempts k _)
retry_loop-steps attempts seconds (pos t) (suc n) k (suc fuel) e h f =
    let rest =
      retry_loop-steps attempts seconds (pos t) n (suc k) fuel e (omega arith) (omega arith) in
    let shift : 5000 * suc k ≡ 5000 * k + 5000 = omega arith in
    rw (e, not_over_before t k n h, rw shift at rest) (answered_more attempts n k)
retry_loop-steps attempts seconds (negsuc t) zero k (suc fuel) e h f =
    rw e (answered_last attempts k _)
retry_loop-steps attempts seconds (negsuc t) (suc n) k (suc fuel) e h f = absurd (omega arith)

-- With more fuel than there are retries, the loop answers, whatever the timeout.
pub retry_loop-retries :
    (attempts : ℕ → Option Text) (seconds : ℤ) (fuel : ℕ)
    → retries seconds < fuel
    → retry_loop fuel attempts seconds 0 0 ≡ some (first_answer attempts (retries seconds) 0)
unfolding retries
retry_loop-retries attempts seconds fuel h =
    retry_loop-steps attempts seconds (timeout_ms seconds) (retries seconds) 0 fuel refl
      (omega arith) h

-- For a timeout in the range, the loop always ends: with more fuel than there are retries, it answers
-- like the first attempt that succeeds among the first one and one more for each five seconds of the
-- timeout, or else with the error of the last of these. A negative timeout allows the first attempt
-- alone.
pub retry_loop-answer :
    (attempts : ℕ → Option Text) (seconds : ℤ) (fuel : ℕ)
    → InRange seconds
    → allowed seconds < fuel
    → retry_loop fuel attempts seconds 0 0 ≡ some (first_answer attempts (allowed seconds) 0)
retry_loop-answer attempts seconds fuel r h =
    let same = retries-InRange seconds r in
    subst (λ n. n < fuel → retry_loop fuel attempts seconds 0 0 ≡ some (first_answer attempts n 0))
      same (retry_loop-retries attempts seconds fuel) h

cases_of : (o : Option Text) → (o ≡ none) ⊎ (e : Text) × (o ≡ some e)
cases_of none = inl refl
cases_of (some e) = inr (e, refl)

first_answer-now :
    (attempts : ℕ → Option Text) (n k : ℕ)
    → attempts k ≡ none
    → first_answer attempts n k ≡ arrived k
unfolding first_answer
first_answer-now attempts zero k now = rw (first_answer, now) refl
first_answer-now attempts (suc n) k now = rw (first_answer, now) refl

first_answer-arrived :
    (attempts : ℕ → Option Text) (n k d m : ℕ)
    → m ≡ k + d
    → d ≤ n
    → attempts m ≡ none
    → (j : ℕ) × (j ≤ m) × (attempts j ≡ none) × (first_answer attempts n k ≡ arrived j)
unfolding first_answer
first_answer-arrived attempts n k zero m q h e =
    let now : attempts k ≡ none = subst (λ i. attempts i ≡ none) (omega arith) e in
    (k, omega arith, now, first_answer-now attempts n k now)
first_answer-arrived attempts zero k (suc d) m q h e = absurd (omega arith)
first_answer-arrived attempts (suc n) k (suc d) m q h e = elim (cases_of (attempts k)) [
  | inl now ↦ (k, omega arith, now, first_answer-now attempts (suc n) k now)
  | inr (_, failed) ↦
      let (j, below, there, answer) =
        first_answer-arrived attempts n (suc k) d m (omega arith) (omega arith) e in
      (j, below, there, rw (first_answer, failed) answer)
]

-- A host key that can be had within a timeout in the range is had: if attempt `k` would succeed, and
-- the timeout lasts for it, the loop ends with a successful attempt that is not later than `k`.
pub retry_loop-arrived :
    (attempts : ℕ → Option Text) (seconds : ℤ) (k fuel : ℕ)
    → InRange seconds
    → k ≤ allowed seconds
    → attempts k ≡ none
    → allowed seconds < fuel
    → (j : ℕ) × (j ≤ k)
      × (attempts j ≡ none)
      × (retry_loop fuel attempts seconds 0 0 ≡ some (arrived j))
retry_loop-arrived attempts seconds k fuel r h e f =
    let (j, below, there, answer) =
      first_answer-arrived attempts (allowed seconds) 0 k k (omega arith) h e in
    (j, below, there, retry_loop-answer attempts seconds fuel r f ∙ ap some answer)
