-- ===== src/Base/Outcome.antt =====
-- The ways in which a Go function with an `error` result ends.
use terraform_provisioner_an.Base.Strings.{Text}
use terraform_provisioner_an.Base.Tests.{if◌then◌else◌}
use mathlib.Core.Bool.{Bool, true, false}
use mathlib.Core.Path.{◌≡◌, refl, subst}

-- A value, an error by its message, or a panic (a failed type assertion, an index out of range).
pub data Outcome {ℓ} (A : Type ℓ) : Type ℓ where
  ok : A → Outcome A
  err : Text → Outcome A
  panic : Outcome A

infixl 5 ◌>>=◌
abbrev pub ◌>>=◌ {ℓ κ} : {A : Type ℓ} {B : Type κ} → Outcome A → (A → Outcome B) → Outcome B
ok a >>= f = f a
err e >>= f = err e
panic >>= f = panic

abbrev pub IsOk {ℓ} : {A : Type ℓ} → Outcome A → Type 0
IsOk (ok _) = Unit
IsOk _ = ⊥

pub eq_ok_of_IsOk {ℓ} : {A : Type ℓ} (m : Outcome A) → IsOk m → (a : A) × (m ≡ ok a)
eq_ok_of_IsOk (ok a) h = (a, refl)
eq_ok_of_IsOk (err e) h = absurd h
eq_ok_of_IsOk panic h = absurd h

pub err-ne-ok {ℓ} : {A : Type ℓ} {e : Text} {b : A} → ◌≡◌ {A = Outcome A} (err e) (ok b) → ⊥
err-ne-ok h = cc

pub panic-ne-ok {ℓ} : {A : Type ℓ} {b : A} → ◌≡◌ {A = Outcome A} panic (ok b) → ⊥
panic-ne-ok h = cc

-- Every value that `m` returns satisfies `P`.
pub record Ensures {ℓ κ} {A : Type ℓ} (P : A → Type κ) (m : Outcome A) : Type (ℓ ⊔ κ) where
  pub at : (a : A) → m ≡ ok a → P a

pub Ensures-bind {ℓ κ μ ν} :
    {A : Type ℓ} {B : Type κ} {Q : A → Type μ} {P : B → Type ν} (m : Outcome A) (f : A → Outcome B)
    → Ensures Q m
    → ((a : A) → Q a → Ensures P (f a))
    → Ensures P (m >>= f)
Ensures-bind (ok a) f hm hf = hf a (hm.at a refl)
Ensures-bind (err e) f hm hf = record { at = λ b h. absurd (err-ne-ok h) }
Ensures-bind panic f hm hf = record { at = λ b h. absurd (panic-ne-ok h) }

pub ok-injective {ℓ} : {A : Type ℓ} {a b : A} → ◌≡◌ {A = Outcome A} (ok a) (ok b) → a ≡ b
ok-injective e = cc

pub Ensures-ok {ℓ κ} : {A : Type ℓ} {P : A → Type κ} (a : A) → P a → Ensures P (ok a)
Ensures-ok {P} a h = record { at = λ b e. subst P (ok-injective e) h }

pub Ensures-any {ℓ} : {A : Type ℓ} (m : Outcome A) → Ensures (λ _. Unit {0}) m
Ensures-any m = record { at = λ _ _. tt }

pub Ensures-err {ℓ κ} : {A : Type ℓ} {P : A → Type κ} (e : Text) → Ensures P (err e)
Ensures-err e = record { at = λ b h. absurd (err-ne-ok h) }

pub Ensures-if {ℓ κ} :
    {A : Type ℓ} {P : A → Type κ} (b : Bool) {m n : Outcome A}
    → (b ≡ true → Ensures P m)
    → (b ≡ false → Ensures P n)
    → Ensures P (if b then m else n)
Ensures-if true hm hn = hm refl
Ensures-if false hm hn = hn refl
