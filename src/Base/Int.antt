-- ===== src/Base/Int.antt =====
-- Go's `int` over the native numbers, and its decimal print. The program only compares integers
-- with 0, prints them and multiplies a number of seconds by 1000.
use terraform_provisioner_an.Base.Tests.{ltb, leb, All, Bool-cases, ◌==◌, if◌then◌else◌}
use terraform_provisioner_an.Base.Strings.{Text, text}
use Prim.Native.Nat.{ℕ, zero, suc, ◌+◌, ◌-◌, ◌*◌, ◌/◌, ◌%◌, ◌^◌, ◌≤◌}
use mathlib.Core.Bool.{Bool, true, false, ◌&&◌}
use mathlib.Core.Option.{Option, none, some}
use mathlib.Core.Logic.{◌≢◌, inl, inr}
use native.Mathlib.Omega.{arith}
use mathlib.Core.Path.{◌≡◌, refl}
use mathlib.Core.List.{[], ◌∷◌}

-- `negsuc n` is -(n + 1).
pub data ℤ : Type 0 where
  pos : ℕ → ℤ
  negsuc : ℕ → ℤ

-- `i > 0`
abbrev pub is_positive : ℤ → Bool
is_positive (pos n) = ltb 0 n
is_positive (negsuc _) = false

-- `i == 0`
abbrev pub is_zero : ℤ → Bool
is_zero (pos zero) = true
is_zero (pos (suc _)) = false
is_zero (negsuc _) = false

-- The digits of `n` in front of `out`. A number has fewer digits than `n + 1`, which is the fuel.
digits : ℕ → ℕ → Text → Text
digits zero n out = out
digits (suc fuel) n out =
    let more = digits fuel (n / 10) ((48 + n % 10) ∷ out) in
    if ltb n 10 then (48 + n) ∷ out else more

unfoldable pub show_ℕ : ℕ → Text
unfolding digits
show_ℕ n = digits (suc n) n []

-- fmt.Sprintf("%d", i)
unfoldable pub show : ℤ → Text
unfolding show_ℕ
show (pos n) = show_ℕ n
show (negsuc n) = b'-' ∷ show_ℕ (suc n)

-- The number that decimal digits spell behind `n`.
read_digits : ℕ → Text → Option ℕ
read_digits n [] = some n
read_digits n (c ∷ s) =
    let rest = read_digits (n * 10 + (c - 48)) s in if leb 48 c && leb c 57 then rest else none

read_ℕ : Text → Option ℕ
unfolding read_digits
read_ℕ [] = none
read_ℕ (c ∷ s) = read_digits 0 (c ∷ s)

at_most : ℕ → (ℕ → ℤ) → Option ℕ → Option ℤ
at_most limit f none = none
at_most limit f (some n) = if leb n limit then some (f n) else none

negative : ℕ → ℤ
negative zero = pos zero
negative (suc n) = negsuc n

-- strconv.Atoi, where `int` has 64 bits; `none` is an error.
unfoldable pub atoi : Text → Option ℤ
unfolding read_ℕ at_most negative
atoi [] = none
atoi (c ∷ s) =
    if c == b'-'
    then at_most (2 ^ 63) negative (read_ℕ s)
    else if c == b'+'
    then at_most (2 ^ 63 - 1) pos (read_ℕ s)
    else at_most (2 ^ 63 - 1) pos (read_ℕ (c ∷ s))

atoi_examples :
    (atoi (text "60") ≡ some (pos 60))
    × (atoi (text "-7") ≡ some (negsuc 6))
    × (atoi [] ≡ none)
    × (atoi (text "6s") ≡ none)
    × (atoi (text "9223372036854775808") ≡ none)
unfolding atoi text
atoi_examples = (refl, refl, refl, refl, refl)

show_examples :
    (show (pos 0) ≡ text "0") × (show (pos 120) ≡ text "120") × (show (negsuc 0) ≡ text "-1")
unfolding show text
show_examples = (refl, refl, refl)

abbrev pub IsDigit : ℕ → Type 0
IsDigit c = (48 ≤ c) × (c ≤ 57)

digits-IsDigit : (fuel n : ℕ) (out : Text) → All IsDigit out → All IsDigit (digits fuel n out)
unfolding digits
digits-IsDigit zero n out h = h
digits-IsDigit (suc fuel) n out h =
    let more = digits-IsDigit fuel (n / 10) ((48 + n % 10) ∷ out) ((omega arith, omega arith), h) in
    elim (Bool-cases (ltb n 10)) [
      | inl small ↦ rw small ((omega arith, ground arith), h)
      | inr large ↦ rw large more
    ]

digits-ne-nil : (fuel n : ℕ) (out : Text) → out ≢ [] → digits fuel n out ≢ []
unfolding digits
digits-ne-nil zero n out h = h
digits-ne-nil (suc fuel) n out h = ground (arith, digits-ne-nil fuel (n / 10) ((48 + n % 10) ∷ out))

pub show_ℕ-IsDigit : (n : ℕ) → All IsDigit (show_ℕ n)
unfolding show_ℕ
show_ℕ-IsDigit n = digits-IsDigit (suc n) n [] tt

pub show_ℕ-ne-nil : (n : ℕ) → show_ℕ n ≢ []
unfolding show_ℕ digits
show_ℕ-ne-nil n = ground (arith, digits-ne-nil n (n / 10) ((48 + n % 10) ∷ []))
