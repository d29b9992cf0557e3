-- ===== src/Shell/Plain.antt =====
-- Which texts hold plain characters only.
use terraform_provisioner_an.Base.{
  ℕ, suc, ◌≤◌, ◌≡◌, ◌≢◌, refl, Bool, true, not, ◌&&◌, ◌==◌, ==_iff, [], ◌∷◌, arith, Text, All,
}
use terraform_provisioner_an.Base.Int.{ℤ, pos, negsuc, show, show_ℕ-IsDigit, show_ℕ-ne-nil, IsDigit}
use terraform_provisioner_an.Shell.{is_special, is_plain, IsPlain, HasNoQuote}

-- Every character of a text is plain.
unfoldable pub all_plain : Text → Bool
unfolding is_plain is_special
all_plain [] = true
all_plain (c ∷ t) = is_plain c && all_plain t

both_true : (a b : Bool) → (a && b) ≡ true → (a ≡ true) × (b ≡ true)
both_true a b h = ground arith

pub IsPlain-of_all_plain : (t : Text) → all_plain t ≡ true → IsPlain t
unfolding all_plain
IsPlain-of_all_plain [] h = tt
IsPlain-of_all_plain (c ∷ t) h = let (hc, ht) = both_true _ _ h in (hc, IsPlain-of_all_plain t ht)

-- No character of a text is a single quote.
abbrev pub all_unquoted : Text → Bool
all_unquoted [] = true
all_unquoted (c ∷ t) = not (c == 39) && all_unquoted t

pub HasNoQuote-of_all_unquoted : (t : Text) → all_unquoted t ≡ true → HasNoQuote t
HasNoQuote-of_all_unquoted [] h = tt
HasNoQuote-of_all_unquoted (c ∷ t) h =
    let (hc, ht) = both_true (not (c == 39)) (all_unquoted t) h in
    ((λ e. cc (hc, (==_iff c 39).1 e)), HasNoQuote-of_all_unquoted t ht)

is_plain_digit : (c : ℕ) → 48 ≤ c → c ≤ 57 → is_plain c ≡ true
unfolding is_plain is_special
is_plain_digit c h k = ground arith

IsPlain-digits : (t : Text) → All IsDigit t → IsPlain t
IsPlain-digits [] h = tt
IsPlain-digits (c ∷ t) ((low, high), h) = (is_plain_digit c low high, IsPlain-digits t h)

-- A printed number is plain.
pub show-IsPlain : (i : ℤ) → IsPlain (show i)
unfolding show is_plain is_special
show-IsPlain (pos n) = IsPlain-digits _ (show_ℕ-IsDigit n)
show-IsPlain (negsuc n) = (refl, IsPlain-digits _ (show_ℕ-IsDigit (suc n)))

pub show-ne-nil : (i : ℤ) → show i ≢ []
unfolding show
show-ne-nil (pos n) = show_ℕ-ne-nil n
show-ne-nil (negsuc n) = cc
