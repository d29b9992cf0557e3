-- ===== src/Shellescape/Value.antt =====
-- What an escaped text stands for. An input may hold a quote alone, or escaped already in one of
-- three ways: for the quote `'` these are `'\''`, `'\'` and `\'`.
use terraform_provisioner_an.Base.{
  ℕ, zero, suc, ◌≤◌, ◌<◌, ◌≡◌, ◌≢◌, ◌↔◌, refl, ap, true, false, ◌&&◌, some, [], ◌∷◌, ◌++◌,
  append-nil, append_assoc, arith, Text, text_eq, has_prefix, contains, ◌==◌, length, take, drop,
  if◌then◌else◌,
}
use terraform_provisioner_an.Shellescape.{safe, safe_loop, next, new_default_escape}

module _ (d : ℕ) where
  -- The character that the one at the front of `c ∷ s` stands for, and how many more belong to it.
  abbrev stands : ℕ → Text → ℕ
  stands c s = if c == d then d else if c == 92 && has_prefix s (d ∷ []) then d else c

  abbrev width : ℕ → Text → ℕ
  width c s =
      if c == d
      then if has_prefix s (92 ∷ d ∷ d ∷ []) then 3 else if has_prefix s (92 ∷ d ∷ []) then 2 else 0
      else if c == 92 && has_prefix s (d ∷ [])
      then 1
      else 0

  -- The input with each quote, escaped or not, read as one quote; the number is of characters
  -- that belong to a quote already read.
  pub value_from : ℕ → Text → Text
  value_from k [] = []
  value_from (suc k) (c ∷ s) = value_from k s
  value_from zero (c ∷ s) = stands c s ∷ value_from (width c s) s

  unfoldable pub value : Text → Text
  unfolding value_from has_prefix
  value = value_from 0

  -- Every quote of the text in its escaped form.
  unfoldable pub requote : Text → Text
  requote [] = []
  requote (c ∷ s) = (if c == d then d ∷ 92 ∷ d ∷ d ∷ [] else c ∷ []) ++ requote s

  value_from-drop : (k : ℕ) (s : Text) → value_from k s ≡ value_from 0 (drop k s)
  unfolding value_from
  value_from-drop zero s = refl
  value_from-drop (suc k) [] = refl
  value_from-drop (suc k) (c ∷ s) = value_from-drop k s

text_eq-take : (s p : Text) → text_eq (take (length p) s) p ≡ has_prefix s p
unfolding text_eq has_prefix
text_eq-take [] [] = refl
text_eq-take [] (c ∷ p) = refl
text_eq-take (c ∷ s) [] = refl
text_eq-take (c ∷ s) (b ∷ p) = rw (text_eq-take s p)

length-drop-le : (k : ℕ) (s : Text) → length (drop k s) ≤ length s
length-drop-le zero s = omega arith
length-drop-le (suc k) [] = omega arith
length-drop-le (suc k) (c ∷ s) = omega (arith, length-drop-le k s)

module _ (d : ℕ) where
  abbrev long : Text
  long = 92 ∷ d ∷ d ∷ []

  abbrev seq : Text
  seq = d ∷ 92 ∷ d ∷ d ∷ []

  -- The loop ends, and leaves the requoted value behind what it had written.
  safe_loop_lem :
      (fuel : ℕ) (s out : Text)
      → length s < fuel
      → safe_loop fuel (new_default_escape s d) out ≡ some (out ++ requote d (value_from d 0 s))
  unfolding safe_loop next new_default_escape requote value_from
  safe_loop_lem zero s out h = absurd (omega arith)
  safe_loop_lem (suc fuel) [] out h = rw append-nil
  safe_loop_lem (suc fuel) (c ∷ s) out h = ground (
    arith,
    text_eq-take s long,
    text_eq-take s (92 ∷ d ∷ []),
    text_eq-take s (d ∷ []),
    value_from-drop d 3 s,
    value_from-drop d 2 s,
    value_from-drop d 1 s,
    length-drop-le 3 s,
    length-drop-le 2 s,
    length-drop-le 1 s,
    safe_loop_lem fuel (drop 3 s) (out ++ seq),
    safe_loop_lem fuel (drop 2 s) (out ++ seq),
    safe_loop_lem fuel (drop 1 s) (out ++ seq),
    safe_loop_lem fuel s (out ++ seq),
    safe_loop_lem fuel s (out ++ (c ∷ [])),
    append_assoc out seq (requote d (value_from d 0 (drop 3 s))),
    append_assoc out seq (requote d (value_from d 0 (drop 2 s))),
    append_assoc out seq (requote d (value_from d 0 (drop 1 s))),
    append_assoc out seq (requote d (value_from d 0 s)),
    append_assoc out (c ∷ []) (requote d (value_from d 0 s)),
  )

module _ (d : ℕ) (s : Text) where
  -- The rounds that `safe` allows its loop are enough, for every input.
  pub safe_loop_ends :
      safe_loop (suc (length s)) (new_default_escape s d) [] ≡ some (safe (new_default_escape s d))
  unfolding safe new_default_escape
  safe_loop_ends = rw (safe_loop_lem d (suc (length s)) s [] (omega arith))

  -- `Safe` reads each quote of the input, escaped already in one of the three ways or not, as one
  -- quote, and writes that quote in its escaped form; every other character is copied.
  pub safe-requote : safe (new_default_escape s d) ≡ requote d (value d s)
  unfolding safe value new_default_escape
  safe-requote = rw (safe_loop_lem d (suc (length s)) s [] (omega arith))

module _ (d : ℕ) where
  length-value_from-le : (k : ℕ) (s : Text) → length (value_from d k s) ≤ length s
  unfolding value_from
  length-value_from-le k [] = omega arith
  length-value_from-le (suc k) (c ∷ s) = omega (arith, length-value_from-le k s)
  length-value_from-le zero (c ∷ s) = omega (arith, length-value_from-le (width d c s) s)

  length-value_from-lt : (k : ℕ) (s : Text) → s ≢ [] → k ≢ 0 → length (value_from d k s) < length s
  unfolding value_from
  length-value_from-lt zero s ne nz = absurd (nz refl)
  length-value_from-lt (suc k) [] ne nz = absurd (ne refl)
  length-value_from-lt (suc k) (c ∷ s) ne nz = omega (arith, length-value_from-le k s)

  value_of_unescaped : (s : Text) → contains s (92 ∷ d ∷ []) ≡ false → value_from d 0 s ≡ s
  unfolding value_from contains has_prefix
  value_of_unescaped [] h = refl
  value_of_unescaped (c ∷ s) h = ground (arith, value_of_unescaped s)

  value_of_escaped :
      (s : Text) → d ≢ 92 → contains s (92 ∷ d ∷ []) ≡ true → length (value_from d 0 s) < length s
  unfolding value_from contains has_prefix
  value_of_escaped [] nb h = cc
  value_of_escaped (c ∷ []) nb h = ground arith
  value_of_escaped (c ∷ b ∷ s) nb h = ground (
    arith,
    value_of_escaped (b ∷ s) nb,
    length-value_from-lt 3 (b ∷ s),
    length-value_from-lt 2 (b ∷ s),
    length-value_from-lt 1 (b ∷ s),
  )

  -- A text is its own value exactly when no backslash in it stands before a quote.
  pub value-eq_iff : (s : Text) → d ≢ 92 → (value d s ≡ s) ↔ (contains s (92 ∷ d ∷ []) ≡ false)
  unfolding value
  value-eq_iff s nb =
      (λ e. ground (arith, ap length e, value_of_escaped s nb), value_of_unescaped s)
