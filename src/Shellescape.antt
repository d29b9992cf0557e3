-- ===== src/Shellescape.antt =====
-- shellescape/extra_vars_escape.go: the escape of quotes for use within a quoted string. `pos` and
-- `max` are represented by the runes from `pos` on, `input` below.
pub mod Value
pub mod Quoting
mod Tests
use terraform_provisioner_an.Base.{
  ℕ, zero, suc, Bool, Option, none, some, List, [], ◌∷◌, ◌++◌, Text, text_eq, ◌==◌, length, take,
  drop, if◌then◌else◌,
}

pub record DefaultEscape : Type 0 where
  pub delimitter : ℕ
  pub input : Text
  pub seq_escaped : Text
  pub seq_look_ahead_long : Text
  pub seq_look_ahead_short : Text

-- The error of `lookup` is always io.EOF and always dropped.
abbrev pub lookup : DefaultEscape → ℕ → Text
lookup p count = take count p.input

abbrev pub skip : DefaultEscape → ℕ → DefaultEscape
skip p n = record p { input = drop n p.input }

next_of : DefaultEscape → Text → Option (ℕ × DefaultEscape)
next_of p [] = none
next_of p (r ∷ rest) = some (r, record p { input = rest })

-- `none` is io.EOF.
pub next : DefaultEscape → Option (ℕ × DefaultEscape)
unfolding next_of
next p = next_of p p.input

-- The loop of `Safe`. `none` means that the fuel ran out.
pub safe_loop : ℕ → DefaultEscape → Text → Option Text
safe_loop zero p new_runes = none
safe_loop (suc fuel) p new_runes = elim (next p) [
  | none ↦ some new_runes
  | some (r, p') ↦
      let long = safe_loop fuel (skip p' 3) (new_runes ++ p'.seq_escaped) in
      let short = safe_loop fuel (skip p' 2) (new_runes ++ p'.seq_escaped) in
      let alone = safe_loop fuel p' (new_runes ++ p'.seq_escaped) in
      let escaped = safe_loop fuel (skip p' 1) (new_runes ++ p'.seq_escaped) in
      let copied = safe_loop fuel p' (new_runes ++ (r ∷ [])) in
      if r == p'.delimitter
      then if text_eq (lookup p' 3) p'.seq_look_ahead_long
        then long
        else if text_eq (lookup p' 2) p'.seq_look_ahead_short
        then short
        else alone
      else if r == 92
      then if text_eq (lookup p' 1) (p'.delimitter ∷ []) then escaped else copied
      else copied
]

abbrev or_empty : Option Text → Text
or_empty none = []
or_empty (some t) = t

-- Every round reads a rune, so one round more than there are runes is enough.
unfoldable pub safe : DefaultEscape → Text
safe p = or_empty (safe_loop (suc (length p.input)) p [])

unfoldable pub new_default_escape : Text → ℕ → DefaultEscape
new_default_escape input delimiter = record {
  delimitter = delimiter;
  input = input;
  seq_escaped = delimiter ∷ 92 ∷ delimiter ∷ delimiter ∷ [];
  seq_look_ahead_long = 92 ∷ delimiter ∷ delimiter ∷ [];
  seq_look_ahead_short = 92 ∷ delimiter ∷ [];
}

unfoldable pub new_double_quote_escape : Text → DefaultEscape
unfolding new_default_escape
new_double_quote_escape input = new_default_escape input b'"'

unfoldable pub new_single_quote_escape : Text → DefaultEscape
unfolding new_default_escape
new_single_quote_escape input = new_default_escape input 39
