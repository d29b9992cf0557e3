-- ===== src/Shell.antt =====
-- How a POSIX shell splits a command into words: the reading for which the program writes its
-- commands (`sh -c` on the remote host, Terraform's local-exec on the local one). It is the
-- specification of the command builders, so it is stricter than a shell: an unquoted character
-- that a shell may treat as an operator, a pattern or an expansion, and a `$` or a backquote
-- between double quotes, make the whole command unreadable.
pub mod Spells
pub mod Plain
use mathlib.Core.List.{foldl}
use terraform_provisioner_an.Base.{
  ℕ, Bool, ◌≡◌, ◌≢◌, refl, true, not, All, Option, none, some, List, [], ◌∷◌, ◌++◌, ◌||◌, Text,
  text, ◌==◌, if◌then◌else◌,
}

pub data Mode : Type 0 where
  unquoted escaped single double double_escaped special : Mode

-- The words read so far, and the word that is being read, if one has begun.
pub record State : Type 0 where
  pub mode : Mode
  pub word : Option Text
  pub words : List Text

abbrev pub gap : List Text → State
gap ws = record { mode = unquoted; word = none; words = ws }

abbrev pub within : Mode → List Text → Text → State
within m ws w = record { mode = m; word = some w; words = ws }

abbrev so_far : Option Text → Text
so_far none = []
so_far (some w) = w

abbrev finished : List Text → Option Text → List Text
finished ws none = ws
finished ws (some w) = ws ++ (w ∷ [])

-- Newline, tab, and the operators, patterns and expansions of a shell.
pub is_special : ℕ → Bool
is_special c =
    c == 10
    || (c == 9
        || (c == b'|'
            || (c == b'&'
                || (c == b';'
                    || (c == b'<'
                        || (c == b'>'
                            || (c == b'('
                                || (c == b')'
                                    || (c == b'$'
                                        || (c == b'`'
                                            || (c == b'*'
                                                || (c == b'?'
                                                    || (c == b'['
                                                        || (c == b'#'
                                                            || (c == b'~'
                                                            || (c == b'!'
                                                            || (c == b'{'
                                                            || c == b'}')))))))))))))))))

-- Characters that stand for themselves outside quotes.
pub is_plain : ℕ → Bool
is_plain c = not (c == b' ' || (c == 39 || (c == b'"' || (c == 92 || is_special c))))

abbrev pub IsPlain : Text → Type 0
IsPlain = All (λ c. is_plain c ≡ true)

abbrev pub HasNoQuote : Text → Type 0
HasNoQuote = All (λ c. c ≢ 39)

-- Characters that stand for themselves between double quotes.
unfoldable pub is_double_plain : ℕ → Bool
is_double_plain c = not (c == b'"' || (c == 92 || (c == b'$' || c == b'`')))

abbrev pub IsDoublePlain : Text → Type 0
IsDoublePlain = All (λ c. is_double_plain c ≡ true)

add : Mode → ℕ → State → State
add m c s = record { mode = m; word = some (so_far s.word ++ (c ∷ [])); words = s.words }

enter : Mode → State → State
enter m s = record { mode = m; word = some (so_far s.word); words = s.words }

step_in : Mode → ℕ → State → State
unfolding add enter
step_in unquoted c s =
    if c == b' '
    then gap (finished s.words s.word)
    else if c == 39
    then enter single s
    else if c == b'"'
    then enter double s
    else if c == 92
    then enter escaped s
    else if is_special c
    then enter special s
    else add unquoted c s
step_in escaped c s = if c == 10 then enter special s else add unquoted c s
step_in single c s = if c == 39 then enter unquoted s else add single c s
step_in double c s =
    if c == b'"'
    then enter unquoted s
    else if c == 92
    then enter double_escaped s
    else if c == b'$' || c == b'`'
    then enter special s
    else add double c s
step_in double_escaped c s =
    if c == 10
    then enter special s
    else if c == b'"' || (c == 92 || (c == b'$' || c == b'`'))
    then add double c s
    else add double c (add double 92 s)
step_in special c s = s

unfoldable pub step : State → ℕ → State
unfolding step_in
step s c = step_in s.mode c s

unfoldable pub run : State → Text → State
unfolding step
run = foldl step

complete : State → Mode → Option (List Text)
complete s unquoted = some (finished s.words s.word)
complete s _ = none

-- The words of a command, or `none` where the command is not plain words.
unfoldable pub argv : Text → Option (List Text)
unfolding run complete is_special
argv t = let s = run (gap []) t in complete s s.mode

argv_example :
    argv (text "a 'b c'd \\' \"e'\\\"\"")
    ≡ some (text "a" ∷ text "b cd" ∷ text "'" ∷ text "e'\"" ∷ [])
unfolding argv text
argv_example = refl
