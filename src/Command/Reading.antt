-- ===== src/Command/Reading.antt =====
-- How a shell reads a command behind which one more argument was appended.
use mathlib.Core.Path.{subst}
use terraform_provisioner_an.Base.{
  ◌≡◌, refl, sym, Bool, true, false, not, List, [], ◌∷◌, ◌++◌, append-nil, Text, text, is_empty,
  join, inl, inr, Bool-cases, if◌then◌else◌,
}
use terraform_provisioner_an.Base.Int.{ℤ, show, is_positive}
use terraform_provisioner_an.Shell.{HasNoQuote}
use terraform_provisioner_an.Shell.Spells.{
  Spells, Spells-append, Spells-of_IsChunk, IsChunk, IsChunk-append, IsChunk-plain, IsChunk-single,
  InSingle, InSingle-plain,
}
use terraform_provisioner_an.Shell.Plain.{
  all_plain, IsPlain-of_all_plain, show-IsPlain, show-ne-nil,
}
use terraform_provisioner_an.Command.Pieces.{flag, option, number}
use terraform_provisioner_an.Command.Arguments.{flag_if, option_if, list_option_if, number_if}

-- The words `--name` and `--name=value`.
unfoldable pub flag_word : Text → Text
flag_word name = text "--" ++ name

unfoldable pub option_word : Text → Text → Text
option_word name value = text "--" ++ (name ++ (text "=" ++ value))

abbrev pub when {ℓ} : {A : Type ℓ} → Bool → A → List A
when b a = if b then a ∷ [] else []

IsChunk-name :
    (name : Text) → all_plain name ≡ true → IsChunk (text "--" ++ name) (text "--" ++ name)
unfolding text all_plain
IsChunk-name name h = IsChunk-plain _ (cc) (refl, (refl, IsPlain-of_all_plain name h))

IsChunk-equals : IsChunk (text "=") (text "=")
unfolding text all_plain
IsChunk-equals = IsChunk-plain _ (cc) (refl, tt)

module _ {c : Text} {ws : List Text} (spelt : Spells c ws) where
  pub Spells-same : Spells c (ws ++ [])
  Spells-same = subst (Spells c) (sym (append-nil ws)) spelt

module _ {c : Text} {ws : List Text} (spelt : Spells c ws) (name : Text)
    (plain : all_plain name ≡ true) where
  pub Spells-flag : Spells (flag c name) (ws ++ (flag_word name ∷ []))
  unfolding flag flag_word text
  Spells-flag = Spells-append spelt (Spells-of_IsChunk (IsChunk-name name plain))

  pub Spells-option :
      (value v : Text)
      → InSingle value v
      → Spells (option c name value) (ws ++ (option_word name v ∷ []))
  unfolding option option_word text
  Spells-option value v quoted = Spells-append spelt (
      Spells-of_IsChunk (
        IsChunk-append (IsChunk-name name plain)
          (IsChunk-append IsChunk-equals (IsChunk-single quoted))))

  pub Spells-number : (i : ℤ) → Spells (number c name i) (ws ++ (option_word name (show i) ∷ []))
  unfolding number option_word text
  Spells-number i = Spells-append spelt (
      Spells-of_IsChunk (
        IsChunk-append (IsChunk-name name plain) (
          IsChunk-append IsChunk-equals (IsChunk-plain (show i) (show-ne-nil i) (show-IsPlain i)))))

  pub Spells-flag_if : (b : Bool) → Spells (flag_if b name c) (ws ++ when b (flag_word name))
  unfolding flag_if
  Spells-flag_if true = Spells-flag
  Spells-flag_if false = Spells-same spelt

  pub Spells-option_if :
      (value : Text)
      → HasNoQuote value
      → Spells (option_if value name c) (ws ++ when (not (is_empty value)) (option_word name value))
  unfolding option_if
  Spells-option_if [] h = Spells-same spelt
  Spells-option_if (x ∷ value) h = Spells-option (x ∷ value) (x ∷ value) (InSingle-plain _ h)

  pub Spells-list_option_if :
      (values : List Text)
      → HasNoQuote (join values (text ","))
      → Spells
          (list_option_if values name c)
          (ws ++ when (not (is_empty values)) (option_word name (join values (text ","))))
  unfolding list_option_if
  Spells-list_option_if [] h = Spells-same spelt
  Spells-list_option_if (x ∷ values) h = Spells-option _ _ (InSingle-plain _ h)

  pub Spells-number_if :
      (i : ℤ) → Spells (number_if i name c) (ws ++ when (is_positive i) (option_word name (show i)))
  unfolding number_if
  Spells-number_if i = elim (Bool-cases (is_positive i)) [
    | inl above ↦ rw above (Spells-number i)
    | inr below ↦ rw below (Spells-same spelt)
  ]
