-- ===== src/Shellescape/Quoting.antt =====
-- How a shell reads the text that the single quote escape gives, between single quotes.
use terraform_provisioner_an.Base.{
  ℕ, ◌≡◌, ◌↔◌, refl, sym, ap, false, Option, some, List, [], ◌∷◌, ◌++◌, append-nil, arith, Text,
  text, contains, inl, inr, Bool-cases, ==_iff, ◌==◌, if◌then◌else◌,
}
use terraform_provisioner_an.Shell.{single, within, run, argv}
use terraform_provisioner_an.Shell.Spells.{
  InSingle, InSingle-append, InSingle-plain, IsChunk-single, Spells-of_IsChunk, argv_of_Spells,
}
use terraform_provisioner_an.Shellescape.{safe, new_single_quote_escape}
use terraform_provisioner_an.Shellescape.Value.{value, requote, safe-requote, value-eq_iff}

InSingle-escaped_quote : InSingle (39 ∷ 92 ∷ 39 ∷ 39 ∷ []) (39 ∷ [])
unfolding run
InSingle-escaped_quote = record { reads = λ ds w. refl }

InSingle-nil : InSingle [] []
unfolding run
InSingle-nil = record { reads = λ ds w. ap (within single ds) (sym (append-nil w)) }

InSingle-piece : (c : ℕ) → InSingle (if c == 39 then 39 ∷ 92 ∷ 39 ∷ 39 ∷ [] else c ∷ []) (c ∷ [])
InSingle-piece c = elim (Bool-cases (c == 39)) [
  | inl same ↦ rw (same, (==_iff c 39).0 same) InSingle-escaped_quote
  | inr other ↦ rw other (InSingle-plain (c ∷ []) ((λ e. cc (other, (==_iff c 39).1 e)), tt))
]

InSingle-requote : (v : Text) → InSingle (requote 39 v) v
unfolding requote
InSingle-requote [] = InSingle-nil
InSingle-requote (c ∷ v) = InSingle-append (InSingle-piece c) (InSingle-requote v)

-- Between single quotes a shell reads an escaped text as its value.
pub InSingle-safe : (s : Text) → InSingle (safe (new_single_quote_escape s)) (value 39 s)
unfolding new_single_quote_escape
InSingle-safe s = rw (safe-requote 39 s) (InSingle-requote (value 39 s))

-- Whatever the input, the escaped text between single quotes is one word of a shell and nothing
-- else: no quote in it ends the word, and the word is the value of the input.
pub argv-safe :
    (s : Text)
    → argv (text "'" ++ (safe (new_single_quote_escape s) ++ text "'")) ≡ some (value 39 s ∷ [])
argv-safe s = argv_of_Spells (Spells-of_IsChunk (IsChunk-single (InSingle-safe s)))

word_inj : {v s : Text} → ◌≡◌ {A = Option (List Text)} (some (v ∷ [])) (some (s ∷ [])) → v ≡ s
word_inj e = cc

-- A shell hands the input on unchanged exactly when no backslash in it stands before a quote.
pub argv-safe_exact :
    (s : Text)
    → (argv (text "'" ++ (safe (new_single_quote_escape s) ++ text "'")) ≡ some (s ∷ []))
      ↔ (contains s (92 ∷ 39 ∷ []) ≡ false)
argv-safe_exact s = rw argv-safe (
  (λ e. (value-eq_iff 39 s (omega arith)).0 (word_inj e)),
  (λ h. ap (λ v. some (v ∷ [])) ((value-eq_iff 39 s (omega arith)).1 h)),
)
