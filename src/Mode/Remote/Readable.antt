-- ===== src/Mode/Remote/Readable.antt =====
-- How a shell reads the commands that mode/mode_remote.go runs for itself.
use terraform_provisioner_an.Base.{
  ◌≡◌, ◌≢◌, refl, Bool, true, false, ◌&&◌, some, List, [], ◌∷◌, ◌++◌, append_assoc, Text, text,
  All-append, if◌then◌else◌,
}
use mathlib.Core.Path.{subst}
use terraform_provisioner_an.Shell.{HasNoQuote, IsDoublePlain, argv}
use terraform_provisioner_an.Shell.Plain.{all_plain, HasNoQuote-of_all_unquoted}
use terraform_provisioner_an.Shell.Spells.{
  Spells, IsChunk, Spells-of_IsChunk, Spells-append, IsChunk-double, IsChunk-single, InDouble-plain,
  InSingle-plain, argv_of_Spells,
}
use terraform_provisioner_an.Command.Spelling.{Spells-plain}
use terraform_provisioner_an.Types.RemoteSettings.{RemoteSettings}
use terraform_provisioner_an.Mode.Remote.Commands.{
  mkdir_command, remove_command, check_command, install_command, with_sudo,
}

-- The words before a command that is run as root.
abbrev pub sudo_words : RemoteSettings → Bool → List Text
sudo_words v should_sudo = if should_sudo && v.use_sudo then text "sudo" ∷ [] else []

Spells-with_sudo :
    (v : RemoteSettings) (command : Text) (should_sudo : Bool) (ws : List Text)
    → Spells command ws
    → Spells (with_sudo v command should_sudo) (sudo_words v should_sudo ++ ws)
unfolding with_sudo all_plain text
Spells-with_sudo v command should_sudo ws h =
    elim (should_sudo && v.use_sudo)
      as (λ b.
        Spells (if b then text "sudo " ++ command else command)
          ((if b then text "sudo" ∷ [] else []) ++ ws)) [
            | true ↦ Spells-append (Spells-plain (text "sudo") (cc) refl) h
            | false ↦ h
          ]

-- A quoted word behind two words of the source.
Spells-quoted :
    (a b t u : Text)
    → Spells a (a ∷ [])
    → Spells b (b ∷ [])
    → IsChunk t u
    → Spells (a ++ (text " " ++ (b ++ (text " " ++ t)))) (a ∷ b ∷ u ∷ [])
Spells-quoted a b t u ha hb h = Spells-append ha (Spells-append hb (Spells-of_IsChunk h))

Spells-mkdir :
    (d : Text) → IsDoublePlain d → Spells (mkdir_command d) (text "mkdir" ∷ text "-p" ∷ d ∷ [])
unfolding mkdir_command text all_plain
Spells-mkdir d h =
    Spells-quoted (text "mkdir") (text "-p") _ d (Spells-plain (text "mkdir") (cc) refl)
      (Spells-plain (text "-p") (cc) refl) (IsChunk-double (InDouble-plain d h))

Spells-remove :
    (d : Text) → IsDoublePlain d → Spells (remove_command d) (text "rm" ∷ text "-rf" ∷ d ∷ [])
unfolding remove_command text all_plain
Spells-remove d h =
    Spells-quoted (text "rm") (text "-rf") _ d (Spells-plain (text "rm") (cc) refl)
      (Spells-plain (text "-rf") (cc) refl) (IsChunk-double (InDouble-plain d h))

-- The scripts that are handed to a shell on the remote machine.
abbrev pub check_script : Text → Text
check_script d = text "if [ -d \"" ++ (d ++ text "\" ]; then exit 50; fi")

abbrev pub install_script : Text → Text
install_script path = text "\"" ++ (path ++ (text "\" && rm \"" ++ (path ++ text "\"")))

Spells-script :
    (script : Text)
    → HasNoQuote script
    → Spells
        (text "/bin/sh -c '" ++ (script ++ text "'"))
        (text "/bin/sh" ∷ text "-c" ∷ script ∷ [])
unfolding text all_plain
Spells-script script h =
    Spells-quoted (text "/bin/sh") (text "-c") _ script (Spells-plain (text "/bin/sh") (cc) refl)
      (Spells-plain (text "-c") (cc) refl) (IsChunk-single (InSingle-plain script h))

HasNoQuote-append : (t u : Text) → HasNoQuote t → HasNoQuote u → HasNoQuote (t ++ u)
HasNoQuote-append t u = All-append (λ c. c ≢ 39) t u

Spells-check :
    (d : Text)
    → HasNoQuote d
    → Spells (check_command d) (text "/bin/sh" ∷ text "-c" ∷ check_script d ∷ [])
unfolding check_command text
Spells-check d h =
    let after = text "\" ]; then exit 50; fi" in
    let before = text "if [ -d \"" in
    let unquoted =
      HasNoQuote-append before (d ++ after) (HasNoQuote-of_all_unquoted before refl)
        (HasNoQuote-append d after h (HasNoQuote-of_all_unquoted after refl)) in
    subst
      (λ t.
        Spells (text "/bin/sh -c 'if [ -d \"" ++ t)
          (text "/bin/sh" ∷ text "-c" ∷ check_script d ∷ []))
      (append_assoc d after (text "'")) (Spells-script (check_script d) unquoted)

twice_assoc : (p m q s : Text) → (p ++ (m ++ (p ++ q))) ++ s ≡ p ++ (m ++ (p ++ (q ++ s)))
twice_assoc p m q s = simp append_assoc

Spells-install :
    (path : Text)
    → HasNoQuote path
    → Spells (install_command path) (text "/bin/sh" ∷ text "-c" ∷ install_script path ∷ [])
unfolding install_command text
Spells-install path h =
    let between = text "\" && rm \"" in
    let quote = text "\"" in
    let unquoted =
      HasNoQuote-append quote (path ++ (between ++ (path ++ quote)))
        (HasNoQuote-of_all_unquoted quote refl)
        (HasNoQuote-append path (between ++ (path ++ quote)) h (
          HasNoQuote-append between (path ++ quote) (HasNoQuote-of_all_unquoted between refl)
            (HasNoQuote-append path quote h (HasNoQuote-of_all_unquoted quote refl)))) in
    subst
      (λ t.
        Spells (text "/bin/sh -c '\"" ++ t) (text "/bin/sh" ∷ text "-c" ∷ install_script path ∷ []))
      (twice_assoc path between quote (text "'")) (Spells-script (install_script path) unquoted)

-- A shell reads the commands that remote mode runs for itself as what they are meant to be, behind
-- sudo where they are run as root: mkdir and rm of one directory, and a script for /bin/sh, for every
-- path that holds no quote of either kind, no dollar sign, no backquote and no backslash, as one with
-- spaces.
pub argv-with_sudo :
    (v : RemoteSettings) (should_sudo : Bool) (path : Text)
    → IsDoublePlain path
    → HasNoQuote path
    → (argv (with_sudo v (mkdir_command path) should_sudo)
        ≡ some (sudo_words v should_sudo ++ (text "mkdir" ∷ text "-p" ∷ path ∷ [])))
      × (argv (with_sudo v (remove_command path) should_sudo)
          ≡ some (sudo_words v should_sudo ++ (text "rm" ∷ text "-rf" ∷ path ∷ [])))
      × (argv (with_sudo v (check_command path) should_sudo)
          ≡ some
              (sudo_words v should_sudo ++ (text "/bin/sh" ∷ text "-c" ∷ check_script path ∷ [])))
      × (argv (with_sudo v (install_command path) should_sudo)
          ≡ some
              (sudo_words v should_sudo ++ (text "/bin/sh" ∷ text "-c" ∷ install_script path ∷ [])))
argv-with_sudo v should_sudo path d h = (
  argv_of_Spells (Spells-with_sudo v _ should_sudo _ (Spells-mkdir path d)),
  argv_of_Spells (Spells-with_sudo v _ should_sudo _ (Spells-remove path d)),
  argv_of_Spells (Spells-with_sudo v _ should_sudo _ (Spells-check path h)),
  argv_of_Spells (Spells-with_sudo v _ should_sudo _ (Spells-install path h)),
)
