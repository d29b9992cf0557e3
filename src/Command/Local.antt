-- ===== src/Command/Local.antt =====
-- How a shell reads the command that local mode runs: `ToLocalCommand` of types/play.go.
use terraform_provisioner_an.Base.{
  ◌≡◌, refl, sym, not, some, List, [], ◌∷◌, ◌++◌, append_assoc, Text, text, join, is_empty, false,
}
use terraform_provisioner_an.Base.Outcome.{ok}
use terraform_provisioner_an.Shell.{argv, HasNoQuote}
use terraform_provisioner_an.Shell.Spells.{Spells, InSingle-plain, argv_of_Spells}
use terraform_provisioner_an.Shell.Plain.{all_plain}
use terraform_provisioner_an.Types.Defaults.{has_no_entry}
use terraform_provisioner_an.Types.AnsibleSshSettings.{AnsibleSshSettings}
use terraform_provisioner_an.Types.Play.{
  Play, Entity, unsupported, playbook, module_call, galaxy_install,
}
use terraform_provisioner_an.Types.Play.Settings.{extra_vars_of}
use terraform_provisioner_an.Command.Pieces.{option}
use terraform_provisioner_an.Command.Arguments.{LocalModeAnsibleArgs, Runtime, option_if}
use terraform_provisioner_an.Command.Ssh.{ssh_extra_args_options, to_command_arguments}
use terraform_provisioner_an.Command.Build.{to_command, local_command, to_local_command}
use terraform_provisioner_an.Command.Reading.{option_word, when, Spells-option, Spells-option_if}
use terraform_provisioner_an.Command.Argv.{
  entity_words, command_words, IsReadableEntity, IsReadableEnvironment,
}
use terraform_provisioner_an.Command.Spelling.{Spells-eq}
use terraform_provisioner_an.Command.Words.{Spells-entity_command}

module _ (rt : Runtime) (v : Play) (args : LocalModeAnsibleArgs)
    (settings : AnsibleSshSettings) where
  -- One word for the user, one for a private key, and one with all options for `ssh`.
  unfoldable pub connection_words : List Text
  connection_words =
      option_word (text "user") args.username
      ∷ (when (not (is_empty args.pem_file)) (option_word (text "private-key") args.pem_file)
          ++ (option_word (text "ssh-extra-args")
                (join (ssh_extra_args_options rt v args settings) (text " "))
              ∷ []))

  unfoldable pub local_words : List Text → Entity → List Text
  local_words words (galaxy_install _) = words
  local_words words _ = words ++ connection_words

  pub record IsQuotableConnection : Type 0 where
    pub user : HasNoQuote args.username
    pub private_key : HasNoQuote args.pem_file
    pub ssh_extra_args : HasNoQuote (join (ssh_extra_args_options rt v args settings) (text " "))

option-append : (a b name value : Text) → a ++ option b name value ≡ option (a ++ b) name value
unfolding option
option-append a b name value = sym (append_assoc a b _)

option_if-append :
    (a b name value : Text) → a ++ option_if value name b ≡ option_if value name (a ++ b)
unfolding option_if
option_if-append a b name [] = refl
option_if-append a b name (c ∷ value) = option-append a b name (c ∷ value)

module _ (rt : Runtime) (v : Play) (args : LocalModeAnsibleArgs)
    (settings : AnsibleSshSettings) where
  user_argument :
      (base : Text)
      → base
          ++ (text " "
              ++ (text "--" ++ (text "user" ++ (text "='" ++ (args.username ++ text "'")))))
        ≡ option base (text "user") args.username
  unfolding option text
  user_argument base = refl

  with_connection :
      (base : Text)
      → base ++ (text " " ++ to_command_arguments rt v args settings)
        ≡ option
            (option_if args.pem_file (text "private-key") (option base (text "user") args.username))
            (text "ssh-extra-args")
            (join (ssh_extra_args_options rt v args settings) (text " "))
  unfolding to_command_arguments
  with_connection base = simp (option-append, option_if-append, user_argument)

  Spells-with_connection :
      {base : Text} {ws : List Text}
      → Spells base ws
      → IsQuotableConnection rt v args settings
      → Spells
          (base ++ (text " " ++ to_command_arguments rt v args settings))
          (ws ++ connection_words rt v args settings)
  unfolding connection_words
  Spells-with_connection {base} {ws} spelt q =
      let s0 =
        Spells-option spelt (text "user") (unfold text all_plain in refl) _ _
          (InSingle-plain _ q.user) in
      let s1 =
        Spells-option_if s0 (text "private-key") (unfold text all_plain in refl) args.pem_file
          q.private_key in
      let s2 =
        Spells-option s1 (text "ssh-extra-args") (unfold text all_plain in refl) _ _
          (InSingle-plain _ q.ssh_extra_args) in
      rw (with_connection base) (Spells-eq s2 (simp append_assoc))

module _ (rt : Runtime) (v : Play) (args : LocalModeAnsibleArgs) (settings : AnsibleSshSettings)
    (json : Text)
    (marshals : has_no_entry (extra_vars_of v) ≡ false → rt.marshal (extra_vars_of v) ≡ ok json)
    (tmp : IsReadableEnvironment rt) (q : IsQuotableConnection rt v args settings) where
  Spells-local_command :
      (e : Entity) (c : Text)
      → IsReadableEntity rt v args.username e
      → Spells c (entity_words rt v args.username json e)
      → Spells
          (local_command rt v args settings c e)
          (local_words rt v args settings (entity_words rt v args.username json e) e)
  unfolding local_command local_words
  Spells-local_command unsupported c h spelt = absurd h
  Spells-local_command (galaxy_install g) c h spelt = spelt
  Spells-local_command (playbook p) c h spelt = Spells-with_connection rt v args settings spelt q
  Spells-local_command (module_call m) c h spelt = Spells-with_connection rt v args settings spelt q

  -- The local command of a play under the conditions of `argv-to_command`, whose connection
  -- settings hold no single quote: a shell reads it as the words of the play's command, followed,
  -- unless roles are installed, by one word for the user, one for the private key, if there is a
  -- file with it, and a single one with all options for `ssh`.
  pub argv-to_local_command :
      IsReadableEntity rt v args.username v.entity
      → (c : Text) × (to_local_command rt v args settings ≡ ok c)
        × (argv c
            ≡ some
                (local_words rt v args settings (command_words rt v args.username json) v.entity))
  unfolding to_command to_local_command command_words
  argv-to_local_command h =
      let (c, e, spelt) = Spells-entity_command rt v args json marshals tmp v.entity h in
      (
        local_command rt v args settings c v.entity,
        rw e refl,
        argv_of_Spells (Spells-local_command v.entity c h spelt),
      )
