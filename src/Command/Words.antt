-- ===== src/Command/Words.antt =====
-- How a shell reads the whole command of a play, of types/play.go.
use terraform_provisioner_an.Base.{
  ◌≡◌, ◌≢◌, if◌then◌else◌, refl, true, false, not, Option, none, some, List, [], ◌∷◌, ◌++◌,
  append_assoc, Text, text, join, is_empty, All-append,
}
use terraform_provisioner_an.Base.Int.{is_positive, show}
use terraform_provisioner_an.Base.Outcome.{ok}
use terraform_provisioner_an.Shell.{argv, IsPlain, IsDoublePlain}
use terraform_provisioner_an.Shell.Spells.{
  Spells, Spells-append, Spells-of_IsChunk, IsChunk-append, IsChunk-plain, IsChunk-double,
  InSingle-plain, InDouble-plain, argv_of_Spells,
}
use terraform_provisioner_an.Shell.Plain.{all_plain, IsPlain-of_all_plain}
use terraform_provisioner_an.Types.Playbook.{Playbook, file_path_of}
use terraform_provisioner_an.Types.Module.{Module, default_host_pattern}
use terraform_provisioner_an.Types.Defaults.{has_no_entry}
use terraform_provisioner_an.Types.Play.{
  Play, Entity, unsupported, playbook, module_call, galaxy_install,
}
use terraform_provisioner_an.Types.Play.Settings.{extra_vars_of}
use terraform_provisioner_an.Command.Arguments.{LocalModeAnsibleArgs, Runtime}
use terraform_provisioner_an.Command.Entities.{
  with_remote_tmp, environment, with_roles_path, playbook_command, background_arguments,
  module_arguments, module_command, host_pattern_or_all,
}
use terraform_provisioner_an.Command.Build.{entity_command, to_command}
use terraform_provisioner_an.Command.Reading.{
  option_word, when, Spells-option, Spells-number, Spells-flag_if, Spells-option_if,
  Spells-list_option_if, Spells-number_if,
}
use terraform_provisioner_an.Command.Argv.{
  environment_words, remote_tmp_words, IsReadableTmp, playbook_words, module_words, module_args,
  role_paths, entity_words, shared_words, command_words, IsReadableEnvironment, IsReadablePlaybook,
  IsReadableModule, IsReadableEntity,
}
use terraform_provisioner_an.Command.Spelling.{
  Spells-eq, Spells-if, Spells-plain, Spells-galaxy_install_command, Spells-append_shared_arguments,
}

module _ (rt : Runtime) where
  Spells-with_remote_tmp :
      (o : Option Text)
      → IsReadableTmp rt o
      → Spells
          (with_remote_tmp o (text "ANSIBLE_FORCE_COLOR=true"))
          (text "ANSIBLE_FORCE_COLOR=true" ∷ remote_tmp_words rt o)
  unfolding with_remote_tmp remote_tmp_words
  Spells-with_remote_tmp none h =
      unfold text all_plain in Spells-plain (text "ANSIBLE_FORCE_COLOR=true") (cc) refl
  Spells-with_remote_tmp (some val) h =
      unfold text all_plain in
      Spells-append (Spells-plain (text "ANSIBLE_FORCE_COLOR=true") (cc) refl) (
        Spells-of_IsChunk (
          IsChunk-append
            (IsChunk-plain (text "ANSIBLE_REMOTE_TMP=") (cc)
              (IsPlain-of_all_plain (text "ANSIBLE_REMOTE_TMP=") refl))
            (IsChunk-double (InDouble-plain val h))))

  Spells-environment : IsReadableEnvironment rt → Spells (environment rt) (environment_words rt)
  unfolding environment environment_words
  Spells-environment h = Spells-with_remote_tmp _ h

roles_path_given : (t : Text) → (text "ANSIBLE_ROLES_PATH=" ++ t) ≢ []
unfolding text
roles_path_given t = cc

module _ {c : Text} {ws : List Text} (spelt : Spells c ws) where
  -- A command that begins with the name of a program and one argument.
  Spells-program :
      (name argument : Text)
      → name ≢ []
      → all_plain name ≡ true
      → argument ≢ []
      → IsPlain argument
      → Spells (c ++ (text " " ++ (name ++ (text " " ++ argument)))) (ws ++ (name ∷ argument ∷ []))
  Spells-program name argument ne h ne' h' =
      Spells-append spelt
        (Spells-append (Spells-plain name ne h) (Spells-of_IsChunk (IsChunk-plain argument ne' h')))

  Spells-ansible_playbook :
      (path : Text)
      → path ≢ []
      → IsPlain path
      → Spells
          (c ++ (text " " ++ (text "ansible-playbook " ++ path)))
          (ws ++ (text "ansible-playbook" ∷ path ∷ []))
  unfolding text all_plain
  Spells-ansible_playbook path ne h = Spells-program (text "ansible-playbook") path (cc) refl ne h

  Spells-ansible :
      (pattern : Text)
      → pattern ≢ []
      → IsPlain pattern
      → Spells
          (c ++ (text " " ++ (text "ansible " ++ pattern)))
          (ws ++ (text "ansible" ∷ pattern ∷ []))
  unfolding text all_plain
  Spells-ansible pattern ne h = Spells-program (text "ansible") pattern (cc) refl ne h

  Spells-with_roles_path :
      (paths : List Text)
      → IsPlain (join paths (text ":"))
      → Spells
          (with_roles_path paths c)
          (ws ++ when (not (is_empty paths)) (text "ANSIBLE_ROLES_PATH=" ++ join paths (text ":")))
  unfolding with_roles_path
  Spells-with_roles_path paths h = Spells-if _ (not (is_empty paths)) spelt (
      Spells-append spelt (
        Spells-of_IsChunk (
          IsChunk-plain (text "ANSIBLE_ROLES_PATH=" ++ join paths (text ":")) (roles_path_given _) (
            All-append _ (text "ANSIBLE_ROLES_PATH=") _
              (IsPlain-of_all_plain _ (unfold text all_plain in refl)) h))))

module _ (rt : Runtime) {c : Text} {ws : List Text} (spelt : Spells c ws) where
  Spells-playbook_command :
      (p : Playbook)
      → IsReadablePlaybook rt p
      → Spells (playbook_command rt p c) (ws ++ playbook_words rt p)
  unfolding playbook_command playbook_words
  Spells-playbook_command p r =
      let s0 = Spells-with_roles_path spelt (role_paths rt p) r.roles in
      let s1 = Spells-ansible_playbook s0 (file_path_of p) r.file_path_given r.file_path in
      let s2 =
        Spells-flag_if s1 (text "force-handlers") (unfold text all_plain in refl)
          p.force_handlers in
      let s3 =
        Spells-list_option_if s2 (text "skip-tags") (unfold text all_plain in refl) p.skip_tags
          r.skip_tags in
      let s4 =
        Spells-option_if s3 (text "start-at-task") (unfold text all_plain in refl) p.start_at_task
          r.start_at_task in
      let s5 =
        Spells-list_option_if s4 (text "tags") (unfold text all_plain in refl) p.tags r.tags in
      Spells-eq s5 (simp append_assoc)

  Spells-background_arguments :
      (m : Module)
      → Spells (background_arguments m c) (
          ws
          ++ (if is_positive m.background
              then option_word (text "background") (show m.background)
                ∷ when (is_positive m.poll) (option_word (text "poll") (show m.poll))
              else []))
  unfolding background_arguments
  Spells-background_arguments m = Spells-if _ (is_positive m.background) spelt (
      Spells-eq
        (Spells-number_if
          (Spells-number spelt (text "background") (unfold text all_plain in refl) m.background)
          (text "poll") (unfold text all_plain in refl) m.poll)
        (append_assoc ws _ _))

  Spells-module_arguments :
      (m : Module)
      → IsDoublePlain (module_args rt m)
      → Spells
          (module_arguments rt m.args c)
          (ws ++ when (not (has_no_entry m.args)) (option_word (text "args") (module_args rt m)))
  unfolding module_arguments option_word text all_plain
  Spells-module_arguments m h = Spells-if _ (not (has_no_entry m.args)) spelt (
      Spells-append spelt (
        Spells-of_IsChunk (
          IsChunk-append
            (IsChunk-plain (text "--args=") (cc) (IsPlain-of_all_plain (text "--args=") refl))
            (IsChunk-double (InDouble-plain _ h)))))

host_pattern_or_all-ne-nil : (pattern : Text) → host_pattern_or_all pattern ≢ []
unfolding host_pattern_or_all default_host_pattern text
host_pattern_or_all-ne-nil [] = cc
host_pattern_or_all-ne-nil (c ∷ t) = cc

module _ (rt : Runtime) {c : Text} {ws : List Text} (spelt : Spells c ws) where
  Spells-module_command :
      (m : Module)
      → IsReadableModule rt m
      → Spells (module_command rt m c) (ws ++ module_words rt m)
  unfolding module_command module_words
  Spells-module_command m r =
      let s0 =
        Spells-ansible spelt (host_pattern_or_all m.host_pattern)
          (host_pattern_or_all-ne-nil m.host_pattern) r.host_pattern in
      let s1 =
        Spells-option s0 (text "module-name") (unfold text all_plain in refl) _ _
          (InSingle-plain _ r.module_name) in
      let s2 = Spells-background_arguments rt s1 m in
      let s3 = Spells-module_arguments rt s2 m r.args in
      let s4 = Spells-flag_if s3 (text "one-line") (unfold text all_plain in refl) m.one_line in
      Spells-eq s4 (simp append_assoc)

module _ (rt : Runtime) (v : Play) (args : LocalModeAnsibleArgs) (json : Text)
    (marshals : has_no_entry (extra_vars_of v) ≡ false → rt.marshal (extra_vars_of v) ≡ ok json)
    (tmp : IsReadableEnvironment rt) where
  pub Spells-entity_command :
      (e : Entity)
      → IsReadableEntity rt v args.username e
      → (c : Text) × (entity_command rt v args e ≡ ok c)
        × Spells c (entity_words rt v args.username json e)
  unfolding entity_command entity_words
  Spells-entity_command unsupported h = absurd h
  Spells-entity_command (galaxy_install g) r =
      (_, refl, Spells-galaxy_install_command (Spells-environment rt tmp) g r)
  Spells-entity_command (playbook p) (r, q) =
      let s0 = Spells-playbook_command rt (Spells-environment rt tmp) p r in
      let (c, e, s1) = Spells-append_shared_arguments s0 v rt args json q marshals in
      (
        c,
        e,
        Spells-eq s1 (
            append_assoc (environment_words rt) (playbook_words rt p)
              (shared_words v args.username json)),
      )
  Spells-entity_command (module_call m) (r, q) =
      let s0 = Spells-module_command rt (Spells-environment rt tmp) m r in
      let (c, e, s1) = Spells-append_shared_arguments s0 v rt args json q marshals in
      (
        c,
        e,
        Spells-eq s1 (
            append_assoc (environment_words rt) (module_words rt m)
              (shared_words v args.username json)),
      )

  -- A play with a supported entity whose settings hold no quote, and whose unquoted settings are
  -- plain, gets a command, and a shell reads this command as the words of the specification: one
  -- word for each setting, whatever the values of the extra variables are.
  pub argv-to_command :
      IsReadableEntity rt v args.username v.entity
      → (c : Text) × (to_command rt v args ≡ ok c)
        × (argv c ≡ some (command_words rt v args.username json))
  unfolding to_command command_words
  argv-to_command h =
      let (c, e, spelt) = Spells-entity_command v.entity h in (c, e, argv_of_Spells spelt)
