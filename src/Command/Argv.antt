-- ===== src/Command/Argv.antt =====
-- The words that the commands of types/play.go are meant to be, with no quoting in them, and the
-- conditions on the settings under which plain quotes around them are enough.
use terraform_provisioner_an.Base.{
  ◌≢◌, not, Option, none, some, List, [], ◌∷◌, ◌++◌, map, Text, text, join, is_empty, All,
  if◌then◌else◌,
}
use terraform_provisioner_an.Base.Int.{is_positive, show}
use terraform_provisioner_an.Go.Path.{clean}
use terraform_provisioner_an.Shell.{IsPlain, HasNoQuote, IsDoublePlain}
use terraform_provisioner_an.Shellescape.Value.{value}
use terraform_provisioner_an.Types.Playbook.{Playbook, file_path_of, roles_path_of}
use terraform_provisioner_an.Types.Module.{Module}
use terraform_provisioner_an.Types.GalaxyInstall.{GalaxyInstall}
use terraform_provisioner_an.Types.Defaults.{has_no_entry}
use terraform_provisioner_an.Types.Play.{
  Play, Entity, unsupported, playbook, module_call, galaxy_install,
}
use terraform_provisioner_an.Types.Play.Settings.{
  become_method_of, become_user_of, extra_vars_of, forks_of, inventory_file_of, limit_of,
  vault_id_of, vault_password_file_of,
}
use terraform_provisioner_an.Command.Arguments.{Runtime}
use terraform_provisioner_an.Command.Entities.{default_role_paths, host_pattern_or_all, assignments}
use terraform_provisioner_an.Command.Reading.{flag_word, option_word, when}

-- A user name is taken from the connection if the play has none.
unfoldable pub become_words : Play → Text → List Text
become_words v username =
    if v.become
    then flag_word (text "become")
      ∷ option_word (text "become-method") (become_method_of v)
      ∷ option_word (text "become-user")
          (if not (is_empty (become_user_of v)) then become_user_of v else username)
      ∷ []
    else []

-- Vault identities come before a vault password file, which is then left out.
unfoldable pub vault_words : Play → List Text
vault_words v =
    if not (is_empty (vault_id_of v))
    then map (λ path. option_word (text "vault-id") (clean path)) (vault_id_of v)
    else when (not (is_empty (vault_password_file_of v)))
        (option_word (text "vault-password-file") (vault_password_file_of v))

-- The shared arguments, for the extra variables in JSON.
unfoldable pub shared_words : Play → Text → Text → List Text
shared_words v username json =
    option_word (text "inventory-file") (inventory_file_of v)
    ∷ (become_words v username
        ++ (when v.diff (flag_word (text "diff"))
            ++ (when v.check (flag_word (text "check"))
                ++ (when (not (has_no_entry (extra_vars_of v)))
                      (option_word (text "extra-vars") (value 39 json))
                    ++ (when (is_positive (forks_of v))
                          (option_word (text "forks") (show (forks_of v)))
                        ++ (when (not (is_empty (limit_of v)))
                              (option_word (text "limit") (limit_of v))
                            ++ (vault_words v ++ when v.verbose (flag_word (text "verbose")))))))))

unfoldable pub galaxy_install_words : GalaxyInstall → List Text
galaxy_install_words g =
    text "ansible-galaxy"
    ∷ text "install"
    ∷ option_word (text "role-file") g.role_file
    ∷ (when g.force (flag_word (text "force"))
        ++ (when g.ignore_certs (flag_word (text "ignore-certs"))
            ++ (when g.ignore_errors (flag_word (text "ignore-errors"))
                ++ (when g.keep_scm_meta (flag_word (text "keep-scm-meta"))
                    ++ (when g.no_deps (flag_word (text "no-deps"))
                        ++ (when g.verbose (flag_word (text "verbose"))
                            ++ (when (not (is_empty g.roles_path))
                                  (option_word (text "roles-path") g.roles_path)
                                ++ when (not (is_empty g.server))
                                    (option_word (text "server") g.server))))))))

-- `Sprintf` of a list, if there is one.
abbrev list_words : List Text → Text → List Text
list_words values name = when (not (is_empty values)) (option_word name (join values (text ",")))

module _ (rt : Runtime) where
  unfoldable pub remote_tmp_words : Option Text → List Text
  remote_tmp_words none = []
  remote_tmp_words (some val) = (text "ANSIBLE_REMOTE_TMP=" ++ val) ∷ []

  unfoldable pub environment_words : List Text
  environment_words =
      text "ANSIBLE_FORCE_COLOR=true" ∷ remote_tmp_words (rt.lookup_env (text "ANSIBLE_REMOTE_TMP"))

  abbrev pub role_paths : Playbook → List Text
  role_paths p = default_role_paths rt ++ map clean (roles_path_of p)

  unfoldable pub playbook_words : Playbook → List Text
  playbook_words p =
      when (not (is_empty (role_paths p)))
        (text "ANSIBLE_ROLES_PATH=" ++ join (role_paths p) (text ":"))
      ++ (text "ansible-playbook"
          ∷ file_path_of p
          ∷ (when p.force_handlers (flag_word (text "force-handlers"))
              ++ (list_words p.skip_tags (text "skip-tags")
                  ++ (when (not (is_empty p.start_at_task))
                        (option_word (text "start-at-task") p.start_at_task)
                      ++ list_words p.tags (text "tags")))))

  abbrev pub module_args : Module → Text
  module_args m = join (assignments rt (rt.range m.args)) (text " ")

  unfoldable pub module_words : Module → List Text
  module_words m =
      text "ansible"
      ∷ host_pattern_or_all m.host_pattern
      ∷ option_word (text "module-name") m.module_name
      ∷ ((if is_positive m.background
            then option_word (text "background") (show m.background)
              ∷ when (is_positive m.poll) (option_word (text "poll") (show m.poll))
            else [])
          ++ (when (not (has_no_entry m.args)) (option_word (text "args") (module_args m))
              ++ when m.one_line (flag_word (text "one-line"))))

  unfoldable pub entity_words : Play → Text → Text → Entity → List Text
  entity_words v username json (playbook p) =
      environment_words ++ (playbook_words p ++ shared_words v username json)
  entity_words v username json (module_call m) =
      environment_words ++ (module_words m ++ shared_words v username json)
  entity_words v username json (galaxy_install g) = environment_words ++ galaxy_install_words g
  entity_words v username json unsupported = []

  -- The words of a play's command, its environment first.
  unfoldable pub command_words : Play → Text → Text → List Text
  command_words v username json = entity_words v username json v.entity

-- No setting that is written between single quotes holds one. The extra variables need no such
-- condition, for they are escaped.
pub record IsQuotable (v : Play) (username : Text) : Type 0 where
  pub inventory_file : HasNoQuote (inventory_file_of v)
  pub become_method : HasNoQuote (become_method_of v)
  pub become_user : HasNoQuote (become_user_of v)
  pub user : HasNoQuote username
  pub limit : HasNoQuote (limit_of v)
  pub vault_password_file : HasNoQuote (vault_password_file_of v)
  pub vault_id : All (λ path. HasNoQuote (clean path)) (vault_id_of v)

-- What is written without quotes is plain, and what stands between double quotes needs no escape.
module _ (rt : Runtime) where
  abbrev pub IsReadableTmp : Option Text → Type 0
  IsReadableTmp none = Unit
  IsReadableTmp (some val) = IsDoublePlain val

  abbrev pub IsReadableEnvironment : Type 0
  IsReadableEnvironment = IsReadableTmp (rt.lookup_env (text "ANSIBLE_REMOTE_TMP"))

  pub record IsReadablePlaybook (p : Playbook) : Type 0 where
    pub file_path : IsPlain (file_path_of p)
    pub file_path_given : file_path_of p ≢ []
    pub roles : IsPlain (join (role_paths rt p) (text ":"))
    pub skip_tags : HasNoQuote (join p.skip_tags (text ","))
    pub start_at_task : HasNoQuote p.start_at_task
    pub tags : HasNoQuote (join p.tags (text ","))

  pub record IsReadableModule (m : Module) : Type 0 where
    pub host_pattern : IsPlain (host_pattern_or_all m.host_pattern)
    pub module_name : HasNoQuote m.module_name
    pub args : IsDoublePlain (module_args rt m)

pub record IsReadableGalaxyInstall (g : GalaxyInstall) : Type 0 where
  pub role_file : HasNoQuote g.role_file
  pub roles_path : HasNoQuote g.roles_path
  pub server : HasNoQuote g.server

-- The conditions for the play's entity; no command is made for an unsupported one.
abbrev pub IsReadableEntity : Runtime → Play → Text → Entity → Type 0
IsReadableEntity rt v username (playbook p) = IsReadablePlaybook rt p × IsQuotable v username
IsReadableEntity rt v username (module_call m) = IsReadableModule rt m × IsQuotable v username
IsReadableEntity rt v username (galaxy_install g) = IsReadableGalaxyInstall g
IsReadableEntity rt v username unsupported = ⊥
