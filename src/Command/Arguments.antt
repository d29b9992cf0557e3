-- ===== src/Command/Arguments.antt =====
-- types/local_mode_ansible_args.go and `appendSharedArguments` of types/play.go.
use terraform_provisioner_an.Base.{
  Bool, not, Option, List, [], ◌∷◌, Text, text, join, is_empty, if◌then◌else◌,
}
use terraform_provisioner_an.Base.Int.{ℤ, is_positive}
use terraform_provisioner_an.Base.Outcome.{Outcome, ok, ◌>>=◌}
use terraform_provisioner_an.Go.Value.{Value, Fields}
use terraform_provisioner_an.Go.Path.{clean}
use terraform_provisioner_an.Shellescape.{safe, new_single_quote_escape}
use terraform_provisioner_an.Types.Defaults.{has_no_entry}
use terraform_provisioner_an.Types.Play.{Play}
use terraform_provisioner_an.Types.Play.Settings.{
  become_method_of, become_user_of, extra_vars_of, forks_of, inventory_file_of, limit_of,
  vault_id_of, vault_password_file_of,
}
use terraform_provisioner_an.Command.Pieces.{flag, option, number}

pub record LocalModeAnsibleArgs : Type 0 where
  pub username : Text
  pub port : ℤ
  pub pem_file : Text
  pub known_hosts_file : Text
  pub bastion_known_hosts_file : Text
  pub bastion_username : Text
  pub bastion_host : Text
  pub bastion_port : ℤ
  pub bastion_pem_file : Text

-- What the commands depend on beside the play: the environment, `json.Marshal` of a map, the format
-- `%+v` of a value, and the order in which `range` goes through a map, which Go leaves open.
pub record Runtime : Type 0 where
  pub lookup_env : Text → Option Text
  pub marshal : Fields → Outcome Text
  pub show_value : Value → Text
  pub range : Fields → List (Text × Value)

unfoldable pub flag_if : Bool → Text → Text → Text
flag_if b name command = if b then flag command name else command

unfoldable pub option_if : Text → Text → Text → Text
option_if value name command = if not (is_empty value) then option command name value else command

unfoldable pub list_option_if : List Text → Text → Text → Text
list_option_if values name command =
    if not (is_empty values) then option command name (join values (text ",")) else command

unfoldable pub number_if : ℤ → Text → Text → Text
number_if i name command = if is_positive i then number command name i else command

unfoldable pub vault_id_arguments : Text → List Text → Text
vault_id_arguments command [] = command
vault_id_arguments command (vault_id ∷ rest) =
    vault_id_arguments (option command (text "vault-id") (clean vault_id)) rest

-- The blocks of `appendSharedArguments`, each from the command before it to the command behind it.
unfoldable pub become_arguments : Play → Text → Text → Text
become_arguments v username command =
    if v.become
    then option (option (flag command (text "become")) (text "become-method") (become_method_of v))
        (text "become-user")
        (if not (is_empty (become_user_of v)) then become_user_of v else username)
    else command

unfoldable pub vault_arguments : Play → Text → Text
vault_arguments v command =
    if not (is_empty (vault_id_of v))
    then vault_id_arguments command (vault_id_of v)
    else option_if (vault_password_file_of v) (text "vault-password-file") command

module _ (rt : Runtime) where
  unfoldable pub extra_vars_argument : Play → Text → Outcome Text
  extra_vars_argument v command =
      if not (has_no_entry (extra_vars_of v))
      then (do
        extra_vars ← rt.marshal (extra_vars_of v)
        ok (option command (text "extra-vars") (safe (new_single_quote_escape extra_vars))))
      else ok command

  unfoldable pub append_shared_arguments : Play → Text → LocalModeAnsibleArgs → Outcome Text
  append_shared_arguments v command args = do
    let command = option command (text "inventory-file") (inventory_file_of v)
    let command = become_arguments v args.username command
    let command = flag_if v.diff (text "diff") command
    let command = flag_if v.check (text "check") command
    command ← extra_vars_argument v command
    let command = number_if (forks_of v) (text "forks") command
    let command = option_if (limit_of v) (text "limit") command
    let command = vault_arguments v command
    ok (flag_if v.verbose (text "verbose") command)
