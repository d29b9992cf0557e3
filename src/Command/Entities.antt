-- ===== src/Command/Entities.antt =====
-- The commands for a playbook, a module and ansible-galaxy, of `ToCommand` in types/play.go, up to
-- the shared arguments.
use terraform_provisioner_an.Base.{
  not, Option, none, some, List, [], ◌∷◌, ◌++◌, map, Text, text, join, split, is_empty,
  if◌then◌else◌,
}
use terraform_provisioner_an.Base.Int.{is_positive}
use terraform_provisioner_an.Go.Value.{Value, Fields}
use terraform_provisioner_an.Go.Path.{clean}
use terraform_provisioner_an.Types.Playbook.{Playbook, file_path_of, roles_path_of}
use terraform_provisioner_an.Types.Module.{Module, default_host_pattern}
use terraform_provisioner_an.Types.GalaxyInstall.{GalaxyInstall}
use terraform_provisioner_an.Types.Defaults.{has_no_entry}
use terraform_provisioner_an.Command.Pieces.{option, number}
use terraform_provisioner_an.Command.Arguments.{
  Runtime, flag_if, option_if, list_option_if, number_if,
}

unfoldable pub with_remote_tmp : Option Text → Text → Text
with_remote_tmp none command = command
with_remote_tmp (some val) command =
    command ++ (text " " ++ (text "ANSIBLE_REMOTE_TMP=" ++ (text "\"" ++ (val ++ text "\""))))

unfoldable pub with_roles_path : List Text → Text → Text
with_roles_path role_paths command =
    if not (is_empty role_paths)
    then command ++ (text " " ++ (text "ANSIBLE_ROLES_PATH=" ++ join role_paths (text ":")))
    else command

unfoldable pub host_pattern_or_all : Text → Text
host_pattern_or_all pattern = if is_empty pattern then default_host_pattern else pattern

unfoldable pub background_arguments : Module → Text → Text
background_arguments entity command =
    if is_positive entity.background
    then number_if entity.poll (text "poll") (number command (text "background") entity.background)
    else command

unfoldable pub galaxy_install_command : GalaxyInstall → Text → Text
galaxy_install_command entity command =
    let command =
      option (command ++ (text " " ++ text "ansible-galaxy install")) (text "role-file")
        entity.role_file in
    let command = flag_if entity.force (text "force") command in
    let command = flag_if entity.ignore_certs (text "ignore-certs") command in
    let command = flag_if entity.ignore_errors (text "ignore-errors") command in
    let command = flag_if entity.keep_scm_meta (text "keep-scm-meta") command in
    let command = flag_if entity.no_deps (text "no-deps") command in
    let command = flag_if entity.verbose (text "verbose") command in
    let command = option_if entity.roles_path (text "roles-path") command in
    option_if entity.server (text "server") command

module _ (rt : Runtime) where
  role_paths_from : Option Text → Option Text → List Text
  role_paths_from (some val) _ = split val b':'
  role_paths_from none (some val) = split val b':'
  role_paths_from none none = []

  unfoldable pub default_role_paths : List Text
  unfolding role_paths_from
  default_role_paths =
      role_paths_from (rt.lookup_env (text "ANSIBLE_ROLES_PATH"))
        (rt.lookup_env (text "DEFAULT_ROLES_PATH"))

  unfoldable pub environment : Text
  environment =
      with_remote_tmp (rt.lookup_env (text "ANSIBLE_REMOTE_TMP")) (text "ANSIBLE_FORCE_COLOR=true")

  unfoldable pub playbook_command : Playbook → Text → Text
  playbook_command entity command =
      let role_paths = default_role_paths ++ map clean (roles_path_of entity) in
      let command = with_roles_path role_paths command in
      let command = command ++ (text " " ++ (text "ansible-playbook " ++ file_path_of entity)) in
      let command = flag_if entity.force_handlers (text "force-handlers") command in
      let command = list_option_if entity.skip_tags (text "skip-tags") command in
      let command = option_if entity.start_at_task (text "start-at-task") command in
      list_option_if entity.tags (text "tags") command

  unfoldable pub assignments : List (Text × Value) → List Text
  assignments [] = []
  assignments ((k, v) ∷ rest) = (k ++ (text "=" ++ rt.show_value v)) ∷ assignments rest

  unfoldable pub module_arguments : Fields → Text → Text
  unfolding assignments
  module_arguments args command =
      if not (has_no_entry args)
      then command
        ++ (text " --"
            ++ (text "args="
                ++ (text "\"" ++ (join (assignments (rt.range args)) (text " ") ++ text "\""))))
      else command

  unfoldable pub module_command : Module → Text → Text
  module_command entity command =
      let command =
        command ++ (text " " ++ (text "ansible " ++ host_pattern_or_all entity.host_pattern)) in
      let command = option command (text "module-name") entity.module_name in
      let command = background_arguments entity command in
      let command = module_arguments entity.args command in
      flag_if entity.one_line (text "one-line") command
