-- ===== src/Mode/Remote/Deploy.antt =====
-- `deployAnsibleData` of mode/mode_remote.go.
use terraform_provisioner_an.Base.{
  not, List, [], ◌∷◌, ◌++◌, Text, text, has_prefix, trim_prefix, is_empty, if◌then◌else◌,
}
use terraform_provisioner_an.Go.Path.{path_join, dir, base}
use terraform_provisioner_an.Types.Helpers.{resolve_path}
use terraform_provisioner_an.Types.RemoteSettings.{RemoteSettings, bootstrap_directory_of}
use terraform_provisioner_an.Types.Playbook.{
  Playbook, file_path_of, roles_path_of, set_override_file_path, set_override_roles_path,
}
use terraform_provisioner_an.Types.Module.{Module}
use terraform_provisioner_an.Types.GalaxyInstall.{GalaxyInstall, set_role_file, set_roles_path}
use terraform_provisioner_an.Types.Play.{
  Play, Entity, unsupported, playbook, module_call, galaxy_install,
}
use terraform_provisioner_an.Types.Play.Settings.{set_override_inventory_file}
use terraform_provisioner_an.Mode.Remote.{
  Remote, Action, pure, lift, ◌>>=◌, ◌>>◌, upload, upload_dir,
}
use terraform_provisioner_an.Mode.Remote.Commands.{
  mkdir_command, run_command_no_sudo, check_remote_dir_exists,
}
use terraform_provisioner_an.Mode.Remote.Uploads.{upload_vault, write_inventory}

abbrev pub with_entity : Play → Entity → Play
with_entity play entity = record play { entity = entity }

-- The directory for roles: "galaxy-roles" if none is given, below the bootstrap directory unless
-- it is absolute.
unfoldable pub remote_roles_dir : RemoteSettings → Text → Text
remote_roles_dir v given =
    let roles_path_dir = if is_empty given then text "galaxy-roles" else given in
    if not (has_prefix roles_path_dir (text "/"))
    then path_join (bootstrap_directory_of v) roles_path_dir
    else roles_path_dir

module _ (remote : Remote) (v : RemoteSettings) where
  -- A directory is uploaded unless it is there.
  unfoldable pub upload_once : Text → Text → Action (Unit {0})
  upload_once remote_dir source = do
    dir_exists ← check_remote_dir_exists remote v remote_dir
    if dir_exists then pure tt else upload_dir remote remote_dir source

  unfoldable pub deploy_role : Text → Action Text
  deploy_role path =
      if has_prefix path (text "galaxy_install:")
      then pure (trim_prefix path (text "galaxy_install:"))
      else do
        resolved_path ← lift (resolve_path remote.files path)
        let remote_dir = path_join (bootstrap_directory_of v) (remote.md5 resolved_path)
        upload_once remote_dir resolved_path
        pure remote_dir

  unfoldable pub deploy_roles : List Text → Action (List Text)
  deploy_roles [] = pure []
  deploy_roles (path ∷ paths) = do
    remote_path ← deploy_role path
    remote_roles_path ← deploy_roles paths
    pure (remote_path ∷ remote_roles_path)

  unfoldable pub deploy_playbook : Play → Playbook → Action Play
  deploy_playbook play entity = do
    playbook_path ← lift (resolve_path remote.files (file_path_of entity))
    let playbook_dir = dir playbook_path
    let remote_playbook_dir = path_join (bootstrap_directory_of v) (remote.md5 playbook_dir)
    let remote_playbook_path = path_join remote_playbook_dir (base playbook_path)
    run_command_no_sudo remote v (mkdir_command (bootstrap_directory_of v))
    upload_once remote_playbook_dir playbook_dir
    let entity = set_override_file_path entity remote_playbook_path
    inventory_file ← write_inventory remote remote_playbook_dir play
    let play = set_override_inventory_file play inventory_file
    play ← upload_vault remote remote_playbook_dir play
    remote_roles_path ← deploy_roles (roles_path_of entity)
    pure (with_entity play (playbook (set_override_roles_path entity remote_roles_path)))

  unfoldable pub deploy_module : Play → Module → Action Play
  deploy_module play entity = do
    let remote_module_dir = path_join (bootstrap_directory_of v) (remote.md5 entity.module_name)
    run_command_no_sudo remote v (mkdir_command remote_module_dir)
    play ← upload_vault remote remote_module_dir play
    inventory_file ← write_inventory remote remote_module_dir play
    pure (set_override_inventory_file play inventory_file)

  unfoldable pub deploy_galaxy_install : Play → GalaxyInstall → Action Play
  deploy_galaxy_install play entity = do
    run_command_no_sudo remote v (mkdir_command (bootstrap_directory_of v))
    let roles_path_dir = remote_roles_dir v entity.roles_path
    run_command_no_sudo remote v (mkdir_command roles_path_dir)
    let role_file_remote_path =
        path_join (bootstrap_directory_of v) (remote.md5 entity.role_file ++ text ".yml")
    role_file ← lift (remote.read_file entity.role_file)
    upload remote role_file_remote_path role_file
    pure (
        with_entity play (
          galaxy_install
            (set_role_file (set_roles_path entity roles_path_dir) role_file_remote_path)))

  unfoldable pub deploy_entity : Play → Entity → Action Play
  deploy_entity play (playbook entity) = deploy_playbook play entity
  deploy_entity play (module_call entity) = deploy_module play entity
  deploy_entity play (galaxy_install entity) = deploy_galaxy_install play entity
  deploy_entity play unsupported = pure play

  unfoldable pub deploy_play : Play → Action Play
  deploy_play play = if not play.enabled then pure play else deploy_entity play play.entity

  unfoldable pub deploy_ansible_data : List Play → Action (List Play)
  deploy_ansible_data [] = pure []
  deploy_ansible_data (play ∷ plays) = do
    play ← deploy_play play
    plays ← deploy_ansible_data plays
    pure (play ∷ plays)
