-- ===== src/Command/Build.antt =====
-- `ToCommand` and `ToLocalCommand` of types/play.go.
use terraform_provisioner_an.Base.{◌++◌, Text, text}
use terraform_provisioner_an.Base.Outcome.{Outcome, ok, err, ◌>>=◌}
use terraform_provisioner_an.Types.AnsibleSshSettings.{AnsibleSshSettings}
use terraform_provisioner_an.Types.Play.{
  Play, Entity, unsupported, playbook, module_call, galaxy_install,
}
use terraform_provisioner_an.Command.Arguments.{
  LocalModeAnsibleArgs, Runtime, append_shared_arguments,
}
use terraform_provisioner_an.Command.Entities.{
  environment, playbook_command, module_command, galaxy_install_command,
}
use terraform_provisioner_an.Command.Ssh.{to_command_arguments}

module _ (rt : Runtime) where
  unfoldable pub entity_command : Play → LocalModeAnsibleArgs → Entity → Outcome Text
  entity_command v args (playbook entity) =
      append_shared_arguments rt v (playbook_command rt entity (environment rt)) args
  entity_command v args (module_call entity) =
      append_shared_arguments rt v (module_command rt entity (environment rt)) args
  entity_command v args (galaxy_install entity) =
      ok (galaxy_install_command entity (environment rt))
  entity_command v args unsupported = err (text "Unsupported entity type")

  unfoldable pub to_command : Play → LocalModeAnsibleArgs → Outcome Text
  to_command v args = entity_command v args v.entity

  unfoldable pub local_command :
      Play → LocalModeAnsibleArgs → AnsibleSshSettings → Text → Entity → Text
  local_command v args settings base_command (galaxy_install _) = base_command
  local_command v args settings base_command _ =
      base_command ++ (text " " ++ to_command_arguments rt v args settings)

  unfoldable pub to_local_command : Play → LocalModeAnsibleArgs → AnsibleSshSettings → Outcome Text
  to_local_command v args settings = do
    base_command ← to_command v args
    ok (local_command v args settings base_command v.entity)
