-- ===== src/Mode/LocalRun/Tests.antt =====
-- A run of two plays behind a bastion host, the second of which is not enabled.
use mathlib.Core.List.{reverse}
use terraform_provisioner_an.Base.{refl, text_eq}
use terraform_provisioner_an.Types.AnsibleSshSettings.{insecure_no_strict_host_key_checking_of}
use terraform_provisioner_an.Types.Play.Settings.{
  inventory_file_of, extra_vars_of, set_override_inventory_file,
}
use terraform_provisioner_an.Command.Arguments.{extra_vars_argument, append_shared_arguments}
use terraform_provisioner_an.Command.Build.{entity_command, to_command, to_local_command}
use terraform_provisioner_an.Command.Tests.{bare_runtime, ssh_settings}
use terraform_provisioner_an.Mode.Tests.{through_bastion}
use terraform_provisioner_an.Mode.HostKeys.{
  compute_resource, checked_settings, scanned_hosts, bastion_target_hosts, known_hosts,
}
use terraform_provisioner_an.Mode.HostKeys.Tests.{slow_network}
use terraform_provisioner_an.Mode.LocalPlays.{write_inventory, run_play, run_plays}
use terraform_provisioner_an.Mode.LocalPlays.Traces.{
  made_files, written_files, removed_files, LastMade,
}
use terraform_provisioner_an.Mode.LocalPlays.Tests.{machine, named, two_plays}
use terraform_provisioner_an.Mode.LocalRun.{
  with_file, write_known_hosts, write_pem, with_pem, local_run, local_trace,
}
use terraform_provisioner_an.Mode.LocalPlays.Cleanup.{enabled_plays}
use terraform_provisioner_an.Mode.LocalPlays.{ended}
use terraform_provisioner_an.Base.{◌≡◌, ◌⊎◌, true, [], is_empty}
use terraform_provisioner_an.Base.Outcome.{err}
use terraform_provisioner_an.Mode.LocalRun.Enabled.{HasBlocked, no_hosts, local_run-enabled}
use terraform_provisioner_an.Mode.LocalRun.Files.{AllNamed, removed-local_trace}
use terraform_provisioner_an.Mode.LocalRun.Stages.{HasStages, local_run-HasStages}

removed-local_trace_example :
    AllNamed
      (written_files
        (local_trace bare_runtime machine slow_network through_bastion two_plays ssh_settings))
      (reverse (
        removed_files
          (local_trace bare_runtime machine slow_network through_bastion two_plays ssh_settings)))
    × LastMade machine
        (local_run bare_runtime machine slow_network through_bastion two_plays ssh_settings).result
        (written_files
          (local_trace bare_runtime machine slow_network through_bastion two_plays ssh_settings))
        (made_files
          (local_trace bare_runtime machine slow_network through_bastion two_plays ssh_settings))
removed-local_trace_example =
    removed-local_trace bare_runtime machine slow_network through_bastion two_plays named
      ssh_settings

local_run-HasStages_example :
    HasStages bare_runtime machine slow_network through_bastion two_plays ssh_settings
      (local_run bare_runtime machine slow_network through_bastion two_plays ssh_settings)
local_run-HasStages_example =
    local_run-HasStages bare_runtime machine slow_network through_bastion two_plays ssh_settings (
      unfold local_run checked_settings compute_resource known_hosts bastion_target_hosts
        scanned_hosts insecure_no_strict_host_key_checking_of write_known_hosts with_pem write_pem
        with_file run_plays run_play write_inventory inventory_file_of set_override_inventory_file
        text_eq to_local_command to_command entity_command append_shared_arguments
        extra_vars_argument extra_vars_of in
      refl)

local_run-enabled_example :
    (local_run bare_runtime machine slow_network through_bastion two_plays ssh_settings
      ≡ local_run bare_runtime machine slow_network through_bastion
          (enabled_plays two_plays)
          ssh_settings)
    ⊎ ((is_empty through_bastion.host ≡ true)
        × HasBlocked two_plays
        × (local_run bare_runtime machine slow_network through_bastion two_plays ssh_settings
            ≡ ended (err no_hosts) [] [] 0))
local_run-enabled_example =
    local_run-enabled bare_runtime machine slow_network through_bastion two_plays ssh_settings
