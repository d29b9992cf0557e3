-- ===== src/Provisioner/Apply/Tests.antt =====
-- An application in local mode, through a bastion host.
use terraform_provisioner_an.Base.{◌≡◌, ◌⊎◌, refl, none, []}
use terraform_provisioner_an.Base.Outcome.{ok, IsOk}
use terraform_provisioner_an.Base.{text, text_eq}
use terraform_provisioner_an.Go.Value.{
  index, lookup, as_bool, as_int, as_string, as_slice, as_map, set_list, to_list,
}
use terraform_provisioner_an.Types.Helpers.{map_from_type_set_list, map_from_type_map}
use terraform_provisioner_an.Types.Schema.{empty_set}
use terraform_provisioner_an.Types.RemoteSettings.{new_remote_settings_from_interface}
use terraform_provisioner_an.Types.AnsibleSshSettings.{
  new_ansible_ssh_settings_from_interface, insecure_no_strict_host_key_checking_of,
}
use terraform_provisioner_an.Types.Defaults.{new_defaults_from_interface}
use terraform_provisioner_an.Types.Playbook.{new_playbook_from_interface}
use terraform_provisioner_an.Types.Play.{
  new_play_from_interface, new_play_from_map_interface, read_entity,
}
use terraform_provisioner_an.Types.Play.Settings.{
  inventory_file_of, extra_vars_of, set_override_inventory_file,
}
use terraform_provisioner_an.Command.Arguments.{extra_vars_argument, append_shared_arguments}
use terraform_provisioner_an.Command.Build.{entity_command, to_command, to_local_command}
use terraform_provisioner_an.Mode.ConnectionInfo.{
  parse_connection_info, with_defaults, with_valid_key, validate_private_key, decoded_key,
  parsed_key, with_bastion_defaults, bastion_key,
}
use terraform_provisioner_an.Mode.HostKeys.{
  compute_resource, checked_settings, scanned_hosts, bastion_target_hosts, known_hosts,
}
use terraform_provisioner_an.Mode.LocalPlays.{write_inventory, run_play, run_plays}
use terraform_provisioner_an.Mode.LocalRun.{
  with_file, write_known_hosts, write_pem, with_pem, local_run,
}
use terraform_provisioner_an.Command.Tests.{bare_runtime}
use terraform_provisioner_an.Mode.Tests.{lenient}
use terraform_provisioner_an.Mode.Creation.{check_connection_type, new_local_mode}
use terraform_provisioner_an.Mode.HostKeys.Tests.{slow_network}
use terraform_provisioner_an.Mode.LocalPlays.Tests.{machine}
use terraform_provisioner_an.Mode.Remote.Tests.{cooperative}
use terraform_provisioner_an.Provisioner.Config.{
  Configuration, decode_plays, plays_if, decode_config,
}
use terraform_provisioner_an.Provisioner.Tests.{one_play}
use terraform_provisioner_an.Provisioner.Apply.{World, apply_fn}
use terraform_provisioner_an.Provisioner.Apply.Applied.{
  created, CarriedOut, IsRefused, apply_fn-CarriedOut, apply_fn-refuses,
}

abbrev world : World
world = record {
  shown_set = λ _. [];
  libraries = lenient;
  runtime = bare_runtime;
  conn_info = [];
  ssh_auth_sock = [];
  communicator_error = none;
  remote = cooperative;
  machine = machine;
  network = slow_network;
  fuel = 1;
}

apply_fn-refuses_example :
    ((p : Configuration) × (decode_config world.shown_set one_play ≡ ok p)
      × (check_connection_type world.conn_info ≡ ok tt)
      × IsOk (created world p.remote.is_remote_in_use))
    ⊎ IsRefused (apply_fn world one_play)
apply_fn-refuses_example = apply_fn-refuses world one_play

apply_fn-CarriedOut_example :
    (p : Configuration) × CarriedOut world one_play p (apply_fn world one_play)
apply_fn-CarriedOut_example = apply_fn-CarriedOut world one_play (
    unfold apply_fn decode_config new_remote_settings_from_interface
      new_ansible_ssh_settings_from_interface new_defaults_from_interface plays_if decode_plays
      new_play_from_interface new_play_from_map_interface read_entity new_playbook_from_interface
      map_from_type_set_list map_from_type_map empty_set index lookup as_bool as_int as_string
      as_slice as_map set_list to_list text_eq text new_local_mode check_connection_type
      parse_connection_info with_defaults with_valid_key validate_private_key decoded_key parsed_key
      with_bastion_defaults bastion_key local_run checked_settings compute_resource known_hosts
      bastion_target_hosts scanned_hosts insecure_no_strict_host_key_checking_of write_known_hosts
      with_pem write_pem with_file run_plays run_play write_inventory inventory_file_of
      set_override_inventory_file to_local_command to_command entity_command append_shared_arguments
      extra_vars_argument extra_vars_of in
    refl)
