-- ===== src/Command/Tests.antt =====
-- Commands of one play, with a playbook and an extra variable whose value has a quote in it.
use terraform_provisioner_an.Base.{
  ◌≡◌, ◌↔◌, refl, true, false, none, some, [], ◌∷◌, arith, Text, text, join,
}
use terraform_provisioner_an.Base.Int.{pos, show, show_ℕ}
use terraform_provisioner_an.Base.Outcome.{ok, IsOk}
use terraform_provisioner_an.Go.Value.{string, field, end}
use terraform_provisioner_an.Shell.{argv}
use terraform_provisioner_an.Shell.Plain.{
  all_plain, IsPlain-of_all_plain, HasNoQuote-of_all_unquoted,
}
use terraform_provisioner_an.Types.Playbook.{Playbook, file_path_of, roles_path_of}
use terraform_provisioner_an.Types.Defaults.{no_defaults}
use terraform_provisioner_an.Types.AnsibleSshSettings.{
  AnsibleSshSettings, insecure_no_strict_host_key_checking_of,
}
use terraform_provisioner_an.Types.Play.{Play, playbook}
use terraform_provisioner_an.Types.Play.Settings.{
  become_method_of, become_user_of, inventory_file_of, limit_of, vault_id_of,
  vault_password_file_of,
}
use terraform_provisioner_an.Command.Arguments.{LocalModeAnsibleArgs, Runtime}
use terraform_provisioner_an.Command.Argv.{IsQuotable, IsReadablePlaybook, command_words}
use terraform_provisioner_an.Command.Entities.{default_role_paths}
use terraform_provisioner_an.Command.Ssh.{ssh_extra_args_options, host_key_option, bastion_options}
use terraform_provisioner_an.Command.Build.{to_command, to_local_command}
use terraform_provisioner_an.Command.Total.{IsSupported, to_command-IsOk}
use terraform_provisioner_an.Command.Words.{argv-to_command}
use terraform_provisioner_an.Command.Local.{
  IsQuotableConnection, local_words, argv-to_local_command,
}

abbrev json : Text
json = 123 ∷ 34 ∷ 97 ∷ 34 ∷ 58 ∷ 34 ∷ 39 ∷ 34 ∷ 125 ∷ []

abbrev pub bare_runtime : Runtime
bare_runtime = record {
  lookup_env = λ _. none;
  marshal = λ _. ok json;
  show_value = λ _. [];
  range = λ _. [];
}

abbrev pub site : Playbook
site = record {
  force_handlers = true;
  skip_tags = [];
  start_at_task = [];
  tags = [];
  file_path = 47 ∷ 112 ∷ [];
  roles_path = [];
  override_file_path = [];
  override_roles_path = [];
}

abbrev pub site_play : Play
site_play = record {
  defaults = no_defaults;
  enabled = true;
  entity = playbook site;
  hosts = [];
  groups = [];
  become = true;
  become_method = 115 ∷ 117 ∷ [];
  become_user = [];
  diff = false;
  check = true;
  extra_vars = field (97 ∷ []) (string (39 ∷ [])) end;
  forks = pos 3;
  inventory_file = [];
  limit = [];
  vault_id = [];
  vault_password_file = 118 ∷ [];
  verbose = false;
  override_inventory_file = 105 ∷ [];
  override_vault_id = [];
  override_vault_password_file = [];
}

abbrev pub local_args : LocalModeAnsibleArgs
local_args = record {
  username = 109 ∷ 101 ∷ [];
  port = pos 22;
  pem_file = 107 ∷ [];
  known_hosts_file = 104 ∷ [];
  bastion_known_hosts_file = [];
  bastion_username = [];
  bastion_host = [];
  bastion_port = pos 0;
  bastion_pem_file = [];
}

abbrev pub ssh_settings : AnsibleSshSettings
ssh_settings = record {
  connect_timeout_seconds = pos 10;
  connect_attempts = pos 10;
  ssh_keyscan_seconds = pos 60;
  insecure_no_strict_host_key_checking = false;
  insecure_bastion_no_strict_host_key_checking = false;
  user_known_hosts_file = [];
  bastion_user_known_hosts_file = [];
  override_strict_host_key_checking = false;
}

site_play-IsQuotable : IsQuotable site_play local_args.username
unfolding become_method_of become_user_of inventory_file_of limit_of vault_id_of
    vault_password_file_of
site_play-IsQuotable = record {
  inventory_file = ((omega arith), tt);
  become_method = ((omega arith), ((omega arith), tt));
  become_user = tt;
  user = ((omega arith), ((omega arith), tt));
  limit = tt;
  vault_password_file = ((omega arith), tt);
  vault_id = tt;
}

site-IsReadablePlaybook : IsReadablePlaybook bare_runtime site
unfolding file_path_of roles_path_of default_role_paths join
site-IsReadablePlaybook = record {
  file_path = IsPlain-of_all_plain site.file_path (unfold all_plain in refl);
  file_path_given = cc;
  roles = tt;
  skip_tags = tt;
  start_at_task = tt;
  tags = tt;
}

argv-to_command_example :
    (c : Text) × (to_command bare_runtime site_play local_args ≡ ok c)
    × (argv c ≡ some (command_words bare_runtime site_play local_args.username json))
argv-to_command_example =
    argv-to_command bare_runtime site_play local_args json (λ _. refl) tt
      (site-IsReadablePlaybook, site_play-IsQuotable)

site-IsQuotableConnection : IsQuotableConnection bare_runtime site_play local_args ssh_settings
site-IsQuotableConnection = record {
  user = ((omega arith), ((omega arith), tt));
  private_key = ((omega arith), tt);
  ssh_extra_args =
      HasNoQuote-of_all_unquoted
        (join (ssh_extra_args_options bare_runtime site_play local_args ssh_settings) (text " "))
        (unfold ssh_extra_args_options host_key_option bastion_options inventory_file_of
            insecure_no_strict_host_key_checking_of show show_ℕ join text in
          refl);
}

argv-to_local_command_example :
    (c : Text) × (to_local_command bare_runtime site_play local_args ssh_settings ≡ ok c)
    × (argv c
        ≡ some (
            local_words bare_runtime site_play local_args ssh_settings
              (command_words bare_runtime site_play local_args.username json)
              site_play.entity))
argv-to_local_command_example =
    argv-to_local_command bare_runtime site_play local_args ssh_settings json (λ _. refl) tt
      site-IsQuotableConnection (site-IsReadablePlaybook, site_play-IsQuotable)

to_command-IsOk_example :
    IsOk (to_command bare_runtime site_play local_args) ↔ IsSupported site_play
to_command-IsOk_example = to_command-IsOk bare_runtime (λ _. tt) site_play local_args
