-- ===== src/Mode/SshConfig/Tests.antt =====
-- The configuration for a target with a host key, and without an agent.
use terraform_provisioner_an.Base.{refl, text, text_eq, none, some, [], ◌∷◌}
use terraform_provisioner_an.Base.Int.{pos}
use terraform_provisioner_an.Base.Outcome.{ok}
use terraform_provisioner_an.Mode.ConnectionInfo.{ConnectionInfo}
use terraform_provisioner_an.Mode.ConnectionInfo.Settled.{IsSettled, usable, no_key}
use terraform_provisioner_an.Mode.Tests.{through_bastion, lenient}
use terraform_provisioner_an.Mode.SshConfig.{
  target_host, public_keys, verify_host_key, ClientConfig, Surroundings, known_hosts_line,
  ssh_agent, public_key_file, auth_methods, ssh_config,
}
use terraform_provisioner_an.Mode.SshConfig.Verified.{
  IsConfigured, IsCleared, is_target, ssh_config-IsCleared, ssh_config-verifies,
}

abbrev around : Surroundings
around = record {
  dial_agent = some [];
  temp_file = ok (116 ∷ []);
  write_string = λ _. none;
  read_known_hosts = λ _. none;
}

-- With a host key, and all that a settled connection has.
abbrev settled : ConnectionInfo
settled = record through_bastion {
  user = 114 ∷ [];
  port = pos 22;
  script_path = 47 ∷ [];
  host_key = 107 ∷ [];
  bastion_user = 114 ∷ [];
  bastion_port = pos 22;
}

settled-IsSettled : IsSettled lenient settled
settled-IsSettled = record {
  user = refl;
  port = refl;
  script_path = refl;
  key =
      usable (107 ∷ []) (record { proc_type = []; encoded = 107 ∷ [] }) refl
        (unfold text_eq text in refl) refl;
  bastion_user = λ _. refl;
  bastion_port = λ _. refl;
  bastion_key = λ _. no_key;
}

abbrev settled_config : ClientConfig
settled_config = record {
  user = 114 ∷ [];
  auth = some (public_keys (107 ∷ [])) ∷ [];
  host_key_callback = verify_host_key (known_hosts_line (target_host settled));
  timeout = pos 0;
}

ssh_config-IsCleared_example : IsCleared (ssh_config lenient around (target_host settled)).1
ssh_config-IsCleared_example = ssh_config-IsCleared lenient around (target_host settled)

ssh_config-verifies_example :
    IsConfigured lenient around settled.host settled.host_key settled.private_key settled.user
      settled.agent settled_config
ssh_config-verifies_example =
    ssh_config-verifies lenient around settled (target_host settled) settled.host settled.host_key
      settled.private_key settled.user settled_config (λ key block d p. refl) settled-IsSettled
      is_target (unfold ssh_config target_host auth_methods public_key_file ssh_agent in refl)
