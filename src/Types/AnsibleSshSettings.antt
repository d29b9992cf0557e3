-- ===== src/Types/AnsibleSshSettings.antt =====
-- types/ansible_ssh_settings.go
use terraform_provisioner_an.Base.{
  ◌≢◌, Bool, true, false, ◌||◌, [], arith, Text, text, if◌then◌else◌,
}
use terraform_provisioner_an.Base.Int.{ℤ, pos}
use terraform_provisioner_an.Base.Outcome.{Outcome, ok, IsOk, ◌>>=◌}
use terraform_provisioner_an.Go.Value.{
  Value, bool, string, cons, nil, index, as_bool, as_int, as_string, set_list,
}
use terraform_provisioner_an.Types.Helpers.{map_from_type_set_list}
use terraform_provisioner_an.Types.Schema.{
  Schema, schema, plain, type_bool, type_int, type_string, type_set, resource, attribute,
  end_resource, optional_of, constant, from_env, HasType,
}

pub record AnsibleSshSettings : Type 0 where
  pub connect_timeout_seconds : ℤ
  pub connect_attempts : ℤ
  pub ssh_keyscan_seconds : ℤ
  pub insecure_no_strict_host_key_checking : Bool
  pub insecure_bastion_no_strict_host_key_checking : Bool
  pub user_known_hosts_file : Text
  pub bastion_user_known_hosts_file : Text
  pub override_strict_host_key_checking : Bool

unfoldable pub new_ansible_ssh_settings_schema : Schema
new_ansible_ssh_settings_schema = schema (optional_of type_set) (
    resource (
      attribute (text "connect_timeout_seconds")
        (plain (record (optional_of type_int) {
          default = from_env (text "TF_PROVISIONER_ANSIBLE_SSH_CONNECT_TIMEOUT_SECONDS") (pos 10);
        }))
        (attribute (text "connection_attempts")
          (plain (record (optional_of type_int) {
            default = from_env (text "TF_PROVISIONER_ANSIBLE_SSH_CONNECTION_ATTEMPTS") (pos 10);
          }))
          (attribute (text "ssh_keyscan_timeout")
            (plain (record (optional_of type_int) {
              default = from_env (text "TF_PROVISIONER_SSH_KEYSCAN_TIMEOUT_SECONDS") (pos 60);
            }))
            (attribute (text "insecure_no_strict_host_key_checking")
              (plain (record (optional_of type_bool) { default = constant (bool false) }))
              (attribute (text "insecure_bastion_no_strict_host_key_checking")
                (plain (record (optional_of type_bool) { default = constant (bool false) }))
                (attribute (text "user_known_hosts_file")
                  (plain (record (optional_of type_string) { default = constant (string []) }))
                  (attribute (text "bastion_user_known_hosts_file")
                    (plain (record (optional_of type_string) { default = constant (string []) }))
                    end_resource))))))))

abbrev default_settings : AnsibleSshSettings
default_settings = record {
  connect_timeout_seconds = pos 10;
  connect_attempts = pos 10;
  ssh_keyscan_seconds = pos 60;
  insecure_no_strict_host_key_checking = false;
  insecure_bastion_no_strict_host_key_checking = false;
  user_known_hosts_file = [];
  bastion_user_known_hosts_file = [];
  override_strict_host_key_checking = false;
}

unfoldable pub new_ansible_ssh_settings_from_interface : Value → Bool → Outcome AnsibleSshSettings
unfolding set_list map_from_type_set_list as_bool as_int as_string
new_ansible_ssh_settings_from_interface i false = ok default_settings
new_ansible_ssh_settings_from_interface i true = do
  members ← set_list i
  vals ← map_from_type_set_list members
  timeout ← as_int (index vals (text "connect_timeout_seconds"))
  attempts ← as_int (index vals (text "connection_attempts"))
  keyscan ← as_int (index vals (text "ssh_keyscan_timeout"))
  insecure ← as_bool (index vals (text "insecure_no_strict_host_key_checking"))
  insecure_bastion ← as_bool (index vals (text "insecure_bastion_no_strict_host_key_checking"))
  known_hosts ← as_string (index vals (text "user_known_hosts_file"))
  bastion_known_hosts ← as_string (index vals (text "bastion_user_known_hosts_file"))
  ok (record default_settings {
    connect_timeout_seconds = timeout;
    connect_attempts = attempts;
    ssh_keyscan_seconds = keyscan;
    insecure_no_strict_host_key_checking = insecure;
    insecure_bastion_no_strict_host_key_checking = insecure_bastion;
    user_known_hosts_file = known_hosts;
    bastion_user_known_hosts_file = bastion_known_hosts;
  })

unfoldable pub insecure_no_strict_host_key_checking_of : AnsibleSshSettings → Bool
insecure_no_strict_host_key_checking_of v =
    if v.override_strict_host_key_checking || v.insecure_no_strict_host_key_checking
    then true
    else false

unfoldable pub set_override_strict_host_key_checking : AnsibleSshSettings → AnsibleSshSettings
set_override_strict_host_key_checking v = record v { override_strict_host_key_checking = true }

pub new_ansible_ssh_settings_from_interface-IsOk :
    (i : Value)
    → HasType new_ansible_ssh_settings_schema i
    → set_list i ≢ ok []
    → IsOk (new_ansible_ssh_settings_from_interface i true)
unfolding new_ansible_ssh_settings_schema new_ansible_ssh_settings_from_interface
new_ansible_ssh_settings_from_interface-IsOk i (shown, nil, e, q, all) ne = absurd (ne (rw e))
new_ansible_ssh_settings_from_interface-IsOk i (shown, cons v vs, e, q, h) ne = ground arith
