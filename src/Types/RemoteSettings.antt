-- ===== src/Types/RemoteSettings.antt =====
-- types/remote.go
use terraform_provisioner_an.Base.{◌≢◌, Bool, true, false, [], ◌∷◌, arith, Text, text}
use terraform_provisioner_an.Base.Outcome.{Outcome, ok, IsOk, ◌>>=◌}
use terraform_provisioner_an.Go.Value.{
  Value, bool, string, cons, nil, Fields, index, as_bool, as_string, set_list,
}
use terraform_provisioner_an.Go.Path.{path_join}
use terraform_provisioner_an.Types.Helpers.{map_from_type_set_list}
use terraform_provisioner_an.Types.Schema.{
  Schema, schema, plain, type_bool, type_string, type_set, resource, attribute, end_resource,
  optional_of, constant, check_path, HasType,
}

pub record RemoteSettings : Type 0 where
  pub is_remote_in_use : Bool
  pub use_sudo : Bool
  pub skip_install : Bool
  pub skip_cleanup : Bool
  pub install_version : Text
  pub local_installer_path : Text
  pub remote_installer_directory : Text
  pub bootstrap_directory : Text

unfoldable pub new_remote_schema : Schema
new_remote_schema = schema (optional_of type_set) (
    resource (
      attribute (text "use_sudo")
        (plain (record (optional_of type_bool) { default = constant (bool true) }))
        (attribute (text "skip_install") (plain (optional_of type_bool)) (
          attribute (text "skip_cleanup") (plain (optional_of type_bool)) (
            attribute (text "install_version")
              (plain (record (optional_of type_string) {
                default = constant (string []);
                conflicts_with = text "remote.local_installer_path" ∷ [];
              }))
              (attribute (text "local_installer_path")
                (plain (record (optional_of type_string) {
                  validate = check_path;
                  conflicts_with = text "remote.install_version" ∷ [];
                }))
                (attribute (text "remote_installer_directory")
                  (plain (record (optional_of type_string) {
                    default = constant (string (text "/tmp"));
                  }))
                  (attribute (text "bootstrap_directory")
                    (plain (record (optional_of type_string) {
                      default = constant (string (text "/tmp"));
                    }))
                    end_resource))))))))

abbrev not_in_use : RemoteSettings
not_in_use = record {
  is_remote_in_use = false;
  use_sudo = true;
  skip_install = false;
  skip_cleanup = false;
  install_version = [];
  local_installer_path = [];
  remote_installer_directory = [];
  bootstrap_directory = [];
}

unfoldable pub new_remote_settings_from_map_interface : Fields → Bool → Outcome RemoteSettings
unfolding as_bool as_string
new_remote_settings_from_map_interface vals false = ok not_in_use
new_remote_settings_from_map_interface vals true = do
  use_sudo ← as_bool (index vals (text "use_sudo"))
  skip_install ← as_bool (index vals (text "skip_install"))
  skip_cleanup ← as_bool (index vals (text "skip_cleanup"))
  install_version ← as_string (index vals (text "install_version"))
  local_installer_path ← as_string (index vals (text "local_installer_path"))
  remote_installer_directory ← as_string (index vals (text "remote_installer_directory"))
  bootstrap_directory ← as_string (index vals (text "bootstrap_directory"))
  ok (record {
    is_remote_in_use = true;
    use_sudo = use_sudo;
    skip_install = skip_install;
    skip_cleanup = skip_cleanup;
    install_version = install_version;
    local_installer_path = local_installer_path;
    remote_installer_directory = remote_installer_directory;
    bootstrap_directory = bootstrap_directory;
  })

unfoldable pub new_remote_settings_from_interface : Value → Bool → Outcome RemoteSettings
unfolding set_list map_from_type_set_list new_remote_settings_from_map_interface
new_remote_settings_from_interface i false = ok not_in_use
new_remote_settings_from_interface i true = do
  members ← set_list i
  vals ← map_from_type_set_list members
  new_remote_settings_from_map_interface vals true

unfoldable pub remote_installer_path : RemoteSettings → Text
unfolding path_join
remote_installer_path v = path_join v.remote_installer_directory (text "tf-ansible-installer")

unfoldable pub bootstrap_directory_of : RemoteSettings → Text
unfolding path_join
bootstrap_directory_of v = path_join v.bootstrap_directory (text "tf-ansible-bootstrap")

pub new_remote_settings_from_interface-IsOk :
    (i : Value)
    → HasType new_remote_schema i
    → set_list i ≢ ok []
    → IsOk (new_remote_settings_from_interface i true)
unfolding new_remote_schema new_remote_settings_from_interface
new_remote_settings_from_interface-IsOk i (shown, nil, e, q, all) ne = absurd (ne (rw e))
new_remote_settings_from_interface-IsOk i (shown, cons v vs, e, q, h) ne = ground arith
