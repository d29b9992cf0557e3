-- ===== src/Provisioner/Config.antt =====
-- `decodeConfig` of provisioner/resource_provisioner.go, and the schema of the provisioner.
pub mod Plays
pub mod Total
use terraform_provisioner_an.Base.{Bool, true, false, List, [], ◌∷◌, Text, text}
use terraform_provisioner_an.Base.Outcome.{Outcome, ok, ◌>>=◌}
use terraform_provisioner_an.Go.Value.{Value, set, cons, nil, to_list, as_slice}
use terraform_provisioner_an.Types.Schema.{Schema, Resource, attribute, end_resource}
use terraform_provisioner_an.Types.Play.{Play, new_play_schema, new_play_from_interface}
use terraform_provisioner_an.Types.Defaults.{
  Defaults, new_defaults_schema, new_defaults_from_interface,
}
use terraform_provisioner_an.Types.RemoteSettings.{
  RemoteSettings, new_remote_schema, new_remote_settings_from_interface,
}
use terraform_provisioner_an.Types.AnsibleSshSettings.{
  AnsibleSshSettings, new_ansible_ssh_settings_schema, new_ansible_ssh_settings_from_interface,
}

pub record Configuration : Type 0 where
  pub defaults : Defaults
  pub plays : List Play
  pub ansible_ssh_settings : AnsibleSshSettings
  pub remote : RemoteSettings

-- The `Schema` of the provisioner.
unfoldable pub provisioner_schema : Resource
unfolding new_play_schema new_defaults_schema new_remote_schema new_ansible_ssh_settings_schema
provisioner_schema = attribute (text "plays") new_play_schema (
    attribute (text "defaults") new_defaults_schema (
      attribute (text "remote") new_remote_schema
        (attribute (text "ansible_ssh_settings") new_ansible_ssh_settings_schema end_resource)))

-- What `d.GetOk(key)` returns for each key.
pub record Given : Type 0 where
  pub remote : Value × Bool
  pub ansible_ssh_settings : Value × Bool
  pub defaults : Value × Bool
  pub plays : Value × Bool

-- `schema.NewSet` of the argument's one member, whose `GoString` is the parameter's.
module _ (shown_set : Value → Text) where
  unfoldable pub decode_plays : Defaults → List Value → Outcome (List Play)
  decode_plays defaults [] = ok []
  decode_plays defaults (iface ∷ raw_plays) = do
    play ← new_play_from_interface (set (shown_set iface) (cons iface nil)) defaults
    plays ← decode_plays defaults raw_plays
    ok (play ∷ plays)

  unfoldable pub plays_if : Defaults → Value → Bool → Outcome (List Play)
  unfolding as_slice
  plays_if defaults raw_plays false = ok []
  plays_if defaults raw_plays true = do ifaces ← as_slice raw_plays; decode_plays defaults ifaces

  unfoldable pub decode_config : Given → Outcome Configuration
  decode_config d = do
    v_remote_settings ← new_remote_settings_from_interface d.remote.0 d.remote.1
    v_ansible_ssh_settings ←
        new_ansible_ssh_settings_from_interface d.ansible_ssh_settings.0 d.ansible_ssh_settings.1
    v_defaults ← new_defaults_from_interface d.defaults.0 d.defaults.1
    plays ← plays_if v_defaults d.plays.0 d.plays.1
    ok (record {
      defaults = v_defaults;
      remote = v_remote_settings;
      ansible_ssh_settings = v_ansible_ssh_settings;
      plays = plays;
    })
