-- ===== src/Provisioner/Config/Total.antt =====
-- Decoding a configuration, by `decodeConfig` of provisioner/resource_provisioner.go, that has the
-- types of the provisioner's schema.
use terraform_provisioner_an.Base.{◌≡◌, ◌≢◌, refl, Bool, true, false, List, [], ◌∷◌, Text, All}
use terraform_provisioner_an.Base.Outcome.{Outcome, ok, err, panic, ◌>>=◌, IsOk}
use terraform_provisioner_an.Go.Value.{
  Value, Values, Fields, slice, object, set, cons, nil, set_list, to_list, as_slice, as_map,
}
use terraform_provisioner_an.Types.Helpers.{map_from_type_set_list, map_from_type_set}
use terraform_provisioner_an.Types.Schema.{HasType, HasFields}
use terraform_provisioner_an.Types.Defaults.{
  Defaults, new_defaults_schema, new_defaults_from_interface,
}
use terraform_provisioner_an.Types.Defaults.Flags.{new_defaults_from_interface-IsOk}
use terraform_provisioner_an.Types.RemoteSettings.{
  new_remote_schema, new_remote_settings_from_interface, new_remote_settings_from_interface-IsOk,
}
use terraform_provisioner_an.Types.AnsibleSshSettings.{
  new_ansible_ssh_settings_schema, new_ansible_ssh_settings_from_interface,
  new_ansible_ssh_settings_from_interface-IsOk,
}
use terraform_provisioner_an.Types.Play.{play_attributes, new_play_from_interface}
use terraform_provisioner_an.Types.Play.Reading.{new_play_from_map_interface-IsOk}
use terraform_provisioner_an.Provisioner.Config.{Given, decode_plays, plays_if, decode_config}

IsOk-bind {ℓ κ} :
    {A : Type ℓ} {B : Type κ} (m : Outcome A) (f : A → Outcome B)
    → IsOk m
    → ((a : A) → IsOk (f a))
    → IsOk (m >>= f)
IsOk-bind (ok a) f h k = k a
IsOk-bind (err e) f h k = h
IsOk-bind panic f h k = h

abbrev pub IsPlay : Value → Type 0
IsPlay v = (fs : Fields) × (v ≡ object fs) × HasFields play_attributes fs

-- The values that are there have the types of the schema, and the sets of the two blocks without
-- defaults of their own have a member.
pub record IsTyped (g : Given) : Type 0 where
  pub remote :
      g.remote.1 ≡ true → HasType new_remote_schema g.remote.0 × (set_list g.remote.0 ≢ ok [])
  pub ansible_ssh_settings :
      g.ansible_ssh_settings.1 ≡ true
      → HasType new_ansible_ssh_settings_schema g.ansible_ssh_settings.0
        × (set_list g.ansible_ssh_settings.0 ≢ ok [])
  pub defaults : g.defaults.1 ≡ true → HasType new_defaults_schema g.defaults.0
  pub plays : g.plays.1 ≡ true → (vs : Values) × (g.plays.0 ≡ slice vs) × All IsPlay (to_list vs)

remote-IsOk :
    (i : Value) (b : Bool)
    → (b ≡ true → HasType new_remote_schema i × (set_list i ≢ ok []))
    → IsOk (new_remote_settings_from_interface i b)
remote-IsOk i true h = new_remote_settings_from_interface-IsOk i (h refl).0 (h refl).1
remote-IsOk i false h = unfold new_remote_settings_from_interface in tt

ssh-IsOk :
    (i : Value) (b : Bool)
    → (b ≡ true → HasType new_ansible_ssh_settings_schema i × (set_list i ≢ ok []))
    → IsOk (new_ansible_ssh_settings_from_interface i b)
ssh-IsOk i true h = new_ansible_ssh_settings_from_interface-IsOk i (h refl).0 (h refl).1
ssh-IsOk i false h = unfold new_ansible_ssh_settings_from_interface in tt

defaults-IsOk :
    (i : Value) (b : Bool)
    → (b ≡ true → HasType new_defaults_schema i)
    → IsOk (new_defaults_from_interface i b)
defaults-IsOk i true h = new_defaults_from_interface-IsOk i (h refl)
defaults-IsOk i false h = unfold new_defaults_from_interface in tt

module _ (shown_set : Value → Text) where
  play-IsOk :
      (v : Value) (d : Defaults)
      → IsPlay v
      → IsOk (new_play_from_interface (set (shown_set v) (cons v nil)) d)
  unfolding new_play_from_interface set_list to_list map_from_type_set_list map_from_type_set as_map
  play-IsOk v d (fs, e, h) = rw e (new_play_from_map_interface-IsOk fs d h)

  decode_plays-IsOk :
      (d : Defaults) (vs : List Value) → All IsPlay vs → IsOk (decode_plays shown_set d vs)
  unfolding decode_plays
  decode_plays-IsOk d [] h = tt
  decode_plays-IsOk d (v ∷ vs) (h, hs) =
      IsOk-bind _ _ (play-IsOk v d h) λ p. IsOk-bind _ _ (decode_plays-IsOk d vs hs) λ ps. tt

  plays-IsOk :
      (d : Defaults) (i : Value) (b : Bool)
      → (b ≡ true → (vs : Values) × (i ≡ slice vs) × All IsPlay (to_list vs))
      → IsOk (plays_if shown_set d i b)
  unfolding plays_if as_slice
  plays-IsOk d i false h = tt
  plays-IsOk d i true h =
      let (vs, e, typed) = h refl in rw e (decode_plays-IsOk d (to_list vs) typed)

  -- A configuration of the provisioner's schema is decoded without an error or a panic, if the
  -- blocks `remote` and `ansible_ssh_settings`, where they are given, are not empty sets.
  pub decode_config-IsOk : (given : Given) → IsTyped given → IsOk (decode_config shown_set given)
  unfolding decode_config
  decode_config-IsOk given t =
      IsOk-bind _ _ (remote-IsOk given.remote.0 given.remote.1 t.remote) λ r.
        IsOk-bind _ _
          (ssh-IsOk given.ansible_ssh_settings.0 given.ansible_ssh_settings.1
            t.ansible_ssh_settings)
          λ s.
            IsOk-bind _ _ (defaults-IsOk given.defaults.0 given.defaults.1 t.defaults)
              λ d. IsOk-bind _ _ (plays-IsOk d given.plays.0 given.plays.1 t.plays) λ ps. tt
