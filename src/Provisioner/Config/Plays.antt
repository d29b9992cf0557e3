-- ===== src/Provisioner/Config/Plays.antt =====
-- The plays that `decodeConfig` of provisioner/resource_provisioner.go gives.
use terraform_provisioner_an.Base.{◌≡◌, refl, sym, Bool, true, false, List, [], ◌∷◌, Text, text}
use mathlib.Core.Path.{subst}
use terraform_provisioner_an.Base.Outcome.{
  Outcome, ok, ◌>>=◌, Ensures, Ensures-bind, Ensures-ok, Ensures-any,
}
use terraform_provisioner_an.Go.Value.{
  Value, Fields, set, cons, nil, index, lookup, as_bool, as_int, as_string, set_list, as_slice,
}
use terraform_provisioner_an.Types.Helpers.{map_from_type_set_list, map_from_type_map, strings_at}
use terraform_provisioner_an.Types.Defaults.{Defaults, new_defaults_from_interface}
use terraform_provisioner_an.Types.Defaults.Flags.{
  IsConsistent, new_defaults_from_interface-IsConsistent,
}
use terraform_provisioner_an.Types.RemoteSettings.{new_remote_settings_from_interface}
use terraform_provisioner_an.Types.AnsibleSshSettings.{new_ansible_ssh_settings_from_interface}
use terraform_provisioner_an.Types.Play.{
  Play, read_entity, strings_if_present, new_play_from_map_interface, new_play_from_interface,
}
use terraform_provisioner_an.Types.Play.Settings.{Resolves, Resolves-of_IsConsistent}
use terraform_provisioner_an.Provisioner.Config.{
  Configuration, Given, decode_plays, plays_if, decode_config,
}

-- A computation whose value does not matter, and what follows it.
Ensures-then {ℓ κ} :
    {A : Type ℓ} {B : Type κ} {P : B → Type 0} (m : Outcome A) (f : A → Outcome B)
    → ((a : A) → Ensures P (f a))
    → Ensures P (m >>= f)
Ensures-then m f h = Ensures-bind m f (Ensures-any m) λ a _. h a

-- What holds of the value of a computation, together with its being that.
Ensures-itself {ℓ} :
    {A : Type ℓ} {P : A → Type 0} {m : Outcome A} → Ensures P m → Ensures (λ a. (m ≡ ok a) × P a) m
Ensures-itself h = record { at = λ a e. (e, h.at a e) }

HasDefaults : Defaults → Play → Type 0
HasDefaults d p = p.defaults ≡ d

new_play_from_map_interface-HasDefaults :
    (vals : Fields) (d : Defaults) → Ensures (HasDefaults d) (new_play_from_map_interface vals d)
unfolding new_play_from_map_interface HasDefaults
new_play_from_map_interface-HasDefaults vals d =
    Ensures-then (as_bool (index vals (text "enabled"))) _ λ _.
      Ensures-then (as_bool (index vals (text "become"))) _ λ _.
        Ensures-then (as_string (index vals (text "become_method"))) _ λ _.
          Ensures-then (as_string (index vals (text "become_user"))) _ λ _.
            Ensures-then (as_bool (index vals (text "diff"))) _ λ _.
              Ensures-then (as_bool (index vals (text "check"))) _ λ _.
                Ensures-then (map_from_type_map (index vals (text "extra_vars"))) _ λ _.
                  Ensures-then (as_int (index vals (text "forks"))) _ λ _.
                    Ensures-then (as_string (index vals (text "inventory_file"))) _ λ _.
                      Ensures-then (as_string (index vals (text "limit"))) _ λ _.
                        Ensures-then (strings_at (index vals (text "vault_id"))) _ λ _.
                          Ensures-then (as_string (index vals (text "vault_password_file"))) _ λ _.
                            Ensures-then (as_bool (index vals (text "verbose"))) _ λ _.
                              Ensures-then (read_entity vals) _ λ _.
                                Ensures-then (strings_if_present (lookup vals (text "hosts"))) _
                                  λ _.
                                    Ensures-then (strings_if_present (lookup vals (text "groups")))
                                      _ λ _. Ensures-ok _ refl

-- A play that was given these defaults, and takes each setting from the first place that has it:
-- an override, the play's own value, these defaults, the built-in value.
pub record Settles (d : Defaults) (p : Play) : Type 0 where
  pub defaults : p.defaults ≡ d
  pub order : Resolves p

new_play_from_interface-Settles :
    (i : Value) (d : Defaults) → IsConsistent d → Ensures (Settles d) (new_play_from_interface i d)
unfolding new_play_from_interface HasDefaults
new_play_from_interface-Settles i d c = Ensures-then (set_list i) _ λ members.
    Ensures-then (map_from_type_set_list members) _ λ vals. record {
      at = λ p e.
          let same = (new_play_from_map_interface-HasDefaults vals d).at p e in
          record {
            defaults = same;
            order = Resolves-of_IsConsistent p (subst IsConsistent (sym same) c);
          };
    }

module _ (shown_set : Value → Text) where
  -- The plays are what was read from the values, one from each, in order, with these defaults, and
  -- each takes its settings in the order of `Settles`.
  pub data AreRead (d : Defaults) : List Value → List Play → Type 0 where
    no_more : AreRead d [] []
    a_play :
        {iface : Value} {raw : List Value} {p : Play} {ps : List Play}
        → new_play_from_interface (set (shown_set iface) (cons iface nil)) d ≡ ok p
        → Settles d p
        → AreRead d raw ps
        → AreRead d (iface ∷ raw) (p ∷ ps)

  -- The plays of a configuration: none if no list was given.
  pub data HasPlays (d : Defaults) (given : Value × Bool) : List Play → Type 0 where
    not_given : given.1 ≡ false → HasPlays d given []
    in_list :
        (raw : List Value) (plays : List Play)
        → given.1 ≡ true
        → as_slice given.0 ≡ ok raw
        → AreRead d raw plays
        → HasPlays d given plays

  -- Each part of the configuration is what was read from its block.
  pub record IsDecoded (given : Given) (p : Configuration) : Type 0 where
    pub remote : new_remote_settings_from_interface given.remote.0 given.remote.1 ≡ ok p.remote
    pub ansible_ssh_settings :
        new_ansible_ssh_settings_from_interface given.ansible_ssh_settings.0
          given.ansible_ssh_settings.1
        ≡ ok p.ansible_ssh_settings
    pub defaults : new_defaults_from_interface given.defaults.0 given.defaults.1 ≡ ok p.defaults
    pub plays : HasPlays p.defaults given.plays p.plays

  decode_plays-AreRead :
      (d : Defaults) (raw : List Value)
      → IsConsistent d
      → Ensures (AreRead d raw) (decode_plays shown_set d raw)
  unfolding decode_plays
  decode_plays-AreRead d [] c = Ensures-ok [] no_more
  decode_plays-AreRead d (iface ∷ raw) c =
      Ensures-bind _ _
        (Ensures-itself
          (new_play_from_interface-Settles (set (shown_set iface) (cons iface nil)) d c))
        λ p (e, r).
          Ensures-bind _ _ (decode_plays-AreRead d raw c)
            λ ps rs. Ensures-ok (p ∷ ps) (a_play e r rs)

  plays_if-HasPlays :
      (d : Defaults) (raw : Value) (present : Bool)
      → IsConsistent d
      → Ensures (HasPlays d (raw, present)) (plays_if shown_set d raw present)
  unfolding plays_if
  plays_if-HasPlays d raw false c = Ensures-ok [] (not_given refl)
  plays_if-HasPlays d raw true c =
      Ensures-bind (as_slice raw) _ (Ensures-itself (Ensures-any (as_slice raw))) λ ifaces (e, _).
        record { at = λ ps q. in_list ifaces ps refl e ((decode_plays-AreRead d ifaces c).at ps q) }

  -- Whatever configuration is decoded, its settings for remote mode and for ssh and its defaults are
  -- those that were read from their blocks, and its plays are those that were read from the list of
  -- plays, one from each value, in order, with these defaults; and every play takes each of its
  -- settings from the first place that has it: an override, the play's own value as it was decoded,
  -- these defaults, the built-in value.
  pub decode_config-Resolves :
      (given : Given) → Ensures (IsDecoded given) (decode_config shown_set given)
  unfolding decode_config
  decode_config-Resolves given =
      Ensures-bind (new_remote_settings_from_interface given.remote.0 given.remote.1) _
        (Ensures-itself (Ensures-any _))
        λ remote (e1, _).
          Ensures-bind
            (new_ansible_ssh_settings_from_interface given.ansible_ssh_settings.0
              given.ansible_ssh_settings.1)
            _ (Ensures-itself (Ensures-any _))
            λ ssh (e2, _).
              Ensures-bind _ _
                (Ensures-itself
                  (new_defaults_from_interface-IsConsistent given.defaults.0 given.defaults.1))
                λ d (e3, c).
                  Ensures-bind _ _ (plays_if-HasPlays d given.plays.0 given.plays.1 c) λ ps rs.
                    Ensures-ok _
                      (record { remote = e1; ansible_ssh_settings = e2; defaults = e3; plays = rs })
