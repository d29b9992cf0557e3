-- ===== src/Types/Play.antt =====
-- types/play.go without the commands: the play, its schema, how it is read, and its settings with
-- their overrides and defaults.
pub mod Settings
pub mod Reading
use terraform_provisioner_an.Base.{
  ◌≡◌, ◌≢◌, Bool, true, false, not, Option, none, some, List, [], ◌∷◌, arith, Text, text, text_eq,
  is_empty, if◌then◌else◌,
}
use terraform_provisioner_an.Base.Int.{ℤ, pos, is_positive}
use terraform_provisioner_an.Base.Outcome.{Outcome, ok, panic, IsOk, ◌>>=◌}
use terraform_provisioner_an.Go.Value.{
  Value, bool, int, string, object, set, cons, nil, Fields, end, index, lookup, as_bool, as_int,
  as_string, as_slice, set_list, go_string,
}
use terraform_provisioner_an.Types.Helpers.{map_from_type_set_list, map_from_type_map, strings_at}
use terraform_provisioner_an.Types.Schema.{
  Schema, schema, plain, string_list, type_bool, type_int, type_string, type_list, type_map,
  type_set, Resource, resource, attribute, end_resource, optional_of, constant, check_path,
  check_become_method, empty_set, HasFields, HasType,
}
use terraform_provisioner_an.Types.Playbook.{
  Playbook, new_playbook_schema, new_playbook_from_interface,
}
use terraform_provisioner_an.Types.Module.{Module, new_module_schema, new_module_from_interface}
use terraform_provisioner_an.Types.GalaxyInstall.{
  GalaxyInstall, new_galaxy_install_schema, new_galaxy_install_from_interface,
}
use terraform_provisioner_an.Types.Defaults.{Defaults, has_no_entry}

-- The `interface{}` that a play runs; `unsupported` is nil.
pub data Entity : Type 0 where
  unsupported : Entity
  playbook : Playbook → Entity
  module_call : Module → Entity
  galaxy_install : GalaxyInstall → Entity

pub record Play : Type 0 where
  pub defaults : Defaults
  pub enabled : Bool
  pub entity : Entity
  pub hosts : List Text
  pub groups : List Text
  pub become : Bool
  pub become_method : Text
  pub become_user : Text
  pub diff : Bool
  pub check : Bool
  pub extra_vars : Fields
  pub forks : ℤ
  pub inventory_file : Text
  pub limit : Text
  pub vault_id : List Text
  pub vault_password_file : Text
  pub verbose : Bool
  pub override_inventory_file : Text
  pub override_vault_id : List Text
  pub override_vault_password_file : Text

unfoldable pub default_become_method : Text
default_become_method = text "sudo"

abbrev pub default_forks : ℤ
default_forks = pos 5

abbrev pub play_attributes : Resource
play_attributes =
    attribute (text "enabled")
      (plain (record (optional_of type_bool) { default = constant (bool true) }))
      (attribute (text "playbook") new_playbook_schema (
        attribute (text "module") new_module_schema (
          attribute (text "galaxy_install") new_galaxy_install_schema (
            attribute (text "hosts") (string_list (optional_of type_list)) (
              attribute (text "groups") (string_list (optional_of type_list)) (
                attribute (text "become") (plain (optional_of type_bool)) (
                  attribute (text "become_method")
                    (plain (record (optional_of type_string) {
                      default = constant (string default_become_method);
                      validate = check_become_method;
                    }))
                    (attribute (text "become_user")
                      (plain (record (optional_of type_string) {
                        default = constant (string (text "root"));
                      }))
                      (attribute (text "diff") (plain (optional_of type_bool)) (
                        attribute (text "check") (plain (optional_of type_bool)) (
                          attribute (text "extra_vars")
                            (plain (record (optional_of type_map) { computed = true }))
                            (attribute (text "forks")
                              (plain (record (optional_of type_int) {
                                default = constant (int default_forks);
                              }))
                              (attribute (text "inventory_file")
                                (plain (record (optional_of type_string) { validate = check_path }))
                                (attribute (text "limit") (plain (optional_of type_string)) (
                                  attribute (text "vault_id")
                                    (string_list (record (optional_of type_list) {
                                      conflicts_with = text "plays.vault_password_file" ∷ [];
                                    }))
                                    (attribute (text "vault_password_file")
                                      (plain (record (optional_of type_string) {
                                        validate = check_path;
                                        conflicts_with = text "plays.vault_id" ∷ [];
                                      }))
                                      (attribute (text "verbose") (plain (optional_of type_bool))
                                        end_resource)))))))))))))))))

unfoldable pub new_play_schema : Schema
new_play_schema =
    schema (record (optional_of type_list) { computed = true }) (resource play_attributes)

-- The `else if` chain that reads the entity, its last test first.
galaxy_install_entity : Fields → Outcome Entity
unfolding go_string
galaxy_install_entity vals = do
  shown ← go_string (index vals (text "galaxy_install"))
  if text_eq shown empty_set then ok unsupported else do
    entity ← new_galaxy_install_from_interface (index vals (text "galaxy_install"))
    ok (galaxy_install entity)

module_entity : Fields → Outcome Entity
unfolding go_string galaxy_install_entity
module_entity vals = do
  shown ← go_string (index vals (text "module"))
  if text_eq shown empty_set then galaxy_install_entity vals else do
    entity ← new_module_from_interface (index vals (text "module"))
    ok (module_call entity)

unfoldable pub read_entity : Fields → Outcome Entity
unfolding go_string module_entity
read_entity vals = do
  shown ← go_string (index vals (text "playbook"))
  if text_eq shown empty_set then module_entity vals else do
    entity ← new_playbook_from_interface (index vals (text "playbook"))
    ok (playbook entity)

abbrev pub strings_if_present : Option Value → Outcome (List Text)
strings_if_present none = ok []
strings_if_present (some val) = strings_at val

unfoldable pub new_play_from_map_interface : Fields → Defaults → Outcome Play
unfolding as_bool as_int as_string as_slice map_from_type_map
new_play_from_map_interface vals defaults = do
  enabled ← as_bool (index vals (text "enabled"))
  become ← as_bool (index vals (text "become"))
  become_method ← as_string (index vals (text "become_method"))
  become_user ← as_string (index vals (text "become_user"))
  diff ← as_bool (index vals (text "diff"))
  check ← as_bool (index vals (text "check"))
  extra_vars ← map_from_type_map (index vals (text "extra_vars"))
  forks ← as_int (index vals (text "forks"))
  inventory_file ← as_string (index vals (text "inventory_file"))
  limit ← as_string (index vals (text "limit"))
  vault_id ← strings_at (index vals (text "vault_id"))
  vault_password_file ← as_string (index vals (text "vault_password_file"))
  verbose ← as_bool (index vals (text "verbose"))
  entity ← read_entity vals
  hosts ← strings_if_present (lookup vals (text "hosts"))
  groups ← strings_if_present (lookup vals (text "groups"))
  ok (record {
    defaults = defaults;
    enabled = enabled;
    entity = entity;
    hosts = hosts;
    groups = groups;
    become = become;
    become_method = become_method;
    become_user = become_user;
    diff = diff;
    check = check;
    extra_vars = extra_vars;
    forks = forks;
    inventory_file = inventory_file;
    limit = limit;
    vault_id = vault_id;
    vault_password_file = vault_password_file;
    verbose = verbose;
    override_inventory_file = [];
    override_vault_id = [];
    override_vault_password_file = [];
  })

unfoldable pub new_play_from_interface : Value → Defaults → Outcome Play
unfolding set_list map_from_type_set_list new_play_from_map_interface
new_play_from_interface i defaults = do
  members ← set_list i
  vals ← map_from_type_set_list members
  new_play_from_map_interface vals defaults
