-- ===== src/Types/Defaults.antt =====
-- types/defaults.go
pub mod Flags
use terraform_provisioner_an.Base.{
  ◌≡◌, Bool, true, false, not, Option, none, some, List, [], ◌∷◌, arith, Text, text, is_empty,
}
use terraform_provisioner_an.Base.Int.{ℤ, pos, is_positive}
use terraform_provisioner_an.Base.Outcome.{
  Outcome, ok, IsOk, Ensures, Ensures-bind, Ensures-ok, Ensures-any, ◌>>=◌,
}
use terraform_provisioner_an.Go.Value.{
  Value, cons, nil, Fields, end, field, lookup, index, as_int, as_string, as_slice, set_list,
}
use terraform_provisioner_an.Types.Helpers.{map_from_type_set_list, map_from_type_map, strings_at}
use terraform_provisioner_an.Types.Schema.{
  Schema, Resource, schema, plain, string_list, type_int, type_string, type_list, type_map,
  type_set, resource, attribute, end_resource, optional_of, check_path, check_become_method,
  HasFields, HasType,
}

pub record Defaults : Type 0 where
  pub hosts : List Text
  pub groups : List Text
  pub become_method : Text
  pub become_user : Text
  pub extra_vars : Fields
  pub forks : ℤ
  pub inventory_file : Text
  pub limit : Text
  pub vault_id : List Text
  pub vault_password_file : Text
  pub hosts_is_set : Bool
  pub groups_is_set : Bool
  pub become_method_is_set : Bool
  pub become_user_is_set : Bool
  pub extra_vars_is_set : Bool
  pub forks_is_set : Bool
  pub inventory_file_is_set : Bool
  pub limit_is_set : Bool
  pub vault_id_is_set : Bool
  pub vault_password_file_is_set : Bool

-- `&Defaults{}`
abbrev pub no_defaults : Defaults
no_defaults = record {
  hosts = [];
  groups = [];
  become_method = [];
  become_user = [];
  extra_vars = end;
  forks = pos 0;
  inventory_file = [];
  limit = [];
  vault_id = [];
  vault_password_file = [];
  hosts_is_set = false;
  groups_is_set = false;
  become_method_is_set = false;
  become_user_is_set = false;
  extra_vars_is_set = false;
  forks_is_set = false;
  inventory_file_is_set = false;
  limit_is_set = false;
  vault_id_is_set = false;
  vault_password_file_is_set = false;
}

-- `len(m) == 0`
abbrev pub has_no_entry : Fields → Bool
has_no_entry end = true
has_no_entry (field _ _ _) = false

abbrev defaults_attributes : Resource
defaults_attributes =
    (attribute (text "hosts") (string_list (optional_of type_list)) (
      attribute (text "groups") (string_list (optional_of type_list)) (
        attribute (text "become_method")
          (plain (record (optional_of type_string) { validate = check_become_method }))
          (attribute (text "become_user") (plain (optional_of type_string)) (
            attribute (text "extra_vars")
              (plain (record (optional_of type_map) { computed = true }))
              (attribute (text "forks") (plain (optional_of type_int)) (
                attribute (text "inventory_file")
                  (plain (record (optional_of type_string) { validate = check_path }))
                  (attribute (text "limit") (plain (optional_of type_string)) (
                    attribute (text "vault_id")
                      (string_list (record (optional_of type_list) {
                        conflicts_with = text "defaults.vault_password_file" ∷ [];
                      }))
                      (attribute (text "vault_password_file")
                        (plain (record (optional_of type_string) {
                          validate = check_path;
                          conflicts_with = text "defaults.vault_id" ∷ [];
                        }))
                        end_resource))))))))))

unfoldable pub new_defaults_schema : Schema
new_defaults_schema = schema (optional_of type_set) (resource defaults_attributes)

-- `if val, ok := vals[key]; ok { v.… = … }`: a value that is there is read and stored.
when_present {ℓ} :
    {A : Type ℓ}
    → Option Value
    → (Value → Outcome A)
    → (A → Defaults → Defaults)
    → Defaults
    → Outcome Defaults
when_present none assert store v = ok v
when_present (some val) assert store v = do a ← assert val; ok (store a v)

abbrev store_hosts : List Text → Defaults → Defaults
store_hosts a v = record v { hosts = a; hosts_is_set = not (is_empty a) }

abbrev store_groups : List Text → Defaults → Defaults
store_groups a v = record v { groups = a; groups_is_set = not (is_empty a) }

abbrev store_become_method : Text → Defaults → Defaults
store_become_method a v = record v { become_method = a; become_method_is_set = not (is_empty a) }

abbrev store_become_user : Text → Defaults → Defaults
store_become_user a v = record v { become_user = a; become_user_is_set = not (is_empty a) }

abbrev store_extra_vars : Fields → Defaults → Defaults
store_extra_vars a v = record v { extra_vars = a; extra_vars_is_set = not (has_no_entry a) }

abbrev store_forks : ℤ → Defaults → Defaults
store_forks a v = record v { forks = a; forks_is_set = is_positive a }

abbrev store_inventory_file : Text → Defaults → Defaults
store_inventory_file a v = record v { inventory_file = a; inventory_file_is_set = not (is_empty a) }

abbrev store_limit : Text → Defaults → Defaults
store_limit a v = record v { limit = a; limit_is_set = not (is_empty a) }

abbrev store_vault_id : List Text → Defaults → Defaults
store_vault_id a v = record v { vault_id = a; vault_id_is_set = not (is_empty a) }

abbrev store_vault_password_file : Text → Defaults → Defaults
store_vault_password_file a v = record v {
  vault_password_file = a;
  vault_password_file_is_set = not (is_empty a);
}

unfoldable pub new_defaults_from_map_interface : Fields → Bool → Outcome Defaults
unfolding when_present as_int as_string as_slice map_from_type_map
new_defaults_from_map_interface vals false = ok no_defaults
new_defaults_from_map_interface vals true = do
  v ← when_present (lookup vals (text "hosts")) strings_at store_hosts no_defaults
  v ← when_present (lookup vals (text "groups")) strings_at store_groups v
  v ← when_present (lookup vals (text "become_method")) as_string store_become_method v
  v ← when_present (lookup vals (text "become_user")) as_string store_become_user v
  v ← when_present (lookup vals (text "extra_vars")) map_from_type_map store_extra_vars v
  v ← when_present (lookup vals (text "forks")) as_int store_forks v
  v ← when_present (lookup vals (text "inventory_file")) as_string store_inventory_file v
  v ← when_present (lookup vals (text "limit")) as_string store_limit v
  v ← when_present (lookup vals (text "vault_id")) strings_at store_vault_id v
  when_present (lookup vals (text "vault_password_file")) as_string store_vault_password_file v

unfoldable pub new_defaults_from_interface : Value → Bool → Outcome Defaults
unfolding set_list map_from_type_set_list
new_defaults_from_interface i false = ok no_defaults
new_defaults_from_interface i true = do
  members ← set_list i
  vals ← map_from_type_set_list members
  new_defaults_from_map_interface vals true
