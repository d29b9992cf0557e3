-- ===== src/Types/Playbook.antt =====
-- types/playbook.go
use terraform_provisioner_an.Base.{
  ◌≢◌, Bool, true, false, arith, List, [], ◌∷◌, Text, text, is_empty, if◌then◌else◌,
}
use terraform_provisioner_an.Base.Outcome.{Outcome, ok, IsOk, ◌>>=◌}
use terraform_provisioner_an.Go.Value.{
  Value, index, as_bool, as_string, as_slice, set_list, cons, nil,
}
use terraform_provisioner_an.Types.Helpers.{map_from_type_set_list, strings_at}
use terraform_provisioner_an.Types.Schema.{
  Schema, schema, plain, string_list, type_bool, type_string, type_list, type_set, resource,
  attribute, end_resource, optional_of, check_path, HasType,
}

pub record Playbook : Type 0 where
  pub force_handlers : Bool
  pub skip_tags : List Text
  pub start_at_task : Text
  pub tags : List Text
  pub file_path : Text
  pub roles_path : List Text
  pub override_file_path : Text
  pub override_roles_path : List Text

unfoldable pub new_playbook_schema : Schema
new_playbook_schema =
    schema
      (record (optional_of type_set) {
        conflicts_with = text "plays.galaxy_install" ∷ text "plays.module" ∷ [];
      })
      (resource (
        attribute (text "force_handlers") (plain (optional_of type_bool)) (
          attribute (text "skip_tags") (string_list (optional_of type_list)) (
            attribute (text "start_at_task") (plain (optional_of type_string)) (
              attribute (text "tags") (string_list (optional_of type_list)) (
                attribute (text "file_path")
                  (plain (record (optional_of type_string) {
                    required = true;
                    optional = false;
                    validate = check_path;
                  }))
                  (attribute (text "roles_path") (string_list (optional_of type_list))
                    end_resource)))))))

unfoldable pub new_playbook_from_interface : Value → Outcome Playbook
unfolding set_list map_from_type_set_list as_bool as_string as_slice
new_playbook_from_interface i = do
  members ← set_list i
  vals ← map_from_type_set_list members
  file_path ← as_string (index vals (text "file_path"))
  force_handlers ← as_bool (index vals (text "force_handlers"))
  skip_tags ← strings_at (index vals (text "skip_tags"))
  start_at_task ← as_string (index vals (text "start_at_task"))
  tags ← strings_at (index vals (text "tags"))
  roles_path ← strings_at (index vals (text "roles_path"))
  ok (record {
    force_handlers = force_handlers;
    skip_tags = skip_tags;
    start_at_task = start_at_task;
    tags = tags;
    file_path = file_path;
    roles_path = roles_path;
    override_file_path = [];
    override_roles_path = [];
  })

unfoldable pub file_path_of : Playbook → Text
file_path_of v = if is_empty v.override_file_path then v.file_path else v.override_file_path

unfoldable pub roles_path_of : Playbook → List Text
roles_path_of v = if is_empty v.override_roles_path then v.roles_path else v.override_roles_path

unfoldable pub set_override_file_path : Playbook → Text → Playbook
set_override_file_path v path = record v { override_file_path = path }

unfoldable pub set_override_roles_path : Playbook → List Text → Playbook
set_override_roles_path v path = record v { override_roles_path = path }

-- Terraform's empty set gives a panic here: `vals` is then the empty map. So the set has a member.
pub new_playbook_from_interface-IsOk :
    (i : Value)
    → HasType new_playbook_schema i
    → set_list i ≢ ok []
    → IsOk (new_playbook_from_interface i)
unfolding new_playbook_schema new_playbook_from_interface
new_playbook_from_interface-IsOk i (shown, nil, e, q, all) ne = absurd (ne (rw e))
new_playbook_from_interface-IsOk i (shown, cons v vs, e, q, h) ne = ground arith
