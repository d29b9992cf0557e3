-- ===== src/Types/Module.antt =====
-- types/module.go
use terraform_provisioner_an.Base.{◌≢◌, Bool, true, false, [], ◌∷◌, arith, Text, text}
use terraform_provisioner_an.Base.Int.{ℤ, pos}
use terraform_provisioner_an.Base.Outcome.{Outcome, ok, IsOk, ◌>>=◌}
use terraform_provisioner_an.Go.Value.{
  Value, bool, int, string, cons, nil, Fields, index, as_bool, as_int, as_string, set_list,
}
use terraform_provisioner_an.Types.Helpers.{map_from_type_set_list, map_from_type_map}
use terraform_provisioner_an.Types.Schema.{
  Schema, schema, plain, type_bool, type_int, type_string, type_map, type_set, resource, attribute,
  end_resource, optional_of, constant, HasType,
}

pub record Module : Type 0 where
  pub args : Fields
  pub background : ℤ
  pub host_pattern : Text
  pub one_line : Bool
  pub poll : ℤ
  pub module_name : Text

unfoldable pub default_host_pattern : Text
default_host_pattern = text "all"

unfoldable pub new_module_schema : Schema
unfolding default_host_pattern
new_module_schema =
    schema
      (record (optional_of type_set) {
        conflicts_with = text "plays.galaxy_install" ∷ text "plays.playbook" ∷ [];
      })
      (resource (
        attribute (text "args") (plain (record (optional_of type_map) { computed = true })) (
          attribute (text "background")
            (plain (record (optional_of type_int) { default = constant (int (pos 0)) }))
            (attribute (text "host_pattern")
              (plain (record (optional_of type_string) {
                default = constant (string default_host_pattern);
              }))
              (attribute (text "one_line")
                (plain (record (optional_of type_bool) { default = constant (bool false) }))
                (attribute (text "poll")
                  (plain (record (optional_of type_int) { default = constant (int (pos 15)) }))
                  (attribute (text "module")
                    (plain (record (optional_of type_string) { required = true; optional = false }))
                    end_resource)))))))

unfoldable pub new_module_from_interface : Value → Outcome Module
unfolding set_list map_from_type_set_list map_from_type_map as_bool as_int as_string
new_module_from_interface i = do
  members ← set_list i
  vals ← map_from_type_set_list members
  module_name ← as_string (index vals (text "module"))
  args ← map_from_type_map (index vals (text "args"))
  background ← as_int (index vals (text "background"))
  host_pattern ← as_string (index vals (text "host_pattern"))
  one_line ← as_bool (index vals (text "one_line"))
  poll ← as_int (index vals (text "poll"))
  ok (record {
    args = args;
    background = background;
    host_pattern = host_pattern;
    one_line = one_line;
    poll = poll;
    module_name = module_name;
  })

pub new_module_from_interface-IsOk :
    (i : Value)
    → HasType new_module_schema i
    → set_list i ≢ ok []
    → IsOk (new_module_from_interface i)
unfolding new_module_schema new_module_from_interface
new_module_from_interface-IsOk i (shown, nil, e, q, all) ne = absurd (ne (rw e))
new_module_from_interface-IsOk i (shown, cons v vs, e, q, h) ne = ground arith
