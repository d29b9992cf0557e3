-- ===== src/Types/GalaxyInstall.antt =====
-- types/galaxy_install.go
use terraform_provisioner_an.Base.{◌≢◌, Bool, true, false, [], ◌∷◌, arith, Text, text}
use terraform_provisioner_an.Base.Outcome.{Outcome, ok, IsOk, ◌>>=◌}
use terraform_provisioner_an.Go.Value.{Value, bool, cons, nil, index, as_bool, as_string, set_list}
use terraform_provisioner_an.Types.Helpers.{map_from_type_set_list}
use terraform_provisioner_an.Types.Schema.{
  Schema, schema, plain, Spec, type_bool, type_string, type_set, resource, attribute, end_resource,
  optional_of, constant, check_path, HasType,
}

pub record GalaxyInstall : Type 0 where
  pub force : Bool
  pub ignore_certs : Bool
  pub ignore_errors : Bool
  pub keep_scm_meta : Bool
  pub no_deps : Bool
  pub role_file : Text
  pub roles_path : Text
  pub server : Text
  pub verbose : Bool

abbrev off_by_default : Spec
off_by_default = record (optional_of type_bool) { default = constant (bool false) }

unfoldable pub new_galaxy_install_schema : Schema
new_galaxy_install_schema =
    schema
      (record (optional_of type_set) {
        conflicts_with = text "plays.module" ∷ text "plays.playbook" ∷ [];
      })
      (resource (
        attribute (text "force") (plain off_by_default) (
          attribute (text "ignore_certs") (plain off_by_default) (
            attribute (text "ignore_errors") (plain off_by_default) (
              attribute (text "keep_scm_meta") (plain off_by_default) (
                attribute (text "no_deps") (plain off_by_default) (
                  attribute (text "role_file")
                    (plain (record (optional_of type_string) {
                      required = true;
                      optional = false;
                      validate = check_path;
                    }))
                    (attribute (text "roles_path")
                      (plain (record (optional_of type_string) { validate = check_path }))
                      (attribute (text "server") (plain (optional_of type_string))
                        (attribute (text "verbose") (plain off_by_default) end_resource))))))))))

unfoldable pub new_galaxy_install_from_interface : Value → Outcome GalaxyInstall
unfolding set_list map_from_type_set_list as_bool as_string
new_galaxy_install_from_interface i = do
  members ← set_list i
  vals ← map_from_type_set_list members
  force ← as_bool (index vals (text "force"))
  ignore_certs ← as_bool (index vals (text "ignore_certs"))
  ignore_errors ← as_bool (index vals (text "ignore_errors"))
  keep_scm_meta ← as_bool (index vals (text "keep_scm_meta"))
  no_deps ← as_bool (index vals (text "no_deps"))
  role_file ← as_string (index vals (text "role_file"))
  roles_path ← as_string (index vals (text "roles_path"))
  server ← as_string (index vals (text "server"))
  verbose ← as_bool (index vals (text "verbose"))
  ok (record {
    force = force;
    ignore_certs = ignore_certs;
    ignore_errors = ignore_errors;
    keep_scm_meta = keep_scm_meta;
    no_deps = no_deps;
    role_file = role_file;
    roles_path = roles_path;
    server = server;
    verbose = verbose;
  })

unfoldable pub set_role_file : GalaxyInstall → Text → GalaxyInstall
set_role_file v p = record v { role_file = p }

unfoldable pub set_roles_path : GalaxyInstall → Text → GalaxyInstall
set_roles_path v p = record v { roles_path = p }

pub new_galaxy_install_from_interface-IsOk :
    (i : Value)
    → HasType new_galaxy_install_schema i
    → set_list i ≢ ok []
    → IsOk (new_galaxy_install_from_interface i)
unfolding new_galaxy_install_schema new_galaxy_install_from_interface
new_galaxy_install_from_interface-IsOk i (shown, nil, e, q, all) ne = absurd (ne (rw e))
new_galaxy_install_from_interface-IsOk i (shown, cons v vs, e, q, h) ne = ground arith
