-- ===== src/Types/Tests.antt =====
-- A play and defaults as Terraform hands them over.
use terraform_provisioner_an.Base.{refl, true, false, [], ◌∷◌, text, text_eq}
use terraform_provisioner_an.Base.Int.{pos}
use terraform_provisioner_an.Base.Outcome.{IsOk, Ensures}
use terraform_provisioner_an.Go.Value.{
  Value, bool, int, string, slice, object, set, nil, cons, Fields, end, field, lookup, index,
  to_list,
}
use terraform_provisioner_an.Types.Schema.{HasFields, HasType, empty_set}
use terraform_provisioner_an.Types.Playbook.{new_playbook_schema}
use terraform_provisioner_an.Types.Module.{new_module_schema}
use terraform_provisioner_an.Types.GalaxyInstall.{new_galaxy_install_schema}
use terraform_provisioner_an.Types.Defaults.{
  no_defaults, new_defaults_schema, new_defaults_from_interface,
}
use terraform_provisioner_an.Types.Defaults.Flags.{
  IsConsistent, no_defaults-IsConsistent, new_defaults_from_interface-IsOk,
  new_defaults_from_interface-IsConsistent,
}
use terraform_provisioner_an.Types.Play.{
  Play, unsupported, play_attributes, new_play_from_map_interface,
}
use terraform_provisioner_an.Types.Play.Settings.{Resolves, Resolves-of_IsConsistent}
use terraform_provisioner_an.Types.Play.Reading.{new_play_from_map_interface-IsOk}

abbrev playbook_fields : Fields
playbook_fields = field (text "force_handlers") (bool false) (
    field (text "skip_tags") (slice nil) (
      field (text "start_at_task") (string []) (
        field (text "tags") (slice nil) (
          field (text "file_path") (string (47 ∷ 112 ∷ []))
            (field (text "roles_path") (slice nil) (end))))))

abbrev pub play_fields : Fields
play_fields = field (text "enabled") (bool true) (
    field (text "playbook") (set [] (cons (object playbook_fields) nil)) (
      field (text "module") (set empty_set nil) (
        field (text "galaxy_install") (set empty_set nil) (
          field (text "hosts") (slice (cons (string (97 ∷ [])) nil)) (
            field (text "groups") (slice nil) (
              field (text "become") (bool true) (
                field (text "become_method") (string (115 ∷ 117 ∷ [])) (
                  field (text "become_user") (string []) (
                    field (text "diff") (bool false) (
                      field (text "check") (bool false) (
                        field (text "extra_vars") (object end) (
                          field (text "forks") (int (pos 5)) (
                            field (text "inventory_file") (string []) (
                              field (text "limit") (string []) (
                                field (text "vault_id") (slice nil) (
                                  field (text "vault_password_file") (string [])
                                    (field (text "verbose") (bool false) (end))))))))))))))))))

abbrev given_defaults : Value
given_defaults = set [] (
    cons
      (object (
        field (text "hosts") (slice nil) (
          field (text "groups") (slice nil) (
            field (text "become_method") (string (115 ∷ 117 ∷ [])) (
              field (text "become_user") (string []) (
                field (text "extra_vars") (object end) (
                  field (text "forks") (int (pos 7)) (
                    field (text "inventory_file") (string []) (
                      field (text "limit") (string []) (
                        field (text "vault_id") (slice nil)
                          (field (text "vault_password_file") (string []) (end))))))))))))
      nil)

playbook_fields-HasFields : HasType new_playbook_schema (index play_fields (text "playbook"))
unfolding new_playbook_schema index lookup text text_eq to_list empty_set
playbook_fields-HasFields = (
  [],
  cons (object playbook_fields) nil,
  refl,
  ((λ e. cc), λ e. cc),
  (
    (
      playbook_fields,
      refl,
      ((_, refl), ((_, refl, tt), ((_, refl), ((_, refl, tt), ((_, refl), ((_, refl, tt), tt)))))),
    ),
    tt,
  ),
)

empty_module : HasType new_module_schema (set empty_set nil)
unfolding new_module_schema to_list
empty_module = (empty_set, nil, refl, ((λ _. refl), λ _. refl), tt)

empty_galaxy_install : HasType new_galaxy_install_schema (set empty_set nil)
unfolding new_galaxy_install_schema to_list
empty_galaxy_install = (empty_set, nil, refl, ((λ _. refl), λ _. refl), tt)

pub play_fields-HasFields : HasFields play_attributes play_fields
unfolding index lookup text text_eq to_list
play_fields-HasFields = (
  (_, refl),
  (
    playbook_fields-HasFields,
    (
      empty_module,
      (
        empty_galaxy_install,
        (
          (_, refl, ((_, refl), tt)),
          (
            (_, refl, tt),
            (
              (_, refl),
              (
                (_, refl),
                (
                  (_, refl),
                  (
                    (_, refl),
                    (
                      (_, refl),
                      (
                        (_, refl),
                        (
                          (_, refl),
                          ((_, refl), ((_, refl), ((_, refl, tt), ((_, refl), ((_, refl), tt))))),
                        ),
                      ),
                    ),
                  ),
                ),
              ),
            ),
          ),
        ),
      ),
    ),
  ),
)

new_play_from_map_interface-IsOk_example :
    IsOk (new_play_from_map_interface play_fields no_defaults)
new_play_from_map_interface-IsOk_example =
    new_play_from_map_interface-IsOk play_fields no_defaults play_fields-HasFields

given_defaults-HasType : HasType new_defaults_schema given_defaults
unfolding new_defaults_schema index lookup text text_eq empty_set to_list
given_defaults-HasType = (
  [],
  _,
  refl,
  ((λ e. cc), λ e. cc),
  (
    (
      _,
      refl,
      (
        (_, refl, tt),
        (
          (_, refl, tt),
          (
            (_, refl),
            (
              (_, refl),
              ((_, refl), ((_, refl), ((_, refl), ((_, refl), ((_, refl, tt), ((_, refl), tt)))))),
            ),
          ),
        ),
      ),
    ),
    tt,
  ),
)

new_defaults_from_interface-IsOk_example : IsOk (new_defaults_from_interface given_defaults true)
new_defaults_from_interface-IsOk_example =
    new_defaults_from_interface-IsOk given_defaults given_defaults-HasType

new_defaults_from_interface-IsConsistent_example :
    Ensures IsConsistent (new_defaults_from_interface given_defaults true)
new_defaults_from_interface-IsConsistent_example =
    new_defaults_from_interface-IsConsistent given_defaults true

abbrev bare_play : Play
bare_play = record {
  defaults = no_defaults;
  enabled = true;
  entity = unsupported;
  hosts = [];
  groups = [];
  become = true;
  become_method = [];
  become_user = [];
  diff = false;
  check = true;
  extra_vars = end;
  forks = pos 0;
  inventory_file = 105 ∷ [];
  limit = [];
  vault_id = [];
  vault_password_file = [];
  verbose = false;
  override_inventory_file = [];
  override_vault_id = [];
  override_vault_password_file = [];
}

Resolves-of_IsConsistent_example : Resolves bare_play
Resolves-of_IsConsistent_example = Resolves-of_IsConsistent bare_play no_defaults-IsConsistent
