-- ===== src/Types/Play/Reading.antt =====
-- Reading a play of types/play.go from a map of its schema.
use terraform_provisioner_an.Base.{
  ◌≡◌, ◌≢◌, false, Bool-cases, inl, inr, [], arith, Text, text, text_eq, text_eq_iff,
}
use terraform_provisioner_an.Base.Outcome.{ok, ok-injective, IsOk, eq_ok_of_IsOk}
use terraform_provisioner_an.Go.Value.{Value, Fields, index, set_list, to_list, go_string}
use terraform_provisioner_an.Types.Schema.{OfType, type_set, HasFields, HasType, empty_set}
use terraform_provisioner_an.Types.Playbook.{new_playbook_schema, new_playbook_from_interface-IsOk}
use terraform_provisioner_an.Types.Module.{new_module_schema, new_module_from_interface-IsOk}
use terraform_provisioner_an.Types.GalaxyInstall.{
  new_galaxy_install_schema, new_galaxy_install_from_interface-IsOk,
}
use terraform_provisioner_an.Types.Defaults.{Defaults}
use terraform_provisioner_an.Types.Play.{
  play_attributes, galaxy_install_entity, module_entity, read_entity, new_play_from_map_interface,
}

set_reading :
    (P : Value → Type 0) (i : Value)
    → OfType type_set P i
    → (shown : Text) × (go_string i ≡ ok shown)
      × (text_eq shown empty_set ≡ false → set_list i ≢ ok [])
unfolding go_string set_list
set_reading P i (shown, vs, e, q, all) = (
  shown,
  rw e,
  λ differs none_there.
      let none_here : to_list vs ≡ [] = ok-injective (rw e at none_there) in
      cc (differs, (text_eq_iff shown empty_set).1 (q.1 none_here)),
)

galaxy_install_entity-IsOk :
    (vals : Fields)
    → HasType new_galaxy_install_schema (index vals (text "galaxy_install"))
    → IsOk (galaxy_install_entity vals)
unfolding galaxy_install_entity new_galaxy_install_schema
galaxy_install_entity-IsOk vals h =
    let i = index vals (text "galaxy_install") in
    let (shown, e, ne) = set_reading _ i h in
    elim (Bool-cases (text_eq shown empty_set)) [
      | inl same ↦ rw (e, same) tt
      | inr other ↦
          let (g, eg) = eq_ok_of_IsOk _ (new_galaxy_install_from_interface-IsOk i h (ne other)) in
          rw (e, other, eg) tt
    ]

module_entity-IsOk :
    (vals : Fields)
    → HasType new_module_schema (index vals (text "module"))
    → HasType new_galaxy_install_schema (index vals (text "galaxy_install"))
    → IsOk (module_entity vals)
unfolding module_entity new_module_schema
module_entity-IsOk vals h k =
    let i = index vals (text "module") in
    let (shown, e, ne) = set_reading _ i h in
    elim (Bool-cases (text_eq shown empty_set)) [
      | inl same ↦ rw (e, same) (galaxy_install_entity-IsOk vals k)
      | inr other ↦
          let (m, em) = eq_ok_of_IsOk _ (new_module_from_interface-IsOk i h (ne other)) in
          rw (e, other, em) tt
    ]

read_entity-IsOk :
    (vals : Fields)
    → HasType new_playbook_schema (index vals (text "playbook"))
    → HasType new_module_schema (index vals (text "module"))
    → HasType new_galaxy_install_schema (index vals (text "galaxy_install"))
    → IsOk (read_entity vals)
unfolding read_entity new_playbook_schema
read_entity-IsOk vals h k l =
    let i = index vals (text "playbook") in
    let (shown, e, ne) = set_reading _ i h in
    elim (Bool-cases (text_eq shown empty_set)) [
      | inl same ↦ rw (e, same) (module_entity-IsOk vals k l)
      | inr other ↦
          let (p, ep) = eq_ok_of_IsOk _ (new_playbook_from_interface-IsOk i h (ne other)) in
          rw (e, other, ep) tt
    ]

-- A play is read without an error or a panic from every map that has the attributes of the
-- play's schema, whatever its defaults are.
pub new_play_from_map_interface-IsOk :
    (vals : Fields) (defaults : Defaults)
    → HasFields play_attributes vals
    → IsOk (new_play_from_map_interface vals defaults)
unfolding new_play_from_map_interface index
new_play_from_map_interface-IsOk vals defaults (h1, (hp, (hm, (hg, h)))) =
    let (entity, e) = eq_ok_of_IsOk _ (read_entity-IsOk vals hp hm hg) in ground arith
