-- ===== src/Types/Defaults/Flags.antt =====
-- The flags of types/defaults.go, and reading defaults from a value of their schema.
use terraform_provisioner_an.Base.{
  ◌≡◌, Bool, true, false, not, Option, none, some, arith, text, is_empty,
}
use terraform_provisioner_an.Base.Int.{is_positive}
use terraform_provisioner_an.Base.Outcome.{
  Outcome, IsOk, Ensures, Ensures-bind, Ensures-ok, Ensures-any,
}
use terraform_provisioner_an.Go.Value.{
  Value, cons, nil, Fields, lookup, index, as_int, as_string, set_list,
}
use terraform_provisioner_an.Types.Helpers.{map_from_type_set_list, map_from_type_map, strings_at}
use terraform_provisioner_an.Types.Schema.{HasFields, HasType}
use terraform_provisioner_an.Types.Defaults.{
  Defaults, no_defaults, has_no_entry, defaults_attributes, new_defaults_schema, when_present,
  store_hosts, store_groups, store_become_method, store_become_user, store_extra_vars, store_forks,
  store_inventory_file, store_limit, store_vault_id, store_vault_password_file,
  new_defaults_from_map_interface, new_defaults_from_interface,
}

-- A flag says that the setting beside it is not empty.
pub record IsConsistent (d : Defaults) : Type 0 where
  pub hosts : d.hosts_is_set ≡ not (is_empty d.hosts)
  pub groups : d.groups_is_set ≡ not (is_empty d.groups)
  pub become_method : d.become_method_is_set ≡ not (is_empty d.become_method)
  pub become_user : d.become_user_is_set ≡ not (is_empty d.become_user)
  pub extra_vars : d.extra_vars_is_set ≡ not (has_no_entry d.extra_vars)
  pub forks : d.forks_is_set ≡ is_positive d.forks
  pub inventory_file : d.inventory_file_is_set ≡ not (is_empty d.inventory_file)
  pub limit : d.limit_is_set ≡ not (is_empty d.limit)
  pub vault_id : d.vault_id_is_set ≡ not (is_empty d.vault_id)
  pub vault_password_file : d.vault_password_file_is_set ≡ not (is_empty d.vault_password_file)

pub no_defaults-IsConsistent : IsConsistent no_defaults
no_defaults-IsConsistent = ground arith

when_present-Ensures {ℓ} :
    {A : Type ℓ} (o : Option Value) (assert : Value → Outcome A) (store : A → Defaults → Defaults)
    → ((a : A) (v : Defaults) → IsConsistent v → IsConsistent (store a v))
    → (v : Defaults) → IsConsistent v
    → Ensures IsConsistent (when_present o assert store v)
unfolding when_present
when_present-Ensures none assert store keep v c = Ensures-ok v c
when_present-Ensures (some val) assert store keep v c =
    Ensures-bind (assert val) _ (Ensures-any (assert val))
      λ a _. Ensures-ok (store a v) (keep a v c)

-- The flags of defaults that were read from a configuration are right.
pub new_defaults_from_map_interface-IsConsistent :
    (vals : Fields) (present : Bool)
    → Ensures IsConsistent (new_defaults_from_map_interface vals present)
unfolding new_defaults_from_map_interface
new_defaults_from_map_interface-IsConsistent vals false =
    Ensures-ok no_defaults no_defaults-IsConsistent
new_defaults_from_map_interface-IsConsistent vals true =
    Ensures-bind _ _
      (when_present-Ensures (lookup vals (text "hosts")) strings_at store_hosts
        (λ a v c. ground arith) no_defaults no_defaults-IsConsistent)
      λ v0 c0.
        Ensures-bind _ _
          (when_present-Ensures (lookup vals (text "groups")) strings_at store_groups
            (λ a v c. ground arith) v0 c0)
          λ v1 c1.
            Ensures-bind _ _
              (when_present-Ensures (lookup vals (text "become_method")) as_string
                store_become_method (λ a v c. ground arith) v1 c1)
              λ v2 c2.
                Ensures-bind _ _
                  (when_present-Ensures (lookup vals (text "become_user")) as_string
                    store_become_user (λ a v c. ground arith) v2 c2)
                  λ v3 c3.
                    Ensures-bind _ _
                      (when_present-Ensures (lookup vals (text "extra_vars")) map_from_type_map
                        store_extra_vars (λ a v c. ground arith) v3 c3)
                      λ v4 c4.
                        Ensures-bind _ _
                          (when_present-Ensures (lookup vals (text "forks")) as_int store_forks
                            (λ a v c. ground arith) v4 c4)
                          λ v5 c5.
                            Ensures-bind _ _
                              (when_present-Ensures (lookup vals (text "inventory_file")) as_string
                                store_inventory_file (λ a v c. ground arith) v5 c5)
                              λ v6 c6.
                                Ensures-bind _ _
                                  (when_present-Ensures (lookup vals (text "limit")) as_string
                                    store_limit (λ a v c. ground arith) v6 c6)
                                  λ v7 c7.
                                    Ensures-bind _ _
                                      (when_present-Ensures (lookup vals (text "vault_id"))
                                        strings_at store_vault_id (λ a v c. ground arith) v7 c7)
                                      λ v8 c8.
                                        when_present-Ensures
                                          (lookup vals (text "vault_password_file")) as_string
                                          store_vault_password_file (λ a v c. ground arith) v8 c8

new_defaults_from_map_interface-IsOk :
    (vals : Fields)
    → HasFields defaults_attributes vals
    → IsOk (new_defaults_from_map_interface vals true)
unfolding new_defaults_from_map_interface index
new_defaults_from_map_interface-IsOk vals h = ground arith

-- Defaults can be read from whatever Terraform hands over by their schema, the empty set included.
pub new_defaults_from_interface-IsOk :
    (i : Value) → HasType new_defaults_schema i → IsOk (new_defaults_from_interface i true)
unfolding new_defaults_schema new_defaults_from_interface
new_defaults_from_interface-IsOk i (shown, nil, e, q, all) =
    rw e (unfold new_defaults_from_map_interface lookup in tt)
new_defaults_from_interface-IsOk i (shown, cons v vs, e, q, ((fs, ev, h), all)) =
    rw (e, ev) (new_defaults_from_map_interface-IsOk fs h)

-- Defaults that are read from a configuration carry the right flags: each one says whether the
-- setting beside it is set.
pub new_defaults_from_interface-IsConsistent :
    (i : Value) (present : Bool) → Ensures IsConsistent (new_defaults_from_interface i present)
unfolding new_defaults_from_interface
new_defaults_from_interface-IsConsistent i false = Ensures-ok no_defaults no_defaults-IsConsistent
new_defaults_from_interface-IsConsistent i true =
    Ensures-bind _ _ (Ensures-any (set_list i)) λ members _.
      Ensures-bind _ _ (Ensures-any (map_from_type_set_list members))
        λ vals _. new_defaults_from_map_interface-IsConsistent vals true
