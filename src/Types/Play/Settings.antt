-- ===== src/Types/Play/Settings.antt =====
-- The settings of a play that types/play.go derives: an override first, then the play's own value,
-- then the default. The other methods of `Play` return a field. And how a play is overridden.
use terraform_provisioner_an.Base.{◌≡◌, not, List, [], ◌∷◌, arith, Text, is_empty, if◌then◌else◌}
use terraform_provisioner_an.Base.Int.{ℤ, is_positive}
use terraform_provisioner_an.Go.Value.{Fields, end}
use terraform_provisioner_an.Types.Defaults.{has_no_entry}
use terraform_provisioner_an.Types.Defaults.Flags.{IsConsistent}
use terraform_provisioner_an.Types.Play.{Play, default_become_method, default_forks}

unfoldable pub hosts_of : Play → List Text
hosts_of v =
    if not (is_empty v.hosts)
    then v.hosts
    else if v.defaults.hosts_is_set
    then v.defaults.hosts
    else []

unfoldable pub groups_of : Play → List Text
groups_of v =
    if not (is_empty v.groups)
    then v.groups
    else if v.defaults.groups_is_set
    then v.defaults.groups
    else []

unfoldable pub become_method_of : Play → Text
become_method_of v =
    if not (is_empty v.become_method)
    then v.become_method
    else if v.defaults.become_method_is_set
    then v.defaults.become_method
    else default_become_method

unfoldable pub become_user_of : Play → Text
become_user_of v =
    if not (is_empty v.become_user)
    then v.become_user
    else if v.defaults.become_user_is_set
    then v.defaults.become_user
    else []

unfoldable pub extra_vars_of : Play → Fields
extra_vars_of v =
    if not (has_no_entry v.extra_vars)
    then v.extra_vars
    else if v.defaults.extra_vars_is_set
    then v.defaults.extra_vars
    else end

unfoldable pub forks_of : Play → ℤ
forks_of v =
    if is_positive v.forks
    then v.forks
    else if v.defaults.forks_is_set
    then v.defaults.forks
    else default_forks

unfoldable pub inventory_file_of : Play → Text
inventory_file_of v =
    if not (is_empty v.override_inventory_file)
    then v.override_inventory_file
    else if not (is_empty v.inventory_file)
    then v.inventory_file
    else if v.defaults.inventory_file_is_set
    then v.defaults.inventory_file
    else []

unfoldable pub limit_of : Play → Text
limit_of v =
    if not (is_empty v.limit)
    then v.limit
    else if v.defaults.limit_is_set
    then v.defaults.limit
    else []

unfoldable pub vault_password_file_of : Play → Text
vault_password_file_of v =
    if not (is_empty v.override_vault_password_file)
    then v.override_vault_password_file
    else if not (is_empty v.vault_password_file)
    then v.vault_password_file
    else if v.defaults.vault_password_file_is_set
    then v.defaults.vault_password_file
    else []

unfoldable pub vault_id_of : Play → List Text
vault_id_of v =
    if not (is_empty v.override_vault_id)
    then v.override_vault_id
    else if not (is_empty v.vault_id)
    then v.vault_id
    else if v.defaults.vault_id_is_set
    then v.defaults.vault_id
    else []

unfoldable pub set_override_inventory_file : Play → Text → Play
set_override_inventory_file v path = record v { override_inventory_file = path }

unfoldable pub set_override_vault_id : Play → List Text → Play
set_override_vault_id v paths = record v { override_vault_id = paths }

unfoldable pub set_override_vault_password_path : Play → Text → Play
set_override_vault_password_path v path = record v { override_vault_password_file = path }

-- The first list that is not empty, if there is one.
abbrev pub first_set {ℓ} : {A : Type ℓ} → List (List A) → List A
first_set [] = []
first_set (xs ∷ xss) = if is_empty xs then first_set xss else xs

abbrev positive_or : ℤ → ℤ → ℤ
positive_or i j = if is_positive i then i else j

abbrev map_or : Fields → Fields → Fields
map_or m n = if has_no_entry m then n else m

-- What the settings of a play are meant to be: its own value, else the configured default, else
-- the built-in one; an override comes before all of these.
pub record Resolves (v : Play) : Type 0 where
  pub hosts : hosts_of v ≡ first_set (v.hosts ∷ v.defaults.hosts ∷ [])
  pub groups : groups_of v ≡ first_set (v.groups ∷ v.defaults.groups ∷ [])
  pub become_method :
      become_method_of v
      ≡ first_set (v.become_method ∷ v.defaults.become_method ∷ default_become_method ∷ [])
  pub become_user : become_user_of v ≡ first_set (v.become_user ∷ v.defaults.become_user ∷ [])
  pub extra_vars : extra_vars_of v ≡ map_or v.extra_vars v.defaults.extra_vars
  pub forks : forks_of v ≡ positive_or v.forks (positive_or v.defaults.forks default_forks)
  pub inventory_file :
      inventory_file_of v
      ≡ first_set (v.override_inventory_file ∷ v.inventory_file ∷ v.defaults.inventory_file ∷ [])
  pub limit : limit_of v ≡ first_set (v.limit ∷ v.defaults.limit ∷ [])
  pub vault_password_file :
      vault_password_file_of v
      ≡ first_set (
          v.override_vault_password_file ∷ v.vault_password_file ∷ v.defaults.vault_password_file
          ∷ [])
  pub vault_id :
      vault_id_of v ≡ first_set (v.override_vault_id ∷ v.vault_id ∷ v.defaults.vault_id ∷ [])

-- With defaults whose flags are right, every setting of a play is resolved in that order.
pub Resolves-of_IsConsistent : (v : Play) → IsConsistent v.defaults → Resolves v
unfolding hosts_of groups_of become_method_of become_user_of extra_vars_of forks_of
    inventory_file_of limit_of vault_password_file_of vault_id_of default_become_method
Resolves-of_IsConsistent v c = ground arith
