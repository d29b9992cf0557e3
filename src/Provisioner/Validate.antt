-- ===== src/Provisioner/Validate.antt =====
-- `validateFn` of provisioner/resource_provisioner.go.
pub mod Judged
pub mod Verdict
use terraform_provisioner_an.Base.{
  ℕ, suc, Bool, true, false, not, ◌&&◌, Option, none, some, List, [], ◌∷◌, ◌++◌, Text, text, length,
  ◌==◌, if◌then◌else◌,
}
use terraform_provisioner_an.Base.Outcome.{Outcome, ok, err, panic, ◌>>=◌}
use terraform_provisioner_an.Go.Value.{
  Value, slice, slice_of_maps, object, Fields, to_list, lookup, index, as_slice, as_slice_of_maps,
  as_map,
}
use terraform_provisioner_an.Types.Helpers.{
  Files, Checked, has_more_than_one_true, vf_path_directory,
}

pub data TerraformVersion : Type 0 where
  terraform011 terraform012 : TerraformVersion

-- The warnings and errors so far, of a validation that runs or of one that a panic ended.
pub data Validating : Type 0 where
  running panicked : Checked → Validating

abbrev pub with_error : Checked → Text → Checked
with_error c e = record c { errs = c.errs ++ (e ∷ []) }

abbrev pub with_warning : Checked → Text → Checked
with_warning c w = record c { warns = c.warns ++ (w ∷ []) }

abbrev pub is_some {ℓ} : {A : Type ℓ} → Option A → Bool
is_some none = false
is_some (some _) = true

-- `vals[0]`
unfoldable pub first_of {ℓ} : {A : Type ℓ} → List A → Outcome A
first_of [] = panic
first_of (v ∷ vs) = ok v

-- `v, ok := val.([]interface{})`
unfoldable pub slice_if : Value → Option (List Value)
unfolding to_list
slice_if (slice vs) = some (to_list vs)
slice_if _ = none

-- The value of `roles_path` in the first playbook, if it is a list.
unfoldable pub playbook_roles_path : TerraformVersion → Value → Outcome (Option (List Value))
unfolding as_slice as_slice_of_maps as_map index first_of slice_if
playbook_roles_path terraform012 v_playbook = do
  v_playbook_typed ← as_slice v_playbook
  first ← first_of v_playbook_typed
  fs ← as_map first
  ok (slice_if (index fs (text "roles_path")))
playbook_roles_path terraform011 v_playbook = do
  v_playbook_typed ← as_slice_of_maps v_playbook
  first ← first_of v_playbook_typed
  fs ← as_map first
  ok (slice_if (index fs (text "roles_path")))

-- A panic ends the validation; else it goes on.
infixl 5 ◌and_then◌
abbrev pub ◌and_then◌ : Validating → (Checked → Validating) → Validating
running c and_then f = f c
panicked c and_then f = panicked c

-- The complaints of one part, appended one by one.
abbrev pub appended : Outcome Checked → Checked → Validating
appended (ok found) c =
    running (record { warns = c.warns ++ found.warns; errs = c.errs ++ found.errs })
appended _ c = panicked c

module _ (files : Files) where
  unfoldable pub validate_paths : List Value → Checked → Validating
  validate_paths [] c = running c
  validate_paths (single_path ∷ rest) c =
      appended (vf_path_directory files single_path) c and_then λ d. validate_paths rest d

  unfoldable pub validate_roles_path : Outcome (Option (List Value)) → Checked → Validating
  validate_roles_path (ok none) c = running c
  validate_roles_path (ok (some roles_path)) c = validate_paths roles_path c
  validate_roles_path _ c = panicked c

  unfoldable pub validate_playbook : TerraformVersion → Option Value → Checked → Validating
  validate_playbook version none c = running c
  validate_playbook version (some v_playbook) c =
      validate_roles_path (playbook_roles_path version v_playbook) c

  unfoldable pub validate_entity : TerraformVersion → Fields → Checked → Validating
  validate_entity version v_play c =
      let v_playbook = lookup v_play (text "playbook") in
      let play_has_playbook = is_some v_playbook in
      let play_has_module = is_some (lookup v_play (text "module")) in
      let play_has_galaxy_install = is_some (lookup v_play (text "galaxy_install")) in
      if has_more_than_one_true (play_has_playbook ∷ play_has_module ∷ play_has_galaxy_install ∷ [])
      then running
          (with_error c (text "play can have only one of: galaxy_install, playbook or module"))
      else if not play_has_playbook && (not play_has_module && not play_has_galaxy_install)
      then running (with_error c (text "galaxy_install, playbook or module must be set"))
      else validate_playbook version v_playbook c

  unfoldable pub validate_play : TerraformVersion → Value → Checked → Validating
  validate_play version (object v_play) c = validate_entity version v_play c
  validate_play version _ c = panicked c

  -- The loop over the plays, which counts those that brought no error.
  unfoldable pub validate_plays : TerraformVersion → List Value → Checked → ℕ → Validating
  validate_plays version [] c valid_plays_count =
      running (if valid_plays_count == 0 then with_warning c (text "nothing to play") else c)
  validate_plays version (raw_v_play ∷ rest) c valid_plays_count =
      validate_play version raw_v_play c and_then λ d.
      validate_plays version rest d
        (if length c.errs == length d.errs then suc valid_plays_count else valid_plays_count)

-- What is known of a value by its type alone: its name, as `%T` writes it.
module _ (files : Files) (type_name : Value → Text) (reason : Text) where
  -- The deferred function: a panic becomes one more error, for the reason that it gives.
  unfoldable pub recovered : Validating → Checked
  recovered (running c) = c
  recovered (panicked c) =
      with_error c (text "error while validating the provisioner, reason: " ++ reason)

  abbrev unchecked : Checked
  unchecked = record { warns = []; errs = [] }

  unfoldable pub validate_value : Value → Checked
  unfolding to_list
  validate_value (slice vs) = recovered (validate_plays files terraform012 (to_list vs) unchecked 0)
  validate_value (slice_of_maps vs) =
      recovered (validate_plays files terraform011 (to_list vs) unchecked 0)
  validate_value plays =
      with_error unchecked
        (text "could not establish Terrafrom version from plays type: " ++ type_name plays)

  -- The argument is what `c.Get("plays")` finds.
  unfoldable pub validate_fn : Option Value → Checked
  validate_fn none = with_warning unchecked (text "nothing to play")
  validate_fn (some plays) = validate_value plays
