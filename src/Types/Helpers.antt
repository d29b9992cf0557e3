-- ===== src/Types/Helpers.antt =====
-- types/helpers.go
use terraform_provisioner_an.Base.{
  Bool, true, false, not, ◌&&◌, ◌||◌, Option, none, some, List, [], ◌∷◌, ◌++◌, Text, text, text_eq,
  contains, has_prefix, if◌then◌else◌,
}
use terraform_provisioner_an.Base.Outcome.{Outcome, ok, err, panic, ◌>>=◌}
use terraform_provisioner_an.Go.Value.{
  Value, null, string, slice, object, Fields, end, to_list, as_string, as_slice, as_map,
}
use terraform_provisioner_an.Go.Path.{clean}

unfoldable pub member : Text → List Text → Bool
member t [] = false
member t (s ∷ ss) = text_eq t s || member t ss

-- The keys of the map `becomeMethods`, all of which have the value true.
unfoldable pub become_methods : List Text
become_methods =
    text "sudo"
    ∷ text "su"
    ∷ text "pbrun"
    ∷ text "pfexec"
    ∷ text "doas"
    ∷ text "dzdo"
    ∷ text "ksu"
    ∷ text "runas"
    ∷ []

-- The loop of `HasMoreThanOneTrue`, with its variable `f`.
unfoldable pub more_than_one_loop : Bool → List Bool → Bool
more_than_one_loop f [] = false
more_than_one_loop f (v ∷ vals) =
    let rest = more_than_one_loop (if not f && v then v else f) vals in
    if f && v then true else rest

unfoldable pub has_more_than_one_true : List Bool → Bool
unfolding more_than_one_loop
has_more_than_one_true = more_than_one_loop false

-- What a validation gives: warnings and errors.
pub record Checked : Type 0 where
  pub warns : List Text
  pub errs : List Text

abbrev pub no_complaint : Checked
no_complaint = record { warns = []; errs = [] }

unfoldable pub vf_become_method : Value → Outcome Checked
unfolding become_methods member
vf_become_method val = do
  v ← as_string val
  if member v become_methods
      then ok no_complaint
      else ok (record { warns = []; errs = (v ++ text " is not a valid become_method") ∷ [] })

-- What is asked of the machine that runs the program: `homedir.Expand` without its error, and
-- `os.Stat`, which tells of a path that exists whether it is a directory.
pub record Files : Type 0 where
  pub expand : Text → Text
  pub stat : Text → Option Bool

module _ (files : Files) where
  resolved : Text → Text → Option Bool → Outcome Text
  resolved path expanded none =
      err (text "Ansible module not found at path: [" ++ (path ++ text "]"))
  resolved path expanded (some is_dir) = ok (clean expanded)

  unfoldable pub resolve_path : Text → Outcome Text
  unfolding resolved
  resolve_path path =
      let expanded_path = files.expand path in
      resolved path expanded_path (files.stat expanded_path)

  unfoldable pub resolved_directory : Text → Text → Option Bool → Outcome Text
  resolved_directory path expanded none =
      err (text "Ansible module not found at path: [" ++ (path ++ text "]"))
  resolved_directory path expanded (some false) =
      err (text "Path [" ++ (path ++ text "] must be a directory"))
  resolved_directory path expanded (some true) = ok (clean expanded)

  unfoldable pub resolve_directory : Text → Outcome Text
  unfolding resolved_directory
  resolve_directory path =
      let expanded_path = files.expand path in
      resolved_directory path expanded_path (files.stat expanded_path)

  abbrev pub is_error : Outcome Text → Bool
  is_error (ok _) = false
  is_error _ = true

  undetermined : Text → Text
  undetermined v =
      text "Unable to determine the existence of '"
      ++ (v
          ++ text
              "', most likely because of https://github.com/hashicorp/terraform/issues/17439. If the file does not exist, you'll experience a failure at runtime.")

  not_validating : Text → Text
  not_validating v =
      text "Not validating existence of '" ++ (v ++ text "', galaxy_install roles path directory.")

  unfoldable pub vf_path : Value → Outcome Checked
  unfolding undetermined not_validating
  vf_path val = do
    v ← as_string val
    if contains v (text "${path.module}")
        then ok (record { warns = undetermined v ∷ []; errs = [] })
        else if has_prefix v (text "galaxy_install:")
        then ok (record { warns = not_validating v ∷ []; errs = [] })
        else if is_error (resolve_path v)
        then ok
            (record { warns = []; errs = (text "file '" ++ (v ++ text "' does not exist")) ∷ [] })
        else ok no_complaint

  unfoldable pub vf_path_directory : Value → Outcome Checked
  unfolding undetermined not_validating
  vf_path_directory val = do
    v ← as_string val
    if contains v (text "${path.module}")
        then ok (record { warns = undetermined v ∷ []; errs = [] })
        else if has_prefix v (text "galaxy_install:")
        then ok (record { warns = not_validating v ∷ []; errs = [] })
        else if is_error (resolve_directory v)
        then ok (record {
          warns = [];
          errs =
              (text "directory '" ++ (v ++ text "' does not exist or path is not a directory"))
              ∷ [];
        })
        else ok no_complaint

unfoldable pub map_from_type_map : Value → Outcome Fields
map_from_type_map null = ok end
map_from_type_map (object fs) = ok fs
map_from_type_map _ = panic

unfoldable pub map_from_type_set : Value → Outcome Fields
unfolding as_map
map_from_type_set i = as_map i

-- The loop returns in its first round.
unfoldable pub map_from_type_set_list : List Value → Outcome Fields
unfolding map_from_type_set
map_from_type_set_list [] = ok end
map_from_type_set_list (v ∷ _) = map_from_type_set v

-- Elements that are no strings are dropped.
unfoldable pub strings_of : List Value → List Text
strings_of [] = []
strings_of (string s ∷ vs) = s ∷ strings_of vs
strings_of (_ ∷ vs) = strings_of vs

unfoldable pub list_of_interface_to_list_of_string : Value → Outcome (List Text)
unfolding strings_of to_list
list_of_interface_to_list_of_string null = ok []
list_of_interface_to_list_of_string (slice vs) = ok (strings_of (to_list vs))
list_of_interface_to_list_of_string _ = panic

-- `listOfInterfaceToListOfString(v.([]interface{}))`
abbrev pub strings_at : Value → Outcome (List Text)
strings_at v = do vs ← as_slice v; ok (strings_of vs)
