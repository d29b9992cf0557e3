-- ===== src/Provisioner/Validate/Verdict.antt =====
-- Which plays `validateFn` of provisioner/resource_provisioner.go accepts.
use terraform_provisioner_an.Base.{
  ℕ, ◌<◌, ◌≡◌, ◌↔◌, inl, inr, refl, Bool, true, false, not, ◌&&◌, ◌||◌, Bool-cases, Option, none,
  some, List, [], ◌∷◌, ◌++◌, append-nil, arith, Text, text, contains, has_prefix, length, ◌==◌,
  if◌then◌else◌,
}
use terraform_provisioner_an.Base.Outcome.{ok, ◌>>=◌}
use terraform_provisioner_an.Go.Value.{
  Value, null, bool, int, string, slice, slice_of_maps, object, set, other, Values, nil, cons,
  to_list, lookup, as_map, as_string, or_null, index, as_slice, as_slice_of_maps,
}
use terraform_provisioner_an.Types.Helpers.{
  Files, Checked, has_more_than_one_true, more_than_one_loop, no_complaint, is_error,
  vf_path_directory, resolve_directory, resolved_directory,
}
use terraform_provisioner_an.Provisioner.Validate.{
  TerraformVersion, terraform011, terraform012, Validating, running, panicked, with_error,
  with_warning, is_some, playbook_roles_path, slice_if, first_of, appended, validate_paths,
  validate_roles_path, validate_playbook, validate_entity, validate_play, validate_plays, recovered,
  validate_value, validate_fn,
}
use terraform_provisioner_an.Provisioner.Validate.Judged.{Judged, Judged-and_then, length_snoc}

abbrev pub all_of {ℓ} : {A : Type ℓ} → (A → Bool) → List A → Bool
all_of p [] = true
all_of p (x ∷ xs) = p x && all_of p xs

abbrev is_directory : Option Bool → Bool
is_directory none = false
is_directory (some b) = b

abbrev exactly_one : Bool → Bool → Bool → Bool
exactly_one true b c = not (b || c)
exactly_one false true c = not c
exactly_one false false c = c

module _ (files : Files) where
  -- A roles path that Terraform must still fill in, one that a galaxy play installs, or a
  -- directory that exists.
  unfoldable pub accepts_path : Value → Bool
  accepts_path (string s) =
      contains s (text "${path.module}")
      || (has_prefix s (text "galaxy_install:") || is_directory (files.stat (files.expand s)))
  accepts_path _ = false

  -- What stands under the key for roles paths: paths are judged if it is a list of them.
  unfoldable pub accepts_roles : Option Value → Bool
  unfolding to_list
  accepts_roles (some (slice paths)) = all_of accepts_path (to_list paths)
  accepts_roles _ = true

  -- The first of the playbooks must be there, and be a map.
  unfoldable pub accepts_first : Values → Bool
  unfolding lookup
  accepts_first (cons (object fs) _) = accepts_roles (lookup fs (text "roles_path"))
  accepts_first _ = false

  -- A playbook comes in a list, of the type that the version of Terraform has for it.
  unfoldable pub accepts_playbook : TerraformVersion → Option Value → Bool
  accepts_playbook version none = true
  accepts_playbook terraform012 (some (slice vs)) = accepts_first vs
  accepts_playbook terraform011 (some (slice_of_maps vs)) = accepts_first vs
  accepts_playbook _ (some _) = false

  -- A play with one entity, whose playbook, if it has one, has good roles paths.
  unfoldable pub accepts_play : TerraformVersion → Value → Bool
  accepts_play version (object fs) =
      exactly_one (is_some (lookup fs (text "playbook"))) (is_some (lookup fs (text "module")))
        (is_some (lookup fs (text "galaxy_install")))
      && accepts_playbook version (lookup fs (text "playbook"))
  accepts_play version _ = false

module _ (files : Files) where
  Judged-directory :
      (s : Text) (o : Option Bool) (c : Checked)
      → Judged (is_directory o) c (
          appended
            (if is_error files (resolved_directory files s (files.expand s) o)
              then ok (record {
                warns = [];
                errs =
                    (text "directory '"
                      ++ (s ++ text "' does not exist or path is not a directory"))
                    ∷ [];
              })
              else ok no_complaint)
            c)
  unfolding resolved_directory
  Judged-directory s none c = rw (length_snoc c.errs _) (omega arith)
  Judged-directory s (some false) c = rw (length_snoc c.errs _) (omega arith)
  Judged-directory s (some true) c = (_, refl, append-nil c.errs)

  Judged-path :
      (v : Value) (c : Checked)
      → Judged (accepts_path files v) c (appended (vf_path_directory files v) c)
  unfolding vf_path_directory accepts_path resolve_directory as_string
  Judged-path (string s) c = elim (Bool-cases (contains s (text "${path.module}"))) [
    | inl h ↦ rw h (_, refl, append-nil c.errs)
    | inr h ↦ elim (Bool-cases (has_prefix s (text "galaxy_install:"))) [
      | inl h' ↦ rw (h, h') (_, refl, append-nil c.errs)
      | inr h' ↦ rw (h, h') (Judged-directory s (files.stat (files.expand s)) c)
    ]
  ]
  Judged-path null c = omega arith
  Judged-path (bool b) c = omega arith
  Judged-path (int n) c = omega arith
  Judged-path (slice vs) c = omega arith
  Judged-path (slice_of_maps vs) c = omega arith
  Judged-path (object fs) c = omega arith
  Judged-path (set t vs) c = omega arith
  Judged-path (other t) c = omega arith

  Judged-validate_paths :
      (paths : List Value) (c : Checked)
      → Judged (all_of (accepts_path files) paths) c (validate_paths files paths c)
  unfolding validate_paths
  Judged-validate_paths [] c = (c, refl, refl)
  Judged-validate_paths (p ∷ paths) c =
      Judged-and_then (accepts_path files p) (all_of (accepts_path files) paths) c _ _
        (Judged-path p c) λ d. Judged-validate_paths paths d

  Judged-accepts_roles :
      (o : Option Value) (c : Checked)
      → Judged (accepts_roles files o) c (validate_roles_path files (ok (slice_if (or_null o))) c)
  unfolding validate_roles_path accepts_roles slice_if
  Judged-accepts_roles none c = (c, refl, refl)
  Judged-accepts_roles (some (slice vs)) c = Judged-validate_paths (to_list vs) c
  Judged-accepts_roles (some null) c = (c, refl, refl)
  Judged-accepts_roles (some (bool b)) c = (c, refl, refl)
  Judged-accepts_roles (some (int n)) c = (c, refl, refl)
  Judged-accepts_roles (some (string s)) c = (c, refl, refl)
  Judged-accepts_roles (some (slice_of_maps vs)) c = (c, refl, refl)
  Judged-accepts_roles (some (object fs)) c = (c, refl, refl)
  Judged-accepts_roles (some (set t vs)) c = (c, refl, refl)
  Judged-accepts_roles (some (other t)) c = (c, refl, refl)

  Judged-accepts_first :
      (vs : Values) (c : Checked)
      → Judged (accepts_first files vs) c (
          validate_roles_path files
            (first_of (to_list vs) >>= λ first.
              as_map first >>= λ fs. ok (slice_if (index fs (text "roles_path"))))
            c)
  unfolding validate_roles_path accepts_first first_of as_map to_list index
  Judged-accepts_first nil c = omega arith
  Judged-accepts_first (cons (object fs) vs) c =
      Judged-accepts_roles (lookup fs (text "roles_path")) c
  Judged-accepts_first (cons null us) c = omega arith
  Judged-accepts_first (cons (bool b) us) c = omega arith
  Judged-accepts_first (cons (int n) us) c = omega arith
  Judged-accepts_first (cons (string s) us) c = omega arith
  Judged-accepts_first (cons (slice vs) us) c = omega arith
  Judged-accepts_first (cons (slice_of_maps vs) us) c = omega arith
  Judged-accepts_first (cons (set t vs) us) c = omega arith
  Judged-accepts_first (cons (other t) us) c = omega arith

  Judged-validate_playbook :
      (version : TerraformVersion) (o : Option Value) (c : Checked)
      → Judged (accepts_playbook files version o) c (validate_playbook files version o c)
  unfolding validate_playbook accepts_playbook playbook_roles_path validate_roles_path as_slice
      as_slice_of_maps
  Judged-validate_playbook version none c = (c, refl, refl)
  Judged-validate_playbook terraform012 (some (slice vs)) c = Judged-accepts_first vs c
  Judged-validate_playbook terraform011 (some (slice_of_maps vs)) c = Judged-accepts_first vs c
  Judged-validate_playbook terraform012 (some null) c = omega arith
  Judged-validate_playbook terraform012 (some (bool b)) c = omega arith
  Judged-validate_playbook terraform012 (some (int n)) c = omega arith
  Judged-validate_playbook terraform012 (some (string s)) c = omega arith
  Judged-validate_playbook terraform012 (some (slice_of_maps vs)) c = omega arith
  Judged-validate_playbook terraform012 (some (object fs)) c = omega arith
  Judged-validate_playbook terraform012 (some (set t vs)) c = omega arith
  Judged-validate_playbook terraform012 (some (other t)) c = omega arith
  Judged-validate_playbook terraform011 (some null) c = omega arith
  Judged-validate_playbook terraform011 (some (bool b)) c = omega arith
  Judged-validate_playbook terraform011 (some (int n)) c = omega arith
  Judged-validate_playbook terraform011 (some (string s)) c = omega arith
  Judged-validate_playbook terraform011 (some (slice vs)) c = omega arith
  Judged-validate_playbook terraform011 (some (object fs)) c = omega arith
  Judged-validate_playbook terraform011 (some (set t vs)) c = omega arith
  Judged-validate_playbook terraform011 (some (other t)) c = omega arith

  Judged-one_more : (c : Checked) (e : Text) → Judged false c (running (with_error c e))
  Judged-one_more c e = rw (length_snoc c.errs e) (omega arith)

  -- The tests of the keys find out whether exactly one is there.
  Judged-by_keys :
      (b1 b2 b3 kept : Bool) (c : Checked) (e1 e2 : Text) (r : Validating)
      → Judged kept c r
      → Judged (exactly_one b1 b2 b3 && kept) c (
          if has_more_than_one_true (b1 ∷ b2 ∷ b3 ∷ [])
          then running (with_error c e1)
          else if not b1 && (not b2 && not b3)
          then running (with_error c e2)
          else r)
  unfolding has_more_than_one_true more_than_one_loop
  Judged-by_keys true true true kept c e1 e2 r j = Judged-one_more c e1
  Judged-by_keys true true false kept c e1 e2 r j = Judged-one_more c e1
  Judged-by_keys true false true kept c e1 e2 r j = Judged-one_more c e1
  Judged-by_keys true false false kept c e1 e2 r j = j
  Judged-by_keys false true true kept c e1 e2 r j = Judged-one_more c e1
  Judged-by_keys false true false kept c e1 e2 r j = j
  Judged-by_keys false false true kept c e1 e2 r j = j
  Judged-by_keys false false false kept c e1 e2 r j = Judged-one_more c e2

  Judged-validate_play :
      (version : TerraformVersion) (v : Value) (c : Checked)
      → Judged (accepts_play files version v) c (validate_play files version v c)
  unfolding validate_play accepts_play validate_entity as_map
  Judged-validate_play version (object fs) c =
      Judged-by_keys (is_some (lookup fs (text "playbook"))) (is_some (lookup fs (text "module")))
        (is_some (lookup fs (text "galaxy_install")))
        (accepts_playbook files version (lookup fs (text "playbook"))) c
        (text "play can have only one of: galaxy_install, playbook or module")
        (text "galaxy_install, playbook or module must be set") _
        (Judged-validate_playbook version (lookup fs (text "playbook")) c)
  Judged-validate_play version null c = omega arith
  Judged-validate_play version (bool b) c = omega arith
  Judged-validate_play version (int n) c = omega arith
  Judged-validate_play version (string s) c = omega arith
  Judged-validate_play version (slice vs) c = omega arith
  Judged-validate_play version (slice_of_maps vs) c = omega arith
  Judged-validate_play version (set t vs) c = omega arith
  Judged-validate_play version (other t) c = omega arith

  errs-with_warning :
      (b : Bool) (c : Checked) (w : Text) → (if b then with_warning c w else c).errs ≡ c.errs
  errs-with_warning true c w = refl
  errs-with_warning false c w = refl

  Judged-validate_plays :
      (version : TerraformVersion) (vs : List Value) (c : Checked) (n : ℕ)
      → Judged (all_of (accepts_play files version) vs) c (validate_plays files version vs c n)
  unfolding validate_plays
  Judged-validate_plays version [] c n = (_, refl, errs-with_warning (n == 0) c _)
  Judged-validate_plays version (v ∷ vs) c n =
      Judged-and_then (accepts_play files version v) (all_of (accepts_play files version) vs) c _ _
        (Judged-validate_play version v c) λ d. Judged-validate_plays version vs d _

ne_nil_of_lt : (es : List Text) → 0 < length es → (es ≡ []) ↔ (false ≡ true)
ne_nil_of_lt [] h = absurd (omega arith)
ne_nil_of_lt (e ∷ es) h = ((λ e. cc), λ e. cc)

nil_of_Judged :
    (files : Files) (type_name : Value → Text) (reason : Text) (b : Bool) (r : Validating)
    → Judged b (record { warns = []; errs = [] }) r
    → ((recovered files type_name reason r).errs ≡ []) ↔ (b ≡ true)
unfolding recovered
nil_of_Judged files type_name reason true r (d, e, h) = rw (e, h) ((λ _. refl), λ _. refl)
nil_of_Judged files type_name reason false (running d) j = ne_nil_of_lt d.errs j
nil_of_Judged files type_name reason false (panicked d) j =
    ne_nil_of_lt _ (rw (length_snoc d.errs _) (omega arith))

module _ (files : Files) (type_name : Value → Text) (reason : Text) where
  -- The validation finds no error in a list of plays, in either form in which Terraform hands it
  -- over, exactly when each play is a map with one of the three entities whose roles paths, if it
  -- is a playbook that has some, are filled in later, installed by a play, or directories.
  pub validate_fn-accepts :
      (vs : Values)
      → (((validate_fn files type_name reason (some (slice vs))).errs ≡ [])
          ↔ (all_of (accepts_play files terraform012) (to_list vs) ≡ true))
        × (((validate_fn files type_name reason (some (slice_of_maps vs))).errs ≡ [])
            ↔ (all_of (accepts_play files terraform011) (to_list vs) ≡ true))
  unfolding validate_fn validate_value
  validate_fn-accepts vs = (
    nil_of_Judged files type_name reason _ _
        (Judged-validate_plays files terraform012 (to_list vs) _ 0),
    nil_of_Judged files type_name reason _ _
        (Judged-validate_plays files terraform011 (to_list vs) _ 0),
  )
