-- ===== src/Command/Spelling.antt =====
-- Lemmas on how a shell reads the parts of the commands of types/play.go.
use terraform_provisioner_an.Base.{
  ◌≡◌, ◌≢◌, refl, Bool, true, false, not, List, [], ◌∷◌, ◌++◌, map, append_assoc, Text, text,
  is_empty, All, Bool-cases, inl, inr, if◌then◌else◌,
}
use mathlib.Core.Path.{subst}
use terraform_provisioner_an.Base.Outcome.{ok}
use terraform_provisioner_an.Go.Path.{clean}
use terraform_provisioner_an.Shell.{HasNoQuote}
use terraform_provisioner_an.Shell.Spells.{
  Spells, Spells-append, Spells-of_IsChunk, IsChunk-plain, InSingle-plain,
}
use terraform_provisioner_an.Shell.Plain.{all_plain, IsPlain-of_all_plain}
use terraform_provisioner_an.Shellescape.{safe, new_single_quote_escape}
use terraform_provisioner_an.Shellescape.Value.{value}
use terraform_provisioner_an.Shellescape.Quoting.{InSingle-safe}
use terraform_provisioner_an.Types.GalaxyInstall.{GalaxyInstall}
use terraform_provisioner_an.Types.Defaults.{has_no_entry}
use terraform_provisioner_an.Types.Play.{Play}
use terraform_provisioner_an.Types.Play.Settings.{
  become_method_of, become_user_of, extra_vars_of, forks_of, limit_of, vault_id_of,
}
use terraform_provisioner_an.Command.Pieces.{option}
use terraform_provisioner_an.Command.Arguments.{
  LocalModeAnsibleArgs, Runtime, vault_id_arguments, become_arguments, vault_arguments,
  extra_vars_argument, append_shared_arguments,
}
use terraform_provisioner_an.Command.Entities.{galaxy_install_command}
use terraform_provisioner_an.Command.Reading.{
  option_word, when, Spells-same, Spells-flag, Spells-option, Spells-flag_if, Spells-option_if,
  Spells-number_if,
}
use terraform_provisioner_an.Command.Argv.{
  become_words, vault_words, shared_words, IsQuotable, galaxy_install_words,
  IsReadableGalaxyInstall,
}

pub Spells-eq : {t : Text} {ws vs : List Text} → Spells t ws → ws ≡ vs → Spells t vs
Spells-eq {t} h e = subst (Spells t) e h

pub Spells-plain : (t : Text) → t ≢ [] → all_plain t ≡ true → Spells t (t ∷ [])
Spells-plain t ne h = Spells-of_IsChunk (IsChunk-plain t ne (IsPlain-of_all_plain t h))

pub Spells-ansible_galaxy :
    Spells (text "ansible-galaxy install") (text "ansible-galaxy" ∷ text "install" ∷ [])
unfolding text all_plain
Spells-ansible_galaxy =
    Spells-append (Spells-plain (text "ansible-galaxy") (cc) refl)
      (Spells-plain (text "install") (cc) refl)

module _ {c : Text} {ws : List Text} (spelt : Spells c ws) where
  pub Spells-galaxy_install_command :
      (g : GalaxyInstall)
      → IsReadableGalaxyInstall g
      → Spells (galaxy_install_command g c) (ws ++ galaxy_install_words g)
  unfolding galaxy_install_command galaxy_install_words
  Spells-galaxy_install_command g r =
      let s0 =
        Spells-option (Spells-append spelt Spells-ansible_galaxy) (text "role-file")
          (unfold text all_plain in refl) _ _ (InSingle-plain _ r.role_file) in
      let s1 = Spells-flag_if s0 (text "force") (unfold text all_plain in refl) g.force in
      let s2 =
        Spells-flag_if s1 (text "ignore-certs") (unfold text all_plain in refl) g.ignore_certs in
      let s3 =
        Spells-flag_if s2 (text "ignore-errors") (unfold text all_plain in refl) g.ignore_errors in
      let s4 =
        Spells-flag_if s3 (text "keep-scm-meta") (unfold text all_plain in refl) g.keep_scm_meta in
      let s5 = Spells-flag_if s4 (text "no-deps") (unfold text all_plain in refl) g.no_deps in
      let s6 = Spells-flag_if s5 (text "verbose") (unfold text all_plain in refl) g.verbose in
      let s7 =
        Spells-option_if s6 (text "roles-path") (unfold text all_plain in refl) g.roles_path
          r.roles_path in
      let s8 =
        Spells-option_if s7 (text "server") (unfold text all_plain in refl) g.server r.server in
      Spells-eq s8 (simp append_assoc)

pub Spells-if :
    {c c' : Text} {ws : List Text} (us : List Text) (b : Bool)
    → Spells c ws
    → Spells c' (ws ++ us)
    → Spells (if b then c' else c) (ws ++ (if b then us else []))
Spells-if us true h k = k
Spells-if us false h k = Spells-same h

module _ (v : Play) (username : Text) (q : IsQuotable v username) where
  pub Spells-become_arguments :
      {c : Text} {ws : List Text}
      → Spells c ws
      → Spells (become_arguments v username c) (ws ++ become_words v username)
  unfolding become_arguments become_words
  Spells-become_arguments spelt = Spells-if _ v.become spelt (
      Spells-eq
        (Spells-option
          (Spells-option (Spells-flag spelt (text "become") (unfold text all_plain in refl))
            (text "become-method") (unfold text all_plain in refl) (become_method_of v)
            (become_method_of v) (InSingle-plain _ q.become_method))
          (text "become-user") (unfold text all_plain in refl) _ _ (InSingle-plain _ user))
        (simp append_assoc))
    where
      user : HasNoQuote (if not (is_empty (become_user_of v)) then become_user_of v else username)
      user = elim (Bool-cases (is_empty (become_user_of v))) [
        | inl none_given ↦ rw none_given q.user
        | inr given ↦ rw given q.become_user
      ]

pub Spells-vault_id_arguments :
    (paths : List Text) {c : Text} {ws : List Text}
    → Spells c ws
    → All (λ path. HasNoQuote (clean path)) paths
    → Spells
        (vault_id_arguments c paths)
        (ws ++ map (λ path. option_word (text "vault-id") (clean path)) paths)
unfolding vault_id_arguments
Spells-vault_id_arguments [] spelt h = Spells-same spelt
Spells-vault_id_arguments (path ∷ paths) {c} {ws} spelt (h, hs) =
    Spells-eq
      (Spells-vault_id_arguments paths
        (Spells-option spelt (text "vault-id") (unfold text all_plain in refl) (clean path)
          (clean path) (InSingle-plain _ h))
        hs)
      (append_assoc ws _ _)

module _ {c : Text} {ws : List Text} (spelt : Spells c ws) (v : Play) where
  pub Spells-vault_arguments :
      {username : Text} → IsQuotable v username → Spells (vault_arguments v c) (ws ++ vault_words v)
  unfolding vault_arguments vault_words
  Spells-vault_arguments q = elim (Bool-cases (is_empty (vault_id_of v))) [
    | inl no_id ↦ rw no_id (
        Spells-option_if spelt (text "vault-password-file") (unfold text all_plain in refl) _
          q.vault_password_file)
    | inr id ↦ rw id (Spells-vault_id_arguments (vault_id_of v) spelt q.vault_id)
  ]

  -- If there are extra variables, their JSON is what `json.Marshal` gives.
  pub Spells-extra_vars_argument :
      (rt : Runtime) (json : Text)
      → (has_no_entry (extra_vars_of v) ≡ false → rt.marshal (extra_vars_of v) ≡ ok json)
      → (c' : Text) × (extra_vars_argument rt v c ≡ ok c')
        × Spells c' (
            ws
            ++ when
                (not (has_no_entry (extra_vars_of v)))
                (option_word (text "extra-vars") (value 39 json)))
  unfolding extra_vars_argument
  Spells-extra_vars_argument rt json h = elim (Bool-cases (has_no_entry (extra_vars_of v))) [
    | inl no_vars ↦ (c, rw no_vars, rw no_vars (Spells-same spelt))
    | inr vars ↦ (
      option c (text "extra-vars") (safe (new_single_quote_escape json)),
      rw (vars, h vars),
      rw vars (
          Spells-option spelt (text "extra-vars") (unfold text all_plain in refl) _ _
            (InSingle-safe json)),
    )
  ]

module _ {c : Text} {ws : List Text} (spelt : Spells c ws) (v : Play) where
  pub Spells-append_shared_arguments :
      (rt : Runtime) (args : LocalModeAnsibleArgs) (json : Text)
      → IsQuotable v args.username
      → (has_no_entry (extra_vars_of v) ≡ false → rt.marshal (extra_vars_of v) ≡ ok json)
      → (c' : Text) × (append_shared_arguments rt v c args ≡ ok c')
        × Spells c' (ws ++ shared_words v args.username json)
  unfolding append_shared_arguments shared_words
  Spells-append_shared_arguments rt args json q h =
      let s0 =
        Spells-option spelt (text "inventory-file") (unfold text all_plain in refl) _ _
          (InSingle-plain _ q.inventory_file) in
      let s1 = Spells-become_arguments v args.username q s0 in
      let s2 = Spells-flag_if s1 (text "diff") (unfold text all_plain in refl) v.diff in
      let s3 = Spells-flag_if s2 (text "check") (unfold text all_plain in refl) v.check in
      let (c4, e, s4) = Spells-extra_vars_argument s3 v rt json h in
      let s5 = Spells-number_if s4 (text "forks") (unfold text all_plain in refl) (forks_of v) in
      let s6 =
        Spells-option_if s5 (text "limit") (unfold text all_plain in refl) (limit_of v) q.limit in
      let s7 = Spells-vault_arguments s6 v q in
      let s8 = Spells-flag_if s7 (text "verbose") (unfold text all_plain in refl) v.verbose in
      (_, rw e refl, Spells-eq s8 (simp append_assoc))
