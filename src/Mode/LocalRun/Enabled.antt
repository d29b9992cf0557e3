-- ===== src/Mode/LocalRun/Enabled.antt =====
-- Plays that are not enabled, in `Run` of mode/mode_local.go.
use terraform_provisioner_an.Base.{
  ◌≡◌, refl, ◌⊎◌, inl, inr, ℕ, Bool, true, false, ◌&&◌, Bool-cases, List, [], ◌∷◌, Text, text,
  is_empty,
}
use terraform_provisioner_an.Base.Outcome.{Outcome, ok, err, panic}
use terraform_provisioner_an.Types.AnsibleSshSettings.{AnsibleSshSettings}
use terraform_provisioner_an.Types.Play.{Play}
use terraform_provisioner_an.Types.Play.Settings.{hosts_of, inventory_file_of}
use terraform_provisioner_an.Command.Arguments.{Runtime}
use terraform_provisioner_an.Mode.ConnectionInfo.{ConnectionInfo}
use terraform_provisioner_an.Mode.HostKeys.{
  Network, compute_resource, check_plays, checked_settings, known_hosts,
}
use terraform_provisioner_an.Mode.LocalPlays.{Machine, ended}
use terraform_provisioner_an.Mode.LocalPlays.Cleanup.{enabled_plays, run_plays-enabled}
use terraform_provisioner_an.Mode.LocalRun.{
  with_file, write_known_hosts, with_pem, local_mode_args, with_known_hosts, with_settings,
  local_run,
}

-- A play that is not enabled has neither hosts nor an inventory file.
pub data HasBlocked : List Play → Type 0 where
  blocked_here :
      {play : Play} {plays : List Play}
      → play.enabled ≡ false
      → is_empty (hosts_of play) ≡ true
      → is_empty (inventory_file_of play) ≡ true
      → HasBlocked (play ∷ plays)
  blocked_later : {play : Play} {plays : List Play} → HasBlocked plays → HasBlocked (play ∷ plays)

abbrev pub no_hosts : Text
no_hosts =
    text
      "Hosts or Inventory file must be specified on each plays attribute when using null_resource"

abbrev lacks_hosts : Play → Bool
lacks_hosts play = is_empty (hosts_of play) && is_empty (inventory_file_of play)

both_true : {a b : Bool} → (a && b) ≡ true → (a ≡ true) × (b ≡ true)
both_true {a = true} {b = true} h = (refl, refl)
both_true {a = true} {b = false} h = absurd (cc)
both_true {a = false} h = absurd (cc)

-- The checks of all plays and of the enabled ones come to the same, or a play that is not enabled
-- makes the first fail.
abbrev CheckedAlike : List Play → Type 0
CheckedAlike plays =
    (check_plays plays ≡ check_plays (enabled_plays plays))
    ⊎ (HasBlocked plays × (check_plays plays ≡ err no_hosts))

CheckedAlike-good :
    (play : Play) (plays : List Play)
    → lacks_hosts play ≡ false
    → CheckedAlike plays
    → CheckedAlike (play ∷ plays)
unfolding check_plays hosts_of inventory_file_of text
CheckedAlike-good play plays good (inr (b, e)) = inr (blocked_later b, rw good e)
CheckedAlike-good play plays good (inl e) = elim (Bool-cases play.enabled) [
  | inl enabled ↦ inl (rw (good, enabled, good) e)
  | inr disabled ↦ inl (rw (good, disabled) e)
]

check_plays-CheckedAlike : (plays : List Play) → CheckedAlike plays
unfolding check_plays text hosts_of inventory_file_of
check_plays-CheckedAlike [] = inl refl
check_plays-CheckedAlike (play ∷ plays) = elim (Bool-cases (lacks_hosts play)) [
  | inr good ↦ CheckedAlike-good play plays good (check_plays-CheckedAlike plays)
  | inl bad ↦ elim (Bool-cases play.enabled) [
    | inl enabled ↦ inl (rw (bad, enabled, bad) refl)
    | inr disabled ↦
        let (hosts, inventory) = both_true bad in
        inr (blocked_here disabled hosts inventory, rw bad refl)
  ]
]

module _ (rt : Runtime) (machine : Machine) (network : Network) (v : ConnectionInfo)
    (plays : List Play) where
  with_known_hosts-enabled :
      (settings : AnsibleSshSettings) (bastion target : Text) (o : Outcome (List Text × List Text))
      (k : ℕ)
      → with_known_hosts rt machine network v plays settings bastion target o k
        ≡ with_known_hosts rt machine network v (enabled_plays plays) settings bastion target o k
  with_known_hosts-enabled settings bastion target (ok (ts, bs)) k = λ i.
      with_file (write_known_hosts machine k bs) k λ bastion_file k.
        with_file (write_known_hosts machine k ts) k λ target_file k.
          run_plays-enabled rt machine v.host
            (local_mode_args v target target_file bastion bastion_file) settings plays k i
  with_known_hosts-enabled settings bastion target (err e) k = refl
  with_known_hosts-enabled settings bastion target panic k = refl

  with_settings-enabled :
      (o : Outcome AnsibleSshSettings)
      → with_settings rt machine network v plays o
        ≡ with_settings rt machine network v (enabled_plays plays) o
  with_settings-enabled (ok settings) = λ i. with_pem machine v v.bastion_private_key 0 λ bastion k.
      with_pem machine v v.private_key k λ target k.
        with_known_hosts-enabled settings bastion target (known_hosts network v settings) k i
  with_settings-enabled (err e) = refl
  with_settings-enabled panic = refl

  -- A play that is not enabled has no effect on a run of local mode: the run, with its result and its
  -- trace, is that of the enabled plays in their order; unless the run is for a null_resource, and a
  -- play that is not enabled has neither hosts nor an inventory file, when it is refused with the
  -- error about these before anything is done.
  pub local_run-enabled :
      (settings : AnsibleSshSettings)
      → (local_run rt machine network v plays settings
          ≡ local_run rt machine network v (enabled_plays plays) settings)
        ⊎ ((is_empty v.host ≡ true)
            × HasBlocked plays
            × (local_run rt machine network v plays settings ≡ ended (err no_hosts) [] [] 0))
  unfolding local_run checked_settings compute_resource
  local_run-enabled settings = elim (Bool-cases (is_empty v.host)) [
    | inr host ↦ inl (rw host (with_settings-enabled (ok settings)))
    | inl null_resource ↦ elim (check_plays-CheckedAlike plays) [
      | inl same ↦ inl (rw (null_resource, same) (with_settings-enabled _))
      | inr (blocked, e) ↦ inr (null_resource, blocked, rw (null_resource, e) refl)
    ]
  ]
