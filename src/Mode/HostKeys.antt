-- ===== src/Mode/HostKeys.antt =====
-- What `Run` of mode/mode_local.go does before its loop over the plays: the checks for a
-- null_resource, and the host keys of the bastion host and of the target.
pub mod Fetched
pub mod Known
pub mod Tests
use terraform_provisioner_an.Base.{
  ℕ, zero, suc, Bool, true, false, not, ◌&&◌, Option, none, some, List, [], ◌∷◌, ◌++◌, Text, text,
  is_empty, if◌then◌else◌,
}
use terraform_provisioner_an.Base.Outcome.{Outcome, ok, err, panic, ◌>>=◌}
use terraform_provisioner_an.Types.AnsibleSshSettings.{
  AnsibleSshSettings, insecure_no_strict_host_key_checking_of,
  set_override_strict_host_key_checking,
}
use terraform_provisioner_an.Types.Play.{Play}
use terraform_provisioner_an.Types.Play.Settings.{hosts_of, inventory_file_of}
use terraform_provisioner_an.Mode.ConnectionInfo.{ConnectionInfo}
use terraform_provisioner_an.Mode.Retry.{Answer, arrived, gave_up, retries, retry_loop}

unfoldable pub compute_resource : ConnectionInfo → Bool
compute_resource v = not (is_empty v.host)

-- The loop over the plays of a null_resource.
unfoldable pub check_plays : List Play → Outcome (Unit {0})
check_plays [] = ok tt
check_plays (play ∷ plays) =
    let rest = check_plays plays in
    if is_empty (hosts_of play) && is_empty (inventory_file_of play)
    then err (
        text
          "Hosts or Inventory file must be specified on each plays attribute when using null_resource")
    else rest

unfoldable pub checked_settings :
    ConnectionInfo → List Play → AnsibleSshSettings → Outcome AnsibleSshSettings
checked_settings v plays settings =
    if not (compute_resource v)
    then (do _ ← check_plays plays; ok (set_override_strict_host_key_checking settings))
    else ok settings

-- The settings that the plays are run with, and the known hosts.
pub record Decided : Type 0 where
  pub settings : AnsibleSshSettings
  pub target : List Text
  pub bastion : List Text

-- The network: a connection to the bastion host, with the key that it presents; a key scan on it,
-- with its output; and the attempts to connect to the target: how each ends, and the key that the
-- target presents, which may arrive although the attempt fails.
pub record Network : Type 0 where
  pub connect : Outcome Text
  pub scan : Outcome Text
  pub dial : ℕ → Outcome (Unit {0}) × Text

-- The callback of `sshConfig` keeps the key that a host presents if none was given.
abbrev pub received : Text → Text → Text
received given presented = if is_empty given then presented else given

abbrev pub known_host : Text → Text → Text
known_host host key = host ++ (text " " ++ key)

-- The error of `fetchHostKey`, whose deferred function makes of a panic a result without an error.
abbrev pub dial_error : Outcome (Unit {0}) → Option Text
dial_error (err e) = some e
dial_error _ = none

module _ (network : Network) where
  -- The target's key after some attempts: the first that it presented, if none was given.
  unfoldable pub key_after : ℕ → Text → Text
  key_after zero given = given
  key_after (suc k) given = received (key_after k given) (network.dial k).1

  abbrev pub key_or_error : Text → Text → Outcome Text
  key_or_error host key =
      if is_empty key
      then err (
          text "expected to receive the host key for '"
          ++ (host ++ text "', but no host key arrived"))
      else ok key

  -- There is always an answer.
  abbrev pub key_of : ConnectionInfo → Option Answer → Outcome Text
  key_of v none = panic
  key_of v (some (gave_up k e)) = err e
  key_of v (some (arrived k)) = key_or_error v.host (key_after (suc k) v.host_key)

  -- The loop runs with one round more than there are retries.
  unfoldable pub fetched_key : ConnectionInfo → AnsibleSshSettings → Outcome Text
  fetched_key v settings = key_of v (
      retry_loop (suc (retries settings.ssh_keyscan_seconds)) (λ k. dial_error (network.dial k).0)
        settings.ssh_keyscan_seconds 0 0)

  unfoldable pub scanned_hosts : ConnectionInfo → Outcome (List Text)
  scanned_hosts v =
      if is_empty v.host_key
      then (do lines ← network.scan; ok (lines ∷ []))
      else ok (known_host v.host v.host_key ∷ [])

  unfoldable pub bastion_target_hosts : ConnectionInfo → AnsibleSshSettings → Outcome (List Text)
  bastion_target_hosts v settings =
      if not (insecure_no_strict_host_key_checking_of settings)
      then if is_empty settings.user_known_hosts_file then scanned_hosts v else ok []
      else ok []

  unfoldable pub fetched_hosts : ConnectionInfo → AnsibleSshSettings → Outcome (List Text)
  fetched_hosts v settings =
      if is_empty v.host_key
      then (do key ← fetched_key v settings; ok (known_host v.host key ∷ []))
      else ok (known_host v.host v.host_key ∷ [])

  unfoldable pub direct_target_hosts : ConnectionInfo → AnsibleSshSettings → Outcome (List Text)
  direct_target_hosts v settings =
      if not (insecure_no_strict_host_key_checking_of settings)
      then if compute_resource v
        then if is_empty settings.user_known_hosts_file then fetched_hosts v settings else ok []
        else ok []
      else ok []

  -- The known hosts of the target, then those of the bastion host.
  unfoldable pub known_hosts : ConnectionInfo → AnsibleSshSettings → Outcome (List Text × List Text)
  known_hosts v settings =
      if not (is_empty v.bastion_host)
      then (do
        key ← network.connect
        target ← bastion_target_hosts v settings
        ok (target, known_host v.bastion_host (received v.bastion_host_key key) ∷ []))
      else (do target ← direct_target_hosts v settings; ok (target, []))

  unfoldable pub host_keys : ConnectionInfo → List Play → AnsibleSshSettings → Outcome Decided
  host_keys v plays given = do
    settings ← checked_settings v plays given
    (target, bastion) ← known_hosts v settings
    ok (record { settings = settings; target = target; bastion = bastion })
