-- ===== src/Mode/LocalRun.antt =====
-- `Run` of mode/mode_local.go as a whole, with `writeKnownHosts` and `writePem`. The connection to the
-- bastion host, which a deferred call closes, leaves no trace here.
pub mod Enabled
pub mod Files
pub mod Stages
mod Tests
use mathlib.Core.List.{reverse}
use terraform_provisioner_an.Base.{
  ℕ, suc, Bool, not, List, [], ◌∷◌, ◌++◌, map, Text, text, join, trim_space, is_empty,
  if◌then◌else◌,
}
use terraform_provisioner_an.Base.Outcome.{Outcome, ok, err, panic}
use terraform_provisioner_an.Types.AnsibleSshSettings.{AnsibleSshSettings}
use terraform_provisioner_an.Types.Play.{Play}
use terraform_provisioner_an.Command.Arguments.{LocalModeAnsibleArgs, Runtime}
use terraform_provisioner_an.Mode.ConnectionInfo.{ConnectionInfo}
use terraform_provisioner_an.Mode.HostKeys.{Network, checked_settings, known_hosts}
use terraform_provisioner_an.Mode.LocalPlays.{
  Effect, made_file, wrote, unwritten, removed, Ended, Machine, ended, after, NewFile, given,
  created, failed, in_file, run_plays,
}

-- The text of a known hosts file.
unfoldable pub known_hosts_file_contents : List Text → Text
known_hosts_file_contents known_hosts = join (map trim_space known_hosts) (text "\n") ++ text "\n"

-- What comes after a file is named, and its removal is deferred.
unfoldable pub with_file : NewFile → ℕ → (Text → ℕ → Ended) → Ended
with_file (given name) k rest = after (ended (ok tt) [] (name ∷ []) k) (rest name k)
with_file (created name contents) k rest =
    after (ended (ok tt) (made_file name ∷ wrote name contents ∷ []) (name ∷ []) (suc k))
      (rest name (suc k))
with_file (unwritten name o) k rest = ended o (made_file name ∷ []) [] (suc k)
with_file (failed o) k rest = ended o [] [] k

-- The arguments of `ToLocalCommand`: the target's key file and known hosts file, then the bastion's.
abbrev pub local_mode_args : ConnectionInfo → Text → Text → Text → Text → LocalModeAnsibleArgs
local_mode_args v target_pem_file known_hosts_file_target bastion_pem_file
      known_hosts_file_bastion =
    record {
      username = v.user;
      port = v.port;
      pem_file = target_pem_file;
      known_hosts_file = known_hosts_file_target;
      bastion_known_hosts_file = known_hosts_file_bastion;
      bastion_username = v.bastion_user;
      bastion_host = v.bastion_host;
      bastion_port = v.bastion_port;
      bastion_pem_file = bastion_pem_file;
    }

module _ (machine : Machine) where
  unfoldable pub write_known_hosts : ℕ → List Text → NewFile
  write_known_hosts k known_hosts =
      in_file machine (known_hosts_file_contents known_hosts) (machine.temp_file k)

  -- The key that is tested is always the target's.
  unfoldable pub write_pem : ConnectionInfo → ℕ → Text → NewFile
  write_pem v k pk =
      if not (is_empty v.private_key) then in_file machine pk (machine.temp_file k) else given []

  unfoldable pub with_pem : ConnectionInfo → Text → ℕ → (Text → ℕ → Ended) → Ended
  with_pem v key k rest =
      if not (is_empty key) then with_file (write_pem v k key) k rest else rest [] k

module _ (rt : Runtime) (machine : Machine) (network : Network) (v : ConnectionInfo)
    (plays : List Play) where
  -- From the known hosts of the target and of the bastion host on.
  abbrev pub with_known_hosts :
      AnsibleSshSettings → Text → Text → Outcome (List Text × List Text) → ℕ → Ended
  with_known_hosts settings bastion_pem_file target_pem_file (ok (target, bastion)) k =
      with_file (write_known_hosts machine k bastion) k λ known_hosts_file_bastion k.
        with_file (write_known_hosts machine k target) k λ known_hosts_file_target k.
          run_plays rt machine v.host
            (local_mode_args v target_pem_file known_hosts_file_target bastion_pem_file
              known_hosts_file_bastion)
            settings k plays
  with_known_hosts settings bastion_pem_file target_pem_file (err e) k = ended (err e) [] [] k
  with_known_hosts settings bastion_pem_file target_pem_file panic k = ended panic [] [] k

  abbrev pub with_settings : Outcome AnsibleSshSettings → Ended
  with_settings (ok settings) = with_pem machine v v.bastion_private_key 0 λ bastion_pem_file k.
      with_pem machine v v.private_key k λ target_pem_file k.
        with_known_hosts settings bastion_pem_file target_pem_file (known_hosts network v settings)
          k
  with_settings (err e) = ended (err e) [] [] 0
  with_settings panic = ended panic [] [] 0

  unfoldable pub local_run : AnsibleSshSettings → Ended
  local_run settings = with_settings (checked_settings v plays settings)

  -- Deferred calls are made last in, first out, whether the run ended with an error or not.
  unfoldable pub local_trace : AnsibleSshSettings → List Effect
  local_trace settings =
      (local_run settings).trace ++ map removed (reverse (local_run settings).deferred)
