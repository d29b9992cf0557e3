-- ===== src/Mode/Remote/Run.antt =====
-- `installAnsible` and `Run` of mode/mode_remote.go.
use terraform_provisioner_an.Base.{
  ℕ, zero, suc, Bool, true, false, not, Option, none, some, List, [], ◌∷◌, ◌++◌, Text, text,
  is_empty, if◌then◌else◌,
}
use terraform_provisioner_an.Base.Int.{pos}
use terraform_provisioner_an.Base.Outcome.{Outcome, ok, err, panic}
use terraform_provisioner_an.Go.Path.{clean, dir}
use terraform_provisioner_an.Types.RemoteSettings.{
  RemoteSettings, bootstrap_directory_of, remote_installer_path,
}
use terraform_provisioner_an.Types.Play.{Play}
use terraform_provisioner_an.Command.Arguments.{LocalModeAnsibleArgs, Runtime}
use terraform_provisioner_an.Command.Build.{to_command}
use terraform_provisioner_an.Mode.Remote.{
  Remote, Session, Action, disconnected, pure, lift, ◌>>=◌, ◌>>◌, logged, upload_script,
}
use terraform_provisioner_an.Mode.Remote.Commands.{
  mkdir_command, remove_command, install_command, run_command_sudo, run_command_no_sudo,
}
use terraform_provisioner_an.Mode.Remote.Installer.{installer_program}
use terraform_provisioner_an.Mode.Remote.Deploy.{deploy_ansible_data}

-- What follows an attempt to connect, by its error and whether the time is over.
abbrev pub after_attempt :
    Option Text → Bool → Option (Outcome (Unit {0})) → Option (Outcome (Unit {0}))
after_attempt none over rest = some (ok tt)
after_attempt (some e) true rest = some (err e)
after_attempt (some e) false rest = rest

module _ (remote : Remote) where
  -- The loop of `retryFunc`, from attempt `k` on; `none` means that the fuel ran out.
  unfoldable pub retry_func : ℕ → ℕ → Option (Outcome (Unit {0}))
  retry_func zero k = none
  retry_func (suc fuel) k =
      after_attempt (remote.connect k) (remote.is_over k) (retry_func fuel (suc k))

module _ (remote : Remote) (v : RemoteSettings) where
  unfoldable pub ansible_version : Text
  ansible_version =
      if not (is_empty v.install_version)
      then text "ansible" ++ (text "==" ++ v.install_version)
      else text "ansible"

  unfoldable pub installer_script : Outcome Text
  installer_script =
      if not (is_empty v.local_installer_path)
      then remote.read_file (clean v.local_installer_path)
      else ok (installer_program ansible_version)

  unfoldable pub install_ansible : Action (Unit {0})
  install_ansible = do
    script ← lift installer_script
    run_command_no_sudo remote v (mkdir_command (dir (remote_installer_path v)))
    upload_script remote (remote_installer_path v) script
    run_command_sudo remote v (install_command (remote_installer_path v))

  -- The errors of the clean-up are dropped.
  unfoldable pub cleanup_after_bootstrap : Action (Unit {0})
  cleanup_after_bootstrap s =
      (ok tt, (run_command_no_sudo remote v (remove_command (bootstrap_directory_of v)) s).1)

-- `types.LocalModeAnsibleArgs{Username: v.connInfo.User}`
abbrev pub remote_args : Text → LocalModeAnsibleArgs
remote_args user = record {
  username = user;
  port = pos 0;
  pem_file = [];
  known_hosts_file = [];
  bastion_known_hosts_file = [];
  bastion_username = [];
  bastion_host = [];
  bastion_port = pos 0;
  bastion_pem_file = [];
}

module _ (rt : Runtime) (remote : Remote) (v : RemoteSettings) (user : Text) where
  unfoldable pub run_play : Play → Action (Unit {0})
  run_play play = do
    command ← lift (to_command rt play (remote_args user))
    run_command_sudo remote v command

  unfoldable pub run_plays : List Play → Action (Unit {0})
  run_plays [] = pure tt
  run_plays (play ∷ plays) = do run_play play; run_plays plays

  -- `Run` from the connection on, before the deferred call.
  unfoldable pub provision : List Play → Action (Unit {0})
  provision plays = do
    plays ← deploy_ansible_data remote v plays
    if not v.skip_install then install_ansible remote v else pure tt
    run_plays plays
    if not v.skip_cleanup then cleanup_after_bootstrap remote v else pure tt

  abbrev pub disconnecting : Outcome (Unit {0}) × Session → Outcome (Unit {0}) × Session
  disconnecting (o, s) = (o, logged disconnected s)

  abbrev pub connected : Option (Outcome (Unit {0})) → List Play → Action (Unit {0})
  connected (some (ok _)) plays s = disconnecting (provision plays s)
  connected (some o) plays s = (o, s)
  connected none plays s = (panic, s)

  -- With fuel for the attempts to connect.
  unfoldable pub run : ℕ → List Play → Action (Unit {0})
  run fuel plays = connected (retry_func remote fuel 0) plays
