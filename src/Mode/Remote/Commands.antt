-- ===== src/Mode/Remote/Commands.antt =====
-- The commands that mode/mode_remote.go runs for itself, and `runCommand`.
use terraform_provisioner_an.Base.{
  Bool, true, false, ◌&&◌, ◌++◌, Text, text, contains, if◌then◌else◌,
}
use terraform_provisioner_an.Base.Int.{show}
use terraform_provisioner_an.Base.Outcome.{Outcome, ok, err, panic}
use terraform_provisioner_an.Types.RemoteSettings.{RemoteSettings}
use terraform_provisioner_an.Mode.Remote.{
  Exit, refused, exited, lost, done, ran, Remote, Action, logged,
}

-- fmt.Sprintf("mkdir -p \"%s\"", dir), and so on.
unfoldable pub mkdir_command : Text → Text
mkdir_command dir = text "mkdir -p \"" ++ (dir ++ text "\"")

unfoldable pub remove_command : Text → Text
remove_command dir = text "rm -rf \"" ++ (dir ++ text "\"")

unfoldable pub check_command : Text → Text
check_command dir = text "/bin/sh -c 'if [ -d \"" ++ (dir ++ text "\" ]; then exit 50; fi'")

unfoldable pub install_command : Text → Text
install_command path =
    text "/bin/sh -c '\"" ++ (path ++ (text "\" && rm \"" ++ (path ++ text "\"'")))

-- The exit status 50 is found by its place in the error's text.
unfoldable pub found : Outcome (Unit {0}) → Outcome Bool
found (ok _) = ok false
found (err e) = if contains e (text "exited with non-zero exit status: 50,") then ok true else err e
found panic = panic

unfoldable pub with_sudo : RemoteSettings → Text → Bool → Text
with_sudo v command should_sudo =
    if should_sudo && v.use_sudo then text "sudo " ++ command else command

module _ (remote : Remote) where
  -- The errors of `runCommand`.
  unfoldable pub ended : Text → Exit → Outcome (Unit {0})
  ended command done = ok tt
  ended command (refused e) =
      err (text "Error executing command " ++ (remote.quoted command ++ (text ": " ++ e)))
  ended command (exited status reason) = err (
      text "Command '"
      ++ (remote.quoted command
          ++ (text "' exited with non-zero exit status: "
              ++ (show status ++ (text ", reason " ++ reason)))))
  ended command (lost e) =
      err (text "Command '" ++ (remote.quoted command ++ (text "' failed, reason: " ++ e)))

  abbrev run_now : Text → Action (Unit {0})
  run_now command s =
      let reply = remote.start s.history command in
      (ended command reply, logged (ran command reply) s)

  unfoldable pub run_command : RemoteSettings → Text → Bool → Action (Unit {0})
  run_command v command should_sudo = run_now (with_sudo v command should_sudo)

  unfoldable pub run_command_sudo : RemoteSettings → Text → Action (Unit {0})
  run_command_sudo v command = run_command v command true

  unfoldable pub run_command_no_sudo : RemoteSettings → Text → Action (Unit {0})
  run_command_no_sudo v command = run_command v command false

  unfoldable pub check_remote_dir_exists : RemoteSettings → Text → Action Bool
  check_remote_dir_exists v remote_dir s =
      let (o, s') = run_command_no_sudo v (check_command remote_dir) s in (found o, s')
