-- ===== src/Command/Ssh.antt =====
-- `toCommandArguments` of types/play.go: how Ansible connects from the local machine.
use terraform_provisioner_an.Base.{
  not, ◌&&◌, ◌||◌, Option, none, some, List, [], ◌∷◌, ◌++◌, Text, text, join, is_empty,
  if◌then◌else◌,
}
use terraform_provisioner_an.Base.Int.{show}
use terraform_provisioner_an.Types.AnsibleSshSettings.{
  AnsibleSshSettings, insecure_no_strict_host_key_checking_of,
}
use terraform_provisioner_an.Types.Play.{Play}
use terraform_provisioner_an.Types.Play.Settings.{inventory_file_of}
use terraform_provisioner_an.Command.Pieces.{option}
use terraform_provisioner_an.Command.Arguments.{LocalModeAnsibleArgs, Runtime, option_if}

-- The elements of the slice `sshExtraAgrsOptions`.
unfoldable pub host_key_option : Play → LocalModeAnsibleArgs → AnsibleSshSettings → Text
host_key_option v args settings =
    if insecure_no_strict_host_key_checking_of settings || not (is_empty (inventory_file_of v))
    then text "-o StrictHostKeyChecking=no"
    else if not (is_empty settings.user_known_hosts_file)
    then text "-o UserKnownHostsFile=" ++ settings.user_known_hosts_file
    else text "-o UserKnownHostsFile=" ++ args.known_hosts_file

unfoldable pub proxy_command : LocalModeAnsibleArgs → AnsibleSshSettings → Text
proxy_command args settings =
    let proxy_command = text "-o ProxyCommand=\"ssh" in
    let proxy_command = proxy_command ++ (text " -p " ++ show args.bastion_port) in
    let proxy_command =
      proxy_command
      ++ (text " -W %h:%p " ++ (args.bastion_username ++ (text "@" ++ args.bastion_host))) in
    let proxy_command =
      if not (is_empty args.bastion_pem_file)
      then proxy_command ++ (text " -i " ++ args.bastion_pem_file)
      else proxy_command in
    let proxy_command =
      if settings.insecure_bastion_no_strict_host_key_checking
      then proxy_command ++ text " -o StrictHostKeyChecking=no"
      else if not (is_empty settings.bastion_user_known_hosts_file)
      then proxy_command
        ++ (text " -o UserKnownHostsFile=" ++ settings.bastion_user_known_hosts_file)
      else proxy_command ++ (text " -o UserKnownHostsFile=" ++ args.bastion_known_hosts_file) in
    proxy_command ++ text "\""

module _ (rt : Runtime) where
  abbrev or_unset : Option Text → Text
  or_unset none = []
  or_unset (some v) = v

  unfoldable pub getenv : Text → Text
  getenv name = or_unset (rt.lookup_env name)

  unfoldable pub bastion_options : LocalModeAnsibleArgs → AnsibleSshSettings → List Text
  bastion_options args settings =
      if not (is_empty args.bastion_host)
      then proxy_command args settings
        ∷ (if is_empty args.bastion_pem_file && not (is_empty (getenv (text "SSH_AUTH_SOCK")))
            then text "-o ForwardAgent=yes" ∷ []
            else [])
      else []

  unfoldable pub ssh_extra_args_options :
      Play → LocalModeAnsibleArgs → AnsibleSshSettings → List Text
  ssh_extra_args_options v args settings =
      (text "-p " ++ show args.port)
      ∷ (text "-o ConnectTimeout=" ++ show settings.connect_timeout_seconds)
      ∷ (text "-o ConnectionAttempts=" ++ show settings.connect_attempts)
      ∷ host_key_option v args settings
      ∷ bastion_options args settings

  unfoldable pub to_command_arguments : Play → LocalModeAnsibleArgs → AnsibleSshSettings → Text
  to_command_arguments v ansible_args settings =
      let args = text "--" ++ (text "user" ++ (text "='" ++ (ansible_args.username ++ text "'"))) in
      let args = option_if ansible_args.pem_file (text "private-key") args in
      option args (text "ssh-extra-args")
        (join (ssh_extra_args_options v ansible_args settings) (text " "))
