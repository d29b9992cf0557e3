-- ===== src/Mode/SshConfig.antt =====
-- mode/ssh_configurable.go: the configuration of an ssh client for the bastion host and for the target,
-- with the accessors of mode/ssh_bastion_host.go and mode/ssh_target_host.go.
pub mod Verified
mod Tests
use terraform_provisioner_an.Base.{
  Bool, not, Option, none, some, List, [], ◌∷◌, ◌++◌, Text, text, is_empty, if◌then◌else◌,
}
use terraform_provisioner_an.Base.Int.{ℤ}
use terraform_provisioner_an.Base.Outcome.{Outcome, ok, err, panic}
use terraform_provisioner_an.Mode.ConnectionInfo.{ConnectionInfo, Libraries}

-- The interface `sshConfigurable`, without `receiveHostKey`.
pub record Provider : Type 0 where
  pub agent : Bool
  pub host : Text
  pub port : ℤ
  pub user : Text
  pub pem_file : Text
  pub host_key : Text
  pub timeout : ℤ

unfoldable pub bastion_host : ConnectionInfo → Provider
bastion_host v = record {
  agent = v.agent;
  host = v.bastion_host;
  port = v.bastion_port;
  user = v.bastion_user;
  pem_file = v.bastion_private_key;
  host_key = v.bastion_host_key;
  timeout = v.timeout_val;
}

unfoldable pub target_host : ConnectionInfo → Provider
target_host v = record {
  agent = v.agent;
  host = v.host;
  port = v.port;
  user = v.user;
  pem_file = v.private_key;
  host_key = v.host_key;
  timeout = v.timeout_val;
}

pub data AuthMethod : Type 0 where
  public_keys : Text → AuthMethod
  agent_signers : AuthMethod

-- The callback for the host key: it takes any key and keeps it, or checks it against known hosts.
pub data HostKeyCallback : Type 0 where
  receive_host_key : HostKeyCallback
  verify_host_key : Text → HostKeyCallback

-- A method may be nil.
pub record ClientConfig : Type 0 where
  pub user : Text
  pub auth : List (Option AuthMethod)
  pub host_key_callback : HostKeyCallback
  pub timeout : ℤ

pub data FileStep : Type 0 where
  created removed : Text → FileStep
  wrote : Text → Text → FileStep

-- The socket of the agent, a new temporary file, whether it can be written, and whether the package
-- knownhosts can read it: an error, or none.
pub record Surroundings : Type 0 where
  pub dial_agent : Option Text
  pub temp_file : Outcome Text
  pub write_string : Text → Option Text
  pub read_known_hosts : Text → Option Text

abbrev pub known_hosts_line : Provider → Text
known_hosts_line p = text "@cert-authority " ++ (p.host ++ (text " " ++ (p.host_key ++ text "\n")))

module _ (libraries : Libraries) (around : Surroundings) where
  abbrev unless_error : Option Text → AuthMethod → Option AuthMethod
  unless_error none m = some m
  unless_error (some e) m = none

  unfoldable pub ssh_agent : Option AuthMethod
  ssh_agent = unless_error around.dial_agent agent_signers

  unfoldable pub public_key_file : Provider → Option AuthMethod
  public_key_file p = unless_error (libraries.parse_private_key p.pem_file) (public_keys p.pem_file)

  unfoldable pub auth_methods : Provider → List (Option AuthMethod)
  auth_methods p =
      (if not (is_empty p.pem_file) then public_key_file p ∷ [] else [])
      ++ (if p.agent then ssh_agent ∷ [] else [])

  abbrev configured : Provider → HostKeyCallback → ClientConfig
  configured p callback = record {
    user = p.user;
    auth = auth_methods p;
    host_key_callback = callback;
    timeout = p.timeout;
  }

  -- By the errors of writing and of reading; the file is removed by a deferred call.
  abbrev with_known_hosts_file :
      Provider → Text → Option Text → Option Text → Outcome ClientConfig × List FileStep
  with_known_hosts_file p name (some e) read_error =
      (err (text "failed to write temp known_hosts file: " ++ e), created name ∷ removed name ∷ [])
  with_known_hosts_file p name none (some e) =
      (err e, created name ∷ wrote name (known_hosts_line p) ∷ removed name ∷ [])
  with_known_hosts_file p name none none = (
    ok (configured p (verify_host_key (known_hosts_line p))),
    created name ∷ wrote name (known_hosts_line p) ∷ removed name ∷ [],
  )

  abbrev with_temp_file : Provider → Outcome Text → Outcome ClientConfig × List FileStep
  with_temp_file p (ok name) =
      with_known_hosts_file p name (around.write_string (known_hosts_line p))
        (around.read_known_hosts (known_hosts_line p))
  with_temp_file p (err e) = (err (text "failed to create temp known_hosts file: " ++ e), [])
  with_temp_file p panic = (panic, [])

  unfoldable pub ssh_config : Provider → Outcome ClientConfig × List FileStep
  ssh_config p =
      if not (is_empty p.host_key)
      then with_temp_file p around.temp_file
      else (ok (configured p receive_host_key), [])
