-- ===== src/Mode/ConnectionInfo.antt =====
-- mode/local_connection_extractor.go
pub mod Settled
use terraform_provisioner_an.Base.{
  ℕ, ◌*◌, Bool, true, false, not, ◌&&◌, Option, none, some, List, [], ◌∷◌, ◌++◌, Text, text,
  text_eq, is_empty, if◌then◌else◌,
}
use terraform_provisioner_an.Base.Int.{ℤ, pos, is_zero}
use terraform_provisioner_an.Base.Outcome.{Outcome, ok, err, ◌>>=◌}

abbrev pub default_user : Text
default_user = text "root"

abbrev pub default_port : ℤ
default_port = pos 22

abbrev pub default_script_path : Text
default_script_path = text "/tmp/terraform_%RAND%.sh"

-- Five minutes in nanoseconds.
abbrev pub default_timeout : ℤ
default_timeout = pos (5 * (60 * 1000000000))

pub record ConnectionInfo : Type 0 where
  pub user : Text
  pub password : Text
  pub private_key : Text
  pub host : Text
  pub host_key : Text
  pub port : ℤ
  pub agent : Bool
  pub timeout : Text
  pub script_path : Text
  pub timeout_val : ℤ
  pub bastion_user : Text
  pub bastion_password : Text
  pub bastion_private_key : Text
  pub bastion_host : Text
  pub bastion_host_key : Text
  pub bastion_port : ℤ
  pub agent_identity : Text

-- A block that `pem.Decode` finds: its header "Proc-Type", and what `pem.EncodeToMemory` writes.
pub record PemBlock : Type 0 where
  pub proc_type : Text
  pub encoded : Text

-- The packages that are called: `mapstructure`, Terraform's `shared.IpFormat`, `time`, `pem`, and
-- `ssh.ParsePrivateKey`, of which only an error is used; the messages of `Errorf` for a key.
pub record Libraries : Type 0 where
  pub decode : List (Text × Text) → Outcome ConnectionInfo
  pub ip_format : Text → Text
  pub parse_duration : Text → Option ℤ
  pub decode_pem : Text → Option PemBlock
  pub parse_private_key : Text → Option Text
  pub quoted : Text → Text

abbrev pub value_at : List (Text × Text) → Text → Text
value_at [] key = []
value_at ((k, v) ∷ rest) key = let later = value_at rest key in if text_eq k key then v else later

module _ (libraries : Libraries) where
  abbrev or_default : Option ℤ → ℤ → ℤ
  or_default none default_dur = default_dur
  or_default (some d) default_dur = d

  unfoldable pub safe_duration : Text → ℤ → ℤ
  safe_duration dur default_dur = or_default (libraries.parse_duration dur) default_dur

  unfoldable pub parsed_key : Text → PemBlock → Option Text → Outcome Text
  parsed_key key block none = ok block.encoded
  parsed_key key block (some e) =
      err (text "Failed to parse private key file " ++ (libraries.quoted key ++ (text ": " ++ e)))

  unfoldable pub decoded_key : Text → Option PemBlock → Outcome Text
  decoded_key key none =
      err (text "Failed to decode private key " ++ (libraries.quoted key ++ text ": no key found"))
  decoded_key key (some block) =
      if text_eq block.proc_type (text "4,ENCRYPTED")
      then err (
          text "Failed to read key "
          ++ (libraries.quoted key
              ++ text
                  ": password protected keys are not supported; please decrypt the key prior to use"))
      else parsed_key key block (libraries.parse_private_key key)

  -- The new value of the key.
  unfoldable pub validate_private_key : Text → Outcome Text
  validate_private_key key = decoded_key key (libraries.decode_pem key)

  abbrev text_or : Text → Text → Text
  text_or t d = if is_empty t then d else t

  abbrev port_or : ℤ → ℤ → ℤ
  port_or i d = if is_zero i then d else i

  unfoldable pub with_defaults : List (Text × Text) → Text → ConnectionInfo → ConnectionInfo
  with_defaults conn_info ssh_auth_sock v = record v {
    agent =
        if is_empty (value_at conn_info (text "agent")) && not (is_empty ssh_auth_sock)
        then true
        else v.agent;
    user = text_or v.user default_user;
    host = libraries.ip_format v.host;
    port = port_or v.port default_port;
    script_path = text_or v.script_path default_script_path;
    timeout_val =
        if not (is_empty v.timeout)
        then safe_duration v.timeout default_timeout
        else default_timeout;
  }

  unfoldable pub with_valid_key : ConnectionInfo → Outcome ConnectionInfo
  with_valid_key v =
      if not (is_empty v.private_key)
      then (do key ← validate_private_key v.private_key; ok (record v { private_key = key }))
      else ok v

  -- The bastion host's key is the target's, which is checked already, or its own.
  unfoldable pub bastion_key : ConnectionInfo → Outcome Text
  bastion_key v =
      if is_empty v.bastion_private_key
      then ok v.private_key
      else validate_private_key v.bastion_private_key

  unfoldable pub with_bastion_defaults : ConnectionInfo → Outcome ConnectionInfo
  with_bastion_defaults v =
      if not (is_empty v.bastion_host)
      then (do
        key ← bastion_key v
        ok (record v {
          bastion_host = libraries.ip_format v.bastion_host;
          bastion_user = text_or v.bastion_user v.user;
          bastion_password = text_or v.bastion_password v.password;
          bastion_private_key = key;
          bastion_port = port_or v.bastion_port v.port;
        }))
      else ok v

  -- For the environment variable SSH_AUTH_SOCK.
  unfoldable pub parse_connection_info : List (Text × Text) → Text → Outcome ConnectionInfo
  parse_connection_info conn_info ssh_auth_sock = do
    v ← libraries.decode conn_info
    v ← with_valid_key (with_defaults conn_info ssh_auth_sock v)
    with_bastion_defaults v
