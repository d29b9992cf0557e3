-- ===== src/Mode/HostKeys/Known.antt =====
-- The host keys that `Run` of mode/mode_local.go has for strict host key checking.
use terraform_provisioner_an.Base.{◌≡◌, true, false, List, [], ◌∷◌, Text, text, join, is_empty}
use terraform_provisioner_an.Base.Outcome.{Outcome, ok}
use terraform_provisioner_an.Types.AnsibleSshSettings.{
  AnsibleSshSettings, insecure_no_strict_host_key_checking_of,
}
use terraform_provisioner_an.Types.Play.{Play}
use terraform_provisioner_an.Mode.ConnectionInfo.{ConnectionInfo}
use terraform_provisioner_an.Mode.Retry.{retries}
use terraform_provisioner_an.Mode.HostKeys.{Network}
use terraform_provisioner_an.Mode.HostKeys.Fetched.{FetchEnds}

-- With these settings the target's known hosts are read from the file that is generated.
abbrev pub IsStrict : AnsibleSshSettings → Type 0
IsStrict settings =
    (insecure_no_strict_host_key_checking_of settings ≡ false)
    × (is_empty settings.user_known_hosts_file ≡ true)

-- The line that says which key a host has.
abbrev pub entry : Text → Text → Text
entry host key = join (host ∷ key ∷ []) (text " ")

-- The known hosts of the target with these settings: none if its key is not checked, or is checked
-- against another file; else one line with the key that was given for it, what a scan on the bastion
-- host has put out, or one line with the key that was fetched.
pub data IsTarget (network : Network) (v : ConnectionInfo) (settings : AnsibleSshSettings)
    : List Text → Type 0 where
  unchecked :
      insecure_no_strict_host_key_checking_of settings ≡ true → IsTarget network v settings []
  other_file :
      insecure_no_strict_host_key_checking_of settings ≡ false
      → is_empty settings.user_known_hosts_file ≡ false
      → IsTarget network v settings []
  given :
      IsStrict settings
      → is_empty v.host_key ≡ false
      → IsTarget network v settings (entry v.host v.host_key ∷ [])
  scanned :
      (lines : Text)
      → IsStrict settings
      → is_empty v.host_key ≡ true
      → is_empty v.bastion_host ≡ false
      → network.scan ≡ ok lines
      → IsTarget network v settings (lines ∷ [])
  fetched :
      (key : Text)
      → IsStrict settings
      → is_empty v.host_key ≡ true
      → is_empty v.bastion_host ≡ true
      → FetchEnds network v.host (retries settings.ssh_keyscan_seconds) (ok key)
      → IsTarget network v settings (entry v.host key ∷ [])

-- The known hosts of the bastion host: none if it is not in use, else one line with the key that was
-- given for it or, if none was, with the one that it presented.
pub data IsBastion (network : Network) (v : ConnectionInfo) : List Text → Type 0 where
  unused : is_empty v.bastion_host ≡ true → IsBastion network v []
  given :
      (key : Text)
      → is_empty v.bastion_host ≡ false
      → network.connect ≡ ok key
      → is_empty v.bastion_host_key ≡ false
      → IsBastion network v (entry v.bastion_host v.bastion_host_key ∷ [])
  presented :
      (key : Text)
      → is_empty v.bastion_host ≡ false
      → network.connect ≡ ok key
      → is_empty v.bastion_host_key ≡ true
      → IsBastion network v (entry v.bastion_host key ∷ [])

-- The settings that go on to the plays: those that were given, except that a null_resource, which
-- has no host, has the check switched off.
pub record IsChecked (v : ConnectionInfo) (given settings : AnsibleSshSettings) : Type 0 where
  pub null_resource :
      is_empty v.host ≡ true → insecure_no_strict_host_key_checking_of settings ≡ true
  pub compute : is_empty v.host ≡ false → settings ≡ given

module _ (network : Network) (v : ConnectionInfo) (settings : AnsibleSshSettings) where
  -- The known hosts of the target, and those of the bastion host.
  abbrev pub IsReady : List Text × List Text → Type 0
  IsReady (target, bastion) = IsTarget network v settings target × IsBastion network v bastion
