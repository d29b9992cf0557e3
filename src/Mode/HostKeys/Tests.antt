-- ===== src/Mode/HostKeys/Tests.antt =====
-- Host keys of a target behind a bastion host, and of one that presents its key at the third attempt.
use terraform_provisioner_an.Base.{arith, refl, ◌==◌, [], ◌∷◌, if◌then◌else◌}
use terraform_provisioner_an.Base.Outcome.{ok, err}
use terraform_provisioner_an.Command.Tests.{ssh_settings}
use terraform_provisioner_an.Mode.Tests.{through_bastion}
use terraform_provisioner_an.Mode.Retry.{allowed}
use terraform_provisioner_an.Mode.HostKeys.{Network, fetched_key}
use terraform_provisioner_an.Mode.HostKeys.Fetched.{FetchEnds, fetched_key-ends}

abbrev pub slow_network : Network
slow_network = record {
  connect = ok (98 ∷ []);
  scan = ok (99 ∷ []);
  dial = λ k. if k == 2 then (ok tt, 107 ∷ []) else (err [], []);
}

fetched_key-ends_example :
    FetchEnds slow_network through_bastion.host
      (allowed ssh_settings.ssh_keyscan_seconds)
      (fetched_key slow_network through_bastion ssh_settings)
fetched_key-ends_example =
    fetched_key-ends slow_network through_bastion refl ssh_settings (omega arith)
