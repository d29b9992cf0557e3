-- ===== src/Mode/KeyScan/Tests.antt =====
-- A key scan whose command succeeds at the second attempt.
use terraform_provisioner_an.Base.{◌==◌, none, some, [], ◌∷◌, if◌then◌else◌}
use terraform_provisioner_an.Base.Int.{pos}
use terraform_provisioner_an.Mode.KeyScan.{Client, KeyScan}

abbrev second_time : Client
second_time = record {
  new_session = λ _. none;
  request_pty = λ _. none;
  stdout_pipe = λ _. none;
  stderr_pipe = λ _. none;
  run = λ k command. if k == 1 then some [] else none;
  output = λ _ _. 107 ∷ [];
}

abbrev minute : KeyScan
minute = record { host = 104 ∷ []; port = pos 22; ssh_keyscan_timeout = pos 60 }
