-- ===== src/Mode/KeyScan/Sessions.antt =====
-- The sessions that a key scan of mode/ssh_bastion_keyscan.go opens on the bastion host.
use terraform_provisioner_an.Base.{ℕ, suc, ◌≤◌, List, [], ◌∷◌, Text}
use terraform_provisioner_an.Mode.Retry.{Answer, arrived, gave_up}
use terraform_provisioner_an.Mode.KeyScan.{Step, opened, ran, closed, KeyScan}

-- Each session is closed before the next one is opened, and at most one command is run in it, which
-- is while it is open.
pub data IsBalanced : List Step → Type 0 where
  no_session : IsBalanced []
  a_session :
      {rest : List Step} → (k : ℕ) → IsBalanced rest → IsBalanced (opened k ∷ closed k ∷ rest)
  a_command :
      {rest : List Step}
      → (k : ℕ) (command : Text) → IsBalanced rest
      → IsBalanced (opened k ∷ ran k command ∷ closed k ∷ rest)

abbrev pub sessions : List Step → ℕ
sessions [] = 0
sessions (opened k ∷ steps) = suc (sessions steps)
sessions (ran k command ∷ steps) = sessions steps
sessions (closed k ∷ steps) = sessions steps

-- At most so many sessions, all of them balanced.
record Within (n : ℕ) (steps : List Step) : Type 0 where
  balanced : IsBalanced steps
  few : sessions steps ≤ n

abbrev position : Answer → ℕ
position (arrived k) = k
position (gave_up k e) = k
