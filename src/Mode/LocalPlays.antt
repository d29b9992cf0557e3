-- ===== src/Mode/LocalPlays.antt =====
-- The loop over the plays in `Run` of mode/mode_local.go, with `writeInventory`, as a function to the
-- trace of what it does.
pub mod Cleanup
pub mod Traces
pub mod Tests
use mathlib.Core.List.{reverse}
use terraform_provisioner_an.Base.{
  ℕ, suc, Bool, true, false, not, List, [], ◌∷◌, ◌++◌, map, Text, text, text_eq, is_empty,
  if◌then◌else◌,
}
use terraform_provisioner_an.Base.Outcome.{Outcome, ok, err, panic}
use terraform_provisioner_an.Types.AnsibleSshSettings.{AnsibleSshSettings}
use terraform_provisioner_an.Types.Play.{Play}
use terraform_provisioner_an.Types.Play.Settings.{
  hosts_of, groups_of, inventory_file_of, set_override_inventory_file,
}
use terraform_provisioner_an.Command.Arguments.{LocalModeAnsibleArgs, Runtime}
use terraform_provisioner_an.Command.Build.{to_local_command}
use terraform_provisioner_an.Mode.Hosts.{local_inventory}

-- A temporary file is made before its text is written.
pub data Effect : Type 0 where
  made_file ran removed : Text → Effect
  wrote : Text → Text → Effect

-- How a part of the loop ends: its result, what it did, the files that deferred calls remove, in
-- the order of the `defer` statements, and the number of temporary files made so far.
pub record Ended : Type 0 where
  pub result : Outcome (Unit {0})
  pub trace : List Effect
  pub deferred : List Text
  pub made : ℕ

-- The machine: the name of the next temporary file, whether a file can be written, and Terraform's
-- local-exec provisioner.
pub record Machine : Type 0 where
  pub temp_file : ℕ → Outcome Text
  pub write_file : Text → Text → Outcome (Unit {0})
  pub local_exec : Text → Outcome (Unit {0})

abbrev pub ended : Outcome (Unit {0}) → List Effect → List Text → ℕ → Ended
ended o t d k = record { result = o; trace = t; deferred = d; made = k }

-- What comes next is done only after success.
abbrev pub then_do : Outcome (Unit {0}) → List Effect → List Text → ℕ → Ended → Ended
then_do (ok _) t d k rest = ended rest.result (t ++ rest.trace) (d ++ rest.deferred) rest.made
then_do o t d k rest = ended o t d k

abbrev pub after : Ended → Ended → Ended
after first rest = then_do first.result first.trace first.deferred first.made rest

-- A file: one that was given, by its name, or a new temporary file with its text; or a new file whose
-- text could not be written, with the error, which stays on the disk; or an error alone.
pub data NewFile : Type 0 where
  given : Text → NewFile
  created : Text → Text → NewFile
  unwritten : Text → Outcome (Unit {0}) → NewFile
  failed : Outcome (Unit {0}) → NewFile

module _ (machine : Machine) where
  abbrev pub written : Text → Text → Outcome (Unit {0}) → NewFile
  written name contents (ok _) = created name contents
  written name contents o = unwritten name o

  abbrev pub in_file : Text → Outcome Text → NewFile
  in_file contents (ok name) = written name contents (machine.write_file name contents)
  in_file contents (err e) = failed (err e)
  in_file contents panic = failed panic

module _ (machine : Machine) (host : Text) where
  -- The argument is the number of temporary files made before.
  unfoldable pub write_inventory : ℕ → Play → NewFile
  write_inventory k play =
      if is_empty (inventory_file_of play)
      then in_file machine (local_inventory host (hosts_of play) (groups_of play))
          (machine.temp_file k)
      else given (inventory_file_of play)

module _ (rt : Runtime) (machine : Machine) (host : Text) (args : LocalModeAnsibleArgs)
    (settings : AnsibleSshSettings) where
  abbrev run_command : Outcome Text → ℕ → Ended
  run_command (ok command) k = ended (machine.local_exec command) (ran command ∷ []) [] k
  run_command (err e) k = ended (err e) [] [] k
  run_command panic k = ended panic [] [] k

  abbrev play_command : Play → ℕ → Ended
  play_command play k = run_command (to_local_command rt play args settings) k

  -- A new inventory file is set as the play's override, and its removal is deferred.
  abbrev with_inventory : NewFile → ℕ → Play → Ended
  with_inventory (given name) k play = play_command play k
  with_inventory (created name contents) k play =
      let play' = set_override_inventory_file play name in
      let kept =
        after (ended (ok tt) (made_file name ∷ wrote name contents ∷ []) [] (suc k))
          (play_command play (suc k)) in
      let overridden =
        after
          (ended (ok tt) (made_file name ∷ wrote name contents ∷ []) (inventory_file_of play' ∷ [])
            (suc k))
          (play_command play' (suc k)) in
      if not (text_eq name (inventory_file_of play)) then overridden else kept
  with_inventory (unwritten name o) k play = ended o (made_file name ∷ []) [] (suc k)
  with_inventory (failed o) k play = ended o [] [] k

  unfoldable pub run_play : ℕ → Play → Ended
  run_play k play = with_inventory (write_inventory machine host k play) k play

  unfoldable pub run_plays : ℕ → List Play → Ended
  run_plays k [] = ended (ok tt) [] [] k
  run_plays k (play ∷ plays) =
      let first = run_play k play in
      let rest = run_plays first.made plays in
      let skipped = run_plays k plays in if not play.enabled then skipped else after first rest
