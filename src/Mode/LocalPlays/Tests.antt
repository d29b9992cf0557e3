-- ===== src/Mode/LocalPlays/Tests.antt =====
-- A machine that fails nothing, and two plays without an inventory file, the second of which is not
-- enabled.
use terraform_provisioner_an.Base.{ℕ, ◌≡◌, refl, false, List, [], ◌∷◌, Text, is_empty}
use terraform_provisioner_an.Base.Outcome.{ok}
use terraform_provisioner_an.Types.Play.{Play}
use terraform_provisioner_an.Command.Tests.{site_play}
use terraform_provisioner_an.Mode.LocalPlays.{Machine}

abbrev pub machine : Machine
machine = record {
  temp_file = λ k. ok (116 ∷ k ∷ []);
  write_file = λ _ _. ok tt;
  local_exec = λ _. ok tt;
}

abbrev pub two_plays : List Play
two_plays =
    record site_play { override_inventory_file = [] } ∷ record site_play { enabled = false } ∷ []

pub named : (k : ℕ) (name : Text) → machine.temp_file k ≡ ok name → is_empty name ≡ false
named k [] e = cc
named k (c ∷ name) e = refl
