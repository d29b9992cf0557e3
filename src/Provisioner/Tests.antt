-- ===== src/Provisioner/Tests.antt =====
-- A configuration with one play, a playbook with a roles path.
use terraform_provisioner_an.Base.{◌≡◌, refl, ◌↔◌, true, false, some, [], ◌∷◌, text}
use terraform_provisioner_an.Base.Outcome.{IsOk, Ensures}
use terraform_provisioner_an.Go.Value.{
  null, string, slice, slice_of_maps, object, Values, nil, cons, end, field, to_list,
}
use terraform_provisioner_an.Types.Helpers.{Files}
use terraform_provisioner_an.Types.Tests.{play_fields, play_fields-HasFields}
use terraform_provisioner_an.Provisioner.Validate.{terraform011, terraform012, validate_fn}
use terraform_provisioner_an.Provisioner.Validate.Verdict.{
  all_of, accepts_play, validate_fn-accepts,
}
use terraform_provisioner_an.Provisioner.Config.{Given, decode_config}
use terraform_provisioner_an.Provisioner.Config.Total.{IsTyped, decode_config-IsOk}
use terraform_provisioner_an.Provisioner.Config.Plays.{IsDecoded, decode_config-Resolves}

abbrev all_directories : Files
all_directories = record { expand = λ p. p; stat = λ _. some true }

abbrev one_playbook : Values
one_playbook =
    cons
      (object (
        field (text "playbook")
          (slice (
            cons (object (field (text "roles_path") (slice (cons (string (47 ∷ [])) nil)) end))
              nil))
          end))
      nil

validate_fn-accepts_example :
    (((validate_fn all_directories (λ _. []) [] (some (slice one_playbook))).errs ≡ [])
      ↔ (all_of (accepts_play all_directories terraform012) (to_list one_playbook) ≡ true))
    × (((validate_fn all_directories (λ _. []) [] (some (slice_of_maps one_playbook))).errs ≡ [])
        ↔ (all_of (accepts_play all_directories terraform011) (to_list one_playbook) ≡ true))
validate_fn-accepts_example = validate_fn-accepts all_directories (λ _. []) [] one_playbook

abbrev pub one_play : Given
one_play = record {
  remote = (null, false);
  ansible_ssh_settings = (null, false);
  defaults = (null, false);
  plays = (slice (cons (object play_fields) nil), true);
}

decode_config-Resolves_example :
    Ensures (IsDecoded (λ _. []) one_play) (decode_config (λ _. []) one_play)
decode_config-Resolves_example = decode_config-Resolves (λ _. []) one_play

one_play-IsTyped : IsTyped one_play
unfolding to_list
one_play-IsTyped = record {
  remote = λ h. cc;
  ansible_ssh_settings = λ h. cc;
  defaults = λ h. cc;
  plays = λ _. (_, refl, ((play_fields, refl, play_fields-HasFields), tt));
}

decode_config-IsOk_example : IsOk (decode_config (λ _. []) one_play)
decode_config-IsOk_example = decode_config-IsOk (λ _. []) one_play one_play-IsTyped
