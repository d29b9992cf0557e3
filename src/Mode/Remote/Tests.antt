-- ===== src/Mode/Remote/Tests.antt =====
-- Runs of a play with a playbook, and of one that is not enabled, on a remote machine that fails
-- nothing.
use terraform_provisioner_an.Base.{
  ◌≡◌, ◌↔◌, ◌≤◌, ◌<◌, ◌+◌, refl, ℕ, true, false, some, none, List, [], ◌∷◌, ◌++◌, Text, text, arith,
  ◌==◌, leb, if◌then◌else◌,
}
use terraform_provisioner_an.Base.Int.{pos}
use terraform_provisioner_an.Base.Outcome.{ok, IsOk, eq_ok_of_IsOk}
use terraform_provisioner_an.Types.RemoteSettings.{RemoteSettings}
use terraform_provisioner_an.Types.Play.{Play, playbook}
use terraform_provisioner_an.Types.Helpers.{resolve_path}
use terraform_provisioner_an.Types.RemoteSettings.{bootstrap_directory_of}
use terraform_provisioner_an.Types.Playbook.{
  file_path_of, roles_path_of, set_override_file_path, set_override_roles_path,
}
use terraform_provisioner_an.Types.Play.Settings.{
  inventory_file_of, vault_id_of, vault_password_file_of, set_override_inventory_file,
  set_override_vault_password_path,
}
use terraform_provisioner_an.Go.Path.{path_join, clean, dir, base}
use terraform_provisioner_an.Mode.Remote.Uploads.{
  write_inventory, upload_vault, upload_vault_password_or_id_file,
}
use terraform_provisioner_an.Command.Tests.{bare_runtime, site, site_play}
use terraform_provisioner_an.Mode.Remote.{
  exited, done, Event, disconnected, Remote, Session, upload, upload_dir, answer,
}
use terraform_provisioner_an.Mode.Remote.Commands.{
  mkdir_command, remove_command, check_command, install_command, with_sudo, ended, found,
  run_command, run_command_no_sudo, check_remote_dir_exists,
}
use terraform_provisioner_an.Mode.Remote.Deploy.{
  upload_once, deploy_roles, deploy_playbook, deploy_entity, deploy_play, deploy_ansible_data,
}
use terraform_provisioner_an.Mode.Remote.Deployed.{Pointwise, IsDeployed}
use terraform_provisioner_an.Mode.Remote.Deployed.Sequence.{deploy_ansible_data-IsDeployed}
use terraform_provisioner_an.Mode.Remote.Run.{retry_func, run}
use terraform_provisioner_an.Mode.Remote.Succeeding.{IsCooperative}
use terraform_provisioner_an.Mode.Remote.Success.{run-IsOk}
use terraform_provisioner_an.Mode.Remote.Provisioned.{IsProvisioned, run-IsProvisioned}
use terraform_provisioner_an.Mode.Remote.Errors.{check_remote_dir_exists-answers}
use terraform_provisioner_an.Mode.Remote.Connecting.{IsLast, retry_func-ends}
use terraform_provisioner_an.Mode.Remote.Readable.{
  sudo_words, check_script, install_script, argv-with_sudo,
}
use terraform_provisioner_an.Shell.{argv, is_double_plain}
use terraform_provisioner_an.Shell.Plain.{HasNoQuote-of_all_unquoted}

abbrev settings : RemoteSettings
settings = record {
  is_remote_in_use = true;
  use_sudo = true;
  skip_install = false;
  skip_cleanup = false;
  install_version = [];
  local_installer_path = [];
  remote_installer_directory = 47 ∷ 116 ∷ [];
  bootstrap_directory = 47 ∷ 116 ∷ [];
}

abbrev pub cooperative : Remote
cooperative = record {
  connect = λ _. none;
  is_over = λ _. true;
  start = λ _ _. done;
  upload = λ _ _ _. none;
  upload_dir = λ _ _ _. none;
  upload_script = λ _ _ _. none;
  files = record { expand = λ t. t; stat = λ _. some true };
  read_file = λ t. ok t;
  uuid = λ k. (48 + k) ∷ [];
  md5 = λ t. 109 ∷ [];
  quoted = λ t. t;
}

cooperative-IsCooperative : IsCooperative cooperative
unfolding resolve_path
cooperative-IsCooperative = record {
  connects = refl;
  starts = λ _ _. refl;
  uploads = λ _ _ _. refl;
  uploads_dir = λ _ _ _. refl;
  uploads_script = λ _ _ _. refl;
  resolves = λ _. tt;
  reads = λ _. tt;
}

abbrev fresh : Session
fresh = record { history = []; drawn = 0 }

-- The second play is not enabled.
abbrev two_plays : List Play
two_plays =
    record site_play { override_inventory_file = []; vault_password_file = [] }
    ∷ record site_play { enabled = false }
    ∷ []

abbrev deployed_plays : List Play
deployed_plays =
    record site_play {
      vault_password_file = [];
      override_inventory_file = text "/t/tf-ansible-bootstrap/m/.inventory-0";
      entity = playbook (record site { override_file_path = text "/t/tf-ansible-bootstrap/m/p" });
    }
    ∷ record site_play { enabled = false }
    ∷ []

deploy_ansible_data-IsDeployed_example :
    Pointwise
      (IsDeployed cooperative settings
        (deploy_ansible_data cooperative settings two_plays fresh).1.history)
      two_plays
      deployed_plays
deploy_ansible_data-IsDeployed_example =
    deploy_ansible_data-IsDeployed cooperative settings fresh two_plays deployed_plays (
      unfold deploy_ansible_data deploy_play deploy_entity deploy_playbook resolve_path file_path_of
        roles_path_of set_override_file_path set_override_roles_path set_override_inventory_file
        run_command_no_sudo run_command with_sudo ended found check_remote_dir_exists upload_once
        upload_dir upload write_inventory upload_vault upload_vault_password_or_id_file
        inventory_file_of vault_id_of vault_password_file_of set_override_vault_password_path
        deploy_roles mkdir_command check_command path_join clean dir base bootstrap_directory_of
        text in
      refl)

run-IsOk_example : IsOk (run bare_runtime cooperative settings (109 ∷ []) 1 two_plays fresh).0
run-IsOk_example =
    run-IsOk bare_runtime cooperative settings (109 ∷ []) (λ _. tt) cooperative-IsCooperative 0
      two_plays fresh (λ p. cc, (λ p. cc, tt))

two_plays-IsOk : (run bare_runtime cooperative settings (109 ∷ []) 1 two_plays fresh).0 ≡ ok tt
two_plays-IsOk =
    (eq_ok_of_IsOk _ (
      run-IsOk bare_runtime cooperative settings (109 ∷ []) (λ _. tt) cooperative-IsCooperative 0
        two_plays fresh (λ p. cc, (λ p. cc, tt)))).1

run-IsProvisioned_example :
    (h : List Event) × ((run bare_runtime cooperative settings
        (109 ∷ [])
        1
        two_plays
        fresh).1.history
      ≡ disconnected ∷ h)
    × IsProvisioned bare_runtime cooperative settings (109 ∷ []) two_plays h
run-IsProvisioned_example =
    run-IsProvisioned bare_runtime cooperative settings (109 ∷ []) 1 two_plays fresh two_plays-IsOk

check_remote_dir_exists-answers_example :
    (((check_remote_dir_exists cooperative settings (47 ∷ []) fresh).0 ≡ ok false)
      ↔ (cooperative.start [] (check_command (47 ∷ [])) ≡ done))
    × ((reason : Text)
        → cooperative.start [] (check_command (47 ∷ [])) ≡ exited (pos 50) reason
        → (check_remote_dir_exists cooperative settings (47 ∷ []) fresh).0 ≡ ok true)
check_remote_dir_exists-answers_example =
    check_remote_dir_exists-answers cooperative settings (47 ∷ []) fresh

-- The third attempt connects; the time would be over after the fifth.
abbrev slow : Remote
slow = record cooperative {
  connect = λ k. if k == 2 then none else some [];
  is_over = λ k. leb 4 k;
}

retry_func-ends_example :
    (m : ℕ) × (m ≤ 4)
    × IsLast slow m
    × ((j : ℕ) → j < m → IsLast slow j → ⊥)
    × (retry_func slow 5 0 ≡ some (answer (slow.connect m)))
retry_func-ends_example = retry_func-ends slow 4 5 refl (omega arith)

-- A path with a space.
abbrev spaced : Text
spaced = 47 ∷ 97 ∷ 32 ∷ 98 ∷ []

argv-with_sudo_example :
    (argv (with_sudo settings (mkdir_command spaced) true)
      ≡ some (sudo_words settings true ++ (text "mkdir" ∷ text "-p" ∷ spaced ∷ [])))
    × (argv (with_sudo settings (remove_command spaced) true)
        ≡ some (sudo_words settings true ++ (text "rm" ∷ text "-rf" ∷ spaced ∷ [])))
    × (argv (with_sudo settings (check_command spaced) true)
        ≡ some
            (sudo_words settings true ++ (text "/bin/sh" ∷ text "-c" ∷ check_script spaced ∷ [])))
    × (argv (with_sudo settings (install_command spaced) true)
        ≡ some
            (sudo_words settings true ++ (text "/bin/sh" ∷ text "-c" ∷ install_script spaced ∷ [])))
argv-with_sudo_example =
    argv-with_sudo settings true spaced
      (unfold is_double_plain in (refl, (refl, (refl, (refl, tt)))))
      (HasNoQuote-of_all_unquoted spaced refl)
