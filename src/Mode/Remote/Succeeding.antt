-- ===== src/Mode/Remote/Succeeding.antt =====
-- Actions of mode/mode_remote.go that cannot fail on a remote machine that fails nothing.
use terraform_provisioner_an.Base.{
  ◌≡◌, refl, Bool, true, false, not, none, List, [], ◌∷◌, ◌++◌, Text, text, is_empty, if◌then◌else◌,
}
use mathlib.Core.Path.{subst, sym}
use terraform_provisioner_an.Base.Outcome.{Outcome, ok, err, panic, IsOk}
use terraform_provisioner_an.Go.Path.{path_join}
use terraform_provisioner_an.Mode.Hosts.{remote_inventory}
use terraform_provisioner_an.Types.Helpers.{resolve_path}
use terraform_provisioner_an.Types.RemoteSettings.{RemoteSettings}
use terraform_provisioner_an.Types.Play.{Play}
use terraform_provisioner_an.Types.Play.Settings.{
  hosts_of, groups_of, inventory_file_of, vault_id_of, vault_password_file_of,
}
use terraform_provisioner_an.Mode.Remote.{
  done, Event, Remote, Session, Action, pure, lift, continue, ◌>>=◌, ◌>>◌, draw, answer, upload,
  upload_dir, upload_script,
}
use terraform_provisioner_an.Mode.Remote.Commands.{
  ended, found, check_command, run_command, run_command_no_sudo, check_remote_dir_exists, with_sudo,
}
use terraform_provisioner_an.Mode.Remote.Uploads.{
  upload_vault_password_or_id_file, upload_vault_ids, upload_vault, write_inventory,
}

-- Every command ends well, every transfer succeeds, and every local file is there.
pub record IsCooperative (remote : Remote) : Type 0 where
  pub connects : remote.connect 0 ≡ none
  pub starts : (h : List Event) (command : Text) → remote.start h command ≡ done
  pub uploads : (h : List Event) (path contents : Text) → remote.upload h path contents ≡ none
  pub uploads_dir : (h : List Event) (path source : Text) → remote.upload_dir h path source ≡ none
  pub uploads_script :
      (h : List Event) (path script : Text) → remote.upload_script h path script ≡ none
  pub resolves : (path : Text) → IsOk (resolve_path remote.files path)
  pub reads : (path : Text) → IsOk (remote.read_file path)

pub record Succeeds {A : Type 0} (m : Action A) : Type 0 where
  pub at : (s : Session) → IsOk (m s).0

continue-IsOk :
    {A B : Type 0} (o : Outcome A) (t : Session) (f : A → Action B)
    → IsOk o
    → ((a : A) → o ≡ ok a → IsOk (f a t).0)
    → IsOk (continue o t f).0
continue-IsOk (ok a) t f h k = k a refl
continue-IsOk (err e) t f h k = h
continue-IsOk panic t f h k = h

module _ {A B : Type 0} where
  pub IsOk-bind :
      (m : Action A) (f : A → Action B) (s : Session)
      → IsOk (m s).0
      → ((a : A) → (m s).0 ≡ ok a → IsOk (f a (m s).1).0)
      → IsOk ((m >>= f) s).0
  IsOk-bind m f s = continue-IsOk (m s).0 (m s).1 f

  pub Succeeds-bind :
      (m : Action A) (f : A → Action B)
      → Succeeds m
      → ((a : A) → Succeeds (f a))
      → Succeeds (m >>= f)
  Succeeds-bind m f h k = record { at = λ s. IsOk-bind m f s (h.at s) λ a _. (k a).at (m s).1 }

module _ {A : Type 0} where
  pub Succeeds-pure : (a : A) → Succeeds (pure a)
  Succeeds-pure a = record { at = λ s. tt }

  pub Succeeds-lift : (o : Outcome A) → IsOk o → Succeeds (lift o)
  Succeeds-lift o h = record { at = λ s. h }

  pub Succeeds-if :
      (b : Bool) (m n : Action A) → Succeeds m → Succeeds n → Succeeds (if b then m else n)
  Succeeds-if true m n h k = h
  Succeeds-if false m n h k = k

module _ (remote : Remote) (c : IsCooperative remote) where
  pub Succeeds-draw : Succeeds (draw remote)
  Succeeds-draw = record { at = λ s. tt }

  pub Succeeds-upload : (path contents : Text) → Succeeds (upload remote path contents)
  unfolding upload
  Succeeds-upload path contents = record {
    at = λ s. subst (λ o. IsOk (answer o)) (sym (c.uploads s.history path contents)) tt;
  }

  pub Succeeds-upload_dir : (path source : Text) → Succeeds (upload_dir remote path source)
  unfolding upload_dir
  Succeeds-upload_dir path source = record {
    at = λ s. subst (λ o. IsOk (answer o)) (sym (c.uploads_dir s.history path source)) tt;
  }

  pub Succeeds-upload_script : (path script : Text) → Succeeds (upload_script remote path script)
  unfolding upload_script
  Succeeds-upload_script path script = record {
    at = λ s. subst (λ o. IsOk (answer o)) (sym (c.uploads_script s.history path script)) tt;
  }

  pub Succeeds-run_command :
      (v : RemoteSettings) (command : Text) (should_sudo : Bool)
      → Succeeds (run_command remote v command should_sudo)
  unfolding run_command ended
  Succeeds-run_command v command should_sudo = record {
    at = λ s.
        subst (λ x. IsOk (ended remote (with_sudo v command should_sudo) x))
          (sym (c.starts s.history (with_sudo v command should_sudo))) tt;
  }

  pub Succeeds-check_remote_dir_exists :
      (v : RemoteSettings) (d : Text) → Succeeds (check_remote_dir_exists remote v d)
  unfolding check_remote_dir_exists run_command_no_sudo run_command with_sudo ended found
  Succeeds-check_remote_dir_exists v d = record {
    at = λ s.
        subst (λ x. IsOk (found (ended remote (check_command d) x)))
          (sym (c.starts s.history (check_command d))) tt;
  }

  Succeeds-send : (path contents : Text) → Succeeds (upload remote path contents >> pure path)
  Succeeds-send path contents =
      Succeeds-bind _ _ (Succeeds-upload path contents) λ _. Succeeds-pure path

  Succeeds-hand :
      (d prefix source : Text)
      → Succeeds (do
        path ← lift (resolve_path remote.files source)
        u1 ← draw remote
        file ← lift (remote.read_file path)
        upload remote (path_join d (prefix ++ u1)) file
        pure (path_join d (prefix ++ u1)))
  Succeeds-hand d prefix source = Succeeds-bind _ _ (Succeeds-lift _ (c.resolves source)) λ path.
      Succeeds-bind _ _ Succeeds-draw λ u1.
        Succeeds-bind _ _ (Succeeds-lift _ (c.reads path))
          λ file. Succeeds-send (path_join d (prefix ++ u1)) file

  Succeeds-upload_vault_password_or_id_file :
      (d source : Text) → Succeeds (upload_vault_password_or_id_file remote d source)
  unfolding upload_vault_password_or_id_file
  Succeeds-upload_vault_password_or_id_file d source =
      Succeeds-if (is_empty source) _ _ (Succeeds-pure [])
        (Succeeds-hand d (text ".vault-file-") source)

  Succeeds-upload_vault_ids :
      (d : Text) (ids : List Text) → Succeeds (upload_vault_ids remote d ids)
  unfolding upload_vault_ids
  Succeeds-upload_vault_ids d [] = Succeeds-pure []
  Succeeds-upload_vault_ids d (source ∷ sources) =
      Succeeds-bind _ _ (Succeeds-upload_vault_password_or_id_file d source)
        λ path. Succeeds-bind _ _ (Succeeds-upload_vault_ids d sources) λ paths. Succeeds-pure _

  pub Succeeds-upload_vault : (d : Text) (play : Play) → Succeeds (upload_vault remote d play)
  unfolding upload_vault
  Succeeds-upload_vault d play =
      Succeeds-if (not (is_empty (vault_id_of play))) _ _
        (Succeeds-bind _ _ (Succeeds-upload_vault_ids d (vault_id_of play)) λ ids. Succeeds-pure _)
        (Succeeds-bind _ _
          (Succeeds-upload_vault_password_or_id_file d (vault_password_file_of play))
          λ path. Succeeds-pure _)

  pub Succeeds-write_inventory : (d : Text) (play : Play) → Succeeds (write_inventory remote d play)
  unfolding write_inventory
  Succeeds-write_inventory d play =
      Succeeds-if (not (is_empty (inventory_file_of play))) _ _
        (Succeeds-hand d (text ".inventory-") (inventory_file_of play))
        (Succeeds-bind _ _ Succeeds-draw λ u1.
          Succeeds-send (path_join d (text ".inventory-" ++ u1))
            (remote_inventory (hosts_of play) (groups_of play)))
