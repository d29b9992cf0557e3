-- ===== src/Mode/Remote/Sent.antt =====
-- What mode/mode_remote.go has sent to the remote machine for a play beside its files: the inventory
-- and the vault files.
use terraform_provisioner_an.Base.{
  ◌≡◌, refl, ap, ◌∙◌, ◌⊎◌, inl, Bool, true, false, not, none, List, [], ◌∷◌, Text, is_empty,
  if◌then◌else◌,
}
use terraform_provisioner_an.Base.Outcome.{Outcome, ok, err, panic, ◌>>=◌}
use terraform_provisioner_an.Types.Helpers.{resolve_path}
use terraform_provisioner_an.Types.RemoteSettings.{RemoteSettings}
use terraform_provisioner_an.Types.Play.{Play}
use terraform_provisioner_an.Types.Play.Settings.{
  hosts_of, groups_of, inventory_file_of, vault_id_of, vault_password_file_of,
}
use terraform_provisioner_an.Mode.Hosts.{remote_inventory}
use terraform_provisioner_an.Mode.Remote.{
  Exit, refused, exited, lost, done, Event, ran, sent, sent_dir, logged, Remote, Session, draw,
  upload, upload_dir,
}
use terraform_provisioner_an.Mode.Remote.Commands.{
  check_command, ended, found, with_sudo, run_command, run_command_no_sudo, check_remote_dir_exists,
}
use terraform_provisioner_an.Mode.Remote.Yields.{
  same, more, Some, Some-Later, Post, Yields, Post-answer,
}

-- A file with the text was sent to the path, without an error.
pub data IsSent (path : Text) (contents : Outcome Text) : Event → Type 0 where
  is_sent : (c : Text) → contents ≡ ok c → IsSent path contents (sent path c none)

module _ (remote : Remote) where
  -- The text of a local file.
  abbrev pub contents_of : Text → Outcome Text
  contents_of source = resolve_path remote.files source >>= remote.read_file

  abbrev pub inventory_contents : Play → Outcome Text
  inventory_contents play =
      if not (is_empty (inventory_file_of play))
      then contents_of (inventory_file_of play)
      else ok (remote_inventory (hosts_of play) (groups_of play))

  -- The directory was sent, or found on the machine.
  pub data IsCopied (remote_dir source : Text) : Event → Type 0 where
    copied : IsCopied remote_dir source (sent_dir remote_dir source none)
    there :
        (reply : Exit)
        → found (ended remote (check_command remote_dir) reply) ≡ ok true
        → IsCopied remote_dir source (ran (check_command remote_dir) reply)

  -- The file of a source was sent to the path, which is empty only if there is no source.
  abbrev pub HasFile : List Event → Text → Text → Type 0
  HasFile h source path =
      ((is_empty source ≡ true) × (path ≡ []))
      ⊎ ((is_empty path ≡ false) × Some (IsSent path (contents_of source)) h)

  -- The files of the sources that are not empty were sent to the paths, in order.
  pub data HasFiles (h : List Event) : List Text → List Text → Type 0 where
    no_file : HasFiles h [] []
    no_source :
        {source : Text} {sources paths : List Text}
        → is_empty source ≡ true
        → HasFiles h sources paths
        → HasFiles h (source ∷ sources) paths
    a_file :
        {source path : Text} {sources paths : List Text}
        → Some (IsSent path (contents_of source)) h
        → HasFiles h sources paths
        → HasFiles h (source ∷ sources) (path ∷ paths)

  abbrev pub HasVault : List Event → Play → Play → Type 0
  HasVault h play play' =
      ((is_empty (vault_id_of play) ≡ false)
        × HasFiles h (vault_id_of play) play'.override_vault_id
        × (play'.override_vault_password_file ≡ play.override_vault_password_file))
      ⊎ ((is_empty (vault_id_of play) ≡ true)
          × HasFile h (vault_password_file_of play) play'.override_vault_password_file
          × (play'.override_vault_id ≡ play.override_vault_id))

  abbrev pub HasInventory : List Event → Play → Text → Type 0
  HasInventory h play path =
      (is_empty path ≡ false) × Some (IsSent path (inventory_contents play)) h

  pub Yields-draw : (s : Session) → Yields s (draw remote) (λ _ _. Unit {0})
  Yields-draw s = record { at = (same, λ k l. tt) }

  pub Yields-upload :
      (s : Session) (path c : Text) (o : Outcome Text)
      → o ≡ ok c
      → Yields s (upload remote path c) (λ _. Some (IsSent path o))
  unfolding upload
  Yields-upload s path c o e = record {
    at = Post-answer (IsSent path o) s (sent path c) (remote.upload s.history path c) (is_sent c e);
  }

  pub Yields-upload_dir :
      (s : Session) (path source : Text)
      → Yields s (upload_dir remote path source) (λ _. Some (IsCopied path source))
  unfolding upload_dir
  Yields-upload_dir s path source = record {
    at =
        Post-answer (IsCopied path source) s (sent_dir path source)
          (remote.upload_dir s.history path source) copied;
  }

  Post-ran :
      (s : Session) (command : Text) (reply : Exit)
      → Post s.history (λ _ _. Unit {0}) (ended remote command reply, logged (ran command reply) s)
  unfolding ended
  Post-ran s command (refused e) = more (ran command (refused e)) same
  Post-ran s command (exited status e) = more (ran command (exited status e)) same
  Post-ran s command (lost e) = more (ran command (lost e)) same
  Post-ran s command done = (more (ran command done) same, λ k l. tt)

  pub Yields-run_command :
      (s : Session) (v : RemoteSettings) (command : Text) (should_sudo : Bool)
      → Yields s (run_command remote v command should_sudo) (λ _ _. Unit {0})
  unfolding run_command
  Yields-run_command s v command should_sudo = record {
    at =
        Post-ran s (with_sudo v command should_sudo)
          (remote.start s.history (with_sudo v command should_sudo));
  }

  -- Only the exit status says that the directory is there.
  Post-found :
      (s : Session) (path source : Text) (reply : Exit) (o : Outcome Bool)
      → found (ended remote (check_command path) reply) ≡ o
      → Post s.history
          (λ b h. b ≡ true → Some (IsCopied path source) h)
          (o, logged (ran (check_command path) reply) s)
  Post-found s path source reply (ok b) e = (
    more (ran (check_command path) reply) same,
    λ k l q. Some-Later (IsCopied path source) l (inl (there reply (e ∙ ap ok q))),
  )
  Post-found s path source reply (err x) e = more (ran (check_command path) reply) same
  Post-found s path source reply panic e = more (ran (check_command path) reply) same

  pub Yields-check_remote_dir_exists :
      (s : Session) (v : RemoteSettings) (path source : Text)
      → Yields s
          (check_remote_dir_exists remote v path)
          (λ b h. b ≡ true → Some (IsCopied path source) h)
  unfolding check_remote_dir_exists run_command_no_sudo run_command with_sudo
  Yields-check_remote_dir_exists s v path source =
      let reply = remote.start s.history (check_command path) in
      record {
        at = Post-found s path source reply (found (ended remote (check_command path) reply)) refl;
      }
