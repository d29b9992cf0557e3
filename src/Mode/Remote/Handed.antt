-- ===== src/Mode/Remote/Handed.antt =====
-- What `uploadVaultPasswordOrIDFile`, the loop over vault identities and `writeInventory` of
-- mode/mode_remote.go leave on the remote machine.
use terraform_provisioner_an.Base.{
  ◌≡◌, refl, sym, inl, inr, Bool, true, false, not, List, [], ◌∷◌, ◌++◌, Text, text, is_empty,
  arith,
}
use mathlib.Core.Path.{subst}
use terraform_provisioner_an.Base.Outcome
use terraform_provisioner_an.Base.Outcome.{Outcome, ok, err, panic}
use terraform_provisioner_an.Go.Path.{path_join, path_join-ne-nil}
use terraform_provisioner_an.Types.Helpers.{resolve_path}
use terraform_provisioner_an.Types.Play.{Play, unsupported}
use terraform_provisioner_an.Types.Play.Settings.{
  inventory_file_of, hosts_of, groups_of, vault_id_of, vault_password_file_of,
  set_override_vault_id, set_override_vault_password_path,
}
use terraform_provisioner_an.Mode.Hosts.{remote_inventory}
use terraform_provisioner_an.Mode.Remote.{
  Event, Remote, Session, pure, lift, ◌>>=◌, ◌>>◌, draw, upload,
}
use terraform_provisioner_an.Mode.Remote.Uploads.{
  upload_vault_password_or_id_file, appended_id, upload_vault_ids, upload_vault, write_inventory,
}
use terraform_provisioner_an.Mode.Remote.Yields.{
  same, Later-trans, Some, Yields, Yields-weaken, Yields-pure, Yields-lift, Yields-if, Yields-bind,
}
use terraform_provisioner_an.Mode.Remote.Sent.{
  IsSent, contents_of, inventory_contents, HasFile, HasFiles, no_file, no_source, a_file, HasVault,
  HasInventory, Yields-draw, Yields-upload,
}

-- A play without what the upload changes.
abbrev pub untouched : Play → Play
untouched play = record play {
  entity = unsupported;
  override_inventory_file = [];
  override_vault_id = [];
  override_vault_password_file = [];
}

path-ne-nil :
    (d prefix u : Text) → is_empty prefix ≡ false → is_empty (path_join d (prefix ++ u)) ≡ false
path-ne-nil d [] u e = cc
path-ne-nil d (c ∷ p) u e = path_join-ne-nil d ((c ∷ p) ++ u) refl

bind-ok :
    {A B : Type 0} (m : Outcome A) (f : A → Outcome B) (a : A) (o : Outcome B)
    → m ≡ ok a
    → f a ≡ o
    → Outcome.◌>>=◌ m f ≡ o
bind-ok m f a o e q = rw (e, q)

not-true : {b : Bool} → not b ≡ true → b ≡ false
not-true e = ground arith

not-false : {b : Bool} → not b ≡ false → b ≡ true
not-false e = ground arith

module _ (remote : Remote) where
  contents-given :
      (play : Play)
      → not (is_empty (inventory_file_of play)) ≡ true
      → inventory_contents remote play ≡ contents_of remote (inventory_file_of play)
  contents-given play e = rw e

  contents-generated :
      (play : Play)
      → not (is_empty (inventory_file_of play)) ≡ false
      → inventory_contents remote play ≡ ok (remote_inventory (hosts_of play) (groups_of play))
  contents-generated play e = rw e

  -- The end of both functions: a text is sent to a new path.
  Yields-send :
      (s : Session) (d prefix c : Text) (o : Outcome Text)
      → is_empty prefix ≡ false
      → o ≡ ok c
      → (u1 : Text)
      → Yields s
          (upload remote (path_join d (prefix ++ u1)) c >> pure (path_join d (prefix ++ u1)))
          (λ path h. (is_empty path ≡ false) × Some (IsSent path o) h)
  Yields-send s d prefix c o ne e u1 =
      Yields-bind s _ _ (Yields-upload remote s (path_join d (prefix ++ u1)) c o e)
        λ _ t _ q. Yields-pure t _ λ k l. (path-ne-nil d prefix u1 ne, q k l)

  -- The same for the text of a local file.
  Yields-hand :
      (s : Session) (d prefix source : Text)
      → is_empty prefix ≡ false
      → Yields s
          (do
            path ← lift (resolve_path remote.files source)
            u1 ← draw remote
            file ← lift (remote.read_file path)
            upload remote (path_join d (prefix ++ u1)) file
            pure (path_join d (prefix ++ u1)))
          (λ path h. (is_empty path ≡ false) × Some (IsSent path (contents_of remote source)) h)
  Yields-hand s d prefix source ne =
      Yields-bind s _ _
        (Yields-lift {Q = λ path _. resolve_path remote.files source ≡ ok path} s _ λ path e k l. e)
        λ path s1 _ e. Yields-bind s1 _ _ (Yields-draw remote s1) λ u1 s2 _ _.
          Yields-bind s2 _ _
            (Yields-lift {Q = λ c _. contents_of remote source ≡ ok c} s2 _
              λ c q k l. bind-ok _ remote.read_file path (ok c) (e s1.history same) q)
            λ c s3 _ q.
              Yields-send s3 d prefix c (contents_of remote source) ne (q s3.history same) u1

  Yields-upload_vault_password_or_id_file :
      (s : Session) (d source : Text)
      → Yields s
          (upload_vault_password_or_id_file remote d source)
          (λ path h. HasFile remote h source path)
  unfolding upload_vault_password_or_id_file text
  Yields-upload_vault_password_or_id_file s d source =
      Yields-if s (is_empty source) _ _ (λ e. Yields-pure s [] λ k l. inl (e, refl))
        (λ e.
          Yields-weaken s _ (Yields-hand s d (text ".vault-file-") source refl) λ path k q. inr q)

  pub Yields-write_inventory :
      (s : Session) (d : Text) (play : Play)
      → Yields s (write_inventory remote d play) (λ path h. HasInventory remote h play path)
  unfolding write_inventory text
  Yields-write_inventory s d play =
      Yields-if s (not (is_empty (inventory_file_of play))) _ _
        (λ e.
          Yields-weaken s _ (Yields-hand s d (text ".inventory-") (inventory_file_of play) refl)
            λ path k (n, q).
              (n, subst (λ o. Some (IsSent path o) k) (sym (contents-given play e)) q))
        λ e. Yields-bind s _ _ (Yields-draw remote s) λ u1 t _ _.
          Yields-send t d (text ".inventory-") (remote_inventory (hosts_of play) (groups_of play))
            (inventory_contents remote play) refl (contents-generated play e) u1

  HasFiles-appended :
      (h : List Event) (source path : Text) (sources paths : List Text)
      → HasFile remote h source path
      → HasFiles remote h sources paths
      → HasFiles remote h (source ∷ sources) (appended_id path paths)
  HasFiles-appended h source [] sources paths (inl (e, p)) q = no_source e q
  HasFiles-appended h source [] sources paths (inr (n, p)) q = cc
  HasFiles-appended h source (c ∷ path) sources paths (inl (e, p)) q = cc
  HasFiles-appended h source (c ∷ path) sources paths (inr (n, p)) q = a_file p q

  Yields-upload_vault_ids :
      (s : Session) (d : Text) (sources : List Text)
      → Yields s (upload_vault_ids remote d sources) (λ paths h. HasFiles remote h sources paths)
  unfolding upload_vault_ids
  Yields-upload_vault_ids s d [] = Yields-pure s [] λ k l. no_file
  Yields-upload_vault_ids s d (source ∷ sources) =
      Yields-bind s _ _ (Yields-upload_vault_password_or_id_file s d source) λ path t _ p.
        Yields-bind t _ _ (Yields-upload_vault_ids t d sources) λ paths u m q.
          Yields-pure u _
            λ k l. HasFiles-appended k source path sources paths (p k (Later-trans m l)) (q k l)

  -- What the upload of vault files makes of a play.
  abbrev pub Vaulted : Play → Play → List Event → Type 0
  Vaulted play play' h =
      HasVault remote h play play'
      × (untouched play' ≡ untouched play)
      × (play'.override_inventory_file ≡ play.override_inventory_file)
      × (play'.entity ≡ play.entity)

  pub Yields-upload_vault :
      (s : Session) (d : Text) (play : Play) → Yields s (upload_vault remote d play) (Vaulted play)
  unfolding upload_vault set_override_vault_id set_override_vault_password_path
  Yields-upload_vault s d play =
      Yields-if s (not (is_empty (vault_id_of play))) _ _
        (λ e.
          Yields-bind s _ _ (Yields-upload_vault_ids s d (vault_id_of play))
            λ ids t _ q. Yields-pure t _ λ k l. (inl (not-true e, q k l, refl), refl, refl, refl))
        λ e.
          Yields-bind s _ _
            (Yields-upload_vault_password_or_id_file s d (vault_password_file_of play))
            λ path t _ q. Yields-pure t _ λ k l. (inr (not-false e, q k l, refl), refl, refl, refl)
