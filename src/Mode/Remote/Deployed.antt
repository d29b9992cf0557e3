-- ===== src/Mode/Remote/Deployed.antt =====
-- What `deployAnsibleData` of mode/mode_remote.go promises of the plays that it goes on with.
pub mod Plays
pub mod Sequence
use terraform_provisioner_an.Base.{
  ◌≡◌, refl, sym, ap, ◌∙◌, ◌⊎◌, inl, inr, Bool, true, false, not, Option, none, some, List, [], ◌∷◌,
  ◌++◌, Text, text, is_empty, has_prefix, trim_prefix, if◌then◌else◌, arith,
}
use terraform_provisioner_an.Base.Outcome.{Outcome, ok, err, panic}
use terraform_provisioner_an.Go.Path.{path_join, path_join-ne-nil, path_join-below, dir, base}
use terraform_provisioner_an.Types.Helpers.{resolve_path}
use terraform_provisioner_an.Types.RemoteSettings.{RemoteSettings, bootstrap_directory_of}
use terraform_provisioner_an.Types.Playbook.{
  Playbook, file_path_of, roles_path_of, set_override_file_path, set_override_roles_path,
}
use terraform_provisioner_an.Types.Module.{Module}
use terraform_provisioner_an.Types.GalaxyInstall.{GalaxyInstall, set_role_file, set_roles_path}
use terraform_provisioner_an.Types.Play.{
  Play, Entity, unsupported, playbook, module_call, galaxy_install,
}
use terraform_provisioner_an.Types.Play.Settings.{inventory_file_of, set_override_inventory_file}
use terraform_provisioner_an.Mode.Remote.{
  Event, Remote, Session, Action, pure, lift, ◌>>=◌, ◌>>◌, upload, upload_dir,
}
use terraform_provisioner_an.Mode.Remote.Commands.{
  mkdir_command, run_command_no_sudo, check_remote_dir_exists,
}
use terraform_provisioner_an.Mode.Remote.Uploads.{upload_vault, write_inventory}
use terraform_provisioner_an.Mode.Remote.Deploy.{
  upload_once, deploy_role, deploy_roles, with_entity, deploy_playbook, deploy_module,
  remote_roles_dir, deploy_galaxy_install, deploy_entity, deploy_play, deploy_ansible_data,
}
use terraform_provisioner_an.Mode.Remote.Yields.{
  same, Later-trans, Some, Ever, Yields, Yields-weaken, Yields-pure, Yields-lift, Yields-if,
  Yields-bind, Yields-result,
}
use terraform_provisioner_an.Mode.Remote.Sent.{
  IsSent, IsCopied, inventory_contents, HasVault, Yields-upload, Yields-upload_dir,
  Yields-run_command, Yields-check_remote_dir_exists,
}
use terraform_provisioner_an.Mode.Remote.Handed.{
  untouched, Yields-write_inventory, Yields-upload_vault,
}

abbrev pub Pointwise : {A B : Type 0} → (A → B → Type 0) → List A → List B → Type 0
Pointwise R [] [] = Unit
Pointwise R (x ∷ xs) (y ∷ ys) = R x y × Pointwise R xs ys
Pointwise R _ _ = ⊥

-- Playbooks and galaxy installs without the fields that the deployment sets.
abbrev pub untouched_playbook : Playbook → Playbook
untouched_playbook e = record e { override_file_path = []; override_roles_path = [] }

abbrev pub untouched_install : GalaxyInstall → GalaxyInstall
untouched_install e = record e { role_file = []; roles_path = [] }

module _ (remote : Remote) (v : RemoteSettings) where
  -- Where a local directory goes.
  abbrev pub place_of : Text → Text
  place_of source = path_join (bootstrap_directory_of v) (remote.md5 source)

  -- The roles path that a playbook is given, for each of its own: that of a galaxy install, or where
  -- the directory was copied.
  pub data HasRole (h : List Event) (path : Text) : Text → Type 0 where
    installed :
        has_prefix path (text "galaxy_install:") ≡ true
        → HasRole h path (trim_prefix path (text "galaxy_install:"))
    uploaded :
        (resolved_path : Text)
        → resolve_path remote.files path ≡ ok resolved_path
        → Some (IsCopied remote (place_of resolved_path) resolved_path) h
        → HasRole h path (place_of resolved_path)

  -- The playbook's directory was copied, and the playbook is named where it is then.
  pub record HasPlaybook (h : List Event) (e e' : Playbook) : Type 0 where
    pub path : Text
    pub resolves : resolve_path remote.files (file_path_of e) ≡ ok path
    pub copied : Some (IsCopied remote (place_of (dir path)) (dir path)) h
    pub named : file_path_of e' ≡ path_join (place_of (dir path)) (base path)
    pub roles : Pointwise (HasRole h) (roles_path_of e) (roles_path_of e')
    pub kept : untouched_playbook e' ≡ untouched_playbook e

  -- The role file was sent, and the galaxy install is given its name and the directory for roles.
  pub record HasRoleFile (h : List Event) (e e' : GalaxyInstall) : Type 0 where
    pub is_there : Some (IsSent e'.role_file (remote.read_file e.role_file)) h
    pub in_place : e'.roles_path ≡ remote_roles_dir v e.roles_path
    pub kept : untouched_install e' ≡ untouched_install e

  -- Inventory and vault files were sent, and the play is given their names.
  pub record HasFiles (h : List Event) (play play' : Play) : Type 0 where
    pub inventory : Some (IsSent (inventory_file_of play') (inventory_contents remote play)) h
    pub vault : HasVault remote h play play'

  abbrev pub HasEntity : List Event → Play → Play → Entity → Entity → Type 0
  HasEntity h play play' (playbook e) (playbook e') = HasPlaybook h e e' × HasFiles h play play'
  HasEntity h play play' (module_call e) (module_call e') = (e ≡ e') × HasFiles h play play'
  HasEntity h play play' (galaxy_install e) (galaxy_install e') =
      HasRoleFile h e e'
      × (record play' { entity = unsupported } ≡ record play { entity = unsupported })
  HasEntity h play play' unsupported unsupported = play' ≡ play
  HasEntity h play play' _ _ = ⊥

  -- What holds of a play and of what it was made.
  pub data IsDeployed (h : List Event) (play play' : Play) : Type 0 where
    left_out : play.enabled ≡ false → play' ≡ play → IsDeployed h play play'
    deployed :
        play.enabled ≡ true
        → untouched play' ≡ untouched play
        → HasEntity h play play' play.entity play'.entity
        → IsDeployed h play play'

  pub Yields-upload_once :
      (s : Session) (d source : Text)
      → Yields s (upload_once remote v d source) (λ _. Some (IsCopied remote d source))
  unfolding upload_once
  Yields-upload_once s d source =
      Yields-bind s _ _ (Yields-check_remote_dir_exists remote s v d source) λ b t _ q.
        Yields-if t b _ _ (λ e. Yields-pure t tt λ k l. q k l e)
          λ _. Yields-upload_dir remote t d source

  Yields-deploy_role :
      (s : Session) (path : Text)
      → Yields s (deploy_role remote v path) (λ path' h. HasRole h path path')
  unfolding deploy_role
  Yields-deploy_role s path =
      Yields-if s (has_prefix path (text "galaxy_install:")) _ _
        (λ e. Yields-pure s _ λ k l. installed e)
        λ _.
          Yields-bind s _ _
            (Yields-lift {Q = λ r _. resolve_path remote.files path ≡ ok r} s _ λ r e k l. e)
            λ r t _ e.
              Yields-bind t _ _ (Yields-upload_once t (place_of r) r)
                λ _ u _ q. Yields-pure u _ λ k l. uploaded r (e t.history same) (q k l)

  pub Yields-deploy_roles :
      (s : Session) (paths : List Text)
      → Yields s (deploy_roles remote v paths) (λ paths' h. Pointwise (HasRole h) paths paths')
  unfolding deploy_roles
  Yields-deploy_roles s [] = Yields-pure s [] λ k l. tt
  Yields-deploy_roles s (path ∷ paths) =
      Yields-bind s _ _ (Yields-deploy_role s path) λ path' t _ p.
        Yields-bind t _ _ (Yields-deploy_roles t paths)
          λ paths' u m q. Yields-pure u _ λ k l. (p k (Later-trans m l), q k l)
