-- ===== src/Mode/Remote/Deployed/Plays.antt =====
-- `deployAnsibleData` of mode/mode_remote.go by the kinds of plays.
use terraform_provisioner_an.Base.{
  ◌≡◌, refl, sym, ap, ◌∙◌, false, List, [], ◌∷◌, Text, text, is_empty, arith,
}
use mathlib.Core.Path.{subst}
use terraform_provisioner_an.Base.Outcome.{ok}
use terraform_provisioner_an.Go.Path.{path_join, path_join-ne-nil, path_join-below, dir, base}
use terraform_provisioner_an.Types.Helpers.{resolve_path}
use terraform_provisioner_an.Types.RemoteSettings.{RemoteSettings, bootstrap_directory_of}
use terraform_provisioner_an.Types.Playbook.{
  Playbook, file_path_of, roles_path_of, set_override_file_path, set_override_roles_path,
}
use terraform_provisioner_an.Types.Module.{Module}
use terraform_provisioner_an.Types.GalaxyInstall.{GalaxyInstall, set_role_file, set_roles_path}
use terraform_provisioner_an.Types.Play.{Play, Entity, playbook, module_call, galaxy_install}
use terraform_provisioner_an.Types.Play.Settings.{
  hosts_of, groups_of, inventory_file_of, vault_id_of, vault_password_file_of,
  set_override_inventory_file,
}
use terraform_provisioner_an.Mode.Remote.{Event, Remote, Session}
use terraform_provisioner_an.Mode.Remote.Commands.{run_command_no_sudo}
use terraform_provisioner_an.Mode.Remote.Deploy.{
  with_entity, deploy_playbook, deploy_module, deploy_galaxy_install,
}
use terraform_provisioner_an.Mode.Remote.Yields.{
  same, Later-trans, Some, Yields, Yields-pure, Yields-lift, Yields-bind,
}
use terraform_provisioner_an.Mode.Remote.Sent.{
  IsSent, IsCopied, inventory_contents, HasInventory, HasVault, Yields-upload, Yields-run_command,
}
use terraform_provisioner_an.Mode.Remote.Handed.{
  untouched, Vaulted, Yields-write_inventory, Yields-upload_vault,
}
use terraform_provisioner_an.Mode.Remote.Deployed.{
  Pointwise, place_of, HasRole, HasFiles, HasEntity, untouched_playbook, Yields-upload_once,
  Yields-deploy_roles,
}

inventory_file_of-override :
    (play : Play) (path : Text)
    → is_empty path ≡ false
    → play.override_inventory_file ≡ path
    → inventory_file_of play ≡ path
unfolding inventory_file_of
inventory_file_of-override play [] n e = cc
inventory_file_of-override play (c ∷ path) n e = ground arith

file_path_of-override :
    (e : Playbook) (path : Text) (roles : List Text)
    → is_empty path ≡ false
    → file_path_of (set_override_roles_path (set_override_file_path e path) roles) ≡ path
unfolding file_path_of set_override_file_path set_override_roles_path
file_path_of-override e [] roles n = cc
file_path_of-override e (c ∷ path) roles n = refl

no_roles : (e : Playbook) → roles_path_of e ≡ [] → e.roles_path ≡ []
unfolding roles_path_of
no_roles e p = ground arith

-- No roles are given only if there are none, and then there are none to override.
Pointwise-roles :
    (R : Text → Text → Type 0) (e : Playbook) (path : Text) (roles own : List Text)
    → roles_path_of e ≡ own
    → Pointwise R own roles
    → Pointwise R own
        (roles_path_of (set_override_roles_path (set_override_file_path e path) roles))
unfolding roles_path_of set_override_file_path set_override_roles_path
Pointwise-roles R e path [] [] p h = subst (Pointwise R []) (sym (no_roles e p)) tt
Pointwise-roles R e path [] (x ∷ own) p h = absurd h
Pointwise-roles R e path (r ∷ roles) own p h = h

module _ (remote : Remote) (v : RemoteSettings) where
  -- With the name of an inventory that was sent, and the vault files.
  given_files :
      (h : List Event) (play play' : Play) (path : Text) (entity : Entity)
      → HasInventory remote h play path
      → play'.override_inventory_file ≡ path
      → HasVault remote h play play'
      → HasFiles remote v h play (with_entity play' entity)
  given_files h play play' path entity (n, p) e q = record {
    inventory =
        subst (λ x. Some (IsSent x (inventory_contents remote play)) h)
          (sym (inventory_file_of-override (with_entity play' entity) path n e)) p;
    vault = q;
  }

  place-ne-nil : (source : Text) → is_empty (place_of remote v source) ≡ false
  unfolding bootstrap_directory_of text
  place-ne-nil source =
      path_join-below _ (remote.md5 source)
        (path_join-ne-nil v.bootstrap_directory (text "tf-ansible-bootstrap") refl)

  -- What is meant of a play, and of the play that it becomes.
  abbrev pub Meant : Play → Entity → Play → List Event → Type 0
  Meant play entity play' h =
      (untouched play' ≡ untouched play) × HasEntity remote v h play play' entity play'.entity

  kept_playbook :
      (e : Playbook) (path : Text) (roles : List Text)
      → untouched_playbook (set_override_roles_path (set_override_file_path e path) roles)
        ≡ untouched_playbook e
  unfolding set_override_file_path set_override_roles_path
  kept_playbook e path roles = refl

  playbook-Meant :
      (h : List Event) (play play' : Play) (e : Playbook) (path inv : Text) (roles : List Text)
      → resolve_path remote.files (file_path_of e) ≡ ok path
      → Some (IsCopied remote (place_of remote v (dir path)) (dir path)) h
      → HasInventory remote h play inv
      → Vaulted remote (set_override_inventory_file play inv) play' h
      → Pointwise (HasRole remote v h) (roles_path_of e) roles
      → Meant play
          (playbook e)
          (with_entity play' (
            playbook (
              set_override_roles_path
                (set_override_file_path e (path_join (place_of remote v (dir path)) (base path)))
                roles)))
          h
  unfolding set_override_inventory_file vault_id_of vault_password_file_of
  playbook-Meant h play play' e path inv roles p c i (w, same_play, same_inv, same_entity) r =
      let target = path_join (place_of remote v (dir path)) (base path) in
      (
        same_play,
        (
          record {
            path = path;
            resolves = p;
            copied = c;
            named =
                file_path_of-override e target roles
                  (path_join-below _ (base path) (place-ne-nil (dir path)));
            roles = Pointwise-roles (HasRole remote v h) e target roles (roles_path_of e) refl r;
            kept = kept_playbook e target roles;
          },
          given_files h play play' inv _ i same_inv w,
        ),
      )

  pub Yields-deploy_playbook :
      (s : Session) (play : Play) (e : Playbook)
      → Yields s (deploy_playbook remote v play e) (Meant play (playbook e))
  unfolding deploy_playbook run_command_no_sudo set_override_inventory_file set_override_file_path
      roles_path_of
  Yields-deploy_playbook s play e =
      Yields-bind s _ _
        (Yields-lift {Q = λ path _. resolve_path remote.files (file_path_of e) ≡ ok path} s _
          λ path q k l. q)
        λ path s1 _ p. Yields-bind s1 _ _ (Yields-run_command remote s1 v _ false) λ _ s2 _ _.
          Yields-bind s2 _ _
            (Yields-upload_once remote v s2 (place_of remote v (dir path)) (dir path))
            λ _ s3 _ c. Yields-bind s3 _ _ (Yields-write_inventory remote s3 _ play) λ inv s4 l4 i.
              Yields-bind s4 _ _
                (Yields-upload_vault remote s4 _ (set_override_inventory_file play inv))
                λ play' s5 l5 w.
                  Yields-bind s5 _ _ (Yields-deploy_roles remote v s5 _) λ roles s6 l6 r.
                    Yields-pure s6 _ λ k m.
                      let n = Later-trans l6 m in
                      playbook-Meant k play play' e path inv roles (p s1.history same)
                        (c k (Later-trans l4 (Later-trans l5 n))) (i k (Later-trans l5 n)) (w k n)
                        (r k m)

  inventory_contents-untouched :
      (play play' : Play)
      → untouched play' ≡ untouched play
      → play'.override_inventory_file ≡ play.override_inventory_file
      → inventory_contents remote play' ≡ inventory_contents remote play
  unfolding inventory_file_of hosts_of groups_of
  inventory_contents-untouched play play' p q =
      ap
        (λ x.
          inventory_contents remote
            (record x { override_inventory_file = play'.override_inventory_file }))
        p
      ∙ ap
          (λ i. inventory_contents remote (record (untouched play) { override_inventory_file = i }))
          q

  module-Meant :
      (h : List Event) (play play' : Play) (e : Module) (inv : Text)
      → play.entity ≡ module_call e
      → Vaulted remote play play' h
      → HasInventory remote h play' inv
      → Meant play (module_call e) (set_override_inventory_file play' inv) h
  unfolding set_override_inventory_file
  module-Meant h play play' e inv q (w, same_play, same_inv, same_entity) (n, i) =
      let named =
        subst (λ o. Some (IsSent inv o) h)
          (inventory_contents-untouched play play' same_play same_inv) i in
      let final = record play' { override_inventory_file = inv } in
      (
        same_play,
        subst (HasEntity remote v h play final (module_call e)) (sym (same_entity ∙ q))
            (refl, given_files h play final inv final.entity (n, named) refl w),
      )

  pub Yields-deploy_module :
      (s : Session) (play : Play) (e : Module)
      → play.entity ≡ module_call e
      → Yields s (deploy_module remote v play e) (Meant play (module_call e))
  unfolding deploy_module run_command_no_sudo set_override_inventory_file
  Yields-deploy_module s play e q =
      Yields-bind s _ _ (Yields-run_command remote s v _ false) λ _ s1 _ _.
        Yields-bind s1 _ _ (Yields-upload_vault remote s1 _ play) λ play' s2 _ w.
          Yields-bind s2 _ _ (Yields-write_inventory remote s2 _ play') λ inv s3 l i.
            Yields-pure s3 _
              λ k m. module-Meant k play play' e inv q (w k (Later-trans l m)) (i k m)

  pub Yields-deploy_galaxy_install :
      (s : Session) (play : Play) (e : GalaxyInstall)
      → Yields s (deploy_galaxy_install remote v play e) (Meant play (galaxy_install e))
  unfolding deploy_galaxy_install run_command_no_sudo set_role_file set_roles_path
  Yields-deploy_galaxy_install s play e =
      Yields-bind s _ _ (Yields-run_command remote s v _ false) λ _ s1 _ _.
        Yields-bind s1 _ _ (Yields-run_command remote s1 v _ false) λ _ s2 _ _.
          Yields-bind s2 _ _
            (Yields-lift {Q = λ c _. remote.read_file e.role_file ≡ ok c} s2 _ λ c q k l. q)
            λ c s3 _ q.
              Yields-bind s3 _ _
                (Yields-upload remote s3 _ c (remote.read_file e.role_file) (q s3.history same))
                λ _ s4 _ p.
                  Yields-pure s4 _
                    λ k m. (refl, (record { is_there = p k m; in_place = refl; kept = refl }, refl))
