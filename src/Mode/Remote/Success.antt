-- ===== src/Mode/Remote/Success.antt =====
-- `Run` of mode/mode_remote.go on a remote machine that fails nothing.
use terraform_provisioner_an.Base.{
  refl, ◌≢◌, ℕ, suc, true, false, not, List, [], ◌∷◌, Text, text, is_empty, has_prefix, All,
  if◌then◌else◌,
}
use mathlib.Core.Path.{subst, sym}
use terraform_provisioner_an.Base.Outcome.{ok, IsOk}
use terraform_provisioner_an.Go.Path.{clean}
use terraform_provisioner_an.Mode.Remote.Installer.{installer_program}
use terraform_provisioner_an.Types.RemoteSettings.{RemoteSettings}
use terraform_provisioner_an.Types.Play.{
  Play, Entity, unsupported, playbook, module_call, galaxy_install,
}
use terraform_provisioner_an.Command.Arguments.{Runtime}
use terraform_provisioner_an.Command.Total.{IsSupported, IsMarshalling, to_command-IsOk}
use terraform_provisioner_an.Mode.Remote.{Event, Remote, Session, Action, pure, ◌>>◌}
use terraform_provisioner_an.Mode.Remote.Commands.{run_command_sudo, run_command_no_sudo}
use terraform_provisioner_an.Mode.Remote.Deploy.{
  upload_once, deploy_role, deploy_roles, deploy_playbook, deploy_module, deploy_galaxy_install,
  deploy_entity, deploy_play, deploy_ansible_data,
}
use terraform_provisioner_an.Mode.Remote.Run.{
  ansible_version, installer_script, install_ansible, cleanup_after_bootstrap, retry_func,
  remote_args, run_play, run_plays, provision, run,
}
use terraform_provisioner_an.Mode.Remote.Succeeding.{
  IsCooperative, Succeeds, IsOk-bind, Succeeds-bind, Succeeds-pure, Succeeds-lift, Succeeds-if,
  Succeeds-upload, Succeeds-upload_dir, Succeeds-upload_script, Succeeds-run_command,
  Succeeds-check_remote_dir_exists, Succeeds-upload_vault, Succeeds-write_inventory,
}
use terraform_provisioner_an.Mode.Remote.Deployed.{
  Pointwise, HasEntity, IsDeployed, left_out, deployed,
}
use terraform_provisioner_an.Mode.Remote.Deployed.Sequence.{deploy_ansible_data-IsDeployed}

module _ (remote : Remote) (v : RemoteSettings) (c : IsCooperative remote) where
  Succeeds-upload_once : (d source : Text) → Succeeds (upload_once remote v d source)
  unfolding upload_once
  Succeeds-upload_once d source =
      Succeeds-bind _ _ (Succeeds-check_remote_dir_exists remote c v d)
        λ b. Succeeds-if b _ _ (Succeeds-pure tt) (Succeeds-upload_dir remote c d source)

  Succeeds-deploy_roles : (paths : List Text) → Succeeds (deploy_roles remote v paths)
  unfolding deploy_roles deploy_role
  Succeeds-deploy_roles [] = Succeeds-pure []
  Succeeds-deploy_roles (path ∷ paths) =
      Succeeds-bind _ _
        (Succeeds-if (has_prefix path (text "galaxy_install:")) _ _ (Succeeds-pure _) (
          Succeeds-bind _ _ (Succeeds-lift _ (c.resolves path))
            λ r. Succeeds-bind _ _ (Succeeds-upload_once _ r) λ _. Succeeds-pure _))
        λ path'. Succeeds-bind _ _ (Succeeds-deploy_roles paths) λ paths'. Succeeds-pure _

  Succeeds-deploy_entity :
      (play : Play) (entity : Entity) → Succeeds (deploy_entity remote v play entity)
  unfolding deploy_entity deploy_playbook deploy_module deploy_galaxy_install run_command_no_sudo
  Succeeds-deploy_entity play (playbook e) =
      Succeeds-bind _ _ (Succeeds-lift _ (c.resolves _)) λ path.
        Succeeds-bind _ _ (Succeeds-run_command remote c v _ false) λ _.
          Succeeds-bind _ _ (Succeeds-upload_once _ _) λ _.
            Succeeds-bind _ _ (Succeeds-write_inventory remote c _ play) λ inv.
              Succeeds-bind _ _ (Succeeds-upload_vault remote c _ _)
                λ play'. Succeeds-bind _ _ (Succeeds-deploy_roles _) λ roles. Succeeds-pure _
  Succeeds-deploy_entity play (module_call e) =
      Succeeds-bind _ _ (Succeeds-run_command remote c v _ false) λ _.
        Succeeds-bind _ _ (Succeeds-upload_vault remote c _ play) λ play'.
          Succeeds-bind _ _ (Succeeds-write_inventory remote c _ play') λ inv. Succeeds-pure _
  Succeeds-deploy_entity play (galaxy_install e) =
      Succeeds-bind _ _ (Succeeds-run_command remote c v _ false) λ _.
        Succeeds-bind _ _ (Succeeds-run_command remote c v _ false) λ _.
          Succeeds-bind _ _ (Succeeds-lift _ (c.reads e.role_file))
            λ file. Succeeds-bind _ _ (Succeeds-upload remote c _ file) λ _. Succeeds-pure _
  Succeeds-deploy_entity play unsupported = Succeeds-pure play

  Succeeds-deploy_ansible_data : (plays : List Play) → Succeeds (deploy_ansible_data remote v plays)
  unfolding deploy_ansible_data deploy_play
  Succeeds-deploy_ansible_data [] = Succeeds-pure []
  Succeeds-deploy_ansible_data (play ∷ plays) =
      Succeeds-bind _ _
        (Succeeds-if (not play.enabled) _ _ (Succeeds-pure play)
          (Succeeds-deploy_entity play play.entity))
        λ play'. Succeeds-bind _ _ (Succeeds-deploy_ansible_data plays) λ plays'. Succeeds-pure _

  installer_script-IsOk : IsOk (installer_script remote v)
  unfolding installer_script
  installer_script-IsOk =
      elim (not (is_empty v.local_installer_path))
        as (λ b. IsOk (
          if b
          then remote.read_file (clean v.local_installer_path)
          else ok (installer_program (ansible_version remote v)))) [
            | true ↦ c.reads (clean v.local_installer_path)
            | false ↦ tt
          ]

  Succeeds-install_ansible : Succeeds (install_ansible remote v)
  unfolding install_ansible run_command_no_sudo run_command_sudo
  Succeeds-install_ansible = Succeeds-bind _ _ (Succeeds-lift _ installer_script-IsOk) λ script.
      Succeeds-bind _ _ (Succeeds-run_command remote c v _ false) λ _.
        Succeeds-bind _ _ (Succeeds-upload_script remote c _ script)
          λ _. Succeeds-run_command remote c v _ true

  Succeeds-cleanup_after_bootstrap : Succeeds (cleanup_after_bootstrap remote v)
  unfolding cleanup_after_bootstrap
  Succeeds-cleanup_after_bootstrap = record { at = λ s. tt }

IsSupported-of_HasEntity :
    (remote : Remote) (v : RemoteSettings) (h : List Event) (play play' : Play) (e e' : Entity)
    → HasEntity remote v h play play' e e'
    → e ≢ unsupported
    → e' ≢ unsupported
IsSupported-of_HasEntity remote v h play play' e (playbook x) k n p = cc
IsSupported-of_HasEntity remote v h play play' e (module_call x) k n p = cc
IsSupported-of_HasEntity remote v h play play' e (galaxy_install x) k n p = cc
IsSupported-of_HasEntity remote v h play play' (playbook x) unsupported k n p = k
IsSupported-of_HasEntity remote v h play play' (module_call x) unsupported k n p = k
IsSupported-of_HasEntity remote v h play play' (galaxy_install x) unsupported k n p = k
IsSupported-of_HasEntity remote v h play play' unsupported unsupported k n p = n refl

All-IsSupported :
    (remote : Remote) (v : RemoteSettings) (h : List Event) (plays plays' : List Play)
    → Pointwise (IsDeployed remote v h) plays plays'
    → All IsSupported plays
    → All IsSupported plays'
All-IsSupported remote v h [] [] k n = tt
All-IsSupported remote v h [] (play' ∷ plays') k n = absurd k
All-IsSupported remote v h (play ∷ plays) [] k n = absurd k
All-IsSupported remote v h (play ∷ plays) (play' ∷ plays') (left_out e p, k) (n, ns) =
    (subst IsSupported (sym p) n, All-IsSupported remote v h plays plays' k ns)
All-IsSupported remote v h (play ∷ plays) (play' ∷ plays') (deployed e u d, k) (n, ns) = (
  IsSupported-of_HasEntity remote v h play play' play.entity play'.entity d n,
  All-IsSupported remote v h plays plays' k ns,
)

-- `Run` from the installation on.
abbrev from_install : Runtime → Remote → RemoteSettings → Text → List Play → Action (Unit {0})
from_install rt remote v user plays = do
  if not v.skip_install then install_ansible remote v else pure tt
  run_plays rt remote v user plays
  if not v.skip_cleanup then cleanup_after_bootstrap remote v else pure tt

module _ (rt : Runtime) (remote : Remote) (v : RemoteSettings) (user : Text) (m : IsMarshalling rt)
    (c : IsCooperative remote) where
  Succeeds-run_plays :
      (plays : List Play) → All IsSupported plays → Succeeds (run_plays rt remote v user plays)
  unfolding run_plays run_play run_command_sudo
  Succeeds-run_plays [] n = Succeeds-pure tt
  Succeeds-run_plays (play ∷ plays) (n, ns) =
      Succeeds-bind _ _
        (Succeeds-bind _ _ (Succeeds-lift _ ((to_command-IsOk rt m play (remote_args user)).1 n))
          λ command. Succeeds-run_command remote c v command true)
        λ _. Succeeds-run_plays plays ns

  Succeeds-from_install :
      (plays : List Play) → All IsSupported plays → Succeeds (from_install rt remote v user plays)
  Succeeds-from_install plays n =
      Succeeds-bind _ _
        (Succeeds-if (not v.skip_install) _ _ (Succeeds-install_ansible remote v c)
          (Succeeds-pure tt))
        λ _. Succeeds-bind _ _ (Succeeds-run_plays plays n) λ _.
          Succeeds-if (not v.skip_cleanup) _ _ (Succeeds-cleanup_after_bootstrap remote v c)
            (Succeeds-pure tt)

  provision-IsOk :
      (plays : List Play) (s : Session)
      → All IsSupported plays
      → IsOk (provision rt remote v user plays s).0
  unfolding provision
  provision-IsOk plays s n =
      IsOk-bind (deploy_ansible_data remote v plays) (from_install rt remote v user) s
        ((Succeeds-deploy_ansible_data remote v c plays).at s)
        λ plays' e.
          let d = deploy_ansible_data-IsDeployed remote v s plays plays' e in
          (Succeeds-from_install plays' (All-IsSupported remote v _ plays plays' d n)).at
            (deploy_ansible_data remote v plays s).1

  -- If the remote machine fails nothing, every local file is there, each map of extra variables can be
  -- marshalled, and each play has a playbook, a module or a galaxy install, then Run ends without an
  -- error, whatever the settings.
  pub run-IsOk :
      (fuel : ℕ) (plays : List Play) (s : Session)
      → All IsSupported plays
      → IsOk (run rt remote v user (suc fuel) plays s).0
  unfolding run retry_func
  run-IsOk fuel plays s n = rw (c.connects) (provision-IsOk plays s n)
