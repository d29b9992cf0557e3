-- ===== src/Mode/Remote/Deployed/Sequence.antt =====
-- `deployAnsibleData` of mode/mode_remote.go over all plays.
use terraform_provisioner_an.Base.{◌≡◌, refl, Bool, true, false, not, List, [], ◌∷◌, arith}
use terraform_provisioner_an.Base.Outcome.{ok}
use terraform_provisioner_an.Types.RemoteSettings.{RemoteSettings}
use terraform_provisioner_an.Types.Play.{
  Play, Entity, unsupported, playbook, module_call, galaxy_install,
}
use terraform_provisioner_an.Mode.Remote.{Remote, Session}
use terraform_provisioner_an.Mode.Remote.Deploy.{deploy_entity, deploy_play, deploy_ansible_data}
use terraform_provisioner_an.Mode.Remote.Yields.{
  Later-trans, Yields, Yields-weaken, Yields-pure, Yields-if, Yields-bind, Yields-result,
}
use terraform_provisioner_an.Mode.Remote.Deployed.{
  Pointwise, HasEntity, IsDeployed, left_out, deployed,
}
use terraform_provisioner_an.Mode.Remote.Deployed.Plays.{
  Meant, Yields-deploy_playbook, Yields-deploy_module, Yields-deploy_galaxy_install,
}
use mathlib.Core.Path.{subst, sym}

is_enabled : {b : Bool} → not b ≡ false → b ≡ true
is_enabled e = ground arith

is_disabled : {b : Bool} → not b ≡ true → b ≡ false
is_disabled e = ground arith

module _ (remote : Remote) (v : RemoteSettings) where
  Yields-deploy_entity :
      (s : Session) (play : Play) (entity : Entity)
      → play.entity ≡ entity
      → Yields s (deploy_entity remote v play entity) (Meant remote v play entity)
  unfolding deploy_entity
  Yields-deploy_entity s play unsupported q =
      Yields-pure s play
        λ k l. (refl, subst (HasEntity remote v k play play unsupported) (sym q) refl)
  Yields-deploy_entity s play (playbook e) q = Yields-deploy_playbook remote v s play e
  Yields-deploy_entity s play (module_call e) q = Yields-deploy_module remote v s play e q
  Yields-deploy_entity s play (galaxy_install e) q = Yields-deploy_galaxy_install remote v s play e

  Yields-deploy_play :
      (s : Session) (play : Play)
      → Yields s (deploy_play remote v play) (λ play' h. IsDeployed remote v h play play')
  unfolding deploy_play
  Yields-deploy_play s play =
      Yields-if s (not play.enabled) _ _
        (λ e. Yields-pure s play λ k l. left_out (is_disabled e) refl)
        λ e.
          Yields-weaken s _ (Yields-deploy_entity s play play.entity refl)
            λ play' k (same_play, q). deployed (is_enabled e) same_play q

  Yields-deploy_ansible_data :
      (s : Session) (plays : List Play)
      → Yields s
          (deploy_ansible_data remote v plays)
          (λ plays' h. Pointwise (IsDeployed remote v h) plays plays')
  unfolding deploy_ansible_data
  Yields-deploy_ansible_data s [] = Yields-pure s [] λ k l. tt
  Yields-deploy_ansible_data s (play ∷ plays) =
      Yields-bind s _ _ (Yields-deploy_play s play) λ play' t _ p.
        Yields-bind t _ _ (Yields-deploy_ansible_data t plays)
          λ plays' u l q. Yields-pure u _ λ k m. (p k (Later-trans l m), q k m)

  -- If `deployAnsibleData` ends without an error, every play that is not enabled was left out, and for
  -- every other one what its command will name was sent without an error: for a playbook the
  -- directory of the playbook, which is named by its place there, and those of the roles, unless the
  -- machine said that the directory is there; for a galaxy install the role file; for a playbook and
  -- a module the inventory and the vault files, each with the text of the local file that it comes
  -- from. Every other field of the play, of its playbook, of its module and of its galaxy install is
  -- as it was.
  pub deploy_ansible_data-IsDeployed :
      (s : Session) (plays plays' : List Play)
      → (deploy_ansible_data remote v plays s).0 ≡ ok plays'
      → Pointwise
          (IsDeployed remote v (deploy_ansible_data remote v plays s).1.history)
          plays
          plays'
  deploy_ansible_data-IsDeployed s plays plays' =
      Yields-result s (deploy_ansible_data remote v plays) plays'
        (Yields-deploy_ansible_data s plays)
