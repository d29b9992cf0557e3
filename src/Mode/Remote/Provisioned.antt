-- ===== src/Mode/Remote/Provisioned.antt =====
-- What `Run` of mode/mode_remote.go has done when it ends without an error.
use terraform_provisioner_an.Base.{
  ◌≡◌, refl, sym, ap, ◌∙◌, ℕ, Bool, true, false, not, Option, none, some, List, [], ◌∷◌, Text,
  if◌then◌else◌,
}
use mathlib.Core.Path.{subst}
use terraform_provisioner_an.Base.Outcome.{Outcome, ok, err, panic, err-ne-ok, panic-ne-ok}
use terraform_provisioner_an.Go.Path.{dir}
use terraform_provisioner_an.Types.RemoteSettings.{
  RemoteSettings, bootstrap_directory_of, remote_installer_path,
}
use terraform_provisioner_an.Types.Play.{Play}
use terraform_provisioner_an.Command.Arguments.{Runtime}
use terraform_provisioner_an.Command.Build.{to_command}
use terraform_provisioner_an.Mode.Remote.{
  Exit, done, Event, ran, sent_script, disconnected, Remote, Session, pure, lift, upload_script,
}
use terraform_provisioner_an.Mode.Remote.Commands.{
  mkdir_command, remove_command, install_command, with_sudo, run_command, run_command_sudo,
  run_command_no_sudo,
}
use terraform_provisioner_an.Mode.Remote.Deploy.{deploy_ansible_data}
use terraform_provisioner_an.Mode.Remote.Run.{
  installer_script, install_ansible, cleanup_after_bootstrap, remote_args, run_play, run_plays,
  provision, connected, retry_func, run,
}
use terraform_provisioner_an.Mode.Remote.Successes.{bind-ok, run_command-ok, upload_script-ok}
use terraform_provisioner_an.Mode.Remote.Deployed.{Pointwise, IsDeployed}
use terraform_provisioner_an.Mode.Remote.Deployed.Sequence.{deploy_ansible_data-IsDeployed}

-- The history in which the commands were run, in order, after another one.
abbrev pub all_ran : RemoteSettings → List Text → List Event → List Event
all_ran v [] h = h
all_ran v (command ∷ commands) h = all_ran v commands (ran (with_sudo v command true) done ∷ h)

module _ (remote : Remote) (v : RemoteSettings) where
  -- The history in which Ansible was installed after another one.
  abbrev pub Installed : List Event → List Event → Type 0
  Installed h k =
      (script : Text) × (installer_script remote v ≡ ok script)
      × (k
          ≡ ran (with_sudo v (install_command (remote_installer_path v)) true) done
            ∷ sent_script (remote_installer_path v) script none
            ∷ ran (mkdir_command (dir (remote_installer_path v))) done
            ∷ h)

  install_ansible-Installed :
      (s : Session)
      → (install_ansible remote v s).0 ≡ ok tt
      → Installed s.history (install_ansible remote v s).1.history
  unfolding install_ansible run_command_no_sudo run_command_sudo with_sudo
  install_ansible-Installed s e =
      let p = remote_installer_path v in
      let (script, e0, q0, r0) = bind-ok (lift (installer_script remote v)) _ s tt e in
      let (u1, e1, q1, r1) =
        bind-ok (run_command_no_sudo remote v (mkdir_command (dir p))) _ s tt r0 in
      let s1 = (run_command_no_sudo remote v (mkdir_command (dir p)) s).1 in
      let (u2, e2, q2, r2) = bind-ok (upload_script remote p script) _ s1 tt r1 in
      let s2 = (upload_script remote p script s1).1 in
      let tail =
        upload_script-ok remote p script s1 e2
        ∙ ap (λ h. sent_script p script none ∷ h) (run_command-ok remote v _ false s e1) in
      (
        script,
        e0,
        ap (λ x. x.1.history) (q0 ∙ q1 ∙ q2)
            ∙ run_command-ok remote v (install_command p) true s2 r2
            ∙ ap (λ h. ran (with_sudo v (install_command p) true) done ∷ h) tail,
      )

  -- The history with the installation after another one, unless it is skipped.
  abbrev pub InstalledUnless : Bool → List Event → List Event → Type 0
  InstalledUnless skip h k = if skip then k ≡ h else Installed h k

  installed_unless :
      (skip : Bool) (s : Session)
      → ((if not skip then install_ansible remote v else pure tt) s).0 ≡ ok tt
      → InstalledUnless skip s.history
          ((if not skip then install_ansible remote v else pure tt) s).1.history
  installed_unless true s e = refl
  installed_unless false s e = install_ansible-Installed s e

  -- The history with the clean-up after another one, however that ends, unless it is skipped.
  abbrev pub CleanedUnless : Bool → List Event → List Event → Type 0
  CleanedUnless skip h k =
      if skip
      then k ≡ h
      else (reply : Exit) × (k ≡ ran (remove_command (bootstrap_directory_of v)) reply ∷ h)

  cleaned_unless :
      (skip : Bool) (s : Session)
      → CleanedUnless skip s.history
          ((if not skip then cleanup_after_bootstrap remote v else pure tt) s).1.history
  unfolding cleanup_after_bootstrap run_command_no_sudo run_command with_sudo
  cleaned_unless true s = refl
  cleaned_unless false s = (_, refl)

module _ (rt : Runtime) (remote : Remote) (v : RemoteSettings) (user : Text) where
  -- The commands of the plays.
  abbrev pub HaveCommands : List Play → List Text → Type 0
  HaveCommands = Pointwise (λ play command. to_command rt play (remote_args user) ≡ ok command)

  run_play-ok :
      (play : Play) (s : Session)
      → (run_play rt remote v user play s).0 ≡ ok tt
      → (command : Text) × (to_command rt play (remote_args user) ≡ ok command)
        × ((run_play rt remote v user play s).1.history
            ≡ ran (with_sudo v command true) done ∷ s.history)
  unfolding run_play run_command_sudo
  run_play-ok play s e =
      let (command, e0, q, r) = bind-ok (lift (to_command rt play (remote_args user))) _ s tt e in
      (command, e0, ap (λ x. x.1.history) q ∙ run_command-ok remote v command true s r)

  run_plays-ok :
      (plays : List Play) (s : Session)
      → (run_plays rt remote v user plays s).0 ≡ ok tt
      → (commands : List Text) × HaveCommands plays commands
        × ((run_plays rt remote v user plays s).1.history ≡ all_ran v commands s.history)
  unfolding run_plays
  run_plays-ok [] s e = ([], tt, refl)
  run_plays-ok (play ∷ plays) s e =
      let (u, e0, q, r) = bind-ok (run_play rt remote v user play) _ s tt e in
      let (command, c, h) = run_play-ok play s e0 in
      let (commands, cs, hs) = run_plays-ok plays (run_play rt remote v user play s).1 r in
      (command ∷ commands, (c, cs), ap (λ x. x.1.history) q ∙ hs ∙ ap (all_ran v commands) h)

  -- The stages of a run, each with the history at its end.
  pub record IsProvisioned (plays : List Play) (h : List Event) : Type 0 where
    pub plays' : List Play
    pub commands : List Text
    pub after_deploy : List Event
    pub after_install : List Event
    pub deployed : Pointwise (IsDeployed remote v after_deploy) plays plays'
    pub installed : InstalledUnless remote v v.skip_install after_deploy after_install
    pub have_commands : HaveCommands plays' commands
    pub cleaned : CleanedUnless remote v v.skip_cleanup (all_ran v commands after_install) h

  provision-ok :
      (plays : List Play) (s : Session)
      → (provision rt remote v user plays s).0 ≡ ok tt
      → IsProvisioned plays (provision rt remote v user plays s).1.history
  unfolding provision
  provision-ok plays s e =
      let (plays', e0, q0, r0) = bind-ok (deploy_ansible_data remote v plays) _ s tt e in
      let s1 = (deploy_ansible_data remote v plays s).1 in
      let install = if not v.skip_install then install_ansible remote v else pure tt in
      let (u1, e1, q1, r1) = bind-ok install _ s1 tt r0 in
      let s2 = (install s1).1 in
      let (u2, e2, q2, r2) = bind-ok (run_plays rt remote v user plays') _ s2 tt r1 in
      let (commands, cs, hs) = run_plays-ok plays' s2 e2 in
      let s3 = (run_plays rt remote v user plays' s2).1 in
      record {
        plays' = plays';
        commands = commands;
        after_deploy = s1.history;
        after_install = s2.history;
        deployed = deploy_ansible_data-IsDeployed remote v s plays plays' e0;
        installed = installed_unless remote v v.skip_install s1 e1;
        have_commands = cs;
        cleaned =
            subst
              (λ h.
                CleanedUnless remote v v.skip_cleanup h
                  (provision rt remote v user plays s).1.history)
              hs
              (subst (CleanedUnless remote v v.skip_cleanup s3.history)
                (sym (ap (λ x. x.1.history) (q0 ∙ q1 ∙ q2)))
                (cleaned_unless remote v v.skip_cleanup s3));
      }

  connected-ok :
      (connection : Option (Outcome (Unit {0}))) (plays : List Play) (s : Session)
      → (connected rt remote v user connection plays s).0 ≡ ok tt
      → (h : List Event) × ((connected rt remote v user connection plays s).1.history
          ≡ disconnected ∷ h)
        × IsProvisioned plays h
  connected-ok (some (ok _)) plays s e = (_, refl, provision-ok plays s e)
  connected-ok (some (err x)) plays s e = absurd (err-ne-ok e)
  connected-ok (some panic) plays s e = absurd (panic-ne-ok e)
  connected-ok none plays s e = absurd (panic-ne-ok e)

  -- When `Run` ends without an error, it has gone through its stages in order: all plays are deployed,
  -- Ansible was installed by its script unless that is skipped, then the commands of all plays, also
  -- of those that are not enabled, were run as root where that is asked for and ended well, in the
  -- order of the plays, then the bootstrap directory was removed unless that is skipped, and the last
  -- thing it did was to disconnect.
  pub run-IsProvisioned :
      (fuel : ℕ) (plays : List Play) (s : Session)
      → (run rt remote v user fuel plays s).0 ≡ ok tt
      → (h : List Event) × ((run rt remote v user fuel plays s).1.history ≡ disconnected ∷ h)
        × IsProvisioned plays h
  unfolding run
  run-IsProvisioned fuel plays s = connected-ok (retry_func remote fuel 0) plays s
