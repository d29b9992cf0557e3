-- ===== src/Mode/Remote/Successes.antt =====
-- What the success of an action of mode/mode_remote.go says of the requests that it made.
use terraform_provisioner_an.Base.{◌≡◌, refl, ap, Bool, Option, none, some, ◌∷◌, Text}
use terraform_provisioner_an.Base.Outcome.{Outcome, ok, err, panic, err-ne-ok, panic-ne-ok}
use terraform_provisioner_an.Types.RemoteSettings.{RemoteSettings}
use terraform_provisioner_an.Mode.Remote.{
  Exit, refused, exited, lost, done, ran, sent_script, Remote, Session, Action, ◌>>=◌, continue,
  answer, upload_script,
}
use terraform_provisioner_an.Mode.Remote.Commands.{ended, with_sudo, run_command}

module _ {A B : Type 0} where
  continue-ok :
      (o : Outcome A) (t : Session) (f : A → Action B) (b : B)
      → (continue o t f).0 ≡ ok b
      → (a : A) × (o ≡ ok a) × (continue o t f ≡ f a t) × ((f a t).0 ≡ ok b)
  continue-ok (ok a) t f b e = (a, refl, refl, e)
  continue-ok (err x) t f b e = absurd (err-ne-ok e)
  continue-ok panic t f b e = absurd (panic-ne-ok e)

  -- Both parts of an action that succeeds succeed, one after the other.
  pub bind-ok :
      (m : Action A) (f : A → Action B) (s : Session) (b : B)
      → ((m >>= f) s).0 ≡ ok b
      → (a : A) × ((m s).0 ≡ ok a) × ((m >>= f) s ≡ f a (m s).1) × ((f a (m s).1).0 ≡ ok b)
  bind-ok m f s b e = continue-ok (m s).0 (m s).1 f b e

answer-ok : (reply : Option Text) → answer reply ≡ ok tt → reply ≡ none
answer-ok none e = refl
answer-ok (some x) e = absurd (err-ne-ok e)

module _ (remote : Remote) where
  ended-ok : (command : Text) (reply : Exit) → ended remote command reply ≡ ok tt → reply ≡ done
  unfolding ended
  ended-ok command (refused x) e = absurd (err-ne-ok e)
  ended-ok command (exited status x) e = absurd (err-ne-ok e)
  ended-ok command (lost x) e = absurd (err-ne-ok e)
  ended-ok command done e = refl

  -- A command that succeeds was run, and it ended well.
  pub run_command-ok :
      (v : RemoteSettings) (command : Text) (should_sudo : Bool) (s : Session)
      → (run_command remote v command should_sudo s).0 ≡ ok tt
      → (run_command remote v command should_sudo s).1.history
        ≡ ran (with_sudo v command should_sudo) done ∷ s.history
  unfolding run_command
  run_command-ok v command should_sudo s e =
      ap (λ x. ran (with_sudo v command should_sudo) x ∷ s.history) (ended-ok _ _ e)

  pub upload_script-ok :
      (path script : Text) (s : Session)
      → (upload_script remote path script s).0 ≡ ok tt
      → (upload_script remote path script s).1.history ≡ sent_script path script none ∷ s.history
  unfolding upload_script
  upload_script-ok path script s e = ap (λ x. sent_script path script x ∷ s.history) (answer-ok _ e)
