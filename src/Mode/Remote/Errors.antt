-- ===== src/Mode/Remote/Errors.antt =====
-- How `checkRemoteDirExists` of mode/mode_remote.go reads the end of its command.
use terraform_provisioner_an.Base.{
  ◌≡◌, refl, ◌↔◌, ◌||◌, Bool, true, false, [], ◌∷◌, ◌++◌, append_assoc, Text, text, has_prefix,
  contains, ==_iff, if◌then◌else◌, arith,
}
use mathlib.Core.Path.{subst}
use terraform_provisioner_an.Base.Int.{pos, show, show_ℕ}
use terraform_provisioner_an.Base.Outcome.{ok, err, err-ne-ok}
use terraform_provisioner_an.Types.RemoteSettings.{RemoteSettings}
use terraform_provisioner_an.Mode.Remote.{Exit, refused, exited, lost, done, Remote, Session}
use terraform_provisioner_an.Mode.Remote.Commands.{
  check_command, ended, found, with_sudo, run_command, run_command_no_sudo, check_remote_dir_exists,
}

has_prefix-append : (x b : Text) → has_prefix (x ++ b) x ≡ true
unfolding has_prefix
has_prefix-append [] [] = refl
has_prefix-append [] (d ∷ b) = refl
has_prefix-append (c ∷ x) b = rw ((==_iff c c).1 refl, has_prefix-append x b)

or_true : (a b : Bool) → b ≡ true → (a || b) ≡ true
or_true a b e = ground arith

contains-prefix : (t x : Text) → has_prefix t x ≡ true → contains t x ≡ true
unfolding contains
contains-prefix [] x e = e
contains-prefix (c ∷ t) x e = ground arith

-- A text holds what stands between two others.
contains-infix : (a x b : Text) → contains (a ++ (x ++ b)) x ≡ true
unfolding contains
contains-infix [] x b = contains-prefix (x ++ b) x (has_prefix-append x b)
contains-infix (c ∷ a) x b = or_true _ _ (contains-infix a x b)

never_missing : (b : Bool) (e : Text) → (if b then ok true else err e) ≡ ok false → ⊥
never_missing true e p = cc
never_missing false e p = err-ne-ok p

module _ (remote : Remote) where
  -- The number and what is around it are the text that is looked for.
  found_by_status :
      (command reason : Text) → found (ended remote command (exited (pos 50) reason)) ≡ ok true
  unfolding found ended text show show_ℕ
  found_by_status command reason =
      let phrase = text "exited with non-zero exit status: 50," in
      let rest = phrase ++ (text " reason " ++ reason) in
      let e =
        subst (λ t. contains (text "Command '" ++ t) phrase ≡ true)
          (append_assoc (remote.quoted command) (text "' ") rest)
          (contains-infix (text "Command '" ++ (remote.quoted command ++ text "' ")) phrase
            (text " reason " ++ reason)) in
      rw e refl

  found_nothing :
      (command : Text) (reply : Exit)
      → (found (ended remote command reply) ≡ ok false) ↔ (reply ≡ done)
  unfolding found ended
  found_nothing command (refused e) = (λ p. absurd (never_missing _ _ p), λ p. cc)
  found_nothing command (exited status e) = (λ p. absurd (never_missing _ _ p), λ p. cc)
  found_nothing command (lost e) = (λ p. absurd (never_missing _ _ p), λ p. cc)
  found_nothing command done = (λ p. refl, λ p. refl)

  -- A directory is held to be missing exactly when the command that looks for it succeeds, and it is
  -- found whenever that command ends with the status 50, whatever is said with it; so a connection
  -- that is lost or a command that cannot be started never makes a directory count as missing.
  pub check_remote_dir_exists-answers :
      (v : RemoteSettings) (d : Text) (s : Session)
      → (((check_remote_dir_exists remote v d s).0 ≡ ok false)
          ↔ (remote.start s.history (check_command d) ≡ done))
        × ((reason : Text)
            → remote.start s.history (check_command d) ≡ exited (pos 50) reason
            → (check_remote_dir_exists remote v d s).0 ≡ ok true)
  unfolding check_remote_dir_exists run_command_no_sudo run_command with_sudo
  check_remote_dir_exists-answers v d s = (
    found_nothing (check_command d) (remote.start s.history (check_command d)),
    λ reason e. rw e (found_by_status (check_command d) reason),
  )
