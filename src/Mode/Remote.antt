-- ===== src/Mode/Remote.antt =====
-- mode/mode_remote.go: remote mode as actions on a session with the remote machine. The session
-- holds what was asked of that machine, the last request first, each with its answer, and how many
-- UUIDs were drawn. What the program tells the user is left out.
pub mod Commands
pub mod Readable
pub mod Errors
pub mod Installer
pub mod Uploads
pub mod Yields
pub mod Sent
pub mod Handed
pub mod Deploy
pub mod Deployed
pub mod Run
pub mod Succeeding
pub mod Success
pub mod Successes
pub mod Provisioned
pub mod Connecting
pub mod Tests
use terraform_provisioner_an.Base.{
  ℕ, suc, Bool, true, false, Option, none, some, List, [], ◌∷◌, Text,
}
use terraform_provisioner_an.Base.Int.{ℤ}
use terraform_provisioner_an.Base.Outcome.{Outcome, ok, err, panic}
use terraform_provisioner_an.Types.Helpers.{Files}

-- How a command ends: `Start` fails, it exits with a status that is not zero, for a reason, the
-- wait for it fails, or it succeeds.
pub data Exit : Type 0 where
  refused : Text → Exit
  exited : ℤ → Text → Exit
  lost : Text → Exit
  done : Exit

-- A transfer is answered by an error, or by none.
pub data Event : Type 0 where
  ran : Text → Exit → Event
  sent sent_dir sent_script : Text → Text → Option Text → Event
  disconnected : Event

-- The communicator, whose answers may depend on all that went before; the local files; UUIDs, MD5 in
-- hexadecimal digits, and the format %q. The attempts to connect end with an error or none, and
-- after a failed one the time may be over.
pub record Remote : Type 0 where
  pub connect : ℕ → Option Text
  pub is_over : ℕ → Bool
  pub start : List Event → Text → Exit
  pub upload : List Event → Text → Text → Option Text
  pub upload_dir : List Event → Text → Text → Option Text
  pub upload_script : List Event → Text → Text → Option Text
  pub files : Files
  pub read_file : Text → Outcome Text
  pub uuid : ℕ → Text
  pub md5 : Text → Text
  pub quoted : Text → Text

pub record Session : Type 0 where
  pub history : List Event
  pub drawn : ℕ

abbrev pub Action : Type 0 → Type 0
Action A = Session → Outcome A × Session

module _ {A : Type 0} where
  abbrev pub pure : A → Action A
  pure a s = (ok a, s)

  -- What has a result without a request.
  abbrev pub lift : Outcome A → Action A
  lift o s = (o, s)

abbrev pub continue : {A B : Type 0} → Outcome A → Session → (A → Action B) → Outcome B × Session
continue (ok a) s f = f a s
continue (err e) s f = (err e, s)
continue panic s f = (panic, s)

infixl 5 ◌>>=◌ ◌>>◌
abbrev pub ◌>>=◌ : {A B : Type 0} → Action A → (A → Action B) → Action B
◌>>=◌ m f s = let (o, s') = m s in continue o s' f

abbrev pub ◌>>◌ : {A B : Type 0} → Action A → Action B → Action B
m >> k = m >>= λ _. k

abbrev pub logged : Event → Session → Session
logged e s = record s { history = e ∷ s.history }

abbrev pub answer : Option Text → Outcome (Unit {0})
answer none = ok tt
answer (some e) = err e

module _ (remote : Remote) where
  abbrev pub draw : Action Text
  draw s = (ok (remote.uuid s.drawn), record s { drawn = suc s.drawn })

  -- `v.comm.Upload`, and so for the other two transfers.
  unfoldable pub upload : Text → Text → Action (Unit {0})
  upload path contents s =
      let reply = remote.upload s.history path contents in
      (answer reply, logged (sent path contents reply) s)

  unfoldable pub upload_dir : Text → Text → Action (Unit {0})
  upload_dir path source s =
      let reply = remote.upload_dir s.history path source in
      (answer reply, logged (sent_dir path source reply) s)

  unfoldable pub upload_script : Text → Text → Action (Unit {0})
  upload_script path contents s =
      let reply = remote.upload_script s.history path contents in
      (answer reply, logged (sent_script path contents reply) s)
