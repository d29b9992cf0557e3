-- ===== src/Provisioner/Apply.antt =====
-- `applyFn` of provisioner/resource_provisioner.go.
pub mod Applied
mod Tests
use terraform_provisioner_an.Base.{ℕ, Bool, true, false, Option, List, [], ◌∷◌, Text}
use terraform_provisioner_an.Base.Outcome.{Outcome, ok, err, panic}
use terraform_provisioner_an.Types.Play.{Play}
use terraform_provisioner_an.Command.Arguments.{Runtime}
use terraform_provisioner_an.Go.Value.{Value}
use terraform_provisioner_an.Mode.ConnectionInfo.{ConnectionInfo, Libraries}
use terraform_provisioner_an.Mode.Creation.{new_local_mode, new_remote_mode}
use terraform_provisioner_an.Mode.HostKeys.{Network}
use terraform_provisioner_an.Mode.LocalPlays.{Effect, Machine}
use terraform_provisioner_an.Mode.LocalRun.{local_run, local_trace}
use terraform_provisioner_an.Mode.Remote.{Event, Remote, Session}
use terraform_provisioner_an.Mode.Remote.Run.{run}
use terraform_provisioner_an.Provisioner.Config.{Configuration, Given, decode_config}

-- All that the provisioner finds when it is applied: how a set is shown, the packages that it calls,
-- the connection of the resource, and the environment; the fuel is for the attempts to connect.
pub record World : Type 0 where
  pub shown_set : Value → Text
  pub libraries : Libraries
  pub runtime : Runtime
  pub conn_info : List (Text × Text)
  pub ssh_auth_sock : Text
  pub communicator_error : Option Text
  pub remote : Remote
  pub machine : Machine
  pub network : Network
  pub fuel : ℕ

-- The result, the requests to the remote machine, the last one first, and the effects on the local one.
pub record Report : Type 0 where
  pub result : Outcome (Unit {0})
  pub history : List Event
  pub trace : List Effect

abbrev nothing_done : Outcome (Unit {0}) → Report
nothing_done o = record { result = o; history = []; trace = [] }

abbrev pub new_session : Session
new_session = record { history = []; drawn = 0 }

module _ (world : World) where
  abbrev pub remotely : Configuration → Outcome ConnectionInfo → Report
  remotely p (ok v) =
      let (o, s) = run world.runtime world.remote p.remote v.user world.fuel p.plays new_session in
      record { result = o; history = s.history; trace = [] }
  remotely p (err e) = nothing_done (err e)
  remotely p panic = nothing_done panic

  abbrev pub locally : Configuration → Outcome ConnectionInfo → Report
  locally p (ok v) = record {
    result =
        (local_run world.runtime world.machine world.network v p.plays
          p.ansible_ssh_settings).result;
    history = [];
    trace = local_trace world.runtime world.machine world.network v p.plays p.ansible_ssh_settings;
  }
  locally p (err e) = nothing_done (err e)
  locally p panic = nothing_done panic

  abbrev pub in_mode : Configuration → Bool → Report
  in_mode p true =
      remotely p (
        new_remote_mode world.libraries world.ssh_auth_sock world.communicator_error
          world.conn_info)
  in_mode p false = locally p (new_local_mode world.libraries world.ssh_auth_sock world.conn_info)

  abbrev pub with_configuration : Outcome Configuration → Report
  with_configuration (ok p) = in_mode p p.remote.is_remote_in_use
  with_configuration (err e) = nothing_done (err e)
  with_configuration panic = nothing_done panic

  unfoldable pub apply_fn : Given → Report
  apply_fn d = with_configuration (decode_config world.shown_set d)
