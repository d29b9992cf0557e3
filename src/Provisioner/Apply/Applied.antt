-- ===== src/Provisioner/Apply/Applied.antt =====
-- What an application of the provisioner in provisioner/resource_provisioner.go has done when it ends.
use terraform_provisioner_an.Base.{
  ◌≡◌, refl, ◌⊎◌, inl, inr, Bool, true, false, Option, none, some, List, [], ◌∷◌, Text,
}
use terraform_provisioner_an.Base.Outcome
use terraform_provisioner_an.Base.Outcome.{Outcome, ok, err, panic, IsOk, err-ne-ok, panic-ne-ok}
use terraform_provisioner_an.Mode.ConnectionInfo.{ConnectionInfo}
use terraform_provisioner_an.Mode.Creation.{check_connection_type, new_local_mode, new_remote_mode}
use terraform_provisioner_an.Mode.LocalRun.{local_run, local_trace}
use terraform_provisioner_an.Mode.LocalRun.Stages.{HasStages, local_run-HasStages}
use terraform_provisioner_an.Mode.Remote.{Event, disconnected}
use terraform_provisioner_an.Mode.Remote.Provisioned.{IsProvisioned, run-IsProvisioned}
use terraform_provisioner_an.Provisioner.Config.{Configuration, Given, decode_config}
use terraform_provisioner_an.Provisioner.Config.Plays.{IsDecoded, decode_config-Resolves}
use terraform_provisioner_an.Provisioner.Apply.{
  World, Report, new_session, remotely, locally, in_mode, with_configuration, apply_fn,
}

-- Nothing was done, and there is an error or a panic.
pub record IsRefused (r : Report) : Type 0 where
  pub history : r.history ≡ []
  pub trace : r.trace ≡ []
  pub fails : r.result ≡ ok tt → ⊥

first_ok :
    {A : Type 0} (o : Outcome (Unit {0})) (f : Unit {0} → Outcome A)
    → IsOk (Outcome.◌>>=◌ o f)
    → o ≡ ok tt
first_ok (ok _) f h = refl
first_ok (err e) f h = absurd h
first_ok panic f h = absurd h

module _ (world : World) where
  -- The mode of the configuration, created for the connection.
  abbrev pub created : Bool → Outcome ConnectionInfo
  created true =
      new_remote_mode world.libraries world.ssh_auth_sock world.communicator_error world.conn_info
  created false = new_local_mode world.libraries world.ssh_auth_sock world.conn_info

  -- A report of a run that went through the stages of its mode, and did nothing in the other one.
  abbrev pub HasRun : Configuration → ConnectionInfo → Bool → Report → Type 0
  HasRun p v true r =
      (r.trace ≡ [])
      × ((h : List Event) × (r.history ≡ disconnected ∷ h)
          × IsProvisioned world.runtime world.remote p.remote v.user p.plays h)
  HasRun p v false r =
      (r.history ≡ [])
      × (r.trace
          ≡ local_trace world.runtime world.machine world.network v p.plays p.ansible_ssh_settings)
      × HasStages world.runtime world.machine world.network v p.plays p.ansible_ssh_settings
          (local_run world.runtime world.machine world.network v p.plays p.ansible_ssh_settings)

  remotely-HasRun :
      (p : Configuration) (o : Outcome ConnectionInfo)
      → (remotely world p o).result ≡ ok tt
      → (v : ConnectionInfo) × (o ≡ ok v) × HasRun p v true (remotely world p o)
  remotely-HasRun p (ok v) e = (
    v,
    refl,
    (
      refl,
      run-IsProvisioned world.runtime world.remote p.remote v.user world.fuel p.plays new_session e,
    ),
  )
  remotely-HasRun p (err x) e = absurd (err-ne-ok e)
  remotely-HasRun p panic e = absurd (panic-ne-ok e)

  locally-HasRun :
      (p : Configuration) (o : Outcome ConnectionInfo)
      → (locally world p o).result ≡ ok tt
      → (v : ConnectionInfo) × (o ≡ ok v) × HasRun p v false (locally world p o)
  locally-HasRun p (ok v) e = (
    v,
    refl,
    (
      refl,
      refl,
      local_run-HasStages world.runtime world.machine world.network v p.plays p.ansible_ssh_settings
          e,
    ),
  )
  locally-HasRun p (err x) e = absurd (err-ne-ok e)
  locally-HasRun p panic e = absurd (panic-ne-ok e)

  in_mode-HasRun :
      (p : Configuration) (b : Bool)
      → (in_mode world p b).result ≡ ok tt
      → (v : ConnectionInfo) × (created b ≡ ok v) × HasRun p v b (in_mode world p b)
  in_mode-HasRun p true e = remotely-HasRun p (created true) e
  in_mode-HasRun p false e = locally-HasRun p (created false) e

  -- The report of a configuration that was carried out in its mode.
  abbrev pub CarriedOut : Given → Configuration → Report → Type 0
  CarriedOut d p r =
      (decode_config world.shown_set d ≡ ok p)
      × IsDecoded world.shown_set d p
      × ((v : ConnectionInfo) × (created p.remote.is_remote_in_use ≡ ok v)
          × HasRun p v p.remote.is_remote_in_use r)

  with_configuration-CarriedOut :
      (d : Given) (o : Outcome Configuration)
      → decode_config world.shown_set d ≡ o
      → (with_configuration world o).result ≡ ok tt
      → (p : Configuration) × CarriedOut d p (with_configuration world o)
  with_configuration-CarriedOut d (ok p) q e =
      let decoded = (decode_config-Resolves world.shown_set d).at p q in
      (p, (q, decoded, in_mode-HasRun p p.remote.is_remote_in_use e))
  with_configuration-CarriedOut d (err x) q e = absurd (err-ne-ok e)
  with_configuration-CarriedOut d panic q e = absurd (panic-ne-ok e)

  -- When applyFn ends without an error, the configuration was decoded, each part of it from its block,
  -- each play from a value of the list of plays, with the defaults that were decoded, and each play
  -- takes each setting from the first place that has it, of an override, the play's value as it was
  -- decoded, these defaults and the built-in value; the mode that the configuration asks for was created for the
  -- connection, and that mode alone was run, through all of its stages.
  pub apply_fn-CarriedOut :
      (d : Given)
      → (apply_fn world d).result ≡ ok tt
      → (p : Configuration) × CarriedOut d p (apply_fn world d)
  unfolding apply_fn
  apply_fn-CarriedOut d = with_configuration-CarriedOut d (decode_config world.shown_set d) refl

  IsOk-communicator :
      (o : Option Text)
      → IsOk (new_remote_mode world.libraries world.ssh_auth_sock o world.conn_info)
      → check_connection_type world.conn_info ≡ ok tt
  unfolding new_remote_mode
  IsOk-communicator none h = first_ok (check_connection_type world.conn_info) _ h
  IsOk-communicator (some e) h = absurd h

  IsOk-created : (b : Bool) → IsOk (created b) → check_connection_type world.conn_info ≡ ok tt
  unfolding new_local_mode new_remote_mode
  IsOk-created true h = IsOk-communicator world.communicator_error h
  IsOk-created false h = first_ok (check_connection_type world.conn_info) _ h

  remotely-refuses :
      (p : Configuration) (o : Outcome ConnectionInfo) → IsOk o ⊎ IsRefused (remotely world p o)
  remotely-refuses p (ok v) = inl tt
  remotely-refuses p (err x) = inr (record { history = refl; trace = refl; fails = err-ne-ok })
  remotely-refuses p panic = inr (record { history = refl; trace = refl; fails = panic-ne-ok })

  locally-refuses :
      (p : Configuration) (o : Outcome ConnectionInfo) → IsOk o ⊎ IsRefused (locally world p o)
  locally-refuses p (ok v) = inl tt
  locally-refuses p (err x) = inr (record { history = refl; trace = refl; fails = err-ne-ok })
  locally-refuses p panic = inr (record { history = refl; trace = refl; fails = panic-ne-ok })

  IsRefused-in_mode :
      (p : Configuration) (b : Bool) → IsOk (created b) ⊎ IsRefused (in_mode world p b)
  IsRefused-in_mode p true = remotely-refuses p (created true)
  IsRefused-in_mode p false = locally-refuses p (created false)

  by_configuration :
      (d : Given) (o : Outcome Configuration)
      → decode_config world.shown_set d ≡ o
      → ((p : Configuration) × (decode_config world.shown_set d ≡ ok p)
          × (check_connection_type world.conn_info ≡ ok tt)
          × IsOk (created p.remote.is_remote_in_use))
        ⊎ IsRefused (with_configuration world o)
  by_configuration d (ok p) q = elim (IsRefused-in_mode p p.remote.is_remote_in_use) [
    | inl h ↦ inl (p, q, IsOk-created p.remote.is_remote_in_use h, h)
    | inr r ↦ inr r
  ]
  by_configuration d (err x) q = inr (record { history = refl; trace = refl; fails = err-ne-ok })
  by_configuration d panic q = inr (record { history = refl; trace = refl; fails = panic-ne-ok })

  -- applyFn refuses to do anything, with an error or a panic and without any effect on either machine,
  -- unless the configuration is decoded, the type of the connection is ssh or left out, and the mode
  -- is created.
  pub apply_fn-refuses :
      (d : Given)
      → ((p : Configuration) × (decode_config world.shown_set d ≡ ok p)
          × (check_connection_type world.conn_info ≡ ok tt)
          × IsOk (created p.remote.is_remote_in_use))
        ⊎ IsRefused (apply_fn world d)
  unfolding apply_fn
  apply_fn-refuses d = by_configuration d (decode_config world.shown_set d) refl
