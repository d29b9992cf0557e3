-- ===== src/Command/Total.antt =====
-- Which plays `ToCommand` of types/play.go has a command for.
use terraform_provisioner_an.Base.{◌≢◌, refl, ◌↔◌, Bool, true, false, not, Text, if◌then◌else◌}
use terraform_provisioner_an.Base.Outcome
use terraform_provisioner_an.Base.Outcome.{Outcome, ok, err, panic, IsOk}
use terraform_provisioner_an.Go.Value.{Fields}
use terraform_provisioner_an.Types.Play.{
  Play, Entity, unsupported, playbook, module_call, galaxy_install,
}
use terraform_provisioner_an.Types.Play.Settings.{extra_vars_of}
use terraform_provisioner_an.Types.Defaults.{has_no_entry}
use terraform_provisioner_an.Command.Arguments.{
  LocalModeAnsibleArgs, Runtime, extra_vars_argument, append_shared_arguments,
}
use terraform_provisioner_an.Command.Build.{entity_command, to_command}

-- A play of one of the three kinds.
abbrev pub IsSupported : Play → Type 0
IsSupported play = play.entity ≢ unsupported

-- Each map of extra variables can be marshalled.
abbrev pub IsMarshalling : Runtime → Type 0
IsMarshalling rt = (fields : Fields) → IsOk (rt.marshal fields)

IsOk-bind :
    {A B : Type 0} (m : Outcome A) (f : A → Outcome B)
    → IsOk m
    → ((a : A) → IsOk (f a))
    → IsOk (Outcome.◌>>=◌ m f)
IsOk-bind (ok a) f h k = k a
IsOk-bind (err e) f h k = h
IsOk-bind panic f h k = h

IsOk-if : {A : Type 0} (b : Bool) (m n : Outcome A) → IsOk m → IsOk n → IsOk (if b then m else n)
IsOk-if true m n h k = h
IsOk-if false m n h k = k

module _ (rt : Runtime) (m : IsMarshalling rt) where
  extra_vars_argument-IsOk :
      (play : Play) (command : Text) → IsOk (extra_vars_argument rt play command)
  unfolding extra_vars_argument
  extra_vars_argument-IsOk play command =
      IsOk-if (not (has_no_entry (extra_vars_of play))) _ _
        (IsOk-bind _ _ (m (extra_vars_of play)) λ extra_vars. tt) tt

  append_shared_arguments-IsOk :
      (play : Play) (command : Text) (args : LocalModeAnsibleArgs)
      → IsOk (append_shared_arguments rt play command args)
  unfolding append_shared_arguments
  append_shared_arguments-IsOk play command args =
      IsOk-bind _ _ (extra_vars_argument-IsOk play _) λ command'. tt

  entity_command-IsOk :
      (play : Play) (args : LocalModeAnsibleArgs) (entity : Entity)
      → IsOk (entity_command rt play args entity) ↔ (entity ≢ unsupported)
  unfolding entity_command
  entity_command-IsOk play args (playbook e) =
      (λ h p. cc, λ h. append_shared_arguments-IsOk play _ args)
  entity_command-IsOk play args (module_call e) =
      (λ h p. cc, λ h. append_shared_arguments-IsOk play _ args)
  entity_command-IsOk play args (galaxy_install e) = (λ h p. cc, λ h. tt)
  entity_command-IsOk play args unsupported = (λ h p. h, λ h. h refl)

  -- If each map of extra variables can be marshalled, ToCommand has a command for exactly the plays
  -- with a playbook, a module or a galaxy install.
  pub to_command-IsOk :
      (play : Play) (args : LocalModeAnsibleArgs)
      → IsOk (to_command rt play args) ↔ IsSupported play
  unfolding to_command
  to_command-IsOk play args = entity_command-IsOk play args play.entity
