-- ===== src/Mode/LocalPlays/Cleanup.antt =====
-- What the loop over the plays in mode/mode_local.go leaves behind, and which plays it runs.
use terraform_provisioner_an.Base.{
  ℕ, suc, ◌≡◌, refl, sym, ap, ◌∙◌, Bool, true, false, not, List, [], ◌∷◌, Text, text_eq, is_empty,
  Bool-cases, inl, inr, if◌then◌else◌,
}
use terraform_provisioner_an.Base.Outcome.{Outcome, ok, err, panic, err-ne-ok, panic-ne-ok}
use terraform_provisioner_an.Types.AnsibleSshSettings.{AnsibleSshSettings}
use terraform_provisioner_an.Types.Play.{Play}
use terraform_provisioner_an.Types.Play.Settings.{inventory_file_of, set_override_inventory_file}
use terraform_provisioner_an.Command.Arguments.{LocalModeAnsibleArgs, Runtime}
use terraform_provisioner_an.Command.Build.{to_local_command}
use terraform_provisioner_an.Mode.LocalPlays.{
  in_file, written, Effect, made_file, wrote, Ended, Machine, ended, then_do, after, created,
  write_inventory, run_command, with_inventory, run_play, run_plays,
}
use terraform_provisioner_an.Mode.LocalPlays.Traces.{
  written_files, removed_files, written_files-append, removed_files-append, all_written, one_left,
  IsLastMade, IsLastMade-then_do,
}

abbrev pub enabled_plays : List Play → List Play
enabled_plays [] = []
enabled_plays (p ∷ ps) = if p.enabled then p ∷ enabled_plays ps else enabled_plays ps

-- A part of the loop defers the removal of what it writes, and removes nothing itself.
pub record IsTidy (machine : Machine) (e : Ended) : Type 0 where
  pub deferred : written_files e.trace ≡ e.deferred
  pub removes : removed_files e.trace ≡ []
  pub made : IsLastMade machine e

IsTidy-then_do :
    (machine : Machine) (o : Outcome (Unit {0})) (t : List Effect) (d : List Text) (k : ℕ)
    (f : Ended)
    → IsTidy machine (ended o t d k)
    → IsTidy machine f
    → IsTidy machine (then_do o t d k f)
IsTidy-then_do machine (ok _) t d k f h hf = record {
  made = IsLastMade-then_do machine (ok tt) t d k f h.made hf.made;
  deferred = rw (written_files-append t f.trace, h.deferred, hf.deferred) refl;
  removes = rw (removed_files-append t f.trace, h.removes, hf.removes) refl;
}
IsTidy-then_do machine (err e) t d k f h hf = record {
  deferred = h.deferred;
  removes = h.removes;
  made = h.made;
}
IsTidy-then_do machine panic t d k f h hf = record {
  deferred = h.deferred;
  removes = h.removes;
  made = h.made;
}

IsTidy-after :
    (machine : Machine) (e f : Ended)
    → IsTidy machine e
    → IsTidy machine f
    → IsTidy machine (after e f)
IsTidy-after machine e f te tf =
    IsTidy-then_do machine e.result e.trace e.deferred e.made f
      (record { deferred = te.deferred; removes = te.removes; made = te.made }) tf

IsTidy-if :
    {machine : Machine} (b : Bool) {e f : Ended}
    → IsTidy machine e
    → IsTidy machine f
    → IsTidy machine (if b then e else f)
IsTidy-if true te tf = te
IsTidy-if false te tf = tf

if_not_enabled : (e f : Ended) (b : Bool) → b ≡ true → (if not b then e else f) ≡ f
if_not_enabled e f b h = rw h refl

if_not_disabled : (e f : Ended) (b : Bool) → b ≡ false → (if not b then e else f) ≡ e
if_not_disabled e f b h = rw h refl

pub kept_play :
    (b : Bool) (p : Play) (ps : List Play) → b ≡ true → (if b then p ∷ ps else ps) ≡ p ∷ ps
kept_play b p ps h = rw h refl

pub dropped_play :
    (b : Bool) (p : Play) (ps : List Play) → b ≡ false → (if b then p ∷ ps else ps) ≡ ps
dropped_play b p ps h = rw h refl

text_eq_empty : (s t : Text) → is_empty s ≡ false → is_empty t ≡ true → text_eq s t ≡ false
unfolding text_eq
text_eq_empty [] t h k = cc
text_eq_empty (c ∷ s) [] h k = refl
text_eq_empty (c ∷ s) (d ∷ t) h k = cc

inventory_file_of-override :
    (play : Play) (name : Text)
    → is_empty name ≡ false
    → inventory_file_of (set_override_inventory_file play name) ≡ name
unfolding inventory_file_of set_override_inventory_file
inventory_file_of-override play name h = rw h refl

module _ (rt : Runtime) (machine : Machine) (host : Text) (args : LocalModeAnsibleArgs)
    (settings : AnsibleSshSettings) where
  IsTidy-run_command :
      (o : Outcome Text) (k : ℕ) → IsTidy machine (run_command rt machine host args settings o k)
  IsTidy-run_command (ok command) k = record {
    deferred = refl;
    removes = refl;
    made = all_written refl;
  }
  IsTidy-run_command (err e) k = record { deferred = refl; removes = refl; made = all_written refl }
  IsTidy-run_command panic k = record { deferred = refl; removes = refl; made = all_written refl }

  module _
      (named : (k : ℕ) (name : Text) → machine.temp_file k ≡ ok name → is_empty name ≡ false) where
    IsTidy-created :
        (play : Play) (name contents : Text) (k : ℕ)
        → is_empty name ≡ false
        → is_empty (inventory_file_of play) ≡ true
        → IsTidy machine
            (with_inventory rt machine host args settings (created name contents) k play)
    IsTidy-created play name contents k h none =
        rw (text_eq_empty name (inventory_file_of play) h none) (
          IsTidy-after machine
            (ended (ok tt) (made_file name ∷ wrote name contents ∷ [])
              (inventory_file_of (set_override_inventory_file play name) ∷ []) (suc k))
            _
            (record {
              deferred = ap (λ n. n ∷ []) (sym (inventory_file_of-override play name h));
              removes = refl;
              made = all_written refl;
            })
            (IsTidy-run_command
              (to_local_command rt (set_override_inventory_file play name) args settings) (suc k)))

    IsTidy-written :
        (play : Play) (name contents : Text) (k : ℕ) (o : Outcome (Unit {0}))
        → machine.write_file name contents ≡ o
        → is_empty name ≡ false
        → is_empty (inventory_file_of play) ≡ true
        → IsTidy machine
            (with_inventory rt machine host args settings (written machine name contents o) k play)
    IsTidy-written play name contents k (ok _) e h none = IsTidy-created play name contents k h none
    IsTidy-written play name contents k (err x) e h none = record {
      deferred = refl;
      removes = refl;
      made = one_left name contents refl (λ q. err-ne-ok (sym e ∙ q)) err-ne-ok;
    }
    IsTidy-written play name contents k panic e h none = record {
      deferred = refl;
      removes = refl;
      made = one_left name contents refl (λ q. panic-ne-ok (sym e ∙ q)) panic-ne-ok;
    }

    IsTidy-in_file :
        (play : Play) (contents : Text) (k : ℕ) (o : Outcome Text)
        → machine.temp_file k ≡ o
        → is_empty (inventory_file_of play) ≡ true
        → IsTidy machine
            (with_inventory rt machine host args settings (in_file machine contents o) k play)
    IsTidy-in_file play contents k (ok name) e none =
        IsTidy-written play name contents k (machine.write_file name contents) refl (named k name e)
          none
    IsTidy-in_file play contents k (err x) e none = record {
      deferred = refl;
      removes = refl;
      made = all_written refl;
    }
    IsTidy-in_file play contents k panic e none = record {
      deferred = refl;
      removes = refl;
      made = all_written refl;
    }

    IsTidy-run_play :
        (k : ℕ) (play : Play) → IsTidy machine (run_play rt machine host args settings k play)
    unfolding run_play write_inventory
    IsTidy-run_play k play = elim (Bool-cases (is_empty (inventory_file_of play))) [
      | inl none ↦ rw none (IsTidy-in_file play _ k (machine.temp_file k) refl none)
      | inr there ↦ rw there (IsTidy-run_command (to_local_command rt play args settings) k)
    ]

    pub IsTidy-run_plays :
        (k : ℕ) (plays : List Play)
        → IsTidy machine (run_plays rt machine host args settings k plays)
    unfolding run_plays
    IsTidy-run_plays k [] = record { deferred = refl; removes = refl; made = all_written refl }
    IsTidy-run_plays k (play ∷ plays) = IsTidy-if (not play.enabled) (IsTidy-run_plays k plays) (
        IsTidy-after machine (run_play rt machine host args settings k play) _
          (IsTidy-run_play k play)
          (IsTidy-run_plays (run_play rt machine host args settings k play).made plays))

  run_plays_first :
      (k : ℕ) (play : Play) (plays : List Play)
      → play.enabled ≡ true
      → run_plays rt machine host args settings k (play ∷ plays)
        ≡ after (run_play rt machine host args settings k play) (
            run_plays rt machine host args settings
              (run_play rt machine host args settings k play).made
              plays)
  unfolding run_plays
  run_plays_first k play plays h =
      if_not_enabled (run_plays rt machine host args settings k plays)
        (after (run_play rt machine host args settings k play) (
          run_plays rt machine host args settings
            (run_play rt machine host args settings k play).made plays))
        play.enabled h

  run_plays_skipped :
      (k : ℕ) (play : Play) (plays : List Play)
      → play.enabled ≡ false
      → run_plays rt machine host args settings k (play ∷ plays)
        ≡ run_plays rt machine host args settings k plays
  unfolding run_plays
  run_plays_skipped k play plays h =
      if_not_disabled (run_plays rt machine host args settings k plays)
        (after (run_play rt machine host args settings k play) (
          run_plays rt machine host args settings
            (run_play rt machine host args settings k play).made plays))
        play.enabled h

  -- The loop over the plays passes over those that are not enabled.
  pub run_plays-enabled :
      (plays : List Play) (k : ℕ)
      → run_plays rt machine host args settings k plays
        ≡ run_plays rt machine host args settings k (enabled_plays plays)
  run_plays-enabled [] k = refl
  run_plays-enabled (play ∷ plays) k = elim (Bool-cases play.enabled) [
    | inl enabled ↦
        run_plays_first k play plays enabled
        ∙ ap (after (run_play rt machine host args settings k play))
            (run_plays-enabled plays (run_play rt machine host args settings k play).made)
        ∙ sym (run_plays_first k play (enabled_plays plays) enabled)
        ∙ ap (run_plays rt machine host args settings k)
            (sym (kept_play play.enabled play (enabled_plays plays) enabled))
    | inr disabled ↦
        run_plays_skipped k play plays disabled
        ∙ run_plays-enabled plays k
        ∙ ap (run_plays rt machine host args settings k)
            (sym (dropped_play play.enabled play (enabled_plays plays) disabled))
  ]
