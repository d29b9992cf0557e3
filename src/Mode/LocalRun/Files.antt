-- ===== src/Mode/LocalRun/Files.antt =====
-- The temporary files of a run of mode/mode_local.go: what becomes of them, and what is in them.
use mathlib.Core.List.{reverse, reverse-reverse}
use mathlib.Core.Path.{subst}
use terraform_provisioner_an.Base.{
  ◌≡◌, refl, sym, ◌∙◌, ℕ, suc, Bool, true, false, not, List, [], ◌∷◌, ◌++◌, append-nil, map, Text,
  is_empty, if◌then◌else◌,
}
use terraform_provisioner_an.Base.Outcome.{Outcome, ok, err, panic, err-ne-ok, panic-ne-ok}
use terraform_provisioner_an.Types.AnsibleSshSettings.{AnsibleSshSettings}
use terraform_provisioner_an.Types.Play.{Play}
use terraform_provisioner_an.Command.Arguments.{Runtime}
use terraform_provisioner_an.Mode.ConnectionInfo.{ConnectionInfo}
use terraform_provisioner_an.Mode.HostKeys.{Network, checked_settings, known_hosts}
use terraform_provisioner_an.Mode.LocalPlays.{
  Effect, made_file, wrote, unwritten, removed, Ended, Machine, ended, then_do, NewFile, given,
  created, failed, written, in_file,
}
use terraform_provisioner_an.Mode.LocalPlays.Cleanup.{IsTidy, IsTidy-run_plays}
use terraform_provisioner_an.Mode.LocalPlays.Traces.{
  made_files, written_files, removed_files, made_files-append, made_files-removals,
  written_files-append, removed_files-append, written_files-removals, removed_files-removals,
  LastMade, all_written, one_left, IsLastMade, IsLastMade-then_do,
}
use terraform_provisioner_an.Mode.LocalRun.{
  with_file, write_known_hosts, write_pem, with_pem, with_known_hosts, with_settings, local_run,
  local_trace,
}

-- The second list has the names of the first, in order, and empty names, which name no file.
pub data AllNamed : List Text → List Text → Type 0 where
  no_more : AllNamed [] []
  a_file : {ws ns : List Text} → (name : Text) → AllNamed ws ns → AllNamed (name ∷ ws) (name ∷ ns)
  no_file : {ws ns : List Text} → AllNamed ws ns → AllNamed ws ([] ∷ ns)

AllNamed-refl : (ws : List Text) → AllNamed ws ws
AllNamed-refl [] = no_more
AllNamed-refl (w ∷ ws) = a_file w (AllNamed-refl ws)

AllNamed-append :
    {ws ns vs ms : List Text} → AllNamed ws ns → AllNamed vs ms → AllNamed (ws ++ vs) (ns ++ ms)
AllNamed-append no_more q = q
AllNamed-append (a_file name p) q = a_file name (AllNamed-append p q)
AllNamed-append (no_file p) q = no_file (AllNamed-append p q)

-- A part of the run defers the removal of what it writes, and removes nothing itself.
record IsNeat (machine : Machine) (e : Ended) : Type 0 where
  deferred : AllNamed (written_files e.trace) e.deferred
  removes : removed_files e.trace ≡ []
  made : IsLastMade machine e

IsNeat-of_IsTidy : (machine : Machine) (e : Ended) → IsTidy machine e → IsNeat machine e
IsNeat-of_IsTidy machine e t = record {
  deferred = subst (AllNamed (written_files e.trace)) t.deferred (AllNamed-refl _);
  removes = t.removes;
  made = t.made;
}

IsNeat-nothing :
    (machine : Machine) (o : Outcome (Unit {0})) (k : ℕ) → IsNeat machine (ended o [] [] k)
IsNeat-nothing machine o k = record { deferred = no_more; removes = refl; made = all_written refl }

IsNeat-then_do :
    (machine : Machine) (o : Outcome (Unit {0})) (t : List Effect) (d : List Text) (k : ℕ)
    (f : Ended)
    → IsNeat machine (ended o t d k)
    → IsNeat machine f
    → IsNeat machine (then_do o t d k f)
IsNeat-then_do machine (ok _) t d k f h hf = record {
  made = IsLastMade-then_do machine (ok tt) t d k f h.made hf.made;
  deferred = rw (written_files-append t f.trace) (AllNamed-append h.deferred hf.deferred);
  removes = rw (removed_files-append t f.trace, h.removes, hf.removes) refl;
}
IsNeat-then_do machine (err e) t d k f h hf = record {
  deferred = h.deferred;
  removes = h.removes;
  made = h.made;
}
IsNeat-then_do machine panic t d k f h hf = record {
  deferred = h.deferred;
  removes = h.removes;
  made = h.made;
}

-- Only the empty name is ever given, and a file without its text could not be written.
abbrev IsNewOrNone : Machine → NewFile → Type 0
IsNewOrNone machine (given name) = name ≡ []
IsNewOrNone machine (unwritten name o) =
    (contents : Text) × (machine.write_file name contents ≡ ok tt → ⊥) × (o ≡ ok tt → ⊥)
IsNewOrNone machine _ = Unit

IsNeat-with_file :
    (machine : Machine) (file : NewFile) (k : ℕ) (rest : Text → ℕ → Ended)
    → ((name : Text) (k : ℕ) → IsNeat machine (rest name k))
    → IsNewOrNone machine file
    → IsNeat machine (with_file file k rest)
unfolding with_file
IsNeat-with_file machine (given name) k rest h e =
    IsNeat-then_do machine (ok tt) [] (name ∷ []) k (rest name k)
      (record {
        deferred = subst (λ n. AllNamed [] (n ∷ [])) (sym e) (no_file no_more);
        removes = refl;
        made = all_written refl;
      })
      (h name k)
IsNeat-with_file machine (created name contents) k rest h e =
    IsNeat-then_do machine (ok tt) (made_file name ∷ wrote name contents ∷ []) (name ∷ []) (suc k)
      (rest name (suc k))
      (record { deferred = a_file name no_more; removes = refl; made = all_written refl })
      (h name (suc k))
IsNeat-with_file machine (unwritten name o) k rest h (contents, not_written, fails) = record {
  deferred = no_more;
  removes = refl;
  made = one_left name contents refl not_written fails;
}
IsNeat-with_file machine (failed o) k rest h e = IsNeat-nothing machine o k

module _ (machine : Machine) where
  IsNewOrNone-written :
      (name contents : Text) (o : Outcome (Unit {0}))
      → machine.write_file name contents ≡ o
      → IsNewOrNone machine (written machine name contents o)
  IsNewOrNone-written name contents (ok _) h = tt
  IsNewOrNone-written name contents (err e) h = (contents, (λ q. err-ne-ok (sym h ∙ q)), err-ne-ok)
  IsNewOrNone-written name contents panic h =
      (contents, (λ q. panic-ne-ok (sym h ∙ q)), panic-ne-ok)

  IsNewOrNone-in_file :
      (contents : Text) (o : Outcome Text) → IsNewOrNone machine (in_file machine contents o)
  IsNewOrNone-in_file contents (ok name) =
      IsNewOrNone-written name contents (machine.write_file name contents) refl
  IsNewOrNone-in_file contents (err e) = tt
  IsNewOrNone-in_file contents panic = tt

  IsNewOrNone-if :
      (b : Bool) (f : NewFile)
      → IsNewOrNone machine f
      → IsNewOrNone machine (if b then f else given [])
  IsNewOrNone-if true f h = h
  IsNewOrNone-if false f h = refl

  IsNeat-if :
      (b : Bool) (e f : Ended)
      → IsNeat machine e
      → IsNeat machine f
      → IsNeat machine (if b then e else f)
  IsNeat-if true e f h k = h
  IsNeat-if false e f h k = k

  IsNeat-with_pem :
      (v : ConnectionInfo) (key : Text) (k : ℕ) (rest : Text → ℕ → Ended)
      → ((name : Text) (k : ℕ) → IsNeat machine (rest name k))
      → IsNeat machine (with_pem machine v key k rest)
  unfolding with_pem write_pem
  IsNeat-with_pem v key k rest h =
      IsNeat-if (not (is_empty key)) _ _
        (IsNeat-with_file machine _ k rest h (
          IsNewOrNone-if (not (is_empty v.private_key)) _
            (IsNewOrNone-in_file key (machine.temp_file k))))
        (h [] k)

module _ (rt : Runtime) (machine : Machine) (network : Network) (v : ConnectionInfo)
    (plays : List Play)
    (named : (k : ℕ) (name : Text) → machine.temp_file k ≡ ok name → is_empty name ≡ false) where
  IsNeat-with_known_hosts :
      (settings : AnsibleSshSettings) (bastion target : Text) (o : Outcome (List Text × List Text))
      (k : ℕ)
      → IsNeat machine (with_known_hosts rt machine network v plays settings bastion target o k)
  unfolding write_known_hosts
  IsNeat-with_known_hosts settings bastion target (ok (ts, bs)) k =
      IsNeat-with_file machine _ k _
        (λ bastion_file k.
          IsNeat-with_file machine _ k _
            (λ target_file k.
              IsNeat-of_IsTidy machine _
                (IsTidy-run_plays rt machine v.host _ settings named k plays))
            (IsNewOrNone-in_file machine _ (machine.temp_file k)))
        (IsNewOrNone-in_file machine _ (machine.temp_file k))
  IsNeat-with_known_hosts settings bastion target (err e) k = IsNeat-nothing machine (err e) k
  IsNeat-with_known_hosts settings bastion target panic k = IsNeat-nothing machine panic k

  IsNeat-with_settings :
      (o : Outcome AnsibleSshSettings) → IsNeat machine (with_settings rt machine network v plays o)
  IsNeat-with_settings (ok settings) =
      IsNeat-with_pem machine v v.bastion_private_key 0 _ λ bastion k.
        IsNeat-with_pem machine v v.private_key k _ λ target k.
          IsNeat-with_known_hosts settings bastion target (known_hosts network v settings) k
  IsNeat-with_settings (err e) = IsNeat-nothing machine (err e) 0
  IsNeat-with_settings panic = IsNeat-nothing machine panic 0

  -- Whatever local mode does and however its run ends, every temporary file that it has written, be
  -- it for a private key, known hosts or an inventory, is removed in the end, in the reverse order
  -- of the writing, and nothing else is removed but the empty name; and these are all the temporary
  -- files that it has made, except that the last one is left if it could not be written, and then
  -- the run does not succeed; provided that the names of temporary files are not empty.
  pub removed-local_trace :
      (settings : AnsibleSshSettings)
      → AllNamed
          (written_files (local_trace rt machine network v plays settings))
          (reverse (removed_files (local_trace rt machine network v plays settings)))
        × LastMade machine
            (local_run rt machine network v plays settings).result
            (written_files (local_trace rt machine network v plays settings))
            (made_files (local_trace rt machine network v plays settings))
  unfolding local_trace local_run
  removed-local_trace settings =
      let e = with_settings rt machine network v plays (checked_settings v plays settings) in
      let neat = IsNeat-with_settings (checked_settings v plays settings) in
      rw
        (
          removed_files-append e.trace (map removed (reverse e.deferred)),
          neat.removes,
          removed_files-removals (reverse e.deferred),
          written_files-append e.trace (map removed (reverse e.deferred)),
          written_files-removals (reverse e.deferred),
          append-nil (written_files e.trace),
          made_files-append e.trace (map removed (reverse e.deferred)),
          made_files-removals (reverse e.deferred),
          append-nil (made_files e.trace),
          reverse-reverse e.deferred,
        )
        (neat.deferred, neat.made)
