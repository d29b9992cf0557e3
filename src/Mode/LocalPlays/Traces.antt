-- ===== src/Mode/LocalPlays/Traces.antt =====
-- What the trace of a run of mode/mode_local.go says of its temporary files.
use terraform_provisioner_an.Base.{
  ◌≡◌, refl, sym, ap, ℕ, List, [], ◌∷◌, ◌++◌, map, append_assoc, Text,
}
use terraform_provisioner_an.Base.Outcome.{Outcome, ok, err, panic}
use terraform_provisioner_an.Mode.LocalPlays.{
  Effect, made_file, wrote, ran, removed, Ended, Machine, ended, then_do,
}

abbrev pub made_files : List Effect → List Text
made_files [] = []
made_files (made_file name ∷ es) = name ∷ made_files es
made_files (wrote _ _ ∷ es) = made_files es
made_files (ran _ ∷ es) = made_files es
made_files (removed _ ∷ es) = made_files es

abbrev pub written_files : List Effect → List Text
written_files [] = []
written_files (wrote name _ ∷ es) = name ∷ written_files es
written_files (ran _ ∷ es) = written_files es
written_files (made_file _ ∷ es) = written_files es
written_files (removed _ ∷ es) = written_files es

abbrev pub removed_files : List Effect → List Text
removed_files [] = []
removed_files (removed name ∷ es) = name ∷ removed_files es
removed_files (wrote _ _ ∷ es) = removed_files es
removed_files (ran _ ∷ es) = removed_files es
removed_files (made_file _ ∷ es) = removed_files es

pub written_files-append :
    (es fs : List Effect) → written_files (es ++ fs) ≡ written_files es ++ written_files fs
written_files-append [] fs = refl
written_files-append (wrote n c ∷ es) fs = ap (λ ns. n ∷ ns) (written_files-append es fs)
written_files-append (ran c ∷ es) fs = written_files-append es fs
written_files-append (made_file n ∷ es) fs = written_files-append es fs
written_files-append (removed n ∷ es) fs = written_files-append es fs

pub removed_files-append :
    (es fs : List Effect) → removed_files (es ++ fs) ≡ removed_files es ++ removed_files fs
removed_files-append [] fs = refl
removed_files-append (removed n ∷ es) fs = ap (λ ns. n ∷ ns) (removed_files-append es fs)
removed_files-append (wrote n c ∷ es) fs = removed_files-append es fs
removed_files-append (ran c ∷ es) fs = removed_files-append es fs
removed_files-append (made_file n ∷ es) fs = removed_files-append es fs

pub written_files-removals : (ns : List Text) → written_files (map removed ns) ≡ []
written_files-removals [] = refl
written_files-removals (n ∷ ns) = written_files-removals ns

pub removed_files-removals : (ns : List Text) → removed_files (map removed ns) ≡ ns
removed_files-removals [] = refl
removed_files-removals (n ∷ ns) = ap (λ ms. n ∷ ms) (removed_files-removals ns)

pub made_files-append :
    (es fs : List Effect) → made_files (es ++ fs) ≡ made_files es ++ made_files fs
made_files-append [] fs = refl
made_files-append (made_file n ∷ es) fs = ap (λ ns. n ∷ ns) (made_files-append es fs)
made_files-append (wrote n c ∷ es) fs = made_files-append es fs
made_files-append (ran c ∷ es) fs = made_files-append es fs
made_files-append (removed n ∷ es) fs = made_files-append es fs

pub made_files-removals : (ns : List Text) → made_files (map removed ns) ≡ []
made_files-removals [] = refl
made_files-removals (n ∷ ns) = made_files-removals ns

-- The files that were made are those that were written, or there is one more, the last one, which
-- could not be written, and then the run does not succeed.
pub data LastMade (machine : Machine) (result : Outcome (Unit {0})) (written made : List Text)
    : Type 0 where
  all_written : made ≡ written → LastMade machine result written made
  one_left :
      (name contents : Text)
      → made ≡ written ++ (name ∷ [])
      → (machine.write_file name contents ≡ ok tt → ⊥)
      → (result ≡ ok tt → ⊥)
      → LastMade machine result written made

abbrev pub IsLastMade : Machine → Ended → Type 0
IsLastMade machine e = LastMade machine e.result (written_files e.trace) (made_files e.trace)

module _ (machine : Machine) where
  more_made :
      (t : List Effect) (f : Ended)
      → made_files t ≡ written_files t
      → IsLastMade machine f
      → LastMade machine f.result (written_files (t ++ f.trace)) (made_files (t ++ f.trace))
  more_made t f p (all_written q) =
      all_written (rw (made_files-append t f.trace, written_files-append t f.trace, p, q) refl)
  more_made t f p (one_left name contents q not_written fails) =
      one_left name contents
        (rw (made_files-append t f.trace, written_files-append t f.trace, p, q)
          (sym (append_assoc (written_files t) (written_files f.trace) (name ∷ []))))
        not_written fails

  pub IsLastMade-then_do :
      (o : Outcome (Unit {0})) (t : List Effect) (d : List Text) (k : ℕ) (f : Ended)
      → IsLastMade machine (ended o t d k)
      → IsLastMade machine f
      → IsLastMade machine (then_do o t d k f)
  IsLastMade-then_do (ok _) t d k f (all_written p) h = more_made t f p h
  IsLastMade-then_do (ok _) t d k f (one_left name contents q not_written fails) h =
      absurd (fails refl)
  IsLastMade-then_do (err e) t d k f p h = p
  IsLastMade-then_do panic t d k f p h = p
