-- ===== src/Shell/Spells.antt =====
-- Which words a text spells, compositionally: the rules by which the proofs about the command
-- builders go through a command, piece by piece.
use mathlib.Core.List.{foldl-append}
use terraform_provisioner_an.Base.{
  ℕ, ◌≡◌, refl, sym, ◌∙◌, ap, ◌≢◌, true, some, List, [], ◌∷◌, ◌++◌, append_assoc, append-nil, arith,
  Text, text,
}
use terraform_provisioner_an.Shell.{
  State, unquoted, single, double, so_far, gap, within, is_plain, IsPlain, HasNoQuote,
  is_double_plain, IsDoublePlain, run, step, argv,
}

-- The text spells the words, wherever a word may begin, and leaves the last one open.
pub record Spells (t : Text) (ws : List Text) : Type 0 where
  pub init : List Text
  pub last : Text
  pub words : ws ≡ init ++ (last ∷ [])
  pub reads : (ds : List Text) → run (gap ds) t ≡ within unquoted (ds ++ init) last

-- The text is read as `v`, at the beginning of a word and within one.
pub record IsChunk (t v : Text) : Type 0 where
  pub begins : (ds : List Text) → run (gap ds) t ≡ within unquoted ds v
  pub goes_on :
      (ds : List Text) (w : Text) → run (within unquoted ds w) t ≡ within unquoted ds (w ++ v)

pub run-append : (s : State) (t u : Text) → run s (t ++ u) ≡ run (run s t) u
unfolding run
run-append s t u = foldl-append step s t u

pub Spells-of_IsChunk : {t v : Text} → IsChunk t v → Spells t (v ∷ [])
Spells-of_IsChunk {v} h = record {
  init = [];
  last = v;
  words = refl;
  reads = λ ds. h.begins ds ∙ ap (λ xs. within unquoted xs v) (sym (append-nil ds));
}

run_space :
    (ds : List Text) (w t : Text)
    → run (within unquoted ds w) (text " " ++ t) ≡ run (gap (ds ++ (w ∷ []))) t
unfolding run text
run_space ds w t = refl

-- A space between two texts joins their words.
pub Spells-append :
    {t u : Text} {ws vs : List Text}
    → Spells t ws
    → Spells u vs
    → Spells (t ++ (text " " ++ u)) (ws ++ vs)
Spells-append {t} {u} h k = record {
  init = (h.init ++ (h.last ∷ [])) ++ k.init;
  last = k.last;
  words = rw (h.words, k.words) (simp append_assoc);
  reads = λ ds. rw (run-append, h.reads, run_space, k.reads) (simp append_assoc);
}

module _ {t u v w : Text} where
  pub IsChunk-append : IsChunk t v → IsChunk u w → IsChunk (t ++ u) (v ++ w)
  IsChunk-append h k = record {
    begins = λ ds. rw (run-append, h.begins, k.goes_on);
    goes_on = λ ds x. rw (run-append, h.goes_on, k.goes_on, append_assoc);
  }

step_plain :
    (s : State) (c : ℕ)
    → is_plain c ≡ true
    → s.mode ≡ unquoted
    → step s c ≡ within unquoted s.words (so_far s.word ++ (c ∷ []))
unfolding step is_plain
step_plain s c h m = ground arith

run_plain :
    (t w : Text) (ds : List Text)
    → IsPlain t
    → run (within unquoted ds w) t ≡ within unquoted ds (w ++ t)
unfolding run
run_plain [] w ds _ = rw append-nil
run_plain (c ∷ t) w ds (h, hs) =
    rw (step_plain (within unquoted ds w) c h refl)
      (run_plain t (w ++ (c ∷ [])) ds hs ∙ rw append_assoc)

-- A plain text is read as it stands.
pub IsChunk-plain : (t : Text) → t ≢ [] → IsPlain t → IsChunk t t
IsChunk-plain [] ne h = absurd (ne refl)
IsChunk-plain (c ∷ t) ne h = record {
  begins = λ ds. unfold run in rw (step_plain (gap ds) c h.0 refl) (run_plain t (c ∷ []) ds h.1);
  goes_on = λ ds w. run_plain (c ∷ t) w ds h;
}

step_single :
    (s : State) (c : ℕ)
    → c ≢ 39
    → s.mode ≡ single
    → step s c ≡ within single s.words (so_far s.word ++ (c ∷ []))
unfolding step
step_single s c h m = ground arith

-- Between single quotes, and between double quotes, the text is read as `v`.
pub record InSingle (t v : Text) : Type 0 where
  pub reads : (ds : List Text) (w : Text) → run (within single ds w) t ≡ within single ds (w ++ v)

pub record InDouble (t v : Text) : Type 0 where
  pub reads : (ds : List Text) (w : Text) → run (within double ds w) t ≡ within double ds (w ++ v)

run_single :
    (t w : Text) (ds : List Text)
    → HasNoQuote t
    → run (within single ds w) t ≡ within single ds (w ++ t)
unfolding run
run_single [] w ds _ = rw append-nil
run_single (c ∷ t) w ds (h, hs) =
    rw (step_single (within single ds w) c h refl)
      (run_single t (w ++ (c ∷ [])) ds hs ∙ rw append_assoc)

pub InSingle-plain : (t : Text) → HasNoQuote t → InSingle t t
InSingle-plain t h = record { reads = λ ds w. run_single t w ds h }

step_double :
    (s : State) (c : ℕ)
    → is_double_plain c ≡ true
    → s.mode ≡ double
    → step s c ≡ within double s.words (so_far s.word ++ (c ∷ []))
unfolding step is_double_plain
step_double s c h m = ground arith

run_double :
    (t w : Text) (ds : List Text)
    → IsDoublePlain t
    → run (within double ds w) t ≡ within double ds (w ++ t)
unfolding run
run_double [] w ds _ = rw append-nil
run_double (c ∷ t) w ds (h, hs) =
    rw (step_double (within double ds w) c h refl)
      (run_double t (w ++ (c ∷ [])) ds hs ∙ rw append_assoc)

pub InDouble-plain : (t : Text) → IsDoublePlain t → InDouble t t
InDouble-plain t h = record { reads = λ ds w. run_double t w ds h }

module _ {t u v w : Text} where
  pub InSingle-append : InSingle t v → InSingle u w → InSingle (t ++ u) (v ++ w)
  InSingle-append h k = record { reads = λ ds x. rw (run-append, h.reads, k.reads, append_assoc) }

  pub InDouble-append : InDouble t v → InDouble u w → InDouble (t ++ u) (v ++ w)
  InDouble-append h k = record { reads = λ ds x. rw (run-append, h.reads, k.reads, append_assoc) }

enter_single :
    (ds : List Text) (w t : Text)
    → (run (gap ds) (text "'" ++ t) ≡ run (within single ds []) t)
      × (run (within unquoted ds w) (text "'" ++ t) ≡ run (within single ds w) t)
      × (run (within single ds w) (text "'") ≡ within unquoted ds w)
unfolding run text
enter_single ds w t = (refl, refl, refl)

enter_double :
    (ds : List Text) (w t : Text)
    → (run (gap ds) (text "\"" ++ t) ≡ run (within double ds []) t)
      × (run (within unquoted ds w) (text "\"" ++ t) ≡ run (within double ds w) t)
      × (run (within double ds w) (text "\"") ≡ within unquoted ds w)
unfolding run text
enter_double ds w t = (refl, refl, refl)

module _ {t v : Text} where
  pub IsChunk-single : InSingle t v → IsChunk (text "'" ++ (t ++ text "'")) v
  IsChunk-single h = record {
    begins = λ ds.
        (enter_single ds [] _).0
        ∙ run-append _ t _
        ∙ ap (λ s. run s (text "'")) (h.reads ds [])
        ∙ (enter_single ds v []).2;
    goes_on = λ ds w.
        (enter_single ds w _).1
        ∙ run-append _ t _
        ∙ ap (λ s. run s (text "'")) (h.reads ds w)
        ∙ (enter_single ds (w ++ v) []).2;
  }

  pub IsChunk-double : InDouble t v → IsChunk (text "\"" ++ (t ++ text "\"")) v
  IsChunk-double h = record {
    begins = λ ds.
        (enter_double ds [] _).0
        ∙ run-append _ t _
        ∙ ap (λ s. run s (text "\"")) (h.reads ds [])
        ∙ (enter_double ds v []).2;
    goes_on = λ ds w.
        (enter_double ds w _).1
        ∙ run-append _ t _
        ∙ ap (λ s. run s (text "\"")) (h.reads ds w)
        ∙ (enter_double ds (w ++ v) []).2;
  }

-- A shell splits a text that spells words into these words.
pub argv_of_Spells : {t : Text} {ws : List Text} → Spells t ws → argv t ≡ some ws
unfolding argv
argv_of_Spells h = rw (h.reads [], argv) (ap some (sym h.words))
