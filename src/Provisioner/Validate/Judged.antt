-- ===== src/Provisioner/Validate/Judged.antt =====
-- How a part of `validateFn` of provisioner/resource_provisioner.go adds to the errors so far.
use terraform_provisioner_an.Base.{
  ℕ, suc, ◌≤◌, ◌<◌, ◌≡◌, refl, sym, ap, Bool, true, false, ◌&&◌, List, [], ◌∷◌, ◌++◌, arith, Text,
  length,
}
use terraform_provisioner_an.Types.Helpers.{Checked}
use terraform_provisioner_an.Provisioner.Validate.{Validating, running, panicked, ◌and_then◌}

abbrev pub error_count : Validating → ℕ
error_count (running c) = length c.errs
error_count (panicked c) = suc (length c.errs)

-- A good part adds no error, and a bad one at least one.
abbrev pub Judged : Bool → Checked → Validating → Type 0
Judged true c r = (d : Checked) × (r ≡ running d) × (d.errs ≡ c.errs)
Judged false c r = length c.errs < error_count r

pub Judged-grows :
    (b : Bool) (c : Checked) (r : Validating) → Judged b c r → length c.errs ≤ error_count r
Judged-grows true c r (d, e, h) = rw (e, h) (omega arith)
Judged-grows false c r h = omega arith

pub Judged-good :
    (b : Bool) (c d : Checked) (r : Validating) → d.errs ≡ c.errs → Judged b d r → Judged b c r
Judged-good true c d r h (d', e, h') = (d', e, rw h' h)
Judged-good false c d r h j = rw (sym h) j

pub Judged-bad :
    (b : Bool) (c d : Checked) (r : Validating)
    → length c.errs < length d.errs
    → Judged b d r
    → Judged false c r
Judged-bad b c d r h j = let g = Judged-grows b d r j in omega arith

pub Judged-and_then :
    (b1 b2 : Bool) (c : Checked) (r : Validating) (f : Checked → Validating)
    → Judged b1 c r
    → ((d : Checked) → Judged b2 d (f d))
    → Judged (b1 && b2) c (r and_then f)
Judged-and_then true b2 c r f (d, e, h) rest = rw e (Judged-good b2 c d _ h (rest d))
Judged-and_then false b2 c (running d) f j rest = Judged-bad b2 c d _ j (rest d)
Judged-and_then false b2 c (panicked d) f j rest = j

pub length_snoc : (es : List Text) (e : Text) → length (es ++ (e ∷ [])) ≡ suc (length es)
length_snoc [] e = refl
length_snoc (x ∷ es) e = ap suc (length_snoc es e)
