-- ===== src/Mode/Hosts/Lines.antt =====
-- The inventories of mode/mode_remote.go and mode/mode_local.go, line by line.
use terraform_provisioner_an.Base.{
  ◌≡◌, ◌≢◌, refl, ap, ◌∙◌, sym, Bool, true, false, ◌||◌, List, [], ◌∷◌, ◌++◌, append_assoc, arith,
  Text, text, text_eq, text_eq_refl, split, All, All-append, ◌==◌, ==_iff, Bool-cases, inl, inr,
  if◌then◌else◌,
}
use terraform_provisioner_an.Types.Helpers.{member}
use terraform_provisioner_an.Mode.Hosts.{
  has_localhost, ensure_localhost_in_hosts, newline, lines_text, group_header, groups_text,
  inventory_text,
}

-- No line ends inside of it.
abbrev pub IsLine : Text → Type 0
IsLine t = All (λ c. c ≢ 10) t

-- The lines of the groups.
unfoldable pub group_lines : List Text → List Text → List Text
group_lines lines [] = [] ∷ []
group_lines lines (group ∷ groups) =
    group_header group ∷ (lines ++ ([] ∷ [] ∷ group_lines lines groups))

split-line :
    (line rest : Text) → IsLine line → split (line ++ (newline ++ rest)) 10 ≡ line ∷ split rest 10
unfolding split
split-line [] rest h = refl
split-line (c ∷ line) rest (differs, h) = elim (Bool-cases (c == 10)) [
  | inl same ↦ absurd (differs ((==_iff c 10).0 same))
  | inr other ↦ rw (other, split-line line rest h) refl
]

split-lines_text :
    (lines : List Text) (rest : Text)
    → All IsLine lines
    → split (lines_text lines ++ rest) 10 ≡ lines ++ split rest 10
unfolding lines_text
split-lines_text [] rest h = refl
split-lines_text (line ∷ lines) rest (l, h) =
    rw (append_assoc line (newline ++ lines_text lines) rest) (
      split-line line (lines_text lines ++ rest) l
      ∙ ap (λ ls. line ∷ ls) (split-lines_text lines rest h))

header-IsLine : (group : Text) → IsLine group → IsLine (group_header group)
unfolding group_header text
header-IsLine group h = ((omega arith), All-append _ group (93 ∷ []) h ((omega arith), tt))

split-groups_text :
    (lines groups : List Text)
    → All IsLine lines
    → All IsLine groups
    → split (groups_text lines groups) 10 ≡ group_lines lines groups
unfolding groups_text group_lines split
split-groups_text lines [] h hs = refl
split-groups_text lines (group ∷ groups) h (g, hs) =
    split-line (group_header group) _ (header-IsLine group g)
    ∙ ap (λ ls. group_header group ∷ ls)
        (split-lines_text lines _ h
          ∙ ap (λ ls. lines ++ ([] ∷ [] ∷ ls)) (split-groups_text lines groups h hs))

-- The inventory of hosts and groups whose names have no line break in them, read line by line: a
-- line for each host, two empty lines, and then for each group in its order its name in brackets,
-- a line for each host again, and two empty lines.
pub split-inventory_text :
    (lines groups : List Text)
    → All IsLine lines
    → All IsLine groups
    → split (inventory_text lines groups) 10 ≡ lines ++ ([] ∷ [] ∷ group_lines lines groups)
unfolding inventory_text split
split-inventory_text lines groups h hs =
    split-lines_text lines _ h
    ∙ ap (λ ls. lines ++ ([] ∷ [] ∷ ls)) (split-groups_text lines groups h hs)

if_true : (b c : Bool) → (if b then true else c) ≡ (b || c)
if_true true c = refl
if_true false c = refl

text_eq_sym : (s t : Text) → text_eq s t ≡ text_eq t s
unfolding text_eq
text_eq_sym [] [] = refl
text_eq_sym [] (b ∷ t) = refl
text_eq_sym (a ∷ s) [] = refl
text_eq_sym (a ∷ s) (b ∷ t) = ground (arith, text_eq_sym s t)

has_localhost_found : (hosts : List Text) → has_localhost hosts ≡ member (text "localhost") hosts
unfolding has_localhost member
has_localhost_found [] = refl
has_localhost_found (host ∷ hosts) =
    rw (text_eq_sym host (text "localhost"), has_localhost_found hosts)
      (if_true (text_eq (text "localhost") host) (member (text "localhost") hosts))

-- The hosts of a remote inventory hold localhost, and they are the play's hosts, in their order,
-- with localhost in front if it was missing; to ensure this twice changes nothing.
pub ensure_localhost_in_hosts-keeps :
    (hosts : List Text)
    → (member (text "localhost") (ensure_localhost_in_hosts hosts) ≡ true)
      × (ensure_localhost_in_hosts hosts
          ≡ (if member (text "localhost") hosts then hosts else text "localhost" ∷ hosts))
      × (ensure_localhost_in_hosts (ensure_localhost_in_hosts hosts)
          ≡ ensure_localhost_in_hosts hosts)
unfolding ensure_localhost_in_hosts
ensure_localhost_in_hosts-keeps hosts = elim (Bool-cases (has_localhost hosts)) [
  | inl there ↦
      let found = sym (has_localhost_found hosts) ∙ there in
      (rw there found, rw (there, found) refl, rw (there, there) refl)
  | inr missing ↦
      let absent = sym (has_localhost_found hosts) ∙ missing in
      (
        rw missing (unfold member in rw (text_eq_refl (text "localhost")) refl),
        rw (missing, absent) refl,
        rw missing (unfold has_localhost in rw (text_eq_refl (text "localhost")) refl),
      )
]
