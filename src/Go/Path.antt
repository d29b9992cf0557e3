-- ===== src/Go/Path.antt =====
-- Go's path/filepath on Unix: Clean, Join, Dir and Base, by their documented rules.
use mathlib.Core.List.{reverse}
use terraform_provisioner_an.Base.{
  ◌≡◌, refl, Bool, true, false, ◌||◌, List, [], ◌∷◌, ◌++◌, Text, text, text_eq, has_prefix, join,
  split, is_empty, if◌then◌else◌, arith,
}

-- ".." in front of the elements kept so far, the last one first.
up : Bool → List Text → List Text
up true [] = []
up false [] = text ".." ∷ []
up rooted (top ∷ out) = if text_eq top (text "..") then text ".." ∷ (top ∷ out) else out

push : Bool → List Text → Text → List Text
unfolding up
push rooted out e =
    if is_empty e || text_eq e (text ".")
    then out
    else if text_eq e (text "..")
    then up rooted out
    else e ∷ out

reduce : Bool → List Text → List Text → List Text
unfolding push
reduce rooted out [] = reverse out
reduce rooted out (e ∷ es) = reduce rooted (push rooted out e) es

unfoldable pub clean : Text → Text
unfolding reduce has_prefix split join text_eq text
clean path =
    let rooted = has_prefix path (text "/") in
    let body = join (reduce rooted [] (split path b'/')) (text "/") in
    if rooted then text "/" ++ body else if is_empty body then text "." else body

non_empty : List Text → List Text
non_empty [] = []
non_empty (e ∷ es) = let rest = non_empty es in if is_empty e then rest else e ∷ rest

-- filepath.Join(a, b)
unfoldable pub path_join : Text → Text → Text
unfolding clean non_empty
path_join a b =
    let es = non_empty (a ∷ b ∷ []) in if is_empty es then [] else clean (join es (text "/"))

all_but_last : List Text → List Text
all_but_last [] = []
all_but_last (e ∷ []) = []
all_but_last (e ∷ f ∷ es) = e ∷ all_but_last (f ∷ es)

up_to_slash : List Text → Text
up_to_slash [] = []
up_to_slash (e ∷ es) = e ++ (text "/" ++ up_to_slash es)

unfoldable pub dir : Text → Text
unfolding clean all_but_last up_to_slash
dir path = clean (up_to_slash (all_but_last (split path b'/')))

last_or : Text → List Text → Text
last_or d [] = d
last_or d (e ∷ es) = last_or e es

unfoldable pub base : Text → Text
unfolding last_or non_empty split text
base path = if is_empty path then text "." else last_or (text "/") (non_empty (split path b'/'))

-- A cleaned path is not empty, so a joined one is only if both parts are.
clean-ne-nil : (path : Text) → is_empty (clean path) ≡ false
unfolding clean text
clean-ne-nil path = ground arith

pub path_join-ne-nil : (a b : Text) → is_empty b ≡ false → is_empty (path_join a b) ≡ false
unfolding path_join
path_join-ne-nil a [] e = cc
path_join-ne-nil [] (c ∷ b) e = clean-ne-nil (join ((c ∷ b) ∷ []) (text "/"))
path_join-ne-nil (d ∷ a) (c ∷ b) e = clean-ne-nil (join ((d ∷ a) ∷ (c ∷ b) ∷ []) (text "/"))

pub path_join-below : (a b : Text) → is_empty a ≡ false → is_empty (path_join a b) ≡ false
unfolding path_join
path_join-below [] b e = cc
path_join-below (c ∷ a) [] e = clean-ne-nil (join ((c ∷ a) ∷ []) (text "/"))
path_join-below (d ∷ a) (c ∷ b) e = clean-ne-nil (join ((d ∷ a) ∷ (c ∷ b) ∷ []) (text "/"))

clean_examples :
    (clean (text "a//b/./c/..") ≡ text "a/b")
    × (clean (text "/../x/") ≡ text "/x")
    × (clean (text "../../a") ≡ text "../../a")
    × (clean [] ≡ text ".")
    × (clean (text "/") ≡ text "/")
unfolding clean
clean_examples = (refl, refl, refl, refl, refl)

join_examples :
    (path_join (text "/tmp") (text "tf-ansible-bootstrap") ≡ text "/tmp/tf-ansible-bootstrap")
    × (path_join [] (text "x") ≡ text "x")
    × (path_join [] [] ≡ [])
unfolding path_join
join_examples = (refl, refl, refl)

dir_examples :
    (dir (text "/a/b.yml") ≡ text "/a")
    × (dir (text "b.yml") ≡ text ".")
    × (dir (text "/b") ≡ text "/")
    × (base (text "/a/b.yml") ≡ text "b.yml")
    × (base (text "a/b//") ≡ text "b")
    × (base (text "//") ≡ text "/")
unfolding dir base
dir_examples = (refl, refl, refl, refl, refl, refl)
