-- ===== src/Shellescape/Tests.antt =====
-- The cases of shellescape/extra_vars_escape_test.go, and the theorems on some inputs.
use terraform_provisioner_an.Base.{
  suc, ◌≡◌, ◌↔◌, refl, false, some, [], ◌∷◌, ◌++◌, Text, text, text_eq, contains, length,
}
use terraform_provisioner_an.Shell.{argv}
use terraform_provisioner_an.Shellescape.Value.{value, requote, safe_loop_ends, safe-requote}
use terraform_provisioner_an.Shellescape.Quoting.{argv-safe, argv-safe_exact}
use terraform_provisioner_an.Shellescape.{
  safe, safe_loop, next, new_default_escape, new_single_quote_escape,
}

abbrev safe_single : Text → Text
safe_single t = safe (new_single_quote_escape t)

test_escape :
    (safe_single (text "\\'") ≡ text "'\\''")
    × (safe_single (text "'") ≡ text "'\\''")
    × (safe_single (text "'\\") ≡ text "'\\''\\")
    × (safe_single (text "'\\'") ≡ text "'\\''")
    × (safe_single (text "'\\''") ≡ text "'\\''")
    × (safe_single (text "''") ≡ text "'\\'''\\''")
    × (safe_single (text "'\\n'") ≡ text "'\\''\\n'\\''")
unfolding safe safe_loop next new_single_quote_escape text text_eq
test_escape = (refl, refl, refl, refl, refl, refl, refl)

-- The text it's, and the text \'
abbrev its : Text
its = 105 ∷ 116 ∷ 39 ∷ 115 ∷ []

abbrev escaped_already : Text
escaped_already = 92 ∷ 39 ∷ []

argv-safe_example :
    argv (text "'" ++ (safe (new_single_quote_escape its) ++ text "'")) ≡ some (value 39 its ∷ [])
argv-safe_example = argv-safe its

argv-safe_exact_example :
    (argv (text "'" ++ (safe (new_single_quote_escape escaped_already) ++ text "'"))
      ≡ some (escaped_already ∷ []))
    ↔ (contains escaped_already (92 ∷ 39 ∷ []) ≡ false)
argv-safe_exact_example = argv-safe_exact escaped_already

safe_loop_ends_example :
    safe_loop (suc (length its)) (new_default_escape its 39) []
    ≡ some (safe (new_default_escape its 39))
safe_loop_ends_example = safe_loop_ends 39 its

safe-requote_example :
    safe (new_default_escape escaped_already 39) ≡ requote 39 (value 39 escaped_already)
safe-requote_example = safe-requote 39 escaped_already
