-- ===== src/Go/Value.antt =====
-- Values of Go's `interface{}` as Terraform hands them to the program, and the type assertions that
-- the program makes on them.
use terraform_provisioner_an.Base.{
  Bool, Option, none, some, List, [], ◌∷◌, Text, text_eq, if◌then◌else◌,
}
use terraform_provisioner_an.Base.Int.{ℤ}
use terraform_provisioner_an.Base.Outcome.{Outcome, ok, panic}

-- A `*schema.Set` of Terraform is known by what its two methods return that the program calls:
-- the text of `GoString` and the members that `List` gives. `other` is a value of any other type.
mutual
  pub data Value : Type 0 where
    null : Value
    bool : Bool → Value
    int : ℤ → Value
    string : Text → Value
    slice : Values → Value
    slice_of_maps : Values → Value
    object : Fields → Value
    set : Text → Values → Value
    other : Text → Value

  pub data Values : Type 0 where
    nil : Values
    cons : Value → Values → Values

  pub data Fields : Type 0 where
    end : Fields
    field : Text → Value → Fields → Fields

unfoldable pub to_list : Values → List Value
to_list nil = []
to_list (cons v vs) = v ∷ to_list vs

-- `v, ok := m[k]`
unfoldable pub lookup : Fields → Text → Option Value
lookup end k = none
lookup (field j v fs) k = if text_eq j k then some v else lookup fs k

abbrev pub or_null : Option Value → Value
or_null none = null
or_null (some v) = v

-- `m[k]`, which is nil for a key that the map lacks.
unfoldable pub index : Fields → Text → Value
unfolding lookup
index fs k = or_null (lookup fs k)

-- The entries of a map, in no particular order.
unfoldable pub entries : Fields → List (Text × Value)
entries end = []
entries (field k v fs) = (k, v) ∷ entries fs

-- `v.(bool)`, and so for the other types; a value of another type is a panic.
unfoldable pub as_bool : Value → Outcome Bool
as_bool (bool b) = ok b
as_bool _ = panic

unfoldable pub as_int : Value → Outcome ℤ
as_int (int i) = ok i
as_int _ = panic

unfoldable pub as_string : Value → Outcome Text
as_string (string s) = ok s
as_string _ = panic

unfoldable pub as_slice : Value → Outcome (List Value)
unfolding to_list
as_slice (slice vs) = ok (to_list vs)
as_slice _ = panic

unfoldable pub as_slice_of_maps : Value → Outcome (List Value)
unfolding to_list
as_slice_of_maps (slice_of_maps vs) = ok (to_list vs)
as_slice_of_maps _ = panic

unfoldable pub as_map : Value → Outcome Fields
as_map (object fs) = ok fs
as_map _ = panic

-- `v.(*schema.Set).GoString()` and `v.(*schema.Set).List()`
unfoldable pub go_string : Value → Outcome Text
go_string (set shown vs) = ok shown
go_string _ = panic

unfoldable pub set_list : Value → Outcome (List Value)
unfolding to_list
set_list (set shown vs) = ok (to_list vs)
set_list _ = panic
