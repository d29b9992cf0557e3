-- ===== src/Types/Schema.antt =====
-- Terraform's helper/schema, as far as the program writes it: the description of an attribute, and
-- which values Terraform hands over for it. Also the validation functions by name.
use terraform_provisioner_an.Base.{
  ◌≡◌, ◌↔◌, Bool, true, false, Option, none, some, List, [], Text, text, All,
}
use terraform_provisioner_an.Base.Int.{ℤ, atoi}
use terraform_provisioner_an.Go.Value.{
  Value, null, bool, int, string, slice, object, set, Values, Fields, to_list, index,
}

pub data ValueType : Type 0 where
  type_bool type_int type_string type_list type_map type_set : ValueType

-- `from_env` is a DefaultFunc that reads an integer from an environment variable.
pub data Default : Type 0 where
  no_default : Default
  constant : Value → Default
  from_env : Text → ℤ → Default

abbrev or_int : ℤ → Option ℤ → Value
or_int fallback none = int fallback
or_int fallback (some i) = int i

pub data Validator : Type 0 where
  accept_all check_become_method check_path : Validator

pub record Spec : Type 0 where
  pub type : ValueType
  pub required : Bool
  pub optional : Bool
  pub computed : Bool
  pub default : Default
  pub validate : Validator
  pub conflicts_with : List Text

-- `Type: t, Optional: true`
abbrev pub optional_of : ValueType → Spec
optional_of t = record {
  type = t;
  required = false;
  optional = true;
  computed = false;
  default = no_default;
  validate = accept_all;
  conflicts_with = [];
}

mutual
  pub data Schema : Type 0 where
    schema : Spec → Elem → Schema

  pub data Elem : Type 0 where
    no_elem : Elem
    elem_of : ValueType → Elem
    resource : Resource → Elem

  pub data Resource : Type 0 where
    end_resource : Resource
    attribute : Text → Schema → Resource → Resource

abbrev pub plain : Spec → Schema
plain s = schema s no_elem

-- The schema of an attribute whose elements are strings.
abbrev pub string_list : Spec → Schema
string_list s = schema s (elem_of type_string)

-- The value that an attribute gets when the configuration leaves it out, for an environment.
unfoldable pub default_value : (Text → Text) → Default → Value
default_value getenv no_default = null
default_value getenv (constant v) = v
default_value getenv (from_env name fallback) = or_int fallback (atoi (getenv name))

-- `GoString` of a set that has no members.
unfoldable pub empty_set : Text
empty_set = text "*Set(map[string]interface {}(nil))"

-- A value of the type of an attribute, whose elements satisfy the predicate.
abbrev pub OfType : ValueType → (Value → Type 0) → Value → Type 0
OfType type_bool P v = (b : Bool) × (v ≡ bool b)
OfType type_int P v = (i : ℤ) × (v ≡ int i)
OfType type_string P v = (s : Text) × (v ≡ string s)
OfType type_list P v = (vs : Values) × (v ≡ slice vs) × All P (to_list vs)
OfType type_map P v = (fs : Fields) × (v ≡ object fs)
OfType type_set P v =
    (shown : Text) × (vs : Values) × (v ≡ set shown vs)
    × ((shown ≡ empty_set) ↔ (to_list vs ≡ []))
    × All P (to_list vs)

-- What Terraform promises of a value that it has read by a schema: it has the attribute's type, a
-- nested resource is a map that has all of its attributes, and a set prints as the empty set
-- exactly when it has no members.
abbrev mutual
  pub HasType : Schema → Value → Type 0
  HasType (schema spec e) v = OfType spec.type (HasElem e) v

  pub HasElem : Elem → Value → Type 0
  HasElem no_elem v = Unit
  HasElem (elem_of t) v = OfType t (λ _. Unit) v
  HasElem (resource r) v = (fs : Fields) × (v ≡ object fs) × HasFields r fs

  pub HasFields : Resource → Fields → Type 0
  HasFields end_resource fs = Unit
  HasFields (attribute name s r) fs = HasType s (index fs name) × HasFields r fs
