-- ===== src/Labgob/Defaults.antt =====
-- checkDefault of src/labgob/labgob.go, which warns of a value that is not the zero value before it is decoded into.
use Prim.Native.String.{◌++◌ as push_str}
use mit_6_5824_lab.Prelude.{
  ltb, ◌==◌, if◌then◌else◌, Bool-cases, length, ℕ, ◌+◌, String, ◌≡◌, inl, inr, Bool, List, ◌∷◌,
  arith, str_eq,
}

-- What reflection shows of a value: the fields of a struct, a pointer that is nil or not, a basic value with the name
-- of its type and whether it is the zero value, or a value of another kind.
mutual
  pub data Value : Type 0 where
    struct_value : Fields → Value
    nil_pointer : Value
    pointer : Value → Value
    basic : String → Bool → Value
    other_value : Value

  pub data Fields : Type 0 where
    no_field : Fields
    field : String → Value → Fields → Fields

-- `errorCount`, and the warnings that have been printed, the latest first.
pub record Warned : Type 0 where
  pub error_count : ℕ
  pub warnings : List String

-- The names of nested fields are joined with dots.
abbrev pub field_name : String → String → String
field_name name f = if str_eq name "" then f else push_str name (push_str "." f)

-- The case of a basic value
abbrev pub check_basic : String → Bool → String → Warned → Warned
check_basic type_name is_zero name st = if is_zero then st else record {
  error_count = st.error_count + 1;
  warnings =
      if ltb st.error_count 1
      then (if str_eq name "" then type_name else name) ∷ st.warnings
      else st.warnings;
}

-- checkDefault1
unfoldable mutual
  pub check_default1 : Value → ℕ → String → Warned → Warned
  check_default1 (struct_value fields) depth name st =
      let inner = check_default_fields fields (depth + 1) name st in
      if ltb 3 depth then st else inner
  check_default1 nil_pointer depth name st = st
  check_default1 (pointer v) depth name st =
      let inner = check_default1 v (depth + 1) name st in if ltb 3 depth then st else inner
  check_default1 (basic type_name is_zero) depth name st =
      if ltb 3 depth then st else check_basic type_name is_zero name st
  check_default1 other_value depth name st = st

  pub check_default_fields : Fields → ℕ → String → Warned → Warned
  check_default_fields no_field depth name st = st
  check_default_fields (field f v fields) depth name st =
      check_default_fields fields depth name (check_default1 v depth (field_name name f) st)

-- checkDefault, of a value that is not nil
unfoldable pub check_default : Value → Warned → Warned
unfolding check_default1
check_default v st = check_default1 v 1 "" st

-- One warning is printed as soon as something has been counted.
abbrev pub OneWarning : Warned → Type 0
OneWarning st = length st.warnings ≡ (if st.error_count == 0 then 0 else 1)

check_basic-OneWarning :
    (type_name : String) (is_zero : Bool) (name : String) (st : Warned)
    → OneWarning st
    → OneWarning (check_basic type_name is_zero name st)
check_basic-OneWarning type_name is_zero name st one = ground (arith, one)

mutual
  unfolding check_default1 check_default_fields

  check_default1-OneWarning :
      (v : Value) (depth : ℕ) (name : String) (st : Warned)
      → OneWarning st
      → OneWarning (check_default1 v depth name st)
  check_default1-OneWarning (struct_value fields) depth name st one =
      elim (Bool-cases (ltb 3 depth)) [
        | inl deep ↦ rw deep one
        | inr near ↦ rw near (check_default_fields-OneWarning fields (depth + 1) name st one)
      ]
  check_default1-OneWarning nil_pointer depth name st one = one
  check_default1-OneWarning (pointer v) depth name st one = elim (Bool-cases (ltb 3 depth)) [
    | inl deep ↦ rw deep one
    | inr near ↦ rw near (check_default1-OneWarning v (depth + 1) name st one)
  ]
  check_default1-OneWarning (basic type_name is_zero) depth name st one =
      elim (Bool-cases (ltb 3 depth)) [
        | inl deep ↦ rw deep one
        | inr near ↦ rw near (check_basic-OneWarning type_name is_zero name st one)
      ]
  check_default1-OneWarning other_value depth name st one = one

  check_default_fields-OneWarning :
      (fields : Fields) (depth : ℕ) (name : String) (st : Warned)
      → OneWarning st
      → OneWarning (check_default_fields fields depth name st)
  check_default_fields-OneWarning no_field depth name st one = one
  check_default_fields-OneWarning (field f v fields) depth name st one =
      check_default_fields-OneWarning fields depth name _
        (check_default1-OneWarning v depth (field_name name f) st one)

-- However many values are checked, one warning is printed if one of them has been counted, and none otherwise.
pub check_default-OneWarning :
    (v : Value) (st : Warned) → OneWarning st → OneWarning (check_default v st)
unfolding check_default
check_default-OneWarning v st one = check_default1-OneWarning v 1 "" st one
