-- ===== src/Labgob.antt =====
-- src/labgob/labgob.go: the warnings of the wrapper around encoding/gob. Types are numbers, and `kind_of` stands
-- for what reflection tells of a type; types may refer to each other in a circle. `is_upper` stands
-- for whether a name begins with an upper-case letter.
pub mod Types
pub mod Checked
pub mod Defaults
mod Tests
use mit_6_5824_lab.Prelude.{
  if◌then◌else◌, ◌>>=◌, lookup, insert, Dict, ℕ, zero, suc, ◌+◌, String, Bool, true, false, Option,
  none, some, List, [], ◌∷◌, map, nat_eq,
}

-- A field of a struct: its name and its type.
pub record Field : Type 0 where
  pub name : String
  pub type_of : ℕ

-- The kinds that checkType tells apart: a slice, an array or a pointer has the type of its elements, a map has those
-- of its elements and its keys.
pub data Kind : Type 0 where
  struct_kind : List Field → Kind
  elem_kind : ℕ → Kind
  map_kind : ℕ → ℕ → Kind
  other_kind : Kind

-- The variables `checked` and `errorCount` of the package.
pub record Checks : Type 0 where
  pub checked : Dict ℕ Bool
  pub error_count : ℕ

unfoldable pub is_checked : ℕ → Checks → Bool
is_checked t st = elim (lookup t st.checked) [ none ↦ false | some b ↦ b ]

abbrev pub set_checked : ℕ → Checks → Checks
set_checked t st = record st { checked = insert t true st.checked }

-- The warning about one field
abbrev pub check_name : (String → Bool) → Field → Checks → Checks
check_name is_upper f st =
    if is_upper f.name then st else record st { error_count = st.error_count + 1 }

-- The loop over the fields of a struct; `check` is checkType.
unfoldable pub check_fields :
    (String → Bool) → (ℕ → Checks → Option Checks) → List Field → Checks → Option Checks
check_fields is_upper check [] st = some st
check_fields is_upper check (f ∷ fields) st = do
  st' ← check f.type_of (check_name is_upper f st)
  check_fields is_upper check fields st'

-- The switch on the kind of a type.
unfoldable pub check_kind :
    (String → Bool) → (ℕ → Checks → Option Checks) → Kind → Checks → Option Checks
unfolding check_fields
check_kind is_upper check (struct_kind fields) st = check_fields is_upper check fields st
check_kind is_upper check (elem_kind e) st = check e st
check_kind is_upper check (map_kind e k) st = do st' ← check e st; check k st'
check_kind is_upper check other_kind st = some st

-- checkType, on fuel: `none` is that the fuel is used up.
unfoldable pub check_type : (ℕ → Kind) → (String → Bool) → ℕ → ℕ → Checks → Option Checks
unfolding is_checked check_kind
check_type kind_of is_upper zero t st = none
check_type kind_of is_upper (suc fuel) t st = elim (is_checked t st) [
  | true ↦ some st
  | false ↦
      check_kind is_upper (λ u s. check_type kind_of is_upper fuel u s) (kind_of t)
        (set_checked t st)
]

abbrev pub no_checks : Checks
no_checks = record { checked = []; error_count = 0 }
