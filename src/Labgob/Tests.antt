-- ===== src/Labgob/Tests.antt =====
-- Two struct types that refer to each other, and a third that none of them refers to.
use mit_6_5824_lab.Labgob.Defaults.{
  Value, struct_value, pointer, basic, no_field, field, check_default1, check_default_fields,
  check_default,
}
use mathlib.Core.Option
use mit_6_5824_lab.Prelude.{
  lookup, insert, ℕ, zero, suc, String, ◌≡◌, refl, ◌↔◌, Bool, true, false, some, [], ◌∷◌, arith,
  str_eq,
}
use mit_6_5824_lab.Labgob.{
  Kind, struct_kind, Checks, is_checked, check_fields, check_kind, check_type, no_checks,
}
use mit_6_5824_lab.Labgob.Types.{lower, Closed, Reach}
use mit_6_5824_lab.Labgob.Checked.{seen_sum, check_type_lem}

abbrev three_kinds : ℕ → Kind
three_kinds zero =
    struct_kind (record { name = "Next"; type_of = 1 } ∷ (record { name = "x"; type_of = 0 } ∷ []))
three_kinds (suc zero) = struct_kind (record { name = "y"; type_of = 0 } ∷ [])
three_kinds (suc (suc _)) = struct_kind (record { name = "z"; type_of = 2 } ∷ [])

abbrev capital : String → Bool
capital s = str_eq s "Next"

two_lower :
    Option.map (λ st. st.error_count) (check_type three_kinds capital 4 0 no_checks) ≡ some 2
unfolding check_type check_kind check_fields is_checked lookup insert
two_lower = refl

inside : Closed 3 three_kinds
inside zero lt = (omega arith, (omega arith, tt))
inside (suc zero) lt = (omega arith, tt)
inside (suc (suc t)) lt = (omega arith, tt)

check_type_lem_example :
    (st : Checks) × (check_type three_kinds capital 4 0 no_checks ≡ some st)
    × ((u : ℕ) → (is_checked u st ≡ true) ↔ Reach three_kinds 0 u)
    × (st.error_count ≡ seen_sum (λ u. lower capital (three_kinds u)) 3 st)
check_type_lem_example = check_type_lem three_kinds capital 3 0 inside (omega arith)

-- The second of two changed fields is counted without a warning, and so is not the one that lies too deep.
abbrev reply : Value
reply = struct_value (
    field "Err" (basic "Err" false) (
      field "Value" (basic "string" false)
        (field "At" (pointer (pointer (pointer (basic "int" false)))) no_field)))

warned_once :
    check_default (pointer reply) (record { error_count = 0; warnings = [] })
    ≡ record { error_count = 2; warnings = "Err" ∷ [] }
unfolding check_default check_default1 check_default_fields
warned_once = refl
