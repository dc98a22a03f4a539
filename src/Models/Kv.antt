-- ===== src/Models/Kv.antt =====
-- src/models1/kv.go: `KvModel`, for one key. The checker that calls it is a package outside the
-- repository.
use mit_6_5824_lab.Prelude.{
  ◌==◌, if◌then◌else◌, ℕ, ◌+◌, String, Bool, true, false, ◌&&◌, ◌||◌, List, [], ◌∷◌, str_eq,
}
use mit_6_5824_lab.Kvsrv.Rpc.{Err, is_ok, is_version, is_maybe, u64}

-- `Op` is a uint8: 0 is get, 1 is put.
pub record KvInput : Type 0 where
  pub op : ℕ
  pub key : String
  pub value : String
  pub version : ℕ

pub record KvOutput : Type 0 where
  pub value : String
  pub version : ℕ
  pub err : Err

pub record KvState : Type 0 where
  pub value : String
  pub version : ℕ

-- `Init`
abbrev pub init_state : KvState
init_state = record { value = ""; version = 0 }

-- `Step` returns a state, or the text "<invalid>" on an unknown operation.
pub data StepState : Type 0 where
  state : KvState → StepState
  invalid : StepState

unfoldable pub step : KvState → KvInput → KvOutput → Bool × StepState
step st inp out =
    if inp.op == 0
    then (str_eq out.value st.value, state st)
    else if inp.op == 1
    then (if st.version == inp.version
        then (
          is_ok out.err || is_maybe out.err,
          state (record { value = inp.value; version = u64 (st.version + 1) }),
        )
        else (is_version out.err || is_maybe out.err, state st))
    else (false, invalid)

-- `Partition`, as far as one key is concerned: the operations of a history on that key, in order.
unfoldable pub partition : String → List (KvInput × KvOutput) → List (KvInput × KvOutput)
partition k [] = []
partition k ((inp, out) ∷ history) =
    let rest = partition k history in if str_eq inp.key k then (inp, out) ∷ rest else rest

-- The checker's question for a history that is already in an order: is each step legal?
unfoldable pub accepts : StepState → List (KvInput × KvOutput) → Bool
accepts (state st) ((inp, out) ∷ history) =
    let (legal, st') = step st inp out in legal && accepts st' history
accepts st [] = true
accepts invalid (_ ∷ _) = false
