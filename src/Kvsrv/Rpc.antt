-- ===== src/Kvsrv/Rpc.antt =====
-- src/kvsrv1/rpc/rpc.go: the errors, and the arguments and replies of the two RPCs.
use Prim.Native.Nat.{◌%◌, ◌^◌}
use mathlib.Core.Bool.{Bool, true, false}
use mit_6_5824_lab.Prelude.{ℕ, String}

-- The constants of `rpc.Err`; `unset` is the empty string, the zero value of a reply.
pub data Err : Type 0 where
  unset ok err_no_key err_version err_maybe err_wrong_leader err_wrong_group : Err

-- `==` on errors, one constant at a time.
abbrev pub is_ok : Err → Bool
is_ok ok = true
is_ok _ = false

abbrev pub is_no_key : Err → Bool
is_no_key err_no_key = true
is_no_key _ = false

abbrev pub is_version : Err → Bool
is_version err_version = true
is_version _ = false

abbrev pub is_maybe : Err → Bool
is_maybe err_maybe = true
is_maybe _ = false

-- `Tversion` is uint64: a version is a number below this modulus.
abbrev pub u64 : ℕ → ℕ
u64 n = n % 2 ^ 64

pub record GetArgs : Type 0 where
  pub key : String

pub record GetReply : Type 0 where
  pub value : String
  pub version : ℕ
  pub err : Err

pub record PutArgs : Type 0 where
  pub key : String
  pub value : String
  pub version : ℕ

pub record PutReply : Type 0 where
  pub err : Err

-- The zero values, as `labrpc` and the clerk allocate them.
abbrev pub fresh_get : GetReply
fresh_get = record { value = ""; version = 0; err = unset }

abbrev pub fresh_put : PutReply
fresh_put = record { err = unset }
