-- ===== src/Kvtest/Porcupine/Linearizable.antt =====
-- What it means that the log of src/kvtest1/porcupine.go is linearizable for the model of
-- src/models1/kv.go.
use mathlib.Core.List.{Permᴰ}
use mit_6_5824_lab.Prelude.{
  get_elem?, ℕ, ◌+◌, ◌≤◌, String, ◌≡◌, true, not, ◌||◌, some, List, [], ◌∷◌, ◌++◌, map,
}
use mit_6_5824_lab.Kvsrv.Rpc.{PutArgs}
use mit_6_5824_lab.Models.Kv.{KvInput, KvOutput, init_state, state, partition, accepts}
use mit_6_5824_lab.Models.Legal.{put_input}
use mit_6_5824_lab.Models.History.{put_request, no_missing}
use mit_6_5824_lab.Kvtest.Porcupine.{Operation, Stage, calling}

-- An operation with the point at which it takes effect.
abbrev pub Point : Type 0
Point = ℕ × Operation

abbrev pub op_of : Point → Operation
op_of x = x.1

abbrev pub io_of : Point → KvInput × KvOutput
io_of x = (x.1.input, x.1.output)

abbrev pub All {ℓ κ} : {A : Type ℓ} → (A → Type κ) → List A → Type κ
All P [] = Unit
All P (x ∷ xs) = P x × All P xs

-- Points rise, from `lo` on and below `hi`.
abbrev pub Rising : ℕ → List Point → ℕ → Type 0
Rising lo [] hi = lo ≤ hi
Rising lo (x ∷ xs) hi = (lo ≤ x.0) × Rising (x.0 + 1) xs hi

-- An operation takes effect between its call and its return.
abbrev pub Within : Point → Type 0
Within x = (x.1.call ≤ x.0) × (x.0 ≤ x.1.ret)

-- A put without an answer, of a client that is still within it.
abbrev pub Unanswered : ℕ → List Stage → Operation → Type 0
Unanswered now clients op =
    (p : PutArgs) × (count : ℕ) × (get_elem? clients op.client_id
      ≡ some (calling (put_request p) op.call count))
    × (op.input ≡ put_input p)
    × (op.ret ≡ now)

-- Herlihy and Wing: the operations of the log, and some puts that have not been answered, stand in an order in
-- which each takes effect between its call and its return, and which the model accepts on each key
-- on which no put was answered with ErrNoKey.
pub record Linearized (now : ℕ) (clients : List Stage) (log : List Operation) : Type 0 where
  pub order : List Point
  pub pending : List Operation
  pub in_progress : All (Unanswered now clients) pending
  pub same : Permᴰ (log ++ pending) (map op_of order)
  pub within : All Within order
  pub rising : Rising 0 order now
  pub legal :
      (k : String)
      → (not (no_missing k (map io_of order))
          || accepts (state init_state) (partition k (map io_of order)))
        ≡ true
