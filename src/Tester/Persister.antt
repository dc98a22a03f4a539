-- ===== src/Tester/Persister.antt =====
-- src/tester1/persister.go: the saved state of a Raft peer. Bytes are numbers; each method holds the lock
-- throughout, and a nil slice is an empty one, which is all that the readers see of it.
use mit_6_5824_lab.Prelude.{length, replicate, ℕ, ◌≡◌, refl, ap, ◌∙◌, List, [], ◌∷◌}

pub record Persister : Type 0 where
  pub raftstate : List ℕ
  pub snapshot : List ℕ

-- MakePersister
abbrev pub make_persister : Persister
make_persister = record { raftstate = []; snapshot = [] }

-- copy(x, orig): as many elements as both have.
unfoldable pub copy_into : List ℕ → List ℕ → List ℕ
copy_into [] orig = []
copy_into (x ∷ xs) [] = x ∷ xs
copy_into (x ∷ xs) (y ∷ ys) = y ∷ copy_into xs ys

-- clone
unfoldable pub clone : List ℕ → List ℕ
unfolding copy_into
clone orig = copy_into (replicate (length orig) 0) orig

-- Copy shares the slices, which no method writes to.
unfoldable pub copy : Persister → Persister
copy ps = record { raftstate = ps.raftstate; snapshot = ps.snapshot }

unfoldable pub read_raft_state : Persister → List ℕ
unfolding clone
read_raft_state ps = clone ps.raftstate

unfoldable pub raft_state_size : Persister → ℕ
raft_state_size ps = length ps.raftstate

unfoldable pub save : List ℕ → List ℕ → Persister → Persister
unfolding clone
save raftstate snapshot ps = record { raftstate = clone raftstate; snapshot = clone snapshot }

unfoldable pub read_snapshot : Persister → List ℕ
unfolding clone
read_snapshot ps = clone ps.snapshot

unfoldable pub snapshot_size : Persister → ℕ
snapshot_size ps = length ps.snapshot

copy_into_lem : (orig : List ℕ) → copy_into (replicate (length orig) 0) orig ≡ orig
unfolding copy_into
copy_into_lem [] = refl
copy_into_lem (x ∷ orig) = ap (x ∷◌) (copy_into_lem orig)

clone_lem : (orig : List ℕ) → clone orig ≡ orig
unfolding clone
clone_lem = copy_into_lem

-- A copy of a persister that was saved to gives back both the Raft state and the snapshot of that
-- save, byte for byte, and their sizes.
pub read-save :
    (raftstate snapshot : List ℕ) (ps : Persister)
    → (read_raft_state (copy (save raftstate snapshot ps)) ≡ raftstate)
      × (read_snapshot (copy (save raftstate snapshot ps)) ≡ snapshot)
      × (raft_state_size (copy (save raftstate snapshot ps)) ≡ length raftstate)
      × (snapshot_size (copy (save raftstate snapshot ps)) ≡ length snapshot)
unfolding read_raft_state read_snapshot save copy raft_state_size snapshot_size
read-save raftstate snapshot ps = (
  clone_lem (clone raftstate) ∙ clone_lem raftstate,
  clone_lem (clone snapshot) ∙ clone_lem snapshot,
  ap length (clone_lem raftstate),
  ap length (clone_lem snapshot),
)
