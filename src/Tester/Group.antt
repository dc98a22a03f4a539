-- ===== src/Tester/Group.antt =====
-- src/tester1/group.go: MakePartition, which splits the servers of a group in two with the leader in the
-- smaller part. `none` is the panic of an index out of range; slices start as zeros.
pub mod Parts
use mit_6_5824_lab.Prelude.{
  ltb, ◌==◌, if◌then◌else◌, length, set, replicate, ℕ, zero, suc, ◌+◌, ◌-◌, ◌/◌, Option, none, some,
  List,
}

-- The loop from `i` on, `left` rounds of it.
unfoldable pub partition_loop : ℕ → ℕ → ℕ → ℕ → List ℕ → List ℕ → Option (List ℕ × List ℕ)
partition_loop l i zero j p1 p2 = some (p1, p2)
partition_loop l i (suc left) j p1 p2 =
    let skip = partition_loop l (i + 1) left j p1 p2 in
    let first = partition_loop l (i + 1) left (j + 1) (set p1 j i) p2 in
    let second = partition_loop l (i + 1) left (j + 1) p1 (set p2 (j - length p1) i) in
    if i == l
    then skip
    else if ltb j (length p1)
    then first
    else if ltb (j - length p1) (length p2)
    then second
    else none

-- p2[len(p2)-1] = l
unfoldable pub put_last : ℕ → List ℕ × List ℕ → Option (List ℕ × List ℕ)
put_last l (p1, p2) = if length p2 == 0 then none else some (p1, set p2 (length p2 - 1) l)

-- MakePartition of `n` servers
unfoldable pub make_partition : ℕ → ℕ → Option (List ℕ × List ℕ)
unfolding partition_loop put_last
make_partition n l = elim (partition_loop l 0 n 0 (replicate (n / 2 + 1) 0) (replicate (n / 2) 0)) [
  | none ↦ none
  | some ps ↦ put_last l ps
]
