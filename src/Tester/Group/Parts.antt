-- ===== src/Tester/Group/Parts.antt =====
-- Which servers MakePartition of src/tester1/group.go puts where.
use mit_6_5824_lab.Tester.Group.{partition_loop, put_last, make_partition}
use mit_6_5824_lab.Prelude.{
  ltb, ◌==◌, if◌then◌else◌, Bool-cases, length, get_elem?, set, length-set, get_elem?-set_self,
  get_elem?-set_ne, replicate, length-replicate, ℕ, zero, suc, ◌+◌, ◌-◌, ◌/◌, ◌≤◌, ◌<◌, ◌≡◌, refl,
  ap, ◌∙◌, ◌≢◌, inl, inr, false, Option, some, List, arith,
}
use mathlib.Core.Path.{subst, sym}

-- The server that stands at place `q` when the leader is left out.
abbrev pub other : ℕ → ℕ → ℕ
other l q = if ltb q l then q else q + 1

-- The first `j` places of the two parts, one after the other, are filled.
pub record Filled (l j : ℕ) (p1 p2 : List ℕ) : Type 0 where
  pub first : (q : ℕ) → q < j → q < length p1 → get_elem? p1 q ≡ some (other l q)
  pub second :
      (q : ℕ) → length p1 + q < j → q < length p2 → get_elem? p2 q ≡ some (other l (length p1 + q))

set-first :
    (l j : ℕ) (p1 p2 : List ℕ) (v : ℕ)
    → v ≡ other l j
    → j < length p1
    → Filled l j p1 p2
    → Filled l (j + 1) (set p1 j v) p2
set-first l j p1 p2 v e lt h = record {
  first = λ q below inside. elim (Bool-cases (q == j)) [
    | inl here ↦ ground (arith, get_elem?-set_self p1 j v lt)
    | inr there ↦ ground (
      arith,
      length-set p1 j v,
      get_elem?-set_ne p1 {i = j} {j = q} v (λ p. ground arith),
      h.first q,
    )
  ];
  second = λ q below inside. absurd (omega (arith, length-set p1 j v));
}

set-second :
    (l k : ℕ) (p1 p2 : List ℕ) (v : ℕ)
    → v ≡ other l (length p1 + k)
    → k < length p2
    → Filled l (length p1 + k) p1 p2
    → Filled l (length p1 + k + 1) p1 (set p2 k v)
set-second l k p1 p2 v e lt h = record {
  first = λ q below inside. h.first q (omega arith) inside;
  second = λ q below inside. elim (Bool-cases (q == k)) [
    | inl here ↦ ground (arith, get_elem?-set_self p2 k v lt)
    | inr there ↦ ground (
      arith,
      length-set p2 k v,
      get_elem?-set_ne p2 {i = k} {j = q} v (λ p. ground arith),
      h.second q,
    )
  ];
}

-- How many servers before `i` are not the leader.
abbrev place : ℕ → ℕ → ℕ
place l i = if ltb l i then i - 1 else i

abbrev Parted : ℕ → ℕ → ℕ → ℕ → Option (List ℕ × List ℕ) → Type 0
Parted l j n1 n2 result =
    (q1 q2 : List ℕ) × (result ≡ some (q1, q2))
    × (length q1 ≡ n1)
    × (length q2 ≡ n2)
    × Filled l j q1 q2

follower_place :
    (l i left j n1 n2 : ℕ)
    → j ≡ place l i
    → i + suc left ≤ n1 + n2
    → (i == l) ≡ false
    → ltb j n1 ≡ false
    → (j ≡ n1 + (j - n1)) × (j - n1 < n2) × (i ≡ other l j) × (j + 1 ≡ place l (i + 1))
follower_place l i left j n1 n2 e room follower outside = ground arith

step-second :
    (l i left j : ℕ) (p1 p2 : List ℕ)
    → (i == l) ≡ false
    → ltb j (length p1) ≡ false
    → j - length p1 < length p2
    → partition_loop l i (suc left) j p1 p2
      ≡ partition_loop l (i + 1) left (j + 1) p1 (set p2 (j - length p1) i)
unfolding partition_loop
step-second l i left j p1 p2 follower outside lt = ground arith

partition_loop-Filled :
    (l i left j : ℕ) (p1 p2 : List ℕ)
    → j ≡ place l i
    → i + left ≤ length p1 + length p2
    → Filled l j p1 p2
    → Parted l (place l (i + left)) (length p1) (length p2) (partition_loop l i left j p1 p2)
unfolding partition_loop
partition_loop-Filled l i zero j p1 p2 e room h =
    (p1, p2, refl, refl, refl, subst (λ m. Filled l m p1 p2) (ground arith) h)
partition_loop-Filled l i (suc left) j p1 p2 e room h =
    let shift : i + 1 + left ≡ i + suc left = omega arith in
    elim (Bool-cases (i == l)) [
      | inl leader ↦
          let (q1, q2, run, s1, s2, f) =
            partition_loop-Filled l (i + 1) left j p1 p2 (ground arith) (omega arith) h in
          (q1, q2, ground arith, s1, s2, rw shift at f)
      | inr follower ↦ elim (Bool-cases (ltb j (length p1))) [
        | inl inside ↦
            let p = set p1 j i in
            let (q1, q2, run, s1, s2, f) =
              partition_loop-Filled l (i + 1) left (j + 1) p p2 (ground arith)
                (omega (arith, length-set p1 j i))
                (set-first l j p1 p2 i (ground arith) (ground arith) h) in
            (q1, q2, ground arith, s1 ∙ length-set p1 j i, s2, rw shift at f)
        | inr outside ↦
            let k = j - length p1 in
            let p = set p2 k i in
            let (split, lt, at_place, next) =
              follower_place l i left j (length p1) (length p2) e room follower outside in
            let filled =
              set-second l k p1 p2 i (at_place ∙ ap (other l) split) lt
                (subst (λ m. Filled l m p1 p2) split h) in
            let (q1, q2, run, s1, s2, f) =
              partition_loop-Filled l (i + 1) left (j + 1) p1 p next
                (omega (arith, length-set p2 k i))
                (subst (λ m. Filled l m p1 p) (ap (λ m. m + 1) (sym split)) filled) in
            (
              q1,
              q2,
              step-second l i left j p1 p2 follower outside lt ∙ run,
              s1,
              s2 ∙ length-set p2 k i,
              rw shift at f,
            )
      ]
    ]

start_Filled : (l : ℕ) (p1 p2 : List ℕ) → Filled l 0 p1 p2
start_Filled l p1 p2 = record {
  first = λ q below inside. absurd (omega arith);
  second = λ q below inside. absurd (omega arith);
}

halves : (n : ℕ) → 2 ≤ n → (n ≤ n / 2 + 1 + n / 2) × (0 < n / 2)
halves n two = (omega arith, omega arith)

place_start : (l : ℕ) → 0 ≡ place l 0
place_start l = ground arith

-- What the loop leaves, with the leader put in the last place.
module _ (n l : ℕ) (q1 q2 : List ℕ) (two : 2 ≤ n) (in_range : l < n)
    (run : partition_loop l 0 n 0 (replicate (n / 2 + 1) 0) (replicate (n / 2) 0) ≡ some (q1, q2))
    (size1 : length q1 ≡ n / 2 + 1) (size2 : length q2 ≡ n / 2)
    (filled : Filled l (place l (0 + n)) q1 q2) where
  made : make_partition n l ≡ some (q1, set q2 (length q2 - 1) l)
  unfolding make_partition put_last
  made = let some_place = halves n two in ground arith

  last_place : get_elem? (set q2 (length q2 - 1) l) (n / 2 - 1) ≡ some l
  last_place =
      let h : length q2 - 1 < length q2 = omega (arith, size2, halves n two) in
      ap (λ m. get_elem? (set q2 (length q2 - 1) l) (m - 1)) (sym size2)
      ∙ get_elem?-set_self q2 (length q2 - 1) l h

  first_part : (q : ℕ) → q < n / 2 + 1 → q + 1 < n → get_elem? q1 q ≡ some (other l q)
  first_part q inside below = filled.first q (ground arith) (omega (arith, size1))

  second_part :
      (q : ℕ)
      → n / 2 + 2 + q < n
      → get_elem? (set q2 (length q2 - 1) l) q ≡ some (other l (n / 2 + 1 + q))
  second_part q below =
      let ne : length q2 - 1 ≢ q = λ e. omega (arith, size2, halves n two, e) in
      get_elem?-set_ne q2 {i = length q2 - 1} {j = q} l ne
      ∙ filled.second q (ground (arith, size1)) (omega (arith, size2, halves n two))
      ∙ ap (λ m. some (other l (m + q))) size1

-- MakePartition of at least two servers with leader `l` does not panic. With h = n / 2, the first part
-- has h + 1 places and the second h. The other servers stand in their order in the places of the
-- first part and then of the second, and the leader stands in the second part's last place.
pub make_partition_lem :
    (n l : ℕ)
    → 2 ≤ n
    → l < n
    → (p1 p2 : List ℕ) × (make_partition n l ≡ some (p1, p2))
      × (length p1 ≡ n / 2 + 1)
      × (length p2 ≡ n / 2)
      × ((q : ℕ) → q < n / 2 + 1 → q + 1 < n → get_elem? p1 q ≡ some (other l q))
      × ((q : ℕ) → n / 2 + 2 + q < n → get_elem? p2 q ≡ some (other l (n / 2 + 1 + q)))
      × (get_elem? p2 (n / 2 - 1) ≡ some l)
make_partition_lem n l two in_range =
    let (q1, q2, run, s1, s2, f) =
      partition_loop-Filled l 0 n 0 (replicate (n / 2 + 1) 0) (replicate (n / 2) 0) (place_start l)
        (omega (
          arith,
          halves n two,
          length-replicate {A = ℕ} (n / 2 + 1) 0,
          length-replicate {A = ℕ} (n / 2) 0,
        ))
        (start_Filled l (replicate (n / 2 + 1) 0) (replicate (n / 2) 0)) in
    let size1 = s1 ∙ length-replicate {A = ℕ} (n / 2 + 1) 0 in
    let size2 = s2 ∙ length-replicate {A = ℕ} (n / 2) 0 in
    (
      q1,
      set q2 (length q2 - 1) l,
      made n l q1 q2 two in_range run size1 size2 f,
      size1,
      length-set q2 (length q2 - 1) l ∙ size2,
      first_part n l q1 q2 two in_range run size1 size2 f,
      second_part n l q1 q2 two in_range run size1 size2 f,
      last_place n l q1 q2 two in_range run size1 size2 f,
    )
