-- ===== src/ShardCfg/Moves.antt =====
-- One move of the outer loop of Rebalance in src/shardkv1/shardcfg/shardcfg.go, and why the moves
-- come to an end: the pairs of shards in one group get fewer.
use mit_6_5824_lab.Prelude.{
  if◌then◌else◌, Bool-cases, length, int_beq, int_beq_iff, Dict, ℕ, zero, suc, ◌+◌, ◌≤◌, ◌<◌,
  String, ◌≡◌, refl, ◌≢◌, inl, inr, true, List, [], ◌∷◌, arith,
}
use mit_6_5824_lab.ShardCfg.Config.{Tgid, has_group, move_first, all_in}
use mit_6_5824_lab.ShardCfg.Analyze.{count, count-le}

-- The pairs of shards that stand in one group.
unfoldable pub pairs : List Tgid → ℕ
pairs [] = 0
pairs (g ∷ shards) = count g shards + pairs shards

unfoldable pub triangle : ℕ → ℕ
triangle zero = 0
triangle (suc n) = n + triangle n

pub pairs-le-triangle : (shards : List Tgid) → pairs shards ≤ triangle (length shards)
unfolding pairs triangle
pairs-le-triangle [] = omega arith
pairs-le-triangle (g ∷ shards) = omega (arith, pairs-le-triangle shards, count-le g shards)

module _ (mg lg : Tgid) (apart : mg ≢ lg) where
  pub count-move_first :
      (g : Tgid) (shards : List Tgid)
      → 0 < count mg shards
      → count g (move_first mg lg shards) + (if int_beq mg g then 1 else 0)
        ≡ count g shards + (if int_beq lg g then 1 else 0)
  unfolding count move_first
  count-move_first g [] h = elim h [ ]
  count-move_first g (x ∷ shards) h = ground (
    arith,
    count-move_first g shards,
    int_beq_iff x mg,
    int_beq_iff x g,
    int_beq_iff lg g,
    int_beq_iff mg g,
  )

  -- A move saves as many pairs as `mg` has shards more than `lg`, less one.
  pub pairs-move_first :
      (shards : List Tgid)
      → 0 < count mg shards
      → pairs (move_first mg lg shards) + count mg shards ≡ pairs shards + count lg shards + 1
  unfolding pairs count move_first
  pairs-move_first [] h = elim h [ ]
  pairs-move_first (x ∷ shards) h = elim (Bool-cases (int_beq x mg)) [
    | inl first ↦ ground (arith, int_beq_iff x mg, int_beq_iff x lg, int_beq_iff mg lg)
    | inr later ↦ ground (
      arith,
      pairs-move_first shards,
      count-move_first x shards,
      int_beq_iff x mg,
      int_beq_iff x lg,
      int_beq_iff lg x,
      int_beq_iff mg x,
    )
  ]

pub length-move_first :
    (mg lg : Tgid) (shards : List Tgid) → length (move_first mg lg shards) ≡ length shards
unfolding move_first
length-move_first mg lg [] = refl
length-move_first mg lg (x ∷ shards) = ground (arith, length-move_first mg lg shards)

pub all_in-move_first :
    (groups : Dict Tgid (List String)) (mg lg : Tgid) (shards : List Tgid)
    → has_group lg groups ≡ true
    → all_in groups shards ≡ true
    → all_in groups (move_first mg lg shards) ≡ true
unfolding move_first
all_in-move_first groups mg lg [] h all = refl
all_in-move_first groups mg lg (x ∷ shards) h all =
    ground (arith, all_in-move_first groups mg lg shards h)
