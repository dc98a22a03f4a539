-- ===== src/ShardCfg/Tests.antt =====
-- Runs of src/shardkv1/shardcfg/shardcfg.go.
use mit_6_5824_lab.Prelude.{
  ◌==◌, if◌then◌else◌, length, pos, lookup, insert, ◌<◌, ◌≡◌, refl, true, false, none, some, [],
  ◌∷◌, arith,
}
use mit_6_5824_lab.ShardCfg.Config.{
  ShardConfig, keys, tally, consider, consider_all, analyze, least, assign_shard, assign,
  move_first, level, rebalance, leave, check_config,
}
use mit_6_5824_lab.ShardCfg.Analyze.{KeepsMembers}
use mit_6_5824_lab.ShardCfg.Moves.{triangle}
use mit_6_5824_lab.ShardCfg.Balance.{Balanced, rebalance-Balanced}
use mit_6_5824_lab.ShardCfg.Checks.{rebalance-check_config}
use mit_6_5824_lab.ShardCfg.Changes.{without, known_prefix, leave_lem}

-- Two groups, the first of which has all shards but one.
abbrev lopsided : ShardConfig
lopsided = record {
  num = 1;
  shards = pos 1 ∷ pos 1 ∷ pos 1 ∷ pos 2 ∷ [];
  groups = (pos 1, "a" ∷ []) ∷ (pos 2, "b" ∷ []) ∷ [];
}

id_keeps : KeepsMembers (λ gs. gs)
id_keeps = λ g gs. refl

rebalance_run :
    rebalance (λ gs. gs) 7 lopsided
    ≡ some (record lopsided { shards = pos 2 ∷ pos 1 ∷ pos 1 ∷ pos 2 ∷ [] })
unfolding rebalance assign assign_shard level analyze least tally consider_all consider move_first
    lookup insert
rebalance_run = refl

enough : triangle (length lopsided.shards) < 7
unfolding triangle
enough = omega arith

rebalance-Balanced_example :
    (c' : ShardConfig) × (rebalance (λ gs. gs) 7 lopsided ≡ some c') × Balanced lopsided c'
rebalance-Balanced_example =
    rebalance-Balanced (λ gs. gs) 7 lopsided id_keeps (omega arith) (omega arith) enough

rebalance-check_config_example :
    (c' : ShardConfig) × (rebalance (λ gs. gs) 7 lopsided ≡ some c')
    × (check_config c' (keys c'.groups) ≡ true)
rebalance-check_config_example =
    rebalance-check_config (λ gs. gs) 7 lopsided id_keeps (omega arith) (omega arith) enough

leave_lem_example : leave lopsided (pos 1 ∷ pos 3 ∷ []) ≡ (
    if length (known_prefix lopsided.groups (pos 1 ∷ pos 3 ∷ [])) == 2
    then (if 0 == 2
        then none
        else some (
          record lopsided { num = 2; groups = without lopsided.groups (pos 1 ∷ pos 3 ∷ []) },
          true,
        ))
    else some (
      record lopsided {
        groups = without lopsided.groups (known_prefix lopsided.groups (pos 1 ∷ pos 3 ∷ []));
      },
      false,
    ))
leave_lem_example = leave_lem lopsided (pos 1 ∷ pos 3 ∷ [])
