-- ===== src/ShardCfg/Checks.antt =====
-- CheckConfig of src/shardkv1/shardcfg/shardcfg.go accepts what Rebalance leaves.
use mit_6_5824_lab.Prelude.{
  ltb, if◌then◌else◌, length, get_elem?, int_beq_iff, Dict, ℕ, zero, suc, ◌+◌, ◌≤◌, ◌<◌, String,
  ◌≡◌, refl, sym, ap, ◌∙◌, true, some, List, [], ◌∷◌, arith,
}
use mit_6_5824_lab.ShardCfg.Config.{
  Tgid, ShardConfig, keys, count_of, tally, analyze, rebalance, extremes, all_in, check_config,
}
use mit_6_5824_lab.ShardCfg.Analyze.{
  count, member, count_tally_nil, count-le, Analyzed, KeepsMembers, analyze-Analyzed,
}
use mit_6_5824_lab.ShardCfg.Moves.{triangle}
use mit_6_5824_lab.ShardCfg.Balance.{Balanced, member-has_group, all_in_of, rebalance-Balanced}

extremes_bounds :
    (counts : Dict Tgid ℕ) (low high max min : ℕ) (gs : List Tgid)
    → ((g : Tgid) → member g gs ≡ true → (low ≤ count_of g counts) × (count_of g counts ≤ high))
    → max ≤ high
    → low ≤ min
    → ((extremes counts max min gs).0 ≤ high) × (low ≤ (extremes counts max min gs).1)
unfolding extremes member
extremes_bounds counts low high max min [] h p q = (p, q)
extremes_bounds counts low high max min (g ∷ gs) h p q =
    extremes_bounds counts low high (if ltb max (count_of g counts) then count_of g counts else max)
      (if ltb (count_of g counts) min then count_of g counts else min) gs
      (λ x m. h x (ground arith)) (ground (arith, h g (ground (arith, int_beq_iff g g))))
      (ground (arith, h g (ground (arith, int_beq_iff g g))))

member_of_get : (gs : List Tgid) (j : ℕ) (g : Tgid) → get_elem? gs j ≡ some g → member g gs ≡ true
unfolding member
member_of_get [] j g h = cc
member_of_get (x ∷ gs) zero g h = ground (arith, int_beq_iff x g)
member_of_get (x ∷ gs) (suc j) g h = ground (arith, member_of_get gs j g h)

length-keys : (groups : Dict Tgid (List String)) → length (keys groups) ≡ length groups
length-keys [] = refl
length-keys ((k, _) ∷ groups) = ap suc (length-keys groups)

Balanced-check_config :
    (sort : List Tgid → List Tgid) (old c : ShardConfig)
    → KeepsMembers sort
    → 0 < length old.groups
    → length old.shards < 257
    → Balanced old c
    → check_config c (keys c.groups) ≡ true
unfolding check_config
Balanced-check_config sort old c keeps some_group small b =
    ground (arith, length-keys c.groups, known, b.assigned, bounds)
  where
    found : Analyzed (λ g. count g c.shards) (keys c.groups) (analyze sort c)
    found =
        analyze-Analyzed sort c keeps
          (omega (arith, some_group, ap (λ (m : Dict Tgid (List String)). length m) b.same_groups))
          (omega (arith, b.same_size))

    low : ℕ
    low = count (analyze sort c).lg c.shards

    known : all_in c.groups (keys c.groups) ≡ true
    known =
        all_in_of c.groups (keys c.groups)
          (λ j g there. sym (member-has_group g c.groups) ∙ member_of_get (keys c.groups) j g there)

    bounds :
        ((extremes (tally [] c.shards) 0 257 (keys c.groups)).0 ≤ low + 1)
        × (low ≤ (extremes (tally [] c.shards) 0 257 (keys c.groups)).1)
    bounds =
        extremes_bounds (tally [] c.shards) low (low + 1) 0 257 (keys c.groups)
          (λ g m. (
            omega (arith, found.lowest g m, count_tally_nil g c.shards),
            omega (
              arith,
              b.level_loads g (analyze sort c).lg m found.least_in,
              count_tally_nil g c.shards,
            ),
          ))
          (omega arith) (omega (arith, count-le (analyze sort c).lg c.shards, b.same_size))

-- For any sort that keeps the elements, any configuration with a group and with fewer than 257
-- shards, Rebalance leaves a configuration that CheckConfig, asked for the configuration's own
-- groups, accepts.
pub rebalance-check_config :
    (sort : List Tgid → List Tgid) (fuel : ℕ) (c : ShardConfig)
    → KeepsMembers sort
    → 0 < length c.groups
    → length c.shards < 257
    → triangle (length c.shards) < fuel
    → (c' : ShardConfig) × (rebalance sort fuel c ≡ some c')
      × (check_config c' (keys c'.groups) ≡ true)
rebalance-check_config sort fuel c keeps some_group small enough =
    let (c', run, b) = rebalance-Balanced sort fuel c keeps some_group small enough in
    (c', run, Balanced-check_config sort c c' keeps some_group small b)
