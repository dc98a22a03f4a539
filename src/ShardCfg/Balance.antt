-- ===== src/ShardCfg/Balance.antt =====
-- Rebalance of src/shardkv1/shardcfg/shardcfg.go leaves what CheckConfig asks for.
use native.Mathlib.Nat.{add-zero}
use mit_6_5824_lab.Prelude.{
  Bool-cases, Option-cases, length, get_elem?, set, length-set, lt_of_get_elem?, get_elem?-set_inv,
  pos, pos_part, ltb_ℤ, lookup, Dict, ℕ, zero, suc, ◌+◌, ◌≤◌, ◌<◌, String, ◌≡◌, refl, sym, ap, ◌∙◌,
  ◌≢◌, inl, inr, true, some, List, [], ◌∷◌, arith,
}
use mit_6_5824_lab.ShardCfg.Config.{
  Tgid, ShardConfig, has_group, keys, Analysis, analyze, least, assign_shard, assign, move_first,
  level, rebalance, all_in,
}
use mit_6_5824_lab.ShardCfg.Analyze.{count, member, Analyzed, KeepsMembers, analyze-Analyzed}
use mit_6_5824_lab.ShardCfg.Moves.{
  pairs, triangle, pairs-le-triangle, pairs-move_first, length-move_first, all_in-move_first,
}

-- Two groups differ by at most one shard.
abbrev pub Level : ShardConfig → Type 0
Level c =
    (g h : Tgid)
    → member g (keys c.groups) ≡ true
    → member h (keys c.groups) ≡ true
    → count g c.shards ≤ count h c.shards + 1

pub record Balanced (old c : ShardConfig) : Type 0 where
  pub assigned : all_in c.groups c.shards ≡ true
  pub level_loads : Level c
  pub same_groups : c.groups ≡ old.groups
  pub same_num : c.num ≡ old.num
  pub same_size : length c.shards ≡ length old.shards

pub member-has_group :
    (g : Tgid) (groups : Dict Tgid (List String)) → member g (keys groups) ≡ has_group g groups
unfolding member lookup
member-has_group g [] = refl
member-has_group g ((k, _) ∷ groups) = ground (arith, member-has_group g groups)

module _ (sort : List Tgid → List Tgid) (keeps : KeepsMembers sort) where
  level-Balanced :
      (fuel : ℕ) (c : ShardConfig)
      → 0 < length c.groups
      → length c.shards < 257
      → all_in c.groups c.shards ≡ true
      → pairs c.shards < fuel
      → (c' : ShardConfig) × (level sort fuel c ≡ some c') × Balanced c c'
  unfolding level
  level-Balanced zero c some_group small all h = elim h [ ]
  level-Balanced (suc fuel) c some_group small all h =
      elim (Bool-cases (ltb_ℤ a.mn (pos (pos_part a.ln + 2)))) [
        | inl done ↦ (
          c,
          rw done,
          record {
            assigned = all;
            level_loads = λ g k in_g in_k.
                ground (arith, found.most, found.least, found.highest g, found.lowest k);
            same_groups = refl;
            same_num = refl;
            same_size = refl;
          },
        )
        | inr more ↦
            let gap : count a.lg c.shards + 2 ≤ count a.mg c.shards =
              ground (arith, found.most, found.least) in
            let apart : a.mg ≢ a.lg = λ e. omega (arith, ap (λ g. count g c.shards) e) in
            let size = length-move_first a.mg a.lg c.shards in
            let (c', run, b) =
              level-Balanced fuel (record c { shards = move_first a.mg a.lg c.shards }) some_group
                (omega arith)
                (all_in-move_first c.groups a.mg a.lg c.shards
                  (sym (member-has_group a.lg c.groups) ∙ found.least_in) all)
                (omega (arith, pairs-move_first a.mg a.lg apart c.shards)) in
            (
              c',
              rw more run,
              record {
                assigned = b.assigned;
                level_loads = b.level_loads;
                same_groups = b.same_groups;
                same_num = b.same_num;
                same_size = b.same_size ∙ size;
              },
            )
      ]
    where
      a : Analysis
      a = analyze sort c

      found : Analyzed (λ g. count g c.shards) (keys c.groups) (analyze sort c)
      found = analyze-Analyzed sort c keeps some_group small

  -- The state between two rounds of the first loop: the shards before `i` have a group.
  record Assigned (i : ℕ) (old c : ShardConfig) : Type 0 where
    some_group : 0 < length c.groups
    size : length c.shards ≡ length old.shards
    groups : c.groups ≡ old.groups
    num : c.num ≡ old.num
    before :
        (j : ℕ) (g : Tgid) → j < i → get_elem? c.shards j ≡ some g → has_group g c.groups ≡ true

  assign_shard-Assigned :
      (i : ℕ) (old c : ShardConfig)
      → length old.shards < 257
      → Assigned i old c
      → Assigned (i + 1) old (assign_shard sort i c)
  unfolding assign_shard least
  assign_shard-Assigned i old c small h = record {
    some_group = ground (arith, h.some_group);
    size = ground (arith, h.size, length-set c.shards i (least sort c));
    groups = ground (arith, h.groups);
    num = ground (arith, h.num);
    before = λ j g below there. elim (Option-cases (get_elem? c.shards i)) [
      | inl out ↦ ground (arith, h.before j g)
      | inr (g', here) ↦ elim (Bool-cases (has_group g' c.groups)) [
        | inl fine ↦ ground (arith, h.before j g)
        | inr stray ↦ written j g below (ground arith) (ground arith)
      ]
    ];
  }
    where
      found : Analyzed (λ g. count g c.shards) (keys c.groups) (analyze sort c)
      found = analyze-Analyzed sort c keeps h.some_group (omega (arith, h.size))

      written :
          (j : ℕ) (g : Tgid)
          → j < i + 1
          → get_elem? (set c.shards i (least sort c)) j ≡ some g
          → (assign_shard sort i c).groups ≡ c.groups
          → has_group g (assign_shard sort i c).groups ≡ true
      written j g below there same =
          rw same (elim (get_elem?-set_inv c.shards i j (least sort c) there) [
            | inl (_, e) ↦
                rw e (sym (member-has_group (analyze sort c).lg c.groups) ∙ found.least_in)
            | inr (apart, old_there) ↦ h.before j g (omega arith) old_there
          ])

  assign-Assigned :
      (left i : ℕ) (old c : ShardConfig)
      → length old.shards < 257
      → Assigned i old c
      → Assigned (i + left) old (assign sort i left c)
  unfolding assign
  assign-Assigned zero i old c small h = rw add-zero h
  assign-Assigned (suc left) i old c small h =
      let next =
        assign-Assigned left (i + 1) old (assign_shard sort i c) small
          (assign_shard-Assigned i old c small h) in
      let shift : i + suc left ≡ i + 1 + left = omega arith in rw shift next

pub all_in_of :
    (groups : Dict Tgid (List String)) (shards : List Tgid)
    → ((j : ℕ) (g : Tgid) → get_elem? shards j ≡ some g → has_group g groups ≡ true)
    → all_in groups shards ≡ true
all_in_of groups [] h = refl
all_in_of groups (g ∷ shards) h =
    ground (arith, h 0 g refl, all_in_of groups shards (λ j. h (suc j)))

-- For any sort that keeps the elements, any configuration with a group and with fewer than 257
-- shards: Rebalance ends, within as many rounds of its outer loop as there are pairs of shards, and
-- then every shard is assigned to a group of the configuration, two groups differ by at most one
-- shard, and the groups, the number and the number of shards are as before.
pub rebalance-Balanced :
    (sort : List Tgid → List Tgid) (fuel : ℕ) (c : ShardConfig)
    → KeepsMembers sort
    → 0 < length c.groups
    → length c.shards < 257
    → triangle (length c.shards) < fuel
    → (c' : ShardConfig) × (rebalance sort fuel c ≡ some c') × Balanced c c'
unfolding rebalance
rebalance-Balanced sort fuel c keeps some_group small enough =
    let (c', run, b) =
      level-Balanced sort keeps fuel c1 ready.some_group (omega (arith, ready.size)) all
        (omega (arith, pairs-le-triangle c1.shards, ap triangle ready.size)) in
    (
      c',
      ground arith,
      record {
        assigned = b.assigned;
        level_loads = b.level_loads;
        same_groups = b.same_groups ∙ ready.groups;
        same_num = b.same_num ∙ ready.num;
        same_size = b.same_size ∙ ready.size;
      },
    )
  where
    c1 : ShardConfig
    c1 = assign sort 0 (length c.shards) c

    ready : Assigned sort keeps (0 + length c.shards) c c1
    ready = assign-Assigned sort keeps (length c.shards) 0 c c small (record {
      some_group = some_group;
      size = refl;
      groups = refl;
      num = refl;
      before = λ j g h. elim h [ ];
    })

    all : all_in c1.groups c1.shards ≡ true
    all = all_in_of c1.groups c1.shards (λ j g there.
        ready.before j g (omega (arith, ready.size, lt_of_get_elem? c1.shards j there)) there)
