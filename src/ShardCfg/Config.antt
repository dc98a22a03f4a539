-- ===== src/ShardCfg/Config.antt =====
-- src/shardkv1/shardcfg/shardcfg.go. `sum32` stands for the FNV hash of the standard library and
-- `sort` for slices.Sort. `none` is log.Fatalf, which ends the process; a group identifier is a Go
-- int. The order of the list of groups is the order in which Go iterates over the map.
use mit_6_5824_lab.Prelude.{
  ltb, ◌==◌, if◌then◌else◌, length, get_elem?, set, replicate, ℤ, pos, negsuc, pos_part, ltb_ℤ,
  int_beq, lookup, insert, delete, Dict, ℕ, zero, suc, ◌+◌, ◌%◌, String, Bool, true, false, not,
  ◌&&◌, ◌||◌, Option, none, some, List, [], ◌∷◌, map, str_eq, int_eq,
}

abbrev pub Tgid : Type 0
Tgid = ℤ

abbrev pub n_shards : ℕ
n_shards = 12

-- Key2Shard
unfoldable pub key2shard : (String → ℕ) → String → ℕ
key2shard sum32 key = sum32 key % n_shards

pub record ShardConfig : Type 0 where
  pub num : ℕ
  pub shards : List Tgid
  pub groups : Dict Tgid (List String)

-- MakeShardConfig
abbrev pub make_shard_config : ShardConfig
make_shard_config = record { num = 0; shards = replicate n_shards (pos 0); groups = [] }

-- `_, ok := cfg.Groups[g]`
abbrev pub has_group : Tgid → Dict Tgid (List String) → Bool
has_group g groups = elim (lookup g groups) [ none ↦ false | some _ ↦ true ]

abbrev pub keys : Dict Tgid (List String) → List Tgid
keys [] = []
keys ((g, _) ∷ groups) = g ∷ keys groups

-- A count that is not there reads as 0.
abbrev pub count_of : Tgid → Dict Tgid ℕ → ℕ
count_of g counts = elim (lookup g counts) [ none ↦ 0 | some n ↦ n ]

-- for _, g := range c.Shards { counts[g] += 1 }
unfoldable pub tally : Dict Tgid ℕ → List Tgid → Dict Tgid ℕ
tally counts [] = counts
tally counts (g ∷ shards) = tally (insert g (count_of g counts + 1) counts) shards

-- The results of analyze.
pub record Analysis : Type 0 where
  pub mg : Tgid
  pub mn : ℤ
  pub lg : Tgid
  pub ln : ℤ

-- The body of the last loop of analyze.
unfoldable pub consider : Dict Tgid ℕ → Analysis → Tgid → Analysis
consider counts a g =
    let low =
      if ltb_ℤ (pos (count_of g counts)) a.ln
      then record a { ln = pos (count_of g counts); lg = g }
      else a in
    if ltb_ℤ low.mn (pos (count_of g counts))
    then record low { mn = pos (count_of g counts); mg = g }
    else low

unfoldable pub consider_all : Dict Tgid ℕ → Analysis → List Tgid → Analysis
consider_all counts a [] = a
consider_all counts a (g ∷ gs) = consider_all counts (consider counts a g) gs

-- analyze
unfoldable pub analyze : (List Tgid → List Tgid) → ShardConfig → Analysis
unfolding tally consider_all
analyze sort c =
    consider_all (tally [] c.shards)
      (record { mg = negsuc 0; mn = negsuc 0; lg = negsuc 0; ln = pos 257 }) (sort (keys c.groups))

-- least
unfoldable pub least : (List Tgid → List Tgid) → ShardConfig → Tgid
unfolding analyze
least sort c = (analyze sort c).lg

-- The body of the first loop of Rebalance: a shard of no group goes to the least loaded one.
unfoldable pub assign_shard : (List Tgid → List Tgid) → ℕ → ShardConfig → ShardConfig
unfolding least
assign_shard sort i c = elim (get_elem? c.shards i) [
  | none ↦ c
  | some g ↦ if has_group g c.groups then c else record c { shards = set c.shards i (least sort c) }
]

-- That loop, over the shards from `i` on.
unfoldable pub assign : (List Tgid → List Tgid) → ℕ → ℕ → ShardConfig → ShardConfig
unfolding assign_shard
assign sort i zero c = c
assign sort i (suc left) c = assign sort (i + 1) left (assign_shard sort i c)

-- The inner loop of Rebalance: the first shard of `mg` goes to `lg`.
unfoldable pub move_first : Tgid → Tgid → List Tgid → List Tgid
move_first mg lg [] = []
move_first mg lg (g ∷ shards) = if int_beq g mg then lg ∷ shards else g ∷ move_first mg lg shards

-- The outer loop, on fuel; `none` says that the fuel has run out.
unfoldable pub level : (List Tgid → List Tgid) → ℕ → ShardConfig → Option ShardConfig
unfolding analyze move_first
level sort zero c = none
level sort (suc fuel) c =
    let a = analyze sort c in
    let rest = level sort fuel (record c { shards = move_first a.mg a.lg c.shards }) in
    if ltb_ℤ a.mn (pos (pos_part a.ln + 2)) then some c else rest

-- Rebalance
unfoldable pub rebalance : (List Tgid → List Tgid) → ℕ → ShardConfig → Option ShardConfig
unfolding assign level
rebalance sort fuel c =
    if ltb (length c.groups) 1
    then some (record c { shards = map (λ _. pos 0) c.shards })
    else level sort fuel (assign sort 0 (length c.shards) c)

-- What the loop of Join makes of the configuration.
pub data Joining : Type 0 where
  clash : Joining
  refused : ShardConfig → Joining
  joined : ShardConfig → Bool → Joining

-- s1 == s2 for a server of one list and one of the other.
unfoldable pub shares_one : String → List String → Bool
shares_one x [] = false
shares_one x (y ∷ ys) = str_eq x y || shares_one x ys

unfoldable pub shares : List String → List String → Bool
unfolding shares_one
shares [] ys = false
shares (x ∷ xs) ys = shares_one x ys || shares xs ys

unfoldable pub clashes : Dict Tgid (List String) → List String → Bool
unfolding shares
clashes [] servers = false
clashes ((_, xs) ∷ groups) servers = shares xs servers || clashes groups servers

unfoldable pub join_loop : ShardConfig → Bool → Dict Tgid (List String) → Joining
unfolding clashes
join_loop cfg changed [] = joined cfg changed
join_loop cfg changed ((gid, servers) ∷ rest) =
    let go = join_loop (record cfg { groups = insert gid servers cfg.groups }) true rest in
    if has_group gid cfg.groups
    then refused cfg
    else if clashes cfg.groups servers
    then clash
    else go

-- Join
unfoldable pub join : ShardConfig → Dict Tgid (List String) → Option (ShardConfig × Bool)
unfolding join_loop
join cfg servers = elim (join_loop cfg false servers) [
  | clash ↦ none
  | refused cfg' ↦ some (cfg', false)
  | joined cfg' changed ↦ if changed then some (record cfg' { num = cfg'.num + 1 }, true) else none
]

-- The loop of Leave, with the configuration that it leaves.
unfoldable pub leave_loop : ShardConfig → Bool → List Tgid → Joining
leave_loop cfg changed [] = joined cfg changed
leave_loop cfg changed (gid ∷ gids) =
    let go = leave_loop (record cfg { groups = delete gid cfg.groups }) true gids in
    if has_group gid cfg.groups then go else refused cfg

-- Leave
unfoldable pub leave : ShardConfig → List Tgid → Option (ShardConfig × Bool)
unfolding leave_loop
leave cfg gids = elim (leave_loop cfg false gids) [
  | clash ↦ none
  | refused cfg' ↦ some (cfg', false)
  | joined cfg' changed ↦ if changed then some (record cfg' { num = cfg'.num + 1 }, true) else none
]

-- JoinBalance and LeaveBalance, with the fuel of Rebalance.
unfoldable pub balance_if :
    (List Tgid → List Tgid) → ℕ → Option (ShardConfig × Bool) → Option (ShardConfig × Bool)
unfolding rebalance
balance_if sort fuel none = none
balance_if sort fuel (some (cfg, false)) = some (cfg, false)
balance_if sort fuel (some (cfg, true)) = elim (rebalance sort fuel cfg) [
  | none ↦ none
  | some cfg' ↦ some (cfg', true)
]

unfoldable pub join_balance :
    (List Tgid → List Tgid)
    → ℕ
    → ShardConfig
    → Dict Tgid (List String)
    → Option (ShardConfig × Bool)
unfolding join balance_if
join_balance sort fuel cfg servers = balance_if sort fuel (join cfg servers)

unfoldable pub leave_balance :
    (List Tgid → List Tgid) → ℕ → ShardConfig → List Tgid → Option (ShardConfig × Bool)
unfolding leave balance_if
leave_balance sort fuel cfg gids = balance_if sort fuel (leave cfg gids)

-- GidServers; a shard out of range panics.
unfoldable pub gid_servers : ShardConfig → ℕ → Option (Tgid × Option (List String))
gid_servers cfg sh = elim (get_elem? cfg.shards sh) [
  | none ↦ none
  | some gid ↦ some (gid, lookup gid cfg.groups)
]

-- IsMember
unfoldable pub is_member : Tgid → List Tgid → Bool
is_member gid [] = false
is_member gid (g ∷ shards) = int_beq g gid || is_member gid shards

-- The largest and the smallest count of CheckConfig.
unfoldable pub extremes : Dict Tgid ℕ → ℕ → ℕ → List Tgid → ℕ × ℕ
extremes counts max min [] = (max, min)
extremes counts max min (g ∷ gs) =
    extremes counts (if ltb max (count_of g counts) then count_of g counts else max)
      (if ltb (count_of g counts) min then count_of g counts else min) gs

abbrev pub all_in : Dict Tgid (List String) → List Tgid → Bool
all_in groups [] = true
all_in groups (g ∷ gs) = has_group g groups && all_in groups gs

-- CheckConfig: true if it does not end the test.
unfoldable pub check_config : ShardConfig → List Tgid → Bool
unfolding tally extremes
check_config cfg groups =
    let (max, min) = extremes (tally [] cfg.shards) 0 257 (keys cfg.groups) in
    length cfg.groups == length groups
    && all_in cfg.groups groups
    && (if ltb 0 (length groups) then all_in cfg.groups cfg.shards else true)
    && not (ltb (min + 1) max)

-- Copy, whose loop fills an empty map.
unfoldable pub copy_groups :
    Dict Tgid (List String) → Dict Tgid (List String) → Dict Tgid (List String)
copy_groups copied [] = copied
copy_groups copied ((k, srvs) ∷ groups) = copy_groups (insert k srvs copied) groups

unfoldable pub copy : ShardConfig → ShardConfig
unfolding copy_groups
copy cfg = record { num = cfg.num; shards = cfg.shards; groups = copy_groups [] cfg.groups }
