-- ===== src/ShardCfg/Changes.antt =====
-- Join and Leave of src/shardkv1/shardcfg/shardcfg.go.
use mit_6_5824_lab.Prelude.{
  ◌==◌, if◌then◌else◌, length, insert, delete, Dict, ◌+◌, String, ◌≡◌, refl, Bool, true, false,
  none, some, List, [], ◌∷◌, arith, int_eq,
}
use mit_6_5824_lab.ShardCfg.Config.{
  Tgid, ShardConfig, has_group, refused, joined, clashes, join, leave_loop, leave,
}

-- The configuration after the groups `gids` are deleted, in order.
unfoldable pub without : Dict Tgid (List String) → List Tgid → Dict Tgid (List String)
without groups [] = groups
without groups (gid ∷ gids) = without (delete gid groups) gids

-- The distinct identifiers at the front of the list that are groups: what Leave deletes.
unfoldable pub known_prefix : Dict Tgid (List String) → List Tgid → List Tgid
known_prefix groups [] = []
known_prefix groups (gid ∷ gids) =
    let rest = known_prefix (delete gid groups) gids in
    if has_group gid groups then gid ∷ rest else []

leave_loop_lem :
    (cfg : ShardConfig) (changed : Bool) (gids : List Tgid)
    → leave_loop cfg changed gids ≡ (
        if length (known_prefix cfg.groups gids) == length gids
        then joined
            (record cfg { groups = without cfg.groups gids })
            (if 0 == length gids then changed else true)
        else refused (record cfg { groups = without cfg.groups (known_prefix cfg.groups gids) }))
unfolding leave_loop known_prefix without
leave_loop_lem cfg changed [] = refl
leave_loop_lem cfg changed (gid ∷ gids) =
    ground (arith, leave_loop_lem (record cfg { groups = delete gid cfg.groups }) true gids)

-- Leave in all cases: it deletes the groups up to the first identifier that is none (or is named
-- for the second time). If all are deleted it raises the number by one and returns true, except
-- that it ends the process on an empty list. If it stops early it returns false and keeps the
-- number, but the groups before stay deleted.
pub leave_lem :
    (cfg : ShardConfig) (gids : List Tgid)
    → leave cfg gids ≡ (
        if length (known_prefix cfg.groups gids) == length gids
        then (if 0 == length gids
            then none
            else some (record cfg { num = cfg.num + 1; groups = without cfg.groups gids }, true))
        else some
            (record cfg { groups = without cfg.groups (known_prefix cfg.groups gids) }, false))
unfolding leave
leave_lem cfg gids = ground (arith, leave_loop_lem cfg false gids)

-- Join of one new group: unless one of its servers serves a group already, which ends the process,
-- exactly the new group is added and the number goes up by one; a known identifier is refused, and
-- nothing changes.
pub join_one :
    (cfg : ShardConfig) (gid : Tgid) (servers : List String)
    → join cfg ((gid, servers) ∷ []) ≡ (
        if has_group gid cfg.groups
        then some (cfg, false)
        else if clashes cfg.groups servers
        then none
        else some (record cfg { num = cfg.num + 1; groups = insert gid servers cfg.groups }, true))
unfolding join
join_one cfg gid servers = ground arith
