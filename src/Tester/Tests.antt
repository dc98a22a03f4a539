-- ===== src/Tester/Tests.antt =====
-- Runs of src/tester1.
use mit_6_5824_lab.Tester.Clnts.{Clnt, is_listed, allowed, clnt_make_end, enable_where, connect_to}
use mit_6_5824_lab.Tester.Group.{partition_loop, put_last, make_partition}
use mit_6_5824_lab.Prelude.{lookup, insert, ◌≡◌, refl, true, false, none, some, [], ◌∷◌, string_eq}
use mit_6_5824_lab.Labrpc.Network.{Network, make_network, is_enabled, make_end, connect, enable}

-- A clerk with an enabled end to one server.
abbrev wired : Network
wired = record make_network {
  ends = ("e", record { endname = "e" }) ∷ [];
  enabled = ("e", true) ∷ [];
  connections = ("e", some "s") ∷ [];
}

abbrev a_clnt : Clnt
a_clnt = record { ends = ("s", "e") ∷ []; srvs = none }

-- After ConnectTo of no server, the end is still enabled.
still_enabled : is_enabled "e" (connect_to (some []) a_clnt wired).1 ≡ true
unfolding connect_to enable_where allowed is_listed lookup
still_enabled = refl

abbrev wired_twice : Network
wired_twice = record wired {
  ends = insert "f" (record { endname = "f" }) wired.ends;
  enabled = insert "f" true (insert "f" false wired.enabled);
  connections = insert "f" (some "t") (insert "f" none wired.connections);
}

abbrev both_ends : Clnt
both_ends = record a_clnt { ends = insert "t" "f" a_clnt.ends }

no_end_yet : lookup "t" a_clnt.ends ≡ none
unfolding lookup
no_end_yet = refl

second_end : clnt_make_end "f" "t" a_clnt wired ≡ some (both_ends, wired_twice, "f")
unfolding clnt_make_end make_end connect enable allowed lookup
second_end = refl

-- With four servers the leader's part has a place that no server is written to, so server 0, whose
-- number the place starts with, is in both parts.
four_servers : make_partition 4 1 ≡ some (0 ∷ 2 ∷ 3 ∷ [], 0 ∷ 1 ∷ [])
unfolding make_partition partition_loop put_last
four_servers = refl
