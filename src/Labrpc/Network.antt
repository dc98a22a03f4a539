-- ===== src/Labrpc/Network.antt =====
-- src/labrpc/labrpc.go: the network's state. Every method here holds `rn.mu` throughout. Names of
-- ends and servers are texts, a `*Server` is a number that identifies it, and none is nil;
-- `none` as a result is log.Fatalf. The counters are int32 and int64 bit patterns.
use mit_6_5824_lab.Prelude.{
  ◌==◌, if◌then◌else◌, lookup, insert, delete, Dict, lookup-insert, ℕ, ◌+◌, ◌%◌, ◌^◌, String, ◌≡◌,
  Bool, true, false, not, ◌||◌, Option, none, some, [], arith, str_eq, string_eq,
}

pub record ClientEnd : Type 0 where
  pub endname : String

pub record Network : Type 0 where
  pub reliable : Bool
  pub long_delays : Bool
  pub long_reordering : Bool
  pub ends : Dict String ClientEnd
  pub enabled : Dict String Bool
  pub servers : Dict String (Option ℕ)
  pub connections : Dict String (Option String)
  pub count : ℕ
  pub bytes : ℕ

-- MakeNetwork, without the goroutine that it starts.
abbrev pub make_network : Network
make_network = record {
  reliable = true;
  long_delays = false;
  long_reordering = false;
  ends = [];
  enabled = [];
  servers = [];
  connections = [];
  count = 0;
  bytes = 0;
}

-- Reliable, LongReordering, LongDelays and what reads them
unfoldable pub set_reliable : Bool → Network → Network
set_reliable yes_ rn = record rn { reliable = yes_ }

unfoldable pub set_long_reordering : Bool → Network → Network
set_long_reordering yes_ rn = record rn { long_reordering = yes_ }

unfoldable pub set_long_delays : Bool → Network → Network
set_long_delays yes_ rn = record rn { long_delays = yes_ }

-- A map of Booleans or pointers reads false or nil at a key that is not there.
abbrev pub is_enabled : String → Network → Bool
is_enabled endname rn = elim (lookup endname rn.enabled) [ none ↦ false | some b ↦ b ]

abbrev pub connection : String → Network → Option String
connection endname rn = elim (lookup endname rn.connections) [ none ↦ none | some s ↦ s ]

abbrev pub server_at : String → Network → Option ℕ
server_at servername rn = elim (lookup servername rn.servers) [ none ↦ none | some s ↦ s ]

-- readEndnameInfo
pub record EndInfo : Type 0 where
  pub enabled : Bool
  pub servername : Option String
  pub server : Option ℕ
  pub reliable : Bool
  pub longreordering : Bool

unfoldable pub read_endname_info : String → Network → EndInfo
read_endname_info endname rn = record {
  enabled = is_enabled endname rn;
  servername = connection endname rn;
  server = elim (connection endname rn) [ none ↦ none | some s ↦ server_at s rn ];
  reliable = rn.reliable;
  longreordering = rn.long_reordering;
}

-- `rn.servers[servername] != server`
abbrev pub same_server : Option ℕ → Option ℕ → Bool
same_server none none = true
same_server (some a) (some b) = a == b
same_server _ _ = false

-- isServerDead
unfoldable pub is_server_dead : String → String → Option ℕ → Network → Bool
is_server_dead endname servername server rn =
    if not (is_enabled endname rn) || not (same_server (server_at servername rn) server)
    then true
    else false

-- MakeEnd
unfoldable pub make_end : String → Network → Option (Network × ClientEnd)
make_end endname rn = elim (lookup endname rn.ends) [
  | some _ ↦ none
  | none ↦ some (
    record rn {
      ends = insert endname (record { endname = endname }) rn.ends;
      enabled = insert endname false rn.enabled;
      connections = insert endname none rn.connections;
    },
    record { endname = endname },
  )
]

-- DeleteEnd
unfoldable pub delete_end : String → Network → Option Network
delete_end endname rn = elim (lookup endname rn.ends) [
  | none ↦ none
  | some _ ↦ some (record rn {
    ends = delete endname rn.ends;
    enabled = delete endname rn.enabled;
    connections = delete endname rn.connections;
  })
]

-- AddServer and DeleteServer
unfoldable pub add_server : String → ℕ → Network → Network
add_server servername rs rn = record rn { servers = insert servername (some rs) rn.servers }

unfoldable pub delete_server : String → Network → Network
delete_server servername rn = record rn { servers = insert servername none rn.servers }

-- Connect
unfoldable pub connect : String → String → Network → Network
connect endname servername rn = record rn {
  connections = insert endname (some servername) rn.connections;
}

-- Enable
unfoldable pub enable : String → Bool → Network → Network
enable endname on rn = record rn { enabled = insert endname on rn.enabled }

-- The counting of one request, in the goroutine of MakeNetwork, and of one reply.
unfoldable pub count_request : ℕ → Network → Network
count_request len rn = record rn {
  count = (rn.count + 1) % 2 ^ 32;
  bytes = (rn.bytes + len) % 2 ^ 64;
}

unfoldable pub count_reply : ℕ → Network → Network
count_reply len rn = record rn { bytes = (rn.bytes + len) % 2 ^ 64 }

pub is_enabled-enable :
    (end x : String) (on : Bool) (rn : Network)
    → is_enabled end (enable x on rn) ≡ (if str_eq x end then on else is_enabled end rn)
unfolding enable
is_enabled-enable end x on rn = ground (arith, lookup-insert x end on rn.enabled)
