-- ===== src/Tester/ServerGrp.antt =====
-- src/tester1/group.go: a group of servers over the simulated network. `server_name` stands for
-- ServerName, which formats numbers by strconv. `none` as a result is a panic or log.Fatal.
pub mod Wired
pub mod Turns
pub mod Partitions
mod Tests
use mit_6_5824_lab.Prelude.{
  ltb, if◌then◌else◌, length, get_elem?, set, replicate, ℤ, ◌>>=◌, ℕ, zero, suc, ◌+◌, String, Bool,
  true, false, Option, none, some, List, [], ◌∷◌, ◌++◌, map,
}
use mit_6_5824_lab.Labrpc.Network.{Network, add_server, delete_server}
use mit_6_5824_lab.Tester.Persister.{Persister, raft_state_size, snapshot_size}
use mit_6_5824_lab.Tester.Server.{
  Server, make_server, start_server, connect_ends, disconnect_ends, srv_connect, srv_disconnect,
  shutdown_server,
}

pub record ServerGrp : Type 0 where
  pub net : Network
  pub srvs : List Server
  pub servernames : List String
  pub gid : ℤ
  pub connected : List Bool

-- The loops of makeSrvGrp: `names` has the names of the ends of each server.
unfoldable pub make_servers :
    (ℤ → ℕ → String) → ℤ → List (List String) → Network → Option (List Server × Network)
unfolding make_server
make_servers server_name gid [] net = some ([], net)
make_servers server_name gid (ns ∷ names) net = do
  (s, net1) ← make_server server_name gid ns net
  (srvs, net2) ← make_servers server_name gid names net1
  some (s ∷ srvs, net2)

-- 0, 1, ... from `i` on
unfoldable pub upto : ℕ → ℕ → List ℕ
upto i zero = []
upto i (suc n) = i ∷ upto (i + 1) n

-- makeSrvGrp
unfoldable pub make_srv_grp : (ℤ → ℕ → String) → ℤ → List (List String) → Network → Option ServerGrp
unfolding make_servers upto
make_srv_grp server_name gid names net = do
  (srvs, net') ← make_servers server_name gid names net
  some (record {
    net = net';
    srvs = srvs;
    servernames = map (server_name gid) (upto 0 (length names));
    gid = gid;
    connected = replicate (length names) false;
  })

-- all
unfoldable pub all : ServerGrp → List ℕ
unfolding upto
all sg = upto 0 (length sg.srvs)

-- SrvNamesTo
unfoldable pub srv_names_to : List ℕ → ServerGrp → Option (List String)
srv_names_to [] sg = some []
srv_names_to (i ∷ to) sg = do
  name ← get_elem? sg.servernames i
  names ← srv_names_to to sg
  some (name ∷ names)

-- sg.srvs[a].endNames[b]
abbrev pub end_name : List Server → ℕ → ℕ → Option String
end_name srvs a b = elim (get_elem? srvs a) [ none ↦ none | some s ↦ get_elem? s.end_names b ]

-- IsConnected
unfoldable pub is_connected : ℕ → ServerGrp → Option Bool
is_connected i sg = get_elem? sg.connected i

-- connect
unfoldable pub connect_one : ℕ → List ℕ → ServerGrp → Option ServerGrp
unfolding srv_connect connect_ends
connect_one i to sg = elim (get_elem? sg.srvs i) [
  | none ↦ none
  | some s ↦ do
    let connected = set sg.connected i true
    net1 ← srv_connect connected to s sg.net
    net2 ← connect_ends (λ j. end_name sg.srvs j i) connected to net1
    some (record sg { net = net2; connected = connected })
]

-- disconnect
unfoldable pub disconnect_one : ℕ → List ℕ → ServerGrp → Option ServerGrp
unfolding srv_disconnect disconnect_ends
disconnect_one i from sg = elim (get_elem? sg.srvs i) [
  | none ↦ none
  | some s ↦ do
    net1 ← srv_disconnect from s sg.net
    net2 ← disconnect_ends (λ j. end_name sg.srvs j i) from net1
    some (record sg { net = net2; connected = set sg.connected i false })
]

-- ConnectOne, ConnectAll and DisconnectAll
unfoldable pub connect_each : List ℕ → ServerGrp → Option ServerGrp
unfolding connect_one all
connect_each [] sg = some sg
connect_each (i ∷ is) sg = do sg' ← connect_one i (all sg) sg; connect_each is sg'

unfoldable pub connect_all : ServerGrp → Option ServerGrp
unfolding connect_each all
connect_all sg = connect_each (all sg) sg

unfoldable pub disconnect_all : ℕ → ServerGrp → Option ServerGrp
unfolding disconnect_one all
disconnect_all i sg = disconnect_one i (all sg) sg

-- One of the two loops of Partition.
unfoldable pub isolate : List ℕ → List ℕ → List ℕ → ServerGrp → Option ServerGrp
unfolding connect_one disconnect_one
isolate mine others [] sg = some sg
isolate mine others (i ∷ rest) sg = do
  sg1 ← disconnect_one i others sg
  sg2 ← connect_one i mine sg1
  isolate mine others rest sg2

-- Partition
unfoldable pub partition : List ℕ → List ℕ → ServerGrp → Option ServerGrp
unfolding isolate
partition p1 p2 sg = do sg1 ← isolate p1 p2 p1 sg; isolate p2 p1 p2 sg1

-- LogSize and SnapshotSize: the largest size of the saved states; a server that was never started has none.
unfoldable pub largest : (Persister → ℕ) → ℕ → List Server → Option ℕ
largest size best [] = some best
largest size best (s ∷ srvs) = elim s.saved [
  | none ↦ none
  | some ps ↦ largest size (if ltb best (size ps) then size ps else best) srvs
]

unfoldable pub log_size : ServerGrp → Option ℕ
unfolding largest raft_state_size
log_size sg = largest raft_state_size 0 sg.srvs

unfoldable pub group_snapshot_size : ServerGrp → Option ℕ
unfolding largest snapshot_size
group_snapshot_size sg = largest snapshot_size 0 sg.srvs

-- StartServer: `mks` starts the services of a server, and `labsrv` is its new *labrpc.Server.
unfoldable pub start_one :
    (ℤ → ℕ → String)
    → (List String → ℤ → ℕ → Persister → List ℕ)
    → List String
    → ℕ
    → ℕ
    → ServerGrp
    → Option ServerGrp
unfolding start_server add_server
start_one server_name mks names labsrv i sg = do
  old ← get_elem? sg.srvs i
  (srv, net') ← start_server server_name sg.gid names old sg.net
  saved ← srv.saved
  some (record sg {
    net = add_server (server_name sg.gid i) labsrv net';
    srvs = set sg.srvs i (record srv { svcs = mks names sg.gid i saved });
  })

-- ShutdownServer and Shutdown: beside the group, the services that are told to stop.
unfoldable pub shutdown_one : (ℤ → ℕ → String) → ℕ → ServerGrp → Option (ServerGrp × List ℕ)
unfolding disconnect_one all delete_server shutdown_server
shutdown_one server_name i sg = do
  sg1 ← disconnect_one i (all sg) sg
  s ← get_elem? sg1.srvs i
  let (s', killed) = shutdown_server s
  some (
    record sg1 { net = delete_server (server_name sg1.gid i) sg1.net; srvs = set sg1.srvs i s' },
    killed,
  )

unfoldable pub shutdown_each : (ℤ → ℕ → String) → List ℕ → ServerGrp → Option (ServerGrp × List ℕ)
unfolding shutdown_one
shutdown_each server_name [] sg = some (sg, [])
shutdown_each server_name (i ∷ is) sg = do
  (sg1, killed) ← shutdown_one server_name i sg
  (sg2, more) ← shutdown_each server_name is sg1
  some (sg2, killed ++ more)
