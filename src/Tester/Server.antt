-- ===== src/Tester/Server.antt =====
-- src/tester1/srv.go: one server of a group, with its ends to the servers of its group. A service is
-- a number that identifies it. The names of new ends are arguments, one for each server; `none` as
-- a result is a panic or log.Fatal. `endNames` is never nil: makeServer allocates it.
use mit_6_5824_lab.Prelude.{
  get_elem?, ℤ, ◌>>=◌, ℕ, ◌+◌, String, Bool, true, false, Option, none, some, List, [], ◌∷◌,
}
use mit_6_5824_lab.Labrpc.Network.{Network, make_end, connect, enable}
use mit_6_5824_lab.Tester.Persister.{Persister, make_persister, copy}

pub record Server : Type 0 where
  pub saved : Option Persister
  pub svcs : List ℕ
  pub end_names : List String

-- The loop of makeServer, from server `j` on: the ends are made and connected.
unfoldable pub make_ends : (ℤ → ℕ → String) → ℤ → ℕ → List String → Network → Option Network
make_ends server_name gid j [] net = some net
make_ends server_name gid j (name ∷ names) net = elim (make_end name net) [
  | none ↦ none
  | some (net', _) ↦ make_ends server_name gid (j + 1) names (connect name (server_name gid j) net')
]

-- makeServer
unfoldable pub make_server :
    (ℤ → ℕ → String) → ℤ → List String → Network → Option (Server × Network)
unfolding make_ends
make_server server_name gid names net = do
  net' ← make_ends server_name gid 0 names net
  some (record { saved = none; svcs = []; end_names = names }, net')

-- startServer, of the server that is to be restarted
unfoldable pub start_server :
    (ℤ → ℕ → String) → ℤ → List String → Server → Network → Option (Server × Network)
unfolding make_server copy
start_server server_name gid names s net = do
  (srv, net') ← make_server server_name gid names net
  some (
    record srv { saved = some (elim s.saved [ none ↦ make_persister | some ps ↦ copy ps ]) },
    net',
  )

-- One round of the loops that connect: `is_on` is what IsConnected gives and `name` the end's name.
abbrev pub enable_if : Option Bool → Option String → Network → Option Network
enable_if none name net = none
enable_if (some false) name net = some net
enable_if (some true) none net = none
enable_if (some true) (some name) net = some (enable name true net)

unfoldable pub connect_ends : (ℕ → Option String) → List Bool → List ℕ → Network → Option Network
connect_ends name connected [] net = some net
connect_ends name connected (j ∷ to) net = elim (enable_if (get_elem? connected j) (name j) net) [
  | none ↦ none
  | some net' ↦ connect_ends name connected to net'
]

unfoldable pub disconnect_ends : (ℕ → Option String) → List ℕ → Network → Option Network
disconnect_ends name [] net = some net
disconnect_ends name (j ∷ from) net = elim (name j) [
  | none ↦ none
  | some e ↦ disconnect_ends name from (enable e false net)
]

-- connect and disconnect of a Server; `connected` is that of its group.
unfoldable pub srv_connect : List Bool → List ℕ → Server → Network → Option Network
unfolding connect_ends
srv_connect connected to s net = connect_ends (get_elem? s.end_names) connected to net

unfoldable pub srv_disconnect : List ℕ → Server → Network → Option Network
unfolding disconnect_ends
srv_disconnect from s net = disconnect_ends (get_elem? s.end_names) from net

-- shutdownServer: beside the server, the services that are told to stop.
unfoldable pub shutdown_server : Server → Server × List ℕ
unfolding copy
shutdown_server s = (
  record s { saved = elim s.saved [ none ↦ none | some ps ↦ some (copy ps) ]; svcs = [] },
  s.svcs,
)
