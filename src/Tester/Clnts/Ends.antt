-- ===== src/Tester/Clnts/Ends.antt =====
-- Which ends the methods of src/tester1/clnts.go leave enabled.
use mit_6_5824_lab.Prelude.{
  if◌then◌else◌, Bool-cases, Option-cases, lookup, insert, Dict, lookup-insert, String, ◌≡◌, refl,
  inl, inr, Bool, true, false, ◌&&◌, ◌||◌, Option, none, some, List, [], ◌∷◌, arith, str_eq, eq_iff,
  string_eq,
}
use mit_6_5824_lab.Labrpc.Network.{
  Network, is_enabled, connection, make_end, connect, enable, is_enabled-enable,
}
use mit_6_5824_lab.Tester.Clnts.{
  Clnt, allowed, clnt_make_end, enable_where, connect_all, connect_to, disconnect, disconnect_all,
}

-- The end is the end of a server for which `chosen` holds.
unfoldable pub is_chosen_end : (String → Bool) → String → Dict String String → Bool
is_chosen_end chosen end [] = false
is_chosen_end chosen end ((server, x) ∷ ends) =
    (chosen server && str_eq x end) || is_chosen_end chosen end ends

enable_where_lem :
    (chosen : String → Bool) (on : Bool) (end : String) (ends : Dict String String) (rn : Network)
    → is_enabled end (enable_where chosen on ends rn)
      ≡ (if is_chosen_end chosen end ends then on else is_enabled end rn)
unfolding enable_where is_chosen_end
enable_where_lem chosen on end [] rn = refl
enable_where_lem chosen on end ((server, x) ∷ ends) rn = elim (Bool-cases (chosen server)) [
  | inl p ↦
      ground
        (arith, enable_where_lem chosen on end ends (enable x on rn), is_enabled-enable end x on rn)
  | inr p ↦ ground (arith, enable_where_lem chosen on end ends rn)
]

-- For any end, whoever it belongs to: ConnectAll enables exactly the clerk's ends, DisconnectAll
-- disables exactly them, and Disconnect exactly the clerk's end to the one server. ConnectTo
-- enables the ends to the servers that it names, to all for nil, and disables none, so that an end to another
-- server that was enabled stays enabled.
pub connects_lem :
    (end srv : String) (srvs : Option (List String)) (clnt : Clnt) (rn : Network)
    → (is_enabled end (connect_all clnt rn).1
        ≡ (if is_chosen_end (λ _. true) end clnt.ends then true else is_enabled end rn))
      × (is_enabled end (disconnect_all clnt rn).1
          ≡ (if is_chosen_end (λ _. true) end clnt.ends then false else is_enabled end rn))
      × (is_enabled end (disconnect srv clnt rn).1
          ≡ (if is_chosen_end (λ s. str_eq s srv) end clnt.ends then false else is_enabled end rn))
      × (is_enabled end (connect_to srvs clnt rn).1
          ≡ (if is_chosen_end (allowed srvs) end clnt.ends then true else is_enabled end rn))
unfolding connect_all disconnect_all disconnect connect_to
connects_lem end srv srvs clnt rn = (
  enable_where_lem (λ _. true) true end clnt.ends rn,
  enable_where_lem (λ _. true) false end clnt.ends rn,
  enable_where_lem (λ s. str_eq s srv) false end clnt.ends rn,
  enable_where_lem (allowed srvs) true end clnt.ends rn,
)

-- A clerk's first end to a server is connected to that server, is enabled exactly if the clerk
-- may connect to it, and is the end that the clerk gets for that server from then on.
pub clnt_make_end_lem :
    (name server : String) (clnt : Clnt) (rn : Network) {clnt' : Clnt} {rn' : Network}
    {end : String}
    → lookup server clnt.ends ≡ none
    → clnt_make_end name server clnt rn ≡ some (clnt', rn', end)
    → (end ≡ name)
      × (connection name rn' ≡ some server)
      × (is_enabled name rn' ≡ allowed clnt.srvs server)
      × ((other : String) → clnt_make_end other server clnt' rn' ≡ some (clnt', rn', name))
unfolding clnt_make_end make_end connect enable
clnt_make_end_lem name server clnt rn {clnt'} {rn'} {end} fresh h =
    elim (Option-cases (lookup name rn.ends)) [
      | inr used ↦ absurd (ground arith)
      | inl free ↦ (
        ground arith,
        ground (
          arith,
          lookup-insert name name (some server) (insert name none rn.connections),
          eq_iff name name,
        ),
        ground (
          arith,
          lookup-insert name name (allowed clnt.srvs server) (insert name false rn.enabled),
          eq_iff name name,
        ),
        λ other. ground (arith, lookup-insert server server name clnt.ends, eq_iff server server),
      )
    ]
