-- ===== src/Tester/Clnts.antt =====
-- src/tester1/clnts.go: the ends of the clerks and which of them are enabled. A `*Clnt` is a number
-- that identifies it; the random name of a new end is an argument, and `none` as a result is the
-- log.Fatalf of a name that is in use or is not there.
pub mod Ends
use mit_6_5824_lab.Labrpc.Network.{ClientEnd, Network, make_end, delete_end, connect, enable}
use mit_6_5824_lab.Prelude.{
  if◌then◌else◌, set, lookup, insert, delete, Dict, ℕ, String, Bool, true, false, not, Option, none,
  some, List, [], ◌∷◌, str_eq, string_eq, nat_eq,
}

-- The ends by server name, here their names alone. `none` as `srvs` is nil.
pub record Clnt : Type 0 where
  pub ends : Dict String String
  pub srvs : Option (List String)

-- makeClntTo
abbrev pub make_clnt_to : Option (List String) → Clnt
make_clnt_to srvs = record { ends = []; srvs = srvs }

-- allowedL
unfoldable pub is_listed : List String → String → Bool
is_listed [] server = false
is_listed (n ∷ srvs) server = if str_eq n server then true else is_listed srvs server

unfoldable pub allowed : Option (List String) → String → Bool
unfolding is_listed
allowed none server = true
allowed (some srvs) server = is_listed srvs server

-- makeEnd of a Clnt: the end's name in the result.
unfoldable pub clnt_make_end : String → String → Clnt → Network → Option (Clnt × Network × String)
unfolding make_end connect enable allowed
clnt_make_end name server clnt rn = elim (lookup server clnt.ends) [
  | some end ↦ some (clnt, rn, end)
  | none ↦ elim (make_end name rn) [
    | none ↦ none
    | some (rn', end) ↦ some (
      record clnt { ends = insert server end.endname clnt.ends },
      enable name (allowed clnt.srvs server) (connect name server rn'),
      end.endname,
    )
  ]
]

-- The loops over `ends` of the next four methods: those for whose server `chosen` holds.
unfoldable pub enable_where : (String → Bool) → Bool → Dict String String → Network → Network
enable_where chosen on [] rn = rn
enable_where chosen on ((server, end) ∷ ends) rn =
    enable_where chosen on ends (if chosen server then enable end on rn else rn)

unfoldable pub connect_all : Clnt → Network → Clnt × Network
unfolding enable_where
connect_all clnt rn = (record clnt { srvs = none }, enable_where (λ _. true) true clnt.ends rn)

unfoldable pub connect_to : Option (List String) → Clnt → Network → Clnt × Network
unfolding enable_where
connect_to srvs clnt rn =
    (record clnt { srvs = srvs }, enable_where (allowed srvs) true clnt.ends rn)

unfoldable pub disconnect : String → Clnt → Network → Clnt × Network
unfolding enable_where
disconnect srv clnt rn = (clnt, enable_where (λ s. str_eq s srv) false clnt.ends rn)

unfoldable pub disconnect_all : Clnt → Network → Clnt × Network
unfolding enable_where
disconnect_all clnt rn =
    (record clnt { srvs = some [] }, enable_where (λ _. true) false clnt.ends rn)

-- remove
unfoldable pub delete_ends : Dict String String → Network → Option Network
delete_ends [] rn = some rn
delete_ends ((_, end) ∷ ends) rn = elim (delete_end end rn) [
  | none ↦ none
  | some rn' ↦ delete_ends ends rn'
]

unfoldable pub remove : Clnt → Network → Option Network
unfolding delete_ends
remove clnt rn = delete_ends clnt.ends rn

-- Clnts: the set of its clerks.
pub record Clnts : Type 0 where
  pub clerks : Dict ℕ Clnt

-- makeClnts
abbrev pub make_clnts : Clnts
make_clnts = record { clerks = [] }

-- makeEnd of Clnts
unfoldable pub clnts_make_end : String → String → Network → Option (Network × ClientEnd)
clnts_make_end name servername rn = elim (make_end name rn) [
  | none ↦ none
  | some (rn', end) ↦ some (enable name true (connect name servername rn'), end)
]

-- MakeClientTo and MakeClient, for a new Clnt `id`
unfoldable pub make_client_to : Option (List String) → ℕ → Clnts → Clnts
make_client_to srvs id clnts = record { clerks = insert id (make_clnt_to srvs) clnts.clerks }

unfoldable pub make_client : ℕ → Clnts → Clnts
unfolding make_client_to
make_client id clnts = make_client_to none id clnts

-- cleanup, after which there are no clerks
unfoldable pub remove_all : Dict ℕ Clnt → Network → Option Network
remove_all [] rn = some rn
remove_all ((_, clnt) ∷ clerks) rn = elim (remove clnt rn) [
  | none ↦ none
  | some rn' ↦ remove_all clerks rn'
]

unfoldable pub cleanup : Clnts → Network → Option (Clnts × Network)
unfolding remove_all
cleanup clnts rn = elim (remove_all clnts.clerks rn) [
  | none ↦ none
  | some rn' ↦ some (make_clnts, rn')
]

-- DeleteClient
unfoldable pub delete_client : ℕ → Clnts → Network → Option (Clnts × Network)
unfolding remove
delete_client id clnts rn = elim (lookup id clnts.clerks) [
  | none ↦ some (clnts, rn)
  | some clnt ↦ elim (remove clnt rn) [
    | none ↦ none
    | some rn' ↦ some (record { clerks = delete id clnts.clerks }, rn')
  ]
]
