-- ===== src/Tester/ServerGrp/Tests.antt =====
-- Runs of the server groups of src/tester1/group.go.
use mit_6_5824_lab.Prelude.{
  ◌==◌, if◌then◌else◌, pos, ◌>>=◌, lookup, insert, ℕ, zero, suc, ◌+◌, ◌*◌, ◌<◌, String, ◌≡◌, refl,
  ap, true, false, ◌&&◌, ◌||◌, none, some, [], ◌∷◌, arith, str_eq,
}
use mit_6_5824_lab.Labrpc.Network.{make_network, enable}
use mit_6_5824_lab.Tester.Server.{Server}
use mit_6_5824_lab.Tester.ServerGrp.{ServerGrp, end_name, connect_all, disconnect_all, partition}
use mit_6_5824_lab.Tester.ServerGrp.Wired.{Wired, Distinct, is_in, linked}
use mit_6_5824_lab.Tester.ServerGrp.Partitions.{crosses, partition_lem}

-- A group of two servers and the names of their ends.
abbrev pair_name : ℕ → ℕ → String
pair_name a b = if a == 0 then (if b == 0 then "aa" else "ab") else (if b == 0 then "ba" else "bb")

abbrev pair_code : String → ℕ
pair_code s =
    if str_eq s "aa" then 0 else if str_eq s "ab" then 1 else if str_eq s "ba" then 2 else 3

pair_code_lem : (a b : ℕ) → a < 2 → b < 2 → pair_code (pair_name a b) ≡ 2 * a + b
pair_code_lem zero zero ha hb = refl
pair_code_lem zero (suc zero) ha hb = refl
pair_code_lem zero (suc (suc b)) ha hb = absurd (omega arith)
pair_code_lem (suc zero) zero ha hb = refl
pair_code_lem (suc zero) (suc zero) ha hb = refl
pair_code_lem (suc zero) (suc (suc b)) ha hb = absurd (omega arith)
pair_code_lem (suc (suc a)) b ha hb = absurd (omega arith)

pair_names-Distinct : Distinct 2 pair_name
pair_names-Distinct a b c d ha hb hc hd e =
    omega (arith, pair_code_lem a b ha hb, pair_code_lem c d hc hd, ap pair_code e)

abbrev a_server : String → String → Server
a_server to_first to_second = record {
  saved = none;
  svcs = [];
  end_names = to_first ∷ to_second ∷ [];
}

abbrev server_pair : ServerGrp
server_pair = record {
  net = make_network;
  srvs = a_server "aa" "ab" ∷ a_server "ba" "bb" ∷ [];
  servernames = "server-0-0" ∷ "server-0-1" ∷ [];
  gid = pos 0;
  connected = false ∷ false ∷ [];
}

pair_named : (a b : ℕ) → a < 2 → b < 2 → end_name server_pair.srvs a b ≡ some (pair_name a b)
pair_named zero zero ha hb = refl
pair_named zero (suc zero) ha hb = refl
pair_named zero (suc (suc b)) ha hb = absurd (omega arith)
pair_named (suc zero) zero ha hb = refl
pair_named (suc zero) (suc zero) ha hb = refl
pair_named (suc zero) (suc (suc b)) ha hb = absurd (omega arith)
pair_named (suc (suc a)) b ha hb = absurd (omega arith)

server_pair-Wired : Wired 2 pair_name server_pair
server_pair-Wired = record { size = refl; flags = refl; named = pair_named }

partition_lem_example :
    (sg' : ServerGrp) × (partition (0 ∷ []) (1 ∷ []) server_pair ≡ some sg')
    × ((a b : ℕ)
        → a < 2
        → b < 2
        → linked pair_name sg' a b ≡ (
            if (is_in a (0 ∷ []) && is_in b (0 ∷ [])) || (is_in a (1 ∷ []) && is_in b (1 ∷ []))
            then true
            else if crosses (0 ∷ []) (1 ∷ []) a b
            then false
            else linked pair_name server_pair a b))
partition_lem_example =
    partition_lem 2 pair_name (0 ∷ []) (1 ∷ []) server_pair pair_names-Distinct (omega arith)
      (omega arith) (λ a h. ground arith) server_pair-Wired

-- All servers linked, and then the first cut off from all.
cut_off :
    (connect_all server_pair >>= λ sg.
    disconnect_all 0 sg >>= λ sg'. some (linked pair_name sg' 0 1))
    ≡ some false
unfolding connect_all disconnect_all enable lookup insert
cut_off = refl
