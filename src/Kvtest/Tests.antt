-- ===== src/Kvtest/Tests.antt =====
-- A run of two clients, one of which loses a reply, and the check of its results.
use mit_6_5824_lab.Prelude.{
  lookup, insert, ℕ, zero, suc, ◌≤◌, ◌<◌, String, ◌≡◌, refl, true, false, Option, some, List, [],
  ◌∷◌, map, arith,
}
use mit_6_5824_lab.Kvsrv.Server.{KvServer, make_kv_server, add_record, update_record, get, put}
use mit_6_5824_lab.Kvsrv.Clerk.{
  Fate, reply_lost, delivered, returned, put_loop, clerk_put, clerk_get,
}
use mit_6_5824_lab.Kvsrv.Registers.{register, serve_puts}
use mit_6_5824_lab.Kvsrv.Clerk.Single.{one_turn, InRange}
use mit_6_5824_lab.Kvtest.AtLeastOnce.{
  put_at_least_once, check_get, SameRegister, rounds_of, put_at_least_once_lem,
}
use mit_6_5824_lab.Kvtest.Clients.{
  EntryV, idle, Client, get_json, put_turn, get_turn, client_turn, System, spawn_clients,
  run_clients, check_put_concurrent,
}
use mit_6_5824_lab.Kvtest.Checks.{run_clients_lem, check_put_concurrent_lem}
use mit_6_5824_lab.Kvtest.Runs.{total}
use Prim.Native.Char.{char, nul}

-- A code for the values: two rows of strokes.
abbrev strokes : ℕ → String → String
strokes zero s = s
strokes (suc n) s = String.◌∷◌ (char 1 tt) (strokes n s)

abbrev enc_v : EntryV → String
enc_v e = strokes e.id (String.◌∷◌ nul (strokes e.v String.[]))

abbrev count_strokes : String → ℕ × String
count_strokes String.[] = (0, String.[])
count_strokes (String.◌∷◌ (char zero _) s) = (0, s)
count_strokes (String.◌∷◌ (char (suc _) _) s) = (suc (count_strokes s).0, (count_strokes s).1)

abbrev dec_v : String → Option EntryV
dec_v s = some (record { id = (count_strokes s).0; v = (count_strokes (count_strokes s).1).0 })

strokes_lem : (n : ℕ) (s : String) → count_strokes (strokes n (String.◌∷◌ nul s)) ≡ (n, s)
strokes_lem zero s = refl
strokes_lem (suc n) s = rw (strokes_lem n s) refl

strokes_end : (n : ℕ) → (count_strokes (strokes n String.[])).0 ≡ n
strokes_end zero = refl
strokes_end (suc n) = rw (strokes_end n) refl

dec_v-enc_v : (e : EntryV) → dec_v (enc_v e) ≡ some e
dec_v-enc_v e = rw (strokes_lem e.id (strokes e.v String.[])) (rw (strokes_end e.v) refl)

-- Client 0 puts; client 1 loses a reply to a put of the same version, and is told ErrMaybe.
abbrev turns : List (ℕ × Fate)
turns =
    (0, delivered)
    ∷ (1, delivered)
    ∷ (0, delivered)
    ∷ (1, reply_lost)
    ∷ (1, delivered)
    ∷ (1, delivered)
    ∷ (0, delivered)
    ∷ []

in_range : InRange 2 turns
in_range = (
  (omega arith),
  (
    (omega arith),
    ((omega arith), ((omega arith), ((omega arith), ((omega arith), ((omega arith), tt))))),
  ),
)

run_clients_lem_example :
    (sys : System) × (run_clients enc_v dec_v "k" turns (spawn_clients 2) ≡ some sys)
run_clients_lem_example = run_clients_lem enc_v dec_v "k" 2 turns dec_v-enc_v in_range (omega arith)

abbrev done_client : ℕ → ℕ → Client
done_client nok nmaybe = record {
  ver = 1;
  phase = idle;
  res = record { nok = nok; nmaybe = nmaybe };
}

abbrev last_system : System
last_system = record {
  kv = record {
    kv_store = ("k", record { value = enc_v (record { id = 0; v = 0 }); version = 1 }) ∷ [];
  };
  clients = done_client 1 0 ∷ done_client 0 1 ∷ [];
}

turns_run : run_clients enc_v dec_v "k" turns (spawn_clients 2) ≡ some last_system
unfolding run_clients spawn_clients put_loop clerk_get serve_puts put get lookup insert add_record
    update_record put_turn get_turn get_json client_turn
turns_run = refl

check_put_concurrent_lem_example :
    check_put_concurrent dec_v "k"
      (map (λ c. c.res) last_system.clients)
      (record { nok = 0; nmaybe = 0 })
      false
      (one_turn delivered)
      last_system.kv
    ≡ returned last_system.kv (record {
      nok = total (λ c. c.res.nok) last_system.clients;
      nmaybe = total (λ c. c.res.nmaybe) last_system.clients;
    })
check_put_concurrent_lem_example =
    check_put_concurrent_lem enc_v dec_v "k" 2 turns false last_system dec_v-enc_v in_range
      (omega arith) (λ e. absurd cc) turns_run (refl, (refl, tt)) (omega arith)

-- The first round loses the reply of a put that the server performs; the second comes through at once.
two_rounds :
    put_at_least_once make_kv_server "k" "v" 0 (rounds_of ((false ∷ []) ∷ []))
    ≡ returned (record { kv_store = ("k", record { value = "v"; version = 2 }) ∷ [] }) 2
unfolding put_at_least_once clerk_put put_loop serve_puts put lookup insert add_record update_record
two_rounds = refl

put_at_least_once_lem_example :
    (kv' : KvServer) × (ver' : ℕ) × (put_at_least_once make_kv_server "k" "v" 0
        (rounds_of ((false ∷ []) ∷ []))
      ≡ returned kv' ver')
    × SameRegister kv' "k" "v" ver'
    × (0 < ver')
    × (ver' ≤ 2)
    × (check_get kv' "k" "v" ver' (one_turn delivered) ≡ returned kv' true)
unfolding register lookup
put_at_least_once_lem_example =
    put_at_least_once_lem make_kv_server "k" "v" 0 ((false ∷ []) ∷ []) refl (omega arith)
