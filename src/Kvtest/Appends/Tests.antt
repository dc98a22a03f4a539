-- ===== src/Kvtest/Appends/Tests.antt =====
-- A run of two clients that append, one of which loses a reply, and the check of their list.
use mit_6_5824_lab.Kvtest.Appends.Results.{all_waiting, run_appends_lem}
use mit_6_5824_lab.Kvsrv.Registers.{register, serve_puts}
use mit_6_5824_lab.Prelude.{
  replicate, lookup, insert, ℕ, zero, suc, ◌+◌, String, ◌≡◌, refl, ap, ◌∙◌, true, false, not, ◌||◌,
  Option, some, List, [], ◌∷◌, map, arith,
}
use mit_6_5824_lab.Kvsrv.Clerk.Single.{one_turn, InRange}
use mit_6_5824_lab.Kvsrv.Server.{KvServer, add_record, update_record, get, put}
use mit_6_5824_lab.Kvsrv.Clerk.{Fate, reply_lost, delivered, returned, put_loop, clerk_get}
use mit_6_5824_lab.Kvtest.Clients.{get_json}
use mit_6_5824_lab.Kvtest.Appends.{
  EntryN, waiting, Appender, write_turn, read_turn, append_turn, Appends, fresh_appender,
  run_appends, zeros, note_entry, note_entries, check_results, check_appends,
}
use Prim.Native.Char.{char, nul}

-- A code for lists of entries: rows of strokes.
abbrev row : ℕ → String → String
row zero s = String.◌∷◌ nul s
row (suc n) s = String.◌∷◌ (char 1 tt) (row n s)

abbrev enc_es : List EntryN → String
enc_es [] = String.[]
enc_es (e ∷ es) = row e.id (row e.n (enc_es es))

abbrev rows : ℕ → String → List ℕ
rows k String.[] = []
rows k (String.◌∷◌ (char zero _) s) = k ∷ rows 0 s
rows k (String.◌∷◌ (char (suc _) _) s) = rows (suc k) s

abbrev pairs : List ℕ → List EntryN
pairs [] = []
pairs (a ∷ []) = []
pairs (a ∷ (b ∷ ks)) = record { id = a; n = b } ∷ pairs ks

abbrev dec_es : String → Option (List EntryN)
dec_es s = some (pairs (rows 0 s))

row_lem : (k n : ℕ) (s : String) → rows k (row n s) ≡ (k + n) ∷ rows 0 s
row_lem k zero s = ap (λ i. i ∷ rows 0 s) (omega arith)
row_lem k (suc n) s = row_lem (suc k) n s ∙ ap (λ i. i ∷ rows 0 s) (omega arith)

rows-row : (n : ℕ) (s : String) → rows 0 (row n s) ≡ n ∷ rows 0 s
rows-row n s = row_lem 0 n s ∙ ap (λ i. i ∷ rows 0 s) (omega arith)

pairs-rows : (es : List EntryN) → pairs (rows 0 (enc_es es)) ≡ es
pairs-rows [] = refl
pairs-rows (e ∷ es) =
    rw (rows-row e.id (row e.n (enc_es es)))
      (rw (rows-row e.n (enc_es es)) (ap (λ fs. e ∷ fs) (pairs-rows es)))

dec_es-enc_es : (es : List EntryN) → dec_es (enc_es es) ≡ some es
dec_es-enc_es es = ap some (pairs-rows es)

-- Client 0 appends; client 1 has read the same list, loses the reply to its put, and is told ErrMaybe; then it
-- appends its next entry.
abbrev turns : List (ℕ × Fate)
turns =
    (0, delivered)
    ∷ (1, delivered)
    ∷ (0, delivered)
    ∷ (1, delivered)
    ∷ (0, delivered)
    ∷ (1, reply_lost)
    ∷ (1, delivered)
    ∷ (1, delivered)
    ∷ (1, delivered)
    ∷ (1, delivered)
    ∷ []

abbrev start : KvServer
start = record { kv_store = ("k", record { value = enc_es []; version = 1 }) ∷ [] }

abbrev last_entries : List EntryN
last_entries = record { id = 0; n = 0 } ∷ (record { id = 1; n = 1 } ∷ [])

abbrev done_appender : ℕ → ℕ → Appender
done_appender nok nmaybe = record {
  stage = waiting;
  i = nok + nmaybe;
  res = record { nok = nok; nmaybe = nmaybe };
}

turns_run :
    run_appends enc_es dec_es turns (record { kv = start; clients = replicate 2 fresh_appender })
    ≡ some (record {
      kv = record { kv_store = ("k", record { value = enc_es last_entries; version = 3 }) ∷ [] };
      clients = done_appender 1 0 ∷ (done_appender 1 1 ∷ []);
    })
unfolding run_appends put_loop clerk_get serve_puts put get lookup insert add_record update_record
    write_turn read_turn get_json append_turn
turns_run = refl

in_range : InRange 2 turns
in_range = (
  omega arith,
  (
    omega arith,
    (
      omega arith,
      (
        omega arith,
        (
          omega arith,
          (omega arith, (omega arith, (omega arith, (omega arith, (omega arith, tt))))),
        ),
      ),
    ),
  ),
)

run_appends_lem_example :
    (sys : Appends) × (es : List EntryN) × (ver : ℕ) × (run_appends enc_es dec_es turns
        (record { kv = start; clients = replicate 2 fresh_appender })
      ≡ some sys)
    × (get_json dec_es "k" (one_turn delivered) sys.kv ≡ returned sys.kv (es, ver))
    × ((not (all_waiting sys.clients) || check_appends es 2 (map (λ c. c.res) sys.clients) ver)
        ≡ true)
unfolding register lookup
run_appends_lem_example =
    run_appends_lem enc_es dec_es 2 turns start dec_es-enc_es in_range (omega arith) refl

-- The check refuses a list with an entry that no client has counted, and one whose entries fall.
uncounted_entry :
    check_appends last_entries 2
      (record { nok = 1; nmaybe = 0 } ∷ (record { nok = 1; nmaybe = 0 } ∷ []))
      3
    ≡ false
unfolding check_appends zeros note_entries note_entry check_results lookup insert
uncounted_entry = refl

falling_entries :
    check_appends
      (record { id = 0; n = 1 } ∷ (record { id = 0; n = 0 } ∷ []))
      1
      (record { nok = 1; nmaybe = 1 } ∷ [])
      3
    ≡ false
unfolding check_appends zeros note_entries note_entry check_results lookup insert
falling_entries = refl
