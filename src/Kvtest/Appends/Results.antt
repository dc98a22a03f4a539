-- ===== src/Kvtest/Appends/Results.antt =====
-- The check CheckAppends of src/kvtest1/kvtest.go after a run of the clients.
use mit_6_5824_lab.Prelude.{
  ltb, Bool-cases, length, get_elem?, replicate, length-replicate, length-map, get_elem?_of_lt,
  get_elem?-map_inv, ℕ, zero, suc, ◌+◌, ◌^◌, ◌≤◌, ◌<◌, String, ◌≡◌, refl, ◌∙◌, inl, inr, Bool, true,
  false, not, ◌&&◌, ◌||◌, Option, none, some, List, [], ◌∷◌, map, arith,
}
use mit_6_5824_lab.Kvsrv.Clerk.Single.{one_turn, InRange}
use mit_6_5824_lab.Kvsrv.Server.{KvServer}
use mit_6_5824_lab.Kvsrv.Clerk.{Fate, delivered, returned}
use mit_6_5824_lab.Kvsrv.Registers.{register}
use mit_6_5824_lab.Kvtest.Clients.{get_json}
use mit_6_5824_lab.Kvtest.Appends.{
  EntryN, Stage, waiting, reading, writing, Appender, Appends, fresh_appender, run_appends, zeros,
  check_results, check_appends,
}
use mit_6_5824_lab.Kvtest.Appends.Entries.{next_of, count_of, AllIds}
use mit_6_5824_lab.Kvtest.Appends.Turns.{in_doubt, Fits}
use mit_6_5824_lab.Kvtest.Appends.Calls.{get_json-list}
use mit_6_5824_lab.Kvtest.Appends.Runs.{Inv, run_from, fresh-Inv}
use mit_6_5824_lab.Kvtest.Appends.Check.{
  at_key-zeros, zeros-AllBelow, note_entries_lem, check_results_lem,
}

abbrev is_waiting : Stage → Bool
is_waiting s = elim s [ waiting ↦ true | _ ↦ false ]

-- Every client has ended its last iteration.
abbrev pub all_waiting : List Appender → Bool
all_waiting [] = true
all_waiting (c ∷ cs) = is_waiting c.stage && all_waiting cs

waiting_client :
    (cs : List Appender) (i : ℕ) (c : Appender)
    → all_waiting cs ≡ true
    → get_elem? cs i ≡ some c
    → is_waiting c.stage ≡ true
waiting_client [] i c all at = cc
waiting_client (d ∷ cs) zero c all at = ground (arith, all)
waiting_client (d ∷ cs) (suc i) c all at = waiting_client cs i c (ground (arith, all)) at

no_doubt : (es : List EntryN) (s : Stage) → is_waiting s ≡ true → in_doubt es s ≡ 0
no_doubt es waiting w = refl
no_doubt es reading w = refl
no_doubt es (writing es' ver count) w = absurd (ground arith)

-- Where client `c` of the list ends.
abbrev last_of : List EntryN → ℕ → ℕ
last_of es c = elim (next_of c 0 es) [ none ↦ 0 | some y ↦ y ]

last_of-some :
    (es : List EntryN) (c : ℕ) {y : ℕ}
    → next_of c 0 es ≡ some y
    → next_of c 0 es ≡ some (last_of es c)
last_of-some es c h = ground (arith, h)

no_client : (n c x : ℕ) (es : List EntryN) → AllIds n es → n ≤ c → next_of c x es ≡ some x
no_client n c x [] ids le = refl
no_client n c x (e ∷ es) ids le = ground (arith, ids, no_client n c x es ids.1 le)

last_of_lem :
    (es : List EntryN) (n : ℕ) (cs : List Appender)
    → length cs ≡ n
    → AllIds n es
    → ((i : ℕ) (c : Appender) → get_elem? cs i ≡ some c → Fits es i c)
    → (c : ℕ) → next_of c 0 es ≡ some (last_of es c)
last_of_lem es n cs len ids fit c = elim (Bool-cases (ltb c n)) [
  | inl lt ↦
      let (x, at) = get_elem?_of_lt cs c (ground arith) in last_of-some es c (fit c x at).rises
  | inr ge ↦ last_of-some es c (no_client n c 0 es ids (ground arith))
]

-- The bounds that the check asks for hold of each client that has ended its last iteration.
checked :
    (es : List EntryN) (me : ℕ) (c : Appender)
    → Fits es me c
    → is_waiting c.stage ≡ true
    → next_of me 0 es ≡ some (last_of es me)
    → (last_of es me ≤ count_of me es + c.res.nmaybe) × (last_of es me ≤ c.res.nok + c.res.nmaybe)
checked es me c f at_rest is =
    let same : f.next ≡ last_of es me = (let h = f.rises in cc) in
    let none_now = no_doubt es c.stage at_rest in
    let reached : f.next ≤ c.i = omega (arith, f.reached) in
    (omega (arith, f.tried, f.counted), omega (arith, f.tried))

check_lem :
    (enc : List EntryN → String) (n k : ℕ) (sys : Appends) (es : List EntryN)
    → Inv enc n k sys es
    → length sys.clients ≡ n
    → all_waiting sys.clients ≡ true
    → check_appends es n (map (λ c. c.res) sys.clients) (length es + 1) ≡ true
unfolding check_appends
check_lem enc n k sys es inv len at_rest =
    let rises = last_of_lem es n sys.clients len inv.ids inv.all_fit in
    let noted =
      note_entries_lem n (last_of es) es (zeros n []) (zeros n []) inv.ids
        (λ c. rw (at_key-zeros n c) (rises c)) (zeros-AllBelow n n (last_of es) (omega arith)) in
    let made = noted.noted in
    let results : check_results noted.expect_after noted.skipped_after
          (map (λ c. c.res) sys.clients)
        ≡ true =
      check_results_lem n (last_of es) noted.expect_after noted.skipped_after
        (map (λ c. c.res) sys.clients) (length-map sys.clients (λ c. c.res) ∙ len) noted.below
        (λ c r at.
          let (x, there, is) = get_elem?-map_inv (λ c. c.res) sys.clients c at in
          let (few, most) =
            checked es c x (inv.all_fit c x there) (waiting_client sys.clients c x at_rest there)
              (rises c) in
          let zero_at = at_key-zeros n c in
          let kept = noted.counted c in (rw is (omega (arith, few, kept, zero_at)), rw is most)) in
    rw (made, check_appends) (ground (arith, results))

-- Any number of clients that append to the list under one key, in any order of their calls, fewer than 2^64 - 2 of
-- them, whatever the network loses, and with an encoding that decoding reverts, from a server that holds the empty
-- list at version 1: no client fails the test, the list can be read, and if every client has ended its last iteration,
-- the check of the list passes.
pub run_appends_lem :
    (enc : List EntryN → String) (dec : String → Option (List EntryN)) (n : ℕ)
    (schedule : List (ℕ × Fate)) (kv : KvServer)
    → ((es : List EntryN) → dec (enc es) ≡ some es)
    → InRange n schedule
    → length schedule + 2 < 2 ^ 64
    → register kv "k" ≡ some (record { value = enc []; version = 1 })
    → (sys : Appends) × (es : List EntryN) × (ver : ℕ) × (run_appends enc dec schedule
          (record { kv = kv; clients = replicate n fresh_appender })
        ≡ some sys)
      × (get_json dec "k" (one_turn delivered) sys.kv ≡ returned sys.kv (es, ver))
      × ((not (all_waiting sys.clients) || check_appends es n (map (λ c. c.res) sys.clients) ver)
          ≡ true)
run_appends_lem enc dec n schedule kv back range small start =
    let (sys, es, run, inv, len) =
      run_from enc dec n 0 schedule (record { kv = kv; clients = replicate n fresh_appender }) []
        back (fresh-Inv enc n kv start) (length-replicate n fresh_appender) range (omega arith) in
    (
      sys,
      es,
      length es + 1,
      run,
      get_json-list enc dec sys.kv es back inv.holds,
      elim (Bool-cases (all_waiting sys.clients)) [
        | inl at_rest ↦ ground (arith, at_rest, check_lem enc n _ sys es inv len at_rest)
        | inr moving ↦ ground (arith, moving)
      ],
    )
