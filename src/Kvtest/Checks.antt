-- ===== src/Kvtest/Checks.antt =====
-- The check CheckPutConcurrent of src/kvtest1/kvtest.go after a run of the clients.
use mit_6_5824_lab.Kvsrv.Clerk.Single.{one_turn, InRange}
use mit_6_5824_lab.Kvtest.Prompt.{AllDelivered, prompt_run, fresh_prompt, prompt_total}
use mit_6_5824_lab.Prelude.{
  Bool-cases, length, get_elem?, ℕ, zero, suc, ◌+◌, ◌^◌, ◌≤◌, ◌<◌, String, ◌≡◌, refl, sym, inl, inr,
  Bool, true, Option, some, List, [], ◌∷◌, map, arith,
}
use mit_6_5824_lab.Kvtest.Moves.{most, least, Fits}
use mit_6_5824_lab.Kvtest.Runs.{total, results, Inv, run_fresh}
use mit_6_5824_lab.Kvsrv.Clerk.{Fate, delivered, returned}
use mit_6_5824_lab.Kvtest.Clients.{
  EntryV, ClntRes, idle, Client, System, spawn_clients, run_clients, add_results,
  check_put_concurrent,
}
use mit_6_5824_lab.Kvtest.Puts.{get_json-delivered}
use mit_6_5824_lab.Kvsrv.Registers.{register, version_of}

-- Any number of clients that put to one key of a fresh server, in any order of their calls, fewer
-- than 2^64 of them, and whatever the network loses: no client fails the test.
pub run_clients_lem :
    (enc : EntryV → String) (dec : String → Option EntryV) (key : String) (n : ℕ)
    (schedule : List (ℕ × Fate))
    → ((e : EntryV) → dec (enc e) ≡ some e)
    → InRange n schedule
    → length schedule < 2 ^ 64
    → (sys : System) × (run_clients enc dec key schedule (spawn_clients n) ≡ some sys)
run_clients_lem enc dec key n schedule back range small =
    let (sys, run, inv) = run_fresh enc dec key n schedule back range small in (sys, run)

add_results_lem :
    (cs : List Client) (r : ClntRes)
    → add_results (map (λ c. c.res) cs) r ≡ record {
      nok = r.nok + total (λ c. c.res.nok) cs;
      nmaybe = r.nmaybe + total (λ c. c.res.nmaybe) cs;
    }
unfolding add_results
add_results_lem [] r = ground arith
add_results_lem (c ∷ cs) r = rw (add_results_lem cs _) (ground arith)

-- Every client has returned from its last put.
abbrev pub AllIdle : List Client → Type 0
AllIdle [] = Unit
AllIdle (c ∷ cs) = (c.phase ≡ idle) × AllIdle cs

idle_totals :
    (v : ℕ) (cs : List Client)
    → AllIdle cs
    → (total (most v) cs ≡ total (λ c. c.res.nok) cs + total (λ c. c.res.nmaybe) cs)
      × (total least cs ≡ total (λ c. c.res.nok) cs)
idle_totals v [] h = (refl, refl)
idle_totals v (c ∷ cs) h =
    let rest = idle_totals v cs h.1 in let e = h.0 in (ground (arith, rest), ground (arith, rest))

total-results :
    (cs : List Client) → total results cs ≡ total (λ c. c.res.nok) cs + total (λ c. c.res.nmaybe) cs
total-results [] = refl
total-results (c ∷ cs) = omega (arith, total-results cs)

unanswered_total :
    (cs : List Client)
    → ((i : ℕ) (c : Client) → get_elem? cs i ≡ some c → Fits 0 c)
    → total results cs ≡ 0
unanswered_total [] f = refl
unanswered_total (c ∷ cs) f =
    let here = (f 0 c refl).1 refl in omega (arith, here, unanswered_total cs (λ i x. f (suc i) x))

has_version :
    (cs : List Client) (v : ℕ)
    → ((i : ℕ) (c : Client) → get_elem? cs i ≡ some c → Fits v c)
    → 0 < total results cs
    → 1 ≤ v
has_version cs zero f h = absurd (omega (arith, unanswered_total cs f))
has_version cs (suc v) f h = omega arith

-- After such a run in which some put has returned and all clients have, the check of the results
-- passes: the version of the key is at most the number of puts that have returned OK or ErrMaybe, and if the network
-- has lost nothing, as the flag then may say, it is the number of those that have returned OK.
pub check_put_concurrent_lem :
    (enc : EntryV → String) (dec : String → Option EntryV) (key : String) (n : ℕ)
    (schedule : List (ℕ × Fate)) (reliable : Bool) (sys : System)
    → ((e : EntryV) → dec (enc e) ≡ some e)
    → InRange n schedule
    → length schedule < 2 ^ 64
    → (reliable ≡ true → AllDelivered schedule)
    → run_clients enc dec key schedule (spawn_clients n) ≡ some sys
    → AllIdle sys.clients
    → 0 < total results sys.clients
    → check_put_concurrent dec key
        (map (λ c. c.res) sys.clients)
        (record { nok = 0; nmaybe = 0 })
        reliable
        (one_turn delivered)
        sys.kv
      ≡ returned sys.kv (record {
        nok = total (λ c. c.res.nok) sys.clients;
        nmaybe = total (λ c. c.res.nmaybe) sys.clients;
      })
unfolding check_put_concurrent
check_put_concurrent_lem enc dec key n schedule reliable sys back range small all run at_rest
      some_put =
    let (sys1, run1, inv1) = run_fresh enc dec key n schedule back range small in
    let same : sys1 ≡ sys = cc in
    let inv : Inv enc key (length schedule) sys = rw (sym same) inv1 in
    let v = version_of (register sys.kv key) in
    let (id, at, e1, e) =
      get_json-delivered enc dec key sys.kv (register sys.kv key) back refl inv.written
        (has_version sys.clients _ inv.all_fit some_put) in
    let totals = idle_totals v sys.clients at_rest in
    let sum = total-results sys.clients in
    let added = add_results_lem sys.clients (record { nok = 0; nmaybe = 0 }) in
    let counted : total results sys.clients < 2 ^ 64 = omega (arith, inv.counted) in
    let upper : v ≤ total results sys.clients = omega (arith, inv.upper, totals.0) in
    let lower : total (λ c. c.res.nok) sys.clients ≤ v = omega (arith, inv.lower, totals.1) in
    elim (Bool-cases reliable) [
      | inl flag ↦
          let none_lost : total (λ c. c.res.nmaybe) sys.clients ≡ 0 = prompt_total sys.clients (
            prompt_run enc dec key schedule (spawn_clients n) sys (all flag) (fresh_prompt n)
              run) in
          ground (arith, e, added)
      | inr flag ↦ ground (arith, e, added)
    ]
