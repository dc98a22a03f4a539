-- ===== src/Kvtest/Prompt.antt =====
-- Clients of src/kvtest1/kvtest.go in a network that loses nothing: no put of theirs returns ErrMaybe.
use mit_6_5824_lab.Kvsrv.Clerk.Single.{one_turn, put_loop-one}
use mit_6_5824_lab.Prelude.{
  ◌==◌, get_elem?, set, get_elem?-set_inv, >>=-inv, ℕ, zero, suc, String, ◌≡◌, refl, ◌⊎◌, inl, inr,
  Bool, true, false, not, ◌&&◌, Option, none, some, List, [], ◌∷◌, arith,
}
use mit_6_5824_lab.Kvtest.Runs.{total}
use mit_6_5824_lab.Kvsrv.Clerk.{Fate, delivered, Outcome-cases}
use mit_6_5824_lab.Kvtest.Clients.{
  EntryV, ClntRes, Phase, idle, putting, getting, Client, get_json, put_turn, after_read, get_turn,
  client_turn, System, fresh_client, spawn_clients, run_clients,
}
use mit_6_5824_lab.Kvtest.Puts.{puts_of}
use mit_6_5824_lab.Kvsrv.Rpc.{Err, is_maybe}
use mit_6_5824_lab.Kvsrv.Server.{Entry, KvServer}
use mit_6_5824_lab.Kvsrv.Registers.{register, cas_reply}

-- A client that has lost no call.
abbrev prompt : Client → Bool
prompt c =
    (c.res.nmaybe == 0)
    && elim c.phase [ idle ↦ true | putting count ↦ count == 0 | getting err ↦ not (is_maybe err) ]

abbrev pub AllDelivered : List (ℕ × Fate) → Type 0
AllDelivered [] = Unit
AllDelivered ((me, fate) ∷ schedule) = (fate ≡ delivered) × AllDelivered schedule

cas_reply_surely : (r : Option Entry) (version : ℕ) → is_maybe (cas_reply r version) ≡ false
cas_reply_surely none zero = refl
cas_reply_surely none (suc _) = refl
cas_reply_surely (some entry) version = ground arith

prompt_put :
    (enc : EntryV → String) (key : String) (me : ℕ) (kv kv' : KvServer) (c c' : Client)
    → put_turn enc key me 0 delivered kv c ≡ some (kv', c')
    → (err : Err) × (is_maybe err ≡ false) × (c' ≡ record c { phase = getting err })
unfolding put_turn
prompt_put enc key me kv kv' c c' turn =
    let args = puts_of enc key me c.ver in
    let err = cas_reply (register kv key) c.ver in
    let one = (put_loop-one kv args 0).2 in
    (err, cas_reply_surely (register kv key) c.ver, ground (arith, one))

prompt_get :
    (dec : String → Option EntryV) (key : String) (me : ℕ) (err : Err) (kv kv' : KvServer)
    (c c' : Client)
    → get_turn dec key me err delivered kv c ≡ some (kv', c')
    → (c' ≡ c) ⊎ ((ver0 : ℕ) × (c' ≡ after_read err ver0 c))
unfolding get_turn
prompt_get dec key me err kv kv' c c' turn =
    elim (Outcome-cases (get_json dec key (one_turn delivered) kv)) [
      | inl (inl (kv1, e)) ↦ inl (ground (arith, e))
      | inl (inr e) ↦ absurd (ground (arith, e))
      | inr (kv1, (x, ver0), e) ↦ inr (ver0, ground (arith, e))
    ]

prompt_at :
    (enc : EntryV → String) (dec : String → Option EntryV) (key : String) (me : ℕ)
    (kv kv' : KvServer) (c' : Client) (ver : ℕ) (phase : Phase) (res : ClntRes)
    → client_turn enc dec key me delivered kv (record { ver = ver; phase = phase; res = res })
      ≡ some (kv', c')
    → prompt (record { ver = ver; phase = phase; res = res }) ≡ true
    → prompt c' ≡ true
unfolding client_turn
prompt_at enc dec key me kv kv' c' ver idle res turn p =
    let e : c' ≡ record { ver = ver; phase = putting 0; res = res } = cc in rw e (ground arith)
prompt_at enc dec key me kv kv' c' ver (putting zero) res turn p =
    let (err, sure, e) =
      prompt_put enc key me kv kv' (record { ver = ver; phase = putting zero; res = res }) c'
        turn in
    rw e (ground arith)
prompt_at enc dec key me kv kv' c' ver (putting (suc count)) res turn p = absurd (ground arith)
prompt_at enc dec key me kv kv' c' ver (getting err) res turn p =
    elim (prompt_get dec key me err kv kv' (record { ver = ver; phase = getting err; res = res }) c'
      turn) [ inl e ↦ rw e p | inr (ver0, e) ↦ rw e (ground arith) ]

prompt_turn :
    (enc : EntryV → String) (dec : String → Option EntryV) (key : String) (me : ℕ) (fate : Fate)
    (kv kv' : KvServer) (c c' : Client)
    → fate ≡ delivered
    → client_turn enc dec key me fate kv c ≡ some (kv', c')
    → prompt c ≡ true
    → prompt c' ≡ true
prompt_turn enc dec key me fate kv kv' c c' all turn p =
    prompt_at enc dec key me kv kv' c' c.ver c.phase c.res (rw all at turn) p

-- Without losses, every client stays prompt.
abbrev pub AllPrompt : List Client → Type 0
AllPrompt cs = (i : ℕ) (c : Client) → get_elem? cs i ≡ some c → prompt c ≡ true

pub prompt_run :
    (enc : EntryV → String) (dec : String → Option EntryV) (key : String)
    (schedule : List (ℕ × Fate)) (sys sys' : System)
    → AllDelivered schedule
    → AllPrompt sys.clients
    → run_clients enc dec key schedule sys ≡ some sys'
    → AllPrompt sys'.clients
unfolding run_clients
prompt_run enc dec key [] sys sys' all p run = let e : sys' ≡ sys = cc in rw e p
prompt_run enc dec key ((me, fate) ∷ schedule) sys sys' all p run =
    let (c, at, run1) = >>=-inv (get_elem? sys.clients me) _ run in
    let ((kv', c'), turn, run2) = >>=-inv (client_turn enc dec key me fate sys.kv c) _ run1 in
    prompt_run enc dec key schedule (record { kv = kv'; clients = set sys.clients me c' }) sys'
      all.1
      (λ i x here. elim (get_elem?-set_inv sys.clients me i c' here) [
        | inl (same, is) ↦
            rw is (prompt_turn enc dec key me fate sys.kv kv' c c' all.0 turn (p me c at))
        | inr (other, there) ↦ p i x there
      ])
      run2

pub fresh_prompt : (n : ℕ) → AllPrompt (spawn_clients n).clients
unfolding spawn_clients
fresh_prompt zero i c at = cc
fresh_prompt (suc n) zero c at = let e : c ≡ fresh_client = cc in rw e refl
fresh_prompt (suc n) (suc i) c at = fresh_prompt n i c at

pub prompt_total : (cs : List Client) → AllPrompt cs → total (λ c. c.res.nmaybe) cs ≡ 0
prompt_total [] p = refl
prompt_total (c ∷ cs) p =
    let here = p 0 c refl in ground (arith, prompt_total cs (λ i x. p (suc i) x))
