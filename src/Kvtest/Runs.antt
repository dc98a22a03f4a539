-- ===== src/Kvtest/Runs.antt =====
-- Runs of the clients of src/kvtest1/kvtest.go: what holds of the key's version and the results.

use mit_6_5824_lab.Kvsrv.Clerk.Single.{InRange}
use mit_6_5824_lab.Prelude.{
  length, get_elem?, set, length-set, replicate, length-replicate, get_elem?_of_lt,
  get_elem?-set_inv, >>=-some, lookup, ℕ, zero, suc, ◌+◌, ◌^◌, ◌≤◌, ◌<◌, String, ◌≡◌, refl, ◌∙◌,
  inl, inr, Option, some, List, [], ◌∷◌, arith,
}
use mit_6_5824_lab.Kvsrv.Server.{KvServer}
use mit_6_5824_lab.Kvsrv.Clerk.{Fate}
use mit_6_5824_lab.Kvsrv.Registers.{register, version_of}
use mit_6_5824_lab.Kvtest.Clients.{EntryV, Client, System, fresh_client, spawn_clients, run_clients}
use mit_6_5824_lab.Kvtest.Moves.{Written, most, least, Fits, Moves}
use mit_6_5824_lab.Kvtest.Puts.{client_turn_lem}

-- A sum over the clients.
abbrev pub total : (Client → ℕ) → List Client → ℕ
total f [] = 0
total f (c ∷ cs) = f c + total f cs

total_le :
    (f g : Client → ℕ) (cs : List Client) → ((c : Client) → f c ≤ g c) → total f cs ≤ total g cs
total_le f g [] le = omega arith
total_le f g (c ∷ cs) le = omega (arith, le c, total_le f g cs le)

-- One client changes, and the summands of the others may grow.
total-set_le :
    (f g : Client → ℕ) (cs : List Client) (i : ℕ) {c : Client} (c' : Client)
    → ((x : Client) → f x ≤ g x)
    → get_elem? cs i ≡ some c
    → total f cs + g c' ≤ total g (set cs i c') + f c
total-set_le f g [] i c' le at = cc
total-set_le f g (x ∷ cs) zero c' le at = ground (arith, total_le f g cs le)
total-set_le f g (x ∷ cs) (suc i) c' le at = omega (arith, le x, total-set_le f g cs i c' le at)

total-set :
    (f : Client → ℕ) (cs : List Client) (i : ℕ) {c : Client} (c' : Client)
    → get_elem? cs i ≡ some c
    → total f (set cs i c') + f c ≡ total f cs + f c'
total-set f [] i c' at = cc
total-set f (x ∷ cs) zero c' at = ground arith
total-set f (x ∷ cs) (suc i) c' at = omega (arith, total-set f cs i c' at)

abbrev pub results : Client → ℕ
results c = c.res.nok + c.res.nmaybe

-- What holds after `k` turns.
pub record Inv (enc : EntryV → String) (key : String) (k : ℕ) (sys : System) : Type 0 where
  pub written : Written enc (register sys.kv key)
  pub small : version_of (register sys.kv key) ≤ k
  pub upper :
      version_of (register sys.kv key) ≤ total (most (version_of (register sys.kv key))) sys.clients
  pub lower : total least sys.clients ≤ version_of (register sys.kv key)
  pub counted : total results sys.clients ≤ k
  pub all_fit :
      (i : ℕ) (c : Client)
      → get_elem? sys.clients i ≡ some c
      → Fits (version_of (register sys.kv key)) c

most_le : (v v' : ℕ) (c : Client) → v ≤ v' → most v c ≤ most v' c
most_le v v' c le = ground arith

Fits-le : (v v' : ℕ) (c : Client) → v ≤ v' → Fits v c → Fits v' c
Fits-le v v' c le f = (omega (arith, f.0), λ z. f.1 (omega arith))

Moves-Inv :
    (enc : EntryV → String) (key : String) (k me : ℕ) (sys : System) (kv' : KvServer)
    (c c' : Client)
    → Inv enc key k sys
    → get_elem? sys.clients me ≡ some c
    → Moves enc (register sys.kv key) c (register kv' key) c'
    → Inv enc key (suc k) (record { kv = kv'; clients = set sys.clients me c' })
Moves-Inv enc key k me sys kv' c c' inv at m =
    let v = version_of (register sys.kv key) in
    let v' = version_of (register kv' key) in
    record {
      written = m.written;
      small = omega (arith, m.by_one, inv.small);
      upper = omega (
        arith,
        m.at_most,
        inv.upper,
        total-set_le (most v) (most v') sys.clients me c' (λ x. most_le v v' x m.rises) at,
      );
      lower = omega (arith, m.at_least, inv.lower, total-set least sys.clients me c' at);
      counted = omega (arith, m.counts, inv.counted, total-set results sys.clients me c' at);
      all_fit = λ i x here. elim (get_elem?-set_inv sys.clients me i c' here) [
        | inl (same, is) ↦ rw is m.fits
        | inr (other, there) ↦ Fits-le v v' x m.rises (inv.all_fit i x there)
      ];
    }

Inv-le :
    {enc : EntryV → String} {key : String} {k k' : ℕ} {sys : System}
    → k ≤ k'
    → Inv enc key k sys
    → Inv enc key k' sys
Inv-le le inv = record {
  written = inv.written;
  small = omega (arith, inv.small);
  upper = inv.upper;
  lower = inv.lower;
  counted = omega (arith, inv.counted);
  all_fit = inv.all_fit;
}

run_from :
    (enc : EntryV → String) (dec : String → Option EntryV) (key : String) (n k : ℕ)
    (schedule : List (ℕ × Fate)) (sys : System)
    → ((e : EntryV) → dec (enc e) ≡ some e)
    → Inv enc key k sys
    → length sys.clients ≡ n
    → InRange n schedule
    → k + length schedule < 2 ^ 64
    → (sys' : System) × (run_clients enc dec key schedule sys ≡ some sys')
      × Inv enc key (k + length schedule) sys'
unfolding run_clients
run_from enc dec key n k [] sys back inv len range small = (sys, refl, Inv-le (omega arith) inv)
run_from enc dec key n k ((me, fate) ∷ schedule) sys back inv len range small =
    let (c, at) = get_elem?_of_lt sys.clients me (omega (arith, range.0)) in
    let (kv', c', turn, m) =
      client_turn_lem enc dec key me fate sys.kv c back inv.written (inv.all_fit me c at)
        (omega (arith, inv.small)) in
    let (last, run, inv') =
      run_from enc dec key n (suc k) schedule (record { kv = kv'; clients = set sys.clients me c' })
        back (Moves-Inv enc key k me sys kv' c c' inv at m) (length-set sys.clients me c' ∙ len)
        range.1 (omega arith) in
    (last, >>=-some _ _ at (>>=-some _ _ turn run), Inv-le (omega arith) inv')

fresh-Fits : (n i : ℕ) (c : Client) → get_elem? (replicate n fresh_client) i ≡ some c → Fits 0 c
fresh-Fits zero i c at = cc
fresh-Fits (suc n) zero c at = let e : c ≡ fresh_client = cc in rw e (omega arith, λ z. refl)
fresh-Fits (suc n) (suc i) c at = fresh-Fits n i c at

fresh_total : (f : Client → ℕ) (n : ℕ) → f fresh_client ≡ 0 → total f (replicate n fresh_client) ≡ 0
fresh_total f zero e = refl
fresh_total f (suc n) e = omega (arith, e, fresh_total f n e)

fresh-Inv : (enc : EntryV → String) (key : String) (n : ℕ) → Inv enc key 0 (spawn_clients n)
unfolding spawn_clients register lookup
fresh-Inv enc key n = record {
  written = tt;
  small = omega arith;
  upper = omega arith;
  lower = omega (arith, fresh_total least n refl);
  counted = omega (arith, fresh_total results n refl);
  all_fit = fresh-Fits n;
}

pub run_fresh :
    (enc : EntryV → String) (dec : String → Option EntryV) (key : String) (n : ℕ)
    (schedule : List (ℕ × Fate))
    → ((e : EntryV) → dec (enc e) ≡ some e)
    → InRange n schedule
    → length schedule < 2 ^ 64
    → (sys : System) × (run_clients enc dec key schedule (spawn_clients n) ≡ some sys)
      × Inv enc key (length schedule) sys
unfolding spawn_clients
run_fresh enc dec key n schedule back range small =
    let (sys, run, inv) =
      run_from enc dec key n 0 schedule (spawn_clients n) back (fresh-Inv enc key n)
        (length-replicate n fresh_client) range (omega arith) in
    (sys, run, Inv-le (omega arith) inv)
