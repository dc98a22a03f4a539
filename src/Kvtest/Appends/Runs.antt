-- ===== src/Kvtest/Appends/Runs.antt =====
-- Runs of the clients of src/kvtest1/kvtest.go that append: what holds of the list and the results.
use mit_6_5824_lab.Kvtest.Appends.Calls.{append_turn_lem}
use mit_6_5824_lab.Prelude.{
  length, get_elem?, set, length-append, length-set, replicate, get_elem?_of_lt, get_elem?-set_inv,
  >>=-some, ℕ, zero, suc, ◌+◌, ◌^◌, ◌≤◌, ◌<◌, String, ◌≡◌, refl, sym, ◌∙◌, inl, inr, Option, some,
  List, [], ◌∷◌, arith,
}
use mit_6_5824_lab.Kvsrv.Clerk.Single.{InRange}
use mit_6_5824_lab.Kvsrv.Server.{KvServer}
use mit_6_5824_lab.Kvsrv.Clerk.{Fate}
use mit_6_5824_lab.Kvsrv.Registers.{register}
use mit_6_5824_lab.Kvtest.Appends.{EntryN, Appender, Appends, fresh_appender, run_appends}
use mit_6_5824_lab.Kvtest.Appends.Entries.{AllIds, AllIds-append}
use mit_6_5824_lab.Kvtest.Appends.Turns.{list_at, own_entry, Fits, Stepped, appended_by_other}

-- What holds after `k` turns of `n` clients: the list under the key is `es`.
pub record Inv (enc : List EntryN → String) (n k : ℕ) (sys : Appends) (es : List EntryN)
    : Type 0 where
  pub holds : register sys.kv "k" ≡ list_at enc es
  pub small : length es ≤ k
  pub ids : AllIds n es
  pub all_fit : (i : ℕ) (c : Appender) → get_elem? sys.clients i ≡ some c → Fits es i c

Inv-le :
    {enc : List EntryN → String} {n k k' : ℕ} {sys : Appends} {es : List EntryN}
    → k ≤ k'
    → Inv enc n k sys es
    → Inv enc n k' sys es
Inv-le le inv = record {
  holds = inv.holds;
  small = omega (arith, inv.small);
  ids = inv.ids;
  all_fit = inv.all_fit;
}

Stepped-Inv :
    (enc : List EntryN → String) (n k me : ℕ) (sys : Appends) (es : List EntryN) (kv' : KvServer)
    (c c' : Appender)
    → me < n
    → Inv enc n k sys es
    → get_elem? sys.clients me ≡ some c
    → (m : Stepped enc me es c kv' c')
    → Inv enc n (suc k) (record { kv = kv'; clients = set sys.clients me c' }) m.after
Stepped-Inv enc n k me sys es kv' c c' in_range inv at m = record {
  holds = m.holds;
  small = elim m.grows [
    | inl same ↦ rw same (omega (arith, inv.small))
    | inr more ↦ rw more (omega (arith, inv.small, length-append es (own_entry me c ∷ [])))
  ];
  ids = elim m.grows [
    | inl same ↦ rw same inv.ids
    | inr more ↦ rw more (AllIds-append n es (own_entry me c) inv.ids in_range)
  ];
  all_fit = λ i x here. elim (get_elem?-set_inv sys.clients me i c' here) [
    | inl (same, is) ↦ rw is (rw (sym same) m.fits)
    | inr (other, there) ↦ elim m.grows [
      | inl same ↦ rw same (inv.all_fit i x there)
      | inr more ↦ rw more (appended_by_other es i (own_entry me c) x other (inv.all_fit i x there))
    ]
  ];
}

pub run_from :
    (enc : List EntryN → String) (dec : String → Option (List EntryN)) (n k : ℕ)
    (schedule : List (ℕ × Fate)) (sys : Appends) (es : List EntryN)
    → ((es : List EntryN) → dec (enc es) ≡ some es)
    → Inv enc n k sys es
    → length sys.clients ≡ n
    → InRange n schedule
    → k + length schedule + 2 < 2 ^ 64
    → (sys' : Appends) × (es' : List EntryN) × (run_appends enc dec schedule sys ≡ some sys')
      × Inv enc n (k + length schedule) sys' es'
      × (length sys'.clients ≡ n)
unfolding run_appends
run_from enc dec n k [] sys es back inv len range small =
    (sys, es, refl, Inv-le (omega arith) inv, len)
run_from enc dec n k ((me, fate) ∷ schedule) sys es back inv len range small =
    let (c, at) = get_elem?_of_lt sys.clients me (omega (arith, range.0)) in
    let (kv', c', turn, m) =
      append_turn_lem enc dec me es fate sys.kv c back inv.holds (inv.all_fit me c at)
        (omega (arith, inv.small)) in
    let (last, es', run, inv', len') =
      run_from enc dec n (suc k) schedule (record { kv = kv'; clients = set sys.clients me c' })
        m.after back (Stepped-Inv enc n k me sys es kv' c c' range.0 inv at m)
        (length-set sys.clients me c' ∙ len) range.1 (omega arith) in
    (last, es', >>=-some _ _ at (>>=-some _ _ turn run), Inv-le (omega arith) inv', len')

fresh-Fits :
    (me n i : ℕ) (c : Appender) → get_elem? (replicate n fresh_appender) i ≡ some c → Fits [] me c
fresh-Fits me zero i c at = cc
fresh-Fits me (suc n) zero c at =
    let e : c ≡ fresh_appender = cc in
    rw e (record {
      next = 0;
      rises = refl;
      reached = omega arith;
      counted = omega arith;
      tried = refl;
      up_to_date = tt;
    })
fresh-Fits me (suc n) (suc i) c at = fresh-Fits me n i c at

-- The start: `n` clients, at a server that holds the empty list under the key.
pub fresh-Inv :
    (enc : List EntryN → String) (n : ℕ) (kv : KvServer)
    → register kv "k" ≡ list_at enc []
    → Inv enc n 0 (record { kv = kv; clients = replicate n fresh_appender }) []
fresh-Inv enc n kv there = record {
  holds = there;
  small = omega arith;
  ids = tt;
  all_fit = λ i c at. fresh-Fits i n i c at;
}
