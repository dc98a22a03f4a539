-- ===== src/Kvtest/Appends/Check.antt =====
-- The loops of the check CheckAppends of src/kvtest1/kvtest.go.
use mit_6_5824_lab.Prelude.{
  ltb, ◌==◌, if◌then◌else◌, Bool-cases, length, get_elem?, get_elem?_of_lt, >>=-some, lookup,
  insert, Dict, lookup-insert, ℕ, zero, suc, ◌+◌, ◌-◌, ◌≤◌, ◌<◌, ◌≡◌, refl, inl, inr, true, some,
  List, [], ◌∷◌, arith, nat_eq,
}
use mit_6_5824_lab.Kvtest.Clients.{ClntRes}
use mit_6_5824_lab.Kvtest.Appends.{EntryN, at_key, zeros, note_entry, note_entries, check_results}
use mit_6_5824_lab.Kvtest.Appends.Entries.{next_of, count_of, AllIds, next_of_le}

at_key-insert :
    (j k v : ℕ) (m : Dict ℕ ℕ) → at_key j (insert k v m) ≡ (if k == j then v else at_key j m)
at_key-insert j k v m = ground (arith, lookup-insert k j v m)

pub at_key-zeros : (n j : ℕ) → at_key j (zeros n []) ≡ 0
unfolding zeros lookup
at_key-zeros zero j = refl
at_key-zeros (suc n) j = ground (arith, at_key-insert j n 0 (zeros n []), at_key-zeros n j)

-- Each entry of the map `expect` is that of a client, and at most what the client ends with.
abbrev AllBelow : ℕ → (ℕ → ℕ) → Dict ℕ ℕ → Type 0
AllBelow n last [] = Unit
AllBelow n last ((c, v) ∷ m) = (c < n) × (v ≤ last c) × AllBelow n last m

insert-AllBelow :
    (n : ℕ) (last : ℕ → ℕ) (c v : ℕ) (m : Dict ℕ ℕ)
    → c < n
    → v ≤ last c
    → AllBelow n last m
    → AllBelow n last (insert c v m)
unfolding insert
insert-AllBelow n last c v [] lt le all = (lt, le, tt)
insert-AllBelow n last c v ((d, w) ∷ m) lt le all = elim (Bool-cases (d == c)) [
  | inl e ↦ rw e (lt, le, all.2)
  | inr e ↦ rw e (all.0, all.1, insert-AllBelow n last c v m lt le all.2)
]

pub zeros-AllBelow : (n k : ℕ) (last : ℕ → ℕ) → k ≤ n → AllBelow n last (zeros k [])
unfolding zeros
zeros-AllBelow n zero last le = tt
zeros-AllBelow n (suc k) last le =
    insert-AllBelow n last k 0 (zeros k []) (omega arith) (omega arith)
      (zeros-AllBelow n k last (omega arith))

-- What the loop over the entries does, when those of each client rise from `expect` on to `last`.
pub record Noted (n : ℕ) (last : ℕ → ℕ) (es : List EntryN) (expect skipped : Dict ℕ ℕ)
    : Type 0 where
  pub expect_after : Dict ℕ ℕ
  pub skipped_after : Dict ℕ ℕ
  pub noted : note_entries es expect skipped ≡ some (expect_after, skipped_after)
  pub below : AllBelow n last expect_after
  pub counted :
      (c : ℕ) → at_key c skipped_after + at_key c expect + count_of c es ≡ at_key c skipped + last c

note_entry_lem :
    (e : EntryN) (expect skipped : Dict ℕ ℕ)
    → at_key e.id expect ≤ e.n
    → (skipped' : Dict ℕ ℕ) × (note_entry e expect skipped
        ≡ some (insert e.id (e.n + 1) expect, skipped'))
      × ((c : ℕ)
          → at_key c skipped' ≡ at_key c skipped + (if e.id == c then e.n - at_key c expect else 0))
unfolding note_entry
note_entry_lem e expect skipped le = elim (Bool-cases (at_key e.id expect == e.n)) [
  | inl same ↦ (skipped, ground arith, λ c. ground arith)
  | inr less ↦ (
    insert e.id (at_key e.id skipped + (e.n - at_key e.id expect)) skipped,
    ground arith,
    λ c.
        ground
          (arith, at_key-insert c e.id (at_key e.id skipped + (e.n - at_key e.id expect)) skipped),
  )
]

next_of_self :
    (e : EntryN) (x : ℕ) (es : List EntryN) {y : ℕ}
    → next_of e.id x (e ∷ es) ≡ some y
    → (x ≤ e.n) × (next_of e.id (e.n + 1) es ≡ some y)
next_of_self e x es {y = y} h = elim (Bool-cases (ltb e.n x)) [
  | inl low ↦ absurd (ground (arith, h))
  | inr high ↦ (ground arith, ground (arith, h))
]

next_of_rest :
    (c : ℕ) (e : EntryN) (es : List EntryN) (expect : Dict ℕ ℕ) {y : ℕ}
    → next_of c (at_key c expect) (e ∷ es) ≡ some y
    → next_of c (at_key c (insert e.id (e.n + 1) expect)) es ≡ some y
next_of_rest c e es expect {y = y} h =
    rw (at_key-insert c e.id (e.n + 1) expect) (elim (Bool-cases (e.id == c)) [
      | inl same ↦ elim (Bool-cases (ltb e.n (at_key c expect))) [
        | inl low ↦ absurd (ground (arith, h))
        | inr high ↦ ground (arith, h)
      ]
      | inr other ↦ ground (arith, h)
    ])

pub note_entries_lem :
    (n : ℕ) (last : ℕ → ℕ) (es : List EntryN) (expect skipped : Dict ℕ ℕ)
    → AllIds n es
    → ((c : ℕ) → next_of c (at_key c expect) es ≡ some (last c))
    → AllBelow n last expect
    → Noted n last es expect skipped
unfolding note_entries
note_entries_lem n last [] expect skipped ids rises below = record {
  expect_after = expect;
  skipped_after = skipped;
  noted = refl;
  below = below;
  counted = λ c. (let same : at_key c expect ≡ last c = (let h = rises c in cc) in omega arith);
}
note_entries_lem n last (e ∷ es) expect skipped ids rises below =
    let own : at_key e.id expect ≤ e.n = (next_of_self e (at_key e.id expect) es (rises e.id)).0 in
    let (skipped', step, gains) = note_entry_lem e expect skipped own in
    let rest =
      note_entries_lem n last es (insert e.id (e.n + 1) expect) skipped' ids.1
        (λ c. next_of_rest c e es expect (rises c))
        (insert-AllBelow n last e.id (e.n + 1) expect ids.0
          (next_of_le e.id (e.n + 1) es (next_of_self e (at_key e.id expect) es (rises e.id)).1)
          below) in
    record {
      expect_after = rest.expect_after;
      skipped_after = rest.skipped_after;
      noted = >>=-some _ _ step rest.noted;
      below = rest.below;
      counted = λ c.
          let added = at_key-insert c e.id (e.n + 1) expect in
          let kept = rest.counted c in let gained = gains c in ground arith;
    }

pub check_results_lem :
    (n : ℕ) (last : ℕ → ℕ) (expect skipped : Dict ℕ ℕ) (rs : List ClntRes)
    → length rs ≡ n
    → AllBelow n last expect
    → ((c : ℕ) (r : ClntRes)
        → get_elem? rs c ≡ some r
        → (at_key c skipped ≤ r.nmaybe) × (last c ≤ r.nok + r.nmaybe))
    → check_results expect skipped rs ≡ true
unfolding check_results
check_results_lem n last [] skipped rs len below bounds = refl
check_results_lem n last ((c, v) ∷ expect) skipped rs len below bounds =
    let (r, at) = get_elem?_of_lt rs c (omega (arith, below.0)) in
    let (few, most) = bounds c r at in
    let rest = check_results_lem n last expect skipped rs len below.2 bounds in
    let le = below.1 in rw (at, check_results) (ground arith)
