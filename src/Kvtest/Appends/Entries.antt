-- ===== src/Kvtest/Appends/Entries.antt =====
-- The entries of one client in the list that the clients of src/kvtest1/kvtest.go append to.
use mit_6_5824_lab.Prelude.{
  ltb, ◌==◌, if◌then◌else◌, Bool-cases, ℕ, ◌+◌, ◌≤◌, ◌<◌, ◌≡◌, refl, inl, inr, Option, none, some,
  List, [], ◌∷◌, ◌++◌, arith,
}
use mit_6_5824_lab.Kvtest.Appends.{EntryN}

-- One past the last entry of client `c`, whose entries rise from `x` on; `none` if they do not rise.
abbrev pub next_of : ℕ → ℕ → List EntryN → Option ℕ
next_of c x [] = some x
next_of c x (e ∷ es) =
    if e.id == c then (if ltb e.n x then none else next_of c (e.n + 1) es) else next_of c x es

abbrev pub count_of : ℕ → List EntryN → ℕ
count_of c [] = 0
count_of c (e ∷ es) = if e.id == c then count_of c es + 1 else count_of c es

abbrev pub AllIds : ℕ → List EntryN → Type 0
AllIds n [] = Unit
AllIds n (e ∷ es) = (e.id < n) × AllIds n es

pub next_of_append :
    (c x : ℕ) (es : List EntryN) (e : EntryN) {y : ℕ}
    → next_of c x es ≡ some y
    → next_of c x (es ++ (e ∷ [])) ≡ next_of c y (e ∷ [])
next_of_append c x [] e {y = y} h = let same : x ≡ y = cc in rw same refl
next_of_append c x (f ∷ es) e {y = y} h = elim (Bool-cases (f.id == c)) [
  | inl same ↦ elim (Bool-cases (ltb f.n x)) [
    | inl low ↦ ground (arith, h)
    | inr high ↦
        let there : next_of c (f.n + 1) es ≡ some y = ground (arith, h) in
        rw same (rw high (next_of_append c (f.n + 1) es e there))
  ]
  | inr other ↦
      let there : next_of c x es ≡ some y = ground (arith, h) in
      rw other (next_of_append c x es e there)
]

pub next_of_le : (c x : ℕ) (es : List EntryN) {y : ℕ} → next_of c x es ≡ some y → x ≤ y
next_of_le c x [] {y = y} h = let same : x ≡ y = cc in omega arith
next_of_le c x (e ∷ es) {y = y} h = elim (Bool-cases (e.id == c)) [
  | inl same ↦ elim (Bool-cases (ltb e.n x)) [
    | inl low ↦ absurd (ground (arith, h))
    | inr high ↦
        let there : next_of c (e.n + 1) es ≡ some y = ground (arith, h) in
        let le = next_of_le c (e.n + 1) es there in ground (arith, le)
  ]
  | inr other ↦ let there : next_of c x es ≡ some y = ground (arith, h) in next_of_le c x es there
]

pub count_of_append :
    (c : ℕ) (es : List EntryN) (e : EntryN)
    → count_of c (es ++ (e ∷ [])) ≡ count_of c es + (if e.id == c then 1 else 0)
count_of_append c [] e = ground arith
count_of_append c (f ∷ es) e = ground (arith, count_of_append c es e)

pub AllIds-append :
    (n : ℕ) (es : List EntryN) (e : EntryN) → AllIds n es → e.id < n → AllIds n (es ++ (e ∷ []))
AllIds-append n [] e all new = (new, tt)
AllIds-append n (f ∷ es) e all new = (all.0, AllIds-append n es e all.1 new)
