-- ===== src/Labgob/Checked.antt =====
-- What checkType of src/labgob/labgob.go has checked and counted when it returns.
use mit_6_5824_lab.Prelude.{
  ◌==◌, if◌then◌else◌, Bool-cases, get_elem?, >>=-some, lookup, ℕ, zero, suc, ◌+◌, ◌<◌, String, ◌≡◌,
  refl, ◌↔◌, inl, inr, Bool, true, false, Option, some, List, [], ◌∷◌, arith,
}
use mit_6_5824_lab.Labgob.{
  Field, Kind, struct_kind, elem_kind, map_kind, other_kind, Checks, is_checked, set_checked,
  check_name, check_fields, check_kind, check_type, no_checks,
}
use mit_6_5824_lab.Labgob.Types.{
  field_types, parts, lower_fields, lower, unseen_sum, AllBelow, Closed, AllChecked, is_checked-set,
  Reach, here, further, AllChecked-get, unseen_sum-set, Grows, Grows-refl, Grows-trans, Grows-into,
}
use mathlib.Core.Path.{subst}

unseen_sum-count :
    (f : ℕ → ℕ) (n : ℕ) (st : Checks) (k : ℕ)
    → unseen_sum f n (record st { error_count = k }) ≡ unseen_sum f n st
unfolding is_checked
unseen_sum-count f zero st k = refl
unseen_sum-count f (suc n) st k = ground (arith, unseen_sum-count f n st k)

module _ (kind_of : ℕ → Kind) (is_upper : String → Bool) (n : ℕ) where
  check_name-Grows :
      (R : ℕ → Type 0) (f : Field) (st : Checks)
      → Grows kind_of is_upper n R (if is_upper f.name then 0 else 1) st (check_name is_upper f st)
  unfolding is_checked
  check_name-Grows R f st = elim (Bool-cases (is_upper f.name)) [
    | inl up ↦ rw up (Grows-refl kind_of is_upper n R st)
    | inr low ↦ rw low (record {
      more = λ u h. h;
      fewer = let e = unseen_sum-count (λ u. 1) n st (st.error_count + 1) in omega arith;
      counted =
          let e = unseen_sum-count (λ u. lower is_upper (kind_of u)) n st (st.error_count + 1) in
          omega arith;
      closed = λ u a b. absurd (ground (arith, a, b));
      reached = λ u a b. absurd (ground (arith, a, b));
    })
  ]

  -- A check of the type `u` that returns.
  Visits : (ℕ → Checks → Option Checks) → ℕ → ℕ → Checks → Type 0
  Visits check m u st =
      (st' : Checks) × (check u st ≡ some st')
      × Grows kind_of is_upper n (Reach kind_of u) 0 st st'
      × (is_checked u st' ≡ true)

  -- All checks return from states with fewer than `m` types to check.
  AllVisit : (ℕ → Checks → Option Checks) → ℕ → Type 0
  unfolding Visits
  AllVisit check m =
      (u : ℕ) (st : Checks) → u < n → unseen_sum (λ u. 1) n st < m → Visits check m u st

  -- What is reached from one of the types is in `R`.
  Into : (ℕ → Type 0) → List ℕ → Type 0
  Into R ts = (i u v : ℕ) → get_elem? ts i ≡ some u → Reach kind_of u v → R v

  check_fields_lem :
      (check : ℕ → Checks → Option Checks) (m : ℕ) (R : ℕ → Type 0) (fields : List Field)
      (st : Checks)
      → AllVisit check m
      → AllBelow n (field_types fields)
      → Into R (field_types fields)
      → unseen_sum (λ u. 1) n st < m
      → (st' : Checks) × (check_fields is_upper check fields st ≡ some st')
        × Grows kind_of is_upper n R (lower_fields is_upper fields) st st'
        × AllChecked (field_types fields) st'
  unfolding check_fields AllVisit Visits Into
  check_fields_lem check m R [] st visit below into small =
      (st, refl, Grows-refl kind_of is_upper n R st, tt)
  check_fields_lem check m R (f ∷ fields) st visit below into small =
      let named = check_name-Grows R f st in
      let (s, run, grown, done) =
        visit f.type_of (check_name is_upper f st) below.0 (omega (arith, named.fewer)) in
      let grown' =
        Grows-into kind_of is_upper n (Reach kind_of f.type_of) R (check_name is_upper f st) s
          (λ v r. into 0 f.type_of v refl r) grown in
      let (last, runs, rest, all) =
        check_fields_lem check m R fields s visit below.1 (λ i u v at r. into (suc i) u v at r)
          (omega (arith, named.fewer, grown'.fewer)) in
      (
        last,
        >>=-some _ _ run runs,
        subst (λ d. Grows kind_of is_upper n R d st last) (ground arith)
            (Grows-trans kind_of is_upper n R st s last
              (Grows-trans kind_of is_upper n R st (check_name is_upper f st) s named grown') rest),
        (rest.more f.type_of done, all),
      )

  check_kind_lem :
      (check : ℕ → Checks → Option Checks) (m : ℕ) (R : ℕ → Type 0) (k : Kind) (st : Checks)
      → AllVisit check m
      → AllBelow n (parts k)
      → Into R (parts k)
      → unseen_sum (λ u. 1) n st < m
      → (st' : Checks) × (check_kind is_upper check k st ≡ some st')
        × Grows kind_of is_upper n R (lower is_upper k) st st'
        × AllChecked (parts k) st'
  unfolding check_kind AllVisit Visits Into
  check_kind_lem check m R (struct_kind fields) st visit below into small =
      check_fields_lem check m R fields st visit below into small
  check_kind_lem check m R (elem_kind e) st visit below into small =
      let (s, run, grown, done) = visit e st below.0 small in
      (
        s,
        run,
        Grows-into kind_of is_upper n (Reach kind_of e) R st s (λ v r. into 0 e v refl r) grown,
        (done, tt),
      )
  check_kind_lem check m R (map_kind e k) st visit below into small =
      let (s, run, grown, done) = visit e st below.0 small in
      let (last, runs, rest, ended) = visit k s below.1.0 (omega (arith, grown.fewer)) in
      (
        last,
        >>=-some _ _ run runs,
        Grows-trans kind_of is_upper n R st s last
            (Grows-into kind_of is_upper n (Reach kind_of e) R st s (λ v r. into 0 e v refl r)
              grown)
            (Grows-into kind_of is_upper n (Reach kind_of k) R s last (λ v r. into 1 k v refl r)
              rest),
        (rest.more e done, (ended, tt)),
      )
  check_kind_lem check m R other_kind st visit below into small =
      (st, refl, Grows-refl kind_of is_upper n R st, tt)

  reach_part :
      (t : ℕ) (i : ℕ) {u v : ℕ}
      → get_elem? (parts (kind_of t)) i ≡ some u
      → Reach kind_of u v
      → Reach kind_of t v
  reach_part t i at here = further i here at
  reach_part t i at (further j r there) = further j (reach_part t i at r) there

  -- With more fuel than there are types to check, checkType returns.
  check_type-AllVisit :
      (fuel : ℕ) → Closed n kind_of → AllVisit (λ u s. check_type kind_of is_upper fuel u s) fuel
  unfolding AllVisit Visits check_type Into
  check_type-AllVisit zero inside t st lt small = absurd (omega arith)
  check_type-AllVisit (suc fuel) inside t st lt small = elim (Bool-cases (is_checked t st)) [
    | inl old ↦
        (st, rw (old, check_type) refl, Grows-refl kind_of is_upper n (Reach kind_of t) st, old)
    | inr new ↦
        let st1 = set_checked t st in
        let ones = unseen_sum-set (λ u. 1) n t st lt new in
        let lows = unseen_sum-set (λ u. lower is_upper (kind_of u)) n t st lt new in
        let (last, run, grown, all) =
          check_kind_lem (λ u s. check_type kind_of is_upper fuel u s) fuel (Reach kind_of t)
            (kind_of t) st1 (check_type-AllVisit fuel inside) (inside t lt)
            (λ i u v at r. reach_part t i at r) (omega (arith, ones)) in
        (
          last,
          rw (new, check_type) run,
          record {
            more = λ u h. grown.more u (let e = is_checked-set t u st in ground (arith, e, h));
            fewer = omega (arith, ones, grown.fewer);
            counted = omega (arith, lows, grown.counted);
            closed = λ u unseen seen. elim (Bool-cases (t == u)) [
              | inl same ↦
                  let e : t ≡ u = ground arith in
                  subst (λ x. AllChecked (parts (kind_of x)) last) e all
              | inr other ↦
                  grown.closed u (let e = is_checked-set t u st in ground (arith, e, unseen, other))
                    seen
            ];
            reached = λ u unseen seen. elim (Bool-cases (t == u)) [
              | inl same ↦ let e : t ≡ u = ground arith in subst (λ x. Reach kind_of t x) e here
              | inr other ↦
                  grown.reached u
                    (let e = is_checked-set t u st in ground (arith, e, unseen, other)) seen
            ];
          },
          grown.more t (let e = is_checked-set t t st in ground (arith, e)),
        )
  ]

-- A sum over those of the first `n` types that have been checked.
abbrev pub seen_sum : (ℕ → ℕ) → ℕ → Checks → ℕ
seen_sum f zero st = 0
seen_sum f (suc n) st = if is_checked n st then f n + seen_sum f n st else seen_sum f n st

all_sum :
    (f : ℕ → ℕ) (n : ℕ) (st : Checks)
    → seen_sum f n st + unseen_sum f n st ≡ unseen_sum f n no_checks
unfolding is_checked lookup
all_sum f zero st = refl
all_sum f (suc n) st = ground (arith, all_sum f n st)

ones_sum : (n : ℕ) → unseen_sum (λ u. 1) n no_checks ≡ n
unfolding is_checked lookup
ones_sum zero = refl
ones_sum (suc n) = omega (arith, ones_sum n)

none_checked : (u : ℕ) → is_checked u no_checks ≡ false
unfolding is_checked lookup
none_checked u = refl

Reach-checked :
    (kind_of : ℕ → Kind) {t u : ℕ} (st : Checks)
    → is_checked t st ≡ true
    → ((v : ℕ) → is_checked v st ≡ true → AllChecked (parts (kind_of v)) st)
    → Reach kind_of t u
    → is_checked u st ≡ true
Reach-checked kind_of st root closed here = root
Reach-checked kind_of st root closed (further {u = v} i r at) =
    AllChecked-get (parts (kind_of v)) st i (closed v (Reach-checked kind_of st root closed r)) at

-- Checking a type for the first time, where `n` types refer to each other only, in circles or not, with as much
-- fuel as there are types, and one: checkType returns, it has then checked the types that are reached
-- from the first one and no others, and has counted the fields of these that are not upper-case, once each.
pub check_type_lem :
    (kind_of : ℕ → Kind) (is_upper : String → Bool) (n t : ℕ)
    → Closed n kind_of
    → t < n
    → (st : Checks) × (check_type kind_of is_upper (n + 1) t no_checks ≡ some st)
      × ((u : ℕ) → (is_checked u st ≡ true) ↔ Reach kind_of t u)
      × (st.error_count ≡ seen_sum (λ u. lower is_upper (kind_of u)) n st)
unfolding AllVisit Visits
check_type_lem kind_of is_upper n t inside lt =
    let (st, run, grown, done) =
      check_type-AllVisit kind_of is_upper n (n + 1) inside t no_checks lt
        (omega (arith, ones_sum n)) in
    (
      st,
      run,
      λ u. (
        λ seen. grown.reached u (none_checked u) seen,
        λ r. Reach-checked kind_of st done (λ v. grown.closed v (none_checked v)) r,
      ),
      omega (arith, grown.counted, all_sum (λ u. lower is_upper (kind_of u)) n st),
    )
