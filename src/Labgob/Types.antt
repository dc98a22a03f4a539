-- ===== src/Labgob/Types.antt =====
-- checkType of src/labgob/labgob.go terminates on types that refer to each other in a circle, and counts
-- each lower-case field once.
use mit_6_5824_lab.Prelude.{
  ◌==◌, if◌then◌else◌, Bool-cases, get_elem?, lookup-insert, ℕ, zero, suc, ◌+◌, ◌≤◌, ◌<◌, String,
  ◌≡◌, refl, sym, inl, inr, Bool, true, false, ◌||◌, some, List, [], ◌∷◌, arith, nat_eq,
}
use mit_6_5824_lab.Labgob.{
  Field, Kind, struct_kind, elem_kind, map_kind, other_kind, Checks, is_checked, set_checked,
}

-- The types that a type refers to.
abbrev pub field_types : List Field → List ℕ
field_types [] = []
field_types (f ∷ fields) = f.type_of ∷ field_types fields

abbrev pub parts : Kind → List ℕ
parts (struct_kind fields) = field_types fields
parts (elem_kind e) = e ∷ []
parts (map_kind e k) = e ∷ (k ∷ [])
parts other_kind = []

abbrev pub lower_fields : (String → Bool) → List Field → ℕ
lower_fields is_upper [] = 0
lower_fields is_upper (f ∷ fields) =
    if is_upper f.name then lower_fields is_upper fields else lower_fields is_upper fields + 1

abbrev pub lower : (String → Bool) → Kind → ℕ
lower is_upper (struct_kind fields) = lower_fields is_upper fields
lower is_upper _ = 0

-- A sum over the first `n` types that have not been checked.
abbrev pub unseen_sum : (ℕ → ℕ) → ℕ → Checks → ℕ
unseen_sum f zero st = 0
unseen_sum f (suc n) st = if is_checked n st then unseen_sum f n st else f n + unseen_sum f n st

abbrev pub AllBelow : ℕ → List ℕ → Type 0
AllBelow n [] = Unit
AllBelow n (t ∷ ts) = (t < n) × AllBelow n ts

-- Each of the first `n` types refers to such types.
abbrev pub Closed : ℕ → (ℕ → Kind) → Type 0
Closed n kind_of = (t : ℕ) → t < n → AllBelow n (parts (kind_of t))

abbrev pub AllChecked : List ℕ → Checks → Type 0
AllChecked [] st = Unit
AllChecked (t ∷ ts) st = (is_checked t st ≡ true) × AllChecked ts st

pub is_checked-set :
    (t u : ℕ) (st : Checks) → is_checked u (set_checked t st) ≡ (t == u) || is_checked u st
unfolding is_checked
is_checked-set t u st = ground (arith, lookup-insert t u true st.checked)

-- One type is reached from another by going from types to their parts.
pub data Reach (kind_of : ℕ → Kind) (t : ℕ) : ℕ → Type 0 where
  here : Reach kind_of t t
  further :
      {u v : ℕ} (i : ℕ)
      → Reach kind_of t u
      → get_elem? (parts (kind_of u)) i ≡ some v
      → Reach kind_of t v

pub AllChecked-get :
    (ts : List ℕ) (st : Checks) (i : ℕ) {t : ℕ}
    → AllChecked ts st
    → get_elem? ts i ≡ some t
    → is_checked t st ≡ true
AllChecked-get [] st i all at = cc
AllChecked-get (x ∷ ts) st zero {t = t} all at = let same : x ≡ t = cc in rw (sym same) all.0
AllChecked-get (x ∷ ts) st (suc i) all at = AllChecked-get ts st i all.1 at

unseen_sum-past :
    (f : ℕ → ℕ) (n t : ℕ) (st : Checks)
    → n ≤ t
    → unseen_sum f n (set_checked t st) ≡ unseen_sum f n st
unseen_sum-past f zero t st le = refl
unseen_sum-past f (suc n) t st le =
    let rest = unseen_sum-past f n t st (omega arith) in
    let same = is_checked-set t n st in ground arith

pub unseen_sum-set :
    (f : ℕ → ℕ) (n t : ℕ) (st : Checks)
    → t < n
    → is_checked t st ≡ false
    → unseen_sum f n (set_checked t st) + f t ≡ unseen_sum f n st
unseen_sum-set f zero t st lt new = absurd (omega arith)
unseen_sum-set f (suc n) t st lt new = elim (Bool-cases (t == n)) [
  | inl last ↦
      let e : t ≡ n = ground arith in
      let rest = unseen_sum-past f n n st (omega arith) in
      let same = is_checked-set n n st in
      rw e (let new' : is_checked n st ≡ false = rw (sym e) new in ground arith)
  | inr earlier ↦
      let rest = unseen_sum-set f n t st (ground arith) new in
      let same = is_checked-set t n st in ground arith
]

module _ (kind_of : ℕ → Kind) (is_upper : String → Bool) (n : ℕ) where
  -- From one state of the checks to a later one, which has counted `d` fields beside those of the types
  -- that it has checked. These are in `R`.
  pub record Grows (R : ℕ → Type 0) (d : ℕ) (st st' : Checks) : Type 0 where
    pub more : (u : ℕ) → is_checked u st ≡ true → is_checked u st' ≡ true
    pub fewer : unseen_sum (λ u. 1) n st' ≤ unseen_sum (λ u. 1) n st
    pub counted :
        st'.error_count + unseen_sum (λ u. lower is_upper (kind_of u)) n st'
        ≡ st.error_count + unseen_sum (λ u. lower is_upper (kind_of u)) n st + d
    pub closed :
        (u : ℕ)
        → is_checked u st ≡ false
        → is_checked u st' ≡ true
        → AllChecked (parts (kind_of u)) st'
    pub reached : (u : ℕ) → is_checked u st ≡ false → is_checked u st' ≡ true → R u

  pub Grows-refl : (R : ℕ → Type 0) (st : Checks) → Grows R 0 st st
  Grows-refl R st = record {
    more = λ u h. h;
    fewer = omega arith;
    counted = omega arith;
    closed = λ u a b. absurd (ground arith);
    reached = λ u a b. absurd (ground arith);
  }

  pub AllChecked-more :
      (ts : List ℕ) (st st' : Checks)
      → ((u : ℕ) → is_checked u st ≡ true → is_checked u st' ≡ true)
      → AllChecked ts st
      → AllChecked ts st'
  AllChecked-more [] st st' more all = tt
  AllChecked-more (t ∷ ts) st st' more all = (more t all.0, AllChecked-more ts st st' more all.1)

  pub Grows-trans :
      (R : ℕ → Type 0) {d e : ℕ} (a b c : Checks)
      → Grows R d a b
      → Grows R e b c
      → Grows R (d + e) a c
  Grows-trans R a b c g h = record {
    more = λ u x. h.more u (g.more u x);
    fewer = omega (arith, g.fewer, h.fewer);
    counted = omega (arith, g.counted, h.counted);
    closed = λ u new now. elim (Bool-cases (is_checked u b)) [
      | inl early ↦ AllChecked-more (parts (kind_of u)) b c h.more (g.closed u new early)
      | inr late ↦ h.closed u late now
    ];
    reached = λ u new now. elim (Bool-cases (is_checked u b)) [
      | inl early ↦ g.reached u new early
      | inr late ↦ h.reached u late now
    ];
  }

  pub Grows-into :
      (R S : ℕ → Type 0) {d : ℕ} (a b : Checks)
      → ((u : ℕ) → R u → S u)
      → Grows R d a b
      → Grows S d a b
  Grows-into R S a b into g = record {
    more = g.more;
    fewer = g.fewer;
    counted = g.counted;
    closed = g.closed;
    reached = λ u new now. into u (g.reached u new now);
  }
