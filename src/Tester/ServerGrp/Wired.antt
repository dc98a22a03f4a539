-- ===== src/Tester/ServerGrp/Wired.antt =====
-- Which ends of a group of src/tester1/group.go are enabled after connect and disconnect.
use mit_6_5824_lab.Prelude.{
  ◌==◌, if◌then◌else◌, Bool-cases, length, get_elem?, get_or, ℕ, zero, suc, ◌<◌, String, ◌≡◌, refl,
  inl, inr, Bool, true, false, ◌&&◌, ◌||◌, Option, some, List, [], ◌∷◌, arith, str_eq, eq_iff,
}
use mit_6_5824_lab.Labrpc.Network.{Network, is_enabled, enable, is_enabled-enable}
use mit_6_5824_lab.Tester.Server.{connect_ends, disconnect_ends}
use mit_6_5824_lab.Tester.ServerGrp.{ServerGrp, end_name}

-- The group has `n` servers, and `nm a b` names the end of server `a` to server `b`.
pub record Wired (n : ℕ) (nm : ℕ → ℕ → String) (sg : ServerGrp) : Type 0 where
  pub size : length sg.srvs ≡ n
  pub flags : length sg.connected ≡ n
  pub named : (a b : ℕ) → a < n → b < n → end_name sg.srvs a b ≡ some (nm a b)

-- The names of the ends of servers below `n` differ.
abbrev pub Distinct : ℕ → (ℕ → ℕ → String) → Type 0
Distinct n nm = (a b c d : ℕ) → a < n → b < n → c < n → d < n → nm a b ≡ nm c d → (a ≡ c) × (b ≡ d)

abbrev pub AllBelow : ℕ → List ℕ → Type 0
AllBelow n [] = Unit
AllBelow n (x ∷ xs) = (x < n) × AllBelow n xs

abbrev pub is_in : ℕ → List ℕ → Bool
is_in a [] = false
is_in a (x ∷ xs) = x == a || is_in a xs

-- The end from `a` to `b` is enabled.
abbrev pub linked : (ℕ → ℕ → String) → ServerGrp → ℕ → ℕ → Bool
linked nm sg a b = is_enabled (nm a b) sg.net

abbrev pub is_on : ServerGrp → ℕ → Bool
is_on sg a = get_or sg.connected a false

-- `e` is the name of the end of some server of the list for which `on` holds.
abbrev pub hits : (ℕ → Bool) → (ℕ → String) → List ℕ → String → Bool
hits on f [] e = false
hits on f (j ∷ to) e = (on j && str_eq (f j) e) || hits on f to e

get_elem?-get_or :
    (xs : List Bool) (j : ℕ) → j < length xs → get_elem? xs j ≡ some (get_or xs j false)
get_elem?-get_or [] j h = elim h [ ]
get_elem?-get_or (x ∷ xs) zero h = refl
get_elem?-get_or (x ∷ xs) (suc j) h = get_elem?-get_or xs j (omega arith)

pub connect_ends_lem :
    (n : ℕ) (f : ℕ → String) (name : ℕ → Option String) (on : List Bool) (to : List ℕ)
    (net : Network)
    → ((j : ℕ) → j < n → name j ≡ some (f j))
    → length on ≡ n
    → AllBelow n to
    → (net' : Network) × (connect_ends name on to net ≡ some net')
      × ((e : String)
          → is_enabled e net'
            ≡ (if hits (λ j. get_or on j false) f to e then true else is_enabled e net))
unfolding connect_ends
connect_ends_lem n f name on [] net named size below = (net, refl, λ e. refl)
connect_ends_lem n f name on (j ∷ to) net named size (lt, below) =
    let flag = get_elem?-get_or on j (omega (arith, size)) in
    let there = named j lt in
    elim (Bool-cases (get_or on j false)) [
      | inl yes_ ↦
          let (net', run, effect) =
            connect_ends_lem n f name on to (enable (f j) true net) named size below in
          (net', ground arith, λ e. ground (arith, effect e, is_enabled-enable e (f j) true net))
      | inr no_ ↦
          let (net', run, effect) = connect_ends_lem n f name on to net named size below in
          (net', ground arith, λ e. ground (arith, effect e))
    ]

pub disconnect_ends_lem :
    (n : ℕ) (f : ℕ → String) (name : ℕ → Option String) (from : List ℕ) (net : Network)
    → ((j : ℕ) → j < n → name j ≡ some (f j))
    → AllBelow n from
    → (net' : Network) × (disconnect_ends name from net ≡ some net')
      × ((e : String)
          → is_enabled e net' ≡ (if hits (λ _. true) f from e then false else is_enabled e net))
unfolding disconnect_ends
disconnect_ends_lem n f name [] net named below = (net, refl, λ e. refl)
disconnect_ends_lem n f name (j ∷ from) net named (lt, below) =
    let there = named j lt in
    let (net', run, effect) =
      disconnect_ends_lem n f name from (enable (f j) false net) named below in
    (net', ground arith, λ e. ground (arith, effect e, is_enabled-enable e (f j) false net))

module _ (n : ℕ) (nm : ℕ → ℕ → String) (distinct : Distinct n nm) (on : ℕ → Bool) where
  pub hits_out :
      (i a b : ℕ) (to : List ℕ)
      → i < n
      → a < n
      → b < n
      → AllBelow n to
      → hits on (nm i) to (nm a b) ≡ ((a == i) && is_in b to && on b)
  hits_out i a b [] hi ha hb below = ground arith
  hits_out i a b (j ∷ to) hi ha hb (hj, below) = ground (
    arith,
    eq_iff (nm i j) (nm a b),
    distinct i j a b hi hj ha hb,
    hits_out i a b to hi ha hb below,
  )

  pub hits_in :
      (i a b : ℕ) (to : List ℕ)
      → i < n
      → a < n
      → b < n
      → AllBelow n to
      → hits on (λ j. nm j i) to (nm a b) ≡ ((b == i) && is_in a to && on a)
  hits_in i a b [] hi ha hb below = ground arith
  hits_in i a b (j ∷ to) hi ha hb (hj, below) = ground (
    arith,
    eq_iff (nm j i) (nm a b),
    distinct j i a b hj hi ha hb,
    hits_in i a b to hi ha hb below,
  )
