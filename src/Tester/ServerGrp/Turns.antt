-- ===== src/Tester/ServerGrp/Turns.antt =====
-- connect and disconnect of one server of src/tester1/group.go, and one round of Partition.
use mit_6_5824_lab.Prelude.{
  ◌==◌, if◌then◌else◌, length, get_elem?, set, length-set, get_or, get_elem?_of_lt, ◌>>=◌, ℕ, zero,
  suc, ◌<◌, String, ◌≡◌, refl, ◌∙◌, Bool, true, false, ◌&&◌, ◌||◌, some, List, [], ◌∷◌, arith,
}
use mit_6_5824_lab.Labrpc.Network.{Network, is_enabled}
use mit_6_5824_lab.Tester.Server.{
  Server, connect_ends, disconnect_ends, srv_connect, srv_disconnect,
}
use mit_6_5824_lab.Tester.ServerGrp.{ServerGrp, end_name, connect_one, disconnect_one, isolate}
use mit_6_5824_lab.Tester.ServerGrp.Wired.{
  Wired, Distinct, AllBelow, is_in, linked, is_on, hits, connect_ends_lem, disconnect_ends_lem,
  hits_out, hits_in,
}

get_or-set :
    (xs : List Bool) (i a : ℕ) (v : Bool)
    → i < length xs
    → get_or (set xs i v) a false ≡ (if a == i then v else get_or xs a false)
get_or-set [] i a v h = elim h [ ]
get_or-set (x ∷ xs) zero zero v h = refl
get_or-set (x ∷ xs) zero (suc a) v h = ground arith
get_or-set (x ∷ xs) (suc i) zero v h = ground arith
get_or-set (x ∷ xs) (suc i) (suc a) v h = ground (arith, get_or-set xs i a v)

-- The effect of an operation: from `sg`, it leaves the flags `on` and the links `link`.
pub record Leaves (n : ℕ) (nm : ℕ → ℕ → String) (on : ℕ → Bool) (link : ℕ → ℕ → Bool)
    (sg : ServerGrp) : Type 0 where
  pub wired : Wired n nm sg
  pub flags_are : (a : ℕ) → a < n → is_on sg a ≡ on a
  pub links_are : (a b : ℕ) → a < n → b < n → linked nm sg a b ≡ link a b

-- The flags after server `i` was connected or disconnected.
abbrev pub flag_at : ℕ → Bool → (ℕ → Bool) → ℕ → Bool
flag_at i v on a = if a == i then v else on a

abbrev pub link_to : ℕ → List ℕ → (ℕ → Bool) → (ℕ → ℕ → Bool) → ℕ → ℕ → Bool
link_to i to on link a b =
    if ((a == i) && is_in b to && on b) || ((b == i) && is_in a to && on a) then true else link a b

abbrev pub cut_from : ℕ → List ℕ → (ℕ → ℕ → Bool) → ℕ → ℕ → Bool
cut_from i from link a b =
    if ((a == i) && is_in b from) || ((b == i) && is_in a from) then false else link a b

connect_one-some :
    (i : ℕ) (to : List ℕ) (sg : ServerGrp) {s : Server} {net1 net2 : Network}
    → get_elem? sg.srvs i ≡ some s
    → connect_ends (get_elem? s.end_names) (set sg.connected i true) to sg.net ≡ some net1
    → connect_ends (λ j. end_name sg.srvs j i) (set sg.connected i true) to net1 ≡ some net2
    → connect_one i to sg ≡ some (record sg { net = net2; connected = set sg.connected i true })
unfolding connect_one srv_connect
connect_one-some i to sg e run1 run2 = ground arith

disconnect_one-some :
    (i : ℕ) (from : List ℕ) (sg : ServerGrp) {s : Server} {net1 net2 : Network}
    → get_elem? sg.srvs i ≡ some s
    → disconnect_ends (get_elem? s.end_names) from sg.net ≡ some net1
    → disconnect_ends (λ j. end_name sg.srvs j i) from net1 ≡ some net2
    → disconnect_one i from sg
      ≡ some (record sg { net = net2; connected = set sg.connected i false })
unfolding disconnect_one srv_disconnect
disconnect_one-some i from sg e run1 run2 = ground arith

module _ (n : ℕ) (nm : ℕ → ℕ → String) (distinct : Distinct n nm) (i a b : ℕ) (to : List ℕ) where
  connect_links :
      (on old : ℕ → Bool) (net1 net2 : Network) (sg : ServerGrp)
      → i < n
      → a < n
      → b < n
      → AllBelow n to
      → on a ≡ flag_at i true old a
      → on b ≡ flag_at i true old b
      → is_enabled (nm a b) net1
        ≡ (if hits on (nm i) to (nm a b) then true else is_enabled (nm a b) sg.net)
      → is_enabled (nm a b) net2
        ≡ (if hits on (λ j. nm j i) to (nm a b) then true else is_enabled (nm a b) net1)
      → is_enabled (nm a b) net2 ≡ link_to i to (flag_at i true old) (linked nm sg) a b
  connect_links on old net1 net2 sg hi ha hb below flag_a flag_b effect1 effect2 =
      let out = hits_out n nm distinct on i a b to hi ha hb below in
      let back = hits_in n nm distinct on i a b to hi ha hb below in ground arith

  disconnect_links :
      (net1 net2 : Network) (sg : ServerGrp)
      → i < n
      → a < n
      → b < n
      → AllBelow n to
      → is_enabled (nm a b) net1
        ≡ (if hits (λ _. true) (nm i) to (nm a b) then false else is_enabled (nm a b) sg.net)
      → is_enabled (nm a b) net2
        ≡ (if hits (λ _. true) (λ j. nm j i) to (nm a b) then false else is_enabled (nm a b) net1)
      → is_enabled (nm a b) net2 ≡ cut_from i to (linked nm sg) a b
  disconnect_links net1 net2 sg hi ha hb below effect1 effect2 =
      let out = hits_out n nm distinct (λ _. true) i a b to hi ha hb below in
      let back = hits_in n nm distinct (λ _. true) i a b to hi ha hb below in ground arith

module _ (n : ℕ) (nm : ℕ → ℕ → String) (distinct : Distinct n nm) where
  connect_one_lem :
      (i : ℕ) (to : List ℕ) (sg : ServerGrp)
      → i < n
      → AllBelow n to
      → Wired n nm sg
      → (sg' : ServerGrp) × (connect_one i to sg ≡ some sg')
        × Leaves n nm
            (flag_at i true (is_on sg))
            (link_to i to (flag_at i true (is_on sg)) (linked nm sg))
            sg'
  connect_one_lem i to sg hi below w =
      let (s, e) = get_elem?_of_lt sg.srvs i (omega (arith, w.size)) in
      let on = set sg.connected i true in
      let size : length on ≡ n = length-set sg.connected i true ∙ w.flags in
      let (net1, run1, effect1) =
        connect_ends_lem n (nm i) (get_elem? s.end_names) on to sg.net
          (λ j hj. ground (arith, w.named i j hi hj)) size below in
      let (net2, run2, effect2) =
        connect_ends_lem n (λ j. nm j i) (λ j. end_name sg.srvs j i) on to net1
          (λ j hj. w.named j i hj hi) size below in
      let flag = λ (a : ℕ). get_or-set sg.connected i a true (omega (arith, w.flags)) in
      (
        record sg { net = net2; connected = on },
        connect_one-some i to sg e run1 run2,
        record {
          wired = record { size = w.size; flags = size; named = w.named };
          flags_are = λ a ha. flag a;
          links_are = λ a b ha hb.
              connect_links n nm distinct i a b to (λ j. get_or on j false) (is_on sg) net1 net2 sg
                hi ha hb below (flag a) (flag b) (effect1 (nm a b)) (effect2 (nm a b));
        },
      )

  disconnect_one_lem :
      (i : ℕ) (from : List ℕ) (sg : ServerGrp)
      → i < n
      → AllBelow n from
      → Wired n nm sg
      → (sg' : ServerGrp) × (disconnect_one i from sg ≡ some sg')
        × Leaves n nm (flag_at i false (is_on sg)) (cut_from i from (linked nm sg)) sg'
  disconnect_one_lem i from sg hi below w =
      let (s, e) = get_elem?_of_lt sg.srvs i (omega (arith, w.size)) in
      let size : length (set sg.connected i false) ≡ n =
        length-set sg.connected i false ∙ w.flags in
      let (net1, run1, effect1) =
        disconnect_ends_lem n (nm i) (get_elem? s.end_names) from sg.net
          (λ j hj. ground (arith, w.named i j hi hj)) below in
      let (net2, run2, effect2) =
        disconnect_ends_lem n (λ j. nm j i) (λ j. end_name sg.srvs j i) from net1
          (λ j hj. w.named j i hj hi) below in
      (
        record sg { net = net2; connected = set sg.connected i false },
        disconnect_one-some i from sg e run1 run2,
        record {
          wired = record { size = w.size; flags = size; named = w.named };
          flags_are = λ a ha. get_or-set sg.connected i a false (omega (arith, w.flags));
          links_are = λ a b ha hb.
              disconnect_links n nm distinct i a b from net1 net2 sg hi ha hb below
                (effect1 (nm a b)) (effect2 (nm a b));
        },
      )

  -- One round of a loop of Partition.
  pub record Turned (i : ℕ) (mine others : List ℕ) (sg sg' : ServerGrp) : Type 0 where
    pub wired : Wired n nm sg'
    pub flags_are : (a : ℕ) → a < n → is_on sg' a ≡ flag_at i true (is_on sg) a
    pub links_are :
        (a b : ℕ)
        → a < n
        → b < n
        → linked nm sg' a b ≡ link_to i mine (is_on sg') (cut_from i others (linked nm sg)) a b

  pub turn_lem :
      (i : ℕ) (mine others rest : List ℕ) (sg : ServerGrp)
      → i < n
      → AllBelow n mine
      → AllBelow n others
      → Wired n nm sg
      → (sg' : ServerGrp) × (isolate mine others (i ∷ rest) sg ≡ isolate mine others rest sg')
        × Turned i mine others sg sg'
  unfolding isolate
  turn_lem i mine others rest sg hi below_mine below_others w =
      let (sg1, run1, left1) = disconnect_one_lem i others sg hi below_others w in
      let (sg2, run2, left2) = connect_one_lem i mine sg1 hi below_mine left1.wired in
      (
        sg2,
        rw (run1, run2, ◌>>=◌),
        record {
          wired = left2.wired;
          flags_are = λ a ha. ground (arith, left2.flags_are a ha, left1.flags_are a ha);
          links_are = λ a b ha hb. ground (
            arith,
            left2.links_are a b ha hb,
            left2.flags_are a ha,
            left2.flags_are b hb,
            left1.links_are a b ha hb,
          );
        },
      )
