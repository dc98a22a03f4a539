-- ===== src/Tester/ServerGrp/Partitions.antt =====
-- What Partition of src/tester1/group.go leaves.
use mit_6_5824_lab.Prelude.{
  if◌then◌else◌, ◌>>=◌, ℕ, ◌<◌, String, ◌≡◌, refl, ◌∙◌, Bool, true, false, ◌&&◌, ◌||◌, some, List,
  [], ◌∷◌, arith,
}
use mit_6_5824_lab.Tester.ServerGrp.{ServerGrp, isolate, partition}
use mit_6_5824_lab.Tester.ServerGrp.Wired.{Wired, Distinct, AllBelow, is_in, linked, is_on}
use mit_6_5824_lab.Tester.ServerGrp.Turns.{Turned, turn_lem}

-- The pair has a server of `rest` and one of `others`.
abbrev pub crosses : List ℕ → List ℕ → ℕ → ℕ → Bool
crosses rest others a b = (is_in a rest && is_in b others) || (is_in b rest && is_in a others)

-- What the loop over `rest` of one part, `mine`, does to a group.
record Isolates (n : ℕ) (nm : ℕ → ℕ → String) (mine others rest : List ℕ) (sg sg' : ServerGrp)
    : Type 0 where
  wired : Wired n nm sg'
  stays : (a : ℕ) → a < n → is_on sg a ≡ true → is_on sg' a ≡ true
  outside :
      (a b : ℕ)
      → a < n
      → b < n
      → (is_in a mine && is_in b mine) ≡ false
      → linked nm sg' a b ≡ (if crosses rest others a b then false else linked nm sg a b)
  kept :
      (a b : ℕ)
      → a < n
      → b < n
      → (is_in a mine && is_in b mine) ≡ true
      → linked nm sg a b ≡ true
      → linked nm sg' a b ≡ true
  meets :
      (a b : ℕ)
      → a < n
      → b < n
      → is_in a mine ≡ true
      → is_on sg a ≡ true
      → is_in b rest ≡ true
      → (linked nm sg' a b ≡ true) × (linked nm sg' b a ≡ true)
  both :
      (a b : ℕ)
      → a < n
      → b < n
      → is_in a rest ≡ true
      → is_in b rest ≡ true
      → linked nm sg' a b ≡ true

-- No server is in both parts.
abbrev pub Apart : List ℕ → List ℕ → Type 0
Apart mine others = (a : ℕ) → is_in a mine ≡ true → is_in a others ≡ false

abbrev Within : List ℕ → List ℕ → Type 0
Within rest mine = (a : ℕ) → is_in a rest ≡ true → is_in a mine ≡ true

isolate-nil : (mine others : List ℕ) (sg : ServerGrp) → isolate mine others [] sg ≡ some sg
unfolding isolate
isolate-nil mine others sg = refl

module _ (n : ℕ) (nm : ℕ → ℕ → String) (distinct : Distinct n nm) (mine others : List ℕ)
    (below_mine : AllBelow n mine) (below_others : AllBelow n others)
    (apart : Apart mine others) where
  module _ (i : ℕ) (rest : List ℕ) (sg sg1 sg2 : ServerGrp) (hi : i < n)
      (here : is_in i mine ≡ true) (within : Within rest mine)
      (t : Turned n nm distinct i mine others sg sg1)
      (r : Isolates n nm mine others rest sg1 sg2) where
    -- A server that is connected before the round is linked with `i` after the loop.
    meets_here :
        (a : ℕ)
        → a < n
        → is_in a mine ≡ true
        → is_on sg1 a ≡ true
        → (linked nm sg2 a i ≡ true) × (linked nm sg2 i a ≡ true)
    meets_here a ha mine_a on =
        let at_i = t.flags_are i hi in
        let out = t.links_are i a hi ha in
        let back = t.links_are a i ha hi in
        (
          r.kept a i ha hi (ground arith) (ground arith),
          r.kept i a hi ha (ground arith) (ground arith),
        )

    Isolates-next : Isolates n nm mine others (i ∷ rest) sg sg2
    Isolates-next = record {
      wired = r.wired;
      stays = λ a ha on. ground (arith, r.stays a ha, t.flags_are a ha);
      outside = λ a b ha hb out.
          ground
            (arith, r.outside a b ha hb out, t.links_are a b ha hb, apart i here, apart a, apart b);
      kept = λ a b ha hb ins old.
          ground (arith, r.kept a b ha hb ins, t.links_are a b ha hb, apart a, apart b);
      meets = λ a b ha hb mine_a on rest_b.
          let on1 : is_on sg1 a ≡ true = ground (arith, t.flags_are a ha) in
          ground (arith, meets_here a ha mine_a on1, r.meets a b ha hb mine_a on1);
      both = λ a b ha hb rest_a rest_b.
          let on_i : is_on sg1 i ≡ true = ground (arith, t.flags_are i hi) in
          ground (
            arith,
            meets_here i hi here on_i,
            r.meets i a hi ha here on_i,
            r.meets i b hi hb here on_i,
            r.both a b ha hb,
          );
    }

  isolate-Isolates :
      (rest : List ℕ) (sg : ServerGrp)
      → AllBelow n rest
      → Within rest mine
      → Wired n nm sg
      → (sg' : ServerGrp) × (isolate mine others rest sg ≡ some sg')
        × Isolates n nm mine others rest sg sg'
  isolate-Isolates [] sg below within w = (
    sg,
    isolate-nil mine others sg,
    record {
      wired = w;
      stays = λ a ha on. on;
      outside = λ a b ha hb out. ground arith;
      kept = λ a b ha hb ins old. old;
      meets = λ a b ha hb mine_a on rest_b. cc;
      both = λ a b ha hb rest_a rest_b. cc;
    },
  )
  isolate-Isolates (i ∷ rest) sg (hi, below) within w =
      let (sg1, step, t) =
        turn_lem n nm distinct i mine others rest sg hi below_mine below_others w in
      let here = within i (ground arith) in
      let inner = λ (a : ℕ) (p : is_in a rest ≡ true). within a (ground arith) in
      let (sg2, run, r) = isolate-Isolates rest sg1 below inner t.wired in
      (sg2, step ∙ run, Isolates-next i rest sg sg1 sg2 hi here inner t r)

-- Partition of a group in which all ends have different names, into two parts without a common
-- server, does not end the process. Afterwards two servers of one part are linked in both
-- directions, no server of one part is linked with one of the other, and all other pairs of servers
-- are linked as before.
pub partition_lem :
    (n : ℕ) (nm : ℕ → ℕ → String) (p1 p2 : List ℕ) (sg : ServerGrp)
    → Distinct n nm
    → AllBelow n p1
    → AllBelow n p2
    → Apart p1 p2
    → Wired n nm sg
    → (sg' : ServerGrp) × (partition p1 p2 sg ≡ some sg')
      × ((a b : ℕ)
          → a < n
          → b < n
          → linked nm sg' a b ≡ (
              if (is_in a p1 && is_in b p1) || (is_in a p2 && is_in b p2)
              then true
              else if crosses p1 p2 a b
              then false
              else linked nm sg a b))
unfolding partition
partition_lem n nm p1 p2 sg distinct below1 below2 apart w =
    let back : Apart p2 p1 = λ a in2. ground (arith, apart a) in
    let (sg1, run1, r1) =
      isolate-Isolates n nm distinct p1 p2 below1 below2 apart p1 sg below1 (λ a p. p) w in
    let (sg2, run2, r2) =
      isolate-Isolates n nm distinct p2 p1 below2 below1 back p2 sg1 below2 (λ a p. p) r1.wired in
    (
      sg2,
      rw (run1, ◌>>=◌) run2,
      λ a b ha hb. ground (
        arith,
        r1.both a b ha hb,
        r1.outside a b ha hb,
        r2.both a b ha hb,
        r2.outside a b ha hb,
        apart a,
        apart b,
      ),
    )
