-- ===== src/ShardCfg/Analyze.antt =====
-- What analyze of src/shardkv1/shardcfg/shardcfg.go finds.
use mit_6_5824_lab.Prelude.{
  if◌then◌else◌, length, pos, negsuc, int_beq, int_beq_iff, lookup, insert, Dict, lookup-insert, ℕ,
  ◌+◌, ◌≤◌, ◌<◌, String, ◌≡◌, refl, sym, ap, ◌∙◌, Bool, true, false, ◌||◌, List, [], ◌∷◌, arith,
  int_eq,
}
use mit_6_5824_lab.ShardCfg.Config.{
  Tgid, ShardConfig, keys, count_of, tally, Analysis, consider, consider_all, analyze,
}

-- The shards of a group.
unfoldable pub count : Tgid → List Tgid → ℕ
count g [] = 0
count g (x ∷ shards) = (if int_beq x g then 1 else 0) + count g shards

unfoldable pub member : Tgid → List Tgid → Bool
member g [] = false
member g (x ∷ gs) = int_beq x g || member g gs

count_tally :
    (g : Tgid) (counts : Dict Tgid ℕ) (shards : List Tgid)
    → count_of g (tally counts shards) ≡ count_of g counts + count g shards
unfolding tally count
count_tally g counts [] = omega arith
count_tally g counts (x ∷ shards) = ground (
  arith,
  count_tally g (insert x (count_of x counts + 1) counts) shards,
  lookup-insert x g (count_of x counts + 1) counts,
  int_beq_iff x g,
)

pub count_tally_nil :
    (g : Tgid) (shards : List Tgid) → count_of g (tally [] shards) ≡ count g shards
unfolding lookup
count_tally_nil g shards = omega (arith, count_tally g [] shards)

pub count-le : (g : Tgid) (shards : List Tgid) → count g shards ≤ length shards
unfolding count
count-le g [] = omega arith
count-le g (x ∷ shards) = ground (arith, count-le g shards)

-- The most and the least loaded of the groups `gs`, with their loads.
pub record Analyzed (load : Tgid → ℕ) (gs : List Tgid) (a : Analysis) : Type 0 where
  pub most : a.mn ≡ pos (load a.mg)
  pub most_in : member a.mg gs ≡ true
  pub least : a.ln ≡ pos (load a.lg)
  pub least_in : member a.lg gs ≡ true
  pub highest : (g : Tgid) → member g gs ≡ true → load g ≤ load a.mg
  pub lowest : (g : Tgid) → member g gs ≡ true → load a.lg ≤ load g

-- The variables of analyze before its last loop.
abbrev none_yet : Analysis
none_yet = record { mg = negsuc 0; mn = negsuc 0; lg = negsuc 0; ln = pos 257 }

module _ (counts : Dict Tgid ℕ) where
  abbrev load : Tgid → ℕ
  load g = count_of g counts

  consider-Analyzed :
      (gs : List Tgid) (g : Tgid) (a : Analysis)
      → Analyzed load gs a
      → Analyzed load (g ∷ gs) (consider counts a g)
  unfolding consider member
  consider-Analyzed gs g a h = record {
    most = ground (arith, h.most, h.least);
    most_in = ground (arith, h.most, h.least, h.most_in, int_beq_iff g g);
    least = ground (arith, h.most, h.least);
    least_in = ground (arith, h.most, h.least, h.least_in, int_beq_iff g g);
    highest = λ x m. ground (arith, h.most, h.least, h.highest x, int_beq_iff g x);
    lowest = λ x m. ground (arith, h.most, h.least, h.lowest x, int_beq_iff g x);
  }

  first-Analyzed : (g : Tgid) → load g < 257 → Analyzed load (g ∷ []) (consider counts none_yet g)
  unfolding consider member
  first-Analyzed g small = record {
    most = ground arith;
    most_in = ground (arith, int_beq_iff g g);
    least = ground arith;
    least_in = ground (arith, int_beq_iff g g);
    highest = λ x m. ground (arith, int_beq_iff g x);
    lowest = λ x m. ground (arith, int_beq_iff g x);
  }

abbrev onto : List Tgid → List Tgid → List Tgid
onto [] seen = seen
onto (g ∷ gs) seen = onto gs (g ∷ seen)

member-onto :
    (x : Tgid) (gs seen : List Tgid) → member x (onto gs seen) ≡ (member x gs || member x seen)
unfolding member
member-onto x [] seen = refl
member-onto x (g ∷ gs) seen = ground (arith, member-onto x gs (g ∷ seen))

consider_all-Analyzed :
    (counts : Dict Tgid ℕ) (gs seen : List Tgid) (a : Analysis)
    → Analyzed (λ g. count_of g counts) seen a
    → Analyzed (λ g. count_of g counts) (onto gs seen) (consider_all counts a gs)
unfolding consider_all
consider_all-Analyzed counts [] seen a h = h
consider_all-Analyzed counts (g ∷ gs) seen a h =
    consider_all-Analyzed counts gs (g ∷ seen) (consider counts a g)
      (consider-Analyzed counts seen g a h)

-- The same groups in another order, and the same loads.
Analyzed-same :
    (load load' : Tgid → ℕ) (gs hs : List Tgid) (a : Analysis)
    → ((g : Tgid) → load g ≡ load' g)
    → ((g : Tgid) → member g gs ≡ member g hs)
    → Analyzed load gs a
    → Analyzed load' hs a
Analyzed-same load load' gs hs a l m h = record {
  most = h.most ∙ ap pos (l a.mg);
  most_in = sym (m a.mg) ∙ h.most_in;
  least = h.least ∙ ap pos (l a.lg);
  least_in = sym (m a.lg) ∙ h.least_in;
  highest = λ x p. omega (arith, h.highest x (m x ∙ p), l x, l a.mg);
  lowest = λ x p. omega (arith, h.lowest x (m x ∙ p), l x, l a.lg);
}

-- `sort` orders a list without losing or adding an element.
abbrev pub KeepsMembers : (List Tgid → List Tgid) → Type 0
KeepsMembers sort = (g : Tgid) (gs : List Tgid) → member g (sort gs) ≡ member g gs

abbrev is_empty {ℓ} : {A : Type ℓ} → List A → Bool
is_empty [] = true
is_empty (_ ∷ _) = false

first_key :
    (groups : Dict Tgid (List String))
    → 0 < length groups
    → (k : Tgid) × (member k (keys groups) ≡ true)
unfolding member
first_key [] h = elim h [ ]
first_key ((k, _) ∷ groups) h = (k, ground (arith, int_beq_iff k k))

-- With at least one group and fewer than 257 shards, analyze finds a group with the most shards, a
-- group with the fewest, and their numbers of shards.
pub analyze-Analyzed :
    (sort : List Tgid → List Tgid) (c : ShardConfig)
    → KeepsMembers sort
    → 0 < length c.groups
    → length c.shards < 257
    → Analyzed (λ g. count g c.shards) (keys c.groups) (analyze sort c)
unfolding analyze
analyze-Analyzed sort c keeps some_group small =
    go (sort (keys c.groups)) (λ g. keeps g (keys c.groups))
  where
    go :
        (gs : List Tgid)
        → ((g : Tgid) → member g gs ≡ member g (keys c.groups))
        → Analyzed
            (λ g. count g c.shards)
            (keys c.groups)
            (consider_all (tally [] c.shards) none_yet gs)
    go [] same =
        let (k, there) = first_key c.groups some_group in let gone = same k in unfold member in cc
    go (g ∷ gs) same =
        Analyzed-same (λ x. count_of x (tally [] c.shards)) (λ x. count x c.shards)
          (onto gs (g ∷ [])) (keys c.groups) (consider_all (tally [] c.shards) none_yet (g ∷ gs))
          (λ x. count_tally_nil x c.shards)
          (λ x. member-onto x gs (g ∷ []) ∙ unfold member in ground (arith, same x))
          (consider_all-Analyzed (tally [] c.shards) gs (g ∷ [])
            (consider (tally [] c.shards) none_yet g)
            (first-Analyzed (tally [] c.shards) g
              (omega (arith, count_tally_nil g c.shards, count-le g c.shards))))
