-- ===== src/Tester/Annotation/Intervals.antt =====
-- The intervals of the continuous annotations of src/tester1/annotation.go.
use mathlib.Core.Path.{subst}
use mit_6_5824_lab.Prelude.{
  if◌then◌else◌, Bool-cases, Option-cases, lookup, insert, Dict, lookup-insert, ℕ, String, ◌≡◌,
  refl, ◌∙◌, inl, inr, true, false, Option, none, some, List, [], ◌∷◌, ◌++◌, arith, str_eq, eq_iff,
  string_eq,
}
use mit_6_5824_lab.Tester.Annotation.{
  Mark, Continuous, Annotation, mk_annotation, concrete, annotate_continuous_color, conclude,
  finalize,
}
use mathlib.Core.List.{append-nil, append_assoc}

-- A continuous annotation as a test gives it.
pub record Given : Type 0 where
  pub time : ℕ
  pub tag : String
  pub desp : String
  pub details : String
  pub bgcolor : String

abbrev pub annotate_all : List Given → Annotation → Annotation
annotate_all [] an = an
annotate_all (g ∷ gs) an =
    annotate_all gs (annotate_continuous_color g.time g.tag g.desp g.details g.bgcolor an)

-- The annotations of one tag.
abbrev pub marks_of : String → List Mark → List Mark
marks_of tag [] = []
marks_of tag (m ∷ ms) = if str_eq m.tag tag then m ∷ marks_of tag ms else marks_of tag ms

abbrev pub given_for : String → List Given → List Given
given_for tag [] = []
given_for tag (g ∷ gs) = if str_eq g.tag tag then g ∷ given_for tag gs else given_for tag gs

-- What is expected: each annotation of a tag lasts until the next one, and the last until the end.
abbrev pub interval : ℕ → Given → Mark
interval until g = record {
  tag = g.tag;
  start = g.time;
  end = until;
  description = g.desp;
  details = g.details;
  background_color = g.bgcolor;
}

abbrev pub intervals : ℕ → List Given → List Mark
intervals t [] = []
intervals t (g ∷ []) = interval t g ∷ []
intervals t (g ∷ h ∷ gs) = interval h.time g ∷ intervals t (h ∷ gs)

marks_of-append :
    (tag : String) (ms ns : List Mark)
    → marks_of tag (ms ++ ns) ≡ marks_of tag ms ++ marks_of tag ns
marks_of-append tag [] ns = refl
marks_of-append tag (m ∷ ms) ns = ground (arith, marks_of-append tag ms ns)

-- No key stands in the map twice.
abbrev Unique : Dict String Continuous → Type 0
Unique [] = Unit
Unique ((k, c) ∷ m) = (lookup k m ≡ none) × Unique m

insert-Unique :
    (k : String) (c : Continuous) (m : Dict String Continuous) → Unique m → Unique (insert k c m)
unfolding insert lookup
insert-Unique k c [] u = (refl, tt)
insert-Unique k c ((j, d) ∷ m) u = elim (Bool-cases (str_eq j k)) [
  | inl e ↦ let same : j ≡ k = (eq_iff j k).0 e in rw e (cc, u.1)
  | inr e ↦
      rw e (
        ground (arith, lookup-insert k j c m, eq_iff k j, eq_iff j k, u.0),
        insert-Unique k c m u.1,
      )
]

conclude-missing :
    (t : ℕ) (tag : String) (m : Dict String Continuous)
    → lookup tag m ≡ none
    → marks_of tag (conclude t m) ≡ []
unfolding conclude lookup
conclude-missing t tag [] h = refl
conclude-missing t tag ((j, d) ∷ m) h = ground (arith, conclude-missing t tag m)

conclude-lookup :
    (t : ℕ) (tag : String) (m : Dict String Continuous)
    → Unique m
    → marks_of tag (conclude t m)
      ≡ elim (lookup tag m) [ none ↦ [] | some c ↦ concrete t tag c ∷ [] ]
unfolding conclude lookup
conclude-lookup t tag [] u = refl
conclude-lookup t tag ((j, d) ∷ m) u = elim (Bool-cases (str_eq j tag)) [
  | inl e ↦
      let same : j ≡ tag = (eq_iff j tag).0 e in
      let gone = conclude-missing t tag m cc in ground (arith, gone)
  | inr e ↦ ground (arith, conclude-lookup t tag m u.1)
]

abbrev given_of : String → Continuous → Given
given_of tag c = record {
  time = c.start;
  tag = tag;
  desp = c.desp;
  details = c.details;
  bgcolor = c.bgcolor;
}

-- The continuous annotation of a tag that has not ended, and what follows.
abbrev ongoing : ℕ → String → Option Continuous → List Given → List Mark
ongoing t tag none gs = intervals t gs
ongoing t tag (some c) gs = intervals t (given_of tag c ∷ gs)

abbrev begun : Given → Continuous
begun g = record { start = g.time; desp = g.desp; details = g.details; bgcolor = g.bgcolor }

abbrev color : Given → Annotation → Annotation
color g an = annotate_continuous_color g.time g.tag g.desp g.details g.bgcolor an

-- What annotateContinuousColor does to the map and to the list.
color-continuous :
    (g : Given) (an : Annotation) → (color g an).continuous ≡ insert g.tag (begun g) an.continuous
unfolding annotate_continuous_color
color-continuous g an = elim (Option-cases (lookup g.tag an.continuous)) [
  | inl e ↦ ground (arith, e)
  | inr (c, e) ↦ ground (arith, e)
]

color-annotations :
    (g : Given) (an : Annotation) (o : Option Continuous)
    → lookup g.tag an.continuous ≡ o
    → (color g an).annotations
      ≡ an.annotations ++ elim o [ none ↦ [] | some c ↦ concrete g.time g.tag c ∷ [] ]
unfolding annotate_continuous_color
color-annotations g an none e = ground (arith, e, append-nil an.annotations)
color-annotations g an (some c) e = ground (arith, e)

lookup-begun :
    (g : Given) (tag : String) (m : Dict String Continuous)
    → lookup tag (insert g.tag (begun g) m)
      ≡ (if str_eq g.tag tag then some (begun g) else lookup tag m)
lookup-begun g tag m = ground (arith, lookup-insert g.tag tag (begun g) m)

same_tag : (tag : String) → str_eq tag tag ≡ true
same_tag tag = (eq_iff tag tag).1 refl

-- The step for the tag itself, and for another one.
step_same :
    (t : ℕ) (g : Given) (gs : List Given) (an : Annotation) (o : Option Continuous)
    → lookup g.tag an.continuous ≡ o
    → marks_of g.tag (color g an).annotations
        ++ ongoing t g.tag (lookup g.tag (insert g.tag (begun g) an.continuous)) gs
      ≡ marks_of g.tag an.annotations ++ ongoing t g.tag o (g ∷ gs)
step_same t g gs an none e =
    rw (color-annotations g an none e) rw (lookup-begun g g.tag an.continuous)
      (rw (same_tag g.tag) (rw (append-nil an.annotations) refl))
step_same t g gs an (some c) e =
    rw (color-annotations g an (some c) e) rw (lookup-begun g g.tag an.continuous) (
      rw (same_tag g.tag) (
        rw (marks_of-append g.tag an.annotations (concrete g.time g.tag c ∷ []))
          (rw (same_tag g.tag) (append_assoc (marks_of g.tag an.annotations) _ _))))

step_other :
    (t : ℕ) (tag : String) (g : Given) (gs : List Given) (an : Annotation) (o : Option Continuous)
    → str_eq g.tag tag ≡ false
    → lookup g.tag an.continuous ≡ o
    → marks_of tag (color g an).annotations
        ++ ongoing t tag (lookup tag (insert g.tag (begun g) an.continuous)) gs
      ≡ marks_of tag an.annotations ++ ongoing t tag (lookup tag an.continuous) gs
step_other t tag g gs an none d e =
    rw (color-annotations g an none e)
      (rw (append-nil an.annotations) (rw (lookup-begun g tag an.continuous) (rw d refl)))
step_other t tag g gs an (some c) d e = rw (color-annotations g an (some c) e) (
    rw (marks_of-append tag an.annotations (concrete g.time g.tag c ∷ [])) (
      rw (lookup-begun g tag an.continuous)
        (rw d (rw (append-nil (marks_of tag an.annotations)) refl))))

at_end :
    (t : ℕ) (tag : String) (o : Option Continuous)
    → elim o [ none ↦ [] | some c ↦ concrete t tag c ∷ [] ] ≡ ongoing t tag o []
at_end t tag none = refl
at_end t tag (some c) = refl

from_here :
    (t : ℕ) (tag : String) (gs : List Given) (an : Annotation)
    → Unique an.continuous
    → marks_of tag (finalize t (annotate_all gs an)).1
      ≡ marks_of tag an.annotations ++ ongoing t tag (lookup tag an.continuous) (given_for tag gs)
unfolding finalize
from_here t tag [] an u =
    rw (marks_of-append tag an.annotations (conclude t an.continuous)) (
      rw (conclude-lookup t tag an.continuous u)
        (rw (at_end t tag (lookup tag an.continuous)) refl))
from_here t tag (g ∷ gs) an u =
    from_here t tag gs (color g an)
      (rw (color-continuous g an) (insert-Unique g.tag (begun g) an.continuous u))
    ∙ rw (color-continuous g an) (elim (Bool-cases (str_eq g.tag tag)) [
      | inl e ↦ rw e (
          subst
            (λ x.
              marks_of x (color g an).annotations
                ++ ongoing t x (lookup x (insert g.tag (begun g) an.continuous)) (given_for x gs)
              ≡ marks_of x an.annotations
                ++ ongoing t x (lookup x an.continuous) (g ∷ given_for x gs))
            ((eq_iff g.tag tag).0 e)
            (step_same t g (given_for g.tag gs) an (lookup g.tag an.continuous) refl))
      | inr e ↦ rw e (step_other t tag g (given_for tag gs) an (lookup g.tag an.continuous) e refl)
    ])

-- After any continuous annotations of any tags, finalize gives for each tag one interval for each of its
-- annotations, in their order and with their texts: each begins at the time of its annotation and lasts until the
-- next one of the tag, and the last until the end.
pub finalize-intervals :
    (t : ℕ) (tag : String) (gs : List Given)
    → marks_of tag (finalize t (annotate_all gs mk_annotation)).1 ≡ intervals t (given_for tag gs)
unfolding mk_annotation lookup
finalize-intervals t tag gs = from_here t tag gs mk_annotation tt
