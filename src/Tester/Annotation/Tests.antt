-- ===== src/Tester/Annotation/Tests.antt =====
-- Runs of src/tester1/annotation.go.
use mit_6_5824_lab.Prelude.{lookup, ℕ, String, ◌≡◌, refl, false, none, List, [], ◌∷◌}
use mit_6_5824_lab.Tester.Annotation.{
  color_fault, mk_annotation, clear, concrete, annotate_continuous_end, finalize, cleanup,
}
use mit_6_5824_lab.Tester.Annotation.Intervals.{
  Given, annotate_all, marks_of, given_for, intervals, finalize-intervals,
}

abbrev given : ℕ → String → String → Given
given t tag text = record {
  time = t;
  tag = tag;
  desp = text;
  details = text;
  bgcolor = color_fault;
}

abbrev three : List Given
three = given 3 "a" "x" ∷ given 4 "b" "y" ∷ given 5 "a" "z" ∷ []

finalize-intervals_example :
    marks_of "a" (finalize 9 (annotate_all three mk_annotation)).1
    ≡ intervals 9 (given_for "a" three)
finalize-intervals_example = finalize-intervals 9 "a" three

-- The end of a continuous annotation that was never begun is recorded, from time 0 on.
end_of_none :
    (annotate_continuous_end 7 "a" mk_annotation).annotations
    ≡ concrete 7 "a" (record { start = 0; desp = ""; details = ""; bgcolor = "" }) ∷ []
unfolding annotate_continuous_end mk_annotation lookup
end_of_none = refl

-- A test that has passed writes no file, unless the environment asks for it.
cleaned : cleanup 1 2 "" false "end" mk_annotation ≡ (mk_annotation, none)
unfolding cleanup clear mk_annotation
cleaned = refl
