-- ===== src/Tester/Framework/Tests.antt =====
-- Runs of the framework's annotations of src/tester1/annotation.go.
use mit_6_5824_lab.Prelude.{
  ◌==◌, if◌then◌else◌, length, is_some, lookup, insert, ℕ, String, ◌≡◌, refl, true, false, not,
  some, List, [], ◌∷◌, map, arith, string_eq,
}
use mit_6_5824_lab.Tester.Annotation.{
  tag_partition, mk_annotation, clear, annotate_point_color, annotate_interval_color,
  annotate_continuous_color,
}
use mit_6_5824_lab.Tester.Framework.{
  Framework, mk_framework_info, annotate_test, annotate_checker_begin, annotate_checker_end,
  equal_flags, fault_parts, annotate_fault, mark_servers, annotate_shutdown,
}
use mit_6_5824_lab.Tester.Framework.Faults.{Event, connects, shuts_down, restarts, annotate_events}
use mit_6_5824_lab.Tester.Framework.Flags.{all_up}
use mathlib.Core.Option
use mit_6_5824_lab.Tester.Framework.Returns.{EventsInRange, annotate_test-all_up}

abbrev show_id : ℕ → String
show_id n = if n == 0 then "0" else if n == 1 then "1" else "2"

abbrev show_ids : List ℕ → String
show_ids is = if length is == 1 then "[1]" else "[0 2]"

abbrev events : List (ℕ × Event)
events =
    (5, shuts_down (1 ∷ []))
    ∷ (6, connects (true ∷ false ∷ true ∷ []))
    ∷ (7, restarts (1 ∷ []))
    ∷ []

in_range : EventsInRange 3 events
in_range = ((omega arith, tt), (tt, ((omega arith, tt), tt)))

annotate_test-all_up_example :
    (fw : Framework) × (annotate_events show_id show_ids events
        (annotate_test 1 "t" 3 mk_annotation)
      ≡ some fw)
    × (is_some (lookup tag_partition fw.annotation.continuous) ≡ not (all_up events 0 3))
annotate_test-all_up_example =
    annotate_test-all_up show_id show_ids 1 3 "t" mk_annotation events in_range

abbrev checked : Framework
checked = annotate_checker_begin 4 "c" (annotate_test 1 "t" 3 mk_annotation)

-- The second end of a check is taken to belong to the first beginning too.
ends_twice :
    map
      (λ m. m.start)
      (annotate_checker_end 9 "x" "d" ""
        (annotate_checker_end 6 "x" "d" "" checked)).annotation.annotations
    ≡ 1 ∷ 4 ∷ 4 ∷ []
unfolding annotate_checker_end annotate_checker_begin annotate_test mk_framework_info
    annotate_point_color annotate_interval_color clear mk_annotation
ends_twice = refl

shutdown_shown :
    Option.map
      (λ fw. map (λ c. c.1.desp) fw.annotation.continuous)
      (annotate_shutdown show_id show_ids 5 (1 ∷ []) (annotate_test 1 "t" 3 mk_annotation))
    ≡ some ("partition = [0 2] / crash = [1]" ∷ [])
unfolding annotate_shutdown annotate_fault mark_servers fault_parts equal_flags
    annotate_continuous_color annotate_test mk_framework_info annotate_point_color clear
    mk_annotation lookup insert
shutdown_shown = refl
