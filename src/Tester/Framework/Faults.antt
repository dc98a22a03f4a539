-- ===== src/Tester/Framework/Faults.antt =====
-- When src/tester1/annotation.go shows a fault.
use mit_6_5824_lab.Prelude.{
  if◌then◌else◌, Bool-cases, Option-cases, get_elem?, replicate, set_same, ◌>>=◌, is_some, >>=-inv,
  lookup, lookup-insert, lookup-delete, ℕ, String, ◌≡◌, refl, sym, ap, ◌∙◌, ◌⊎◌, inl, inr, Bool,
  true, false, not, ◌&&◌, Option, none, some, List, [], ◌∷◌, arith, eq_iff, string_eq,
}
use mit_6_5824_lab.Tester.Annotation.{
  Continuous, Annotation, color_fault, tag_partition, clear, annotate_point_color,
  annotate_continuous_color, annotate_continuous_end,
}
use mit_6_5824_lab.Tester.Framework.{
  FrameworkInfo, Framework, mk_framework_info, annotate_test, equal_flags, copy_flags, fault_parts,
  fault_text, annotate_fault, annotate_connection, mark_servers, annotate_marked, annotate_shutdown,
  annotate_restart,
}

-- What a test tells the framework about its servers.
pub data Event : Type 0 where
  connects : List Bool → Event
  shuts_down : List ℕ → Event
  restarts : List ℕ → Event

abbrev pub annotate_event :
    (ℕ → String) → (List ℕ → String) → ℕ → Event → Framework → Option Framework
annotate_event show show_all t (connects connection) fw =
    annotate_connection show show_all t connection fw
annotate_event show show_all t (shuts_down servers) fw =
    annotate_shutdown show show_all t servers fw
annotate_event show show_all t (restarts servers) fw = annotate_restart show show_all t servers fw

abbrev pub annotate_events :
    (ℕ → String) → (List ℕ → String) → List (ℕ × Event) → Framework → Option Framework
annotate_events show show_all [] fw = some fw
annotate_events show show_all ((t, e) ∷ events) fw = do
  fw' ← annotate_event show show_all t e fw
  annotate_events show show_all events fw'

-- No server is cut off or crashed.
abbrev pub all_well : FrameworkInfo → Bool
all_well info =
    equal_flags (replicate info.nservers true) info.connected
    && equal_flags (replicate info.nservers false) info.crashed

-- A fault is shown exactly while there is one.
pub record Shown (fw : Framework) : Type 0 where
  pub faults : is_some (lookup tag_partition fw.annotation.continuous) ≡ not (all_well fw.finfo)

end_clears :
    (t : ℕ) (tag : String) (an : Annotation)
    → lookup tag (annotate_continuous_end t tag an).continuous ≡ none
unfolding annotate_continuous_end
end_clears t tag an = ground (arith, lookup-delete tag tag an.continuous, eq_iff tag tag)

color_shows :
    (t : ℕ) (tag desp details bgcolor : String) (an : Annotation)
    → is_some (lookup tag (annotate_continuous_color t tag desp details bgcolor an).continuous)
      ≡ true
unfolding annotate_continuous_color
color_shows t tag desp details bgcolor an =
    let begun : Continuous = record {
      start = t;
      desp = desp;
      details = details;
      bgcolor = bgcolor;
    } in
    ground (arith, lookup-insert tag tag begun an.continuous, eq_iff tag tag)

-- What annotateFault does on its two branches.
pub annotate_fault_cases :
    (show : ℕ → String) (show_all : List ℕ → String) (t : ℕ) (fw fw' : Framework)
    → annotate_fault show show_all t fw ≡ some fw'
    → ((all_well fw.finfo ≡ true)
        × (fw' ≡ record fw { annotation = annotate_continuous_end t tag_partition fw.annotation }))
      ⊎ ((all_well fw.finfo ≡ false)
          × (text : String) × (fw' ≡ record fw {
            annotation =
                annotate_continuous_color t tag_partition text text color_fault fw.annotation;
          }))
unfolding annotate_fault
annotate_fault_cases show show_all t fw fw' h = elim (Bool-cases (all_well fw.finfo)) [
  | inl well ↦ inl (well, ground (arith, well))
  | inr ill ↦
      let (parts, e, h') =
        >>=-inv (fault_parts show 0 fw.finfo.connected fw.finfo.crashed) _ (rw ill at h) in
      inr (ill, fault_text show_all parts, cc)
]

annotate_fault-Shown :
    (show : ℕ → String) (show_all : List ℕ → String) (t : ℕ) (fw fw' : Framework)
    → annotate_fault show show_all t fw ≡ some fw'
    → Shown fw'
annotate_fault-Shown show show_all t fw fw' h =
    elim (annotate_fault_cases show show_all t fw fw' h) [
      | inl (well, e) ↦
          rw e (record { faults = rw (end_clears t tag_partition fw.annotation) (rw well refl) })
      | inr (ill, text, e) ↦ rw e (record {
        faults = rw (color_shows t tag_partition text text color_fault fw.annotation) (rw ill refl);
      })
    ]

unmarked :
    (down was_down : Bool) → (if down then not was_down else was_down) ≡ false → was_down ≡ down
unmarked true true h = refl
unmarked true false h = sym h
unmarked false was_down h = h

-- If the loop over the servers has changed no mark, the marks are as before.
mark_servers_lem :
    (down : Bool) (servers : List ℕ) (changed : Bool) (crashed crashed' : List Bool)
    (changed' : Bool)
    → mark_servers down servers changed crashed ≡ some (crashed', changed')
    → changed' ≡ false
    → (changed ≡ false) × (crashed' ≡ crashed)
unfolding mark_servers
mark_servers_lem down [] changed crashed crashed' changed' h same = (cc, cc)
mark_servers_lem down (id ∷ servers) changed crashed crashed' changed' h same =
    let (was_down, at, h') = >>=-inv (get_elem? crashed id) _ h in
    let (kept, same') = mark_servers_lem down servers _ _ crashed' changed' h' same in
    (
      ground (arith, kept),
      same' ∙ set_same crashed id (at ∙ ap some (unmarked down was_down (ground (arith, kept)))),
    )

marked-Shown :
    (show : ℕ → String) (show_all : List ℕ → String) (t : ℕ) (down : Bool) (servers : List ℕ)
    (fw fw' : Framework)
    → Shown fw
    → annotate_marked show show_all t (mark_servers down servers false fw.finfo.crashed) fw
      ≡ some fw'
    → Shown fw'
marked-Shown show show_all t down servers fw fw' s h =
    elim (Option-cases (mark_servers down servers false fw.finfo.crashed)) [
      | inl e ↦ absurd (ground (arith, e))
      | inr ((crashed, changed), e) ↦ elim (Bool-cases changed) [
        | inl did ↦
            annotate_fault-Shown show show_all t
              (record fw { finfo = record fw.finfo { crashed = crashed } }) fw'
              (ground (arith, e, did))
        | inr kept_all ↦
            let same =
              (mark_servers_lem down servers false fw.finfo.crashed crashed changed e kept_all).1 in
            let kept : fw' ≡ fw = ground (arith, e, kept_all, same) in rw kept s
      ]
    ]

annotate_event-Shown :
    (show : ℕ → String) (show_all : List ℕ → String) (t : ℕ) (e : Event) (fw fw' : Framework)
    → Shown fw
    → annotate_event show show_all t e fw ≡ some fw'
    → Shown fw'
unfolding annotate_connection annotate_shutdown annotate_restart
annotate_event-Shown show show_all t (connects connection) fw fw' s h =
    elim (Bool-cases (equal_flags fw.finfo.connected connection)) [
      | inl e ↦ let same : fw' ≡ fw = ground (arith, e) in rw same s
      | inr e ↦
          annotate_fault-Shown show show_all t
            (record fw {
              finfo = record fw.finfo { connected = copy_flags fw.finfo.connected connection };
            })
            fw' (rw e at h)
    ]
annotate_event-Shown show show_all t (shuts_down servers) fw fw' s h =
    marked-Shown show show_all t true servers fw fw' s h
annotate_event-Shown show show_all t (restarts servers) fw fw' s h =
    marked-Shown show show_all t false servers fw fw' s h

equal_flags_refl : (bs : List Bool) → equal_flags bs bs ≡ true
unfolding equal_flags
equal_flags_refl [] = refl
equal_flags_refl (true ∷ bs) = equal_flags_refl bs
equal_flags_refl (false ∷ bs) = equal_flags_refl bs

pub annotate_events-Shown :
    (show : ℕ → String) (show_all : List ℕ → String) (events : List (ℕ × Event))
    (fw fw' : Framework)
    → Shown fw
    → annotate_events show show_all events fw ≡ some fw'
    → Shown fw'
annotate_events-Shown show show_all [] fw fw' s h = let same : fw' ≡ fw = cc in rw same s
annotate_events-Shown show show_all ((t, e) ∷ events) fw fw' s h =
    let (fw1, one, rest) = >>=-inv (annotate_event show show_all t e fw) _ h in
    annotate_events-Shown show show_all events fw1 fw'
      (annotate_event-Shown show show_all t e fw fw1 s one) rest

pub fresh-Shown :
    (t nservers : ℕ) (details : String) (an : Annotation)
    → Shown (annotate_test t details nservers an)
unfolding annotate_test mk_framework_info clear annotate_point_color lookup
fresh-Shown t nservers details an = record {
  faults = ground (
    arith,
    equal_flags_refl (replicate nservers true),
    equal_flags_refl (replicate nservers false),
  );
}
