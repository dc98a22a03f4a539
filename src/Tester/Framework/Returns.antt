-- ===== src/Tester/Framework/Returns.antt =====
-- The annotations of faults in src/tester1/annotation.go return if the numbers of the servers are in range.
use mit_6_5824_lab.Prelude.{
  if◌then◌else◌, Bool-cases, length, get_elem?, set, length-set, replicate, length-replicate,
  get_elem?_of_lt, >>=-some, is_some, lookup, ℕ, zero, suc, ◌+◌, ◌<◌, String, ◌≡◌, refl, sym, ap,
  ◌∙◌, inl, inr, Bool, true, false, not, ◌||◌, some, List, [], ◌∷◌, arith, string_eq,
}
use mit_6_5824_lab.Tester.Annotation.{
  Annotation, color_fault, tag_partition, annotate_continuous_color, annotate_continuous_end,
}
use mit_6_5824_lab.Tester.Framework.{
  FrameworkInfo, Framework, mk_framework_info, annotate_test, equal_flags, copy_flags, fault_parts,
  fault_text, annotate_fault, annotate_connection, mark_servers, annotate_marked, annotate_shutdown,
  annotate_restart,
}
use mit_6_5824_lab.Tester.Framework.Faults.{
  Event, connects, shuts_down, restarts, annotate_event, annotate_events, all_well,
  annotate_events-Shown, fresh-Shown,
}
use mit_6_5824_lab.Tester.Framework.Flags.{all_up, Flags, annotate_events-Flags, equal_flags-all_up}

-- The flags of all servers are there.
abbrev Sized : FrameworkInfo → Type 0
Sized info = (length info.connected ≡ info.nservers) × (length info.crashed ≡ info.nservers)

abbrev pub AllBelow : ℕ → List ℕ → Type 0
AllBelow n [] = Unit
AllBelow n (i ∷ is) = (i < n) × AllBelow n is

abbrev EventInRange : ℕ → Event → Type 0
EventInRange n (connects connection) = Unit
EventInRange n (shuts_down servers) = AllBelow n servers
EventInRange n (restarts servers) = AllBelow n servers

abbrev pub EventsInRange : ℕ → List (ℕ × Event) → Type 0
EventsInRange n [] = Unit
EventsInRange n ((t, e) ∷ events) = EventInRange n e × EventsInRange n events

fault_parts-some :
    (show : ℕ → String) (id : ℕ) (connected crashed : List Bool)
    → length connected ≡ length crashed
    → (parts : String × List ℕ × List ℕ) × (fault_parts show id connected crashed ≡ some parts)
unfolding fault_parts
fault_parts-some show id [] crashed len = (_, refl)
fault_parts-some show id (c ∷ connected) [] len = absurd (omega arith)
fault_parts-some show id (c ∷ connected) (down ∷ crashed) len =
    let (parts, e) = fault_parts-some show (id + 1) connected crashed (omega arith) in
    (_, >>=-some _ _ e refl)

annotate_fault-some :
    (show : ℕ → String) (show_all : List ℕ → String) (t : ℕ) (fw : Framework)
    → Sized fw.finfo
    → (fw' : Framework) × (annotate_fault show show_all t fw ≡ some fw') × (fw'.finfo ≡ fw.finfo)
unfolding annotate_fault
annotate_fault-some show show_all t fw (conn, crash) =
    let (parts, e) =
      fault_parts-some show 0 fw.finfo.connected fw.finfo.crashed (conn ∙ sym crash) in
    elim (Bool-cases (all_well fw.finfo)) [
      | inl well ↦ (
        record fw { annotation = annotate_continuous_end t tag_partition fw.annotation },
        rw well refl,
        refl,
      )
      | inr ill ↦
          let text = fault_text show_all parts in
          (
            record fw {
              annotation =
                  annotate_continuous_color t tag_partition text text color_fault fw.annotation;
            },
            rw ill (>>=-some _ _ e refl),
            refl,
          )
    ]

length-copy_flags : (bs cs : List Bool) → length (copy_flags bs cs) ≡ length bs
unfolding copy_flags
length-copy_flags [] cs = refl
length-copy_flags (b ∷ bs) [] = refl
length-copy_flags (b ∷ bs) (c ∷ cs) = omega (arith, length-copy_flags bs cs)

mark_servers-some :
    (down : Bool) (servers : List ℕ) (changed : Bool) (crashed : List Bool) (n : ℕ)
    → length crashed ≡ n
    → AllBelow n servers
    → (crashed' : List Bool) × (changed' : Bool) × (mark_servers down servers changed crashed
        ≡ some (crashed', changed'))
      × (length crashed' ≡ n)
unfolding mark_servers
mark_servers-some down [] changed crashed n len range = (crashed, changed, refl, len)
mark_servers-some down (id ∷ servers) changed crashed n len range =
    let (was_down, at) = get_elem?_of_lt crashed id (omega (arith, range.0)) in
    let (crashed', changed', e, len') =
      mark_servers-some down servers (changed || (if down then not was_down else was_down))
        (set crashed id down) n (length-set crashed id down ∙ len) range.1 in
    (crashed', changed', >>=-some _ _ at e, len')

marked-some :
    (show : ℕ → String) (show_all : List ℕ → String) (t : ℕ) (down : Bool) (servers : List ℕ)
    (fw : Framework)
    → Sized fw.finfo
    → AllBelow fw.finfo.nservers servers
    → (fw' : Framework) × (annotate_marked show show_all t
          (mark_servers down servers false fw.finfo.crashed)
          fw
        ≡ some fw')
      × Sized fw'.finfo
      × (fw'.finfo.nservers ≡ fw.finfo.nservers)
marked-some show show_all t down servers fw (conn, crash) range =
    let (crashed, changed, e, len) =
      mark_servers-some down servers false fw.finfo.crashed fw.finfo.nservers crash range in
    let fw1 : Framework = record fw { finfo = record fw.finfo { crashed = crashed } } in
    let (fw2, fault, info) = annotate_fault-some show show_all t fw1 (conn, len) in
    elim (Bool-cases changed) [
      | inl did ↦ (fw2, ground (arith, e, did, fault), rw info (conn, len), rw info refl)
      | inr kept ↦ (fw1, ground (arith, e, kept), (conn, len), refl)
    ]

annotate_event-some :
    (show : ℕ → String) (show_all : List ℕ → String) (t : ℕ) (e : Event) (fw : Framework)
    → Sized fw.finfo
    → EventInRange fw.finfo.nservers e
    → (fw' : Framework) × (annotate_event show show_all t e fw ≡ some fw')
      × Sized fw'.finfo
      × (fw'.finfo.nservers ≡ fw.finfo.nservers)
unfolding annotate_connection annotate_shutdown annotate_restart
annotate_event-some show show_all t (connects connection) fw (conn, crash) range =
    let fw1 : Framework = record fw {
      finfo = record fw.finfo { connected = copy_flags fw.finfo.connected connection };
    } in
    let (fw2, fault, info) =
      annotate_fault-some show show_all t fw1
        (length-copy_flags fw.finfo.connected connection ∙ conn, crash) in
    elim (Bool-cases (equal_flags fw.finfo.connected connection)) [
      | inl same ↦ (fw, ground (arith, same), (conn, crash), refl)
      | inr new ↦ (
        fw2,
        ground (arith, new, fault),
        rw info (length-copy_flags fw.finfo.connected connection ∙ conn, crash),
        rw info refl,
      )
    ]
annotate_event-some show show_all t (shuts_down servers) fw sized range =
    marked-some show show_all t true servers fw sized range
annotate_event-some show show_all t (restarts servers) fw sized range =
    marked-some show show_all t false servers fw sized range

annotate_events-some :
    (show : ℕ → String) (show_all : List ℕ → String) (n : ℕ) (events : List (ℕ × Event))
    (fw : Framework)
    → Sized fw.finfo
    → fw.finfo.nservers ≡ n
    → EventsInRange n events
    → (fw' : Framework) × (annotate_events show show_all events fw ≡ some fw')
      × Sized fw'.finfo
      × (fw'.finfo.nservers ≡ n)
annotate_events-some show show_all n [] fw sized all range = (fw, refl, sized, all)
annotate_events-some show show_all n ((t, e) ∷ events) fw sized all range =
    let (fw1, one, sized1, same) =
      annotate_event-some show show_all t e fw sized (rw all range.0) in
    let (fw2, rest, sized2, all2) =
      annotate_events-some show show_all n events fw1 sized1 (same ∙ all) range.1 in
    (fw2, >>=-some _ _ one rest, sized2, all2)

get_elem?-replicate : (n : ℕ) (b : Bool) (i : ℕ) → i < n → get_elem? (replicate n b) i ≡ some b
get_elem?-replicate zero b i lt = absurd (omega arith)
get_elem?-replicate (suc n) b zero lt = refl
get_elem?-replicate (suc n) b (suc i) lt = get_elem?-replicate n b i (omega arith)

fresh-Flags :
    (t nservers : ℕ) (details : String) (an : Annotation) (i : ℕ)
    → i < nservers
    → Flags i false true (annotate_test t details nservers an).finfo
unfolding annotate_test mk_framework_info
fresh-Flags t nservers details an i lt =
    (get_elem?-replicate nservers false i lt, get_elem?-replicate nservers true i lt)

-- From the start of a test, after any changes of the connections, shutdowns and restarts of which the
-- framework is told, with the numbers of the servers in range: no call panics, and a fault is
-- shown exactly if, after these events, some server is down or not connected.
pub annotate_test-all_up :
    (show : ℕ → String) (show_all : List ℕ → String) (t nservers : ℕ) (details : String)
    (an : Annotation) (events : List (ℕ × Event))
    → EventsInRange nservers events
    → (fw : Framework) × (annotate_events show show_all events (annotate_test t details nservers an)
        ≡ some fw)
      × (is_some (lookup tag_partition fw.annotation.continuous) ≡ not (all_up events 0 nservers))
unfolding annotate_test mk_framework_info
annotate_test-all_up show show_all t nservers details an events range =
    let start = annotate_test t details nservers an in
    let (fw, run, sized, size) =
      annotate_events-some show show_all nservers events start
        (length-replicate nservers true, length-replicate nservers false) refl range in
    let shown =
      annotate_events-Shown show show_all events start fw (fresh-Shown t nservers details an) run in
    let (conn, crash) : Sized fw.finfo = sized in
    let well : all_well fw.finfo ≡ all_up events 0 nservers = rw size (
      equal_flags-all_up events 0 nservers fw.finfo.connected fw.finfo.crashed (conn ∙ size)
        (crash ∙ size)
        (λ j lt.
          let e : 0 + j ≡ j = omega arith in
          rw e (
            annotate_events-Flags show show_all events start fw j false true run
              (fresh-Flags t nservers details an j lt)))) in
    (fw, run, shown.faults ∙ ap not well)
