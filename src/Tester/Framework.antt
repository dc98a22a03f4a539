-- ===== src/Tester/Framework.antt =====
-- src/tester1/annotation.go: what the test framework annotates of servers that are cut off or crashed and of its
-- checks. The state is the two global variables after AnnotateTest, before which `finfo` is nil.
-- `none` as a result is an index out of range. `show` and `show_all` stand for the format %v of an
-- int and of a slice.
pub mod Faults
pub mod Flags
pub mod Returns
mod Tests
use mit_6_5824_lab.Tester.ServerGrp.{upto, partition}
use Prim.Native.String.{◌++◌ as push_str}
use mit_6_5824_lab.Prelude.{
  ◌==◌, if◌then◌else◌, get_elem?, set, replicate, ◌>>=◌, ℕ, ◌+◌, ◌/◌, String, Bool, true, false,
  not, ◌&&◌, ◌||◌, Option, none, some, List, [], ◌∷◌, map,
}
use mit_6_5824_lab.Tester.Annotation.{
  Annotation, color_info, color_fault, tag_checker, tag_partition, tag_info, clear,
  annotate_point_color, annotate_interval_color, annotate_continuous_color, annotate_continuous_end,
}

pub record CheckerBegin : Type 0 where
  pub ts : ℕ
  pub details : String

pub record FrameworkInfo : Type 0 where
  pub nservers : ℕ
  pub connected : List Bool
  pub crashed : List Bool
  pub ckbegin : CheckerBegin

-- `finfo` and `annotation`
pub record Framework : Type 0 where
  pub finfo : FrameworkInfo
  pub annotation : Annotation

-- mkFrameworkInfo
unfoldable pub mk_framework_info : ℕ → FrameworkInfo
mk_framework_info nservers = record {
  nservers = nservers;
  connected = replicate nservers true;
  crashed = replicate nservers false;
  ckbegin = record { ts = 0; details = "" };
}

-- AnnotateTest: `details` is the text with the number of servers.
unfoldable pub annotate_test : ℕ → String → ℕ → Annotation → Framework
unfolding mk_framework_info clear annotate_point_color
annotate_test t details nservers an = record {
  finfo = mk_framework_info nservers;
  annotation = annotate_point_color t tag_info details details color_info (clear an);
}

-- AnnotateCheckerBegin
unfoldable pub annotate_checker_begin : ℕ → String → Framework → Framework
annotate_checker_begin t details fw = record fw {
  finfo = record fw.finfo { ckbegin = record { ts = t; details = details } };
}

-- AnnotateCheckerEnd: the time in its copy of `ckbegin` is reset, which nothing reads.
unfoldable pub annotate_checker_end : ℕ → String → String → String → Framework → Framework
unfolding annotate_point_color annotate_interval_color
annotate_checker_end t desp details color fw =
    let ckbegin = fw.finfo.ckbegin in
    if ckbegin.ts == 0
    then record fw {
      annotation = annotate_point_color t tag_checker desp details color fw.annotation;
    }
    else record fw {
      annotation =
          annotate_interval_color t tag_checker ckbegin.ts desp
            (push_str ckbegin.details (push_str ": " details)) color fw.annotation;
    }

-- slices.Equal
unfoldable pub equal_flags : List Bool → List Bool → Bool
equal_flags [] [] = true
equal_flags (b ∷ bs) (c ∷ cs) =
    let rest = equal_flags bs cs in if b then c && rest else not c && rest
equal_flags _ _ = false

-- copy
unfoldable pub copy_flags : List Bool → List Bool → List Bool
copy_flags [] source = []
copy_flags (b ∷ bs) [] = b ∷ bs
copy_flags (b ∷ bs) (c ∷ cs) = c ∷ copy_flags bs cs

-- The loop of annotateFault, from server `id` on: the text of the partitions of one server, the connected
-- servers and the crashed ones.
unfoldable pub fault_parts :
    (ℕ → String) → ℕ → List Bool → List Bool → Option (String × List ℕ × List ℕ)
fault_parts show id [] crashed = some ("", [], [])
fault_parts show id (c ∷ connected) [] = none
fault_parts show id (c ∷ connected) (down ∷ crashed) = do
  (text, conn, crashes) ← fault_parts show (id + 1) connected crashed
  some (
      if down
      then (text, conn, id ∷ crashes)
      else if c
      then (text, id ∷ conn, crashes)
      else (push_str "[" (push_str (show id) (push_str "] " text)), conn, crashes))

abbrev pub fault_text : (List ℕ → String) → String × List ℕ × List ℕ → String
fault_text show_all (text, conn, crashes) = push_str "partition = " (
    push_str text (
      push_str (elim conn [ [] ↦ "" | i ∷ is ↦ show_all (i ∷ is) ])
        (elim crashes [ [] ↦ "" | i ∷ is ↦ push_str " / crash = " (show_all (i ∷ is)) ])))

-- annotateFault
unfoldable pub annotate_fault : (ℕ → String) → (List ℕ → String) → ℕ → Framework → Option Framework
unfolding equal_flags annotate_continuous_end fault_parts annotate_continuous_color
annotate_fault show show_all t fw =
    let info = fw.finfo in
    if equal_flags (replicate info.nservers true) info.connected
      && equal_flags (replicate info.nservers false) info.crashed
    then some (record fw { annotation = annotate_continuous_end t tag_partition fw.annotation })
    else do
      parts ← fault_parts show 0 info.connected info.crashed
      let text = fault_text show_all parts
      some (record fw {
        annotation = annotate_continuous_color t tag_partition text text color_fault fw.annotation;
      })

-- AnnotateConnection
unfoldable pub annotate_connection :
    (ℕ → String) → (List ℕ → String) → ℕ → List Bool → Framework → Option Framework
unfolding annotate_fault equal_flags copy_flags
annotate_connection show show_all t connection fw =
    if equal_flags fw.finfo.connected connection
    then some fw
    else annotate_fault show show_all t (record fw {
      finfo = record fw.finfo { connected = copy_flags fw.finfo.connected connection };
    })

-- AnnotateTwoPartitions
unfoldable pub annotate_two_partitions :
    (List ℕ → String) → ℕ → List ℕ → List ℕ → Framework → Framework
unfolding annotate_continuous_color
annotate_two_partitions show_all t p1 p2 fw =
    let text = push_str "partition = " (push_str (show_all p1) (push_str " " (show_all p2))) in
    record fw {
      annotation = annotate_continuous_color t tag_partition text text color_fault fw.annotation;
    }

-- AnnotateClearFailure
unfoldable pub annotate_clear_failure : ℕ → Framework → Framework
unfolding annotate_continuous_end
annotate_clear_failure t fw = record {
  finfo = record fw.finfo {
    crashed = map (λ _. false) fw.finfo.crashed;
    connected = map (λ _. true) fw.finfo.connected;
  };
  annotation = annotate_continuous_end t tag_partition fw.annotation;
}

-- The loops of AnnotateShutdown, which marks servers as crashed, and of AnnotateRestart, which marks
-- them as not; beside the marks, `changed`.
unfoldable pub mark_servers : Bool → List ℕ → Bool → List Bool → Option (List Bool × Bool)
mark_servers down [] changed crashed = some (crashed, changed)
mark_servers down (id ∷ servers) changed crashed = do
  was_down ← get_elem? crashed id
  mark_servers down servers (changed || (if down then not was_down else was_down))
      (set crashed id down)

-- AnnotateShutdown and AnnotateRestart
abbrev pub annotate_marked :
    (ℕ → String) → (List ℕ → String) → ℕ → Option (List Bool × Bool) → Framework → Option Framework
annotate_marked show show_all t none fw = none
annotate_marked show show_all t (some (crashed, changed)) fw =
    let fw' : Framework = record fw { finfo = record fw.finfo { crashed = crashed } } in
    if not changed then some fw' else annotate_fault show show_all t fw'

unfoldable pub annotate_shutdown :
    (ℕ → String) → (List ℕ → String) → ℕ → List ℕ → Framework → Option Framework
unfolding mark_servers annotate_fault
annotate_shutdown show show_all t servers fw =
    annotate_marked show show_all t (mark_servers true servers false fw.finfo.crashed) fw

unfoldable pub annotate_restart :
    (ℕ → String) → (List ℕ → String) → ℕ → List ℕ → Framework → Option Framework
unfolding mark_servers annotate_fault
annotate_restart show show_all t servers fw =
    annotate_marked show show_all t (mark_servers false servers false fw.finfo.crashed) fw

-- AnnotateShutdownAll and AnnotateRestartAll
unfoldable pub annotate_shutdown_all :
    (ℕ → String) → (List ℕ → String) → ℕ → Framework → Option Framework
unfolding annotate_shutdown upto
annotate_shutdown_all show show_all t fw =
    annotate_shutdown show show_all t (upto 0 fw.finfo.nservers) fw

unfoldable pub annotate_restart_all :
    (ℕ → String) → (List ℕ → String) → ℕ → Framework → Option Framework
unfolding annotate_restart upto
annotate_restart_all show show_all t fw =
    annotate_restart show show_all t (upto 0 fw.finfo.nservers) fw
