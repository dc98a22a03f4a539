-- ===== src/Tester/Annotation.antt =====
-- src/tester1/annotation.go: the annotations of a test run, which are shown beside its history. The times that
-- `timestamp` gives are arguments. An annotation is the struct of the porcupine package, of
-- which the fields that the code sets are kept; an end that is not set is 0.
pub mod Intervals
mod Tests
use mit_6_5824_lab.Prelude.{
  if◌then◌else◌, set, lookup, insert, delete, Dict, ℕ, zero, String, Bool, true, false, not, ◌&&◌,
  ◌||◌, Option, none, some, List, [], ◌∷◌, ◌++◌, map, str_eq, string_eq,
}

pub record Mark : Type 0 where
  pub tag : String
  pub start : ℕ
  pub end : ℕ
  pub description : String
  pub details : String
  pub background_color : String

pub record Continuous : Type 0 where
  pub start : ℕ
  pub desp : String
  pub details : String
  pub bgcolor : String

pub record Annotation : Type 0 where
  pub annotations : List Mark
  pub continuous : Dict String Continuous
  pub finalized : Bool

abbrev pub color_info : String
color_info = "#FAFAFA"

abbrev pub color_fault : String
color_fault = "#B3E5FC"

abbrev pub tag_checker : String
tag_checker = "$ Checker"

abbrev pub tag_partition : String
tag_partition = "$ Failure"

abbrev pub tag_info : String
tag_info = "$ Test Info"

-- mkAnnotation
unfoldable pub mk_annotation : Annotation
mk_annotation = record { annotations = []; continuous = []; finalized = false }

-- clear
unfoldable pub clear : Annotation → Annotation
clear an = record an { annotations = []; continuous = []; finalized = false }

-- annotatePointColor
unfoldable pub annotate_point_color :
    ℕ → String → String → String → String → Annotation → Annotation
annotate_point_color t tag desp details bgcolor an = record an {
  annotations =
      an.annotations
      ++ record {
        tag = tag;
        start = t;
        end = 0;
        description = desp;
        details = details;
        background_color = bgcolor;
      }
        ∷ [];
}

-- annotateIntervalColor
unfoldable pub annotate_interval_color :
    ℕ → String → ℕ → String → String → String → Annotation → Annotation
annotate_interval_color t tag start desp details bgcolor an = record an {
  annotations =
      an.annotations
      ++ record {
        tag = tag;
        start = start;
        end = t;
        description = desp;
        details = details;
        background_color = bgcolor;
      }
        ∷ [];
}

-- The annotation that a continuous one becomes when it ends.
abbrev pub concrete : ℕ → String → Continuous → Mark
concrete t tag cont = record {
  tag = tag;
  start = cont.start;
  end = t;
  description = cont.desp;
  details = cont.details;
  background_color = cont.bgcolor;
}

-- annotateContinuousColor
unfoldable pub annotate_continuous_color :
    ℕ → String → String → String → String → Annotation → Annotation
annotate_continuous_color t tag desp details bgcolor an =
    let begun : Continuous = record {
      start = t;
      desp = desp;
      details = details;
      bgcolor = bgcolor;
    } in
    elim (lookup tag an.continuous) [
      | none ↦ record an { continuous = insert tag begun an.continuous }
      | some cont ↦ record an {
        annotations = an.annotations ++ concrete t tag cont ∷ [];
        continuous = insert tag begun an.continuous;
      }
    ]

-- annotateContinuousEnd: on a tag that is not there, `cont` is the zero value.
abbrev pub no_continuous : Continuous
no_continuous = record { start = 0; desp = ""; details = ""; bgcolor = "" }

unfoldable pub annotate_continuous_end : ℕ → String → Annotation → Annotation
annotate_continuous_end t tag an =
    let cont : Continuous = elim (lookup tag an.continuous) [ none ↦ no_continuous | some c ↦ c ] in
    record an {
      annotations = an.annotations ++ concrete t tag cont ∷ [];
      continuous = delete tag an.continuous;
    }

-- finalize: the loop over the continuous annotations, which stay in the map.
unfoldable pub conclude : ℕ → Dict String Continuous → List Mark
conclude t [] = []
conclude t ((tag, cont) ∷ rest) = concrete t tag cont ∷ conclude t rest

unfoldable pub finalize : ℕ → Annotation → Annotation × List Mark
unfolding conclude
finalize t an = (record an { finalized = true }, an.annotations ++ conclude t an.continuous)

-- FinalizeAnnotations, with the two times that it takes
abbrev pub end_mark : ℕ → String → Mark
end_mark t end = record {
  tag = tag_info;
  start = t;
  end = 0;
  description = end;
  details = end;
  background_color = color_info;
}

unfoldable pub finalize_annotations : ℕ → ℕ → String → Annotation → Annotation × List Mark
unfolding finalize
finalize_annotations t t' end an =
    let (an', marks) = finalize t an in (an', marks ++ end_mark t' end ∷ [])

-- cleanup: `enabled` is the value of VIS_ENABLE. Beside the state, the annotations that are written to the
-- file, if it can be opened.
unfoldable pub cleanup :
    ℕ → ℕ → String → Bool → String → Annotation → Annotation × Option (List Mark)
unfolding finalize clear
cleanup t t' enabled failed end an =
    if str_eq enabled "never" || ((not failed && not (str_eq enabled "always")) || an.finalized)
    then (clear an, none)
    else (let (an', marks) = finalize t an in
        (an', elim marks [ [] ↦ none | m ∷ ms ↦ some ((m ∷ ms) ++ end_mark t' end ∷ []) ]))
