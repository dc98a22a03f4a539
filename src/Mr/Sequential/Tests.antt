-- ===== src/Mr/Sequential/Tests.antt =====
-- A word count over two files.
use mathlib.Core.List.{Permᴰ}
use mathlib.Core.List.Permᴰ as Permute
use mathlib.Core.Option
use mit_6_5824_lab.Prelude.{
  ◌==◌, if◌then◌else◌, Bool-cases, lookup, ℕ, String, ◌≡◌, refl, inl, inr, none, some, List, [],
  ◌∷◌, str_eq, string_eq,
}
use mit_6_5824_lab.Mr.Worker.{KeyValue}
use mit_6_5824_lab.Mr.Sequential.{
  str_less, less, map_files, group_end, group_values, group_loop, mr_sequential, wc_words, wc_map,
  wc_reduce,
}
use mit_6_5824_lab.Mr.Sequential.Groups.{values_for, Ascending, found, Once}
use mit_6_5824_lab.Mr.Sequential.Words.{
  all_records, mr_sequential_lem, count_word, all_words, wc_lem,
}

-- The texts of the files are split at their bars.
abbrev two_words : String → List String
two_words s = if str_eq s "b|a" then "b" ∷ ("a" ∷ []) else "b" ∷ []

abbrev text_of : String → String
text_of f = if str_eq f "f" then "b|a" else "b"

abbrev numeral : ℕ → String
numeral n = if n == 1 then "1" else "2"

-- The records of the two files, sorted.
abbrev insert_kv : KeyValue → List KeyValue → List KeyValue
insert_kv kv [] = kv ∷ []
insert_kv kv (x ∷ xs) =
    let later = insert_kv kv xs in if str_less x.key kv.key then x ∷ later else kv ∷ (x ∷ xs)

abbrev sort_kv : List KeyValue → List KeyValue
sort_kv [] = []
sort_kv (kv ∷ kvs) = insert_kv kv (sort_kv kvs)

insert_kv-perm : (kv : KeyValue) (xs : List KeyValue) → Permᴰ (kv ∷ xs) (insert_kv kv xs)
insert_kv-perm kv [] = Permute.refl (kv ∷ [])
insert_kv-perm kv (x ∷ xs) = elim (Bool-cases (str_less x.key kv.key)) [
  | inl less ↦ rw less (Permᴰ.trans (Permᴰ.swap refl refl) (Permᴰ.cons refl (insert_kv-perm kv xs)))
  | inr more ↦ rw more (Permute.refl (kv ∷ (x ∷ xs)))
]

sort_kv-perm : (kvs : List KeyValue) → Permᴰ kvs (sort_kv kvs)
sort_kv-perm [] = Permᴰ.nil
sort_kv-perm (kv ∷ kvs) =
    Permᴰ.trans (Permᴰ.cons refl (sort_kv-perm kvs)) (insert_kv-perm kv (sort_kv kvs))

abbrev files : List String
files = "f" ∷ ("g" ∷ [])

in_order : Ascending (sort_kv (all_records (wc_map two_words) text_of files))
unfolding wc_map wc_words less
in_order = ((refl, (refl, tt)), ((refl, tt), (tt, tt)))

count_run :
    mr_sequential sort_kv (wc_map two_words) (wc_reduce numeral) (λ f. some (text_of f)) files
    ≡ some (("a", "1") ∷ (("b", "2") ∷ []))
unfolding mr_sequential wc_map wc_words wc_reduce map_files group_loop group_end group_values
count_run = refl

unread_file : mr_sequential sort_kv (wc_map two_words) (wc_reduce numeral) (λ f. none) files ≡ none
unfolding mr_sequential map_files group_loop
unread_file = refl

mr_sequential_lem_example :
    (lines : List (String × String)) × (mr_sequential sort_kv
        (wc_map two_words)
        (wc_reduce numeral)
        (λ f. some (text_of f))
        files
      ≡ some lines)
    × Once lines
    × ((w : String)
        → (vs : List String) × Permᴰ
            (values_for w (all_records (wc_map two_words) text_of files))
            vs
          × (lookup w lines ≡ Option.map (wc_reduce numeral w) (found vs)))
mr_sequential_lem_example =
    mr_sequential_lem sort_kv (wc_map two_words) (wc_reduce numeral) text_of files
      (sort_kv-perm (all_records (wc_map two_words) text_of files)) in_order

wc_lem_example :
    (lines : List (String × String)) × (mr_sequential sort_kv
        (wc_map two_words)
        (wc_reduce numeral)
        (λ f. some (text_of f))
        files
      ≡ some lines)
    × Once lines
    × ((w : String)
        → lookup w lines ≡ (
            if count_word w (all_words two_words text_of files) == 0
            then none
            else some (numeral (count_word w (all_words two_words text_of files)))))
wc_lem_example =
    wc_lem sort_kv two_words numeral text_of files
      (sort_kv-perm (all_records (wc_map two_words) text_of files)) in_order
