-- ===== src/Mr/Sequential/Words.antt =====
-- The sequential MapReduce of src/main/mrsequential.go, for any application and for src/mrapps/wc.go.
use mit_6_5824_lab.Prelude.{
  ◌==◌, if◌then◌else◌, Bool-cases, length, >>=-some, lookup, ℕ, suc, ◌+◌, String, ◌≡◌, refl, sym,
  ap, ◌∙◌, inl, inr, none, some, List, [], ◌∷◌, ◌++◌, map, arith, str_eq, string_eq,
}
use mit_6_5824_lab.Mr.Sequential.Groups.{
  line, group_loop_lem, values_for, Ascending, found, runs_of-lookup, lookup-line, Once,
  runs_of-Once, line-Once,
}
use mit_6_5824_lab.Mr.Sequential.Runs.{runs_of}
use mit_6_5824_lab.Mr.Worker.{KeyValue}
use mit_6_5824_lab.Mr.Sequential.{map_files, mr_sequential, wc_words, wc_map, wc_reduce}
use mathlib.Core.List.{Permᴰ, append-nil, append_assoc}
use mathlib.Core.List.Permᴰ as Permute
use mathlib.Core.Option

-- What Map makes of all files.
abbrev pub all_records :
    (String → String → List KeyValue) → (String → String) → List String → List KeyValue
all_records mapf text [] = []
all_records mapf text (f ∷ files) = mapf f (text f) ++ all_records mapf text files

map_files_lem :
    (mapf : String → String → List KeyValue) (text : String → String) (kvs : List KeyValue)
    (files : List String)
    → map_files mapf (λ f. some (text f)) kvs files ≡ some (kvs ++ all_records mapf text files)
unfolding map_files
map_files_lem mapf text kvs [] = ap some (sym (append-nil kvs))
map_files_lem mapf text kvs (f ∷ files) =
    map_files_lem mapf text (kvs ++ mapf f (text f)) files
    ∙ ap some (append_assoc kvs (mapf f (text f)) (all_records mapf text files))

values_for-perm :
    (w : String) {xs ys : List KeyValue} → Permᴰ xs ys → Permᴰ (values_for w xs) (values_for w ys)
values_for-perm w Permᴰ.nil = Permᴰ.nil
values_for-perm w (Permᴰ.cons {a = x} e p) =
    let rest = values_for-perm w p in
    rw (sym e) (elim (Bool-cases (str_eq x.key w)) [
      | inl here ↦ rw here (Permᴰ.cons refl rest)
      | inr away ↦ rw away rest
    ])
values_for-perm w (Permᴰ.swap {a = x} {b = y} {l} e f) =
    let same = Permute.refl (values_for w l) in
    rw (sym e, sym f)
      (elim (Bool-cases (str_eq x.key w)) [
        | inl here ↦ elim (Bool-cases (str_eq y.key w)) [
          | inl here' ↦ rw (here, here') (Permᴰ.swap refl refl)
          | inr away ↦ rw (here, away) (Permᴰ.cons refl same)
        ]
        | inr away ↦ elim (Bool-cases (str_eq y.key w)) [
          | inl here ↦ rw (away, here) (Permᴰ.cons refl same)
          | inr away' ↦ rw (away, away') same
        ]
      ])
values_for-perm w (Permᴰ.trans p q) = Permᴰ.trans (values_for-perm w p) (values_for-perm w q)

-- If all files can be read and the sort leaves their records in ascending order, as a permutation, the program
-- ends, and its output has for each key that a record has one line, with the result of Reduce for the values of
-- all records with the key, in some order, and no other line.
pub mr_sequential_lem :
    (sort : List KeyValue → List KeyValue) (mapf : String → String → List KeyValue)
    (reducef : String → List String → String) (text : String → String) (files : List String)
    → Permᴰ (all_records mapf text files) (sort (all_records mapf text files))
    → Ascending (sort (all_records mapf text files))
    → (lines : List (String × String)) × (mr_sequential sort mapf reducef (λ f. some (text f)) files
        ≡ some lines)
      × Once lines
      × ((w : String)
          → (vs : List String) × Permᴰ (values_for w (all_records mapf text files)) vs
            × (lookup w lines ≡ Option.map (reducef w) (found vs)))
unfolding mr_sequential
mr_sequential_lem sort mapf reducef text files same sorted =
    let kvs = sort (all_records mapf text files) in
    (
      map (line reducef) (runs_of kvs),
      >>=-some _ _ (map_files_lem mapf text [] files)
          (group_loop_lem reducef kvs 0 (length kvs + 1) (omega arith) (omega arith)),
      line-Once reducef (runs_of kvs) (runs_of-Once kvs sorted),
      λ w. (
        values_for w kvs,
        values_for-perm w same,
        lookup-line reducef w (runs_of kvs)
            ∙ ap (Option.map (reducef w)) (runs_of-lookup w kvs sorted),
      ),
    )

abbrev pub count_word : String → List String → ℕ
count_word w [] = 0
count_word w (v ∷ vs) = if str_eq v w then count_word w vs + 1 else count_word w vs

-- The words of all files.
abbrev pub all_words : (String → List String) → (String → String) → List String → List String
all_words fields text [] = []
all_words fields text (f ∷ files) = fields (text f) ++ all_words fields text files

length-perm : {A : Type 0} {xs ys : List A} → Permᴰ xs ys → length xs ≡ length ys
length-perm Permᴰ.nil = refl
length-perm (Permᴰ.cons e p) = ap suc (length-perm p)
length-perm (Permᴰ.swap e f) = refl
length-perm (Permᴰ.trans p q) = length-perm p ∙ length-perm q

values_for-append :
    (w : String) (xs ys : List KeyValue)
    → length (values_for w (xs ++ ys)) ≡ length (values_for w xs) + length (values_for w ys)
values_for-append w [] ys = omega arith
values_for-append w (x ∷ xs) ys = ground (arith, values_for-append w xs ys)

count_word-append :
    (w : String) (us vs : List String) → count_word w (us ++ vs) ≡ count_word w us + count_word w vs
count_word-append w [] vs = omega arith
count_word-append w (u ∷ us) vs = ground (arith, count_word-append w us vs)

wc_words_lem :
    (w : String) (kva : List KeyValue) (words : List String)
    → length (values_for w (wc_words kva words)) ≡ length (values_for w kva) + count_word w words
unfolding wc_words
wc_words_lem w kva [] = omega arith
wc_words_lem w kva (v ∷ words) =
    let one : List KeyValue = record { key = v; value = "1" } ∷ [] in
    let rest = wc_words_lem w (kva ++ one) words in
    let added = values_for-append w kva one in ground arith

wc_records_lem :
    (fields : String → List String) (text : String → String) (w : String) (files : List String)
    → length (values_for w (all_records (wc_map fields) text files))
      ≡ count_word w (all_words fields text files)
unfolding wc_map
wc_records_lem fields text w [] = refl
wc_records_lem fields text w (f ∷ files) =
    let here = wc_words_lem w [] (fields (text f)) in
    let rest = wc_records_lem fields text w files in
    let split =
      values_for-append w (wc_map fields f (text f)) (all_records (wc_map fields) text files) in
    let words = count_word-append w (fields (text f)) (all_words fields text files) in
    omega (arith, here, rest, split, words)

wc_line :
    (itoa : ℕ → String) (w : String) (vs : List String) (n : ℕ)
    → length vs ≡ n
    → Option.map (wc_reduce itoa w) (found vs) ≡ (if n == 0 then none else some (itoa n))
unfolding wc_reduce
wc_line itoa w [] n e = ground arith
wc_line itoa w (v ∷ vs) n e = rw (sym e) (ground arith)

-- The word count: if all files can be read and the sort leaves the records in ascending order, as a permutation,
-- the program ends, and its output has for each word that occurs in the files one line, with the number of its
-- occurrences in all of them, and no other line.
pub wc_lem :
    (sort : List KeyValue → List KeyValue) (fields : String → List String) (itoa : ℕ → String)
    (text : String → String) (files : List String)
    → Permᴰ (all_records (wc_map fields) text files) (sort (all_records (wc_map fields) text files))
    → Ascending (sort (all_records (wc_map fields) text files))
    → (lines : List (String × String)) × (mr_sequential sort
          (wc_map fields)
          (wc_reduce itoa)
          (λ f. some (text f))
          files
        ≡ some lines)
      × Once lines
      × ((w : String)
          → lookup w lines ≡ (
              if count_word w (all_words fields text files) == 0
              then none
              else some (itoa (count_word w (all_words fields text files)))))
wc_lem sort fields itoa text files same sorted =
    let (lines, run, once, found_lines) =
      mr_sequential_lem sort (wc_map fields) (wc_reduce itoa) text files same sorted in
    (
      lines,
      run,
      once,
      λ w.
          let (vs, perm, there) = found_lines w in
          there ∙ wc_line itoa w vs _ (sym (length-perm perm) ∙ wc_records_lem fields text w files),
    )
