-- ===== src/Mr/Sequential.antt =====
-- src/main/mrsequential.go, the sequential MapReduce, and src/mrapps/wc.go. `read` stands for the contents of
-- a file, `none` if it cannot be opened or read, which log.Fatalf reports; `sort` for sort.Sort,
-- `fields` for the split of a text into words by strings.FieldsFunc, and `itoa` for strconv.Itoa.
pub mod Runs
pub mod Groups
pub mod Words
mod Tests
use Prim.Native.Char.{code}
use mit_6_5824_lab.Prelude.{
  ltb, if◌then◌else◌, length, get_elem?, ◌>>=◌, ℕ, zero, suc, ◌+◌, ◌-◌, String, Bool, true, false,
  Option, none, some, List, [], ◌∷◌, ◌++◌, str_eq,
}
use mit_6_5824_lab.Mr.Worker.{KeyValue, intermediate}

-- Go's order of strings, which is that of their code points.
abbrev pub str_less : String → String → Bool
str_less String.[] String.[] = false
str_less String.[] (String.◌∷◌ d t) = true
str_less (String.◌∷◌ c s) String.[] = false
str_less (String.◌∷◌ c s) (String.◌∷◌ d t) =
    let later = str_less s t in
    if ltb (code c) (code d) then true else if ltb (code d) (code c) then false else later

-- ByKey.Less
unfoldable pub less : KeyValue → KeyValue → Bool
less a b = str_less a.key b.key

-- The loop over the files, which accumulates the intermediate data.
unfoldable pub map_files :
    (String → String → List KeyValue)
    → (String → Option String)
    → List KeyValue
    → List String
    → Option (List KeyValue)
map_files mapf read intermediate [] = some intermediate
map_files mapf read intermediate (filename ∷ files) = do
  content ← read filename
  map_files mapf read (intermediate ++ mapf filename content) files

-- The loop over j, with `left` elements from j on.
unfoldable pub group_end : List KeyValue → String → ℕ → ℕ → ℕ
group_end kvs key j zero = j
group_end kvs key j (suc left) =
    let next = group_end kvs key (j + 1) left in
    elim (get_elem? kvs j) [ none ↦ j | some kv ↦ if str_eq kv.key key then next else j ]

-- The loop over k, from i on; `none` is an index out of range.
unfoldable pub group_values : List KeyValue → ℕ → ℕ → Option (List String)
group_values kvs k zero = some []
group_values kvs k (suc left) = do
  kv ← get_elem? kvs k
  values ← group_values kvs (k + 1) left
  some (kv.value ∷ values)

-- The loop over i, on fuel: the lines of the output, a key and a result each. `none` is an index out of range,
-- or that the fuel is used up.
unfoldable pub group_loop :
    (String → List String → String) → List KeyValue → ℕ → ℕ → Option (List (String × String))
unfolding group_end group_values
group_loop reducef kvs i zero = none
group_loop reducef kvs i (suc fuel) = elim (get_elem? kvs i) [
  | none ↦ some []
  | some kv ↦
      let j = group_end kvs kv.key (i + 1) (length kvs - (i + 1)) in
      do
        values ← group_values kvs i (j - i)
        lines ← group_loop reducef kvs j fuel
        some ((kv.key, reducef kv.key values) ∷ lines)
]

-- main, from the files to the lines of the output. Each round of the loop over i takes one record at least.
unfoldable pub mr_sequential :
    (List KeyValue → List KeyValue)
    → (String → String → List KeyValue)
    → (String → List String → String)
    → (String → Option String)
    → List String
    → Option (List (String × String))
unfolding map_files group_loop
mr_sequential sort mapf reducef read files = do
  intermediate ← map_files mapf read [] files
  group_loop reducef (sort intermediate) 0 (length (sort intermediate) + 1)

-- Map of wc.go
unfoldable pub wc_words : List KeyValue → List String → List KeyValue
wc_words kva [] = kva
wc_words kva (w ∷ words) = wc_words (kva ++ (record { key = w; value = "1" } ∷ [])) words

unfoldable pub wc_map : (String → List String) → String → String → List KeyValue
unfolding wc_words
wc_map fields filename contents = wc_words [] (fields contents)

-- Reduce of wc.go
unfoldable pub wc_reduce : (ℕ → String) → String → List String → String
wc_reduce itoa key values = itoa (length values)
