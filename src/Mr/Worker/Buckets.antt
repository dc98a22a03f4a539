-- ===== src/Mr/Worker/Buckets.antt =====
-- The buckets of doMap in src/mr/worker.go.
use mathlib.Core.List.{append-nil, append_assoc}
use mit_6_5824_lab.Prelude.{
  ◌==◌, if◌then◌else◌, length, get_elem?, set, length-set, get_elem?-set_self, get_elem?-set_ne,
  replicate, length-replicate, get_elem?_of_lt, ℕ, zero, suc, ◌%◌, ◌<◌, String, ◌≡◌, refl, ◌∙◌,
  some, List, [], ◌∷◌, ◌++◌, arith, ℕ_discrete,
}
use mit_6_5824_lab.Mr.Worker.{KeyValue, ihash, fill, intermediate}

-- The records with a given bucket, in order.
unfoldable pub in_bucket : (String → ℕ) → ℕ → ℕ → List KeyValue → List KeyValue
in_bucket sum32 n b [] = []
in_bucket sum32 n b (kv ∷ kvs) =
    if ihash sum32 kv.key % n == b then kv ∷ in_bucket sum32 n b kvs else in_bucket sum32 n b kvs

get_elem?-replicate_nil :
    (n i : ℕ) → i < n → get_elem? (replicate {A = List KeyValue} n []) i ≡ some []
get_elem?-replicate_nil zero i h = elim h [ ]
get_elem?-replicate_nil (suc n) zero h = refl
get_elem?-replicate_nil (suc n) (suc i) h = get_elem?-replicate_nil n i (omega arith)

fill_lem :
    (sum32 : String → ℕ) (n b : ℕ) (buckets : List (List KeyValue)) (kvs here : List KeyValue)
    → 0 < n
    → length buckets ≡ n
    → get_elem? buckets b ≡ some here
    → (filled : List (List KeyValue)) × (fill sum32 n buckets kvs ≡ some filled)
      × (length filled ≡ n)
      × (get_elem? filled b ≡ some (here ++ in_bucket sum32 n b kvs))
unfolding fill in_bucket
fill_lem sum32 n b buckets [] here pos len at = (buckets, refl, len, rw append-nil at)
fill_lem sum32 n b buckets (kv ∷ kvs) here pos len at =
    let slot : ℕ = ihash sum32 kv.key % n in
    let below : slot < n = grind arith in
    let (old, there) = get_elem?_of_lt buckets slot (omega arith) in
    let step : List (List KeyValue) = set buckets slot (old ++ kv ∷ []) in
    let size : length step ≡ n = omega (arith, length-set buckets slot (old ++ kv ∷ [])) in
    elim (ℕ_discrete slot b) [
      | yes same ↦
          let (filled, e, l, g) =
            fill_lem sum32 n b step kvs (here ++ kv ∷ []) pos size
              (ground (arith, get_elem?-set_self buckets b (old ++ kv ∷ []))) in
          (
            filled,
            ground (arith, there),
            l,
            ground (arith, append_assoc here (kv ∷ []) (in_bucket sum32 n b kvs)),
          )
      | no other ↦
          let (filled, e, l, g) =
            fill_lem sum32 n b step kvs here pos size
              (get_elem?-set_ne buckets (old ++ kv ∷ []) other ∙ at) in
          (filled, ground (arith, there), l, ground arith)
    ]

-- With at least one bucket the map task does not panic: it has n_reduce buckets, and each holds
-- exactly the records whose key hashes to it, in the order of the map function's output.
pub intermediate_lem :
    (sum32 : String → ℕ) (n : ℕ) (kvs : List KeyValue)
    → 0 < n
    → (filled : List (List KeyValue)) × (intermediate sum32 n kvs ≡ some filled)
      × (length filled ≡ n)
      × ((b : ℕ) → b < n → get_elem? filled b ≡ some (in_bucket sum32 n b kvs))
unfolding intermediate
intermediate_lem sum32 n kvs pos =
    let (filled, e, l, g) = all 0 pos in
    (filled, e, l, λ b h. let (filled', e', l', g') = all b h in ground arith)
  where
    all :
        (b : ℕ)
        → b < n
        → (filled : List (List KeyValue)) × (fill sum32 n (replicate n []) kvs ≡ some filled)
          × (length filled ≡ n)
          × (get_elem? filled b ≡ some ([] ++ in_bucket sum32 n b kvs))
    all b h =
        fill_lem sum32 n b (replicate n []) kvs [] pos (length-replicate n [])
          (get_elem?-replicate_nil n b h)
