-- ===== src/Kvsrv/Lock/Returns.antt =====
-- Release of src/kvsrv1/lock/lock.go comes to its end, whatever others put in between.
use mit_6_5824_lab.Prelude.{
  ltb, if◌then◌else◌, Bool-cases, ℕ, ◌+◌, ◌-◌, ◌^◌, ◌≤◌, ◌<◌, String, ◌≡◌, refl, inl, inr, true,
  ◌&&◌, Option, none, some, List, [], ◌∷◌, arith, eq_iff,
}
use mit_6_5824_lab.Kvsrv.Rpc.{
  Err, err_maybe, is_ok, is_version, GetReply, PutArgs, fresh_get, fresh_put,
}
use mit_6_5824_lab.Kvsrv.Server.{Entry, KvServer, get, put}
use mit_6_5824_lab.Kvsrv.Registers.{
  register, cas_reply, version_of, put_state, put-eq-some, put_state-Refines, version-put,
}
use mit_6_5824_lab.Kvsrv.Clerk.{Turn, returned, put_loop, clerk_put, clerk_get}
use mit_6_5824_lab.Kvsrv.Clerk.Contract.{load, Past, Past-lt, Past-put, Past-serve_puts}
use mit_6_5824_lab.Kvsrv.Clerk.Returns.{is_delivered, any_delivered, Fate-cases}
use mit_6_5824_lab.Kvsrv.Lock.{read_until_success, check_and_reput, release}

abbrev at : KvServer → String → ℕ
at kv key = version_of (register kv key)

Past-of_lt : (o : Option Entry) (v : ℕ) → v < version_of o → Past o v
Past-of_lt none v lt = absurd (omega arith)
Past-of_lt (some entry) v lt = lt

-- The server's answer on a key that is there.
get-Past :
    (kv : KvServer) (key : String) (v : ℕ)
    → Past (register kv key) v
    → (is_ok (get kv (record { key = key }) fresh_get).err ≡ true)
      × ((get kv (record { key = key }) fresh_get).version ≡ at kv key)
unfolding get register
get-Past kv key v past = ground arith

clerk_get-Past :
    (kv : KvServer) (key : String) (v : ℕ) (ts : List Turn)
    → any_delivered ts ≡ true
    → at kv key + load ts < 2 ^ 64
    → Past (register kv key) v
    → (kv' : KvServer) × (clerk_get kv (record { key = key }) ts
        ≡ returned kv' (get kv' (record { key = key }) fresh_get))
      × Past (register kv' key) v
      × (at kv' key ≤ at kv key + load ts)
unfolding clerk_get
clerk_get-Past kv key v [] h small past = cc
clerk_get-Past kv key v (t ∷ ts) h small past =
    let (served, errs, e, bound, keeps) = Past-serve_puts key v kv t.others (omega arith) in
    elim (Bool-cases (is_delivered t.fate)) [
      | inl now ↦ (served, ground arith, keeps past, omega arith)
      | inr later ↦
          let (kv', rest, past', bound') =
            clerk_get-Past served key v ts (ground arith) (omega arith) (keeps past) in
          (kv', ground arith, past', omega arith)
    ]

-- A put of a version that the key's version has reached leaves the key past it.
put_state-Past :
    (kv : KvServer) (args : PutArgs)
    → at kv args.key + 1 < 2 ^ 64
    → 0 < args.version
    → Past (register kv args.key) (args.version - 1)
    → Past (register (put_state kv args) args.key) args.version
put_state-Past kv args small some_put past =
    rw ((put_state-Refines kv args).registers args.key)
      (ground (arith, (eq_iff args.key args.key).1 refl))

put_loop-Past :
    (kv : KvServer) (args : PutArgs) (n : ℕ) (ts : List Turn)
    → any_delivered ts ≡ true
    → at kv args.key + load ts < 2 ^ 64
    → 0 < args.version
    → Past (register kv args.key) (args.version - 1)
    → (kv' : KvServer) × (err : Err) × (put_loop kv args n ts ≡ returned kv' err)
      × Past (register kv' args.key) args.version
      × (at kv' args.key ≤ at kv args.key + load ts)
unfolding put_loop
put_loop-Past kv args n [] h small some_put past = cc
put_loop-Past kv args n (t ∷ ts) h small some_put past =
    let (served, errs, e, bound, keeps) =
      Past-serve_puts args.key (args.version - 1) kv t.others (omega arith) in
    let one = put-eq-some served args fresh_put in
    let count = version-put args.key served args (omega arith) in
    elim (Fate-cases t.fate) [
      | inl (inl request) ↦
          let (kv', err, rest, past', bound') =
            put_loop-Past served args (n + 1) ts (ground arith) (omega arith) some_put
              (keeps past) in
          (kv', err, ground arith, past', omega arith)
      | inl (inr reply) ↦
          let kept = Past-put args.key (args.version - 1) served args (omega arith) (keeps past) in
          let raised : at (put_state served args) args.key ≤ at served args.key + 1 =
            ground arith in
          let (kv', err, rest, past', bound') =
            put_loop-Past (put_state served args) args (n + 1) ts (ground arith) (omega arith)
              some_put kept in
          (kv', err, ground arith, past', omega arith)
      | inr through ↦
          let raised : at (put_state served args) args.key ≤ at served args.key + 1 =
            ground arith in
          (
            put_state served args,
            (if is_version (cas_reply (register served args.key) args.version) && ltb 1 (n + 1)
                then err_maybe
                else cas_reply (register served args.key) args.version),
            ground arith,
            put_state-Past served args (omega arith) some_put (keeps past),
            omega arith,
          )
    ]

-- The first read of ReadUntilSuccess succeeds on a key that is there.
read-Past :
    (kv : KvServer) (key : String) (v : ℕ) (ts : List Turn) (more : List (List Turn))
    → any_delivered ts ≡ true
    → at kv key + load ts < 2 ^ 64
    → Past (register kv key) v
    → (kv' : KvServer) × (reply : GetReply) × (read_until_success kv key (ts ∷ more)
        ≡ returned kv' reply)
      × (reply.version ≡ at kv' key)
      × Past (register kv' key) v
      × (at kv' key ≤ at kv key + load ts)
unfolding read_until_success
read-Past kv key v ts more h small past =
    let (kv', got, past', bound) = clerk_get-Past kv key v ts h small past in
    let (fine, version) = get-Past kv' key v past' in
    (kv', get kv' (record { key = key }) fresh_get, ground arith, version, past', bound)

-- A round of CheckAndReput whose first read shows that the version is past ends it.
check-Past :
    (kv : KvServer) (key : String) (curr : ℕ) (ts : List Turn) (more : List (List Turn))
    (puts : List Turn) (rounds : List (List (List Turn) × List Turn))
    → any_delivered ts ≡ true
    → at kv key + load ts < 2 ^ 64
    → Past (register kv key) curr
    → (kv' : KvServer) × (check_and_reput kv key curr ((ts ∷ more, puts) ∷ rounds)
        ≡ returned kv' tt)
      × Past (register kv' key) curr
unfolding check_and_reput
check-Past kv key curr ts more puts rounds h small past =
    let (kv', reply, got, version, past', bound) = read-Past kv key curr ts more h small past in
    let later = Past-lt (register kv' key) curr past' in (kv', ground arith, past')

-- The turns of the first round of CheckAndReput and of the read of the second one.
abbrev load_rounds : List Turn → List Turn → List Turn → ℕ
load_rounds reads puts reads' = load reads + load puts + load reads'

module _ (key : String) (curr : ℕ) (reads puts reads' : List Turn) (more more' : List (List Turn))
    (puts' : List Turn) (rounds : List (List (List Turn) × List Turn))
    (read : any_delivered reads ≡ true) (was_put : any_delivered puts ≡ true)
    (read' : any_delivered reads' ≡ true) (stands : 0 < curr) where
  check_and_reput-returns :
      (kv : KvServer)
      → at kv key + load_rounds reads puts reads' < 2 ^ 64
      → Past (register kv key) (curr - 1)
      → (kv' : KvServer) × (check_and_reput kv key curr
            ((reads ∷ more, puts) ∷ (reads' ∷ more', puts') ∷ rounds)
          ≡ returned kv' tt)
        × Past (register kv' key) curr
  unfolding check_and_reput clerk_put
  check_and_reput-returns kv small past =
      let (kv1, reply, got, version, past1, bound1) =
        read-Past kv key (curr - 1) reads more read (omega arith) past in
      let least = Past-lt (register kv1 key) (curr - 1) past1 in
      elim (Bool-cases (ltb curr reply.version)) [
        | inl over ↦ (kv1, ground arith, Past-of_lt (register kv1 key) curr (ground arith))
        | inr not_over ↦
            let args : PutArgs = record { key = key; value = ""; version = curr } in
            let same : reply.version ≡ curr = ground arith in
            let (kv2, err, put, past2, bound2) =
              put_loop-Past kv1 args 0 puts was_put (omega arith) stands past1 in
            let (kv3, done, past3) =
              check-Past kv2 key curr reads' more' puts' rounds read' (omega arith) past2 in
            (kv3, ground arith, past3)
      ]

-- Release on a key with a version of 1 at least: if of its first Get, of the first Get and the Put of its first
-- round, and of the first Get of its second round some reply arrives, and the version and the number of all puts in
-- these calls, also those of others, stay below 2^64 together, then whatever else the network loses and
-- whatever others put in between, it returns in the second round at the latest, and the key then has a later
-- version than when Release began.
pub release-returns :
    (kv : KvServer) (key : String) (get_turns reads puts reads' : List Turn)
    (more more' : List (List Turn)) (puts' : List Turn)
    (rounds : List (List (List Turn) × List Turn))
    → any_delivered get_turns ≡ true
    → any_delivered reads ≡ true
    → any_delivered puts ≡ true
    → any_delivered reads' ≡ true
    → 0 < version_of (register kv key)
    → version_of (register kv key) + load get_turns + load_rounds reads puts reads' < 2 ^ 64
    → (kv' : KvServer) × (release kv key get_turns
          ((reads ∷ more, puts) ∷ (reads' ∷ more', puts') ∷ rounds)
        ≡ returned kv' tt)
      × (version_of (register kv key) < version_of (register kv' key))
unfolding release
release-returns kv key get_turns reads puts reads' more more' puts' rounds got read was_put read'
      stands small =
    let past = Past-of_lt (register kv key) (at kv key - 1) (omega arith) in
    let (kv1, first, past1, bound1) =
      clerk_get-Past kv key (at kv key - 1) get_turns got (omega arith) past in
    let (fine, version) = get-Past kv1 key (at kv key - 1) past1 in
    let least = Past-lt (register kv1 key) (at kv key - 1) past1 in
    let (kv2, done, past2) =
      check_and_reput-returns key (at kv1 key) reads puts reads' more more' puts' rounds read
        was_put read' (omega arith) kv1 (omega arith)
        (Past-of_lt (register kv1 key) (at kv1 key - 1) (omega arith)) in
    let last = Past-lt (register kv2 key) (at kv1 key) past2 in (kv2, ground arith, omega arith)
