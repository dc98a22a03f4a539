-- ===== src/Kvtest/Appends/Turns.antt =====
-- One step of a client of src/kvtest1/kvtest.go that appends, with the server of src/kvsrv1/server.go.
use mit_6_5824_lab.Prelude.{
  ltb, if◌then◌else◌, length, ℕ, ◌+◌, ◌≤◌, String, ◌≡◌, refl, ◌∙◌, ◌≢◌, ◌⊎◌, inl, ◌&&◌, Option,
  some, List, [], ◌∷◌, ◌++◌, arith,
}
use mit_6_5824_lab.Kvsrv.Server.{Entry, KvServer}
use mit_6_5824_lab.Kvsrv.Registers.{register}
use mit_6_5824_lab.Kvtest.Appends.{EntryN, Stage, waiting, reading, writing, Appender}
use mit_6_5824_lab.Kvtest.Appends.Entries.{next_of, count_of, next_of_append, count_of_append}

-- The register that holds the list `es`, which every put has made longer by one.
abbrev pub list_at : (List EntryN → String) → List EntryN → Option Entry
list_at enc es = some (record { value = enc es; version = length es + 1 })

abbrev pub own_entry : ℕ → Appender → EntryN
own_entry me c = record { id = me; n = c.i }

-- 1 if the entry that the client now puts may stand in the list.
abbrev pub in_doubt : List EntryN → Stage → ℕ
in_doubt es waiting = 0
in_doubt es reading = 0
in_doubt es (writing es' ver count) = if ltb 0 count && ltb ver (length es + 1) then 1 else 0

-- A put at the list's version appends the client's entry to it.
abbrev pub UpToDate : List EntryN → EntryN → Stage → Type 0
UpToDate es e waiting = Unit
UpToDate es e reading = Unit
UpToDate es e (writing es' ver count) =
    (ver ≤ length es + 1) × (ver ≡ length es + 1 → es' ≡ es ++ (e ∷ []))

pub record Fits (es : List EntryN) (me : ℕ) (c : Appender) : Type 0 where
  pub next : ℕ
  pub rises : next_of me 0 es ≡ some next
  pub reached : next ≤ c.i + in_doubt es c.stage
  pub counted : c.res.nok ≤ count_of me es
  pub tried : c.i ≡ c.res.nok + c.res.nmaybe
  pub up_to_date : UpToDate es (own_entry me c) c.stage

-- What a step does to the list: nothing, or it appends the client's entry.
abbrev pub Grows : List EntryN → EntryN → List EntryN → Type 0
Grows es e es' = (es' ≡ es) ⊎ (es' ≡ es ++ (e ∷ []))

pub record Stepped (enc : List EntryN → String) (me : ℕ) (es : List EntryN) (c : Appender)
    (kv' : KvServer) (c' : Appender) : Type 0 where
  pub after : List EntryN
  pub holds : register kv' "k" ≡ list_at enc after
  pub grows : Grows es (own_entry me c) after
  pub fits : Fits after me c'

pub length_snoc : (es : List EntryN) (e : EntryN) → length (es ++ (e ∷ [])) ≡ length es + 1
length_snoc [] e = refl
length_snoc (f ∷ es) e = omega (arith, length_snoc es e)

-- The client's own append.
pub appended :
    (es : List EntryN) (me : ℕ) (c c' : Appender)
    → (f : Fits es me c) → f.next ≤ c.i
    → c.i + 1 ≤ c'.i + in_doubt (es ++ (own_entry me c ∷ [])) c'.stage
    → c'.res.nok ≤ c.res.nok + 1
    → c'.i ≡ c'.res.nok + c'.res.nmaybe
    → UpToDate (es ++ (own_entry me c ∷ [])) (own_entry me c') c'.stage
    → Fits (es ++ (own_entry me c ∷ [])) me c'
appended es me c c' f low reach gain sum up = record {
  next = c.i + 1;
  rises = next_of_append me 0 es (own_entry me c) f.rises ∙ ground (arith, low);
  reached = reach;
  counted = ground (arith, count_of_append me es (own_entry me c), f.counted);
  tried = sum;
  up_to_date = up;
}

in_doubt_append :
    (es : List EntryN) (e : EntryN) (s : Stage) → in_doubt es s ≤ in_doubt (es ++ (e ∷ [])) s
in_doubt_append es e waiting = omega arith
in_doubt_append es e reading = omega arith
in_doubt_append es e (writing es' ver count) = ground (arith, length_snoc es e)

pub UpToDate-append :
    (es : List EntryN) (e own : EntryN) (s : Stage)
    → UpToDate es own s
    → UpToDate (es ++ (e ∷ [])) own s
UpToDate-append es e own waiting up = tt
UpToDate-append es e own reading up = tt
UpToDate-append es e own (writing es' ver count) up =
    (omega (arith, length_snoc es e, up.0), λ same. absurd (omega (arith, length_snoc es e, up.0)))

-- The append of another client.
pub appended_by_other :
    (es : List EntryN) (me : ℕ) (e : EntryN) (c : Appender)
    → e.id ≢ me
    → Fits es me c
    → Fits (es ++ (e ∷ [])) me c
appended_by_other es me e c other f = record {
  next = f.next;
  rises = next_of_append me 0 es e f.rises ∙ ground arith;
  reached = omega (arith, in_doubt_append es e c.stage, f.reached);
  counted = ground (arith, count_of_append me es e, f.counted);
  tried = f.tried;
  up_to_date = UpToDate-append es e (own_entry me c) c.stage f.up_to_date;
}

-- A step that leaves the register.
pub same_list :
    (enc : List EntryN → String) (me : ℕ) (es : List EntryN) (c : Appender) (kv' : KvServer)
    (c' : Appender)
    → register kv' "k" ≡ list_at enc es
    → (f : Fits es me c) → f.next ≤ c'.i + in_doubt es c'.stage
    → c'.res.nok ≤ c.res.nok
    → c'.i ≡ c'.res.nok + c'.res.nmaybe
    → UpToDate es (own_entry me c') c'.stage
    → Stepped enc me es c kv' c'
same_list enc me es c kv' c' there f reach gain sum up = record {
  after = es;
  holds = there;
  grows = inl refl;
  fits = record {
    next = f.next;
    rises = f.rises;
    reached = reach;
    counted = omega (arith, f.counted);
    tried = sum;
    up_to_date = up;
  };
}
