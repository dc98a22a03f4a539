-- ===== src/Tester/Framework/Flags.antt =====
-- The flags that src/tester1/annotation.go keeps of the servers.
use mit_6_5824_lab.Prelude.{
  ◌==◌, if◌then◌else◌, Bool-cases, Option-cases, length, get_elem?, set, get_elem?-set_self,
  get_elem?-set_ne, replicate, lt_of_get_elem?, >>=-inv, ℕ, zero, suc, ◌+◌, ◌<◌, String, ◌≡◌, refl,
  sym, ap, ◌∙◌, inl, inr, Bool, true, false, not, ◌&&◌, none, some, List, [], ◌∷◌, arith,
}
use mit_6_5824_lab.Tester.Framework.{
  FrameworkInfo, Framework, equal_flags, copy_flags, annotate_fault, annotate_connection,
  mark_servers, annotate_marked, annotate_shutdown, annotate_restart,
}
use mit_6_5824_lab.Tester.Framework.Faults.{
  Event, connects, shuts_down, restarts, annotate_event, annotate_events, annotate_fault_cases,
}
use mit_6_5824_lab.Tester.ServerGrp.Wired.{is_in}

-- Whether server `i` is down after an event, if `down` says so before it.
abbrev down_by : ℕ → Event → Bool → Bool
down_by i (connects connection) down = down
down_by i (shuts_down servers) down = if is_in i servers then true else down
down_by i (restarts servers) down = if is_in i servers then false else down

-- Whether server `i` is connected after an event, if `up` says so before it.
abbrev link_by : ℕ → Event → Bool → Bool
link_by i (connects connection) up = elim (get_elem? connection i) [ none ↦ up | some now ↦ now ]
link_by i _ up = up

abbrev pub down_after : ℕ → List (ℕ × Event) → Bool → Bool
down_after i [] down = down
down_after i ((t, e) ∷ events) down = down_after i events (down_by i e down)

abbrev pub link_after : ℕ → List (ℕ × Event) → Bool → Bool
link_after i [] up = up
link_after i ((t, e) ∷ events) up = link_after i events (link_by i e up)

-- Whether the `left` servers from `i` on are all up and connected after events from the start.
abbrev pub all_up : List (ℕ × Event) → ℕ → ℕ → Bool
all_up events i zero = true
all_up events i (suc left) =
    not (down_after i events false) && link_after i events true && all_up events (i + 1) left

-- The framework's flags of server `i`.
abbrev pub Flags : ℕ → Bool → Bool → FrameworkInfo → Type 0
Flags i down up info =
    (get_elem? info.crashed i ≡ some down) × (get_elem? info.connected i ≡ some up)

mark_servers-flag :
    (down : Bool) (servers : List ℕ) (changed : Bool) (crashed crashed' : List Bool)
    (changed' : Bool) (i : ℕ) (b : Bool)
    → mark_servers down servers changed crashed ≡ some (crashed', changed')
    → get_elem? crashed i ≡ some b
    → get_elem? crashed' i ≡ some (if is_in i servers then down else b)
unfolding mark_servers
mark_servers-flag down [] changed crashed crashed' changed' i b h at = cc
mark_servers-flag down (id ∷ servers) changed crashed crashed' changed' i b h at =
    let (was_down, there, h') = >>=-inv (get_elem? crashed id) _ h in
    elim (Bool-cases (id == i)) [
      | inl same ↦
          let e : id ≡ i = ground arith in
          let now : get_elem? (set crashed id down) i ≡ some down =
            rw e (get_elem?-set_self crashed i down (lt_of_get_elem? crashed i at)) in
          ground (arith, mark_servers-flag down servers _ _ crashed' changed' i down h' now)
      | inr other ↦
          let now : get_elem? (set crashed id down) i ≡ some b =
            get_elem?-set_ne crashed down (ground arith) ∙ at in
          ground (arith, mark_servers-flag down servers _ _ crashed' changed' i b h' now)
    ]

equal_flags_eq : (bs cs : List Bool) → equal_flags bs cs ≡ true → bs ≡ cs
unfolding equal_flags
equal_flags_eq [] [] h = refl
equal_flags_eq [] (c ∷ cs) h = cc
equal_flags_eq (b ∷ bs) [] h = cc
equal_flags_eq (true ∷ bs) (true ∷ cs) h = ap (λ l. true ∷ l) (equal_flags_eq bs cs (ground arith))
equal_flags_eq (true ∷ bs) (false ∷ cs) h = absurd (ground arith)
equal_flags_eq (false ∷ bs) (true ∷ cs) h = absurd (ground arith)
equal_flags_eq (false ∷ bs) (false ∷ cs) h =
    ap (λ l. false ∷ l) (equal_flags_eq bs cs (ground arith))

copy_flags-flag :
    (bs cs : List Bool) (i : ℕ) (b : Bool)
    → get_elem? bs i ≡ some b
    → get_elem? (copy_flags bs cs) i ≡ some (elim (get_elem? cs i) [ none ↦ b | some now ↦ now ])
unfolding copy_flags
copy_flags-flag [] cs i b h = cc
copy_flags-flag (b ∷ bs) [] i b' h = h
copy_flags-flag (b ∷ bs) (c ∷ cs) zero b' h = refl
copy_flags-flag (b ∷ bs) (c ∷ cs) (suc i) b' h = copy_flags-flag bs cs i b' h

annotate_fault-finfo :
    (show : ℕ → String) (show_all : List ℕ → String) (t : ℕ) (fw fw' : Framework)
    → annotate_fault show show_all t fw ≡ some fw'
    → fw'.finfo ≡ fw.finfo
annotate_fault-finfo show show_all t fw fw' h =
    elim (annotate_fault_cases show show_all t fw fw' h) [
      | inl (well, e) ↦ ap (λ f. f.finfo) e
      | inr (ill, text, e) ↦ ap (λ f. f.finfo) e
    ]

marked-Flags :
    (show : ℕ → String) (show_all : List ℕ → String) (t : ℕ) (down : Bool) (servers : List ℕ)
    (fw fw' : Framework) (i : ℕ) (b up : Bool)
    → annotate_marked show show_all t (mark_servers down servers false fw.finfo.crashed) fw
      ≡ some fw'
    → Flags i b up fw.finfo
    → Flags i (if is_in i servers then down else b) up fw'.finfo
marked-Flags show show_all t down servers fw fw' i b up h (at, link) =
    elim (Option-cases (mark_servers down servers false fw.finfo.crashed)) [
      | inl e ↦ absurd (ground (arith, e))
      | inr ((crashed, changed), e) ↦
          let now =
            mark_servers-flag down servers false fw.finfo.crashed crashed changed i b e at in
          let fw1 : Framework = record fw { finfo = record fw.finfo { crashed = crashed } } in
          elim (Bool-cases changed) [
            | inl did ↦
                let kept = annotate_fault-finfo show show_all t fw1 fw' (ground (arith, e, did)) in
                rw kept (now, link)
            | inr kept_all ↦
                let kept : fw' ≡ fw1 = ground (arith, e, kept_all) in rw kept (now, link)
          ]
    ]

annotate_event-Flags :
    (show : ℕ → String) (show_all : List ℕ → String) (t : ℕ) (e : Event) (fw fw' : Framework)
    (i : ℕ) (down up : Bool)
    → annotate_event show show_all t e fw ≡ some fw'
    → Flags i down up fw.finfo
    → Flags i (down_by i e down) (link_by i e up) fw'.finfo
unfolding annotate_connection annotate_shutdown annotate_restart
annotate_event-Flags show show_all t (connects connection) fw fw' i down up h (at, link) =
    elim (Bool-cases (equal_flags fw.finfo.connected connection)) [
      | inl e ↦
          let same : fw' ≡ fw = ground (arith, e) in
          let there : get_elem? connection i ≡ some up =
            ap (λ l. get_elem? l i) (sym (equal_flags_eq fw.finfo.connected connection e)) ∙ link in
          rw same (rw (there, link_by) (at, link))
      | inr e ↦
          let kept =
            annotate_fault-finfo show show_all t
              (record fw {
                finfo = record fw.finfo { connected = copy_flags fw.finfo.connected connection };
              })
              fw' (rw e at h) in
          rw kept (at, copy_flags-flag fw.finfo.connected connection i up link)
    ]
annotate_event-Flags show show_all t (shuts_down servers) fw fw' i down up h flags =
    marked-Flags show show_all t true servers fw fw' i down up h flags
annotate_event-Flags show show_all t (restarts servers) fw fw' i down up h flags =
    marked-Flags show show_all t false servers fw fw' i down up h flags

pub annotate_events-Flags :
    (show : ℕ → String) (show_all : List ℕ → String) (events : List (ℕ × Event))
    (fw fw' : Framework) (i : ℕ) (down up : Bool)
    → annotate_events show show_all events fw ≡ some fw'
    → Flags i down up fw.finfo
    → Flags i (down_after i events down) (link_after i events up) fw'.finfo
annotate_events-Flags show show_all [] fw fw' i down up h flags =
    let same : fw' ≡ fw = cc in rw same flags
annotate_events-Flags show show_all ((t, e) ∷ events) fw fw' i down up h flags =
    let (fw1, one, rest) = >>=-inv (annotate_event show show_all t e fw) _ h in
    annotate_events-Flags show show_all events fw1 fw' i _ _ rest
      (annotate_event-Flags show show_all t e fw fw1 i down up one flags)

-- The framework's own test of its flags.
pub equal_flags-all_up :
    (events : List (ℕ × Event)) (i left : ℕ) (connected crashed : List Bool)
    → length connected ≡ left
    → length crashed ≡ left
    → ((j : ℕ)
        → j < left
        → (get_elem? crashed j ≡ some (down_after (i + j) events false))
          × (get_elem? connected j ≡ some (link_after (i + j) events true)))
    → equal_flags (replicate left true) connected && equal_flags (replicate left false) crashed
      ≡ all_up events i left
unfolding equal_flags
equal_flags-all_up events i zero [] [] len len' h = refl
equal_flags-all_up events i zero (c ∷ connected) crashed len len' h = absurd (omega arith)
equal_flags-all_up events i zero [] (d ∷ crashed) len len' h = absurd (omega arith)
equal_flags-all_up events i (suc left) [] crashed len len' h = absurd (omega arith)
equal_flags-all_up events i (suc left) (c ∷ connected) [] len len' h = absurd (omega arith)
equal_flags-all_up events i (suc left) (c ∷ connected) (d ∷ crashed) len len' h =
    let e : i + 0 ≡ i = omega arith in
    let (down, up) = rw e at (h 0 (omega arith)) in
    let rest =
      equal_flags-all_up events (i + 1) left connected crashed (omega arith) (omega arith) (λ j lt.
        let shift : i + suc j ≡ i + 1 + j = omega arith in rw shift at (h (suc j) (omega arith))) in
    ground (arith, down, up, rest)
