-- ===== src/Telemetry/Chain/Writing.antt =====
-- What `sync` of the chain service writes.
use axel_sol.Prelude.{
  ℕ, zero, suc, ◌+◌, ◌≤◌, ◌<◌, ◌≡◌, ◌≢◌, ◌⊎◌, inl, inr, refl, sym, arith, String, true, Option,
  none, some, List, [], ◌∷◌, length, take, drop, str_eq, eq_iff, Option-cases, Bool-cases,
}
use axel_sol.Telemetry.Store.{Store, StoredDay, PlannedLink, ChainLink}
use axel_sol.Telemetry.Chain.{
  Project, View, no_project, in_sync, pending, diverged, Answers, Written, confirmed_batch,
  pending_batch, failed_batch, SyncResult, synced, still_pending, batch_failed, is_recordable,
  max_entries_per_batch, write_all, write_batch, append_days, after_view, sync_now, reconcile_now,
  reconcile_with, settle_pending, compare_tip,
}

take-drop-length :
    {A : Type 0} (n : ℕ) (xs : List A) → length (take n xs) + length (drop n xs) ≡ length xs
take-drop-length zero xs = omega arith
take-drop-length (suc n) [] = refl
take-drop-length (suc n) (x ∷ xs) = let h = take-drop-length n xs in omega arith

-- A batch takes at least one day.
fewer :
    (rounds : ℕ) (d : StoredDay) (days : List StoredDay)
    → length (d ∷ days) ≤ suc rounds
    → length (drop max_entries_per_batch (d ∷ days)) ≤ rounds
fewer rounds d days h = let e = take-drop-length 19 days in omega arith

batch-cases :
    (o : Option (Store × Written))
    → (o ≡ none)
      ⊎ ((s : Store) × ((o ≡ some (s, confirmed_batch))
            ⊎ (o ≡ some (s, pending_batch))
            ⊎ (o ≡ some (s, failed_batch))))
batch-cases none = inl refl
batch-cases (some (s, confirmed_batch)) = inr (s, inl refl)
batch-cases (some (s, pending_batch)) = inr (s, inr (inl refl))
batch-cases (some (s, failed_batch)) = inr (s, inr (inr refl))

-- The result counts every day when the run ends in sync, and fewer when it stops before.
abbrev pub Tally : List StoredDay → ℕ → Option (Store × SyncResult) → Type 0
Tally days written none = Unit
Tally days written (some (s, r)) =
    ((r.state ≡ synced) × (r.written ≡ written + length days))
    ⊎ ((r.state ≢ synced) × (r.written < written + length days))

module _ (mint : String) (answers : Answers) (now : ℕ) where
  -- The loop of `syncNow` as the source has it, with no bound on its rounds.
  pub data Loop
      : ℕ
        → List StoredDay
        → List PlannedLink
        → ℕ
        → Store
        → Option (Store × SyncResult)
        → Type 0 where
    over :
        {i : ℕ} {links : List PlannedLink} {written : ℕ} {s : Store}
        → Loop i [] links written s (some (s, record { state = synced; written = written }))
    thrown :
        {i : ℕ} {d : StoredDay} {days : List StoredDay} {links : List PlannedLink} {written : ℕ}
        {s : Store}
        → write_batch mint
            (answers i)
            (take max_entries_per_batch (d ∷ days))
            (take max_entries_per_batch links)
            now
            s
          ≡ none
        → Loop i (d ∷ days) links written s none
    confirmed :
        {i : ℕ} {d : StoredDay} {days : List StoredDay} {links : List PlannedLink} {written : ℕ}
        {s s' : Store} {o : Option (Store × SyncResult)}
        → write_batch mint
            (answers i)
            (take max_entries_per_batch (d ∷ days))
            (take max_entries_per_batch links)
            now
            s
          ≡ some (s', confirmed_batch)
        → Loop
            (i + 1)
            (drop max_entries_per_batch (d ∷ days))
            (drop max_entries_per_batch links)
            (written + length (take max_entries_per_batch (d ∷ days)))
            s'
            o
        → Loop i (d ∷ days) links written s o
    unknown :
        {i : ℕ} {d : StoredDay} {days : List StoredDay} {links : List PlannedLink} {written : ℕ}
        {s s' : Store}
        → write_batch mint
            (answers i)
            (take max_entries_per_batch (d ∷ days))
            (take max_entries_per_batch links)
            now
            s
          ≡ some (s', pending_batch)
        → Loop i
            (d ∷ days)
            links
            written
            s
            (some (s', record { state = still_pending; written = written }))
    failed :
        {i : ℕ} {d : StoredDay} {days : List StoredDay} {links : List PlannedLink} {written : ℕ}
        {s s' : Store}
        → write_batch mint
            (answers i)
            (take max_entries_per_batch (d ∷ days))
            (take max_entries_per_batch links)
            now
            s
          ≡ some (s', failed_batch)
        → Loop i
            (d ∷ days)
            links
            written
            s
            (some (s', record { state = batch_failed; written = written }))

  pub write_all-Loop :
      (rounds i : ℕ) (days : List StoredDay) (links : List PlannedLink) (written : ℕ) (s : Store)
      → length days ≤ rounds
      → Loop i days links written s (write_all rounds mint answers now i days links written s)
  unfolding write_all
  write_all-Loop zero i [] links written s h = over
  write_all-Loop (suc rounds) i [] links written s h = over
  write_all-Loop zero i (d ∷ days) links written s h = absurd (omega arith)
  write_all-Loop (suc rounds) i (d ∷ days) links written s h =
      let batch = take max_entries_per_batch (d ∷ days) in
      let sent = write_batch mint (answers i) batch (take max_entries_per_batch links) now s in
      elim (batch-cases sent) [
        | inl e ↦ rw (write_all, e) (thrown e)
        | inr (s', inl e) ↦
            rw (write_all, e)
              (confirmed e (
                write_all-Loop rounds (i + 1) (drop max_entries_per_batch (d ∷ days))
                  (drop max_entries_per_batch links) (written + length batch) s'
                  (fewer rounds d days h)))
        | inr (s', inr (inl e)) ↦ rw (write_all, e) (unknown e)
        | inr (s', inr (inr e)) ↦ rw (write_all, e) (failed e)
      ]

  -- The days after a batch count on top of the batch.
  Tally-batch :
      (o : Option (Store × SyncResult)) (batch rest days : List StoredDay) (written : ℕ)
      → length batch + length rest ≡ length days
      → Tally rest (written + length batch) o
      → Tally days written o
  Tally-batch none batch rest days written e h = tt
  Tally-batch (some (s, r)) batch rest days written e (inl (synced_, count)) =
      inl (synced_, omega arith)
  Tally-batch (some (s, r)) batch rest days written e (inr (stopped, count)) =
      inr (stopped, omega arith)

  Loop-Tally :
      {i written : ℕ} {days : List StoredDay} {links : List PlannedLink} {s : Store}
      {o : Option (Store × SyncResult)}
      → Loop i days links written s o
      → Tally days written o
  Loop-Tally over = inl (refl, omega arith)
  Loop-Tally (thrown e) = tt
  Loop-Tally {written = written} {days = d ∷ days} (confirmed {o = o} e rest) =
      Tally-batch o (take 20 (d ∷ days)) (drop 20 (d ∷ days)) (d ∷ days) written
        (take-drop-length 20 (d ∷ days)) (Loop-Tally rest)
  Loop-Tally (unknown e) = inr (ground arith, omega arith)
  Loop-Tally (failed e) = inr (ground arith, omega arith)

  -- A run over the unsubmitted days that ends in sync reports exactly as many days written as there
  -- are, and one that stops reports fewer.
  pub write_all_counts :
      (days : List StoredDay) (links : List PlannedLink) (s : Store)
      → Tally days 0 (write_all (length days) mint answers now 0 days links 0 s)
  write_all_counts days links s =
      Loop-Tally (write_all-Loop (length days) 0 days links 0 s (omega arith))

compare_tip_in_sync :
    (q : Project) (local : Option ChainLink) {p : Project} → compare_tip q local ≡ in_sync p → q ≡ p
unfolding compare_tip
compare_tip_in_sync q none e = ground arith
compare_tip_in_sync q (some l) e = ground arith

reconcile_in_sync :
    (project : Option Project) (mint : String) (height now : ℕ) (s : Store) {s' : Store}
    {p : Project}
    → reconcile_now project mint height now s ≡ some (s', in_sync p)
    → project ≡ some p
unfolding reconcile_now reconcile_with settle_pending compare_tip
reconcile_in_sync none mint height now s e = ground arith
reconcile_in_sync (some q) mint height now s e = ground arith

module _ (digest : List ℕ → List ℕ) where
  append_guarded :
      (p : Project) (oracle : Option String) (mint : String) (answers : Answers) (now : ℕ)
      (s : Store) {s' : Store} {r : SyncResult}
      → append_days digest p oracle mint answers now s ≡ some (s', r)
      → ((oracle ≡ some p.oracle) × (is_recordable p.state ≡ true)) ⊎ ((r.written ≡ 0) × (s' ≡ s))
  unfolding append_days
  append_guarded p none mint answers now s e = inr (ground arith, ground arith)
  append_guarded p (some o) mint answers now s e = elim (Bool-cases (str_eq p.oracle o)) [
    | inr foreign ↦ ground arith
    | inl own ↦ let same = (eq_iff p.oracle o).0 own in ground arith
  ]

  after_view_guarded :
      (v : View) (oracle : Option String) (mint : String) (answers : Answers) (now : ℕ) (s : Store)
      {s' : Store} {r : SyncResult}
      → after_view digest v oracle mint answers now s ≡ some (s', r)
      → ((p : Project) × (v ≡ in_sync p)
          × (oracle ≡ some p.oracle)
          × (is_recordable p.state ≡ true))
        ⊎ ((r.written ≡ 0) × (s' ≡ s))
  after_view_guarded no_project oracle mint answers now s e = inr (ground arith, ground arith)
  after_view_guarded (pending p) oracle mint answers now s e = inr (ground arith, ground arith)
  after_view_guarded (diverged p) oracle mint answers now s e = inr (ground arith, ground arith)
  after_view_guarded (in_sync p) oracle mint answers now s e =
      elim (append_guarded p oracle mint answers now s e) [
        | inl (own, runs) ↦ inl (p, refl, own, runs)
        | inr none_written ↦ inr none_written
      ]

  -- A sync that returns either ran for an existing project that the service's own oracle key may
  -- write to and that is operating or paused, or it wrote no day and left the store as
  -- reconciling left it.
  pub sync_now_guarded :
      (project : Option Project) (oracle : Option String) (mint : String) (answers : Answers)
      (height now : ℕ) (s : Store) {s' : Store} {r : SyncResult}
      → sync_now digest project oracle mint answers height now s ≡ some (s', r)
      → ((p : Project) × (project ≡ some p)
          × (oracle ≡ some p.oracle)
          × (is_recordable p.state ≡ true))
        ⊎ ((r.written ≡ 0)
            × ((v : View) × (reconcile_now project mint height now s ≡ some (s', v))))
  unfolding sync_now
  sync_now_guarded project oracle mint answers height now s {s'} {r} e =
      elim (Option-cases (reconcile_now project mint height now s)) [
        | inl thrown_ ↦ ground arith
        | inr ((s1, v), seen) ↦
            let after : after_view digest v oracle mint answers now s1 ≡ some (s', r) =
              rw (sync_now, seen) at e in
            elim (after_view_guarded v oracle mint answers now s1 after) [
              | inl (p, here, own, runs) ↦
                  inl (p, reconcile_in_sync project mint height now s (rw here at seen), own, runs)
              | inr (zero_, same) ↦ inr (zero_, (v, rw (sym same) at seen))
            ]
      ]
