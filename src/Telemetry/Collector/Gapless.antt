-- ===== src/Telemetry/Collector/Gapless.antt =====
-- The days that one car has while others are still to be read.
use axel_sol.Prelude.{
  ℕ, zero, suc, ◌+◌, ◌≤◌, ◌<◌, ◌≡◌, ◌⊎◌, ◌↔◌, inl, inr, refl, ap, subst, sym, Text, ◌∙◌, arith,
  true, false, Option, none, some, List, [], ◌∷◌, ◌++◌, All, ◌==◌, ==_iff, if◌then◌else◌, In,
  Bool-cases,
}
use axel_sol.Telemetry.{DayFigures}
use axel_sol.Telemetry.Store.{Store}
use axel_sol.Telemetry.Collector.{
  FleetCar, CollectResult, Run, days_from, includes, has_failed, is_yandex, recorded, save,
  is_reading, fail_reading,
}

-- A car's result while the days `dates` are still to be read, in order: it has the first of its
-- due days, all those that are not among `dates`, or it stopped at the first day that it lacks.
pub record Going (dates due : List ℕ) (r : CollectResult) : Type 0 where
  pub start : ℕ
  pub count : ℕ
  pub got : ℕ
  pub due_from : due ≡ days_from start count
  pub collected_from : r.collected ≡ days_from start got
  pub bound : got ≤ count
  pub waiting :
      r.failed_at ≡ none
      → All (λ x. (x < start) ⊎ (start + got ≤ x)) dates
        × ((y : ℕ) → start + got ≤ y → y < start + count → In y dates)
  pub stuck : (d : ℕ) → r.failed_at ≡ some d → (d ≡ start + got) × (got < count)

pub includes_days :
    (d start count : ℕ)
    → (includes d (days_from start count) ≡ true) ↔ ((start ≤ d) × (d < start + count))
includes_days d start zero = (λ h. absurd (ground arith), λ h. absurd (omega arith))
includes_days d start (suc n) =
    let ih = includes_days d (start + 1) n in
    elim (Bool-cases (start == d)) [
      | inl own ↦
          let e = (==_iff start d).0 own in
          (λ h. (omega arith, omega arith), λ h. rw (includes, own) refl)
      | inr other ↦ (
        λ h.
            let later = ih.0 (rw (includes, other) at h) in
            let a = later.0 in let b = later.1 in (omega arith, omega arith),
        λ h.
            let a = h.0 in
            let b = h.1 in
            let past : start + 1 ≤ d = ground arith in
            rw (includes, other) (ih.1 (past, omega arith)),
      )
    ]

days_from_last : (start n : ℕ) → days_from start n ++ (start + n) ∷ [] ≡ days_from start (suc n)
days_from_last start zero = ap (λ x. x ∷ []) (omega arith)
days_from_last start (suc n) =
    ap (λ l. start ∷ l)
      (ap (λ x. days_from (start + 1) n ++ x ∷ []) (omega arith) ∙ days_from_last (start + 1) n)

pub All-In : {A : Type 0} (P : A → Type 0) (a : A) (xs : List A) → All P xs → In a xs → P a
All-In P a [] h i = elim i [ ]
All-In P a (x ∷ xs) (h, hs) (inl e) = subst P e h
All-In P a (x ∷ xs) (h, hs) (inr i) = All-In P a xs hs i

pub All-map :
    {A : Type 0} (P Q : A → Type 0) (xs : List A) → ((a : A) → P a → Q a) → All P xs → All Q xs
All-map P Q [] f h = tt
All-map P Q (x ∷ xs) f (h, hs) = (f x h, All-map P Q xs f hs)

-- A result stays as far as it is, when a day passes that is not one that it waits for.
Going-passed :
    (d : ℕ) {dates due : List ℕ} {r : CollectResult}
    → Going (d ∷ dates) due r
    → (r.failed_at ≡ none → includes d due ≡ false)
    → Going dates due r
Going-passed d {dates} {due} {r} g off = record {
  start = g.start;
  count = g.count;
  got = g.got;
  due_from = g.due_from;
  collected_from = g.collected_from;
  bound = g.bound;
  waiting = λ e. (
    (g.waiting e).0.1,
    λ y a b. elim ((g.waiting e).1 y a b) [
      | inl own ↦
          let bound = g.bound in
          let on : includes d due ≡ true =
            rw g.due_from ((includes_days d g.start g.count).1 (omega arith, omega arith)) in
          let no_one : true ≡ false = sym on ∙ off e in cc
      | inr later ↦ later
    ],
  );
  stuck = g.stuck;
}

-- The day that a result waits for is the first that it lacks.
Going-next :
    (d : ℕ) {dates due : List ℕ} {r : CollectResult} (g : Going (d ∷ dates) due r)
    → All (λ x. d < x) dates
    → r.failed_at ≡ none
    → includes d due ≡ true
    → (d ≡ g.start + g.got) × (g.got < g.count)
Going-next d {dates} {due} {r} g asc e on =
    let here = (includes_days d g.start g.count).0 (rw g.due_from at on) in
    let from = here.0 in
    let to = here.1 in
    let first = (g.waiting e).0.0 in
    let at_least : g.start + g.got ≤ d = ground arith in
    let missing = (g.waiting e).1 (g.start + g.got) (omega arith) (omega arith) in
    elim missing [
      | inl own ↦ (own, omega arith)
      | inr later ↦
          let after = All-In (λ x. d < x) (g.start + g.got) dates asc later in absurd (omega arith)
    ]

Going-stored :
    (d : ℕ) {dates due : List ℕ} {r : CollectResult}
    → Going (d ∷ dates) due r
    → All (λ x. d < x) dates
    → r.failed_at ≡ none
    → includes d due ≡ true
    → Going dates due (record r { collected = r.collected ++ d ∷ [] })
Going-stored d {dates} {due} {r} g asc e on =
    let at = Going-next d g asc e on in
    let own = at.0 in
    let more = at.1 in
    record {
      start = g.start;
      count = g.count;
      got = suc g.got;
      due_from = g.due_from;
      collected_from =
          ap (λ l. l ++ d ∷ []) g.collected_from
          ∙ ap (λ x. days_from g.start g.got ++ x ∷ []) own
          ∙ days_from_last g.start g.got;
      bound = omega arith;
      waiting = λ h. (
        All-map (λ x. d < x) _ dates (λ x lt. inr (omega arith)) asc,
        λ y a b. elim ((g.waiting e).1 y (omega arith) b) [
          | inl same ↦ absurd (omega arith)
          | inr later ↦ later
        ],
      );
      stuck = λ k h. let no_failure : none ≡ some k = sym e ∙ h in cc;
    }

Going-failed :
    (d : ℕ) {dates due : List ℕ} {r : CollectResult}
    → Going (d ∷ dates) due r
    → All (λ x. d < x) dates
    → r.failed_at ≡ none
    → includes d due ≡ true
    → Going dates due (record r { failed_at = some d })
Going-failed d {dates} {due} {r} g asc e on =
    let at = Going-next d g asc e on in
    let own = at.0 in
    let more = at.1 in
    record {
      start = g.start;
      count = g.count;
      got = g.got;
      due_from = g.due_from;
      collected_from = g.collected_from;
      bound = g.bound;
      waiting = λ h. cc;
      stuck = λ k h. let same : d ≡ k = ground arith in (omega arith, more);
    }

-- `recorded`, whether the day was stored or not.
Going-recorded :
    (d : ℕ) {dates due : List ℕ} {r : CollectResult} (o : Option Store) (s : Store)
    → Going (d ∷ dates) due r
    → All (λ x. d < x) dates
    → r.failed_at ≡ none
    → includes d due ≡ true
    → Going dates due (recorded d r o s).0
Going-recorded d none s g asc e on = Going-failed d g asc e on
Going-recorded d (some s') s g asc e on = Going-stored d g asc e on

module _ (publish : FleetCar → ℕ → DayFigures → List ℕ × Text) (now : ℕ) where
  pub save-Going :
      (car : FleetCar) (d : ℕ) (figures : Option DayFigures) (s : Store) {dates due : List ℕ}
      {r : CollectResult}
      → Going (d ∷ dates) due r
      → All (λ x. d < x) dates
      → includes d due ≡ true
      → Going dates due (save publish now car d figures r s).0
  unfolding save
  save-Going car d figures s {r = r} g asc on = elim (Bool-cases (has_failed r)) [
    | inl failed ↦ rw (save, failed) (Going-passed d g (λ e. absurd (ground arith)))
    | inr off ↦
        let e : r.failed_at ≡ none = ground arith in
        rw (save, off) (Going-recorded d _ s g asc e on)
  ]

  -- A car that is read day by day, with the days left; a simulated car is done.
  abbrev pub FineAt : List ℕ → Run → Type 0
  FineAt dates run = Going (if is_yandex run.car then dates else []) run.due run.result

  pub passed_run :
      (d : ℕ) (dates : List ℕ) (run : Run)
      → is_reading publish now d run ≡ false
      → FineAt (d ∷ dates) run
      → FineAt dates run
  passed_run d dates run off g = elim (Bool-cases (is_yandex run.car)) [
    | inl yandex ↦ rw yandex (Going-passed d (rw yandex at g) (λ e. ground arith))
    | inr simulated_ ↦ rw simulated_ (rw simulated_ at g)
  ]

  pub read_run :
      (d : ℕ) (dates : List ℕ) (run : Run) (figures : Option DayFigures) (s : Store)
      → All (λ x. d < x) dates
      → is_reading publish now d run ≡ true
      → FineAt (d ∷ dates) run
      → FineAt dates (record run { result = (save publish now run.car d figures run.result s).0 })
  read_run d dates run figures s asc on g =
      let yandex : is_yandex run.car ≡ true = ground arith in
      let due : includes d run.due ≡ true = ground arith in
      rw yandex (save-Going run.car d figures s (rw yandex at g) asc due)

  pub fail_run :
      (d : ℕ) (dates : List ℕ) (run : Run)
      → All (λ x. d < x) dates
      → FineAt (d ∷ dates) run
      → FineAt dates (fail_reading publish now d run)
  fail_run d dates run asc g = elim (Bool-cases (is_reading publish now d run)) [
    | inl on ↦
        let yandex : is_yandex run.car ≡ true = ground arith in
        let due : includes d run.due ≡ true = ground arith in
        let e : run.result.failed_at ≡ none = ground arith in
        rw (fail_reading, on) (rw yandex (Going-failed d (rw yandex at g) asc e due))
    | inr off ↦ rw (fail_reading, off) (passed_run d dates run off g)
  ]
