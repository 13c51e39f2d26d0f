-- ===== src/Verify/Chain.antt =====
-- The chain that the backend plans is the chain that the browser rebuilds.
use axel_sol.Prelude.{
  ℕ, zero, suc, ◌+◌, ◌-◌, ◌≤◌, ◌<◌, ◌≡◌, refl, ap, ◌∙◌, arith, List, [], ◌∷◌, ◌++◌, length, take,
  drop, Text, text_eq_refl, lower, none, some, replicate, get_elem?, if◌then◌else◌, ◌==◌,
  append-nil, append_assoc, take-append_exact, drop-all, length-take-le,
}
use axel_sol.Hex.{to_hex, u32_le}
use axel_sol.Hex.Laws.{IsBytes, from_hex-to_hex}
use axel_sol.Dates.{iso_from_date_number}
use axel_sol.Dates.RoundTrip.{IsDay, date_number-iso}
use axel_sol.Telemetry
use axel_sol.Telemetry.Store.{StoredDay, PlannedLink}
use axel_sol.Telemetry.Chain.{plan_from, plan}
use axel_sol.Telemetry.Chain.Plan.{Chain, append_all}
use axel_sol.Verify.{
  PublishedDay, OnChainTelemetry, RecomputedDay, ChainCheck, match, ahead, same, layout, next_head,
  document_hash, Walk, go_on, check_day, finish, walk_days, check_telemetry_chain, empty_head,
}

-- What the backend serves for a day of the chain.
abbrev pub published_day : StoredDay → PlannedLink → PublishedDay
published_day d l = record {
  date = some (iso_from_date_number d.date);
  canonical = d.canonical;
  data_hash = some d.data_hash;
  head = some l.head_after;
}

abbrev pub publish : List StoredDay → List PlannedLink → List PublishedDay
publish [] links = []
publish (d ∷ days) [] = []
publish (d ∷ days) (l ∷ links) = published_day d l ∷ publish days links

-- The date of the last day, or the one before the first.
abbrev pub last_date : ℕ → List StoredDay → ℕ
last_date previous [] = previous
last_date previous (d ∷ days) = last_date d.date days

-- A digest of SHA-256's shape: 32 bytes.
abbrev pub IsSha256 : (List ℕ → List ℕ) → Type 0
IsSha256 digest = (x : List ℕ) → (length (digest x) ≡ 32) × IsBytes (digest x)

-- The chain as `create_project` leaves it.
abbrev pub start : Chain
start = record { count = 0; head = Telemetry.empty_head }

module _ (digest : List ℕ → List ℕ) where
  -- What the project account holds once the first `n` days are recorded.
  abbrev pub on_chain_after : ℕ → List StoredDay → OnChainTelemetry
  on_chain_after n days = record {
    head = (append_all digest start (take n days)).head;
    count = n;
    last_date = last_date 0 (take n days);
  }

  -- Collected days: real, in order, each with the hash of its own text.
  abbrev pub AreCollected : ℕ → List StoredDay → Type 0
  AreCollected previous [] = Unit
  AreCollected previous (d ∷ days) =
      (previous < d.date)
      × IsDay d.date
      × (d.data_hash ≡ to_hex (digest d.canonical))
      × AreCollected d.date days

  -- A head that is the hex text of 32 bytes.
  abbrev IsHead : Text → Type 0
  IsHead head = (b : List ℕ) × (length b ≡ 32) × IsBytes b × (head ≡ to_hex b)

  layout_exact :
      (h d : List ℕ) (date : ℕ)
      → length h ≡ 32
      → length d ≡ 32
      → layout h date d ≡ some (h ++ u32_le date ++ d)
  unfolding layout
  layout_exact h d date eh ed =
      let spare =
        drop-all (length d) (take 32 (drop 36 (h ++ replicate 68 0)))
          (rw ed (length-take-le 32 (drop 36 (h ++ replicate 68 0)))) in
      rw (spare, eh, ed, take-append_exact 32 h (replicate 32 0) eh, append-nil)

module _ (digest : List ℕ → List ℕ) (sha : IsSha256 digest) where
  next_head_agrees :
      (head data_hash : Text) (date : ℕ)
      → IsHead digest head
      → IsHead digest data_hash
      → next_head digest head date data_hash ≡ some (Telemetry.next_head digest head date data_hash)
  unfolding next_head Telemetry.next_head
  next_head_agrees head data_hash date (h, lh, bh, eh) (d, ld, bd, ed) =
      let (fh, kh) = from_hex-to_hex h bh in
      let (fd, kd) = from_hex-to_hex d bd in
      rw (eh, ed, fh, fd, kh, kd, layout_exact digest h d date lh ld)

  -- The recomputed days of a chain that goes on from a state.
  recomputed : Chain → List StoredDay → List RecomputedDay
  recomputed c [] = []
  recomputed c (d ∷ days) =
      let after = Telemetry.next_head digest c.head d.date d.data_hash in
      record { date = d.date; data_hash = d.data_hash; head = after }
      ∷ recomputed (record { count = c.count + 1; head = after }) days

  IsHead-IsHead : (x : List ℕ) → IsHead digest (to_hex (digest x))
  IsHead-IsHead x = (digest x, (sha x).0, (sha x).1, refl)

  check_day_collected :
      (i : ℕ) (d : StoredDay) (l : PlannedLink) (w : Walk digest)
      → IsHead digest w.head
      → w.previous < d.date
      → IsDay d.date
      → d.data_hash ≡ to_hex (digest d.canonical)
      → l.head_after ≡ Telemetry.next_head digest w.head d.date d.data_hash
      → check_day digest i (published_day d l) w
        ≡ some (
            go_on (record {
              days =
                  w.days
                  ++ record { date = d.date; data_hash = d.data_hash; head = l.head_after } ∷ [];
              head = l.head_after;
              previous = d.date;
            }))
  unfolding check_day document_hash same
  check_day_collected i d l w h later real hash after =
      let agrees =
        next_head_agrees w.head d.data_hash d.date h (rw hash (IsHead-IsHead d.canonical)) in
      rw (date_number-iso d.date real, check_day)
        (ground
          (arith, agrees, text_eq_refl (lower d.data_hash), text_eq_refl (lower l.head_after)))

  walk_days-go_on :
      (on_chain : OnChainTelemetry) (i : ℕ) (day : PublishedDay) (published : List PublishedDay)
      (w w' : Walk digest)
      → check_day digest i day w ≡ some (go_on w')
      → walk_days digest on_chain i (day ∷ published) w
        ≡ walk_days digest on_chain (i + 1) published w'
  unfolding walk_days
  walk_days-go_on on_chain i day published w w' e = ground arith

  walk_days_collected :
      (on_chain : OnChainTelemetry) (i count : ℕ) (days : List StoredDay) (w : Walk digest)
      → IsHead digest w.head
      → AreCollected digest w.previous days
      → walk_days digest on_chain i (publish days (plan_from digest count w.head days)) w
        ≡ finish digest on_chain (record {
          days = w.days ++ recomputed (record { count = count; head = w.head }) days;
          head = (append_all digest (record { count = count; head = w.head }) days).head;
          previous = last_date w.previous days;
        })
  unfolding plan_from recomputed append_all
  walk_days_collected on_chain i count [] w h c = unfold walk_days in rw append-nil
  walk_days_collected on_chain i count (d ∷ days) w h (later, real, hash, rest) =
      let after = Telemetry.next_head digest w.head d.date d.data_hash in
      let link : PlannedLink = record {
        date = d.date;
        position = count + 1;
        head_before = w.head;
        head_after = after;
      } in
      let day : RecomputedDay = record { date = d.date; data_hash = d.data_hash; head = after } in
      let w' : Walk digest = record {
        days = w.days ++ day ∷ [];
        head = after;
        previous = d.date;
      } in
      let ih =
        walk_days_collected on_chain (i + 1) (count + 1) days w'
          (unfold Telemetry.next_head in IsHead-IsHead _) rest in
      walk_days-go_on on_chain i (published_day d link) _ w w'
        (check_day_collected i d link w h later real hash refl)
      ∙ ih
      ∙ rw append_assoc

  -- The recomputed day after which the chain stood where `n` days lead it.
  recomputed_nth :
      (n previous : ℕ) (c : Chain) (days : List StoredDay)
      → n < length days
      → (r : RecomputedDay) × (get_elem? (recomputed c days) n ≡ some r)
        × (r.head ≡ (append_all digest c (take (suc n) days)).head)
        × (r.date ≡ last_date previous (take (suc n) days))
  unfolding recomputed append_all
  recomputed_nth n previous c [] h = absurd (omega arith)
  recomputed_nth zero previous c (d ∷ days) h = (_, refl, refl, refl)
  recomputed_nth (suc n) previous c (d ∷ days) h =
      let (r, e, e', e'') =
        recomputed_nth n d.date
          (record {
            count = c.count + 1;
            head = Telemetry.next_head digest c.head d.date d.data_hash;
          })
          days (omega arith) in
      (r, e, e', e'')

  length-recomputed : (c : Chain) (days : List StoredDay) → length (recomputed c days) ≡ length days
  unfolding recomputed
  length-recomputed c [] = refl
  length-recomputed c (d ∷ days) = ap suc (
      length-recomputed
        (record {
          count = c.count + 1;
          head = Telemetry.next_head digest c.head d.date d.data_hash;
        })
        days)

  finish_prefix :
      (n : ℕ) (days : List StoredDay) (head : Text) (previous : ℕ)
      → n ≤ length days
      → (check : ChainCheck) × (finish digest
            (on_chain_after digest n days)
            (record { days = recomputed start days; head = head; previous = previous })
          ≡ some check)
        × (check.outcome ≡ (if length days == n then match else ahead))
        × (check.problem ≡ none)
        × (check.head ≡ (append_all digest start (take n days)).head)
  unfolding finish same append_all
  finish_prefix zero days head previous h =
      let check : ChainCheck = record {
        outcome = if length days == 0 then match else ahead;
        days = recomputed start days;
        problem = none;
        head = Telemetry.empty_head;
      } in
      (
        check,
        ground (arith, length-recomputed start days, text_eq_refl (lower empty_head)),
        refl,
        refl,
        refl,
      )
  finish_prefix (suc n) days head previous h =
      let (r, e, e', e'') = recomputed_nth n 0 start days h in
      let check : ChainCheck = record {
        outcome = if length days == suc n then match else ahead;
        days = recomputed start days;
        problem = none;
        head = r.head;
      } in
      let index : suc n - 1 ≡ n = omega arith in
      (
        check,
        ground (arith, length-recomputed start days, text_eq_refl (lower r.head), index),
        refl,
        refl,
        e',
      )

  -- With a digest of 32 bytes, collected days that the backend plans onto the empty chain and
  -- publishes with the planned heads are accepted by the browser, whatever number of them the
  -- program has recorded: the check does not throw, finds no problem, gives the head that the program holds, and says `match` where every
  -- published day is recorded and `ahead` where some are not yet.
  pub check_telemetry_chain-plan :
      (n : ℕ) (days : List StoredDay)
      → n ≤ length days
      → AreCollected digest 0 days
      → (check : ChainCheck) × (check_telemetry_chain digest
            (publish days
              (plan digest (record { count = 0; head = Telemetry.empty_head; last_date = 0 }) days))
            (on_chain_after digest n days)
          ≡ some check)
        × (check.outcome ≡ (if length days == n then match else ahead))
        × (check.problem ≡ none)
        × (check.head ≡ (append_all digest start (take n days)).head)
  unfolding check_telemetry_chain plan
  check_telemetry_chain-plan n days h c =
      let (check, e, facts, f', f'') =
        finish_prefix n days (append_all digest start days).head (last_date 0 days) h in
      let zero_head : IsHead digest Telemetry.empty_head =
        (replicate 32 0, refl, omega arith, unfold to_hex in refl) in
      (
        check,
        walk_days_collected (on_chain_after digest n days) 0 0 days
              (record { days = []; head = Telemetry.empty_head; previous = 0 }) zero_head c
            ∙ e,
        facts,
        f',
        f'',
      )
