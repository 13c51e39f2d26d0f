-- ===== src/Project/Claims.antt =====
-- What the solvency view of frontend/src/lib/solana/solvency.ts promises to the holders.
use axel_sol.Prelude.{
  ℕ, ◌+◌, ◌-◌, ◌*◌, ◌≤◌, ◌≡◌, refl, ap, ◌∙◌, arith, Bool, true, Option, none, some, List, [], ◌∷◌,
  ◌++◌, sum_by, ◌↔◌, ==_iff, ◌==◌, ◌&&◌,
}
use axel_sol.Prelude.Int.{◌-ℤ◌}
use axel_sol.Money.{Checked, ok, err, ◌>>=◌, Position, pending_revenue, settled_accrued, owed, u64}
use axel_sol.Project.{ProjectAccount}
use axel_sol.Project.Solvency.{
  VaultSnapshot, ProjectSolvency, Tally, tally, solvency_of, income_check, escrow_check,
  escrow_owed, supply_check, outstanding_shares, CheckpointCheck,
}
use axel_sol.Project.Due.{Due, more, tally-Due, Due-tally, pay_all, Due-pay_all}

-- What an affirmative view says of the numbers.
record IsSolvent (project : ProjectAccount) (ps : List Position) (snapshot : VaultSnapshot)
    : Type 0 where
  due_sum : ℕ
  vault : ℕ
  escrow_due : ℕ
  due : Due project.acc_per_share ps due_sum
  held : snapshot.revenue ≡ some vault
  covered : due_sum + project.total_claimed ≤ project.total_deposited_net
  backed : project.total_deposited_net ≤ vault + project.total_claimed
  escrow : escrow_owed project ≡ ok escrow_due
  escrow_ok : (escrow_check project snapshot.escrow escrow_due).is_ok ≡ true
  supply_ok : (supply_check project snapshot.supply ps).is_ok ≡ true

income_ok_iff :
    (project : ProjectAccount) (revenue : Option ℕ) (n : ℕ)
    → ((income_check project revenue n).is_ok ≡ true) ↔ (
        (v : ℕ) × (revenue ≡ some v)
        × (n + project.total_claimed ≤ project.total_deposited_net)
        × (project.total_deposited_net ≤ v + project.total_claimed))
unfolding income_check ◌-ℤ◌
income_ok_iff project none n = (λ h. absurd (ground arith), λ h. let (v, bad, _, _) = h in cc)
income_ok_iff project (some v) n = (λ h. (v, refl, ground arith, ground arith), λ h. ground arith)

ok_left :
    {A B : Type 0} (x : Checked A) {f : A → Checked B} {b : B}
    → x >>= f ≡ ok b
    → (a : A) × (x ≡ ok a) × (f a ≡ ok b)
ok_left (ok a) e = (a, refl, e)
ok_left (err k) e = cc

all_four :
    (a b c d : Bool) → a && b && c && d ≡ true → (a ≡ true) × (b ≡ true) × (c ≡ true) × (d ≡ true)
all_four a b c d h = (ground arith, ground arith, ground arith, ground arith)

-- The view, from its four checks.
view_of : ProjectAccount → List Position → VaultSnapshot → Tally → ℕ → ProjectSolvency
view_of project ps snapshot t escrow_due =
    let income = income_check project snapshot.revenue t.owed in
    let escrow = escrow_check project snapshot.escrow escrow_due in
    let supply = supply_check project snapshot.supply ps in
    let checkpoints : CheckpointCheck = record { ahead = t.ahead; is_ok = t.ahead == 0 } in
    record {
      income = income;
      escrow = escrow;
      supply = supply;
      checkpoints = checkpoints;
      is_ok = income.is_ok && escrow.is_ok && supply.is_ok && checkpoints.is_ok;
    }

ok_inj : {A : Type 0} {a b : A} → ok a ≡ ok b → a ≡ b
ok_inj e = cc

solvency_of-IsSolvent :
    (project : ProjectAccount) (ps : List Position) (snapshot : VaultSnapshot) {s : ProjectSolvency}
    → solvency_of project ps snapshot ≡ ok s
    → s.is_ok ≡ true
    → IsSolvent project ps snapshot
unfolding solvency_of view_of
solvency_of-IsSolvent project ps snapshot {s} e h =
    let (t, at, next) =
      ok_left (tally project.acc_per_share (record { owed = 0; ahead = 0 }) ps) e in
    let (escrow_due, at_escrow, made) = ok_left (escrow_owed project) next in
    let same : view_of project ps snapshot t escrow_due ≡ s = ok_inj made in
    let (income, escrow, supply, none_ahead) =
      all_four (income_check project snapshot.revenue t.owed).is_ok
        (escrow_check project snapshot.escrow escrow_due).is_ok
        (supply_check project snapshot.supply ps).is_ok (t.ahead == 0)
        (ap (λ v. v.is_ok) same ∙ h) in
    let (n, due, sum) = tally-Due project.acc_per_share _ ps at ((==_iff t.ahead 0).0 none_ahead) in
    let (v, held, covered, backed) = (income_ok_iff project snapshot.revenue t.owed).0 income in
    record {
      due_sum = n;
      vault = v;
      escrow_due = escrow_due;
      due = due;
      held = held;
      covered = omega arith;
      backed = backed;
      escrow = at_escrow;
      escrow_ok = escrow;
      supply_ok = supply;
    }

IsSolvent-solvency_of :
    (project : ProjectAccount) (ps : List Position) (snapshot : VaultSnapshot)
    → IsSolvent project ps snapshot
    → (s : ProjectSolvency) × (solvency_of project ps snapshot ≡ ok s) × (s.is_ok ≡ true)
unfolding solvency_of view_of
IsSolvent-solvency_of project ps snapshot g =
    let covered = g.covered in
    let income =
      (income_ok_iff project snapshot.revenue (0 + g.due_sum)).1
        (g.vault, g.held, omega arith, g.backed) in
    (
      view_of project ps snapshot (record { owed = 0 + g.due_sum; ahead = 0 }) g.escrow_due,
      rw (Due-tally project.acc_per_share (record { owed = 0; ahead = 0 }) g.due, g.escrow) refl,
      rw (income, g.escrow_ok, g.supply_ok) refl,
    )

-- If the view finds a project solvent, all its holders can claim, one after another, and the
-- revenue vault pays every one of them.
pub solvency_of-pay_all :
    (project : ProjectAccount) (ps : List Position) (snapshot : VaultSnapshot) {s : ProjectSolvency}
    → solvency_of project ps snapshot ≡ ok s
    → s.is_ok ≡ true
    → (vault rest : ℕ) × (snapshot.revenue ≡ some vault)
      × (pay_all project.acc_per_share ps vault ≡ some rest)
solvency_of-pay_all project ps snapshot e h =
    let g = solvency_of-IsSolvent project ps snapshot e h in
    let covered = g.covered in
    let backed = g.backed in
    (
      g.vault,
      g.vault - g.due_sum,
      g.held,
      Due-pay_all project.acc_per_share g.vault g.due (omega arith),
    )

-- A position after its claim, at this value of the accumulator.
abbrev pub claimed_at : ℕ → Position → Position
claimed_at acc p = record p { acc_checkpoint = acc; accrued = 0 }

pending_revenue-claimed_at :
    (acc : ℕ) (p : Position) → pending_revenue (claimed_at acc p) acc ≡ ok 0
unfolding pending_revenue settled_accrued owed u64
pending_revenue-claimed_at acc p =
    let none_owed : p.shares * (acc - acc) ≡ 0 = grind arith in ground arith

Due-claimed :
    (acc : ℕ) (before : List Position) (p : Position) (after : List Position) {n : ℕ}
    → Due acc (before ++ p ∷ after) n
    → (q m : ℕ) × (pending_revenue p acc ≡ ok q)
      × Due acc (before ++ claimed_at acc p ∷ after) m
      × (n ≡ q + m)
Due-claimed acc [] p after (more q {n = n} pending due) =
    (q, 0 + n, pending, more 0 (pending_revenue-claimed_at acc p) due, omega arith)
Due-claimed acc (b ∷ before) p after (more k pending due) =
    let (q, m, own, rest, sum) = Due-claimed acc before p after due in
    (q, k + m, own, more k pending rest, omega arith)

shares_kept :
    (acc : ℕ) (before : List Position) (p : Position) (after : List Position)
    → sum_by (λ x. x.shares) (before ++ claimed_at acc p ∷ after)
      ≡ sum_by (λ x. x.shares) (before ++ p ∷ after)
shares_kept acc [] p after = refl
shares_kept acc (b ∷ before) p after = ap (λ n. b.shares + n) (shares_kept acc before p after)

-- A project that the view finds solvent it finds solvent again after any one holder's claim, which
-- empties the position, adds the amount to what was claimed and takes it from the vault.
pub solvency_of-claimed_at :
    (project : ProjectAccount) (before : List Position) (p : Position) (after : List Position)
    (snapshot : VaultSnapshot) {s : ProjectSolvency}
    → solvency_of project (before ++ p ∷ after) snapshot ≡ ok s
    → s.is_ok ≡ true
    → (q vault : ℕ) × (s' : ProjectSolvency) × (pending_revenue p project.acc_per_share ≡ ok q)
      × (snapshot.revenue ≡ some vault)
      × (q ≤ vault)
      × (solvency_of
            (record project { total_claimed = project.total_claimed + q })
            (before ++ claimed_at project.acc_per_share p ∷ after)
            (record snapshot { revenue = some (vault - q) })
          ≡ ok s')
      × (s'.is_ok ≡ true)
unfolding escrow_owed supply_check outstanding_shares
solvency_of-claimed_at project before p after snapshot e h =
    let g = solvency_of-IsSolvent project (before ++ p ∷ after) snapshot e h in
    let covered = g.covered in
    let backed = g.backed in
    let (q, m, own, rest, sum) = Due-claimed project.acc_per_share before p after g.due in
    let (s', made, good) =
      IsSolvent-solvency_of (record project { total_claimed = project.total_claimed + q })
        (before ++ claimed_at project.acc_per_share p ∷ after)
        (record snapshot { revenue = some (g.vault - q) })
        (record {
          due_sum = m;
          vault = g.vault - q;
          escrow_due = g.escrow_due;
          due = rest;
          held = refl;
          covered = omega arith;
          backed = omega arith;
          escrow = g.escrow;
          escrow_ok = g.escrow_ok;
          supply_ok = rw (shares_kept project.acc_per_share before p after) g.supply_ok;
        }) in
    (q, g.vault, s', own, g.held, omega arith, made, good)
