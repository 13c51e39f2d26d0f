-- ===== src/Project/Due.antt =====
-- What the positions of a project have pending together, and claims against the vault: the loop of
-- `solvencyOf` in frontend/src/lib/solana/solvency.ts.
use axel_sol.Prelude.{
  ℕ, ◌+◌, ◌-◌, ◌≤◌, ◌≡◌, refl, ap, ◌∙◌, arith, false, Option, none, some, List, [], ◌∷◌, ltb,
  if◌then◌else◌, ◌⊎◌, inl, inr, Bool-cases,
}
use axel_sol.Money.{
  MathErrorKind, Checked, ok, err, Position, pending_revenue, settled_accrued, owed,
}
use axel_sol.Project.Solvency.{Tally, tally}

abbrev pay : Checked ℕ → ℕ → (ℕ → Option ℕ) → Option ℕ
pay (ok amount) vault next = if ltb vault amount then none else next (vault - amount)
pay (err e) vault next = none

-- The holders claim one after another: each takes what is pending from the vault, which must hold
-- that much.
pub pay_all : ℕ → List Position → ℕ → Option ℕ
pay_all acc [] vault = some vault
pay_all acc (p ∷ ps) vault = pay (pending_revenue p acc) vault (λ rest. pay_all acc ps rest)

Checked-cases : (x : Checked ℕ) → ((q : ℕ) × (x ≡ ok q)) ⊎ ((k : MathErrorKind) × (x ≡ err k))
Checked-cases (ok q) = inl (q, refl)
Checked-cases (err k) = inr (k, refl)

module _ (acc : ℕ) where
  -- The positions have `n` pending together, each part computed without an error.
  pub data Due : List Position → ℕ → Type 0 where
    nothing : Due [] 0
    more :
        {p : Position} {ps : List Position} (q : ℕ) {n : ℕ}
        → pending_revenue p acc ≡ ok q
        → Due ps n
        → Due (p ∷ ps) (q + n)

  tally_cases :
      (t : Tally) (p : Position) (ps : List Position) {r : Tally}
      → tally acc t (p ∷ ps) ≡ ok r
      → (tally acc (record t { ahead = t.ahead + 1 }) ps ≡ ok r)
        ⊎ ((q : ℕ) × (pending_revenue p acc ≡ ok q)
            × (tally acc (record t { owed = t.owed + q }) ps ≡ ok r))
  unfolding tally
  tally_cases t p ps {r} e = elim (Bool-cases (ltb acc p.acc_checkpoint)) [
    | inl before ↦ inl (rw (tally, before) at e)
    | inr after ↦ elim (Checked-cases (pending_revenue p acc)) [
      | inl (q, pending) ↦ inr (q, pending, rw (tally, after, pending) at e)
      | inr (k, thrown) ↦ let bad : err k ≡ ok r = rw (tally, after, thrown) at e in cc
    ]
  ]

  tally_ahead :
      (t : Tally) (ps : List Position) {r : Tally} → tally acc t ps ≡ ok r → t.ahead ≤ r.ahead
  unfolding tally
  tally_ahead t [] e = ground arith
  tally_ahead t (p ∷ ps) {r} e = elim (tally_cases t p ps e) [
    | inl rest ↦ let ih = tally_ahead (record t { ahead = t.ahead + 1 }) ps rest in omega arith
    | inr (q, pending, rest) ↦ tally_ahead (record t { owed = t.owed + q }) ps rest
  ]

  -- With no position ahead of the accumulator, the loop adds up what is pending.
  pub tally-Due :
      (t : Tally) (ps : List Position) {r : Tally}
      → tally acc t ps ≡ ok r
      → r.ahead ≡ 0
      → (n : ℕ) × Due ps n × (r.owed ≡ t.owed + n)
  unfolding tally
  tally-Due t [] e h = (0, nothing, ground arith)
  tally-Due t (p ∷ ps) {r} e h = elim (tally_cases t p ps e) [
    | inl rest ↦
        let ih = tally_ahead (record t { ahead = t.ahead + 1 }) ps rest in absurd (omega arith)
    | inr (q, pending, rest) ↦
        let (n, due, sum) = tally-Due (record t { owed = t.owed + q }) ps rest h in
        (q + n, more q pending due, omega arith)
  ]

  settled_not_ahead :
      (p : Position) {q : ℕ} → pending_revenue p acc ≡ ok q → ltb acc p.acc_checkpoint ≡ false
  unfolding pending_revenue settled_accrued owed
  settled_not_ahead p e = ground arith

  pub Due-tally :
      (t : Tally) {ps : List Position} {n : ℕ}
      → Due ps n
      → tally acc t ps ≡ ok (record t { owed = t.owed + n })
  unfolding tally
  Due-tally t nothing = ap ok (ap (λ o. record t { owed = o }) (omega arith))
  Due-tally t (more {p = p} q {n = n} pending due) =
      rw (tally, settled_not_ahead p pending, pending)
        (Due-tally (record t { owed = t.owed + q }) due
          ∙ ap ok (ap (λ o. record t { owed = o }) (omega arith)))

  pub Due-pay_all :
      {ps : List Position} {n : ℕ} (vault : ℕ)
      → Due ps n
      → n ≤ vault
      → pay_all acc ps vault ≡ some (vault - n)
  unfolding pay_all
  Due-pay_all vault nothing h = ap some (omega arith)
  Due-pay_all vault (more q {n = n} pending due) h =
      let enough : ltb vault q ≡ false = ground arith in
      rw (pending, enough) (Due-pay_all (vault - q) due (omega arith) ∙ ap some (omega arith))
