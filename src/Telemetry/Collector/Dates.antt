-- ===== src/Telemetry/Collector/Dates.antt =====
-- Lists of days: in order, without repetition.
use axel_sol.Prelude.{
  ℕ, zero, suc, ◌+◌, ◌≤◌, ◌<◌, ◌≡◌, inl, inr, refl, ap, ap₂, sym, subst, ◌∙◌, arith, List, [], ◌∷◌,
  ◌++◌, All, ltb, ◌==◌, ==_iff, In, Bool-cases,
}
use axel_sol.Telemetry.Collector.{days_from, insert_new, sorted_set}
use axel_sol.Telemetry.Collector.Gapless.{All-map}

abbrev pub Ascending : List ℕ → Type 0
Ascending [] = Unit
Ascending (d ∷ ds) = All (λ x. d < x) ds × Ascending ds

insert_new-All : (P : ℕ → Type 0) (d : ℕ) (ds : List ℕ) → P d → All P ds → All P (insert_new d ds)
insert_new-All P d [] h hs = (h, tt)
insert_new-All P d (x ∷ xs) h (k, ks) = elim (Bool-cases (ltb d x)) [
  | inl less ↦ rw (insert_new, less) (h, (k, ks))
  | inr off ↦ elim (Bool-cases (d == x)) [
    | inl same ↦ rw (insert_new, off, same) (k, ks)
    | inr other ↦ rw (insert_new, off, other) (k, insert_new-All P d xs h ks)
  ]
]

insert_new-Ascending : (d : ℕ) (ds : List ℕ) → Ascending ds → Ascending (insert_new d ds)
insert_new-Ascending d [] h = (tt, tt)
insert_new-Ascending d (x ∷ xs) (k, ks) = elim (Bool-cases (ltb d x)) [
  | inl less ↦
      rw (insert_new, less)
        ((ground arith, All-map (λ y. x < y) (λ y. d < y) xs (λ y lt. ground arith) k), (k, ks))
  | inr off ↦ elim (Bool-cases (d == x)) [
    | inl same ↦ rw (insert_new, off, same) (k, ks)
    | inr other ↦
        rw (insert_new, off, other)
          (insert_new-All (λ y. x < y) d xs (ground arith) k, insert_new-Ascending d xs ks)
  ]
]

pub sorted_set-Ascending : (ds : List ℕ) → Ascending (sorted_set ds)
unfolding sorted_set
sorted_set-Ascending [] = tt
sorted_set-Ascending (d ∷ ds) = insert_new-Ascending d (sorted_set ds) (sorted_set-Ascending ds)

In-insert_new : (d : ℕ) (ds : List ℕ) → In d (insert_new d ds)
In-insert_new d [] = inl refl
In-insert_new d (x ∷ xs) = elim (Bool-cases (ltb d x)) [
  | inl less ↦ rw (insert_new, less) (inl refl)
  | inr off ↦ elim (Bool-cases (d == x)) [
    | inl same ↦ rw (insert_new, off, same) (inl (sym ((==_iff d x).0 same)))
    | inr other ↦ rw (insert_new, off, other) (inr (In-insert_new d xs))
  ]
]

In-insert_new_other : (y d : ℕ) (ds : List ℕ) → In y ds → In y (insert_new d ds)
In-insert_new_other y d [] h = elim h [ ]
In-insert_new_other y d (x ∷ xs) h = elim (Bool-cases (ltb d x)) [
  | inl less ↦ rw (insert_new, less) (inr h)
  | inr off ↦ elim (Bool-cases (d == x)) [
    | inl same ↦ rw (insert_new, off, same) h
    | inr other ↦
        rw (insert_new, off, other)
          (elim h [ inl e ↦ inl e | inr i ↦ inr (In-insert_new_other y d xs i) ])
  ]
]

pub In-sorted_set : (y : ℕ) (ds : List ℕ) → In y ds → In y (sorted_set ds)
unfolding sorted_set
In-sorted_set y [] h = elim h [ ]
In-sorted_set y (d ∷ ds) (inl e) =
    subst (λ z. In z (insert_new d (sorted_set ds))) e (In-insert_new d (sorted_set ds))
In-sorted_set y (d ∷ ds) (inr i) = In-insert_new_other y d (sorted_set ds) (In-sorted_set y ds i)

pub days_from-All :
    (P : ℕ → Type 0) (start n : ℕ)
    → ((y : ℕ) → start ≤ y → y < start + n → P y)
    → All P (days_from start n)
days_from-All P start zero h = tt
days_from-All P start (suc n) h = (
  h start (omega arith) (omega arith),
  days_from-All P (start + 1) n (λ y a b. h y (omega arith) (omega arith)),
)

pub days_from-Ascending : (start n : ℕ) → Ascending (days_from start n)
days_from-Ascending start zero = tt
days_from-Ascending start (suc n) = (
  days_from-All (λ x. start < x) (start + 1) n (λ y a b. omega arith),
  days_from-Ascending (start + 1) n,
)

pub In-days_from : (y start n : ℕ) → start ≤ y → y < start + n → In y (days_from start n)
In-days_from y start zero a b = absurd (omega arith)
In-days_from y start (suc n) a b = elim (Bool-cases (start == y)) [
  | inl own ↦ inl ((==_iff start y).0 own)
  | inr other ↦ inr (In-days_from y (start + 1) n (ground arith) (omega arith))
]

pub days_from-append :
    (start m n : ℕ) → days_from start (m + n) ≡ days_from start m ++ days_from (start + m) n
days_from-append start zero n = ap₂ days_from (omega arith) (omega arith)
days_from-append start (suc m) n =
    let shorter : suc m + n ≡ suc (m + n) = omega arith in
    ap (days_from start) shorter
    ∙ ap (λ l. start ∷ l)
        (days_from-append (start + 1) m n
          ∙ ap (λ k. days_from (start + 1) m ++ days_from k n) (omega arith))
