-- ===== src/Prelude/Members.antt =====
-- Membership in a list, and what `find` finds in an extended list.
use mathlib.Core.Path.{◌≡◌, refl, sym, subst, ap, ◌∙◌}
use Prim.Native.Nat.{ℕ, zero, suc}
use mathlib.Core.Logic.{◌⊎◌, inl, inr}
use mathlib.Core.Bool.{Bool, true, false}
use mathlib.Core.Option.{none, some}
use mathlib.Core.List.{List, [], ◌∷◌, ◌++◌, map}
use native.Mathlib.Omega.{arith}
use axel_sol.Prelude.Tests.{Bool-cases, leb}
use axel_sol.Prelude.Lists.{
  select, select-cons_pass, select-cons_skip, find, take, insert_by, sort_by,
}

abbrev pub In : {A : Type 0} → A → List A → Type 0
In a [] = ⊥
In a (x ∷ xs) = (x ≡ a) ⊎ In a xs

pub In-append_left : {A : Type 0} (a : A) (xs ys : List A) → In a xs → In a (xs ++ ys)
In-append_left a [] ys h = elim h [ ]
In-append_left a (x ∷ xs) ys (inl e) = inl e
In-append_left a (x ∷ xs) ys (inr h) = inr (In-append_left a xs ys h)

pub In-append_right : {A : Type 0} (a : A) (xs ys : List A) → In a ys → In a (xs ++ ys)
In-append_right a [] ys h = h
In-append_right a (x ∷ xs) ys h = inr (In-append_right a xs ys h)

pub In-append_last : {A : Type 0} (a : A) (xs : List A) → In a (xs ++ a ∷ [])
In-append_last a [] = inl refl
In-append_last a (x ∷ xs) = inr (In-append_last a xs)

pub In-cons_if :
    {A : Type 0} (b : Bool) (a x : A) (xs : List A)
    → In a xs
    → In a (elim b [ true ↦ x ∷ xs | false ↦ xs ])
In-cons_if true a x xs h = inr h
In-cons_if false a x xs h = h

pub In-select :
    {A : Type 0} (p : A → Bool) (a : A) (xs : List A) → In a xs → p a ≡ true → In a (select p xs)
unfolding select
In-select p a [] h pass = elim h [ ]
In-select p a (x ∷ xs) (inl e) pass =
    let own : p x ≡ true = ap p e ∙ pass in rw (select-cons_pass p x xs own) (inl e)
In-select p a (x ∷ xs) (inr i) pass = In-cons_if (p x) a x (select p xs) (In-select p a xs i pass)

pub find-append :
    {A : Type 0} (p : A → Bool) (xs ys : List A) {q : A}
    → find p xs ≡ some q
    → find p (xs ++ ys) ≡ some q
unfolding find
find-append p [] ys e = cc
find-append p (x ∷ xs) ys {q} e = elim (Bool-cases (p x)) [
  | inl own ↦ ground arith
  | inr other ↦
      let rest : find p xs ≡ some q = ground arith in
      let ih = find-append p xs ys rest in ground arith
]

pub find-append_last :
    {A : Type 0} (p : A → Bool) (xs : List A) (y : A)
    → find p xs ≡ none
    → p y ≡ true
    → find p (xs ++ y ∷ []) ≡ some y
unfolding find
find-append_last p [] y e h = ground arith
find-append_last p (x ∷ xs) y e h = ground (arith, find-append_last p xs y)

-- What is in a part of a list, or in its image, comes from the list.
pub select-In :
    {A : Type 0} (p : A → Bool) (a : A) (xs : List A) → In a (select p xs) → In a xs × (p a ≡ true)
unfolding select
select-In p a [] h = elim h [ ]
select-In p a (x ∷ xs) h = elim (Bool-cases (p x)) [
  | inl own ↦ elim (subst (In a) (select-cons_pass p x xs own) h) [
    | inl e ↦ (inl e, ap p (sym e) ∙ own)
    | inr i ↦ let (there, pass) = select-In p a xs i in (inr there, pass)
  ]
  | inr other ↦
      let (there, pass) = select-In p a xs (subst (In a) (select-cons_skip p x xs other) h) in
      (inr there, pass)
]

pub take-In : {A : Type 0} (n : ℕ) (a : A) (xs : List A) → In a (take n xs) → In a xs
take-In zero a xs h = elim h [ ]
take-In (suc n) a [] h = elim h [ ]
take-In (suc n) a (x ∷ xs) (inl e) = inl e
take-In (suc n) a (x ∷ xs) (inr h) = inr (take-In n a xs h)

pub map-In :
    {A B : Type 0} (f : A → B) (b : B) (xs : List A)
    → In b (map f xs)
    → (a : A) × In a xs × (f a ≡ b)
map-In f b [] h = elim h [ ]
map-In f b (x ∷ xs) (inl e) = (x, inl refl, e)
map-In f b (x ∷ xs) (inr h) = let (a, there, e) = map-In f b xs h in (a, inr there, e)

either-In :
    {A : Type 0} (b : Bool) (a : A) (xs ys : List A)
    → In a (elim b [ true ↦ xs | false ↦ ys ])
    → In a xs ⊎ In a ys
either-In true a xs ys h = inl h
either-In false a xs ys h = inr h

insert_by-In :
    {A : Type 0} (key : A → ℕ) (x a : A) (ys : List A)
    → In a (insert_by key x ys)
    → (x ≡ a) ⊎ In a ys
unfolding insert_by
insert_by-In key x a [] h = h
insert_by-In key x a (y ∷ ys) h =
    elim (either-In (leb (key x) (key y)) a (x ∷ y ∷ ys) (y ∷ insert_by key x ys) h) [
      | inl front ↦ front
      | inr (inl e) ↦ inr (inl e)
      | inr (inr later) ↦ elim (insert_by-In key x a ys later) [
        | inl e ↦ inl e
        | inr i ↦ inr (inr i)
      ]
    ]

pub sort_by-In : {A : Type 0} (key : A → ℕ) (a : A) (xs : List A) → In a (sort_by key xs) → In a xs
unfolding sort_by
sort_by-In key a [] h = h
sort_by-In key a (x ∷ xs) h = elim (insert_by-In key x a (sort_by key xs) h) [
  | inl e ↦ inl e
  | inr i ↦ inr (sort_by-In key a xs i)
]

pub find-In :
    {A : Type 0} (p : A → Bool) (a : A) (xs : List A) → find p xs ≡ some a → In a xs × (p a ≡ true)
unfolding find
find-In p a [] h = cc
find-In p a (x ∷ xs) h = elim (Bool-cases (p x)) [
  | inl own ↦ let e : x ≡ a = ground arith in (inl e, ap p (sym e) ∙ own)
  | inr other ↦ let (there, pass) = find-In p a xs (ground arith) in (inr there, pass)
]
