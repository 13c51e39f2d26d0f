-- ===== src/Demo/Access/Counted.antt =====
-- What the demo's counter and markers in frontend/src/lib/demo/server/limits.ts say of the requests.
use axel_sol.Prelude.{
  ℕ, ◌+◌, ◌≤◌, ◌≡◌, refl, sym, subst, ap, ◌∙◌, inl, inr, arith, String, none, some, Bool-cases,
  if◌then◌else◌, str_eq, eq_iff,
}
use axel_sol.Prelude.Int.{pos}
use axel_sol.Demo.{access_wallet, access_granted}
use axel_sol.Demo.Store.{Entries, put, delete}
use axel_sol.Demo.Store.Lasting.{IsNumber}
use axel_sol.Demo.Access.{
  access_cap, Phase, arrived, asking, over_cap, reserved, failing, granted, already_granted,
  refused,
}

-- Whether a request has an access, or one is on its way.
abbrev pub holds : Phase → ℕ
holds reserved = 1
holds failing = 1
holds granted = 1
holds _ = 0

-- Whether it has been counted past the cap.
abbrev pub exceeds : Phase → ℕ
exceeds over_cap = 1
exceeds _ = 0

-- Whether it has set the marker of its wallet.
abbrev pub marks : Phase → ℕ
marks arrived = 0
marks asking = 0
marks already_granted = 0
marks (refused e) = 0
marks _ = 1

abbrev pub own : String → String → ℕ
own wallet w = if str_eq w wallet then 1 else 0

-- Every wallet's marker is there if the number of it is 1, and missing if it is 0.
abbrev pub Markers : Entries → (String → ℕ) → Type 0
Markers s m =
    (w : String)
    → IsNumber (s (access_wallet w)) (m w) × (m w ≤ 1) × (m w ≡ 0 → s (access_wallet w) ≡ none)

-- The entries, next to how many requests have an access, exceed the cap, and have set a marker.
pub record Stands (s : Entries) (h o : ℕ) (m : String → ℕ) : Type 0 where
  pub number : IsNumber (s access_granted) (h + o)
  pub within : h ≤ access_cap
  pub markers : Markers s m

pub Markers-kept :
    (s s' : Entries) (m m' : String → ℕ)
    → Markers s m
    → ((w : String) → s' (access_wallet w) ≡ s (access_wallet w))
    → ((w : String) → m' w ≡ m w)
    → Markers s' m'
Markers-kept s s' m m' h same equal w = rw (same w) (rw (equal w) (h w))

pub Markers-set :
    (wallet : String) (s : Entries) (m m' : String → ℕ)
    → Markers s m
    → m wallet ≡ 0
    → ((w : String) → m' w ≡ m w + own wallet w)
    → Markers (put (access_wallet wallet) (some (record { value = pos 1; expires_at = none })) s) m'
Markers-set wallet s m m' h free one w = elim (Bool-cases (str_eq w wallet)) [
  | inl is ↦
      let none_yet : m w ≡ 0 = subst (λ v. m v ≡ 0) (sym ((eq_iff w wallet).0 is)) free in
      let e : m' w ≡ 1 = one w ∙ ap (λ b. m w + (if b then 1 else 0)) is ∙ omega arith in
      rw is ((ap pos (sym e), refl), omega arith, λ none_yet. absurd (omega arith))
  | inr other ↦
      let e : m' w ≡ m w = one w ∙ ap (λ b. m w + (if b then 1 else 0)) other ∙ omega arith in
      rw other (rw e (h w))
]

pub Markers-delete :
    (wallet : String) (s : Entries) (m m' : String → ℕ)
    → Markers s m
    → ((w : String) → m' w + own wallet w ≡ m w)
    → Markers (delete (access_wallet wallet) s) m'
Markers-delete wallet s m m' h one w = elim (Bool-cases (str_eq w wallet)) [
  | inl is ↦
      let bound = (h w).1 in
      let e : m' w + 1 ≡ m w = ap (λ b. m' w + (if b then 1 else 0)) (sym is) ∙ one w in
      rw is (omega arith, omega arith, λ none_left. refl)
  | inr other ↦
      let e : m' w ≡ m w =
        omega arith ∙ ap (λ b. m' w + (if b then 1 else 0)) (sym other) ∙ one w in
      rw other (rw e (h w))
]
