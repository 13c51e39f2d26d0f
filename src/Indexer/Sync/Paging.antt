-- ===== src/Indexer/Sync/Paging.antt =====
-- `newSignatures` of backend/src/indexer/indexer.service.ts over an RPC that lists a history as
-- `getSignaturesForAddress` is documented to. Histories stand newest first.
use mathlib.Core.List.{reverse}
use native.Mathlib.Nat.{le_trans}
use axel_sol.Indexer.Feed.{Pages, SignatureInfo, fetched, last_signature, new_signatures, page_size}
use axel_sol.Indexer.Sync.History.{Distinct, Serves, names, past, up_to}
use axel_sol.Prelude.{
  ℕ, zero, suc, ◌≤◌, ◌<◌, ◌≡◌, refl, sym, ap, ◌∙◌, arith, String, true, false, Option, none, some,
  List, [], ◌∷◌, ◌++◌, append_assoc, length, take, drop, take-append-drop, ltb, ltb→lt,
  if◌then◌else◌, str_eq, eq_iff, among, subst, inl, inr, Bool-cases,
}

length-up_to : (u : Option String) (xs : List SignatureInfo) → length (up_to u xs) ≤ length xs
unfolding up_to
length-up_to none xs = omega arith
length-up_to (some u) [] = omega arith
length-up_to (some u) (x ∷ xs) = ground (arith, length-up_to (some u) xs)

take-up_to :
    (u : Option String) (n : ℕ) (xs : List SignatureInfo)
    → n ≤ length (up_to u xs)
    → (take n (up_to u xs) ≡ take n xs) × (up_to u xs ≡ take n xs ++ up_to u (drop n xs))
unfolding up_to
take-up_to none n xs h = (refl, sym (take-append-drop n xs))
take-up_to (some u) zero xs h = (refl, refl)
take-up_to (some u) (suc n) [] h = (refl, refl)
take-up_to (some u) (suc n) (x ∷ xs) h = ground (arith, take-up_to (some u) n xs)

take-short : (n : ℕ) (xs : List SignatureInfo) → length (take n xs) < n → take n xs ≡ xs
take-short zero xs h = absurd (omega arith)
take-short (suc n) [] h = refl
take-short (suc n) (x ∷ xs) h = ap (λ l. x ∷ l) (take-short n xs (omega arith))

length-take_full : (n : ℕ) (xs : List SignatureInfo) → n ≤ length (take n xs) → n ≤ length xs
length-take_full zero xs h = omega arith
length-take_full (suc n) [] h = absurd (omega arith)
length-take_full (suc n) (x ∷ xs) h = omega (arith, length-take_full n xs)

last_signature-cons :
    (y : SignatureInfo) (r more : List SignatureInfo)
    → (b : String) × (last_signature (y ∷ r) ≡ some b) × (among b (names (y ∷ r ++ more)) ≡ true)
unfolding among
last_signature-cons y [] more = (y.signature, refl, ground (arith, eq_iff y.signature y.signature))
last_signature-cons y (z ∷ r) more =
    let (b, last, here) = last_signature-cons z r more in (b, last, ground arith)

among_differ :
    (x b : String) (l : List String) → among x l ≡ false → among b l ≡ true → str_eq x b ≡ false
among_differ x b l absent present = ground (arith, eq_iff x b)

past_skip :
    (b : String) (x : SignatureInfo) (l : List SignatureInfo)
    → str_eq x.signature b ≡ false
    → past (some b) (x ∷ l) ≡ past (some b) l
unfolding past
past_skip b x l h = ground arith

past-append :
    (page rest : List SignatureInfo)
    → Distinct (names (page ++ rest))
    → past (last_signature page) (page ++ rest) ≡ rest
unfolding past
past-append [] rest d = refl
past-append (x ∷ []) rest d = ground (arith, eq_iff x.signature x.signature)
past-append (x ∷ y ∷ r) rest (fresh, d) =
    let (b, last, here) = last_signature-cons y r rest in
    let differ = among_differ x.signature b (names (y ∷ r ++ rest)) fresh here in
    ap (λ o. past o (x ∷ y ∷ r ++ rest)) last
    ∙ past_skip b x (y ∷ r ++ rest) differ
    ∙ ap (λ o. past o (y ∷ r ++ rest)) (sym last)
    ∙ past-append (y ∷ r) rest d

last_signature-append :
    (xs : List SignatureInfo) (y : SignatureInfo) (ys : List SignatureInfo)
    → last_signature (xs ++ y ∷ ys) ≡ last_signature (y ∷ ys)
last_signature-append [] y ys = refl
last_signature-append (x ∷ []) y ys = refl
last_signature-append (x ∷ z ∷ xs) y ys = last_signature-append (z ∷ xs) y ys

new_signatures_step :
    (fuel : ℕ) (pages : Pages) (until before : Option String) (sofar page : List SignatureInfo)
    → pages before until ≡ some page
    → new_signatures (suc fuel) pages until before sofar ≡ (
        if ltb (length page) page_size
        then fetched (reverse (sofar ++ page))
        else new_signatures fuel pages until (last_signature page) (sofar ++ page))
unfolding new_signatures
new_signatures_step fuel pages until before sofar page e = rw (e, new_signatures) refl

last_signature-append_full :
    (n : ℕ) (sofar page : List SignatureInfo)
    → suc n ≤ length page
    → last_signature (sofar ++ page) ≡ last_signature page
last_signature-append_full n sofar [] h = absurd (omega arith)
last_signature-append_full n sofar (y ∷ page) h = last_signature-append sofar y page

not-ltb→le : (a b : ℕ) → ltb a b ≡ false → b ≤ a
not-ltb→le a b h = ground arith

length-drop_lt :
    (n : ℕ) (xs : List SignatureInfo) (fuel : ℕ)
    → suc n ≤ length xs
    → length xs < suc fuel
    → length (drop (suc n) xs) < fuel
length-drop_lt n [] fuel h enough = absurd (omega arith)
length-drop_lt zero (x ∷ xs) fuel h enough = omega arith
length-drop_lt (suc n) (x ∷ xs) zero h enough = absurd (omega arith)
length-drop_lt (suc n) (x ∷ xs) (suc fuel) h enough =
    omega (arith, length-drop_lt n xs fuel (omega arith) (omega arith))

module _ (pages : Pages) (until : Option String) where
  new_signatures_from :
      (fuel : ℕ) (sofar rest history : List SignatureInfo)
      → history ≡ sofar ++ rest
      → Distinct (names history)
      → Serves history pages
      → length rest < fuel
      → new_signatures fuel pages until (last_signature sofar) sofar
        ≡ fetched (reverse (sofar ++ up_to until rest))
  new_signatures_from zero sofar rest history split d serves enough = absurd (omega arith)
  new_signatures_from (suc fuel) sofar rest history split d serves enough =
      let listed = up_to until rest in
      let page = take page_size listed in
      let answer : pages (last_signature sofar) until ≡ some page =
        serves (last_signature sofar) until
        ∙ ap (λ l. some (take page_size (up_to until l)))
            (ap (past (last_signature sofar)) split
              ∙ past-append sofar rest (subst (λ h. Distinct (names h)) split d)) in
      new_signatures_step fuel pages until (last_signature sofar) sofar page answer
      ∙ elim (Bool-cases (ltb (length page) page_size)) [
        | inl short ↦
            ap
              (λ b.
                if b
                then fetched (reverse (sofar ++ page))
                else new_signatures fuel pages until (last_signature page) (sofar ++ page))
              short
            ∙ ap (λ l. fetched (reverse (sofar ++ l)))
                (take-short page_size listed (ltb→lt _ _ short))
        | inr full ↦
            let whole = not-ltb→le _ _ full in
            let (same, parts) =
              take-up_to until page_size rest (length-take_full page_size listed whole) in
            let older = drop page_size rest in
            ap
              (λ b.
                if b
                then fetched (reverse (sofar ++ page))
                else new_signatures fuel pages until (last_signature page) (sofar ++ page))
              full
            ∙ ap (λ o. new_signatures fuel pages until o (sofar ++ page))
                (sym (last_signature-append_full 999 sofar page whole))
            ∙ ap (λ l. new_signatures fuel pages until (last_signature (sofar ++ l)) (sofar ++ l))
                same
            ∙ new_signatures_from fuel (sofar ++ take page_size rest) older history
                (split
                  ∙ ap (λ l. sofar ++ l) (sym (take-append-drop page_size rest))
                  ∙ sym (append_assoc sofar (take page_size rest) older))
                d serves
                (length-drop_lt 999 rest fuel
                  (le_trans (length-take_full page_size listed whole) (length-up_to until rest))
                  enough)
            ∙ ap (λ l. fetched (reverse l))
                (append_assoc sofar (take page_size rest) (up_to until older)
                  ∙ ap (λ l. sofar ++ l) (sym parts))
      ]

-- Where the RPC lists a history in which no signature stands twice, one page more than the history
-- has entries is enough, and `newSignatures` then gives exactly the entries of the history that are
-- newer than the cursor, oldest first, over however many pages they are spread.
pub new_signatures-Serves :
    (pages : Pages) (until : Option String) (fuel : ℕ) (history : List SignatureInfo)
    → Distinct (names history)
    → Serves history pages
    → length history < fuel
    → new_signatures fuel pages until none [] ≡ fetched (reverse (up_to until history))
new_signatures-Serves pages until fuel history d serves enough =
    new_signatures_from pages until fuel [] history history refl d serves enough
