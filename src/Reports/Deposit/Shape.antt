-- ===== src/Reports/Deposit/Shape.antt =====
-- The transactions that `readDeposit` of backend/src/reports/attestation.service.ts reads as a
-- deposit to sign.
use axel_sol.Prelude.{
  ℕ, zero, suc, ◌+◌, ◌≤◌, ◌<◌, ◌≡◌, ◌≢◌, ◌⊎◌, inl, inr, refl, sym, subst, ap, ◌∙◌, arith, String,
  Bool, true, false, Option, none, some, List, [], ◌∷◌, ◌++◌, All, get_elem?, ◌==◌, ==_iff, str_eq,
  eq_iff, Bool-cases, Option-cases, Text,
}
use axel_sol.Reports.Deposit.{
  Refusal, only_deposit, not_signed, Result, ok, refused, ◌>>=◌, ◌>>◌, require, or_crash,
  Instruction, Transaction, DepositRevenueParams, Decoded, deposit_revenue, other_instruction,
  find_index, Found, sole, as_deposit, classified, deposit_of, deposits, is_signed,
  check_signatures, index_below,
}

pub ok-injective : {A : Type 0} {a b : A} → ok a ≡ ok b → a ≡ b
ok-injective h = cc

-- A step of a check that has passed as a whole has passed itself, and so has what follows it.
pub passes :
    {A C : Type 0} (step : Result A) (next : A → Result C) {end : C}
    → (step >>= next) ≡ ok end
    → (found : A) × (step ≡ ok found) × (next found ≡ ok end)
passes (refused why) next h = cc
passes (ok found) next h = (found, refl, h)

pub require-eq-ok :
    {B : Type 0} (b : Bool) (e : Refusal) (k : Result B) {r : B}
    → (require b e >> k) ≡ ok r
    → (b ≡ true) × (k ≡ ok r)
require-eq-ok true e k h = (refl, h)
require-eq-ok false e k h = cc

pub or_crash-eq-ok : {A : Type 0} (o : Option A) {a : A} → or_crash o ≡ ok a → o ≡ some a
or_crash-eq-ok none h = cc
or_crash-eq-ok (some x) h = cc

pub find_index-get :
    (key : String) (keys : List String) (i : ℕ)
    → find_index key keys ≡ some i
    → get_elem? keys i ≡ some key
unfolding find_index
find_index-get key [] i h = cc
find_index-get key (k ∷ keys) i h = elim (Bool-cases (str_eq k key)) [
  | inl own ↦ ground (arith, eq_iff k key)
  | inr other ↦ elim (Option-cases (find_index key keys)) [
    | inl absent ↦ ground arith
    | inr (j, found) ↦
        let rest = find_index-get key keys j found in
        let place : i ≡ suc j = ground arith in rw place rest
  ]
]

pub index_below-eq-ok :
    (signers : ℕ) (o : Option ℕ) (i : ℕ)
    → index_below signers o ≡ ok i
    → (o ≡ some i) × (0 < i) × (i < signers)
index_below-eq-ok signers none i h = cc
index_below-eq-ok signers (some j) i h = ground arith

module _ (compute_budget program_id : String) (decode : Text → Option Decoded)
    (keys : List String) where
  -- An instruction of the compute budget program.
  abbrev pub IsBudget : Instruction → Type 0
  IsBudget i = get_elem? keys i.program_id_index ≡ some compute_budget

  -- A deposit of the program is the one instruction that is not of the compute budget program.
  pub record IsOnly (is : List Instruction) (found : Found) : Type 0 where
    pub before : List Instruction
    pub after : List Instruction
    pub split : is ≡ before ++ found.instruction ∷ after
    pub budget_before : All IsBudget before
    pub budget_after : All IsBudget after
    pub program : get_elem? keys found.instruction.program_id_index ≡ some program_id
    pub reads : decode found.instruction.instruction_data ≡ some (deposit_revenue found.params)

  -- What an instruction is when it is let through with what it was read as.
  abbrev LetThrough : Instruction → List Found → Type 0
  LetThrough i found =
      (IsBudget i × (found ≡ []))
      ⊎ ((get_elem? keys i.program_id_index ≡ some program_id)
          × ((params : DepositRevenueParams) × (decode i.instruction_data
                ≡ some (deposit_revenue params))
              × (found ≡ record { instruction = i; params = params } ∷ [])))

  as_deposit-eq-ok :
      (i : Instruction) (o : Option Decoded) (found : List Found)
      → as_deposit compute_budget program_id decode i o ≡ ok found
      → (params : DepositRevenueParams) × (o ≡ some (deposit_revenue params))
        × (found ≡ record { instruction = i; params = params } ∷ [])
  as_deposit-eq-ok i none found h = cc
  as_deposit-eq-ok i (some other_instruction) found h = cc
  as_deposit-eq-ok i (some (deposit_revenue params)) found h = (params, refl, ground arith)

  classified-eq-ok :
      (program : String) (i : Instruction) (found : List Found)
      → get_elem? keys i.program_id_index ≡ some program
      → classified compute_budget program_id decode program i ≡ ok found
      → LetThrough i found
  classified-eq-ok program i found at h = elim (Bool-cases (str_eq program compute_budget)) [
    | inl budget ↦
        let nothing : found ≡ [] = ground arith in
        inl (at ∙ ap some ((eq_iff program compute_budget).0 budget), nothing)
    | inr other ↦ elim (Bool-cases (str_eq program program_id)) [
      | inl own ↦
          let reading : as_deposit compute_budget program_id decode i (decode i.instruction_data)
              ≡ ok found =
            ground arith in
          inr (
            at ∙ ap some ((eq_iff program program_id).0 own),
            as_deposit-eq-ok i (decode i.instruction_data) found reading,
          )
      | inr foreign ↦ absurd (let reading : refused only_deposit ≡ ok found = ground arith in cc)
    ]
  ]

  deposit_of-eq-ok :
      (i : Instruction) (found : List Found)
      → deposit_of compute_budget program_id decode keys i ≡ ok found
      → LetThrough i found
  unfolding deposit_of
  deposit_of-eq-ok i found h =
      let (program, at, rest) = passes (or_crash (get_elem? keys i.program_id_index)) _ h in
      classified-eq-ok program i found (or_crash-eq-ok _ at) rest

  deposits-cons :
      (i : Instruction) (is : List Instruction) (all : List Found)
      → deposits compute_budget program_id decode keys (i ∷ is) ≡ ok all
      → (found : List Found) × (rest : List Found) × LetThrough i found
        × (deposits compute_budget program_id decode keys is ≡ ok rest)
        × (all ≡ found ++ rest)
  unfolding deposits
  deposits-cons i is all h =
      let (found, here, more) = passes (deposit_of compute_budget program_id decode keys i) _ h in
      let (rest, there, whole) =
        passes (deposits compute_budget program_id decode keys is) _ more in
      (
        found,
        rest,
        deposit_of-eq-ok i found here,
        there,
        (let e : ok (found ++ rest) ≡ ok all = whole in cc),
      )

  deposits-none :
      (is : List Instruction)
      → deposits compute_budget program_id decode keys is ≡ ok []
      → All IsBudget is
  deposits-none [] h = tt
  deposits-none (i ∷ is) h =
      let (found, rest, through, there, whole) = deposits-cons i is [] h in
      elim through [
        | inl (budget, e) ↦
            let empty : rest ≡ [] = sym (whole ∙ ap (λ l. l ++ rest) e) in
            (budget, deposits-none is (there ∙ ap ok empty))
        | inr (own, (params, reads, e)) ↦ absurd (
            let clash : [] ≡ record { instruction = i; params = params } ∷ rest =
              whole ∙ ap (λ l. l ++ rest) e in
            cc)
      ]

  pub deposits-IsOnly :
      (is : List Instruction) (found : Found)
      → deposits compute_budget program_id decode keys is ≡ ok (found ∷ [])
      → IsOnly is found
  unfolding deposits
  deposits-IsOnly [] found h = absurd (let clash : ok [] ≡ ok (found ∷ []) = h in cc)
  deposits-IsOnly (i ∷ is) found h =
      let (mine, rest, through, there, whole) = deposits-cons i is (found ∷ []) h in
      elim through [
        | inl (budget, e) ↦
            let later : rest ≡ found ∷ [] = sym (whole ∙ ap (λ l. l ++ rest) e) in
            let r = deposits-IsOnly is found (there ∙ ap ok later) in
            record {
              before = i ∷ r.before;
              after = r.after;
              split = ap (λ l. i ∷ l) r.split;
              budget_before = (budget, r.budget_before);
              budget_after = r.budget_after;
              program = r.program;
              reads = r.reads;
            }
        | inr (own, (params, reads, e)) ↦
            let first : Found = record { instruction = i; params = params } in
            let whole' : found ∷ [] ≡ first ∷ rest = whole ∙ ap (λ l. l ++ rest) e in
            let same : first ≡ found = cc in
            let empty : rest ≡ [] = cc in
            subst (IsOnly (i ∷ is)) same (record {
              before = [];
              after = is;
              split = refl;
              budget_before = tt;
              budget_after = deposits-none is (there ∙ ap ok empty);
              program = own;
              reads = reads;
            })
      ]

pub sole-eq-ok : (all : List Found) (found : Found) → sole all ≡ ok found → all ≡ found ∷ []
sole-eq-ok [] found h = cc
sole-eq-ok (f ∷ []) found h = ground arith
sole-eq-ok (f ∷ g ∷ all) found h = cc

module _ (verify : (message signature : Text) (key : String) → Bool) where
  -- The signer at an index has signed the message.
  abbrev pub HasSigned : Transaction → ℕ → Type 0
  HasSigned t j =
      (key : String) × (get_elem? t.message.static_account_keys j ≡ some key)
      × (is_signed verify t.message.serialized key (get_elem? t.signatures j) ≡ true)

  pub check_signatures-HasSigned :
      (count index oracle_index : ℕ) (t : Transaction) {u : Unit {0}}
      → check_signatures verify count index oracle_index t ≡ ok u
      → (j : ℕ) → index ≤ j
      → j < index + count
      → j ≢ oracle_index
      → HasSigned t j
  unfolding check_signatures
  check_signatures-HasSigned zero index oracle_index t {u} h j from below other =
      absurd (omega arith)
  check_signatures-HasSigned (suc count) index oracle_index t {u} h j from below other =
      elim (Bool-cases (index == oracle_index)) [
        | inl own ↦
            let here : index ≡ oracle_index = (==_iff index oracle_index).0 own in
            let rest : check_signatures verify count (suc index) oracle_index t ≡ ok u =
              ground arith in
            let ne : j ≢ index = λ e. other (e ∙ here) in
            check_signatures-HasSigned count (suc index) oracle_index t rest j (omega arith)
              (omega arith) other
        | inr another ↦
            let checked : (do
              key ← or_crash (get_elem? t.message.static_account_keys index)
              require (is_signed verify t.message.serialized key (get_elem? t.signatures index))
                  (not_signed key)
              check_signatures verify count (suc index) oracle_index t)
                ≡ ok u =
              ground arith in
            let (key, at, more) =
              passes (or_crash (get_elem? t.message.static_account_keys index)) _ checked in
            let (signed, rest) =
              require-eq-ok _ (not_signed key)
                (check_signatures verify count (suc index) oracle_index t) more in
            elim (Bool-cases (j == index)) [
              | inl own ↦
                  subst (HasSigned t) (sym ((==_iff j index).0 own))
                    (key, or_crash-eq-ok _ at, signed)
              | inr later ↦
                  let ne : index < j = ground arith in
                  check_signatures-HasSigned count (suc index) oracle_index t rest j (omega arith)
                    (omega arith) other
            ]
      ]
