-- ===== src/Demo/Store/Lasting.antt =====
-- What the operations of `MemoryStore` do to a key that never expires, and that they leave the
-- other keys alone.
use axel_sol.Prelude.{
  ℕ, suc, ◌+◌, ◌≡◌, refl, ap, ◌∙◌, subst, ◌⊎◌, inl, inr, Option-cases, arith, true, false, Option,
  none, some,
}
use axel_sol.Prelude.Int.{ℤ, pos, pos-add, pos-sub}
use axel_sol.Demo.{Key, same_key}
use axel_sol.Demo.Store.{Entry, Entries, put, live, set_if_absent, increment, decrement, count}

-- An entry that counts to `n` and never expires, or none for 0.
abbrev pub IsNumber : Option Entry → ℕ → Type 0
IsNumber none n = n ≡ 0
IsNumber (some e) n = (e.value ≡ pos n) × (e.expires_at ≡ none)

pub IsNumber-some :
    (e : Option Entry) (n : ℕ)
    → IsNumber e (suc n)
    → e ≡ some (record { value = pos (suc n); expires_at = none })
IsNumber-some none n h = absurd (omega arith)
IsNumber-some (some e) n h = rw (h.0) (rw (h.1) refl)

pub put_own : (k : Key) (e : Option Entry) (s : Entries) → same_key k k ≡ true → put k e s k ≡ e
put_own k e s own = rw own refl

pub put_other :
    (k : Key) (e : Option Entry) (s : Entries) (k' : Key)
    → same_key k' k ≡ false
    → put k e s k' ≡ s k'
put_other k e s k' other = rw other refl

module _ (now : ℕ) (k : Key) where
  live-none : (s : Entries) → s k ≡ none → live now k s ≡ (none, s)
  unfolding live
  live-none s absent = rw (absent, live) refl

  live-lasting :
      (s : Entries) (v : ℤ)
      → s k ≡ some (record { value = v; expires_at = none })
      → live now k s ≡ (some (record { value = v; expires_at = none }), s)
  unfolding live
  live-lasting s v there = rw (there, live) refl

  live-number :
      (s : Entries) (n : ℕ)
      → IsNumber (s k) n
      → (live now k s ≡ (none, s)) × (n ≡ 0)
        ⊎ (live now k s ≡ (some (record { value = pos n; expires_at = none }), s))
  live-number s n h = elim (Option-cases (s k)) [
    | inl absent ↦ inl (live-none s absent, subst (λ o. IsNumber o n) absent h)
    | inr (e, there) ↦
        let is = subst (λ o. IsNumber o n) there h in
        inr (live-lasting s (pos n) (there ∙ rw (is.0) (rw (is.1) refl)))
  ]

  -- Whatever is done to a key, the others keep their entries.
  pub live-other : (s : Entries) (k' : Key) → same_key k' k ≡ false → (live now k s).1 k' ≡ s k'
  unfolding live
  live-other s k' h = ground arith

  pub increment-other :
      (ttl : Option ℕ) (s : Entries) (k' : Key)
      → same_key k' k ≡ false
      → (increment now k ttl s).1 k' ≡ s k'
  unfolding increment
  increment-other ttl s k' h = put_other k _ (live now k s).1 k' h ∙ live-other s k' h

  pub decrement-other :
      (s : Entries) (k' : Key) → same_key k' k ≡ false → (decrement now k s).1 k' ≡ s k'
  unfolding decrement
  decrement-other s k' h = put_other k _ (live now k s).1 k' h ∙ live-other s k' h

  pub increment-IsNumber :
      (s : Entries) (n : ℕ)
      → same_key k k ≡ true
      → IsNumber (s k) n
      → ((increment now k none s).0 ≡ pos (n + 1)) × IsNumber ((increment now k none s).1 k) (n + 1)
  unfolding increment
  increment-IsNumber s n own h = elim (live-number s n h) [
    | inl (is, zero_is) ↦ rw is (rw own (rw zero_is (pos-add 0 1, (pos-add 0 1, refl))))
    | inr is ↦ rw is (rw own (pos-add n 1, (pos-add n 1, refl)))
  ]

  pub decrement-IsNumber :
      (s : Entries) (n : ℕ)
      → same_key k k ≡ true
      → IsNumber (s k) (suc n)
      → IsNumber ((decrement now k s).1 k) n
  unfolding decrement
  decrement-IsNumber s n own h =
      rw (live-lasting s (pos (suc n)) (IsNumber-some (s k) n h))
        (rw own (pos-sub (suc n) 1 (omega arith) ∙ ap pos (omega arith), refl))

  pub set_if_absent-none :
      (s : Entries)
      → s k ≡ none
      → set_if_absent now k none s
        ≡ (true, put k (some (record { value = pos 1; expires_at = none })) s)
  unfolding set_if_absent
  set_if_absent-none s h = rw (live-none s h) refl

  pub set_if_absent-some :
      (s : Entries) (n : ℕ) → IsNumber (s k) (suc n) → set_if_absent now k none s ≡ (false, s)
  unfolding set_if_absent
  set_if_absent-some s n h = rw (live-lasting s (pos (suc n)) (IsNumber-some (s k) n h)) refl

  pub count-IsNumber : (s : Entries) (n : ℕ) → IsNumber (s k) n → count now k s ≡ (pos n, s)
  unfolding count
  count-IsNumber s n h = elim (live-number s n h) [
    | inl (is, zero_is) ↦ rw is (rw zero_is refl)
    | inr is ↦ rw is refl
  ]
