-- ===== src/Kyc/Session/Issued.antt =====
-- A nonce from `saveNonce` of kyc.store.ts in a call of `openSession`.
use axel_sol.Prelude.{
  ℕ, ◌≡◌, refl, ap, ◌∙◌, arith, String, Bool, true, false, none, some, ltb, eq_iff, find,
  find-append_last,
}
use axel_sol.Kyc.Session.{
  NonceRecord, KycStore, Circumstances, opened, has_nonce, has_user_id, save_nonce, consume_nonce,
  bind_wallet, open_session, is_usable, token_or, if_configured, is_wallet,
}
use axel_sol.Kyc.Session.Once.{IsGone, find-select-none}

save_nonce-find :
    (r : NonceRecord) (t : ℕ) (s : KycStore)
    → IsGone r.nonce s
    → find (has_nonce r.nonce) (save_nonce r t s).0.siws_nonces ≡ some r
unfolding save_nonce
save_nonce-find r t s gone =
    let kept = find-select-none (has_nonce r.nonce) (λ x. ltb t x.expires_at) s.siws_nonces gone in
    let last = find-append_last (has_nonce r.nonce) _ r kept ((eq_iff r.nonce r.nonce).1 refl) in
    rw (kept) last

save_nonce-bindings :
    (r : NonceRecord) (t : ℕ) (s : KycStore) → (save_nonce r t s).0.kyc_bindings ≡ s.kyc_bindings
unfolding save_nonce
save_nonce-bindings r t s = ground arith

bind_wallet-new :
    (wallet user : String) (now : ℕ) (s : KycStore)
    → find (is_wallet wallet) s.kyc_bindings ≡ none
    → find (has_user_id user) s.kyc_bindings ≡ none
    → token_or true (bind_wallet wallet user now s).1 ≡ opened wallet user
unfolding bind_wallet
bind_wallet-new wallet user now s no_wallet no_user = rw (no_wallet, no_user) refl

module _ (verify : (message signature wallet : String) → Bool) where
  if_configured_opens :
      (on : Bool) (r : NonceRecord) (signature : String) (c : Circumstances) (s : KycStore)
      → on ≡ true
      → find (has_nonce r.nonce) s.siws_nonces ≡ some r
      → is_usable r r.wallet c.now ≡ true
      → verify r.message signature r.wallet ≡ true
      → (if_configured verify on
          (record { wallet = r.wallet; nonce = r.nonce; signature = signature })
          c
          s).1
        ≡ token_or c.has_token
            (bind_wallet r.wallet c.new_user_id c.now (consume_nonce r.nonce s).0).1
  unfolding consume_nonce
  if_configured_opens false r signature c s on found usable right = ground arith
  if_configured_opens true r signature c s on found usable right = rw (found, usable, right) refl

  -- When a nonce that is not in the table is issued to a wallet, and `openSession` is called with
  -- it for that wallet, configured, before the nonce expires and with a signature of the issued
  -- message that the wallet's key verifies, and neither the wallet nor the drawn user id has a
  -- binding yet, and Sumsub grants a token, the session is opened for that wallet and user id.
  pub open_session-save_nonce :
      (r : NonceRecord) (signature : String) (issued_at : ℕ) (c : Circumstances) (s : KycStore)
      → c.is_configured ≡ true
      → c.has_token ≡ true
      → IsGone r.nonce s
      → is_usable r r.wallet c.now ≡ true
      → verify r.message signature r.wallet ≡ true
      → find (is_wallet r.wallet) s.kyc_bindings ≡ none
      → find (has_user_id c.new_user_id) s.kyc_bindings ≡ none
      → (open_session verify
          (record { wallet = r.wallet; nonce = r.nonce; signature = signature })
          c
          (save_nonce r issued_at s).0).1
        ≡ opened r.wallet c.new_user_id
  unfolding open_session consume_nonce
  open_session-save_nonce r signature issued_at c s on granted gone usable right no_wallet no_user =
      let same = save_nonce-bindings r issued_at s in
      let after = (consume_nonce r.nonce (save_nonce r issued_at s).0).0 in
      if_configured_opens c.is_configured r signature c (save_nonce r issued_at s).0 on
        (save_nonce-find r issued_at s gone) usable right
      ∙ ap (λ t. token_or t (bind_wallet r.wallet c.new_user_id c.now after).1) granted
      ∙ bind_wallet-new r.wallet c.new_user_id c.now after
          (ap (find (is_wallet r.wallet)) same ∙ no_wallet)
          (ap (find (has_user_id c.new_user_id)) same ∙ no_user)
