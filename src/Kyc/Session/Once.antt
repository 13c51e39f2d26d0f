-- ===== src/Kyc/Session/Once.antt =====
-- The uses of a nonce of kyc-session.service.ts over a sequence of calls.
use axel_sol.Prelude.{
  ℕ, ◌≡◌, refl, ap, ◌∙◌, arith, String, Bool, true, false, not, Option, none, some, List, [], ◌∷◌,
  ◌++◌, All, ltb, find, select, subst,
}
use axel_sol.Kyc.Webhook.{WalletBinding}
use axel_sol.Kyc.Session.{
  bound_or, NonceRecord, KycStore, SessionRequest, Circumstances, Call, issue, session, bad_nonce,
  has_nonce, save_nonce, consume_nonce, bind_wallet, open_session, after_nonce, if_configured,
  call_all,
}

-- The nonce is not in the table.
abbrev pub IsGone : String → KycStore → Type 0
IsGone nonce s = find (has_nonce nonce) s.siws_nonces ≡ none

pub find-select-none :
    {A : Type 0} (p q : A → Bool) (xs : List A) → find p xs ≡ none → find p (select q xs) ≡ none
unfolding find select
find-select-none p q [] e = refl
find-select-none p q (x ∷ xs) e = ground (arith, find-select-none p q xs)

find-select-not :
    {A : Type 0} (p : A → Bool) (xs : List A) → find p (select (λ x. not (p x)) xs) ≡ none
unfolding find select
find-select-not p [] = refl
find-select-not p (x ∷ xs) = let ih = find-select-not p xs in ground arith

find-append_none :
    {A : Type 0} (p : A → Bool) (xs : List A) (y : A)
    → find p xs ≡ none
    → p y ≡ false
    → find p (xs ++ y ∷ []) ≡ none
unfolding find
find-append_none p [] y e h = ground arith
find-append_none p (x ∷ xs) y e h = ground (arith, find-append_none p xs y)

bound_or-nonces :
    (o : Option WalletBinding) (new : WalletBinding) (s : KycStore)
    → (bound_or o new s).0.siws_nonces ≡ s.siws_nonces
bound_or-nonces none new s = ground arith
bound_or-nonces (some b) new s = refl

bind_wallet-nonces :
    (wallet user : String) (now : ℕ) (s : KycStore)
    → (bind_wallet wallet user now s).0.siws_nonces ≡ s.siws_nonces
unfolding bind_wallet
bind_wallet-nonces wallet user now s = bound_or-nonces _ _ s

module _ (verify : (message signature wallet : String) → Bool) where
  after_nonce-nonces :
      (o : Option NonceRecord) (q : SessionRequest) (c : Circumstances) (s : KycStore)
      → (after_nonce verify o q c s).0.siws_nonces ≡ s.siws_nonces
  after_nonce-nonces none q c s = refl
  after_nonce-nonces (some r) q c s =
      let kept = bind_wallet-nonces q.wallet c.new_user_id c.now s in ground arith

  if_configured-IsGone :
      (on : Bool) (q : SessionRequest) (c : Circumstances) (s : KycStore) (nonce : String)
      → IsGone nonce s
      → IsGone nonce (if_configured verify on q c s).0
  unfolding consume_nonce
  if_configured-IsGone false q c s nonce gone = gone
  if_configured-IsGone true q c s nonce gone =
      ap (find (has_nonce nonce)) (after_nonce-nonces _ q c _)
      ∙ find-select-none (has_nonce nonce) (λ r. not (has_nonce q.nonce r)) s.siws_nonces gone

  open_session-IsGone :
      (q : SessionRequest) (c : Circumstances) (s : KycStore) (nonce : String)
      → IsGone nonce s
      → IsGone nonce (open_session verify q c s).0
  unfolding open_session
  open_session-IsGone q c s nonce gone = if_configured-IsGone c.is_configured q c s nonce gone

  if_configured_uses :
      (on : Bool) (q : SessionRequest) (c : Circumstances) (s : KycStore)
      → on ≡ true
      → IsGone q.nonce (if_configured verify on q c s).0
  unfolding consume_nonce
  if_configured_uses false q c s on = ground arith
  if_configured_uses true q c s on =
      ap (find (has_nonce q.nonce)) (after_nonce-nonces _ q c _)
      ∙ find-select-not (has_nonce q.nonce) s.siws_nonces

  open_session_uses :
      (q : SessionRequest) (c : Circumstances) (s : KycStore)
      → c.is_configured ≡ true
      → IsGone q.nonce (open_session verify q c s).0
  unfolding open_session
  open_session_uses q c s on = if_configured_uses c.is_configured q c s on

  if_configured_refused :
      (on : Bool) (q : SessionRequest) (c : Circumstances) (s : KycStore)
      → on ≡ true
      → IsGone q.nonce s
      → (if_configured verify on q c s).1 ≡ bad_nonce
  unfolding consume_nonce
  if_configured_refused false q c s on gone = ground arith
  if_configured_refused true q c s on gone =
      ap (λ o. (after_nonce verify o q c (consume_nonce q.nonce s).0).1) gone

  save_nonce-IsGone :
      (r : NonceRecord) (now : ℕ) (s : KycStore) (nonce : String)
      → has_nonce nonce r ≡ false
      → IsGone nonce s
      → IsGone nonce (save_nonce r now s).0
  unfolding save_nonce
  save_nonce-IsGone r now s nonce other gone =
      let kept =
        find-select-none (has_nonce nonce) (λ x. ltb now x.expires_at) s.siws_nonces gone in
      let more = find-append_none (has_nonce nonce) _ r kept other in ground arith

  -- Whether a call gives out the nonce anew.
  abbrev pub issues : String → Call → Bool
  issues nonce (issue r now) = has_nonce nonce r
  issues nonce (session q c) = false

  call_all-IsGone :
      (nonce : String) (calls : List Call) (s : KycStore)
      → All (λ x. issues nonce x ≡ false) calls
      → IsGone nonce s
      → IsGone nonce (call_all verify calls s)
  unfolding call_all
  call_all-IsGone nonce [] s h gone = gone
  call_all-IsGone nonce (issue r now ∷ rest) s (h, hs) gone =
      call_all-IsGone nonce rest _ hs (save_nonce-IsGone r now s nonce h gone)
  call_all-IsGone nonce (session q c ∷ rest) s (h, hs) gone =
      call_all-IsGone nonce rest _ hs (open_session-IsGone q c s nonce gone)

  -- Once a configured call of `openSession` has been made with a nonce, whatever its result, and
  -- whatever calls follow that do not issue that nonce again, a further call with the nonce opens
  -- no session: when configured it is refused as an unknown nonce.
  pub open_session_once :
      (q later : SessionRequest) (c d : Circumstances) (calls : List Call) (s : KycStore)
      → c.is_configured ≡ true
      → d.is_configured ≡ true
      → q.nonce ≡ later.nonce
      → All (λ x. issues q.nonce x ≡ false) calls
      → (open_session verify later d (call_all verify calls (open_session verify q c s).0)).1
        ≡ bad_nonce
  unfolding open_session
  open_session_once q later c d calls s on also_on same quiet =
      if_configured_refused d.is_configured later d _ also_on (
        subst (λ n. IsGone n (call_all verify calls (open_session verify q c s).0)) same
          (call_all-IsGone q.nonce calls _ quiet (open_session_uses q c s on)))
