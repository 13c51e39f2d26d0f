-- ===== src/Kyc/Session.antt =====
-- Nonces and bindings of backend/src/kyc/kyc.store.ts, and the sessions of kyc-session.service.ts.
-- The request's fields have been read. The ed25519 check and the outcome of asking Sumsub for a
-- token come in as arguments, as do the random nonce and user id.
pub mod Issued
pub mod Once
mod Tests
use axel_sol.Prelude.{
  ℕ, String, Bool, true, false, not, ◌&&◌, ◌||◌, Option, none, some, List, [], ◌∷◌, ◌++◌, leb, ltb,
  if◌then◌else◌, str_eq, find, select,
}
use axel_sol.Kyc.Webhook.{WalletBinding}

pub record NonceRecord : Type 0 where
  pub nonce : String
  pub wallet : String
  pub message : String
  pub expires_at : ℕ

pub record KycStore : Type 0 where
  pub siws_nonces : List NonceRecord
  pub kyc_bindings : List WalletBinding

abbrev pub has_nonce : String → NonceRecord → Bool
has_nonce nonce r = str_eq r.nonce nonce

abbrev pub is_some {ℓ} : {A : Type ℓ} → Option A → Bool
is_some none = false
is_some (some a) = true

abbrev pub live : ℕ → List NonceRecord → List NonceRecord
live now nonces = select (λ r. ltb now r.expires_at) nonces

-- The deletion of what has expired, and the insertion, which throws for a nonce that is there; each
-- statement stands by itself.
unfoldable pub save_nonce : NonceRecord → ℕ → KycStore → KycStore × Bool
save_nonce r now s =
    let kept = live now s.siws_nonces in
    if is_some (find (has_nonce r.nonce) kept)
    then (record s { siws_nonces = kept }, false)
    else (record s { siws_nonces = kept ++ r ∷ [] }, true)

unfoldable pub consume_nonce : String → KycStore → KycStore × Option NonceRecord
consume_nonce nonce s = (
  record s { siws_nonces = select (λ r. not (has_nonce nonce r)) s.siws_nonces },
  find (has_nonce nonce) s.siws_nonces,
)

abbrev pub is_wallet : String → WalletBinding → Bool
is_wallet wallet b = str_eq b.wallet wallet

abbrev pub has_user_id : String → WalletBinding → Bool
has_user_id user b = str_eq b.external_user_id user

abbrev pub bound_or :
    Option WalletBinding → WalletBinding → KycStore → KycStore × Option WalletBinding
bound_or (some b) new s = (s, some b)
bound_or none new s =
    if is_some (find (has_user_id new.external_user_id) s.kyc_bindings)
    then (s, none)
    else (record s { kyc_bindings = s.kyc_bindings ++ new ∷ [] }, some new)

-- The binding of the wallet, made if there is none; a new binding with the user id of another
-- wallet throws.
unfoldable pub bind_wallet : String → String → ℕ → KycStore → KycStore × Option WalletBinding
bind_wallet wallet external_user_id now s =
    bound_or (find (is_wallet wallet) s.kyc_bindings)
      (record {
        wallet = wallet;
        external_user_id = external_user_id;
        applicant_id = none;
        last_event_at = none;
        created_at = now;
      })
      s

pub data SessionResult : Type 0 where
  unconfigured bad_nonce bad_signature user_id_taken no_token : SessionResult
  opened : (wallet external_user_id : String) → SessionResult

pub record SessionRequest : Type 0 where
  pub wallet : String
  pub nonce : String
  pub signature : String

-- What a call of `openSession` depends on.
pub record Circumstances : Type 0 where
  pub is_configured : Bool
  pub now : ℕ
  pub new_user_id : String
  pub has_token : Bool

abbrev pub is_usable : NonceRecord → String → ℕ → Bool
is_usable r wallet now = str_eq r.wallet wallet && not (leb r.expires_at now)

abbrev pub token_or : Bool → Option WalletBinding → SessionResult
token_or has_token none = user_id_taken
token_or false (some b) = no_token
token_or true (some b) = opened b.wallet b.external_user_id

-- Calls that use the nonces.
pub data Call : Type 0 where
  issue : NonceRecord → (now : ℕ) → Call
  session : SessionRequest → Circumstances → Call

module _ (verify : (message signature wallet : String) → Bool) where
  abbrev pub after_nonce :
      Option NonceRecord → SessionRequest → Circumstances → KycStore → KycStore × SessionResult
  after_nonce none q c s = (s, bad_nonce)
  after_nonce (some r) q c s =
      if not (is_usable r q.wallet c.now)
      then (s, bad_nonce)
      else if not (verify r.message q.signature q.wallet)
      then (s, bad_signature)
      else let bound = bind_wallet q.wallet c.new_user_id c.now s in
        (bound.0, token_or c.has_token bound.1)

  abbrev pub if_configured :
      Bool → SessionRequest → Circumstances → KycStore → KycStore × SessionResult
  if_configured false q c s = (s, unconfigured)
  if_configured true q c s =
      let consumed = consume_nonce q.nonce s in after_nonce consumed.1 q c consumed.0

  unfoldable pub open_session : SessionRequest → Circumstances → KycStore → KycStore × SessionResult
  open_session q c s = if_configured c.is_configured q c s

  unfoldable pub call_all : List Call → KycStore → KycStore
  call_all [] s = s
  call_all (issue r now ∷ rest) s = call_all rest (save_nonce r now s).0
  call_all (session q c ∷ rest) s = call_all rest (open_session q c s).0
