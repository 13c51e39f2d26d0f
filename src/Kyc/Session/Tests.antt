-- ===== src/Kyc/Session/Tests.antt =====
-- The theorems on sessions, at concrete calls.
use axel_sol.Prelude.{none, ◌≡◌, refl, String, Bool, true, [], ◌∷◌, str_eq, find}
use axel_sol.Kyc.Session.{
  save_nonce, is_wallet, has_user_id, NonceRecord, KycStore, SessionRequest, Circumstances, issue,
  bad_nonce, opened, consume_nonce, bind_wallet, open_session, call_all,
}
use axel_sol.Kyc.Session.Issued.{open_session-save_nonce}
use axel_sol.Kyc.Session.Once.{IsGone, open_session_once}

-- A signature is right when it repeats the message.
abbrev same_text : String → String → String → Bool
same_text message signature wallet = str_eq message signature

abbrev issued : NonceRecord
issued = record { nonce = "a1"; wallet = "w"; message = "sign in"; expires_at = 600 }

abbrev another : NonceRecord
another = record { nonce = "b2"; wallet = "w"; message = "sign in again"; expires_at = 900 }

abbrev start : KycStore
start = record { siws_nonces = issued ∷ []; kyc_bindings = [] }

abbrev request : SessionRequest
request = record { wallet = "w"; nonce = "a1"; signature = "sign in" }

abbrev at_once : Circumstances
at_once = record { is_configured = true; now = 100; new_user_id = "u"; has_token = true }

abbrev in_a_while : Circumstances
in_a_while = record { is_configured = true; now = 200; new_user_id = "v"; has_token = true }

session_opens : (open_session same_text request at_once start).1 ≡ opened "w" "u"
unfolding open_session consume_nonce bind_wallet find
session_opens = refl

open_session_once_example :
    (open_session same_text request in_a_while (
      call_all same_text
        (issue another 150 ∷ [])
        (open_session same_text request at_once start).0)).1
    ≡ bad_nonce
open_session_once_example =
    open_session_once same_text request request at_once in_a_while (issue another 150 ∷ []) start
      refl refl refl (refl, tt)

abbrev empty : KycStore
empty = record { siws_nonces = []; kyc_bindings = [] }

empty-IsGone : IsGone "a1" empty
unfolding find
empty-IsGone = refl

empty_wallet : find (is_wallet "w") empty.kyc_bindings ≡ none
unfolding find
empty_wallet = refl

empty_user : find (has_user_id "u") empty.kyc_bindings ≡ none
unfolding find
empty_user = refl

open_session-save_nonce_example :
    (open_session same_text request at_once (save_nonce issued 50 empty).0).1 ≡ opened "w" "u"
open_session-save_nonce_example =
    open_session-save_nonce same_text issued "sign in" 50 at_once empty refl refl empty-IsGone refl
      refl empty_wallet empty_user
