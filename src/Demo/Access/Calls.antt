-- ===== src/Demo/Access/Calls.antt =====
-- Each call that `handleAccess` of frontend/src/lib/demo/server/handlers.ts makes of the store keeps
-- the counter and the markers in step with the requests.
use axel_sol.Prelude.{
  ℕ, zero, suc, ◌+◌, ◌*◌, ◌≡◌, refl, sym, subst, arith, String, Bool, true, false, none, some, ltb,
}
use axel_sol.Prelude.Int.{pos, lt_ℤ}
use axel_sol.Demo.{day_seconds, utc_day, access_wallet, access_ip, access_granted}
use axel_sol.Demo.Store.{Entries, increment, decrement, delete}
use axel_sol.Demo.Store.Lasting.{
  IsNumber, increment-other, decrement-other, increment-IsNumber, decrement-IsNumber,
  set_if_absent-none, set_if_absent-some, count-IsNumber,
}
use axel_sol.Demo.Access.{
  access_cap, Phase, arrived, asking, marked, over_ip, passed_ip, over_cap, uncounted, reserved,
  failing, released, granted, already_granted, refused, chosen, after_count, after_set, in_progress,
  ip_limit, cap_reached, transaction_failed, next_call,
}
use axel_sol.Demo.Access.Counted.{
  holds, exceeds, marks, own, Stands, Markers-kept, Markers-set, Markers-delete,
}

module _ (ms : ℕ) (landed : Bool) (wallet ip : String) (now : ℕ) (s : Entries) (h o : ℕ)
    (m : String → ℕ) (st : Stands s h o m) where
  -- What a call does keeps the numbers, as far as the request itself changes them.
  abbrev pub Keeps : Phase → Entries × Phase → Type 0
  Keeps p (s', p') =
      (h' o' : ℕ) (m' : String → ℕ)
      → h' + holds p ≡ h + holds p'
      → o' + exceeds p ≡ o + exceeds p'
      → ((w : String) → m' w + marks p * own wallet w ≡ m w + marks p' * own wallet w)
      → Stands s' h' o' m'

  unmoved :
      (a b : ℕ) (m' : String → ℕ)
      → a ≡ b
      → ((w : String) → m' w + a * own wallet w ≡ m w + b * own wallet w)
      → (w : String) → m' w ≡ m w
  unmoved a b m' same dm w =
      let e = subst (λ k. m' w + k * own wallet w ≡ m w + b * own wallet w) same (dm w) in
      omega (arith, e)

  kept-IsNumber : (h' o' : ℕ) → h' ≡ h → o' ≡ o → IsNumber (s access_granted) (h' + o')
  kept-IsNumber h' o' h_is o_is = rw h_is (rw o_is st.number)

  Keeps-same :
      (p p' : Phase) (s' : Entries)
      → s' access_granted ≡ s access_granted
      → ((w : String) → s' (access_wallet w) ≡ s (access_wallet w))
      → holds p ≡ holds p'
      → exceeds p ≡ exceeds p'
      → marks p ≡ marks p'
      → Keeps p (s', p')
  Keeps-same p p' s' number marker eh eo em h' o' m' dh do_ dm =
      let h_is : h' ≡ h = omega arith in
      let o_is : o' ≡ o = omega arith in
      record {
        number = rw number (rw h_is (rw o_is st.number));
        within = rw h_is st.within;
        markers = Markers-kept s s' m m' st.markers marker (unmoved (marks p) (marks p') m' em dm);
      }

  Keeps-stay :
      (p p' : Phase)
      → holds p ≡ holds p'
      → exceeds p ≡ exceeds p'
      → marks p ≡ marks p'
      → Keeps p (s, p')
  Keeps-stay p p' = Keeps-same p p' s refl (λ w. refl)

  either :
      (b : Bool) (p q r : Phase) (s' : Entries)
      → Keeps p (s', q)
      → Keeps p (s', r)
      → Keeps p (s', chosen b q r)
  either true p q r s' yes_ no_ = yes_
  either false p q r s' yes_ no_ = no_

  arrived-Keeps : Keeps arrived (next_call ms landed wallet ip now arrived s)
  unfolding next_call
  arrived-Keeps =
      subst (λ r. Keeps arrived (after_count r))
        (sym (count-IsNumber ms (access_wallet wallet) s (m wallet) (st.markers wallet).0))
        (either _ arrived already_granted asking s
          (Keeps-stay arrived already_granted refl refl refl)
          (Keeps-stay arrived asking refl refl refl))

  -- A marker is set for a wallet without one, and else the request is refused.
  asking_free : m wallet ≡ 0 → Keeps asking (next_call ms landed wallet ip now asking s)
  unfolding next_call
  asking_free free =
      subst (λ r. Keeps asking (after_set r))
        (sym (set_if_absent-none ms (access_wallet wallet) s ((st.markers wallet).2 free)))
        (λ h' o' m' dh do_ dm. record {
          number = kept-IsNumber h' o' (omega arith) (omega arith);
          within = omega (arith, st.within);
          markers = Markers-set wallet s m m' st.markers free (λ w. omega (arith, dm w));
        })

  asking-Keeps : Keeps asking (next_call ms landed wallet ip now asking s)
  unfolding next_call
  asking-Keeps =
      elim (m wallet)
          as (λ n. m wallet ≡ n → Keeps asking (next_call ms landed wallet ip now asking s)) [
            | zero ↦ asking_free
            | suc n ↦ λ e.
                subst (λ r. Keeps asking (after_set r))
                  (sym (
                    set_if_absent-some ms (access_wallet wallet) s n
                      (subst (IsNumber (s (access_wallet wallet))) e (st.markers wallet).0)))
                  (Keeps-stay asking (refused in_progress) refl refl refl)
          ]
        refl

  Keeps-ip :
      (p' : Phase)
      → holds marked ≡ holds p'
      → exceeds marked ≡ exceeds p'
      → marks marked ≡ marks p'
      → Keeps marked ((increment ms (access_ip ip (utc_day now)) (some (2 * day_seconds)) s).1, p')
  Keeps-ip p' =
      let k = access_ip ip (utc_day now) in
      Keeps-same marked p' _ (increment-other ms k (some (2 * day_seconds)) s access_granted refl)
        (λ w. increment-other ms k (some (2 * day_seconds)) s (access_wallet w) refl)

  marked-Keeps : Keeps marked (next_call ms landed wallet ip now marked s)
  unfolding next_call
  marked-Keeps =
      let k = access_ip ip (utc_day now) in
      let r = increment ms k (some (2 * day_seconds)) s in
      either _ marked over_ip passed_ip r.1 (Keeps-ip over_ip refl refl refl)
        (Keeps-ip passed_ip refl refl refl)

  -- A request gets an access only while the count is within the cap.
  Keeps-granted :
      (b : Bool)
      → ltb (access_cap + 0) (h + o + 1 + 0) ≡ b
      → Keeps passed_ip ((increment ms access_granted none s).1, chosen b over_cap reserved)
  Keeps-granted true past h' o' m' dh do_ dm = record {
    number =
        subst (IsNumber _) (omega arith)
          (increment-IsNumber ms access_granted s (h + o) refl st.number).1;
    within = omega (arith, st.within);
    markers =
        Markers-kept s (increment ms access_granted none s).1 m m' st.markers
          (λ w. increment-other ms access_granted none s (access_wallet w) refl)
          (unmoved 1 1 m' refl dm);
  }
  Keeps-granted false inside h' o' m' dh do_ dm = record {
    number =
        subst (IsNumber _) (omega arith)
          (increment-IsNumber ms access_granted s (h + o) refl st.number).1;
    within = ground arith;
    markers =
        Markers-kept s (increment ms access_granted none s).1 m m' st.markers
          (λ w. increment-other ms access_granted none s (access_wallet w) refl)
          (unmoved 1 1 m' refl dm);
  }

  passed_ip-Keeps : Keeps passed_ip (next_call ms landed wallet ip now passed_ip s)
  unfolding next_call
  passed_ip-Keeps =
      let r = increment ms access_granted none s in
      subst (λ n. Keeps passed_ip (r.1, chosen (lt_ℤ (pos access_cap) n) over_cap reserved))
        (sym (increment-IsNumber ms access_granted s (h + o) refl st.number).0)
        (Keeps-granted _ refl)

  -- A request that gives its count back had one.
  Keeps-given_back :
      (p p' : Phase)
      → holds p + exceeds p ≡ 1
      → holds p' + exceeds p' ≡ 0
      → marks p ≡ marks p'
      → Keeps p ((decrement ms access_granted s).1, p')
  Keeps-given_back p p' one none_ em h' o' m' dh do_ dm =
      let counted : h + o ≡ suc (h' + o') = omega arith in
      record {
        number =
            decrement-IsNumber ms access_granted s (h' + o') refl
              (subst (IsNumber (s access_granted)) counted st.number);
        within = omega (arith, st.within);
        markers =
            Markers-kept s (decrement ms access_granted s).1 m m' st.markers
              (λ w. decrement-other ms access_granted s (access_wallet w) refl)
              (unmoved (marks p) (marks p') m' em dm);
      }

  Keeps-unmarked :
      (p p' : Phase)
      → holds p + exceeds p ≡ 0
      → holds p' + exceeds p' ≡ 0
      → marks p ≡ 1
      → marks p' ≡ 0
      → Keeps p (delete (access_wallet wallet) s, p')
  Keeps-unmarked p p' none_ none_' em em' h' o' m' dh do_ dm = record {
    number = kept-IsNumber h' o' (omega arith) (omega arith);
    within = omega (arith, st.within);
    markers = Markers-delete wallet s m m' st.markers (λ w.
        let e = subst (λ k. m' w + k * own wallet w ≡ m w + marks p' * own wallet w) em (dm w) in
        let e' = subst (λ k. m' w + 1 * own wallet w ≡ m w + k * own wallet w) em' e in
        omega (arith, e'));
  }

  -- What a call does keeps the numbers.
  pub next_call-Keeps : (p : Phase) → Keeps p (next_call ms landed wallet ip now p s)
  unfolding next_call
  next_call-Keeps arrived = arrived-Keeps
  next_call-Keeps asking = asking-Keeps
  next_call-Keeps marked = marked-Keeps
  next_call-Keeps over_ip = Keeps-unmarked over_ip (refused ip_limit) refl refl refl refl
  next_call-Keeps passed_ip = passed_ip-Keeps
  next_call-Keeps over_cap = Keeps-given_back over_cap uncounted refl refl refl
  next_call-Keeps uncounted = Keeps-unmarked uncounted (refused cap_reached) refl refl refl refl
  next_call-Keeps reserved =
      either landed reserved granted failing s (Keeps-stay reserved granted refl refl refl)
        (Keeps-stay reserved failing refl refl refl)
  next_call-Keeps failing = Keeps-given_back failing released refl refl refl
  next_call-Keeps released =
      Keeps-unmarked released (refused transaction_failed) refl refl refl refl
  next_call-Keeps granted = Keeps-stay granted granted refl refl refl
  next_call-Keeps already_granted = Keeps-stay already_granted already_granted refl refl refl
  next_call-Keeps (refused e) = Keeps-stay (refused e) (refused e) refl refl refl
