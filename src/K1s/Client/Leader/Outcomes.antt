-- ===== src/K1s/Client/Leader/Outcomes.antt =====
-- What a call comes to: when it retries, and which error its caller sees.
use k1s_k8s_operator.Prelude.{String, ◌≡◌, ◌≢◌, refl, Option, some, string_eq}
use k1s_k8s_operator.Go.Values.{Fields}
use k1s_k8s_operator.Go.Errors.{Error, not_leader, is_not_found, Result, ok, err}
use k1s_k8s_operator.K1s.Client.Transport.{Url, Transport, Client}
use k1s_k8s_operator.K1s.Client.Request.{build_url, do_json_request}
use k1s_k8s_operator.K1s.Client.Leader.{
  exhausted, refused, leader_service_fallback_attempts, service_fallback, try_leader, retry_error,
  after_first, do_json_with_leader_retry,
}

module _ {W : Type 0} (T : Transport W) (c : Client) (method endpoint : String)
    (body : Option String) where
  after_first_kept :
      (p : Result Fields × W)
      → ((a m q b : String) → p.0 ≢ err (not_leader a m q b))
      → after_first T c method endpoint body p ≡ p
  after_first_kept (ok out, w) h = refl
  after_first_kept (err (not_leader a m q b), w) h = absurd (h a m q b refl)
  after_first_kept (err e, w) h = refl

  -- A reply, or an error other than `not_leader`, is final: nothing is sent again.
  do_json_with_leader_retry_final :
      (w : W)
      → ((a m q b : String)
          → (do_json_request T c method (build_url T c.base_url endpoint) body w).0
            ≢ err (not_leader a m q b))
      → do_json_with_leader_retry T c method endpoint body w
        ≡ do_json_request T c method (build_url T c.base_url endpoint) body w
  unfolding do_json_with_leader_retry
  do_json_with_leader_retry_final w h = after_first_kept _ h

  -- Behind a leader that was tried in vain the answer of the service decides nothing: whether the caller
  -- sees a 404 is whether the leader's error was one.
  pub is_not_found_behind_leader :
      (w w₁ w₂ w₃ : W) (address m q b : String) (leader : Url) (e service : Error)
      → do_json_request T c method (build_url T c.base_url endpoint) body w
        ≡ (err (not_leader address m q b), w₁)
      → try_leader T c method endpoint body address w₁ ≡ (refused leader e, w₂)
      → service_fallback T c method
          (build_url T c.base_url endpoint)
          body
          leader_service_fallback_attempts
          (not_leader address m q b)
          w₂
        ≡ (exhausted service, w₃)
      → (x : Error) × (do_json_with_leader_retry T c method endpoint body w ≡ (err x, w₃))
        × (is_not_found x ≡ is_not_found e)
  unfolding do_json_with_leader_retry
  is_not_found_behind_leader w w₁ w₂ w₃ address m q b leader e service first tried fell = (
    retry_error T c method endpoint body (some (leader, e)) service,
    rw (first, tried, fell),
    unfold retry_error is_not_found in refl,
  )
