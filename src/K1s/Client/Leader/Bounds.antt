-- ===== src/K1s/Client/Leader/Bounds.antt =====
-- How many requests one call makes, and that they all ask for the same.
use k1s_k8s_operator.Prelude.{
  ℕ, zero, suc, ◌+◌, String, ◌≡◌, refl, Option, none, some, Option-cases, Bool-cases, inl, inr,
  arith, ◌==◌, string_eq,
}
use k1s_k8s_operator.Go.Values.{Fields}
use k1s_k8s_operator.Go.Errors.{Error, not_leader, is_not_leader, Result, ok, err}
use k1s_k8s_operator.K1s.Client.Transport.{Url, Transport, Client}
use k1s_k8s_operator.K1s.Client.Request.{build_url, request, do_json_request}
use k1s_k8s_operator.K1s.Client.Leader.{
  Fallback, replied, cancelled, exhausted, Advertised, nowhere, unparsed, answered, refused,
  next_round, woken, selected, leader_retry_backoff, sleep_context, service_fallback, try_at,
  at_address, try_leader, finish, fall_back, after_leader, after_first, do_json_with_leader_retry,
}
use k1s_k8s_operator.K1s.Client.Leader.Recording.{
  Recorded, recording, Sends, Sends-none, Sends-one, Sends-trans, Sends-weaken,
}

module _ {W : Type 0} (T : Transport W) (c : Client) (method : String) (body : Option String) where
  -- An action sends at most `n` requests.
  abbrev SendsUpTo : {A : Type 0} → ℕ → (Recorded W → A × Recorded W) → Type 0
  SendsUpTo n m = (s : Recorded W) → Sends method body n s.1 (m s).1.1

  request-Sends : (url : String) → SendsUpTo 1 (do_json_request (recording T) c method url body)
  unfolding do_json_request recording
  request-Sends url s = elim (Option-cases (T.request_error method url)) [
    | inl fine ↦
        rw (fine, do_json_request)
          (Sends-one method body s.1 (request (recording T) c method url body) (refl, refl))
    | inr (e, bad) ↦ rw (bad, do_json_request) (Sends-none method body 1 s.1)
  ]

  module _ (url : String) where
    next_round-Sends :
        (n : ℕ) (again : Error → Recorded W → Fallback × Recorded W)
        (p : Result Fields × Recorded W)
        → ((e : Error) → SendsUpTo n (again e))
        → Sends method body n p.1.1 (next_round (recording T) c method url body again p).1.1
    next_round-Sends n again (ok out, s) h = Sends-none method body n s.1
    next_round-Sends n again (err e, s) h = elim (Bool-cases (is_not_leader e)) [
      | inl follower ↦ rw (follower, next_round) (h e s)
      | inr other ↦ rw (other, next_round) (Sends-none method body n s.1)
    ]

    woken-Sends :
        (n : ℕ) (again : Error → Recorded W → Fallback × Recorded W)
        (p : Result (Unit {0}) × Recorded W)
        → ((e : Error) → SendsUpTo n (again e))
        → Sends method body (1 + n) p.1.1 (woken (recording T) c method url body again p).1.1
    woken-Sends n again (err e, s) h = Sends-none method body (1 + n) s.1
    woken-Sends n again (ok _, s) h =
        Sends-trans method body 1 n _ _ _ (request-Sends url s)
          (next_round-Sends n again (do_json_request (recording T) c method url body s) h)

    slept-Sends :
        (n : ℕ) (again : Error → Recorded W → Fallback × Recorded W) (x : Option Error × W)
        (s : Recorded W)
        → ((e : Error) → SendsUpTo n (again e))
        → Sends method body
            (1 + n)
            s.1
            (woken (recording T) c method url body again (selected (x.0, (x.1, s.1)))).1.1
    slept-Sends n again (none, w) s h = woken-Sends n again (ok tt, (w, s.1)) h
    slept-Sends n again (some e, w) s h = woken-Sends n again (err e, (w, s.1)) h

    service_fallback-Sends :
        (n : ℕ) (last : Error)
        → SendsUpTo n (service_fallback (recording T) c method url body n last)
    unfolding service_fallback recording sleep_context
    service_fallback-Sends zero last s = Sends-none method body 0 s.1
    service_fallback-Sends (suc n) last s =
        Sends-weaken method body (1 + n) (suc n) _ _ (omega arith) (
          slept-Sends n (service_fallback (recording T) c method url body n)
            (T.select leader_retry_backoff s.0) s (service_fallback-Sends n))

  module _ (endpoint : String) where
    abbrev R : Transport (Recorded W)
    R = recording T

    try_at-Sends :
        (leader : Url) (p : Result Fields × Recorded W)
        → (try_at R c method endpoint body leader p).1.1 ≡ p.1.1
    try_at-Sends leader (ok out, s) = refl
    try_at-Sends leader (err e, s) = refl

    at_address-Sends : (r : Result Url) → SendsUpTo 1 (at_address R c method endpoint body r)
    at_address-Sends (err e) s = Sends-none method body 1 s.1
    at_address-Sends (ok leader) s =
        let url = build_url R leader endpoint in rw try_at-Sends (request-Sends url s)

    try_leader-Sends :
        (address : String) → SendsUpTo 1 (try_leader R c method endpoint body address)
    unfolding try_leader recording
    try_leader-Sends address s = elim (Bool-cases (address == "")) [
      | inl blank ↦ rw blank (Sends-none method body 1 s.1)
      | inr given ↦ rw given (at_address-Sends (T.parse_url address) s)
    ]

    finish-Sends :
        (leader : Option (Url × Error)) (p : Fallback × Recorded W)
        → (finish R c method endpoint body leader p).1.1 ≡ p.1.1
    finish-Sends leader (replied out, s) = refl
    finish-Sends leader (cancelled e, s) = refl
    finish-Sends leader (exhausted e, s) = refl

    fall_back-Sends :
        (first : Error) (leader : Option (Url × Error))
        → SendsUpTo 12 (fall_back R c method endpoint body first leader)
    fall_back-Sends first leader s =
        rw finish-Sends (service_fallback-Sends (build_url R c.base_url endpoint) 12 first s)

    after_leader-Sends :
        (first : Error) (p : Advertised × Recorded W)
        → Sends method body 12 p.1.1 (after_leader R c method endpoint body first p).1.1
    after_leader-Sends first (nowhere, s) = fall_back-Sends first none s
    after_leader-Sends first (unparsed, s) = Sends-none method body 12 s.1
    after_leader-Sends first (answered out, s) = Sends-none method body 12 s.1
    after_leader-Sends first (refused leader e, s) = fall_back-Sends first (some (leader, e)) s

    after_first-Sends :
        (p : Result Fields × Recorded W)
        → Sends method body 13 p.1.1 (after_first R c method endpoint body p).1.1
    after_first-Sends (ok out, s) = Sends-none method body 13 s.1
    after_first-Sends (err (not_leader address m p b), s) =
        Sends-trans method body 1 12 _ _ _ (try_leader-Sends address s) (
          after_leader-Sends (not_leader address m p b)
            (try_leader R c method endpoint body address s))
    after_first-Sends (err e, s) = Sends-none method body 13 s.1

    -- However the replicas answer, a call sends at most fourteen requests: the first, one to the leader
    -- that is advertised, and twelve more to the service. All have the method and the body of the
    -- call.
    pub do_json_with_leader_retry-Sends :
        (s : Recorded W)
        → Sends method body 14 s.1
            (do_json_with_leader_retry (recording T) c method endpoint body s).1.1
    unfolding do_json_with_leader_retry
    do_json_with_leader_retry-Sends s =
        let url = build_url R c.base_url endpoint in
        Sends-trans method body 1 13 _ _ _ (request-Sends url s)
          (after_first-Sends (do_json_request R c method url body s))
