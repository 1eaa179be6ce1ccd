-- ===== src/K1s/Client/Leader.antt =====
-- `doJSONWithLeaderRetry`: the advertised leader is tried once, then the service up to twelve times.
pub mod Recording
pub mod Bounds
pub mod Outcomes
use k1s_k8s_operator.Prelude.{
  ℕ, zero, suc, String, ◌<>◌, true, false, Option, none, some, ◌==◌, string_eq, if◌then◌else◌,
}
use k1s_k8s_operator.Go.Strconv.{itoa}
use k1s_k8s_operator.Go.Values.{Fields}
use k1s_k8s_operator.Go.Errors.{
  Error, not_leader, wrapped, error_text, is_not_leader, Result, ok, err, Exec,
}
use k1s_k8s_operator.K1s.Client.Transport.{Url, Transport, Client}
use k1s_k8s_operator.K1s.Client.Request.{build_url, do_json_request}

abbrev pub leader_service_fallback_attempts : ℕ
leader_service_fallback_attempts = 12

-- How the loop over the service ends: with a reply, with the context, or with the last error.
pub data Fallback : Type 0 where
  replied : Fields → Fallback
  cancelled : Error → Fallback
  exhausted : Error → Fallback

-- What the try at the advertised leader comes to: nothing advertised, an address that is no URL, a
-- reply, or an error at that URL.
pub data Advertised : Type 0 where
  nowhere : Advertised
  unparsed : Advertised
  answered : Fields → Advertised
  refused : Url → Error → Advertised

-- in milliseconds
abbrev leader_retry_backoff : ℕ
leader_retry_backoff = 200

abbrev pub selected : {W : Type 0} → Option Error × W → Result (Unit {0}) × W
selected (none, w) = (ok tt, w)
selected (some e, w) = (err e, w)

unfoldable pub sleep_context : {W : Type 0} → Transport W → ℕ → W → Result (Unit {0}) × W
sleep_context T duration w = selected (T.select duration w)

module _ {W : Type 0} (T : Transport W) (c : Client) where
  module _ (method url : String) (body : Option String) where
    -- behind the request of one round, with the rounds that are left
    abbrev pub next_round : (Error → W → Fallback × W) → Result Fields × W → Fallback × W
    next_round again (ok out, w) = (replied out, w)
    next_round again (err e, w) = elim (is_not_leader e) [
      | true ↦ again e w
      | false ↦ (exhausted e, w)
    ]

    -- behind the wait of one round
    abbrev pub woken : (Error → W → Fallback × W) → Result (Unit {0}) × W → Fallback × W
    woken again (err e, w) = (cancelled e, w)
    woken again (ok _, w) = next_round again (do_json_request T c method url body w)

    unfoldable pub service_fallback : ℕ → Error → W → Fallback × W
    service_fallback zero last w = (exhausted last, w)
    service_fallback (suc rounds) last w =
        woken (service_fallback rounds) (sleep_context T leader_retry_backoff w)

  module _ (method endpoint : String) (body : Option String) where
    abbrev pub try_at : Url → Result Fields × W → Advertised × W
    try_at leader (ok out, w) = (answered out, w)
    try_at leader (err e, w) = (refused leader e, w)

    abbrev pub at_address : Result Url → W → Advertised × W
    at_address (err _) w = (unparsed, w)
    at_address (ok leader) w =
        try_at leader (do_json_request T c method (build_url T leader endpoint) body w)

    unfoldable pub try_leader : String → W → Advertised × W
    try_leader address w =
        if address == "" then (nowhere, w) else at_address (T.parse_url address) w

    -- The text names the service, and the error of the leader where there is one; `%w` wraps the
    -- leader's error, and the service's only if no leader was tried.
    unfoldable pub retry_error : Option (Url × Error) → Error → Error
    retry_error none e =
        wrapped
          ("k1s leader retry failed after "
            <> (itoa leader_service_fallback_attempts
                <> (" service fallbacks against "
                    <> (T.redacted c.base_url <> (": " <> error_text e)))))
          e
    retry_error (some (leader, e)) service =
        wrapped
          ("k1s leader retry failed after "
            <> (itoa leader_service_fallback_attempts
                <> (" service fallbacks: advertised "
                    <> (T.redacted leader
                        <> (": "
                            <> (error_text e
                                <> ("; service "
                                    <> (T.redacted c.base_url
                                        <> (": " <> error_text service)))))))))
          e

    abbrev pub finish : Option (Url × Error) → Fallback × W → Result Fields × W
    finish leader (replied out, w) = (ok out, w)
    finish leader (cancelled e, w) = (err e, w)
    finish leader (exhausted e, w) = (err (retry_error leader e), w)

    abbrev pub fall_back : Error → Option (Url × Error) → W → Result Fields × W
    fall_back first leader w = finish leader (
        service_fallback method (build_url T c.base_url endpoint) body
          leader_service_fallback_attempts first w)

    abbrev pub after_leader : Error → Advertised × W → Result Fields × W
    after_leader first (nowhere, w) = fall_back first none w
    after_leader first (unparsed, w) = (err first, w)
    after_leader first (answered out, w) = (ok out, w)
    after_leader first (refused leader e, w) = fall_back first (some (leader, e)) w

    abbrev pub after_first : Result Fields × W → Result Fields × W
    after_first (err (not_leader address m p b), w) =
        after_leader (not_leader address m p b) (try_leader address w)
    after_first (r, w) = (r, w)

    unfoldable pub do_json_with_leader_retry : Exec W Fields
    do_json_with_leader_retry w =
        after_first (do_json_request T c method (build_url T c.base_url endpoint) body w)
