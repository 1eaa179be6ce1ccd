-- ===== src/Tests/Leaders.antt =====
-- The theorems on the retry behind a leader, at a server that counts the requests.
use k1s_k8s_operator.Prelude.{ℕ, zero, suc, ◌≡◌, refl, true, [], none, string_eq, nat_eq}
use k1s_k8s_operator.Go.Text.{trim_left, trim_right, trim_space, has_suffix, split_n2}
use k1s_k8s_operator.Go.Values.{string, empty, field, lookup}
use k1s_k8s_operator.Go.Errors.{Error, api_error, not_leader, is_not_leader, is_not_found, ok, err}
use k1s_k8s_operator.K1s.Client.Transport.{Transport, Client, HttpResponse}
use k1s_k8s_operator.K1s.Client.Request.{
  strv, build_url, parse_not_leader, read_response, do_json_request,
}
use k1s_k8s_operator.K1s.Client.Leader.{
  exhausted, refused, leader_service_fallback_attempts, service_fallback, sleep_context, try_leader,
  do_json_with_leader_retry,
}
use k1s_k8s_operator.K1s.Client.Leader.Recording.{recording, Sends}
use k1s_k8s_operator.K1s.Client.Leader.Bounds.{do_json_with_leader_retry-Sends}
use k1s_k8s_operator.K1s.Client.Leader.Outcomes.{is_not_found_behind_leader}
use k1s_k8s_operator.Tests.Objects.{no_url, floats}

-- A follower, then a leader that fails, then a service that has no such app.
abbrev reply : ℕ → HttpResponse
reply zero = record { status = 409; body = "follower" }
reply (suc zero) = record { status = 500; body = "broken" }
reply (suc (suc n)) = record { status = 404; body = "no app" }

abbrev server : Transport ℕ
server = record {
  parse_url = λ s. ok no_url;
  url_string = λ u. u.path;
  redacted = λ u. u.host;
  join_path = λ a b. b;
  path_escape = λ s. s;
  query_escape = λ s. s;
  request_error = λ m u. none;
  request_path = λ u. u;
  send = λ timeout ca_bundle r n. (ok (reply n), suc n);
  select = λ duration w. (none, w);
  unmarshal = λ s. ok (
      field "error" (string "not_leader") (field "advertise_addr" (string "https://leader") empty));
  marshal = λ f. ok "{}";
  accepts_pem = λ s. true;
  floats = floats;
}

abbrev client : Client
client = record { base_url = no_url; token = ""; ca_bundle = ""; timeout = 10 }

abbrev follower : Error
follower = not_leader "https://leader" "GET" "/status" "follower"

first-refused :
    do_json_request server client "GET" (build_url server no_url "/status") none 0
    ≡ (err follower, 1)
unfolding do_json_request build_url read_response parse_not_leader strv lookup trim_left trim_right
    trim_space has_suffix split_n2 string_eq nat_eq
first-refused = refl

leader-failed :
    try_leader server client "GET" "/status" none "https://leader" 1
    ≡ (refused no_url (api_error "GET" "/status" 500 "broken"), 2)
unfolding try_leader do_json_request build_url read_response parse_not_leader strv lookup trim_left
    trim_right trim_space has_suffix split_n2 string_eq nat_eq
leader-failed = refl

service-lacks :
    service_fallback server client "GET"
      (build_url server no_url "/status")
      none
      leader_service_fallback_attempts
      follower
      2
    ≡ (exhausted (api_error "GET" "/status" 404 "no app"), 3)
unfolding service_fallback sleep_context do_json_request build_url read_response parse_not_leader
    strv lookup trim_left trim_right trim_space has_suffix split_n2 is_not_leader string_eq nat_eq
service-lacks = refl

is_not_found_behind_leader_example :
    (x : Error) × (do_json_with_leader_retry server client "GET" "/status" none 0 ≡ (err x, 3))
    × (is_not_found x ≡ is_not_found (api_error "GET" "/status" 500 "broken"))
is_not_found_behind_leader_example =
    is_not_found_behind_leader server client "GET" "/status" none 0 1 2 3 "https://leader" "GET"
      "/status" "follower" no_url (api_error "GET" "/status" 500 "broken")
      (api_error "GET" "/status" 404 "no app") first-refused leader-failed service-lacks

do_json_with_leader_retry-Sends_example :
    Sends "GET" none 14 []
      (do_json_with_leader_retry (recording server) client "GET" "/status" none (0, [])).1.1
do_json_with_leader_retry-Sends_example =
    do_json_with_leader_retry-Sends server client "GET" none "/status" (0, [])
