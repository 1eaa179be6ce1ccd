-- ===== src/K1s/Client/Request.antt =====
-- One request: `buildURL`, `doJSONRequest` and `parseNotLeader`.
use k1s_k8s_operator.Prelude.{
  ℕ, ◌^◌, String, ◌<>◌, slice, Bool, true, not, ◌&&◌, ◌||◌, Option, none, some, ◌==◌, nat_eq,
  string_eq, ltb, if◌then◌else◌,
}
use k1s_k8s_operator.Go.Text.{trim_left, trim_right, trim_space, has_suffix, split_n2}
use k1s_k8s_operator.Go.Values.{Any, string, Fields, empty, lookup}
use k1s_k8s_operator.Go.Errors.{api_error, not_leader, Result, ok, err, Exec}
use k1s_k8s_operator.K1s.Client.Transport.{Url, HttpRequest, HttpResponse, Transport, Client}

abbrev slashes : ℕ → Bool
slashes c = c == b'/'

-- `strv`
unfoldable pub strv : Any → String
strv (string t) = t
strv _ = ""

abbrev read_limit : ℕ
read_limit = 2 ^ 20

module _ {W : Type 0} (T : Transport W) where
  unfoldable pub build_url : Url → String → String
  build_url base endpoint =
      let base_path = trim_right slashes base.path in
      let endpoint_path = "/" <> trim_left slashes endpoint in
      let joined = T.join_path base_path endpoint_path in
      let closed =
        if has_suffix endpoint_path b'/' && not (has_suffix joined b'/')
        then joined <> "/"
        else joined in
      let (before, behind) = split_n2 endpoint b'?' in
      elim behind [
        | none ↦ T.url_string (record base { path = closed })
        | some query ↦ T.url_string (record base {
          path = T.join_path base_path ("/" <> trim_left slashes before);
          raw_query = query;
        })
      ]

  -- The advertised address of the leader, if the reply says that another replica leads.
  unfoldable pub parse_not_leader : ℕ → String → Option String
  parse_not_leader status body =
      if status == 409
      then elim (T.unmarshal body) [
        | err _ ↦ none
        | ok payload ↦
            if strv (lookup payload "error") == "not_leader"
            then some (strv (lookup payload "advertise_addr"))
            else none
      ]
      else none

  -- the part of `doJSONRequest` behind `c.http.Do`
  unfoldable pub read_response : String → String → HttpResponse → Result Fields
  unfolding parse_not_leader
  read_response method path response =
      let body = slice response.body 0 read_limit in
      if ltb response.status 200 || ltb 299 response.status
      then elim (parse_not_leader response.status body) [
        | some leader ↦ err (not_leader leader method path (trim_space body))
        | none ↦ err (api_error method path response.status (trim_space body))
      ]
      else if body == ""
      then ok empty
      else T.unmarshal body

  module _ (c : Client) where
    abbrev pub request : String → String → Option String → HttpRequest
    request method url body = record {
      method = method;
      url = url;
      body = body;
      content_type = elim body [ none ↦ none | some _ ↦ some "application/json" ];
      authorization = if c.token == "" then none else some ("Bearer " <> c.token);
      close = true;
    }

    abbrev pub respond : String → String → Result HttpResponse → Result Fields
    respond method url (err e) = err e
    respond method url (ok response) = read_response method (T.request_path url) response

    -- A reply with no body leaves the caller's map nil, which reads as the empty one.
    unfoldable pub do_json_request : String → String → Option String → Exec W Fields
    do_json_request method url body w = elim (T.request_error method url) [
      | some e ↦ (err e, w)
      | none ↦
          let (reply, w') = T.send c.timeout c.ca_bundle (request method url body) w in
          (respond method url reply, w')
    ]
