-- ===== src/K1s/Client/Transport.antt =====
-- The parts of the standard library that the client rests on, as parameters, and `NewClient`.
use k1s_k8s_operator.Prelude.{
  ℕ, String, Bool, not, ◌&&◌, ◌||◌, Option, List, [], ◌∷◌, ◌==◌, string_eq, if◌then◌else◌,
}
use k1s_k8s_operator.Go.Text.{trim_space}
use k1s_k8s_operator.Go.Values.{Fields, FloatConversions}
use k1s_k8s_operator.Go.Errors.{Error, message, Result, ok, err, Exec}

-- a `url.URL`; `rest` holds the fields that the code neither reads nor writes
pub record Url : Type 0 where
  pub scheme : String
  pub host : String
  pub path : String
  pub raw_query : String
  pub rest : String

pub record HttpRequest : Type 0 where
  pub method : String
  pub url : String
  pub body : Option String
  pub content_type : Option String
  pub authorization : Option String
  pub close : Bool

pub record HttpResponse : Type 0 where
  pub status : ℕ
  pub body : String

pub record Transport (W : Type 0) : Type 0 where
  pub parse_url : String → Result Url
  pub url_string : Url → String
  pub redacted : Url → String
  -- `path.Join` of two elements
  pub join_path : String → String → String
  pub path_escape : String → String
  pub query_escape : String → String
  -- the error of `http.NewRequestWithContext`, if it has one, and the path of the request's URL
  pub request_error : String → String → Option Error
  pub request_path : String → String
  -- `http.Client.Do` of a client with this timeout, in seconds, and this CA bundle, if it is not empty;
  -- and the reading of the body
  pub send : (timeout : ℕ) (ca_bundle : String) → HttpRequest → Exec W HttpResponse
  -- the `select` of the context's end and a timer of so many milliseconds: the context's error if it
  -- ends first
  pub select : ℕ → W → Option Error × W
  -- `json.Unmarshal` into a nil `map[string]any`, and `json.Marshal` of one
  pub unmarshal : String → Result Fields
  pub marshal : Fields → Result String
  -- `CertPool.AppendCertsFromPEM`
  pub accepts_pem : String → Bool
  pub floats : FloatConversions

-- the `http.Client` is its timeout, in seconds, and the CA bundle of its transport
pub record Client : Type 0 where
  pub base_url : Url
  pub token : String
  pub ca_bundle : String
  pub timeout : ℕ

pub record ClientConfig : Type 0 where
  token : String
  ca_bundle : String
  timeout : ℕ

-- `Option`
abbrev pub ClientOption : Type 0
ClientOption = ClientConfig → ClientConfig

unfoldable pub with_bearer_token : String → ClientOption
with_bearer_token token config = record config { token = trim_space token }

unfoldable pub with_ca_bundle : String → ClientOption
with_ca_bundle bundle config = record config { ca_bundle = bundle }

unfoldable pub with_timeout : ℕ → ClientOption
with_timeout timeout config = record config { timeout = timeout }

-- the loop over the options
unfoldable pub configure : List ClientOption → ClientConfig → ClientConfig
configure [] config = config
configure (option ∷ options) config = configure options (option config)

-- `NewClient`
unfoldable pub new_client :
    {W : Type 0} → Transport W → (url : String) (options : List ClientOption) → Result Client
unfolding configure
new_client T url options = elim (T.parse_url (trim_space url)) [
  | err e ↦ err e
  | ok base ↦
      if base.scheme == "" || base.host == ""
      then err (message "k1s base URL must include scheme and host")
      else let config = configure options (record { token = ""; ca_bundle = ""; timeout = 10 }) in
        if not (config.ca_bundle == "") && not (T.accepts_pem config.ca_bundle)
        then err (message "invalid CA bundle")
        else ok (record {
          base_url = base;
          token = config.token;
          ca_bundle = config.ca_bundle;
          timeout = config.timeout;
        })
]
