-- ===== src/K1s/Client/Leader/Recording.antt =====
-- A transport that keeps a record of the requests that are sent through it.
use k1s_k8s_operator.Prelude.{
  ℕ, ◌+◌, ◌≤◌, String, ◌≡◌, refl, ◌∙◌, sym, List, [], ◌∷◌, ◌++◌, length, length-append, All, Option,
  arith, append_assoc, append-nil, ap,
}
use k1s_k8s_operator.K1s.Client.Transport.{HttpRequest, Transport}

abbrev pub Recorded : Type 0 → Type 0
Recorded W = W × List HttpRequest

unfoldable pub recording : {W : Type 0} → Transport W → Transport (Recorded W)
recording T = record {
  parse_url = T.parse_url;
  url_string = T.url_string;
  redacted = T.redacted;
  join_path = T.join_path;
  path_escape = T.path_escape;
  query_escape = T.query_escape;
  request_error = T.request_error;
  request_path = T.request_path;
  send = λ timeout ca_bundle r s.
      let (x, w) = T.send timeout ca_bundle r s.0 in (x, (w, s.1 ++ r ∷ []));
  select = λ duration s. let (x, w) = T.select duration s.0 in (x, (w, s.1));
  unmarshal = T.unmarshal;
  marshal = T.marshal;
  accepts_pem = T.accepts_pem;
  floats = T.floats;
}

-- Between two records at most `n` requests were sent, all of one method and one body.
module _ (method : String) (body : Option String) where
  abbrev pub IsSame : HttpRequest → Type 0
  IsSame r = (r.method ≡ method) × (r.body ≡ body)

  pub record Sends (n : ℕ) (before after : List HttpRequest) : Type 0 where
    pub sent : List HttpRequest
    pub grown : after ≡ before ++ sent
    pub bounded : length sent ≤ n
    pub same : All IsSame sent

  pub Sends-none : (n : ℕ) (l : List HttpRequest) → Sends n l l
  Sends-none n l = record {
    sent = [];
    grown = sym (append-nil l);
    bounded = omega arith;
    same = tt;
  }

  pub Sends-one : (l : List HttpRequest) (r : HttpRequest) → IsSame r → Sends 1 l (l ++ r ∷ [])
  Sends-one l r h = record { sent = r ∷ []; grown = refl; bounded = omega arith; same = (h, tt) }

  All-append : (xs ys : List HttpRequest) → All IsSame xs → All IsSame ys → All IsSame (xs ++ ys)
  All-append [] ys _ hy = hy
  All-append (x ∷ xs) ys (hx, h) hy = (hx, All-append xs ys h hy)

  pub Sends-trans :
      (n m : ℕ) (a b c : List HttpRequest) → Sends n a b → Sends m b c → Sends (n + m) a c
  Sends-trans n m a b c f g = record {
    sent = f.sent ++ g.sent;
    grown = g.grown ∙ ap (λ l. l ++ g.sent) f.grown ∙ append_assoc a f.sent g.sent;
    bounded = omega (arith, length-append {0} f.sent g.sent, f.bounded, g.bounded);
    same = All-append f.sent g.sent f.same g.same;
  }

  pub Sends-weaken : (n m : ℕ) (a b : List HttpRequest) → n ≤ m → Sends n a b → Sends m a b
  Sends-weaken n m a b le f = record {
    sent = f.sent;
    grown = f.grown;
    bounded = omega (arith, f.bounded);
    same = f.same;
  }
