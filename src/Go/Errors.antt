-- ===== src/Go/Errors.antt =====
-- `error` values, fallible results, and actions on a world that may fail.
use k1s_k8s_operator.Prelude.{
  ℕ, String, ◌<>◌, ◌≡◌, refl, ◌⊎◌, inl, inr, Bool, true, false, ◌==◌, nat_eq,
}
use k1s_k8s_operator.Go.Strconv.{itoa}

-- The reasons of a Kubernetes API error that the code asks for.
pub data Reason : Type 0 where
  not_found conflict other : Reason

-- `api_error` is `APIError` and `not_leader` is `notLeaderError` of internal/k1s/client.go;
-- `wrapped` is what `fmt.Errorf` makes with `%w`, `message` any error with nothing but a text.
pub data Error : Type 0 where
  api_error : (method path : String) → ℕ → (body : String) → Error
  not_leader : (advertise_addr method path body : String) → Error
  kube : Reason → String → Error
  message : String → Error
  wrapped : String → Error → Error

-- `err.Error()`
unfoldable pub error_text : Error → String
unfolding itoa
error_text (api_error method path status body) =
    "k1s API " <> (method <> (" " <> (path <> (" returned " <> (itoa status <> (": " <> body))))))
error_text (not_leader _ method path body) =
    "k1s API " <> (method <> (" " <> (path <> (" returned 409: " <> body))))
error_text (kube _ text) = text
error_text (message text) = text
error_text (wrapped text _) = text

-- `IsNotFound`: `errors.As` looks for an `APIError` along the chain of wrapped errors.
unfoldable pub is_not_found : Error → Bool
is_not_found (api_error _ _ status _) = status == 404
is_not_found (wrapped _ e) = is_not_found e
is_not_found _ = false

-- `apierrors.IsNotFound`, on the errors of the Kubernetes client
unfoldable pub is_kube_not_found : Error → Bool
is_kube_not_found (kube not_found _) = true
is_kube_not_found _ = false

-- a type assertion `err.(*notLeaderError)`, which looks at the error itself and not along the chain
unfoldable pub is_not_leader : Error → Bool
is_not_leader (not_leader _ _ _ _) = true
is_not_leader _ = false

pub data Result {ℓ} (A : Type ℓ) : Type ℓ where
  ok : A → Result A
  err : Error → Result A

abbrev pub Exec : Type 0 → Type 0 → Type 0
Exec W A = W → Result A × W

module _ {W A : Type 0} where
  abbrev pub pure : A → Exec W A
  pure a w = (ok a, w)

  abbrev pub fail : Error → Exec W A
  fail e w = (err e, w)

  abbrev pub lift : Result A → Exec W A
  lift r w = (r, w)

module _ {W A B : Type 0} where
  abbrev pub continue : (A → Exec W B) → Result A × W → Result B × W
  continue f (ok a, w) = f a w
  continue f (err e, w) = (err e, w)

  infixl 10 ◌>>=◌ ◌>>◌
  abbrev pub ◌>>=◌ : Exec W A → (A → Exec W B) → Exec W B
  ◌>>=◌ m f w = continue f (m w)

  abbrev pub ◌>>◌ : Exec W A → Exec W B → Exec W B
  m >> n = m >>= λ _. n

  -- Goes on with the result, be it an error or not.
  abbrev pub handle : Exec W A → (Result A → Exec W B) → Exec W B
  handle m f w = let (r, w') = m w in f r w'

module _ {W A B : Type 0} where
  -- A chain that succeeds goes on from a first part that did.
  pub continue-eq-ok :
      (f : A → Exec W B) (p : Result A × W) {b : B}
      → (continue f p).0 ≡ ok b
      → (a : A) × (p.0 ≡ ok a) × (continue f p ≡ f a p.1)
  continue-eq-ok f (ok a, w) h = (a, refl, refl)
  continue-eq-ok f (err e, w) h = cc

pub ok_inj {ℓ} : {A : Type ℓ} {a b : A} → ok a ≡ ok b → a ≡ b
ok_inj h = cc

pub Result-cases {ℓ} :
    {A : Type ℓ} (r : Result A) → ((a : A) × (r ≡ ok a)) ⊎ ((e : Error) × (r ≡ err e))
Result-cases (ok a) = inl (a, refl)
Result-cases (err e) = inr (e, refl)

-- An action, and then a value: the value comes back, in the world that the action left.
pub continue-pure-eq-ok :
    {W A : Type 0} (b : A) (p : Result (Unit {0}) × W) {o : A}
    → (continue (λ _. pure b) p).0 ≡ ok o
    → (o ≡ b) × ((continue (λ _. pure b) p).1 ≡ p.1)
continue-pure-eq-ok b (ok _, w) h = (cc, refl)
continue-pure-eq-ok b (err e, w) h = cc
