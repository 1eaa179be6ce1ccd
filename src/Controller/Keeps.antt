-- ===== src/Controller/Keeps.antt =====
-- What actions on a world keep, whether they end well or not.
use k1s_k8s_operator.Prelude.{◌≡◌, refl, ◌∙◌, Bool, true, false, if◌then◌else◌}
use k1s_k8s_operator.Go.Errors.{Result, ok, err, Exec, continue, handle, ◌>>=◌}
use k1s_k8s_operator.Controller.Separate.{Leaves}
use k1s_k8s_operator.Controller.Managed.Backend.{Address}

-- An action that keeps a property of the world, be its result an error or not.
abbrev pub Keeps : {W A : Type 0} → (W → Type 0) → Exec W A → Type 0
Keeps {W} Q m = (w : W) → Q w → Q (m w).1

continue-Keeps :
    {W A B : Type 0} (Q : W → Type 0) (f : A → Exec W B)
    → ((a : A) → Keeps Q (f a))
    → (p : Result A × W) → Q p.1
    → Q (continue f p).1
continue-Keeps Q f each (ok a, w) q = each a w q
continue-Keeps Q f each (err e, w) q = q

pub bind-Keeps :
    {W A B : Type 0} (Q : W → Type 0) (m : Exec W A) (f : A → Exec W B)
    → Keeps Q m
    → ((a : A) → Keeps Q (f a))
    → Keeps Q (m >>= f)
bind-Keeps Q m f first each w q = continue-Keeps Q f each (m w) (first w q)

pub handle-Keeps :
    {W A B : Type 0} (Q : W → Type 0) (m : Exec W A) (f : Result A → Exec W B)
    → Keeps Q m
    → ((r : Result A) → Keeps Q (f r))
    → Keeps Q (handle m f)
handle-Keeps Q m f first each w q = each (m w).0 (m w).1 (first w q)

-- Whichever branch is taken.
pub if-Keeps :
    {W A : Type 0} (Q : W → Type 0) (b : Bool) (m n : Exec W A)
    → (b ≡ true → Keeps Q m)
    → (b ≡ false → Keeps Q n)
    → Keeps Q (if b then m else n)
if-Keeps Q true m n h k = h refl
if-Keeps Q false m n h k = k refl

-- What an action leaves alone stays as it was.
pub Leaves-Keeps :
    {W A : Type 0} (holds : W → Address → Bool) (m : Exec W A)
    → Leaves holds m
    → (a : Address) (b : Bool) → Keeps (λ w. holds w a ≡ b) m
Leaves-Keeps holds m h a b w q = h w a ∙ q
