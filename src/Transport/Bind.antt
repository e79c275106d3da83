-- ===== src/Transport/Bind.antt =====
-- How a chain of calls comes to a value.
use fido.Base.{◌≡◌, refl, sym, ◌∙◌, arith}
use fido.Errors.{Error, Result, ok, err}
use fido.Transport.{Outcome, value, error, panic, waiting, M, ◌>>=◌, from}

module _ {S A B : Type 0} (m : M S A) (f : A → M S B) {s u : S} where
  pub bind-value : {a : A} → m s ≡ (value a, u) → (m >>= f) s ≡ f a u
  bind-value {a} e = ground arith

  pub bind-error : {e : Error} → m s ≡ (error e, u) → (m >>= f) s ≡ (error e, u)
  bind-error {e} h = ground arith

  pub bind-panic : m s ≡ (panic, u) → (m >>= f) s ≡ (panic, u)
  bind-panic h = ground arith

  pub bind-waiting : m s ≡ (waiting, u) → (m >>= f) s ≡ (waiting, u)
  bind-waiting h = ground arith

-- A chain that comes to a value has come to one at each step.
pub bind-eq-value :
    {S A B : Type 0} (m : M S A) (f : A → M S B) {s s' : S} {b : B}
    → (m >>= f) s ≡ (value b, s')
    → (a : A) × (u : S) × (m s ≡ (value a, u)) × (f a u ≡ (value b, s'))
bind-eq-value {A} {B} m f {s} {s'} {b} h = go (m s).0 (m s).1 refl h
  where
    go :
        (o : Outcome A) (u : _)
        → m s ≡ (o, u)
        → (m >>= f) s ≡ (value b, s')
        → (a : A) × (u : _) × (m s ≡ (value a, u)) × (f a u ≡ (value b, s'))
    go (value a) u e h = (a, u, e, sym (bind-value m f e) ∙ h)
    go (error x) u e h = absurd (cc (bind-error m f e))
    go panic u e h = absurd (cc (bind-panic m f e))
    go waiting u e h = absurd (cc (bind-waiting m f e))

pub from-value :
    {S A : Type 0} (x : Result A) (s s' : S) {a : A}
    → from x s ≡ (value a, s')
    → (x ≡ ok a) × (s ≡ s')
from-value (ok a) s s' h = ground arith
from-value (err e) s s' h = absurd (ground arith)
