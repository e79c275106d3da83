-- ===== src/Transport/Keeps.antt =====
-- What a chain of calls leaves as it was: a property of the state that each call keeps.
use fido.Base.{◌≡◌, refl, true, false, Bool, if◌then◌else◌}
use fido.Errors.{Error, Result, ok, err}
use fido.Transport.{Outcome, value, error, panic, waiting, M, ◌>>=◌, from, return, raise}
use fido.Transport.Bind.{bind-value, bind-error, bind-panic, bind-waiting}

-- `m` keeps `P`, whatever it comes to.
pub record Keeps {S A : Type 0} (P : S → Type 0) (m : M S A) : Type 0 where
  pub at : (s : S) → P s → P (m s).1

module _ {S A : Type 0} {P : S → Type 0} where
  pub Keeps-return : (a : A) → Keeps P (return a)
  Keeps-return a = record { at = λ s p. p }

  pub Keeps-raise : (e : Error) → Keeps P (raise {A = A} e)
  Keeps-raise e = record { at = λ s p. p }

  pub Keeps-from : (x : Result A) → Keeps P (from x)
  Keeps-from (ok a) = record { at = λ s p. p }
  Keeps-from (err e) = record { at = λ s p. p }

  pub Keeps-if : (b : Bool) (m n : M S A) → Keeps P m → Keeps P n → Keeps P (if b then m else n)
  Keeps-if true m n hm hn = hm
  Keeps-if false m n hm hn = hn

module _ {S A B : Type 0} {P : S → Type 0} (m : M S A) (f : A → M S B) (hm : Keeps P m) where
  -- The second call has to keep it only in the states that the first one leads to with a value.
  pub Keeps-bind : ((s u : S) (a : A) → m s ≡ (value a, u) → P u → P (f a u).1) → Keeps P (m >>= f)
  Keeps-bind hf = record { at = λ s p. go s p (m s).0 (m s).1 refl }
    where
      go : (s : S) (p : P s) (o : Outcome A) (u : S) → m s ≡ (o, u) → P ((m >>= f) s).1
      go s p (value a) u e = rw (bind-value m f e) (hf s u a e (rw e at (hm.at s p)))
      go s p (error x) u e = rw (bind-error m f e) (rw e at (hm.at s p))
      go s p panic u e = rw (bind-panic m f e) (rw e at (hm.at s p))
      go s p waiting u e = rw (bind-waiting m f e) (rw e at (hm.at s p))

  pub Keeps-then : ((a : A) → Keeps P (f a)) → Keeps P (m >>= f)
  Keeps-then hf = Keeps-bind (λ s u a e. (hf a).at u)

-- One rule for each way to build a call.
pub ruleset keeps_rules = (Keeps-return, Keeps-raise, Keeps-from, Keeps-if, Keeps-then)
