-- ===== src/Transport.antt =====
-- key.go: the `Transport` interface and the source of nonces, which the environment implements, and
-- the calls that use them as functions of the environment's state.
pub mod Bind
pub mod Keeps
use fido.Base.{ℕ, Option, ◌≡◌, List, [], ◌∷◌, length, All}
use fido.Base.Bits.{Bytes, IsByte}
use fido.Errors.{Text, Error, Result, ok, err}

-- What `Receive` answers.
pub data Received : Type 0 where
  report : Bytes → Received
  broken : Text → Received

-- What a source of random bytes answers.
pub data Filled : Type 0 where
  filled : Bytes → Filled
  exhausted : Text → Filled

-- One authenticator, over a state that its answers and its owner's reports change. An error of `none`
-- is Go's nil.
pub record Transport (S : Type 0) : Type 0 where
  pub send : Bytes → S → Option Text × S
  pub receive : S → Received × S
  pub name : Text
  pub close : S → Option Text × S

-- The seams of the source: `randomNonce`, asked for eight bytes; `randRead`, asked for an
-- initialisation vector of sixteen; and `newECDHKey`.
pub record Random (S : Type 0) : Type 0 where
  pub nonce : S → Filled × S
  pub iv : S → Filled × S
  pub private_key : S → Filled × S

-- What a call comes to: a value, an error, a panic, or a wait that has outlasted the fuel.
pub data Outcome {ℓ} (A : Type ℓ) : Type ℓ where
  value : A → Outcome A
  error : Error → Outcome A
  panic : Outcome A
  waiting : Outcome A

abbrev pub M : Type 0 → Type 0 → Type 0
M S A = S → Outcome A × S

infixl 5 ◌>>=◌ ◌>>◌
abbrev pub ◌>>=◌ : {S A B : Type 0} → M S A → (A → M S B) → M S B
◌>>=◌ m f s =
    let (o, s') = m s in
    elim o [
      | value a ↦ f a s'
      | error e ↦ (error e, s')
      | panic ↦ (panic, s')
      | waiting ↦ (waiting, s')
    ]

abbrev pub ◌>>◌ : {S B : Type 0} → M S (Unit {0}) → M S B → M S B
m >> k = m >>= λ _. k

abbrev pub return : {S A : Type 0} → A → M S A
return a s = (value a, s)

abbrev pub raise : {S A : Type 0} → Error → M S A
raise e s = (error e, s)

abbrev pub from : {S A : Type 0} → Result A → M S A
from (ok a) s = (value a, s)
from (err e) s = (error e, s)
