-- ===== src/Errors.antt =====
-- The errors of the package: the sentinels of fido.go, and one constructor for each `fmt.Errorf`,
-- with the values that its text shows. A value of `Text` stands for what a component outside
-- the repository answered.
use fido.Base.{ℕ, List, ◌≡◌, refl, ◌⊎◌, inl, inr}
use fido.Base.Bits.{Bytes}
use fido.Base.Int.{ℤ}

-- A Go string is a sequence of bytes.
abbrev pub Text : Type 0
Text = List ℕ

-- The two coordinates of a COSE key, and the three numbers in front of them.
pub data Coordinate : Type 0 where
  x y : Coordinate

-- What a COSE key is for.
pub data Purpose : Type 0 where
  credential agreement_key : Purpose

pub data Header : Type 0 where
  key_type algorithm curve : Header

-- The required members of a reply.
pub data Member : Type 0 where
  attestation_format authenticator_data signature retry_count token : Member

-- The two operations on credentials.
pub data Ceremony : Type 0 where
  registering asserting : Ceremony

-- The replies that are CBOR maps.
pub data Answer : Type 0 where
  description retries agreement token_reply registration assertion : Answer

pub data Error : Type 0 where
  -- fido.go
  no_key too_long short_packet wrong_channel out_of_order truncated : Error
  -- key.go
  no_nonce : Text → Error
  bad_init : Error → Error
  foreign_init : (got wanted : Bytes) → Error
  cannot_wink : (name : Text) → Error
  cannot_send : (name cause : Text) → Error
  no_answer : (name cause : Text) → Error
  refused : (name : Text) (code : ℕ) → Error
  wrong_command : (name : Text) (got sent : ℕ) → Error
  -- ctap2.go
  no_ctap2 : (name : Text) → Error
  empty_reply : (name : Text) → Error
  ctap_status : (name : Text) (status : ℕ) → Error
  no_description : Error
  not_a_map : Answer → (cause : Text) → Error
  bad_field : (key : ℕ) (cause : Text) → Error
  bad_identifier : (size : ℕ) → Error
  no_version : Error
  -- authdata.go
  short_header : (size : ℕ) → Error
  short_attested : (size : ℕ) → Error
  short_credential : (said follow : ℕ) → Error
  bad_public_key : (cause : Text) → Error
  bad_extensions : (cause : Text) → Error
  trailing_bytes : (size : ℕ) → Error
  -- cose.go, and the agreement key of clientpin.go
  no_credential_key : Error
  bad_cose_map : Purpose → (cause : Text) → Error
  missing_header : Header → Error
  bad_header : Header → (cause : Text) → Error
  unsupported_key : (kty alg crv : ℤ) → Error
  missing_coordinate : Purpose → Coordinate → Error
  bad_coordinate : Purpose → Coordinate → (cause : Text) → Error
  coordinate_sizes : Purpose → (x_size y_size : ℕ) → Error
  not_on_curve : Error
  not_a_point : Error
  bad_platform_key : (size : ℕ) → Error
  no_agreement_key : Error
  -- pinproto.go
  unknown_protocol : (version : ℤ) → Error
  no_hmac_key : (cause : Text) → Error
  no_aes_key : (cause : Text) → Error
  partial_blocks : (size : ℕ) → Error
  not_an_aes_key : Error
  no_iv : (cause : Text) → Error
  short_iv : (size : ℕ) → Error
  empty_pin : Error
  no_platform_key : (cause : Text) → Error
  will_not_agree : (cause : Text) → Error
  -- clientpin.go
  bad_power_cycle : (cause : Text) → Error
  will_not_decrypt : Error → Error
  token_size : (size : ℕ) (version : ℤ) → Error
  -- credential.go
  no_client_data_hash : Ceremony → Error
  no_relying_party : Ceremony → Error
  no_user_handle : Error
  no_authenticator_data : Ceremony → Error
  no_credential : Error
  no_signature : Error
  bad_credential : (cause : Text) → Error
  bad_user : (cause : Text) → Error
  bad_count : (cause : Text) → Error
  cannot_encode : (cause : Text) → Error
  missing_member : Member → Error
  bad_member : Member → (cause : Text) → Error

-- Go's `(value, error)`.
pub data Result {ℓ} (A : Type ℓ) : Type ℓ where
  err : Error → Result A
  ok : A → Result A

infixl 5 ◌>>=◌ ◌>>◌
abbrev pub ◌>>=◌ {ℓ ℓ'} : {B : Type ℓ} {C : Type ℓ'} → Result B → (B → Result C) → Result C
err fault >>= next = err fault
ok b >>= next = next b

-- `if !test { return e }` in front of the rest.
abbrev pub ◌>>◌ {ℓ} : {C : Type ℓ} → Result (Unit {0}) → Result C → Result C
test >> rest = test >>= λ _. rest

pub Result-cases {ℓ} :
    {A : Type ℓ} (r : Result A) → ((a : A) × (r ≡ ok a)) ⊎ ((e : Error) × (r ≡ err e))
Result-cases (ok a) = inl (a, refl)
Result-cases (err e) = inr (e, refl)

-- A chain that succeeds has succeeded at each step.
pub bind-eq-ok {ℓ ℓ'} :
    {B : Type ℓ} {C : Type ℓ'} (first : Result B) (next : B → Result C) {c : C}
    → (first >>= next) ≡ ok c
    → (b : B) × (first ≡ ok b) × (next b ≡ ok c)
bind-eq-ok (ok b) next whole = (b, refl, whole)
bind-eq-ok (err fault) next whole = cc
