-- ===== src/Credentials/Promise.antt =====
-- What an attestation and an assertion that are returned have been checked for.
use fido.Base.{ap, ◌∙◌, inl, inr, ℕ, ◌≡◌, ◌≢◌, arith, true, List, [], is_empty, not}
use fido.Base.Bits.{Bytes}
use fido.Errors.{ok, bind-eq-ok, authenticator_data, signature, attestation_format, no_credential}
use fido.Errors.{Ceremony, registering, asserting}
use fido.Errors.{no_authenticator_data, no_signature, bad_credential, bad_user, bad_count}
use fido.Init.{has}
use fido.Cbor.{Cbor, got, Coded-cases, find}
use fido.Ctap2.{member_field}
use fido.AuthData.{AuthData, flag_at, parse_auth_data}
use fido.Transport.{Transport, M, from, value, ◌>>=◌, ◌>>◌}
use fido.Transport.Bind.{bind-eq-value, from-value}
use fido.Ctap2.Exchange.{ctap2_ready-value}
use fido.Session.{Key}
use fido.Init.{cap_cbor}
use fido.Ctap2.{ctap2_ready, cbor_call}
use fido.PinProtocol.{Crypto}
use fido.Requests.{
  MakeCredentialRequest, GetAssertionRequest, check_make, check_get, make_request, get_request,
}
use fido.Requests.{cmd_make_credential, cmd_get_assertion}
use fido.Credentials.{make_credential, get_assertion}
use fido.Credentials.{Attestation, Assertion, read_auth_data, read_attestation, parse_attestation}
use fido.Credentials.{read_assertion, parse_assertion, require, decoded_or}

module _ (c : Cbor) where
  -- What an attestation has been checked for, against the reply that it comes from.
  abbrev pub Attests : Bytes → Attestation → Type 0
  Attests body a =
      (raw : List (ℕ × Bytes)) × (c.to_map body ≡ got raw)
      × (member_field c.to_bytes raw 0x02 authenticator_data ≡ ok a.auth_data)
      × (parse_auth_data c a.auth_data ≡ ok a.parsed)
      × (has a.parsed.flags flag_at ≡ true)

  -- What an assertion has been checked for, against the reply that it comes from.
  abbrev pub Asserts : Bytes → Assertion → Type 0
  Asserts body a =
      (raw : List (ℕ × Bytes)) × (c.to_map body ≡ got raw)
      × (a.signature ≢ [])
      × (member_field c.to_bytes raw 0x03 signature ≡ ok a.signature)
      × (member_field c.to_bytes raw 0x02 authenticator_data ≡ ok a.auth_data)
      × (parse_auth_data c a.auth_data ≡ ok a.parsed)

  pub read_auth_data-ok :
      (ceremony : Ceremony) (raw : List (ℕ × Bytes)) (content : Bytes) (a : AuthData)
      → read_auth_data c ceremony raw ≡ ok (content, a)
      → (content ≢ [])
        × (member_field c.to_bytes raw 0x02 authenticator_data ≡ ok content)
        × (parse_auth_data c content ≡ ok a)
  unfolding read_auth_data
  read_auth_data-ok ceremony raw content a h =
      let (b, e1, h1) = bind-eq-ok (member_field c.to_bytes raw 0x02 authenticator_data) _ h in
      let (_, e2, h2) =
        bind-eq-ok (require (not (is_empty b)) (no_authenticator_data ceremony)) _ h1 in
      let (p, e3, h3) = bind-eq-ok (parse_auth_data c b) _ h2 in
      let same : b ≡ content = ground arith in
      let parsed : p ≡ a = ground arith in (λ empty. ground arith, ground arith, ground arith)

  read_attestation-ok :
      (raw : List (ℕ × Bytes)) (a : Attestation)
      → read_attestation c raw ≡ ok a
      → (member_field c.to_bytes raw 0x02 authenticator_data ≡ ok a.auth_data)
        × (parse_auth_data c a.auth_data ≡ ok a.parsed)
        × (has a.parsed.flags flag_at ≡ true)
  unfolding read_attestation
  read_attestation-ok raw a h =
      let (f, e1, h1) = bind-eq-ok (member_field c.to_text raw 0x01 attestation_format) _ h in
      let (x, e2, h2) = bind-eq-ok (read_auth_data c registering raw) _ h1 in
      let (_, e3, h3) = bind-eq-ok (require (has x.1.flags flag_at) no_credential) _ h2 in
      let (_, found, parsed) = read_auth_data-ok registering raw x.0 x.1 e2 in
      (ground arith, ground arith, ground arith)

  parse_attestation-ok :
      (body : Bytes) (a : Attestation) → parse_attestation c body ≡ ok a → Attests body a
  unfolding parse_attestation
  parse_attestation-ok body a h = elim (Coded-cases (c.to_map body)) [
    | inl (raw, e) ↦ let (x, y, z) = read_attestation-ok raw a (ground arith) in (raw, e, x, y, z)
    | inr (x, e) ↦ absurd (ground arith)
  ]

  read_assertion-ok :
      (raw : List (ℕ × Bytes)) (a : Assertion)
      → read_assertion c raw ≡ ok a
      → (a.signature ≢ [])
        × (member_field c.to_bytes raw 0x03 signature ≡ ok a.signature)
        × (member_field c.to_bytes raw 0x02 authenticator_data ≡ ok a.auth_data)
        × (parse_auth_data c a.auth_data ≡ ok a.parsed)
  unfolding read_assertion
  read_assertion-ok raw a h =
      let (x, e1, h1) = bind-eq-ok (read_auth_data c asserting raw) _ h in
      let (sig, e2, h2) = bind-eq-ok (member_field c.to_bytes raw 0x03 signature) _ h1 in
      let (_, e3, h3) = bind-eq-ok (require (not (is_empty sig)) no_signature) _ h2 in
      let (d, e4, h4) =
        bind-eq-ok (decoded_or c.to_credential ([], []) bad_credential (find 0x01 raw)) _ h3 in
      let (u, e5, h5) = bind-eq-ok (decoded_or c.to_user [] bad_user (find 0x04 raw)) _ h4 in
      let (n, e6, h6) = bind-eq-ok (decoded_or c.to_uint 0 bad_count (find 0x05 raw)) _ h5 in
      let (_, found, parsed) = read_auth_data-ok asserting raw x.0 x.1 e1 in
      let same : sig ≡ a.signature = ground arith in
      (λ empty. ground arith, ground arith, ground arith, ground arith)

  parse_assertion-ok :
      (body : Bytes) (a : Assertion) → parse_assertion c body ≡ ok a → Asserts body a
  unfolding parse_assertion
  parse_assertion-ok body a h = elim (Coded-cases (c.to_map body)) [
    | inl (raw, e) ↦
        let (w, x, y, z) = read_assertion-ok raw a (ground arith) in (raw, e, w, x, y, z)
    | inr (x, e) ↦ absurd (ground arith)
  ]

  check_make-ok :
      (r : MakeCredentialRequest)
      → check_make r ≡ ok tt
      → (r.client_data_hash ≢ []) × (r.rp.id ≢ []) × (r.user.id ≢ [])
  unfolding check_make
  check_make-ok r h = (λ e. ground arith, λ e. ground arith, λ e. ground arith)

  check_get-ok :
      (r : GetAssertionRequest) → check_get r ≡ ok tt → (r.rp_id ≢ []) × (r.client_data_hash ≢ [])
  unfolding check_get
  check_get-ok r h = (λ e. ground arith, λ e. ground arith)

  module _ {S : Type 0} (t : Transport S) (y : Crypto) where
    -- The steps before the reply is read, and the reply.
    pub make_credential-parse_attestation :
        (fuel : ℕ) (k : Key) (r : MakeCredentialRequest) (s s' : S) (a : Attestation)
        → make_credential c t y fuel k r s ≡ (value a, s')
        → (has k.caps cap_cbor ≡ true)
          × (r.client_data_hash ≢ [])
          × (r.rp.id ≢ [])
          × (r.user.id ≢ [])
          × ((body : Bytes) × (cbor_call t c fuel k cmd_make_credential (make_request y r) s
                ≡ (value body, s'))
              × (parse_attestation c body ≡ ok a))
    unfolding make_credential
    make_credential-parse_attestation fuel k r s s' a h =
        let answer = cbor_call t c fuel k cmd_make_credential (make_request y r) in
        let last : Bytes → M S Attestation = λ body. from (parse_attestation c body) in
        let (_, u, e1, h1) =
          bind-eq-value (ctap2_ready t k) (λ _. from (check_make r) >> (answer >>= last)) {s = s}
            {s' = s'} {b = a} h in
        let (_, v, e2, h2) =
          bind-eq-value (from (check_make r)) (λ _. answer >>= last) {s = u} {s' = s'} {b = a} h1 in
        let (body, w, e3, h3) = bind-eq-value answer last {s = v} {s' = s'} {b = a} h2 in
        let (caps, at) = ctap2_ready-value t k s u e1 in
        let (checked, at₂) = from-value (check_make r) u v e2 in
        let (parsed, at₃) = from-value (parse_attestation c body) w s' h3 in
        let (g1, g2, g3) = check_make-ok r checked in
        let found : answer s ≡ (value body, s') =
          ap answer (at ∙ at₂) ∙ e3 ∙ ap (λ z. (value body, z)) at₃ in
        (caps, g1, g2, g3, (body, found, parsed))

    -- `MakeCredential` returns an attestation only on a key that speaks CTAP2, for a request with a
    -- client data hash, a relying party and a user handle. Its reply's authenticator data parses to
    -- what the attestation says, with attested credential data.
    pub make_credential-Attests :
        (fuel : ℕ) (k : Key) (r : MakeCredentialRequest) (s s' : S) (a : Attestation)
        → make_credential c t y fuel k r s ≡ (value a, s')
        → (has k.caps cap_cbor ≡ true)
          × (r.client_data_hash ≢ [])
          × (r.rp.id ≢ [])
          × (r.user.id ≢ [])
          × ((body : Bytes) × (cbor_call t c fuel k cmd_make_credential (make_request y r) s
                ≡ (value body, s'))
              × Attests body a)
    make_credential-Attests fuel k r s s' a h =
        let (caps, g1, g2, g3, (body, found, parsed)) =
          make_credential-parse_attestation fuel k r s s' a h in
        (caps, g1, g2, g3, (body, found, parse_attestation-ok body a parsed))

    -- The steps before the reply is read, and the reply.
    pub get_assertion-parse_assertion :
        (fuel : ℕ) (k : Key) (r : GetAssertionRequest) (s s' : S) (a : Assertion)
        → get_assertion c t y fuel k r s ≡ (value a, s')
        → (has k.caps cap_cbor ≡ true)
          × (r.rp_id ≢ [])
          × (r.client_data_hash ≢ [])
          × ((body : Bytes) × (cbor_call t c fuel k cmd_get_assertion (get_request y r) s
                ≡ (value body, s'))
              × (parse_assertion c body ≡ ok a))
    unfolding get_assertion
    get_assertion-parse_assertion fuel k r s s' a h =
        let answer = cbor_call t c fuel k cmd_get_assertion (get_request y r) in
        let last : Bytes → M S Assertion = λ body. from (parse_assertion c body) in
        let (_, u, e1, h1) =
          bind-eq-value (ctap2_ready t k) (λ _. from (check_get r) >> (answer >>= last)) {s = s}
            {s' = s'} {b = a} h in
        let (_, v, e2, h2) =
          bind-eq-value (from (check_get r)) (λ _. answer >>= last) {s = u} {s' = s'} {b = a} h1 in
        let (body, w, e3, h3) = bind-eq-value answer last {s = v} {s' = s'} {b = a} h2 in
        let (caps, at) = ctap2_ready-value t k s u e1 in
        let (checked, at₂) = from-value (check_get r) u v e2 in
        let (parsed, at₃) = from-value (parse_assertion c body) w s' h3 in
        let (g1, g2) = check_get-ok r checked in
        let found : answer s ≡ (value body, s') =
          ap answer (at ∙ at₂) ∙ e3 ∙ ap (λ z. (value body, z)) at₃ in
        (caps, g1, g2, (body, found, parsed))

    -- `GetAssertion` returns an assertion only on a key that speaks CTAP2, for a request with a relying
    -- party and a client data hash. Its signature is not empty, and its reply's authenticator data
    -- parses to what the assertion says.
    pub get_assertion-Asserts :
        (fuel : ℕ) (k : Key) (r : GetAssertionRequest) (s s' : S) (a : Assertion)
        → get_assertion c t y fuel k r s ≡ (value a, s')
        → (has k.caps cap_cbor ≡ true)
          × (r.rp_id ≢ [])
          × (r.client_data_hash ≢ [])
          × ((body : Bytes) × (cbor_call t c fuel k cmd_get_assertion (get_request y r) s
                ≡ (value body, s'))
              × Asserts body a)
    get_assertion-Asserts fuel k r s s' a h =
        let (caps, g1, g2, (body, found, parsed)) =
          get_assertion-parse_assertion fuel k r s s' a h in
        (caps, g1, g2, (body, found, parse_assertion-ok body a parsed))
