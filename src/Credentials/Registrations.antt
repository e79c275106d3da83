-- ===== src/Credentials/Registrations.antt =====
-- credential.go, `MakeCredential`: which replies become an attestation.
use fido.Base.{ℕ, ◌≡◌, ◌≢◌, ◌↔◌, refl, sym, ap, ◌∙◌, arith, true, is_empty-ne, inl, inr, List, []}
use fido.Base.Bits.{Bytes}
use fido.Errors.{ok, bind-eq-ok, authenticator_data, attestation_format, no_credential}
use fido.Init.{has, cap_cbor}
use fido.Transport.{Transport, value, from}
use fido.Transport.Bind.{bind-value}
use fido.Session.{Key}
use fido.Cbor.{Cbor, got, find, Coded-cases}
use fido.Ctap2.{member_field, ctap2_ready, cbor_call}
use fido.AuthData.{AuthData, flag_at, parse_auth_data}
use fido.PinProtocol.{Crypto}
use fido.Requests.{MakeCredentialRequest, check_make}
use fido.Requests.{make_request, cmd_make_credential}
use fido.Errors.{Ceremony, registering}
use fido.Credentials.{Attestation, read_auth_data, read_attestation, parse_attestation, raw_or_nil}
use fido.Credentials.{make_credential}
use fido.Credentials.{require}
use fido.Credentials.Promise.{read_auth_data-ok, make_credential-parse_attestation}

module _ (c : Cbor) where
  -- The reply holds the attestation: the format under 1, authenticator data that parses and has
  -- attested credential data under 2, and the statement as it stands under 3, if it is there.
  abbrev pub HoldsAttestation : Bytes → Attestation → Type 0
  HoldsAttestation body a =
      (raw : List (ℕ × Bytes)) × (c.to_map body ≡ got raw)
      × (member_field c.to_text raw 0x01 attestation_format ≡ ok a.format)
      × (member_field c.to_bytes raw 0x02 authenticator_data ≡ ok a.auth_data)
      × (a.auth_data ≢ [])
      × (parse_auth_data c a.auth_data ≡ ok a.parsed)
      × (has a.parsed.flags flag_at ≡ true)
      × (a.statement ≡ raw_or_nil (find 0x03 raw))

  pub read_auth_data-found :
      (ceremony : Ceremony) (raw : List (ℕ × Bytes)) (content : Bytes) (a : AuthData)
      → member_field c.to_bytes raw 0x02 authenticator_data ≡ ok content
      → content ≢ []
      → parse_auth_data c content ≡ ok a
      → read_auth_data c ceremony raw ≡ ok (content, a)
  unfolding read_auth_data
  read_auth_data-found ceremony raw content a found ne parsed =
      rw (found, is_empty-ne content ne, parsed) refl

  parse_attestation-found :
      (body : Bytes) (a : Attestation) → HoldsAttestation body a → parse_attestation c body ≡ ok a
  unfolding parse_attestation read_attestation
  parse_attestation-found body a (raw, e, f, d, ne, p, on, s) =
      rw
        (
          e,
          parse_attestation,
          read_attestation,
          f,
          read_auth_data-found registering raw a.auth_data a.parsed d ne p,
          on,
        )
        (ap (λ x. ok (record a { statement = x })) (sym s))

  parse_attestation-HoldsAttestation :
      (body : Bytes) (a : Attestation) → parse_attestation c body ≡ ok a → HoldsAttestation body a
  unfolding parse_attestation read_attestation
  parse_attestation-HoldsAttestation body a h = elim (Coded-cases (c.to_map body)) [
    | inr (x, e) ↦ absurd (ground arith)
    | inl (raw, e) ↦
        let read : read_attestation c raw ≡ ok a = ground arith in
        let (f, e1, h1) =
          bind-eq-ok (member_field c.to_text raw 0x01 attestation_format) _
            (unfold read_attestation in read) in
        let (x, e2, h2) = bind-eq-ok (read_auth_data c registering raw) _ h1 in
        let (_, e3, h3) = bind-eq-ok (require (has x.1.flags flag_at) no_credential) _ h2 in
        let (ne, found, parsed) = read_auth_data-ok c registering raw x.0 x.1 e2 in
        let same : x.0 ≡ a.auth_data = ground arith in
        (
          raw,
          e,
          ground arith,
          ground arith,
          (λ none. ne (same ∙ none)),
          ground arith,
          ground arith,
          ground arith,
        )
  ]

  module _ {S : Type 0} (t : Transport S) (y : Crypto) where
    -- `MakeCredential` returns an attestation exactly if the key speaks CTAP2, the request has a client
    -- data hash, a relying party and a user handle, and the reply to the command holds the attestation.
    pub make_credential-HoldsAttestation :
        (fuel : ℕ) (k : Key) (r : MakeCredentialRequest) (s s' : S) (a : Attestation)
        → (make_credential c t y fuel k r s ≡ (value a, s')) ↔ (
            (has k.caps cap_cbor ≡ true)
            × (r.client_data_hash ≢ [])
            × (r.rp.id ≢ [])
            × (r.user.id ≢ [])
            × ((body : Bytes) × (cbor_call t c fuel k cmd_make_credential (make_request y r) s
                  ≡ (value body, s'))
                × HoldsAttestation body a))
    unfolding make_credential ctap2_ready check_make
    make_credential-HoldsAttestation fuel k r s s' a = (
      (λ h.
          let (caps, g1, g2, g3, (body, found, parsed)) =
            make_credential-parse_attestation c t y fuel k r s s' a h in
          (caps, g1, g2, g3, (body, found, parse_attestation-HoldsAttestation body a parsed))),
      (λ (caps, g1, g2, g3, (body, found, holds)).
          rw
            (
              caps,
              is_empty-ne r.client_data_hash g1,
              is_empty-ne r.rp.id g2,
              is_empty-ne r.user.id g3,
            )
            (bind-value (cbor_call t c fuel k cmd_make_credential (make_request y r))
                (λ body. from (parse_attestation c body)) found
              ∙ ap (λ x. from x s') (parse_attestation-found body a holds))),
    )
