-- ===== src/Credentials/Assertions.antt =====
-- credential.go, `GetAssertion`: which replies become an assertion.
use fido.Base.{
  ℕ, ◌≡◌, ◌≢◌, ◌↔◌, sym, ap, ◌∙◌, arith, true, not, is_empty, is_empty-ne, inl, inr, List, [],
}
use fido.Base.Bits.{Bytes}
use fido.Errors.{Text, Error, no_signature, bad_credential, bad_user, bad_count}
use fido.Errors.{ok, bind-eq-ok, authenticator_data, signature}
use fido.Init.{has, cap_cbor}
use fido.Transport.{Transport, value, from}
use fido.Transport.Bind.{bind-value}
use fido.Session.{Key}
use fido.Cose.Sound.{Option-cases}
use fido.Cbor.{Cbor, Coded, got, find, Coded-cases}
use fido.Ctap2.{member_field, ctap2_ready, cbor_call}
use fido.AuthData.{parse_auth_data}
use fido.PinProtocol.{Crypto}
use fido.Requests.{GetAssertionRequest, check_get}
use fido.Requests.{get_request, cmd_get_assertion}
use fido.Errors.{asserting}
use fido.Credentials.{read_auth_data}
use fido.Credentials.{Assertion, read_assertion, parse_assertion, decoded_or}
use fido.Credentials.{get_assertion}
use fido.Credentials.{require}
use fido.Credentials.Promise.{read_auth_data-ok, get_assertion-parse_assertion}
use fido.Info.Fields.{Field}
use fido.Credentials.Registrations.{read_auth_data-found}

decoded_or-Field :
    {A : Type 0} (decode : Bytes → Coded A) (absent : A) (fault : Text → Error)
    (raw : List (ℕ × Bytes)) (key : ℕ) (a : A)
    → Field decode absent raw key a
    → decoded_or decode absent fault (find key raw) ≡ ok a
unfolding decoded_or
decoded_or-Field decode absent fault raw key a (inl (e, same)) = ground arith
decoded_or-Field decode absent fault raw key a (inr (r, e, read)) = ground arith

Field-decoded_or :
    {A : Type 0} (decode : Bytes → Coded A) (absent : A) (fault : Text → Error)
    (raw : List (ℕ × Bytes)) (key : ℕ) (a : A)
    → decoded_or decode absent fault (find key raw) ≡ ok a
    → Field decode absent raw key a
unfolding decoded_or
Field-decoded_or decode absent fault raw key a h = elim (Option-cases (find key raw)) [
  | inl e ↦ inl (e, ground arith)
  | inr (r, e) ↦ inr (r, e, ground arith)
]

module _ (c : Cbor) where
  -- The reply holds the assertion: authenticator data that parses under 2, a signature under 3, and
  -- under 1, 4 and 5 a credential, a user and a count, each of which may be missing.
  abbrev pub HoldsAssertion : Bytes → Assertion → Type 0
  HoldsAssertion body a =
      (raw : List (ℕ × Bytes)) × (c.to_map body ≡ got raw)
      × (member_field c.to_bytes raw 0x02 authenticator_data ≡ ok a.auth_data)
      × (a.auth_data ≢ [])
      × (parse_auth_data c a.auth_data ≡ ok a.parsed)
      × (member_field c.to_bytes raw 0x03 signature ≡ ok a.signature)
      × (a.signature ≢ [])
      × Field c.to_credential ([], []) raw 0x01 (a.credential.kind, a.credential.id)
      × (a.credential.transports ≡ [])
      × Field c.to_user [] raw 0x04 a.user_id
      × Field c.to_uint 0 raw 0x05 a.available

  parse_assertion-found :
      (body : Bytes) (a : Assertion) → HoldsAssertion body a → parse_assertion c body ≡ ok a
  unfolding parse_assertion read_assertion
  parse_assertion-found body a (raw, e, d, ne, p, s, ne', f1, bare, f4, f5) =
      rw
        (
          e,
          parse_assertion,
          read_assertion,
          read_auth_data-found c asserting raw a.auth_data a.parsed d ne p,
          s,
          is_empty-ne a.signature ne',
          decoded_or-Field c.to_credential ([], []) bad_credential raw 0x01 _ f1,
          decoded_or-Field c.to_user [] bad_user raw 0x04 a.user_id f4,
          decoded_or-Field c.to_uint 0 bad_count raw 0x05 a.available f5,
        )
        (ap (λ l. ok (record a { credential = record a.credential { transports = l } })) (sym bare))

  parse_assertion-HoldsAssertion :
      (body : Bytes) (a : Assertion) → parse_assertion c body ≡ ok a → HoldsAssertion body a
  unfolding parse_assertion read_assertion
  parse_assertion-HoldsAssertion body a h = elim (Coded-cases (c.to_map body)) [
    | inr (x, e) ↦ absurd (ground arith)
    | inl (raw, e) ↦
        let read : read_assertion c raw ≡ ok a = ground arith in
        let (x, e1, h1) =
          bind-eq-ok (read_auth_data c asserting raw) _ (unfold read_assertion in read) in
        let (sig, e2, h2) = bind-eq-ok (member_field c.to_bytes raw 0x03 signature) _ h1 in
        let (_, e3, h3) = bind-eq-ok (require (not (is_empty sig)) no_signature) _ h2 in
        let (d, e4, h4) =
          bind-eq-ok (decoded_or c.to_credential ([], []) bad_credential (find 0x01 raw)) _ h3 in
        let (u, e5, h5) = bind-eq-ok (decoded_or c.to_user [] bad_user (find 0x04 raw)) _ h4 in
        let (n, e6, h6) = bind-eq-ok (decoded_or c.to_uint 0 bad_count (find 0x05 raw)) _ h5 in
        let (ne, found, parsed) = read_auth_data-ok c asserting raw x.0 x.1 e1 in
        let same : x.0 ≡ a.auth_data = ground arith in
        let sig_same : sig ≡ a.signature = ground arith in
        let who : d ≡ (a.credential.kind, a.credential.id) = ground arith in
        let user_same : u ≡ a.user_id = ground arith in
        let count_same : n ≡ a.available = ground arith in
        (
          raw,
          e,
          ground arith,
          (λ none. ne (same ∙ none)),
          ground arith,
          ground arith,
          (λ none. ground arith),
          Field-decoded_or c.to_credential ([], []) bad_credential raw 0x01 _ (e4 ∙ ap ok who),
          ground arith,
          Field-decoded_or c.to_user [] bad_user raw 0x04 a.user_id (e5 ∙ ap ok user_same),
          Field-decoded_or c.to_uint 0 bad_count raw 0x05 a.available (e6 ∙ ap ok count_same),
        )
  ]

  module _ {S : Type 0} (t : Transport S) (y : Crypto) where
    -- `GetAssertion` returns an assertion exactly if the key speaks CTAP2, the request has a relying
    -- party and a client data hash, and the reply to the command holds the assertion.
    pub get_assertion-HoldsAssertion :
        (fuel : ℕ) (k : Key) (r : GetAssertionRequest) (s s' : S) (a : Assertion)
        → (get_assertion c t y fuel k r s ≡ (value a, s')) ↔ (
            (has k.caps cap_cbor ≡ true)
            × (r.rp_id ≢ [])
            × (r.client_data_hash ≢ [])
            × ((body : Bytes) × (cbor_call t c fuel k cmd_get_assertion (get_request y r) s
                  ≡ (value body, s'))
                × HoldsAssertion body a))
    unfolding get_assertion ctap2_ready check_get
    get_assertion-HoldsAssertion fuel k r s s' a = (
      (λ h.
          let (caps, g1, g2, (body, found, parsed)) =
            get_assertion-parse_assertion c t y fuel k r s s' a h in
          (caps, g1, g2, (body, found, parse_assertion-HoldsAssertion body a parsed))),
      (λ (caps, g1, g2, (body, found, holds)).
          rw (caps, is_empty-ne r.rp_id g1, is_empty-ne r.client_data_hash g2)
            (bind-value (cbor_call t c fuel k cmd_get_assertion (get_request y r))
                (λ body. from (parse_assertion c body)) found
              ∙ ap (λ x. from x s') (parse_assertion-found body a holds))),
    )
