-- ===== src/ClientPin/Offer.antt =====
-- What `KeyAgreement` hands out.
use fido.Base.{ℕ, ◌≡◌, arith, true, inl, inr}
use fido.Base.Bits.{Bytes}
use fido.Base.Int.{ℤ}
use fido.Errors.{ok}
use fido.Init.{has, cap_cbor}
use fido.Transport.{Transport, M, value, ◌>>=◌, from}
use fido.Transport.Bind.{bind-eq-value, from-value}
use fido.Session.{Key}
use fido.Cbor.{Cbor, Coded-cases, find, end}
use fido.Ctap2.{ctap2_ready, cbor_call}
use fido.Ctap2.Exchange.{ctap2_ready-value}
use fido.Agreement.Points.{IsPoint, cose_to_ecdh-IsPoint}
use fido.Cose.Sound.{Option-cases}
use fido.ClientPin.{
  key_agreement, parse_agreement, request, cmd_client_pin, sub_get_key_agreement,
  cp_resp_key_agreement,
}

module _ (c : Cbor) where
  parse_agreement-IsPoint : (body p : Bytes) → parse_agreement c body ≡ ok p → IsPoint p
  unfolding parse_agreement
  parse_agreement-IsPoint body p h = elim (Coded-cases (c.to_map body)) [
    | inr (x, e) ↦ absurd (ground arith)
    | inl (raw, e) ↦ elim (Option-cases (find cp_resp_key_agreement raw)) [
      | inl none_there ↦ absurd (ground arith)
      | inr (m, found) ↦ cose_to_ecdh-IsPoint c m p (ground arith)
    ]
  ]

  pub key_agreement-value :
      {S : Type 0} (t : Transport S) (fuel : ℕ) (k : Key) (proto : ℤ) (s s' : S) (p : Bytes)
      → key_agreement c t fuel k proto s ≡ (value p, s')
      → (has k.caps cap_cbor ≡ true) × ((body : Bytes) × (parse_agreement c body ≡ ok p))
  unfolding key_agreement
  key_agreement-value {S} t fuel k proto s s' p h =
      let call : M S Bytes =
        cbor_call t c fuel k cmd_client_pin (request proto sub_get_key_agreement end) in
      let last : Bytes → M S Bytes = λ body. from (parse_agreement c body) in
      let (_, u, ready, rest) =
        bind-eq-value (ctap2_ready t k) (λ _. call >>= last) {s = s} {s' = s'} {b = p} h in
      let (body, v, _, read) = bind-eq-value call last {s = u} {s' = s'} {b = p} rest in
      (
        (ctap2_ready-value t k s u ready).0,
        (body, (from-value (parse_agreement c body) v s' read).0),
      )

  -- A key that `KeyAgreement` returns is an uncompressed point of P-256, and came from a key that
  -- speaks CTAP2.
  pub key_agreement-IsPoint :
      {S : Type 0} (t : Transport S) (fuel : ℕ) (k : Key) (proto : ℤ) (s s' : S) (p : Bytes)
      → key_agreement c t fuel k proto s ≡ (value p, s')
      → (has k.caps cap_cbor ≡ true) × IsPoint p
  key_agreement-IsPoint t fuel k proto s s' p h =
      let (caps, (body, read)) = key_agreement-value t fuel k proto s s' p h in
      (caps, parse_agreement-IsPoint body p read)
