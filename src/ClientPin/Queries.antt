-- ===== src/ClientPin/Queries.antt =====
-- `PINRetries` and `KeyAgreement`: which replies come to a value, and to which.
use fido.Base.{ℕ, ◌≡◌, ◌↔◌, arith, true, false, Bool, some, inl, inr, List}
use fido.Base.Bits.{Bytes}
use fido.Base.Int.{ℤ}
use fido.Errors.{ok}
use fido.Transport.{Transport, M, value}
use fido.Session.{Key}
use fido.Cbor.{Cbor, got, Coded-cases, find, end}
use fido.Ctap2.{member_field, cbor_call}
use fido.Ctap2.Asked.{ask-IsAsked}
use fido.Init.{has, cap_cbor}
use fido.Info.Fields.{Field}
use fido.Cose.Sound.{Option-cases}
use fido.Agreement.{cose_to_ecdh}
use fido.Agreement.Offers.{HoldsPoint, cose_to_ecdh-HoldsPoint}
use fido.ClientPin.{Retries, read_power_cycle, parse_retries, parse_agreement, pin_retries}
use fido.ClientPin.{key_agreement, request, cmd_client_pin, pin_protocol_one}
use fido.ClientPin.{sub_get_pin_retries, sub_get_key_agreement}

module _ (c : Cbor) where
  -- A reply that holds a retry counter: the count under 3, and under 4 whether a power cycle is
  -- needed, which it is not if there is no such member.
  abbrev pub HoldsRetries : Bytes → Retries → Type 0
  HoldsRetries body r =
      (raw : List (ℕ × Bytes)) × (m : Bytes) × (c.to_map body ≡ got raw)
      × (find 0x03 raw ≡ some m)
      × (c.to_int m ≡ got r.pin)
      × Field c.to_bool false raw 0x04 r.power_cycle

  -- A reply that holds an agreement key: under 1, a COSE map with the point.
  abbrev pub HoldsOffer : Bytes → Bytes → Type 0
  HoldsOffer body p =
      (raw : List (ℕ × Bytes)) × (m : Bytes) × (c.to_map body ≡ got raw)
      × (find 0x01 raw ≡ some m)
      × HoldsPoint c m p

  read_power_cycle-Field :
      (raw : List (ℕ × Bytes)) (b : Bool)
      → (read_power_cycle c raw ≡ ok b) ↔ Field c.to_bool false raw 0x04 b
  unfolding read_power_cycle
  read_power_cycle-Field raw b = (only, enough)
    where
      only : read_power_cycle c raw ≡ ok b → Field c.to_bool false raw 0x04 b
      only h = elim (Option-cases (find 0x04 raw)) [
        | inl e ↦ inl (e, ground arith)
        | inr (m, e) ↦ inr (m, e, ground arith)
      ]

      enough : Field c.to_bool false raw 0x04 b → read_power_cycle c raw ≡ ok b
      enough (inl (e, same)) = ground arith
      enough (inr (m, e, read)) = ground arith

  parse_retries-HoldsRetries :
      (body : Bytes) (r : Retries) → (parse_retries c body ≡ ok r) ↔ HoldsRetries body r
  unfolding parse_retries member_field
  parse_retries-HoldsRetries body r = (only, enough)
    where
      only : parse_retries c body ≡ ok r → HoldsRetries body r
      only h = elim (Coded-cases (c.to_map body)) [
        | inr (x, e) ↦ absurd (ground arith)
        | inl (raw, e) ↦ elim (Option-cases (find 0x03 raw)) [
          | inl missing ↦ absurd (ground arith)
          | inr (m, there) ↦
              let read : c.to_int m ≡ got r.pin = ground arith in
              let cycle : read_power_cycle c raw ≡ ok r.power_cycle = ground arith in
              (raw, m, e, there, read, (read_power_cycle-Field raw r.power_cycle).0 cycle)
        ]
      ]

      enough : HoldsRetries body r → parse_retries c body ≡ ok r
      enough (raw, m, e, there, read, cycle) =
          let cycle' = (read_power_cycle-Field raw r.power_cycle).1 cycle in ground arith

  pub parse_agreement-HoldsOffer :
      (body p : Bytes) → (parse_agreement c body ≡ ok p) ↔ HoldsOffer body p
  unfolding parse_agreement
  parse_agreement-HoldsOffer body p = (only, enough)
    where
      only : parse_agreement c body ≡ ok p → HoldsOffer body p
      only h = elim (Coded-cases (c.to_map body)) [
        | inr (x, e) ↦ absurd (ground arith)
        | inl (raw, e) ↦ elim (Option-cases (find 0x01 raw)) [
          | inl missing ↦ absurd (ground arith)
          | inr (m, there) ↦
              let read : cose_to_ecdh c m ≡ ok p = ground arith in
              (raw, m, e, there, (cose_to_ecdh-HoldsPoint c m p).0 read)
        ]
      ]

      enough : HoldsOffer body p → parse_agreement c body ≡ ok p
      enough (raw, m, e, there, point) =
          let read = (cose_to_ecdh-HoldsPoint c m p).1 point in ground arith

  module _ {S : Type 0} (t : Transport S) (fuel : ℕ) (k : Key) where
    -- `PINRetries` returns a retry counter exactly if the key speaks CTAP2 and the reply to its
    -- command holds that counter.
    pub pin_retries-HoldsRetries :
        (s s' : S) (r : Retries)
        → (pin_retries c t fuel k s ≡ (value r, s'))
          ↔ (has k.caps cap_cbor ≡ true)
            × ((body : Bytes) × (cbor_call t c fuel k cmd_client_pin
                    (request pin_protocol_one sub_get_pin_retries end)
                    s
                  ≡ (value body, s'))
                × HoldsRetries body r)
    unfolding pin_retries
    pin_retries-HoldsRetries s s' r =
        let call : M S Bytes =
          cbor_call t c fuel k cmd_client_pin (request pin_protocol_one sub_get_pin_retries end) in
        let asked = ask-IsAsked t k call (parse_retries c) s s' r in
        (
          (λ h.
              let (on, (body, found, read)) = asked.0 h in
              (on, (body, found, (parse_retries-HoldsRetries body r).0 read))),
          (λ (on, (body, found, holds)).
              asked.1 (on, (body, found, (parse_retries-HoldsRetries body r).1 holds))),
        )

    -- `KeyAgreement` returns a key exactly if the key speaks CTAP2 and the reply to its command holds
    -- a COSE map with two coordinates of 32 bytes that are those of a point of P-256; and it is that
    -- point, uncompressed.
    pub key_agreement-HoldsOffer :
        (proto : ℤ) (s s' : S) (p : Bytes)
        → (key_agreement c t fuel k proto s ≡ (value p, s'))
          ↔ (has k.caps cap_cbor ≡ true)
            × ((body : Bytes) × (cbor_call t c fuel k cmd_client_pin
                    (request proto sub_get_key_agreement end)
                    s
                  ≡ (value body, s'))
                × HoldsOffer body p)
    unfolding key_agreement
    key_agreement-HoldsOffer proto s s' p =
        let call : M S Bytes =
          cbor_call t c fuel k cmd_client_pin (request proto sub_get_key_agreement end) in
        let asked = ask-IsAsked t k call (parse_agreement c) s s' p in
        (
          (λ h.
              let (on, (body, found, read)) = asked.0 h in
              (on, (body, found, (parse_agreement-HoldsOffer body p).0 read))),
          (λ (on, (body, found, holds)).
              asked.1 (on, (body, found, (parse_agreement-HoldsOffer body p).1 holds))),
        )
