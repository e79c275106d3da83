-- ===== src/Lifetime/Tokens.antt =====
-- What `PINToken` touches: besides the transport the sources of randomness, once the key has answered.
use fido.Base.{ℕ, ◌≡◌, true, inl, inr, if◌then◌else◌, arith}
use fido.Base.{is_empty}
use fido.Base.Bits.{Bytes}
use fido.Base.Int.{ℤ}
use fido.Errors.{Text, empty_pin}
use fido.Transport.{Transport, Random, M, value, ◌>>=◌, from, raise}
use fido.Transport.Bind.{bind-eq-value}
use fido.ClientPin.Steps.{offer_step}
use fido.Transport.Keeps.{
  keeps_rules, Keeps-raise, Keeps, Keeps-bind, Keeps-then, Keeps-from, Keeps-if,
}
use fido.Session.{Key}
use fido.Cbor.{Cbor, end}
use fido.Ctap2.{ctap2_ready, cbor_call}
use fido.PinProtocol.{Crypto, PinKeys, pin_hash, encrypt, make_iv}
use fido.PinProtocol.RoundTrip.{Filled-cases}
use fido.Agreement.{agree, exchange}
use fido.ClientPin.{Token, key_agreement, exchange_pin, pin_token, parse_agreement}
use fido.ClientPin.{cmd_client_pin, request, sub_get_key_agreement}
use fido.Lifetime.Touch.{
  cbor_call-attached, Keeps-ctap2_ready, Keeps-cbor_call, Keeps-key_agreement,
}

module _ {S : Type 0} (y : Crypto) (r : Random S) (P : S → Type 0)
    (fills : (s : S) → P s → P (r.iv s).1) (generates : (s : S) → P s → P (r.private_key s).1) where
  Keeps-make_iv : (keys : PinKeys) → Keeps P (make_iv y r keys)
  unfolding make_iv
  Keeps-make_iv keys = record { at = λ s p. ground (arith, fills s p) }

  Keeps-pin_hash : (keys : PinKeys) (pin : Text) → Keeps P (pin_hash y r keys pin)
  unfolding pin_hash encrypt
  Keeps-pin_hash keys pin = search (keeps_rules, Keeps-make_iv)

  Keeps-agree : (proto : ℤ) (authenticator : Bytes) → Keeps P (agree y r proto authenticator)
  unfolding agree
  Keeps-agree proto authenticator = record {
    at = λ s p.
        let made = generates s p in
        elim (Filled-cases (r.private_key s)) [
          | inl (key, u, e) ↦
              rw (e, agree)
                ((Keeps-from {P = P} (exchange y proto authenticator key)).at (r.private_key s).1
                  made)
          | inr (cause, u, e) ↦ rw (e, agree) made
        ];
  }

module _ {S : Type 0} (t : Transport S) (c : Cbor) (k : Key) where
  key_agreement-attached :
      (fuel : ℕ) (proto : ℤ) (point : Bytes) (s s' : S)
      → key_agreement c t fuel k proto s ≡ (value point, s')
      → k.attached ≡ true
  unfolding key_agreement
  key_agreement-attached fuel proto point s s' h =
      let call : M S Bytes =
        cbor_call t c fuel k cmd_client_pin (request proto sub_get_key_agreement end) in
      let (_, u, _, rest) =
        bind-eq-value (ctap2_ready t k) (λ _. call >>= λ body. from (parse_agreement c body))
          {s = s} {s' = s'} {b = point} h in
      let (body, v, e, _) =
        bind-eq-value call (λ body. from (parse_agreement c body)) {s = u} {s' = s'} {b = point}
          rest in
      cbor_call-attached t c k fuel cmd_client_pin (request proto sub_get_key_agreement end) body u
        v e

  module _ (y : Crypto) (r : Random S) (P : S → Type 0)
      (sends : k.attached ≡ true → (p : Bytes) (s : S) → P s → P (t.send p s).1)
      (receives : k.attached ≡ true → (s : S) → P s → P (t.receive s).1)
      (fills : k.attached ≡ true → (s : S) → P s → P (r.iv s).1)
      (generates : k.attached ≡ true → (s : S) → P s → P (r.private_key s).1) where
    -- Behind an offer the key is open.
    Keeps-offered :
        (fuel : ℕ) (pin : Text) (proto : ℤ) (perms : ℕ) (rp_id : Text) (point : Bytes)
        → k.attached ≡ true
        → Keeps P
            (offer_step c t y r fuel perms k rp_id proto (λ keys. pin_hash y r keys pin) point)
    Keeps-offered fuel pin proto perms rp_id point on = search (
      keeps_rules,
      Keeps-cbor_call t c k P sends receives,
      Keeps-agree y r P (fills on) (generates on),
      Keeps-pin_hash y r P (fills on) (generates on),
    )

    Keeps-exchange_pin :
        (fuel : ℕ) (pin : Text) (proto : ℤ) (perms : ℕ) (rp_id : Text)
        → Keeps P (exchange_pin c t y r fuel k pin proto perms rp_id)
    unfolding exchange_pin
    Keeps-exchange_pin fuel pin proto perms rp_id =
        Keeps-bind (key_agreement c t fuel k proto)
          (offer_step c t y r fuel perms k rp_id proto (λ keys. pin_hash y r keys pin))
          (Keeps-key_agreement t c k P sends receives fuel proto)
          (λ s u point e.
            (Keeps-offered fuel pin proto perms rp_id point
                (key_agreement-attached fuel proto point s u e)).at
              u)

    pub Keeps-pin_token :
        (fuel : ℕ) (pin : Text) (proto : ℤ) (perms : ℕ) (rp_id : Text)
        → Keeps P (pin_token c t y r fuel k pin proto perms rp_id)
    unfolding pin_token
    Keeps-pin_token fuel pin proto perms rp_id =
        let asked : M S Token = exchange_pin c t y r fuel k pin proto perms rp_id in
        Keeps-then (ctap2_ready t k) (λ _. if is_empty pin then raise empty_pin else asked)
          (Keeps-ctap2_ready t c k P sends receives)
          (λ _.
            Keeps-if (is_empty pin) (raise empty_pin) asked (Keeps-raise empty_pin)
              (Keeps-exchange_pin fuel pin proto perms rp_id))
