-- ===== src/ClientPin/Tokens.antt =====
-- `PINToken`: the size of a token, and how the PIN is used.
use fido.Base.{ℕ, ◌≡◌, ◌≢◌, sym, ap, ◌∙◌, arith, ◌⊎◌, inl, inr}
use fido.Base.{[], length, take, is_empty-ne}
use fido.Base.Bits.{Bytes}
use fido.Base.Int.{ℤ, int_eq→eq}
use fido.Errors.{Text, Result-cases, ok, token}
use fido.Cbor.{Cbor, Coded-cases}
use fido.Ctap2.{member_field}
use fido.Transport.{Transport, Random, value}
use fido.Session.{Key}
use fido.PinProtocol.{Crypto, PinKeys, pin_protocol_one, pin_hash}
use fido.ClientPin.Steps.{exchange_with, exchange_pin_lem, pin_token-Exchange}
use fido.ClientPin.{Token, checked_token, decrypt_token, parse_token, exchange_pin}
use fido.ClientPin.{cp_resp_token, pin_token}

-- The size of a token: 32 bytes, or 16 under protocol one.
abbrev pub TokenSize : ℤ → ℕ → Type 0
TokenSize proto n = (n ≡ 32) ⊎ ((n ≡ 16) × (proto ≡ pin_protocol_one))

checked_token-ok :
    (keys : PinKeys) (proto : ℤ) (tok : Bytes) (t : Token)
    → checked_token keys proto tok ≡ ok t
    → TokenSize proto (length t.raw) × (t.keys ≡ keys)
unfolding checked_token
checked_token-ok keys proto tok t h = ground (arith, int_eq→eq proto pin_protocol_one)

module _ (c : Cbor) where
  -- What `PINToken` makes of the reply, if it takes it.
  pub parse_token-ok :
      (y : Crypto) (keys : PinKeys) (proto : ℤ) (body : Bytes) (t : Token)
      → parse_token c y keys proto body ≡ ok t
      → TokenSize proto (length t.raw) × (t.keys ≡ keys)
  unfolding parse_token
  parse_token-ok y keys proto body t h = elim (Coded-cases (c.to_map body)) [
    | inr (x, e) ↦ absurd (ground arith)
    | inl (raw, e) ↦ elim (Result-cases (member_field c.to_bytes raw cp_resp_token token)) [
      | inr (x, e2) ↦ absurd (ground arith)
      | inl (enc, e2) ↦ elim (Result-cases (decrypt_token c y keys enc)) [
        | inr (x, e3) ↦ absurd (ground arith)
        | inl (tok, e3) ↦ checked_token-ok keys proto tok t (ground arith)
      ]
    ]
  ]

  module _ {S : Type 0} (t : Transport S) (y : Crypto) (r : Random S) where
    -- A token that `PINToken` returns has the size of its protocol.
    pub pin_token-TokenSize :
        (fuel perms : ℕ) (k : Key) (pin rp_id : Text) (proto : ℤ) (s s' : S) (tok : Token)
        → pin_token c t y r fuel k pin proto perms rp_id s ≡ (value tok, s')
        → (pin ≢ []) × TokenSize proto (length tok.raw)
    pin_token-TokenSize fuel perms k pin rp_id proto s s' tok h =
        let (ne, e) = pin_token-Exchange c t y r fuel perms k rp_id proto pin s s' tok h in
        (ne, (parse_token-ok y e.keys proto e.body tok e.reading).0)

    pin_hash_digest :
        (keys : PinKeys) (pin pin' : Text)
        → pin ≢ []
        → pin' ≢ []
        → take 16 (y.sha256 pin) ≡ take 16 (y.sha256 pin')
        → pin_hash y r keys pin ≡ pin_hash y r keys pin'
    unfolding pin_hash
    pin_hash_digest keys pin pin' h h' e = rw (is_empty-ne pin h, is_empty-ne pin' h', e)

    exchange_pin_digest :
        (fuel perms : ℕ) (k : Key) (pin pin' rp_id : Text) (proto : ℤ)
        → pin ≢ []
        → pin' ≢ []
        → take 16 (y.sha256 pin) ≡ take 16 (y.sha256 pin')
        → exchange_pin c t y r fuel k pin proto perms rp_id
          ≡ exchange_pin c t y r fuel k pin' proto perms rp_id
    exchange_pin_digest fuel perms k pin pin' rp_id proto h h' e =
        exchange_pin_lem c t y r fuel perms k rp_id proto pin
        ∙ ap (exchange_with c t y r fuel perms k rp_id proto)
            (λ i keys. pin_hash_digest keys pin pin' h h' e i)
        ∙ sym (exchange_pin_lem c t y r fuel perms k rp_id proto pin')

    -- What `PINToken` does depends on the PIN through the first sixteen bytes of its digest alone: two
    -- PINs that agree in these have the same outcome, whatever the authenticator answers.
    pub pin_token_digest :
        (fuel perms : ℕ) (k : Key) (pin pin' rp_id : Text) (proto : ℤ) (s : S)
        → pin ≢ []
        → pin' ≢ []
        → take 16 (y.sha256 pin) ≡ take 16 (y.sha256 pin')
        → pin_token c t y r fuel k pin proto perms rp_id s
          ≡ pin_token c t y r fuel k pin' proto perms rp_id s
    unfolding pin_token
    pin_token_digest fuel perms k pin pin' rp_id proto s h h' e =
        let d = exchange_pin_digest fuel perms k pin pin' rp_id proto h h' e in
        let one = is_empty-ne pin h in let two = is_empty-ne pin' h' in rw (one, two, d)
