-- ===== src/ClientPin/Agreed.antt =====
-- Both sides of `PINToken`: with an authenticator that keeps to the protocol they end with one token.
use fido.Base.{ℕ, ◌≡◌, ◌≢◌, sym, ap, ◌∙◌, subst, arith, inl, inr}
use fido.Base.{List, [], take, All, All-take, is_empty-ne}
use fido.Base.Bits.{Bytes, IsByte}
use fido.Base.Int.{ℤ}
use fido.Errors.{Text, Result-cases, ok, token}
use fido.Cbor.{Cbor, Coded-cases, Value, got}
use fido.Ctap2.{member_field, cbor_call}
use fido.Transport.{Transport, Random, value}
use fido.Transport.Bind.{from-value}
use fido.Session.{Key}
use fido.PinProtocol.{Crypto, PinKeys, pin_hash, encrypt, decrypt, derive_keys}
use fido.PinProtocol.Chaining.{IsCipher}
use fido.PinProtocol.RoundTrip.{FillsIv, Filled-cases, decrypt-encrypt}
use fido.Agreement.{agree, exchange, ecdh_to_cose}
use fido.Agreement.Keys.{Agrees, exchange_keys}
use fido.ClientPin.{Token, checked_token, decrypt_token, parse_token, key_agreement, pin_token}
use fido.ClientPin.{cp_resp_token, token_request, cmd_client_pin}
use fido.ClientPin.Steps.{pin_token-Exchange}

module _ (c : Cbor) (y : Crypto) where
  -- The token of a reply is what the keys of the exchange make of its member.
  parse_token-opened :
      (keys : PinKeys) (proto : ℤ) (body : Bytes) (tok : Token)
      → parse_token c y keys proto body ≡ ok tok
      → (raw : _) × (enc : Bytes) × (c.to_map body ≡ got raw)
        × (member_field c.to_bytes raw cp_resp_token token ≡ ok enc)
        × (decrypt y keys enc ≡ ok tok.raw)
        × (tok.keys ≡ keys)
  unfolding parse_token decrypt_token checked_token
  parse_token-opened keys proto body tok h = elim (Coded-cases (c.to_map body)) [
    | inr (x, e) ↦ absurd (ground arith)
    | inl (raw, e) ↦ elim (Result-cases (member_field c.to_bytes raw cp_resp_token token)) [
      | inr (x, e2) ↦ absurd (ground arith)
      | inl (enc, e2) ↦ elim (Result-cases (decrypt y keys enc)) [
        | inr (x, e3) ↦ absurd (ground arith)
        | inl (b, e3) ↦ (raw, enc, e, e2, ground arith, ground arith)
      ]
    ]
  ]

module _ (y : Crypto) where
  agree-exchange :
      {S : Type 0} (r : Random S) (proto : ℤ) (point : Bytes) (own : Value) (keys : PinKeys)
      (s s' : S)
      → agree y r proto point s ≡ (value (own, keys), s')
      → (a : Bytes) × (exchange y proto point a ≡ ok (own, keys))
  unfolding agree
  agree-exchange r proto point own keys s s' h = elim (Filled-cases (r.private_key s)) [
    | inl (a, u, e) ↦
        (a, (from-value (exchange y proto point a) (r.private_key s).1 s' (rw (e, agree) at h)).0)
    | inr (x, u, e) ↦ absurd (ground arith)
  ]

  pub pin_hash-encrypt :
      {S : Type 0} (r : Random S) (keys : PinKeys) (pin : Text)
      → pin ≢ []
      → pin_hash y r keys pin ≡ encrypt y r keys (take 16 (y.sha256 pin))
  unfolding pin_hash
  pin_hash-encrypt r keys pin ne = rw (is_empty-ne pin ne)

module _ (c : Cbor) {S W : Type 0} (t : Transport S) (y : Crypto) (r : Random S) (ra : Random W)
    (fuel perms : ℕ) (k : Key) (rp_id : Text) (proto : ℤ) where
  -- An authenticator that keeps to the protocol, with its private key and the token that it issues. It
  -- offers the point of its key; and to the request for a token it replies with that token, encrypted
  -- under the keys that it derives from the platform's point in the request.
  pub record Honest (b issued : Bytes) : Type 0 where
    pub offers :
        (s s' : S) (point : Bytes)
        → key_agreement c t fuel k proto s ≡ (value point, s')
        → point ≡ y.public_point b
    pub issues :
        (a secret enc body reply : Bytes) (own : Value) (keys : PinKeys) (raw : List (ℕ × Bytes))
        (s s' : S)
        → ecdh_to_cose (y.public_point a) ≡ ok own
        → y.ecdh b (y.public_point a) ≡ got secret
        → derive_keys y proto secret ≡ ok keys
        → cbor_call t c fuel k cmd_client_pin (token_request proto own enc perms rp_id) s
          ≡ (value body, s')
        → c.to_map body ≡ got raw
        → member_field c.to_bytes raw cp_resp_token token ≡ ok reply
        → (w w' : W) × (encrypt y ra keys issued w ≡ (value reply, w'))

  -- What the authenticator has at the end: the platform's point, from which it derives the platform's
  -- keys, and a request from which it recovers the first half of the PIN's digest.
  abbrev pub Shared : Bytes → Text → S → PinKeys → Type 0
  Shared b pin s' keys =
      (a secret enc body : Bytes) × (own : Value) × (u : S) × (ecdh_to_cose (y.public_point a)
        ≡ ok own)
      × (y.ecdh b (y.public_point a) ≡ got secret)
      × (derive_keys y proto secret ≡ ok keys)
      × (cbor_call t c fuel k cmd_client_pin (token_request proto own enc perms rp_id) u
          ≡ (value body, s'))
      × (decrypt y keys enc ≡ ok (take 16 (y.sha256 pin)))

  -- A token that `PINToken` returns over an authenticator that keeps to the protocol is the token that
  -- the authenticator issued. Both sides hold the same keys, and under them the authenticator opens the
  -- first sixteen bytes of the PIN's digest from the request. Both sides of ECDH are assumed to agree,
  -- the block cipher to be reversible, and initialisation vectors to have sixteen bytes.
  pub pin_token-Shared :
      (b issued : Bytes) (pin : Text) (s s' : S) (tok : Token)
      → Agrees y
      → IsCipher y
      → FillsIv r
      → FillsIv ra
      → All IsByte issued
      → All IsByte (y.sha256 pin)
      → Honest b issued
      → pin_token c t y r fuel k pin proto perms rp_id s ≡ (value tok, s')
      → (tok.raw ≡ issued) × Shared b pin s' tok.keys
  pin_token-Shared b issued pin s s' tok agrees cipher fills fills_a hi hd honest h =
      let (ne, e) = pin_token-Exchange c t y r fuel perms k rp_id proto pin s s' tok h in
      let (a, exchanged) =
        agree-exchange y r proto e.point e.own e.keys e.offered e.agreed e.agreement in
      let point = honest.offers e.start e.offered e.point e.offer in
      let (sent, (secret, theirs, derived)) =
        exchange_keys y agrees proto a b e.own e.keys
          (subst (λ p. exchange y proto p a ≡ ok (e.own, e.keys)) point exchanged) in
      let hidden : encrypt y r e.keys (take 16 (y.sha256 pin)) e.agreed ≡ (value e.enc, e.hidden) =
        sym (ap (λ f. f e.agreed) (pin_hash-encrypt y r e.keys pin ne)) ∙ e.hiding in
      let (recovered, _) =
        decrypt-encrypt y cipher e.keys r (take 16 (y.sha256 pin)) e.enc e.agreed e.hidden fills
          (All-take IsByte 16 (y.sha256 pin) hd) hidden in
      let (raw, reply, decoded, found, mine, same) =
        parse_token-opened c y e.keys proto e.body tok e.reading in
      let (w, w', made) =
        honest.issues a secret e.enc e.body reply e.own e.keys raw e.hidden s' sent theirs derived
          e.answer decoded found in
      let (opened, _) = decrypt-encrypt y cipher e.keys ra issued reply w w' fills_a hi made in
      (
        ground arith,
        subst (Shared b pin s') (sym same)
            (a, secret, e.enc, e.body, e.own, e.hidden, sent, theirs, derived, e.answer, recovered),
      )
