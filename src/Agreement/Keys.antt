-- ===== src/Agreement/Keys.antt =====
-- `ecdhToCOSE` keeps every byte of the coordinates, `coseToECDH` accepts points of the curve only, and
-- the two sides of an exchange come to the same keys.
use fido.Base.{ℕ, suc, ◌+◌, ◌*◌, ◌/◌, ◌%◌, ◌≡◌, refl, sym, ◌∙◌, arith}
use fido.Base.{◌⊎◌, inl, inr, Bool-cases, ◌==◌, ◌&&◌}
use fido.Base.{[], ◌∷◌, ◌++◌, length, take, drop, All, append_assoc, append-nil, get_or}
use fido.Base.{length-take, length-drop, All-take, All-drop}
use fido.Base.Bits.{Bytes, IsByte}
use fido.Base.Int.{ℤ, pos, negsuc}
use fido.Errors.{ok, err, bad_platform_key, will_not_agree, bind-eq-ok, ◌>>=◌}
use fido.Cbor.{Coded-cases, Value, num, bytes, labels, entry, end, got, bad}
use fido.Cose.{number}
use fido.PinProtocol.{Crypto, PinKeys, derive_keys}
use fido.Agreement.{fill_bytes, cose_labels, ecdh_to_cose, exchange}

fill_bytes-number_onto :
    (bs : Bytes) (k m n : ℕ)
    → k ≡ length bs + m
    → All IsByte bs
    → fill_bytes k (number n bs) ≡ fill_bytes m n ++ bs
unfolding number
fill_bytes-number_onto [] k m n e h =
    let same : k ≡ m = omega arith in rw same (sym (append-nil (fill_bytes m n)))
fill_bytes-number_onto (b ∷ bs) k m n e h =
    let high : (n * 256 + b) / 256 ≡ n = omega arith in
    let low : (n * 256 + b) % 256 ≡ b = omega arith in
    fill_bytes-number_onto bs k (suc m) (n * 256 + b) (omega arith) h.1
    ∙ unfold fill_bytes in (rw (high, low) (append_assoc (fill_bytes m n) (b ∷ []) bs))

-- Writing a number into as many bytes as it was read from gives these bytes back.
pub fill_bytes-number :
    (bs : Bytes) (k : ℕ) → k ≡ length bs → All IsByte bs → fill_bytes k (number 0 bs) ≡ bs
fill_bytes-number bs k e h =
    fill_bytes-number_onto bs k 0 0 (omega arith) h ∙ unfold fill_bytes in refl

-- The COSE key of a point of P-256 to agree with: of type EC2 (2), for ECDH-ES+HKDF-256 (-25), on
-- curve 1, with its two coordinates.
abbrev pub p256_key : Bytes → Bytes → Value
p256_key x y = labels (
    entry (pos 1) (num (pos 2)) (
      entry (pos 3) (num (negsuc 24)) (
        entry (negsuc 0) (num (pos 1))
          (entry (negsuc 1) (bytes x) (entry (negsuc 2) (bytes y) end)))))

-- A public key of 65 bytes that begin with 4 is sent as a COSE key with its two coordinates, byte for
-- byte, leading zeros included; any other, of another length or another first byte, is refused.
pub ecdh_to_cose_lem :
    (b : Bytes)
    → All IsByte b
    → ((length b ≡ 65)
        × (get_or b 0 0 ≡ 4)
        × (ecdh_to_cose b ≡ ok (p256_key (take 32 (drop 1 b)) (drop 33 b))))
      ⊎ ((¬ ((length b ≡ 65) × (get_or b 0 0 ≡ 4)))
          × (ecdh_to_cose b ≡ err (bad_platform_key (length b))))
unfolding ecdh_to_cose cose_labels
ecdh_to_cose_lem b h = elim (Bool-cases ((length b == 65) && (get_or b 0 0 == 4))) [
  | inl good ↦
      let size : length b ≡ 65 = ground arith in
      let left : fill_bytes 32 (number 0 (take 32 (drop 1 b))) ≡ take 32 (drop 1 b) =
        fill_bytes-number (take 32 (drop 1 b)) 32
          (omega (arith, length-take 32 (drop 1 b), length-drop 1 b))
          (All-take IsByte 32 (drop 1 b) (All-drop IsByte 1 b h)) in
      let right : fill_bytes 32 (number 0 (drop 33 b)) ≡ drop 33 b =
        fill_bytes-number (drop 33 b) 32 (omega (arith, length-drop 33 b))
          (All-drop IsByte 33 b h) in
      inl (size, ground arith, rw (good, left, right))
  | inr wrong ↦ inr ((λ both. ground (arith, both.0, both.1)), rw wrong)
]

-- What ECDH promises: both sides agree on the secret.
abbrev pub Agrees : Crypto → Type 0
Agrees y =
    (a b secret : Bytes)
    → y.ecdh a (y.public_point b) ≡ got secret
    → y.ecdh b (y.public_point a) ≡ got secret

-- The keys that the platform derives from an exchange with an authenticator are those that the
-- authenticator derives from the platform's public key.
pub exchange_keys :
    (y : Crypto)
    → Agrees y
    → (proto : ℤ) (a b : Bytes) (own : Value) (keys : PinKeys)
    → exchange y proto (y.public_point b) a ≡ ok (own, keys)
    → (ecdh_to_cose (y.public_point a) ≡ ok own)
      × ((secret : Bytes) × (y.ecdh b (y.public_point a) ≡ got secret)
          × (derive_keys y proto secret ≡ ok keys))
unfolding exchange
exchange_keys y agrees proto a b own keys h =
    let (own', sent, rest) =
      bind-eq-ok (ecdh_to_cose (y.public_point a))
        (λ v. elim (y.ecdh a (y.public_point b)) [
          | bad cause ↦ err (will_not_agree cause)
          | got secret ↦ (derive_keys y proto secret >>= λ ks. ok (v, ks))
        ])
        h in
    elim (Coded-cases (y.ecdh a (y.public_point b))) [
      | inl (secret, e) ↦
          let (ks, derived, last) =
            bind-eq-ok (derive_keys y proto secret) (λ ks. ok (own', ks)) (rw e at rest) in
          let whole : own' ≡ own = ground arith in
          let same : ks ≡ keys = ground arith in
          (rw whole at sent, (secret, agrees a b secret e, rw same at derived))
      | inr (x, e) ↦ absurd (ground arith)
    ]
