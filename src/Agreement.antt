-- ===== src/Agreement.antt =====
-- clientpin.go and pinproto.go: `coseToECDH`, `ecdhToCOSE` and `agree`.
pub mod Keys
pub mod Points
pub mod Offers
use fido.Base.{ℕ, zero, suc, ◌+◌, ◌*◌, ◌/◌, ◌%◌, ◌==◌, if◌then◌else◌, Bool, true, false, ◌&&◌}
use fido.Base.{List, [], ◌∷◌, ◌++◌, length, take, drop, get_or}
use fido.Base.Bits.{Bytes}
use fido.Base.Int.{ℤ, pos, negsuc}
use fido.Errors.{Error, Result, ok, err, ◌>>=◌, Coordinate, agreement_key}
use fido.Errors.{bad_cose_map, coordinate_sizes, not_a_point, bad_platform_key, no_platform_key}
use fido.Errors.{will_not_agree}
use fido.Transport.{Random, M, filled, exhausted, value, error, from}
use fido.Transport
use fido.Cbor.{Cbor, Coded, got, bad, Value, num, bytes, labels, entry, end}
use fido.Cose.{cose_kty, cose_alg, cose_crv, cose_x, cose_y, cose_kty_ec2, cose_crv_p256}
use fido.Cose.{cose_p256_size, number, is_on_curve, read_coordinate}
use fido.PinProtocol.{Crypto, PinKeys, derive_keys}

-- `ecdh.P256().NewPublicKey`: an uncompressed point of the curve.
unfoldable pub is_point : Bytes → Bool
is_point b =
    (length b == 65)
    && (get_or b 0 0 == 0x04)
    && is_on_curve (number 0 (take 32 (drop 1 b))) (number 0 (drop 33 b))

-- The point of two coordinates, if they have the right width and lie on the curve.
unfoldable pub point_of : Bytes → Bytes → Result Bytes
point_of x y =
    if (length x == cose_p256_size) && (length y == cose_p256_size)
    then if is_point (0x04 ∷ (x ++ y)) then ok (0x04 ∷ (x ++ y)) else err not_a_point
    else err (coordinate_sizes agreement_key (length x) (length y))

module _ (c : Cbor) where
  unfoldable pub read_agreement_key : List (ℤ × Bytes) → Result Bytes
  read_agreement_key m = do
    x ← read_coordinate c agreement_key m cose_x Coordinate.x
    y ← read_coordinate c agreement_key m cose_y Coordinate.y
    point_of x y

  unfoldable pub cose_to_ecdh : Bytes → Result Bytes
  cose_to_ecdh raw = elim (c.to_int_map raw) [
    | got m ↦ read_agreement_key m
    | bad cause ↦ err (bad_cose_map agreement_key cause)
  ]

-- `big.Int.FillBytes`, into `n` bytes.
unfoldable pub fill_bytes : ℕ → ℕ → Bytes
fill_bytes zero x = []
fill_bytes (suc n) x = fill_bytes n (x / 256) ++ ((x % 256) ∷ [])

-- The COSE key of an agreement, ECDH-ES + HKDF-256.
unfoldable pub cose_labels : Bytes → Bytes → Value
cose_labels x y = labels (
    entry cose_kty (num cose_kty_ec2) (
      entry cose_alg (num (negsuc 24))
        (entry cose_crv (num cose_crv_p256) (entry cose_x (bytes x) (entry cose_y (bytes y) end)))))

unfoldable pub ecdh_to_cose : Bytes → Result Value
ecdh_to_cose b =
    if (length b == 1 + 2 * cose_p256_size) && (get_or b 0 0 == 0x04)
    then ok (
        cose_labels (fill_bytes cose_p256_size (number 0 (take 32 (drop 1 b))))
          (fill_bytes cose_p256_size (number 0 (drop 33 b))))
    else err (bad_platform_key (length b))

module _ (y : Crypto) where
  -- The exchange, with the platform's private key at hand.
  unfoldable pub exchange : ℤ → Bytes → Bytes → Result (Value × PinKeys)
  exchange proto authenticator private_key = do
    own ← ecdh_to_cose (y.public_point private_key)
    elim (y.ecdh private_key authenticator) [
      | bad cause ↦ err (will_not_agree cause)
      | got secret ↦ (derive_keys y proto secret >>= λ keys. ok (own, keys))
    ]

  unfoldable pub agree : {S : Type 0} → Random S → ℤ → Bytes → M S (Value × PinKeys)
  agree r proto authenticator s =
      let (made, s') = r.private_key s in
      elim made [
        | exhausted cause ↦ (error (no_platform_key cause), s')
        | filled private_key ↦ from (exchange proto authenticator private_key) s'
      ]
