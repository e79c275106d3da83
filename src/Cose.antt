-- ===== src/Cose.antt =====
-- cose.go: `PublicKey`, the P-256 curve that it checks against, and the reading of coordinates that
-- clientpin.go has too. Big-endian numbers are those of `math/big`.
pub mod Sound
use fido.Base.{
  ℕ, zero, suc, ◌+◌, ◌-◌, ◌*◌, ◌%◌, ◌/◌, ◌^◌, ltb, ◌==◌, if◌then◌else◌, Bool, ◌&&◌, not,
}
use fido.Base.{Option, none, some, List, [], ◌∷◌, ◌++◌, length, is_empty}
use fido.Base.Bits.{Bytes}
use fido.Base.Int.{ℤ, pos, negsuc, int_eq}
use fido.Errors.{Error, Result, ok, err, ◌>>=◌, ◌>>◌, Coordinate, Header, Purpose, credential}
use fido.Errors.{no_credential_key, bad_cose_map, missing_header, bad_header, unsupported_key}
use fido.Errors.{missing_coordinate, bad_coordinate, coordinate_sizes, not_on_curve}
use fido.Cbor.{Cbor, Coded, got, bad, find_label}
use fido.AuthData.{AuthData}

abbrev pub cose_kty : ℤ
cose_kty = pos 1

abbrev pub cose_alg : ℤ
cose_alg = pos 3

abbrev pub cose_crv : ℤ
cose_crv = negsuc 0

abbrev pub cose_x : ℤ
cose_x = negsuc 1

abbrev pub cose_y : ℤ
cose_y = negsuc 2

abbrev pub cose_kty_ec2 : ℤ
cose_kty_ec2 = pos 2

abbrev pub cose_crv_p256 : ℤ
cose_crv_p256 = pos 1

abbrev pub cose_p256_size : ℕ
cose_p256_size = 32

-- COSE's number for ES256, -7.
abbrev pub alg_es256 : ℤ
alg_es256 = negsuc 6

-- `big.Int.SetBytes`, on top of what has been read.
unfoldable pub number : ℕ → Bytes → ℕ
number n [] = n
number n (b ∷ bs) = number (n * 256 + b) bs

-- The field and the constant of P-256, y² = x³ - 3x + b.
abbrev pub p256_prime : ℕ
p256_prime = 0xffffffff00000001000000000000000000000000ffffffffffffffffffffffff

abbrev pub p256_b : ℕ
p256_b = 0x5ac635d8aa3a93e7b3ebbd55769886bc651d06b0cc53b0f63bce3c3e27d2604b

-- `elliptic.P256().IsOnCurve`
unfoldable pub is_on_curve : ℕ → ℕ → Bool
is_on_curve x y =
    ltb x p256_prime
    && ltb y p256_prime
    && (y * y % p256_prime == (x * x * x + (p256_prime - 3) * x + p256_b) % p256_prime)

-- An ECDSA key on P-256.
pub record PublicKey : Type 0 where
  pub x : ℕ
  pub y : ℕ

-- A point whose coordinates have the right width: it is on the curve, or there is no key.
unfoldable pub checked_point : Bytes → Bytes → Result PublicKey
checked_point x y =
    if (length x == cose_p256_size) && (length y == cose_p256_size)
    then if is_on_curve (number 0 x) (number 0 y)
      then ok (record { x = number 0 x; y = number 0 y })
      else err not_on_curve
    else err (coordinate_sizes credential (length x) (length y))

-- Only P-256 with ES256 is decoded.
unfoldable pub check_kind : ℤ → ℤ → ℤ → Result (Unit {0})
check_kind kty alg crv =
    if int_eq kty cose_kty_ec2 && int_eq alg alg_es256 && int_eq crv cose_crv_p256
    then ok tt
    else err (unsupported_key kty alg crv)

module _ (c : Cbor) where
  unfoldable pub read_header : List (ℤ × Bytes) → ℤ → Header → Result ℤ
  read_header m label what = elim (find_label label m) [
    | none ↦ err (missing_header what)
    | some r ↦ elim (c.to_int r) [ got n ↦ ok n | bad cause ↦ err (bad_header what cause) ]
  ]

  unfoldable pub read_coordinate : Purpose → List (ℤ × Bytes) → ℤ → Coordinate → Result Bytes
  read_coordinate use_of m label what = elim (find_label label m) [
    | none ↦ err (missing_coordinate use_of what)
    | some r ↦ elim (c.to_bytes r) [
      | got b ↦ ok b
      | bad cause ↦ err (bad_coordinate use_of what cause)
    ]
  ]

  -- `PublicKey`, with the COSE map at hand.
  unfoldable pub read_public_key : List (ℤ × Bytes) → Result PublicKey
  read_public_key m = do
    kty ← read_header m cose_kty Header.key_type
    alg ← read_header m cose_alg Header.algorithm
    crv ← read_header m cose_crv Header.curve
    check_kind kty alg crv
    x ← read_coordinate credential m cose_x Coordinate.x
    y ← read_coordinate credential m cose_y Coordinate.y
    checked_point x y

  unfoldable pub public_key : AuthData → Result PublicKey
  public_key a =
      if is_empty a.cose_key then err no_credential_key else elim (c.to_int_map a.cose_key) [
        | got m ↦ read_public_key m
        | bad cause ↦ err (bad_cose_map credential cause)
      ]
