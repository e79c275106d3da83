-- ===== src/PinProtocol/Sizes.antt =====
-- The sizes of a pinUvAuthParam and of a decrypted text, and what the protocols do with other input.
use fido.Base.{◌≡◌, arith}
use fido.Base.{length, if◌then◌else◌, length-take}
use fido.Base.Bits.{Bytes}
use fido.Base.Int.{int_eq}
use fido.PinProtocol.{Crypto, PinKeys, pin_protocol_one}
use fido.PinProtocol.{authenticate}

-- What the standard library promises of its digests.
pub record IsDigest (y : Crypto) : Type 0 where
  pub sha256_size : (b : Bytes) → length (y.sha256 b) ≡ 32
  pub hmac_size : (key b : Bytes) → length (y.hmac_sha256 key b) ≡ 32

-- A pinUvAuthParam has 16 bytes under protocol one and 32 under any other.
pub length-authenticate :
    (y : Crypto)
    → IsDigest y
    → (k : PinKeys) (content : Bytes)
    → length (authenticate y k content) ≡ (if int_eq k.proto pin_protocol_one then 16 else 32)
unfolding authenticate
length-authenticate y d k content =
    ground (arith, d.hmac_size k.hmac content, length-take 16 (y.hmac_sha256 k.hmac content))
