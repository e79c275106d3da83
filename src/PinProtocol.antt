-- ===== src/PinProtocol.antt =====
-- pinproto.go: the two PIN/UV auth protocols. SHA-256, HMAC, HKDF, the AES block cipher and the
-- exchange on P-256 are Go's standard library, taken as an interface; the CBC mode is written out.
pub mod Chaining
pub mod RoundTrip
pub mod Sizes
use fido.Base.{ℕ, zero, suc, ◌+◌, ◌%◌, ltb, ◌==◌, if◌then◌else◌, Bool, not, ◌||◌, ◌&&◌, bit_xor}
use fido.Base.{List, [], ◌∷◌, ◌++◌, length, is_empty, take, drop, replicate}
use fido.Base.Bits.{Bytes}
use fido.Base.Int.{ℤ, pos, negsuc, int_eq}
use fido.Errors.{Text, Error, Result, ok, err, unknown_protocol, no_hmac_key, no_aes_key}
use fido.Errors.{partial_blocks, not_an_aes_key, no_iv, short_iv, empty_pin}
use fido.Format.{text, decimal}
use fido.Transport.{Random, M, filled, exhausted, value, error, ◌>>=◌, ◌>>◌, return, raise, from}
use fido.Cbor.{Coded, got, bad}

pub record Crypto : Type 0 where
  pub sha256 : Bytes → Bytes
  pub hmac_sha256 : (key content : Bytes) → Bytes
  -- `hkdfKey`: secret, salt, info and length.
  pub hkdf : Bytes → Bytes → Text → ℕ → Coded Bytes
  pub encrypt_block : (key block : Bytes) → Bytes
  pub decrypt_block : (key block : Bytes) → Bytes
  -- The public key of a private one, as an uncompressed point, and the x coordinate agreed.
  pub public_point : Bytes → Bytes
  pub ecdh : (private public : Bytes) → Coded Bytes

-- `PINProtocol`, an int.
abbrev pub PinProtocol : Type 0
PinProtocol = ℤ

abbrev pub pin_protocol_one : PinProtocol
pin_protocol_one = pos 1

abbrev pub pin_protocol_two : PinProtocol
pin_protocol_two = pos 2

-- `PINProtocol.String`, with the sign that `%d` puts.
unfoldable pub protocol_text : PinProtocol → Text
protocol_text (pos n) = text "PIN protocol " ++ decimal n
protocol_text (negsuc n) = text "PIN protocol -" ++ decimal (n + 1)

pub record PinKeys : Type 0 where
  pub proto : PinProtocol
  pub aes : Bytes
  pub hmac : Bytes

abbrev block_size : ℕ
block_size = 16

-- `aes.NewCipher` takes keys of 16, 24 and 32 bytes.
unfoldable pub is_aes_key : Bytes → Bool
is_aes_key key = (length key == 16) || (length key == 24) || (length key == 32)

unfoldable pub is_whole : Bytes → Bool
is_whole b = not (is_empty b) && (length b % block_size == 0)

unfoldable pub xor_bytes : Bytes → Bytes → Bytes
xor_bytes [] ys = []
xor_bytes (x ∷ xs) [] = []
xor_bytes (x ∷ xs) (y ∷ ys) = bit_xor x y ∷ xor_bytes xs ys

module _ (y : Crypto) where
  -- Cipher block chaining, a block for each unit of fuel.
  unfoldable pub cbc_encrypt : ℕ → Bytes → Bytes → Bytes → Bytes
  cbc_encrypt zero key iv plain = []
  cbc_encrypt (suc fuel) key iv [] = []
  cbc_encrypt (suc fuel) key iv (b ∷ plain) =
      let block = y.encrypt_block key (xor_bytes iv (take block_size (b ∷ plain))) in
      block ++ cbc_encrypt fuel key block (drop block_size (b ∷ plain))

  unfoldable pub cbc_decrypt : ℕ → Bytes → Bytes → Bytes → Bytes
  cbc_decrypt zero key iv cipher = []
  cbc_decrypt (suc fuel) key iv [] = []
  cbc_decrypt (suc fuel) key iv (b ∷ cipher) =
      let block = take block_size (b ∷ cipher) in
      xor_bytes iv (y.decrypt_block key block)
      ++ cbc_decrypt fuel key block (drop block_size (b ∷ cipher))

  unfoldable pub derive_two : Bytes → Result PinKeys
  derive_two secret = elim (y.hkdf secret (replicate 32 0) (text "CTAP2 HMAC key") 32) [
    | bad cause ↦ err (no_hmac_key cause)
    | got hmac_key ↦ elim (y.hkdf secret (replicate 32 0) (text "CTAP2 AES key") 32) [
      | bad cause ↦ err (no_aes_key cause)
      | got aes_key ↦ ok (record { proto = pin_protocol_two; aes = aes_key; hmac = hmac_key })
    ]
  ]

  unfoldable pub derive_keys : ℤ → Bytes → Result PinKeys
  derive_keys proto secret =
      if int_eq proto pin_protocol_one
      then ok (record { proto = proto; aes = y.sha256 secret; hmac = y.sha256 secret })
      else if int_eq proto pin_protocol_two
      then derive_two secret
      else err (unknown_protocol proto)

  -- `encrypt` with the initialisation vector at hand.
  unfoldable pub encrypt_with : PinKeys → Bytes → Bytes → Bytes
  encrypt_with k iv plain =
      let out : Bytes = cbc_encrypt (length plain) k.aes iv plain in
      if int_eq k.proto pin_protocol_two then iv ++ out else out

  unfoldable pub make_iv : {S : Type 0} → Random S → PinKeys → M S Bytes
  make_iv r k =
      if int_eq k.proto pin_protocol_two
      then (λ s.
          let (answer, s') = r.iv s in
          elim answer [ filled iv ↦ (value iv, s') | exhausted cause ↦ (error (no_iv cause), s') ])
      else return (replicate block_size 0)

  unfoldable pub encrypt : {S : Type 0} → Random S → PinKeys → Bytes → M S Bytes
  encrypt r k plain =
      if not (is_whole plain)
      then raise (partial_blocks (length plain))
      else if not (is_aes_key k.aes)
      then raise not_an_aes_key
      else (make_iv r k >>= λ iv. return (encrypt_with k iv plain))

  -- `decrypt`, behind the initialisation vector.
  unfoldable pub decrypt_with : PinKeys → Bytes → Bytes → Result Bytes
  decrypt_with k iv cipher =
      if not (is_whole cipher)
      then err (partial_blocks (length cipher))
      else if not (is_aes_key k.aes)
      then err not_an_aes_key
      else ok (cbc_decrypt (length cipher) k.aes iv cipher)

  unfoldable pub decrypt : PinKeys → Bytes → Result Bytes
  decrypt k cipher =
      if int_eq k.proto pin_protocol_two
      then if ltb (length cipher) block_size
        then err (short_iv (length cipher))
        else decrypt_with k (take block_size cipher) (drop block_size cipher)
      else decrypt_with k (replicate block_size 0) cipher

  unfoldable pub authenticate : PinKeys → Bytes → Bytes
  authenticate k content =
      let sum : Bytes = y.hmac_sha256 k.hmac content in
      if int_eq k.proto pin_protocol_one then take 16 sum else sum

  unfoldable pub pin_hash : {S : Type 0} → Random S → PinKeys → Text → M S Bytes
  pin_hash r k pin = if is_empty pin then raise empty_pin else encrypt r k (take 16 (y.sha256 pin))
