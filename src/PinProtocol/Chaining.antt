-- ===== src/PinProtocol/Chaining.antt =====
-- Cipher block chaining over a block cipher that can be reversed.
use fido.Base.{ℕ, zero, suc, ◌-◌, ◌*◌, ◌/◌, ◌≤◌, ◌<◌, ◌≡◌, refl, sym, ap, ◌∙◌, arith, bit_xor, min}
use fido.Base.{[], ◌∷◌, ◌++◌, length, take, drop, All, ◌==◌, ◌&&◌, Bool, true}
use fido.Base.{take-append, drop-append, take-append-drop, length-take, length-drop, length-append}
use fido.Base.{All-take, All-drop}
use fido.Base.Bits.{Bytes, IsByte, holds_below, holds_below_sound}
use fido.PinProtocol.{Crypto, xor_bytes, cbc_encrypt, cbc_decrypt}
use mathlib.Core.Path.{ap₂}

-- What AES promises of a block: sixteen bytes go to sixteen bytes, and back.
pub record IsCipher (y : Crypto) : Type 0 where
  pub size : (key block : Bytes) → length block ≡ 16 → length (y.encrypt_block key block) ≡ 16
  pub byte : (key block : Bytes) → length block ≡ 16 → All IsByte (y.encrypt_block key block)
  pub reverse :
      (key block : Bytes)
      → length block ≡ 16
      → All IsByte block
      → y.decrypt_block key (y.encrypt_block key block) ≡ block

xor_row : ℕ → Bool
xor_row a = holds_below 256 λ b. (bit_xor a (bit_xor a b) == b) && (bit_xor a b / 256 == 0)

xor_table : holds_below 256 xor_row ≡ true
unfolding holds_below xor_row
xor_table = refl

xor_byte : (a b : ℕ) → a < 256 → b < 256 → (bit_xor a (bit_xor a b) ≡ b) × (bit_xor a b < 256)
unfolding xor_row
xor_byte a b ha hb =
    ground (arith, holds_below_sound 256 _ b (holds_below_sound 256 xor_row a xor_table ha) hb)

length-xor_bytes : (xs ys : Bytes) → length (xor_bytes xs ys) ≡ min (length xs) (length ys)
unfolding xor_bytes
length-xor_bytes [] ys = omega arith
length-xor_bytes (x ∷ xs) [] = omega arith
length-xor_bytes (x ∷ xs) (y ∷ ys) = omega (arith, length-xor_bytes xs ys)

xor_bytes-xor_bytes :
    (xs ys : Bytes)
    → length xs ≡ length ys
    → All IsByte xs
    → All IsByte ys
    → (xor_bytes xs (xor_bytes xs ys) ≡ ys) × All IsByte (xor_bytes xs ys)
unfolding xor_bytes
xor_bytes-xor_bytes [] [] e h k = (refl, tt)
xor_bytes-xor_bytes [] (y ∷ ys) e h k = absurd (omega arith)
xor_bytes-xor_bytes (x ∷ xs) [] e h k = absurd (omega arith)
xor_bytes-xor_bytes (x ∷ xs) (y ∷ ys) e h k =
    let (same, rest) = xor_bytes-xor_bytes xs ys (omega arith) h.1 k.1 in
    let (own, fits) = xor_byte x y h.0 k.0 in (ap₂ (λ a t. a ∷ t) own same, (fits, rest))

module _ (y : Crypto) (key : Bytes) where
  encrypt_nil : (fuel : ℕ) (iv : Bytes) → cbc_encrypt y fuel key iv [] ≡ []
  unfolding cbc_encrypt
  encrypt_nil zero iv = refl
  encrypt_nil (suc fuel) iv = refl

  decrypt_nil : (fuel : ℕ) (iv : Bytes) → cbc_decrypt y fuel key iv [] ≡ []
  unfolding cbc_decrypt
  decrypt_nil zero iv = refl
  decrypt_nil (suc fuel) iv = refl

  decrypt_step :
      (fuel : ℕ) (iv block rest : Bytes)
      → length block ≡ 16
      → cbc_decrypt y (suc fuel) key iv (block ++ rest)
        ≡ xor_bytes iv (y.decrypt_block key block) ++ cbc_decrypt y fuel key block rest
  unfolding cbc_decrypt
  decrypt_step fuel iv [] rest h = absurd (omega arith)
  decrypt_step fuel iv (b ∷ block) rest h =
      rw (take-append 16 (b ∷ block) rest h, drop-append 16 (b ∷ block) rest h)

-- A block, encrypted under a vector.
abbrev sealed : Crypto → Bytes → Bytes → Bytes → Bytes
sealed y key iv plain = y.encrypt_block key (xor_bytes iv (take 16 plain))

module _ (y : Crypto) (cipher : IsCipher y) (key : Bytes) where
  -- One block: what comes out has the size of a block, and is opened by the vector again.
  sealed_lem :
      (iv plain : Bytes)
      → 16 ≤ length plain
      → length iv ≡ 16
      → All IsByte iv
      → All IsByte plain
      → (length (sealed y key iv plain) ≡ 16)
        × All IsByte (sealed y key iv plain)
        × (xor_bytes iv (y.decrypt_block key (sealed y key iv plain)) ≡ take 16 plain)
  sealed_lem iv plain h v hv hp =
      let size : length (take 16 plain) ≡ 16 = omega (arith, length-take 16 plain) in
      let (own, fits) =
        xor_bytes-xor_bytes iv (take 16 plain) (v ∙ sym size) hv (All-take IsByte 16 plain hp) in
      let block : length (xor_bytes iv (take 16 plain)) ≡ 16 =
        omega (arith, length-xor_bytes iv (take 16 plain)) in
      (
        cipher.size key _ block,
        cipher.byte key _ block,
        ap (xor_bytes iv) (cipher.reverse key _ block fits) ∙ own,
      )

  -- Chained decryption undoes chained encryption, for any whole number of blocks and any first vector.
  pub cbc_decrypt-cbc_encrypt :
      (n fuel more : ℕ) (iv plain : Bytes)
      → length plain ≡ 16 * n
      → n ≤ fuel
      → n ≤ more
      → length iv ≡ 16
      → All IsByte iv
      → All IsByte plain
      → (cbc_decrypt y more key iv (cbc_encrypt y fuel key iv plain) ≡ plain)
        × (length (cbc_encrypt y fuel key iv plain) ≡ length plain)
  unfolding cbc_encrypt
  cbc_decrypt-cbc_encrypt zero fuel more iv [] e f g v hv hp =
      rw (encrypt_nil y key fuel iv) (decrypt_nil y key more iv, refl)
  cbc_decrypt-cbc_encrypt zero fuel more iv (b ∷ plain) e f g v hv hp = absurd (omega arith)
  cbc_decrypt-cbc_encrypt (suc n) fuel more iv [] e f g v hv hp = absurd (omega arith)
  cbc_decrypt-cbc_encrypt (suc n) zero more iv (b ∷ plain) e f g v hv hp = absurd (omega arith)
  cbc_decrypt-cbc_encrypt (suc n) (suc fuel) zero iv (b ∷ plain) e f g v hv hp =
      absurd (omega arith)
  cbc_decrypt-cbc_encrypt (suc n) (suc fuel) (suc more) iv (b ∷ plain) e f g v hv hp =
      let left : length (drop 16 (b ∷ plain)) ≡ length (b ∷ plain) - 16 =
        length-drop 16 (b ∷ plain) in
      let block : Bytes = sealed y key iv (b ∷ plain) in
      let (size, fits, opened) = sealed_lem iv (b ∷ plain) (omega arith) v hv hp in
      let (rest, long) =
        cbc_decrypt-cbc_encrypt n fuel more block (drop 16 (b ∷ plain)) (omega arith) (omega arith)
          (omega arith) size fits (All-drop IsByte 16 (b ∷ plain) hp) in
      (
        decrypt_step y key more iv block _ size
            ∙ ap₂ (λ s t. s ++ t) opened rest
            ∙ take-append-drop 16 (b ∷ plain),
        length-append block (cbc_encrypt y fuel key block (drop 16 (b ∷ plain)))
            ∙ omega (arith, size, left, long),
      )
