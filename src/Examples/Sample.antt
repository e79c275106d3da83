-- ===== src/Examples/Sample.antt =====
-- A small coding and a small cryptography, which keep what is asked of the libraries: a CBOR library
-- with one map for each leading byte, and a block cipher that is its own inverse on bytes.
use fido.Base.{ℕ, suc, ◌%◌, ◌≤◌, ◌≡◌, refl, ap, ◌∙◌, sym, ◌==◌, if◌then◌else◌, arith, true}
use fido.Base.{List, [], ◌∷◌, ◌++◌, length, replicate, take, All}
use mathlib.Core.Path.{ap₂}
use fido.Base.Bits.{Bytes, IsByte}
use fido.Base.Int.{ℤ, pos, negsuc}
use fido.Format.{text}
use fido.Cbor.{Cbor, Coded, got, bad}
use fido.PinProtocol.{Crypto}
use fido.PinProtocol.Chaining.{IsCipher}
use fido.PinProtocol.Sizes.{IsDigest}
use fido.Agreement.{fill_bytes}
use fido.Agreement.Keys.{Agrees}
use fido.AuthData.Layout.{IsFaithful}

-- The base point of P-256.
abbrev pub base_x : Bytes
base_x = fill_bytes 32 0x6b17d1f2e12c4247f8bce6e563a440f277037d812deb33a0f4a13945d898c296

abbrev pub base_y : Bytes
base_y = fill_bytes 32 0x4fe342e2fe1a7f9b8ee7eb4a7c0f9e162bce33576b315ececbb6406837bf51f5

-- The key of a credential: EC2, ES256, P-256 and the base point.
abbrev pub base_key : List (ℤ × Bytes)
base_key =
    (pos 1, 2 ∷ [])
    ∷ (pos 3, 6 ∷ 0 ∷ [])
    ∷ (negsuc 0, 1 ∷ [])
    ∷ (negsuc 1, base_x)
    ∷ (negsuc 2, base_y)
    ∷ []

-- Authenticator data with a credential of two bytes, whose key is one byte, and no extensions.
abbrev pub attested_data : Bytes
attested_data =
    replicate 32 8 ++ (0x41 ∷ 0 ∷ 0 ∷ 0 ∷ 3 ∷ []) ++ replicate 16 1 ++ (0 ∷ 2 ∷ 7 ∷ 7 ∷ 0xA5 ∷ [])

-- The replies that are maps, by their first byte.
abbrev maps : Bytes → Coded (List (ℕ × Bytes))
maps [] = bad (text "EOF")
maps (b ∷ _) =
    if b == 1
    then got ((1, 65 ∷ []) ∷ (2, attested_data) ∷ [])
    else if b == 2
    then got ((2, attested_data) ∷ (3, 9 ∷ []) ∷ [])
    else if b == 3
    then got ((1, 0xA5 ∷ []) ∷ [])
    else (if b == 4
        then got ((2, replicate 32 6) ∷ [])
        else got ((1, 65 ∷ []) ∷ (5, 1 ∷ 2 ∷ []) ∷ []))

-- An integer of one byte, or of two if it is negative.
abbrev integers : Bytes → Coded ℤ
integers (n ∷ []) = got (pos n)
integers (n ∷ _ ∷ []) = got (negsuc n)
integers _ = bad (text "not an integer")

abbrev first_byte : Bytes → Coded (Bytes × ℕ)
first_byte [] = bad (text "EOF")
first_byte (b ∷ _) = got (b ∷ [], 1)

abbrev pub sample : Cbor
sample = record {
  marshal = λ v. got (0xA0 ∷ []);
  to_map = maps;
  to_int_map = λ b. got base_key;
  to_raw = λ b. got b;
  to_bytes = λ b. got b;
  to_text = λ b. got b;
  to_texts = λ b. got (b ∷ []);
  to_options = λ b. got [];
  to_uint = λ b. got (length b);
  to_uints = λ b. got b;
  to_int = integers;
  to_bool = λ b. got true;
  to_credential = λ b. got ([], b);
  to_user = λ b. got b;
  decode_first = first_byte;
}

pub sample-IsFaithful : IsFaithful sample
sample-IsFaithful = record { first = first; raw = λ b ext h. ground arith }
  where
    first :
        (b key : Bytes) (used : ℕ)
        → sample.decode_first b ≡ got (key, used)
        → (key ≡ take used b) × (used ≤ length b)
    first [] key used h = absurd (ground arith)
    first (x ∷ b) key used h =
        let one : key ≡ x ∷ [] = ground arith in
        let read : used ≡ 1 = ground arith in
        (one ∙ unfold take in refl ∙ ap (λ n. take n (x ∷ b)) (sym read), omega arith)

abbrev mask : Bytes → Bytes
mask [] = []
mask (b ∷ bs) = b % 256 ∷ mask bs

length-mask : (b : Bytes) → length (mask b) ≡ length b
length-mask [] = refl
length-mask (b ∷ bs) = ap suc (length-mask bs)

mask-IsByte : (b : Bytes) → All IsByte (mask b)
mask-IsByte [] = tt
mask-IsByte (b ∷ bs) = (omega arith, mask-IsByte bs)

mask_lem : (b : Bytes) → All IsByte b → mask b ≡ b
mask_lem [] h = refl
mask_lem (b ∷ bs) (h, hs) = ap₂ (λ x xs. x ∷ xs) (omega arith) (mask_lem bs hs)

abbrev pub toy : Crypto
toy = record {
  sha256 = λ b. replicate 32 (length b);
  hmac_sha256 = λ key b. replicate 32 7;
  hkdf = λ secret salt info n. got (replicate 32 9);
  encrypt_block = λ key b. mask b;
  decrypt_block = λ key b. mask b;
  public_point = λ private. 4 ∷ replicate 64 (length private);
  ecdh = λ private public. got (replicate 32 5);
}

pub toy-IsCipher : IsCipher toy
toy-IsCipher = record {
  size = λ key block h. length-mask block ∙ h;
  byte = λ key block h. mask-IsByte block;
  reverse = λ key block h b. ap mask (mask_lem block b) ∙ mask_lem block b;
}

pub toy-IsDigest : IsDigest toy
unfolding replicate
toy-IsDigest = record { sha256_size = λ b. refl; hmac_size = λ key b. refl }

pub toy-Agrees : Agrees toy
toy-Agrees a b secret h = h
