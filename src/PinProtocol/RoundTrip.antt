-- ===== src/PinProtocol/RoundTrip.antt =====
-- `encrypt` and `decrypt` of both protocols, and the sizes of what they and `authenticate` make.
use fido.Base.{ℕ, ◌+◌, ◌*◌, ◌/◌, ◌%◌, ◌≡◌, refl, sym, ap, subst, ◌∙◌, arith}
use fido.Base.{true, false, Bool-cases, ◌⊎◌, inl, inr, ◌==◌, if◌then◌else◌}
use fido.Base.{[], ◌∷◌, ◌++◌, length, replicate, All, is_empty}
use fido.Base.{take-append, drop-append, length-append, length-replicate, All-replicate}
use fido.Base.Bits.{Bytes, IsByte}
use fido.Base.Int.{int_eq}
use fido.Errors.{Text, ok}
use fido.Transport.{Random, Filled, filled, exhausted, value}
use fido.PinProtocol.{Crypto, PinKeys, pin_protocol_two, is_whole, is_aes_key}
use fido.PinProtocol.{cbc_encrypt, encrypt_with, make_iv, encrypt, decrypt_with, decrypt}
use fido.Transport.{◌>>=◌, return}
use fido.Transport.Bind.{bind-eq-value}
use fido.PinProtocol.Chaining.{IsCipher, cbc_decrypt-cbc_encrypt}

pub Filled-cases :
    {S : Type 0} (x : Filled × S)
    → ((b : Bytes) × (u : S) × (x ≡ (filled b, u)))
      ⊎ ((c : Text) × (u : S) × (x ≡ (exhausted c, u)))
Filled-cases (filled b, u) = inl (b, u, refl)
Filled-cases (exhausted c, u) = inr (c, u, refl)

-- What `rand.Read` promises of an initialisation vector.
abbrev pub FillsIv : {S : Type 0} → Random S → Type 0
FillsIv {S} r = (s u : S) (iv : Bytes) → r.iv s ≡ (filled iv, u) → (length iv ≡ 16) × All IsByte iv

whole_blocks :
    (b : Bytes) → is_whole b ≡ true → (length b ≡ 16 * (length b / 16)) × (is_empty b ≡ false)
unfolding is_whole
whole_blocks b h = ground arith

is_whole-length : (a b : Bytes) → length a ≡ length b → is_whole a ≡ is_whole b
unfolding is_whole
is_whole-length [] [] e = refl
is_whole-length [] (b ∷ bs) e = absurd (omega arith)
is_whole-length (a ∷ as') [] e = absurd (omega arith)
is_whole-length (a ∷ as') (b ∷ bs) e = ap (λ n. n % 16 == 0) e

make_iv_lem :
    (y : Crypto) (k : PinKeys) {S : Type 0} (r : Random S) (iv : Bytes) (s s' : S)
    → FillsIv r
    → make_iv y r k s ≡ (value iv, s')
    → (length iv ≡ 16)
      × All IsByte iv
      × ((int_eq k.proto pin_protocol_two ≡ false) → iv ≡ replicate 16 0)
unfolding make_iv
make_iv_lem y k r iv s s' fills h = elim (Bool-cases (int_eq k.proto pin_protocol_two)) [
  | inl two ↦ elim (Filled-cases (r.iv s)) [
    | inl (b, u, e) ↦
        let (size, fits) = fills s u b e in
        let same : b ≡ iv = ground arith in
        (rw same at size, rw same at fits, λ n. absurd (ground arith))
    | inr (x, u, e) ↦ absurd (ground arith)
  ]
  | inr other ↦
      let same : replicate 16 0 ≡ iv = ground arith in
      (
        rw same at (length-replicate {A = ℕ} 16 0),
        rw same at (All-replicate IsByte 16 0 (omega arith)),
        λ _. sym same,
      )
]

encrypt-value :
    (y : Crypto) (k : PinKeys) {S : Type 0} (r : Random S) (plain out : Bytes) (s s' : S)
    → encrypt y r k plain s ≡ (value out, s')
    → (is_whole plain ≡ true)
      × (is_aes_key k.aes ≡ true)
      × ((iv : Bytes) × (make_iv y r k s ≡ (value iv, s')) × (out ≡ encrypt_with y k iv plain))
unfolding encrypt
encrypt-value y k r plain out s s' h = elim (Bool-cases (is_whole plain)) [
  | inl w ↦ elim (Bool-cases (is_aes_key k.aes)) [
    | inl a ↦
        let run : (make_iv y r k >>= λ iv. return (encrypt_with y k iv plain)) s ≡ (value out, s') =
          rw (w, a, encrypt) at h in
        let (iv, u, made, last) =
          bind-eq-value (make_iv y r k) (λ iv. return (encrypt_with y k iv plain)) run in
        (w, a, (iv, rw (ap (λ x. x.1) last) at made, ground arith))
    | inr a ↦ absurd (ground arith)
  ]
  | inr w ↦ absurd (ground arith)
]

module _ (y : Crypto) (cipher : IsCipher y) (k : PinKeys) where
  decrypt_with-encrypt :
      (iv plain : Bytes)
      → is_whole plain ≡ true
      → is_aes_key k.aes ≡ true
      → length iv ≡ 16
      → All IsByte iv
      → All IsByte plain
      → (decrypt_with y k iv (cbc_encrypt y (length plain) k.aes iv plain) ≡ ok plain)
        × (length (cbc_encrypt y (length plain) k.aes iv plain) ≡ length plain)
  unfolding decrypt_with
  decrypt_with-encrypt iv plain w a v hv hp =
      let (_, long) =
        cbc_decrypt-cbc_encrypt y cipher k.aes (length plain / 16) (length plain) (length plain) iv
          plain (whole_blocks plain w).0 (omega arith) (omega arith) v hv hp in
      let out : Bytes = cbc_encrypt y (length plain) k.aes iv plain in
      let (same, _) =
        cbc_decrypt-cbc_encrypt y cipher k.aes (length plain / 16) (length plain) (length out) iv
          plain (whole_blocks plain w).0 (omega arith) (omega (arith, long)) v hv hp in
      (rw (is_whole-length out plain long, w, a) (ap ok same), long)

  -- What `encrypt` makes under either protocol, `decrypt` under the same keys opens again; it is as
  -- long as the plaintext, and a block longer under protocol two.
  pub decrypt-encrypt :
      {S : Type 0} (r : Random S) (plain out : Bytes) (s s' : S)
      → FillsIv r
      → All IsByte plain
      → encrypt y r k plain s ≡ (value out, s')
      → (decrypt y k out ≡ ok plain)
        × (length out
            ≡ (if int_eq k.proto pin_protocol_two then 16 + length plain else length plain))
  unfolding encrypt_with decrypt
  decrypt-encrypt r plain out s s' fills hp h =
      let (w, a, (iv, made, same)) = encrypt-value y k r plain out s s' h in
      let (size, fits, zeros) = make_iv_lem y k r iv s s' fills made in
      let (opened, long) = decrypt_with-encrypt iv plain w a size fits hp in
      let cipher_text : Bytes = cbc_encrypt y (length plain) k.aes iv plain in
      elim (Bool-cases (int_eq k.proto pin_protocol_two)) [
        | inl two ↦
            let whole : out ≡ iv ++ cipher_text = rw (two, encrypt_with) at same in
            let total : length out ≡ 16 + length plain =
              ap length whole ∙ length-append iv cipher_text ∙ omega (arith, size, long) in
            rw (two, whole, take-append 16 iv cipher_text size, drop-append 16 iv cipher_text size)
              (ground (arith, opened, long, size, length-append iv cipher_text))
        | inr one ↦
            let whole : out ≡ cipher_text = rw (one, encrypt_with) at same in
            rw (one, whole)
              (subst (λ v. decrypt_with y k v cipher_text ≡ ok plain) (zeros one) opened, long)
      ]
