-- ===== src/AuthData/Layout.antt =====
-- `ParseAuthData` against a writer of the same layout.
use fido.Base.{ℕ, ◌≤◌, ◌≡◌, ap, ◌∙◌, arith, if◌then◌else◌}
use fido.Base.{Bool-cases, ltb, inl, inr}
use fido.Base.{[], ◌∷◌, ◌++◌, length, take, drop, All}
use fido.Base.{take-append-drop, length-take, All-drop}
use fido.Base.Bits.{Bytes, IsByte, put_u16, put_u32, u16, u32, put_u16-u16, put_u32-u32}
use fido.Errors.{ok, ◌>>=◌, bind-eq-ok}
use fido.Init.{has}
use mathlib.Core.Path.{ap₂}
use fido.Cbor.{Coded-cases, Cbor, got}
use fido.AuthData.{AuthData, Attested, flag_at, flag_ed, unattested}
use fido.AuthData.{read_key, read_credential, read_attested, read_extensions, read_rest}
use fido.AuthData.{parse_auth_data}

-- What the CBOR library documents of raw messages: they are the bytes that were read, `Unmarshal`
-- reads all of its input, and the decoder reads no more than there is.
pub record IsFaithful (c : Cbor) : Type 0 where
  pub first :
      (b key : Bytes) (used : ℕ)
      → c.decode_first b ≡ got (key, used)
      → (key ≡ take used b) × (used ≤ length b)
  pub raw : (b ext : Bytes) → c.to_raw b ≡ got ext → ext ≡ b

-- The layout of authenticator data.
abbrev pub attested_bytes : Bytes → Bytes → Bytes → Bytes → Bytes
attested_bytes aaguid id key rest = aaguid ++ put_u16 (length id) (id ++ (key ++ rest))

abbrev pub auth_bytes : AuthData → Bytes
auth_bytes a =
    a.rp_id_hash
    ++ (a.flags
        ∷ put_u32 a.sign_count (
            if has a.flags flag_at
            then attested_bytes a.aaguid a.credential_id a.cose_key a.extensions
            else a.extensions))

abbrev assembled : Bytes → ℕ → ℕ → Attested → AuthData
assembled hash flags count t = record {
  rp_id_hash = hash;
  flags = flags;
  sign_count = count;
  aaguid = t.aaguid;
  credential_id = t.credential_id;
  cose_key = t.cose_key;
  extensions = t.rest;
}

module _ (c : Cbor) (f : IsFaithful c) where
  read_key-layout :
      (aaguid id rest : Bytes) (a : Attested)
      → read_key c aaguid id rest ≡ ok a
      → (a.aaguid ≡ aaguid) × (a.credential_id ≡ id) × (a.cose_key ++ a.rest ≡ rest)
  unfolding read_key
  read_key-layout aaguid id rest a h = elim (Coded-cases (c.decode_first rest)) [
    | inl ((key, used), e) ↦
        let (same, _) = f.first rest key used e in ground (arith, take-append-drop used rest)
    | inr (x, e) ↦ absurd (ground arith)
  ]

  read_credential-layout :
      (aaguid rest : Bytes) (a : Attested)
      → All IsByte rest
      → read_credential c aaguid rest ≡ ok a
      → (a.aaguid ≡ aaguid)
        × (put_u16 (length a.credential_id) (a.credential_id ++ (a.cose_key ++ a.rest)) ≡ rest)
  unfolding read_credential
  read_credential-layout aaguid [] a b h = cc
  read_credential-layout aaguid (hi ∷ []) a b h = cc
  read_credential-layout aaguid (hi ∷ lo ∷ rest) a b h =
      elim (Bool-cases (ltb (length rest) (u16 hi lo))) [
        | inl over ↦ absurd (ground arith)
        | inr fits ↦
            let read : read_key c aaguid (take (u16 hi lo) rest) (drop (u16 hi lo) rest) ≡ ok a =
              ground arith in
            let (same, id, left) = read_key-layout aaguid _ _ a read in
            let within : u16 hi lo ≤ length rest = ground arith in
            let size : length (take (u16 hi lo) rest) ≡ u16 hi lo =
              omega (arith, length-take (u16 hi lo) rest) in
            let tail : a.credential_id ++ (a.cose_key ++ a.rest) ≡ rest =
              ap₂ (λ x y. x ++ y) id left ∙ take-append-drop (u16 hi lo) rest in
            (
              same,
              ap₂ put_u16 (ap length id ∙ size) tail
                  ∙ put_u16-u16 hi lo rest (omega arith) (omega arith),
            )
      ]

  read_extensions-layout :
      (hash : Bytes) (flags count : ℕ) (t : Attested) (a : AuthData)
      → read_extensions c hash flags count t ≡ ok a
      → a ≡ assembled hash flags count t
  unfolding read_extensions
  read_extensions-layout hash flags count t a h = elim (Bool-cases (has flags flag_ed)) [
    | inl on ↦ elim (Coded-cases (c.to_raw t.rest)) [
      | inl (ext, e) ↦ ground (arith, f.raw t.rest ext e)
      | inr (x, e) ↦ absurd (ground arith)
    ]
    | inr off ↦ ground arith
  ]

  read_attested-layout :
      (rest : Bytes) (a : Attested)
      → All IsByte rest
      → read_attested c rest ≡ ok a
      → attested_bytes a.aaguid a.credential_id a.cose_key a.rest ≡ rest
  unfolding read_attested
  read_attested-layout rest a b h =
      let read : read_credential c (take 16 rest) (drop 16 rest) ≡ ok a = ground arith in
      let (same, tail) =
        read_credential-layout (take 16 rest) (drop 16 rest) a (All-drop IsByte 16 rest b) read in
      ap₂ (λ x y. x ++ y) same tail ∙ take-append-drop 16 rest

  read_rest-layout :
      (hash rest : Bytes) (a : AuthData)
      → All IsByte rest
      → read_rest c hash rest ≡ ok a
      → auth_bytes a ≡ hash ++ rest
  unfolding read_rest
  read_rest-layout hash [] a b h = cc
  read_rest-layout hash (_ ∷ []) a b h = cc
  read_rest-layout hash (_ ∷ _ ∷ []) a b h = cc
  read_rest-layout hash (_ ∷ _ ∷ _ ∷ []) a b h = cc
  read_rest-layout hash (_ ∷ _ ∷ _ ∷ _ ∷ []) a b h = cc
  read_rest-layout hash (flags ∷ n3 ∷ n2 ∷ n1 ∷ n0 ∷ rest) a b h =
      elim (Bool-cases (has flags flag_at)) [
        | inl on ↦
            let read : (read_attested c rest >>= read_extensions c hash flags (u32 n3 n2 n1 n0))
                ≡ ok a =
              rw (on, read_rest) at h in
            let (t, found, last) =
              bind-eq-ok (read_attested c rest) (read_extensions c hash flags (u32 n3 n2 n1 n0))
                read in
            rw (read_extensions-layout hash flags _ t a last, on)
              (ap (λ x. hash ++ (flags ∷ x))
                (ap (put_u32 (u32 n3 n2 n1 n0)) (read_attested-layout rest t b.1.1.1.1.1 found)
                  ∙ put_u32-u32 n3 n2 n1 n0 rest (omega arith) (omega arith) (omega arith)
                      (omega arith)))
        | inr off ↦
            let read : read_extensions c hash flags (u32 n3 n2 n1 n0) (unattested rest) ≡ ok a =
              rw (off, read_rest) at h in
            rw (read_extensions-layout hash flags _ (unattested rest) a read, off)
              (ap (λ x. hash ++ (flags ∷ x))
                (put_u32-u32 n3 n2 n1 n0 rest (omega arith) (omega arith) (omega arith)
                  (omega arith)))
      ]

  -- Authenticator data that parses is spelt out by the result, byte for byte: nothing of it is
  -- skipped, read twice or left over.
  pub parse_auth_data-layout :
      (b : Bytes) (a : AuthData) → All IsByte b → parse_auth_data c b ≡ ok a → auth_bytes a ≡ b
  unfolding parse_auth_data
  parse_auth_data-layout b a h e =
      let read : read_rest c (take 32 b) (drop 32 b) ≡ ok a = ground arith in
      read_rest-layout (take 32 b) (drop 32 b) a (All-drop IsByte 32 b h) read
      ∙ take-append-drop 32 b
