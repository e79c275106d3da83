-- ===== src/AuthData/Types.antt =====
-- The Go types of the fields of `AuthData`, and what its flags say of them.
use fido.Base.{ℕ, ◌≤◌, ◌<◌, ◌^◌, ◌≡◌, sym, ap, ◌∙◌, arith}
use fido.Base.{Bool, true, false, Bool-cases, inl, inr, [], ◌∷◌, length, take, drop, All}
use fido.Base.{length-take, All-drop, replicate}
use fido.Base.Bits.{Bytes, IsByte, u16, u32, u32-lt}
use fido.Errors.{ok, ◌>>=◌, bind-eq-ok}
use fido.Init.{has}
use fido.Cbor.{Coded-cases, Cbor}
use fido.AuthData.{AuthData, Attested, flag_at, flag_ed, unattested}
use fido.AuthData.{read_key, read_credential, read_attested, read_extensions, read_rest}
use fido.AuthData.{parse_auth_data}

-- `[32]byte`, `Flags`, `uint32`, `[16]byte`, and a length of sixteen bits; the fields that a flag
-- announces keep their zero values without it.
pub record IsWellFormed (a : AuthData) : Type 0 where
  pub hash : length a.rp_id_hash ≡ 32
  pub flag : a.flags < 256
  pub count : a.sign_count < 2 ^ 32
  pub identifier : length a.aaguid ≡ 16
  pub credential : length a.credential_id < 2 ^ 16
  pub bare :
      has a.flags flag_at ≡ false
      → (a.aaguid ≡ replicate 16 0) × (a.credential_id ≡ []) × (a.cose_key ≡ [])
  pub plain : has a.flags flag_ed ≡ false → a.extensions ≡ []

bool_clash : {b : Bool} → b ≡ true → b ≡ false → ⊥
bool_clash e f = cc

-- What is left of the attested credential data.
abbrev Sized : Attested → Type 0
Sized t = (length t.aaguid ≡ 16) × (length t.credential_id < 2 ^ 16)

module _ (c : Cbor) where
  read_key-kept :
      (aaguid id rest : Bytes) (t : Attested)
      → read_key c aaguid id rest ≡ ok t
      → (t.aaguid ≡ aaguid) × (t.credential_id ≡ id)
  unfolding read_key
  read_key-kept aaguid id rest t h = elim (Coded-cases (c.decode_first rest)) [
    | inl (x, e) ↦ ground arith
    | inr (x, e) ↦ absurd (ground arith)
  ]

  read_credential-Sized :
      (aaguid rest : Bytes) (t : Attested)
      → All IsByte rest
      → length aaguid ≡ 16
      → read_credential c aaguid rest ≡ ok t
      → Sized t
  unfolding read_credential
  read_credential-Sized aaguid [] t b size h = cc
  read_credential-Sized aaguid (hi ∷ []) t b size h = cc
  read_credential-Sized aaguid (hi ∷ lo ∷ rest) t b size h =
      let n : ℕ = u16 hi lo in
      let found : read_key c aaguid (take n rest) (drop n rest) ≡ ok t = ground arith in
      let (same, id) = read_key-kept aaguid (take n rest) (drop n rest) t found in
      (ap length same ∙ size, omega (arith, ap length id, length-take n rest))

  read_attested-Sized :
      (rest : Bytes) (t : Attested) → All IsByte rest → read_attested c rest ≡ ok t → Sized t
  unfolding read_attested
  read_attested-Sized rest t b h =
      let found : read_credential c (take 16 rest) (drop 16 rest) ≡ ok t = ground arith in
      let long : 18 ≤ length rest = ground arith in
      read_credential-Sized (take 16 rest) (drop 16 rest) t (All-drop IsByte 16 rest b)
        (omega (arith, length-take 16 rest)) found

  read_extensions-kept :
      (hash : Bytes) (flags count : ℕ) (t : Attested) (a : AuthData)
      → read_extensions c hash flags count t ≡ ok a
      → (a.rp_id_hash ≡ hash)
        × (a.flags ≡ flags)
        × (a.sign_count ≡ count)
        × (a.aaguid ≡ t.aaguid)
        × (a.credential_id ≡ t.credential_id)
        × (a.cose_key ≡ t.cose_key)
        × (has flags flag_ed ≡ false → a.extensions ≡ [])
  unfolding read_extensions
  read_extensions-kept hash flags count t a h = elim (Bool-cases (has flags flag_ed)) [
    | inl on ↦ elim (Coded-cases (c.to_raw t.rest)) [
      | inl (ext, e) ↦ (
        ground arith,
        ground arith,
        ground arith,
        ground arith,
        ground arith,
        ground arith,
        λ off. absurd (ground arith),
      )
      | inr (x, e) ↦ absurd (ground arith)
    ]
    | inr off ↦ ground arith
  ]

  read_rest-IsWellFormed :
      (hash rest : Bytes) (a : AuthData)
      → All IsByte rest
      → length hash ≡ 32
      → read_rest c hash rest ≡ ok a
      → IsWellFormed a
  unfolding read_rest
  read_rest-IsWellFormed hash [] a b size h = cc
  read_rest-IsWellFormed hash (_ ∷ []) a b size h = cc
  read_rest-IsWellFormed hash (_ ∷ _ ∷ []) a b size h = cc
  read_rest-IsWellFormed hash (_ ∷ _ ∷ _ ∷ []) a b size h = cc
  read_rest-IsWellFormed hash (_ ∷ _ ∷ _ ∷ _ ∷ []) a b size h = cc
  read_rest-IsWellFormed hash (flags ∷ n3 ∷ n2 ∷ n1 ∷ n0 ∷ rest) a b size h =
      let count : u32 n3 n2 n1 n0 < 2 ^ 32 =
        u32-lt n3 n2 n1 n0 (omega arith) (omega arith) (omega arith) (omega arith) in
      elim (Bool-cases (has flags flag_at)) [
        | inl on ↦
            let read : (read_attested c rest >>= read_extensions c hash flags (u32 n3 n2 n1 n0))
                ≡ ok a =
              rw (on, read_rest) at h in
            let (t, found, last) =
              bind-eq-ok (read_attested c rest) (read_extensions c hash flags (u32 n3 n2 n1 n0))
                read in
            let (k1, k2, k3, k4, k5, k6, k7) = read_extensions-kept hash flags _ t a last in
            let (s1, s2) = read_attested-Sized rest t b.1.1.1.1.1 found in
            record {
              hash = ap length k1 ∙ size;
              flag = omega (arith, k2);
              count = omega (arith, k3);
              identifier = ap length k4 ∙ s1;
              credential = omega (arith, ap length k5);
              bare = λ off. absurd (bool_clash on (ap (λ f. has f flag_at) (sym k2) ∙ off));
              plain = λ off. k7 (ap (λ f. has f flag_ed) (sym k2) ∙ off);
            }
        | inr off ↦
            let read : read_extensions c hash flags (u32 n3 n2 n1 n0) (unattested rest) ≡ ok a =
              rw (off, read_rest) at h in
            let (k1, k2, k3, k4, k5, k6, k7) =
              read_extensions-kept hash flags _ (unattested rest) a read in
            record {
              hash = ap length k1 ∙ size;
              flag = omega (arith, k2);
              count = omega (arith, k3);
              identifier = ap length k4;
              credential = omega (arith, ap length k5);
              bare = λ _. (unfold replicate in k4, k5, k6);
              plain = λ none. k7 (ap (λ f. has f flag_ed) (sym k2) ∙ none);
            }
      ]

  -- The fields of authenticator data that parses fit their Go types, whatever its bytes are; and what
  -- the flags do not announce is zero.
  pub parse_auth_data-IsWellFormed :
      (b : Bytes) (a : AuthData) → All IsByte b → parse_auth_data c b ≡ ok a → IsWellFormed a
  unfolding parse_auth_data
  parse_auth_data-IsWellFormed b a h e =
      let read : read_rest c (take 32 b) (drop 32 b) ≡ ok a = ground arith in
      let long : 37 ≤ length b = ground arith in
      read_rest-IsWellFormed (take 32 b) (drop 32 b) a (All-drop IsByte 32 b h)
        (omega (arith, length-take 32 b)) read
