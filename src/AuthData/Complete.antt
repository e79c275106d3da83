-- ===== src/AuthData/Complete.antt =====
-- `ParseAuthData` reads everything that the layout can hold.
use fido.Base.{ℕ, ◌/◌, ◌%◌, ◌<◌, ◌^◌, ◌≡◌, refl, sym, ap, ◌∙◌, arith, if◌then◌else◌}
use fido.Base.{true, false, Bool-cases, ltb, inl, inr, [], ◌∷◌, ◌++◌, length, take, drop}
use fido.Base.{length-append, take-append, drop-append, replicate}
use fido.Base.Bits.{Bytes, u16, u32, put_u16, put_u32, u16-put_u16, u32-put_u32}
use fido.Errors.{ok}
use fido.Init.{has}
use fido.Cbor.{Cbor, got}
use fido.AuthData.{AuthData, Attested, flag_at, flag_ed, unattested}
use fido.AuthData.{read_key, read_credential, read_attested, read_extensions, read_rest}
use fido.AuthData.{parse_auth_data}
use fido.AuthData.Layout.{attested_bytes, auth_bytes}
use fido.AuthData.Types.{IsWellFormed}

-- What the CBOR library documents of the decoder: behind bytes that are one item, it stops after them.
abbrev pub StopsAfterItems : Cbor → Type 0
StopsAfterItems c =
    (item rest : Bytes)
    → c.to_raw item ≡ got item
    → c.decode_first (item ++ rest) ≡ got (item, length item)

-- The parts of authenticator data that are CBOR are one item each, where a flag announces them.
pub record HoldsItems (c : Cbor) (a : AuthData) : Type 0 where
  pub key : has a.flags flag_at ≡ true → c.to_raw a.cose_key ≡ got a.cose_key
  pub extra : has a.flags flag_ed ≡ true → c.to_raw a.extensions ≡ got a.extensions

module _ (c : Cbor) (stops : StopsAfterItems c) where
  attested_part : AuthData → Attested
  attested_part a = record {
    aaguid = a.aaguid;
    credential_id = a.credential_id;
    cose_key = a.cose_key;
    rest = a.extensions;
  }

  read_key-item :
      (a : AuthData)
      → c.to_raw a.cose_key ≡ got a.cose_key
      → read_key c a.aaguid a.credential_id (a.cose_key ++ a.extensions) ≡ ok (attested_part a)
  unfolding read_key attested_part
  read_key-item a item =
      let left : drop (length a.cose_key) (a.cose_key ++ a.extensions) ≡ a.extensions =
        drop-append (length a.cose_key) a.cose_key a.extensions refl in
      ground (arith, stops a.cose_key a.extensions item, left)

  read_attested-attested_bytes :
      (a : AuthData)
      → length a.aaguid ≡ 16
      → length a.credential_id < 2 ^ 16
      → c.to_raw a.cose_key ≡ got a.cose_key
      → read_attested c (attested_bytes a.aaguid a.credential_id a.cose_key a.extensions)
        ≡ ok (attested_part a)
  unfolding read_attested read_credential
  read_attested-attested_bytes a size fits item =
      let id : Bytes = a.credential_id in
      let n : ℕ = length id in
      let tail : Bytes = id ++ (a.cose_key ++ a.extensions) in
      let front : take 16 (a.aaguid ++ put_u16 n tail) ≡ a.aaguid =
        take-append 16 a.aaguid (put_u16 n tail) size in
      let back : drop 16 (a.aaguid ++ put_u16 n tail) ≡ put_u16 n tail =
        drop-append 16 a.aaguid (put_u16 n tail) size in
      let long : ltb (length (a.aaguid ++ put_u16 n tail)) 18 ≡ false =
        ground (arith, length-append a.aaguid (put_u16 n tail)) in
      let count : u16 (n / 256 % 256) (n % 256) ≡ n = u16-put_u16 n fits in
      let within : ltb (length tail) n ≡ false =
        ground (arith, length-append id (a.cose_key ++ a.extensions)) in
      let first : take n tail ≡ id = take-append n id (a.cose_key ++ a.extensions) refl in
      let behind : drop n tail ≡ a.cose_key ++ a.extensions =
        drop-append n id (a.cose_key ++ a.extensions) refl in
      rw (long, front, back, count, within, first, behind) (read_key-item a item)

  read_extensions-auth :
      (a : AuthData) (t : Attested)
      → t.aaguid ≡ a.aaguid
      → t.credential_id ≡ a.credential_id
      → t.cose_key ≡ a.cose_key
      → t.rest ≡ a.extensions
      → (has a.flags flag_ed ≡ true → c.to_raw a.extensions ≡ got a.extensions)
      → (has a.flags flag_ed ≡ false → a.extensions ≡ [])
      → read_extensions c a.rp_id_hash a.flags a.sign_count t ≡ ok a
  unfolding read_extensions
  read_extensions-auth a t e1 e2 e3 e4 extra plain = elim (Bool-cases (has a.flags flag_ed)) [
    | inl on ↦
        let read : c.to_raw t.rest ≡ got a.extensions = ap c.to_raw e4 ∙ extra on in
        rw (on, read, e1, e2, e3) refl
    | inr off ↦
        let none : a.extensions ≡ [] = plain off in
        let left : t.rest ≡ [] = e4 ∙ none in
        rw (off, left, e1, e2, e3) (ap (λ x. ok (record a { extensions = x })) (sym none))
  ]

  read_rest-auth :
      (a : AuthData)
      → IsWellFormed a
      → HoldsItems c a
      → read_rest c a.rp_id_hash (drop 32 (auth_bytes a)) ≡ ok a
  unfolding read_rest
  read_rest-auth a w i =
      let count : u32 (a.sign_count / 0x1000000 % 256) (a.sign_count / 0x10000 % 256)
            (a.sign_count / 256 % 256) (a.sign_count % 256)
          ≡ a.sign_count =
        u32-put_u32 a.sign_count w.count in
      rw (drop-append 32 a.rp_id_hash _ w.hash, count)
        (elim (Bool-cases (has a.flags flag_at)) [
          | inl on ↦
              rw (on, read_attested-attested_bytes a w.identifier w.credential (i.key on))
                (unfold attested_part in
                  read_extensions-auth a (attested_part a) refl refl refl refl i.extra w.plain)
          | inr off ↦
              let (none, id, key) = w.bare off in
              rw off (
                read_extensions-auth a (unattested a.extensions) (unfold replicate in sym none)
                  (sym id) (sym key) refl i.extra w.plain)
        ])

  -- Authenticator data whose fields fit their types, with one CBOR item for each part that is CBOR, is
  -- read back from its layout. The decoder is assumed to stop behind an item.
  pub parse_auth_data-auth_bytes :
      (a : AuthData) → IsWellFormed a → HoldsItems c a → parse_auth_data c (auth_bytes a) ≡ ok a
  unfolding parse_auth_data
  parse_auth_data-auth_bytes a w i =
      let tail : Bytes =
        a.flags
        ∷ put_u32 a.sign_count (
            if has a.flags flag_at
            then attested_bytes a.aaguid a.credential_id a.cose_key a.extensions
            else a.extensions) in
      let long : ltb (length (a.rp_id_hash ++ tail)) 37 ≡ false =
        ground (arith, length-append a.rp_id_hash tail, w.hash) in
      rw (long, take-append 32 a.rp_id_hash _ w.hash) (read_rest-auth a w i)
