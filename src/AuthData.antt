-- ===== src/AuthData.antt =====
-- authdata.go: `Flags`, `AuthData` and `ParseAuthData`, and the texts of these types.
pub mod Layout
pub mod Types
pub mod Complete
use fido.Base.{ℕ, ◌+◌, ltb, ◌==◌, if◌then◌else◌, Bool, min, List, [], ◌∷◌, ◌++◌, length, is_empty}
use fido.Base.{take, drop}
use fido.Base.Bits.{Bytes, u16, u32}
use fido.Errors.{Text, Result, ok, err, ◌>>=◌}
use fido.Errors.{short_header, short_attested, short_credential, bad_public_key, bad_extensions}
use fido.Errors.{trailing_bytes}
use fido.Format.{text, join, decimal, hex_u8, hex_bytes}
use fido.Init.{has}
use fido.Cbor.{Cbor, got, bad}

-- A byte of flag bits.
abbrev pub Flags : Type 0
Flags = ℕ

abbrev pub flag_up : Flags
flag_up = 0x01

abbrev pub flag_uv : Flags
flag_uv = 0x04

abbrev pub flag_be : Flags
flag_be = 0x08

abbrev pub flag_bs : Flags
flag_bs = 0x10

abbrev pub flag_at : Flags
flag_at = 0x40

abbrev pub flag_ed : Flags
flag_ed = 0x80

abbrev flag_names : List (Flags × Text)
flag_names =
    (flag_up, text "present")
    ∷ (flag_uv, text "verified")
    ∷ (flag_be, text "backup-eligible")
    ∷ (flag_bs, text "backed-up")
    ∷ (flag_at, text "attested")
    ∷ (flag_ed, text "extensions")
    ∷ []

set_flags : Flags → List (Flags × Text) → List Text
set_flags f [] = []
set_flags f ((bit, name) ∷ names) =
    if has f bit then name ∷ set_flags f names else set_flags f names

unfoldable pub flags_text : Flags → Text
unfolding set_flags
flags_text f =
    let on : List Text = set_flags f flag_names in
    if is_empty on then text "none (" ++ hex_u8 f ++ text ")" else join on (text ", ")

pub record AuthData : Type 0 where
  pub rp_id_hash : Bytes
  pub flags : Flags
  pub sign_count : ℕ
  pub aaguid : Bytes
  pub credential_id : Bytes
  pub cose_key : Bytes
  pub extensions : Bytes

-- The bytes of U+2026, which follows the digits of a hash that is cut short.
abbrev ellipsis : Text
ellipsis = 0xe2 ∷ 0x80 ∷ 0xa6 ∷ []

unfoldable pub auth_data_text : AuthData → Text
auth_data_text a =
    let s : Text =
      text "rp "
      ++ hex_bytes (take 4 a.rp_id_hash)
      ++ ellipsis
      ++ text ", "
      ++ flags_text a.flags
      ++ text ", count "
      ++ decimal a.sign_count in
    if is_empty a.credential_id
    then s
    else s
      ++ text ", credential "
      ++ hex_bytes (take (min 4 (length a.credential_id)) a.credential_id)
      ++ ellipsis
      ++ text " ("
      ++ decimal (length a.credential_id)
      ++ text " bytes)"

abbrev pub auth_data_header : ℕ
auth_data_header = 37

abbrev pub aaguid_len : ℕ
aaguid_len = 16

abbrev pub credential_id_size : ℕ
credential_id_size = 2

-- The bytes that `FlagAT` announces, and what follows them.
pub record Attested : Type 0 where
  pub aaguid : Bytes
  pub credential_id : Bytes
  pub cose_key : Bytes
  pub rest : Bytes

abbrev unattested : Bytes → Attested
unattested rest = record { aaguid = zeros; credential_id = []; cose_key = []; rest = rest }
  where
    zeros : Bytes
    zeros = 0 ∷ 0 ∷ 0 ∷ 0 ∷ 0 ∷ 0 ∷ 0 ∷ 0 ∷ 0 ∷ 0 ∷ 0 ∷ 0 ∷ 0 ∷ 0 ∷ 0 ∷ 0 ∷ []

module _ (c : Cbor) where
  -- The public key: one CBOR item, whose length the decoder tells.
  unfoldable pub read_key : Bytes → Bytes → Bytes → Result Attested
  read_key aaguid id rest = elim (c.decode_first rest) [
    | got (key, used) ↦
        ok (record { aaguid = aaguid; credential_id = id; cose_key = key; rest = drop used rest })
    | bad cause ↦ err (bad_public_key cause)
  ]

  -- The credential id, behind its length.
  unfoldable pub read_credential : Bytes → Bytes → Result Attested
  read_credential aaguid (hi ∷ lo ∷ rest) =
      let n = u16 hi lo in
      if ltb (length rest) n
      then err (short_credential n (length rest))
      else read_key aaguid (take n rest) (drop n rest)
  read_credential aaguid rest = err (short_attested (16 + length rest))

  unfoldable pub read_attested : Bytes → Result Attested
  read_attested rest =
      if ltb (length rest) (aaguid_len + credential_id_size)
      then err (short_attested (length rest))
      else read_credential (take aaguid_len rest) (drop aaguid_len rest)

  -- The end of `ParseAuthData`: extensions if their flag is set, and nothing otherwise.
  unfoldable pub read_extensions : Bytes → Flags → ℕ → Attested → Result AuthData
  read_extensions hash flags count a =
      if has flags flag_ed
      then elim (c.to_raw a.rest) [
        | got ext ↦ ok (parsed ext)
        | bad cause ↦ err (bad_extensions cause)
      ]
      else if is_empty a.rest
      then ok (parsed [])
      else err (trailing_bytes (length a.rest))
    where
      parsed : Bytes → AuthData
      parsed ext = record {
        rp_id_hash = hash;
        flags = flags;
        sign_count = count;
        aaguid = a.aaguid;
        credential_id = a.credential_id;
        cose_key = a.cose_key;
        extensions = ext;
      }

  -- The bytes behind the hash.
  unfoldable pub read_rest : Bytes → Bytes → Result AuthData
  read_rest hash (flags ∷ n3 ∷ n2 ∷ n1 ∷ n0 ∷ rest) = do
    a ← (if has flags flag_at then read_attested rest else ok (unattested rest))
    read_extensions hash flags (u32 n3 n2 n1 n0) a
  read_rest hash rest = err (short_header (length hash + length rest))

  unfoldable pub parse_auth_data : Bytes → Result AuthData
  parse_auth_data b =
      if ltb (length b) auth_data_header
      then err (short_header (length b))
      else read_rest (take 32 b) (drop 32 b)
