-- ===== src/Info.antt =====
-- ctap2.go: `Info`, `parseInfo` and `GetInfo`, and the text of `Info`.
pub mod Fields
pub mod Query
pub mod Order
pub mod Sorting
use fido.Base.{ℕ, ltb, ◌==◌, if◌then◌else◌, Bool, not, true, false, ◌&&◌, ◌||◌}
use fido.Base.{none, some, List, [], ◌∷◌, ◌++◌, length, is_empty, bytes_eq}
use fido.Base.Bits.{Bytes}
use fido.Errors.{Text, Result, ok, err, ◌>>=◌, description, no_description, not_a_map}
use fido.Errors.{bad_field, bad_identifier, no_version, no_ctap2}
use fido.Format.{text, join}
use fido.Framing.{copy_into}
use fido.Init.{has, cap_cbor}
use fido.Transport.{Transport, M, raise, from}
use fido.Transport
use fido.Session.{Key, name}
use fido.Cbor.{Cbor, Coded, got, bad, find}
use fido.Ctap2.{cbor, cmd_get_info}

pub record Info : Type 0 where
  pub versions : List Text
  pub extensions : List Text
  pub aaguid : Bytes
  pub options : List (Text × Bool)
  pub max_msg_size : ℕ
  pub pin_protocols : List ℕ
  pub transports : List Text

-- `Info.Has`: a key that a Go map lacks reads as false.
unfoldable pub has_option : List (Text × Bool) → Text → Bool
has_option [] option = false
has_option ((k, v) ∷ options) option = if bytes_eq k option then v else has_option options option

-- The order of Go strings, by bytes, and `sort.Strings`.
unfoldable pub text_le : Text → Text → Bool
text_le [] t = true
text_le (a ∷ s) [] = false
text_le (a ∷ s) (b ∷ t) = ltb a b || ((a == b) && text_le s t)

unfoldable pub insert_text : Text → List Text → List Text
insert_text s [] = s ∷ []
insert_text s (t ∷ ts) = if text_le s t then s ∷ t ∷ ts else t ∷ insert_text s ts

unfoldable pub sort_texts : List Text → List Text
sort_texts [] = []
sort_texts (s ∷ ts) = insert_text s (sort_texts ts)

-- The options that are true, in the order in which the map is walked.
unfoldable pub enabled : List (Text × Bool) → List Text
enabled [] = []
enabled ((k, v) ∷ options) = if v then k ∷ enabled options else enabled options

-- `Info.String`
unfoldable pub info_text : Info → Text
info_text i =
    let on : List Text = sort_texts (enabled i.options) in
    let joined : Text = join i.versions (text ", ") in
    let versions : Text = if is_empty joined then text "no version stated" else joined in
    if is_empty on then versions else versions ++ text "; " ++ join on (text ", ")

abbrev pub info_versions : ℕ
info_versions = 0x01

abbrev pub info_extensions : ℕ
info_extensions = 0x02

abbrev pub info_aaguid : ℕ
info_aaguid = 0x03

abbrev pub info_options : ℕ
info_options = 0x04

abbrev pub info_max_msg_size : ℕ
info_max_msg_size = 0x05

abbrev pub info_pin_protocols : ℕ
info_pin_protocols = 0x06

abbrev pub info_transports : ℕ
info_transports = 0x09

-- The closure `get` of `parseInfo`: a field that is missing keeps its zero value.
unfoldable pub optional : {A : Type 0} → (Bytes → Coded A) → A → List (ℕ × Bytes) → ℕ → Result A
optional decode absent raw key = elim (find key raw) [
  | none ↦ ok absent
  | some r ↦ elim (decode r) [ got a ↦ ok a | bad cause ↦ err (bad_field key cause) ]
]

-- The end of `parseInfo`: the identifier has 16 bytes or is missing, and there is a version.
unfoldable pub checked_info : Info → Result Info
checked_info i =
    if (length i.aaguid == 0) || (length i.aaguid == 16)
    then if is_empty i.versions
      then err no_version
      else ok (record i { aaguid = copy_into 16 i.aaguid })
    else err (bad_identifier (length i.aaguid))

module _ (c : Cbor) where
  -- The loop of `parseInfo` over the fields, in its order.
  unfoldable pub read_fields : List (ℕ × Bytes) → Result Info
  read_fields raw = do
    versions ← optional c.to_texts [] raw info_versions
    extensions ← optional c.to_texts [] raw info_extensions
    aaguid ← optional c.to_bytes [] raw info_aaguid
    options ← optional c.to_options [] raw info_options
    size ← optional c.to_uint 0 raw info_max_msg_size
    protocols ← optional c.to_uints [] raw info_pin_protocols
    transports ← optional c.to_texts [] raw info_transports
    ok (record {
      versions = versions;
      extensions = extensions;
      aaguid = aaguid;
      options = options;
      max_msg_size = size;
      pin_protocols = protocols;
      transports = transports;
    })

  unfoldable pub parse_info : Bytes → Result Info
  parse_info [] = err no_description
  parse_info (b ∷ body) = elim (c.to_map (b ∷ body)) [
    | got raw ↦ read_fields raw >>= checked_info
    | bad cause ↦ err (not_a_map description cause)
  ]

  unfoldable pub get_info : {S : Type 0} → Transport S → ℕ → Key → M S Info
  get_info t fuel k =
      if not (has k.caps cap_cbor)
      then Transport.◌>>=◌ (name t k) (λ n. raise (no_ctap2 n))
      else Transport.◌>>=◌ (cbor t fuel k cmd_get_info []) (λ body. from (parse_info body))
