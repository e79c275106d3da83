-- ===== src/Requests/Entries.antt =====
-- What the requests hold under which key.
use fido.Base.{◌≡◌, arith, if◌then◌else◌}
use fido.Base.{Option, none, some, List, is_empty}
use fido.Base.Bits.{Bytes}
use fido.Cbor.{Value, num, bytes, str, arr, names}
use fido.Cbor.Entries.{held}
use fido.PinProtocol.{Crypto, authenticate}
use fido.ClientPin.{Token, is_valid, auth_param}
use fido.Requests.{
  MakeCredentialRequest, GetAssertionRequest, make_request, get_request, token_entries,
}
use fido.Requests.{descriptors, option_names}

-- A list or a map is sent only if there is something in it.
abbrev pub unless_empty {ℓ} : {A : Type ℓ} → List A → Value → Option Value
unless_empty l v = if is_empty l then none else some v

-- What the requests hold of a token: nothing if there is none, and otherwise the client data hash
-- authenticated under the token's bytes, and the token's protocol.
abbrev pub Authorises : Crypto → Token → Bytes → Option Value → Option Value → Type 0
Authorises y token hash param protocol =
    if is_empty token.raw
    then (param ≡ none) × (protocol ≡ none)
    else (param
        ≡ some
            (bytes (authenticate y (record token.keys { aes = token.raw; hmac = token.raw }) hash)))
      × (protocol ≡ some (num token.keys.proto))

-- What a registration and an assertion are sent as.
abbrev pub MakeEntries : Crypto → MakeCredentialRequest → Value → Type 0
MakeEntries y r m =
    (held 1 m ≡ some (bytes r.client_data_hash))
    × (held 5 m ≡ unless_empty r.exclude (arr (descriptors r.exclude)))
    × (held 7 m ≡ unless_empty r.options (names (option_names r.options)))
    × Authorises y r.token r.client_data_hash (held 8 m) (held 9 m)

abbrev pub GetEntries : Crypto → GetAssertionRequest → Value → Type 0
GetEntries y r m =
    (held 1 m ≡ some (str r.rp_id))
    × (held 2 m ≡ some (bytes r.client_data_hash))
    × (held 3 m ≡ unless_empty r.allow (arr (descriptors r.allow)))
    × (held 5 m ≡ unless_empty r.options (names (option_names r.options)))
    × Authorises y r.token r.client_data_hash (held 6 m) (held 7 m)

-- A registration and an assertion hold the client data hash, and have a list of credentials or
-- options exactly when there are any. With a token they hold that same hash authenticated under the
-- token's bytes, and the token's protocol; without one they hold neither. An assertion also holds its
-- relying party.
pub requests_entries :
    (y : Crypto) (r : MakeCredentialRequest) (q : GetAssertionRequest)
    → MakeEntries y r (make_request y r) × GetEntries y q (get_request y q)
unfolding make_request get_request token_entries is_valid auth_param
requests_entries y r q = ground arith
