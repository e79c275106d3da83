-- ===== src/Requests.antt =====
-- credential.go: what a registration and an assertion ask for, and the maps that are sent for them.
pub mod Entries
use fido.Base.{ℕ, if◌then◌else◌, Bool, not, List, [], ◌∷◌, is_empty}
use fido.Base.Bits.{Bytes}
use fido.Base.Int.{ℤ, pos}
use fido.Errors.{Text, Result, ok, err, no_client_data_hash, no_relying_party, no_user_handle}
use fido.Errors.{registering, asserting}
use fido.Format.{text}
use fido.Cbor.{Value, num, bool, bytes, str, arr, labels, names, Items, nil, cons}
use fido.Cbor.{Labels, entry, end, Names, member, stop}
use fido.Cose.{alg_es256}
use fido.PinProtocol.{Crypto}
use fido.ClientPin.{Token, token_protocol, is_valid, auth_param}

abbrev pub cmd_make_credential : ℕ
cmd_make_credential = 0x01

abbrev pub cmd_get_assertion : ℕ
cmd_get_assertion = 0x02

-- The parameter keys of a registration, and of an assertion.
abbrev pub mc_client_data_hash : ℕ
mc_client_data_hash = 0x01

abbrev pub mc_rp : ℕ
mc_rp = 0x02

abbrev pub mc_user : ℕ
mc_user = 0x03

abbrev pub mc_pub_key_cred_params : ℕ
mc_pub_key_cred_params = 0x04

abbrev pub mc_exclude_list : ℕ
mc_exclude_list = 0x05

abbrev pub mc_options : ℕ
mc_options = 0x07

abbrev pub mc_pin_uv_auth_param : ℕ
mc_pin_uv_auth_param = 0x08

abbrev pub mc_pin_uv_auth_protocol : ℕ
mc_pin_uv_auth_protocol = 0x09

abbrev pub ga_rp_id : ℕ
ga_rp_id = 0x01

abbrev pub ga_client_data_hash : ℕ
ga_client_data_hash = 0x02

abbrev pub ga_allow_list : ℕ
ga_allow_list = 0x03

abbrev pub ga_options : ℕ
ga_options = 0x05

abbrev pub ga_pin_uv_auth_param : ℕ
ga_pin_uv_auth_param = 0x06

abbrev pub ga_pin_uv_auth_protocol : ℕ
ga_pin_uv_auth_protocol = 0x07

pub record RelyingParty : Type 0 where
  pub id : Text
  pub name : Text

pub record User : Type 0 where
  pub id : Bytes
  pub name : Text
  pub display_name : Text

pub record Credential : Type 0 where
  pub kind : Text
  pub id : Bytes
  pub transports : List Text

pub record MakeCredentialRequest : Type 0 where
  pub client_data_hash : Bytes
  pub rp : RelyingParty
  pub user : User
  pub algorithms : List ℤ
  pub exclude : List Credential
  pub options : List (Text × Bool)
  pub token : Token

pub record GetAssertionRequest : Type 0 where
  pub rp_id : Text
  pub client_data_hash : Bytes
  pub allow : List Credential
  pub options : List (Text × Bool)
  pub token : Token

abbrev public_key_type : Text
public_key_type = text "public-key"

unfoldable pub user_map : User → Value
user_map u = names (
    member (text "id") (bytes u.id)
      (if is_empty u.name then shown else member (text "name") (str u.name) shown))
  where
    shown : Names
    shown =
        if is_empty u.display_name
        then stop
        else member (text "displayName") (str u.display_name) stop

unfoldable pub text_items : List Text → Items
text_items [] = nil
text_items (t ∷ ts) = cons (str t) (text_items ts)

-- One credential of a list. A type that is not given is "public-key".
unfoldable pub descriptor : Credential → Value
unfolding text_items
descriptor c = names (
    member (text "type") (str (if is_empty c.kind then public_key_type else c.kind)) (
      member (text "id") (bytes c.id) (
        if is_empty c.transports
        then stop
        else member (text "transports") (arr (text_items c.transports)) stop)))

unfoldable pub descriptors : List Credential → Items
descriptors [] = nil
descriptors (c ∷ creds) = cons (descriptor c) (descriptors creds)

unfoldable pub algorithm_items : List ℤ → Items
algorithm_items [] = nil
algorithm_items (a ∷ algs) =
    cons (names (member (text "alg") (num a) (member (text "type") (str public_key_type) stop)))
      (algorithm_items algs)

unfoldable pub option_names : List (Text × Bool) → Names
option_names [] = stop
option_names ((k, v) ∷ options) = member k (bool v) (option_names options)

-- The two entries that a valid token adds, under their keys: the client data hash authenticated
-- under the token, and the token's protocol.
unfoldable pub token_entries : Crypto → ℕ → ℕ → Token → Bytes → Labels
token_entries y param protocol token hash =
    if is_valid token
    then entry (pos param) (bytes (auth_param y token hash))
        (entry (pos protocol) (num (token_protocol token)) end)
    else end

-- An entry that is left out where there is nothing to put in.
abbrev when : Bool → ℕ → Value → Labels → Labels
when b key v more = if b then entry (pos key) v more else more

unfoldable pub make_request : Crypto → MakeCredentialRequest → Value
make_request y r = labels (
    entry (pos mc_client_data_hash) (bytes r.client_data_hash) (
      entry (pos mc_rp)
        (names (member (text "id") (str r.rp.id) (member (text "name") (str r.rp.name) stop)))
        (entry (pos mc_user) (user_map r.user) (
          entry (pos mc_pub_key_cred_params)
            (arr (algorithm_items (if is_empty r.algorithms then alg_es256 ∷ [] else r.algorithms)))
            (when (not (is_empty r.exclude)) mc_exclude_list (arr (descriptors r.exclude)) (
              when (not (is_empty r.options)) mc_options (names (option_names r.options)) (
                token_entries y mc_pin_uv_auth_param mc_pin_uv_auth_protocol r.token
                  r.client_data_hash)))))))

unfoldable pub get_request : Crypto → GetAssertionRequest → Value
get_request y r = labels (
    entry (pos ga_rp_id) (str r.rp_id) (
      entry (pos ga_client_data_hash) (bytes r.client_data_hash) (
        when (not (is_empty r.allow)) ga_allow_list (arr (descriptors r.allow)) (
          when (not (is_empty r.options)) ga_options (names (option_names r.options)) (
            token_entries y ga_pin_uv_auth_param ga_pin_uv_auth_protocol r.token
              r.client_data_hash)))))

-- The guards in front of the requests.
unfoldable pub check_make : MakeCredentialRequest → Result (Unit {0})
check_make r =
    if is_empty r.client_data_hash
    then err (no_client_data_hash registering)
    else if is_empty r.rp.id
    then err (no_relying_party registering)
    else if is_empty r.user.id
    then err no_user_handle
    else ok tt

unfoldable pub check_get : GetAssertionRequest → Result (Unit {0})
check_get r =
    if is_empty r.rp_id
    then err (no_relying_party asserting)
    else if is_empty r.client_data_hash
    then err (no_client_data_hash asserting)
    else ok tt
