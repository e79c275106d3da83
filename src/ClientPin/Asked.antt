-- ===== src/ClientPin/Asked.antt =====
-- What `PINToken` asks the authenticator for.
use fido.Base.{ℕ, ◌≡◌}
use fido.Base.{none, some, [], ◌∷◌, is_empty, if◌then◌else◌, ◌==◌, ◌||◌}
use fido.Base.Bits.{Bytes}
use fido.Base.Int.{ℤ, pos}
use fido.Errors.{Text}
use fido.Cbor.{Cbor, Value, num, bytes, str}
use fido.Cbor.Entries.{held, request_keys}
use fido.Ctap2.{cbor_call}
use fido.Transport.{Transport, Random, value}
use fido.Session.{Key}
use fido.PinProtocol.{Crypto, pin_hash}
use fido.Agreement.{agree}
use fido.ClientPin.{Token}

-- What is sent for a token: the protocol, the subcommand, which is 5 (getPinToken) with permissions of
-- zero and 9 (getPinUvAuthTokenUsingPinWithPermissions) otherwise, the platform's key and the hidden
-- PIN; with permissions these, and with permissions and a relying party that one; and nothing else.
abbrev pub TokenEntries : ℤ → Value → Bytes → ℕ → Text → Value → Type 0
TokenEntries proto own enc perms rp_id m =
    (held 1 m ≡ some (num proto))
    × (held 2 m ≡ some (num (pos (if perms == 0 then 5 else 9))))
    × (held 3 m ≡ some own)
    × (held 6 m ≡ some (bytes enc))
    × (held 7 m ≡ (if perms == 0 then none else some (num (pos perms))))
    × (held 8 m ≡ (if (perms == 0) || is_empty rp_id then none else some (str rp_id)))
    × (request_keys m
        ≡ pos 1
          ∷ pos 2
          ∷ pos 3
          ∷ pos 6
          ∷ (if perms == 0 then [] else pos 7 ∷ (if is_empty rp_id then [] else pos 8 ∷ [])))

module _ (c : Cbor) {S : Type 0} (t : Transport S) (y : Crypto) (r : Random S) where
  -- The last command of an exchange that ends in `s'` with the token `tok`: its request holds the
  -- platform's key of the agreement that gave the token's keys, and the PIN hidden under these.
  pub record Asked (fuel perms : ℕ) (k : Key) (pin rp_id : Text) (proto : ℤ) (s' : S) (tok : Token)
      : Type 0 where
    pub point : Bytes
    pub own : Value
    pub enc : Bytes
    pub sent : Value
    pub body : Bytes
    pub offered : S
    pub agreed : S
    pub hidden : S
    pub agreement : agree y r proto point offered ≡ (value (own, tok.keys), agreed)
    pub hiding : pin_hash y r tok.keys pin agreed ≡ (value enc, hidden)
    pub entries : TokenEntries proto own enc perms rp_id sent
    pub answer : cbor_call t c fuel k 0x06 sent hidden ≡ (value body, s')
