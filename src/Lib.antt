-- ===== src/Lib.antt =====
-- The FIDO client-to-authenticator protocol of this package: reports, messages and exchanges with a
-- security key, and the CTAP2 commands over them.
--
-- A message is cut into 64-byte reports and put together again from them (fido.go). A key opened over a
-- transport exchanges messages with its authenticator (key.go). CTAP2 commands are messages that hold a
-- command byte and CBOR, and their replies a status byte and CBOR (ctap2.go); on these stand the
-- description of an authenticator, the PIN protocols and their tokens (pinproto.go, clientpin.go), and
-- registrations and assertions (credential.go), whose authenticator data and public keys authdata.go
-- and cose.go read.
--
-- Files, and what they are about:
--
--   Framing        fido.go: Split and Message
--   Reassembly     fido.go: Reassembler, with Feed as a function from a reassembler and a report to an
--                  answer and a new reassembler
--   Init           fido.go: Capabilities, Version, InitReply and ParseInit
--   Transport      key.go: Transport, and the monad of the code that uses it
--   Session        key.go: Key, Open, Close, Ping, Wink and roundTrip; Session/Peer has an
--                  authenticator over the same framing, such as key_test.go plays, which
--                  Ctap2/Service, ClientPin/Granted and Credentials/Login speak to
--   Status, Ctap2  ctap2.go: Status and CBOR; credential.go: ctap2Ready, cborCall and field
--   Info           ctap2.go: Info, parseInfo and GetInfo
--   AuthData       authdata.go: Flags, AuthData and ParseAuthData
--   Cose           cose.go: PublicKey
--   PinProtocol    pinproto.go: deriveKeys, encrypt, decrypt, authenticate and pinHash
--   Agreement      pinproto.go: agree; clientpin.go: coseToECDH and ecdhToCOSE
--   ClientPin      clientpin.go: PINRetries, KeyAgreement, Token and PINToken
--   Requests       credential.go: the types of the requests and the maps that are sent
--   Credentials    credential.go: MakeCredential, GetAssertion and their replies
--   Lifetime       the exported methods of Key as the calls of a program, one after the other
--   Errors         each error of the package as a constructor, with what its text is made of
--   Base, Format   lists, bytes, 64-bit integers and the verbs of fmt that the texts use
--   Cbor           the CBOR library as an interface
--
-- The files below a component's folder hold what is proved about it; Examples runs the code and applies
-- the theorems at concrete input.
--
-- A byte is a number below 256, an integer of w bits a number with its wrap-around written out, and a
-- CBOR integer an integer of the library's kind. A command over a key is a function from the state of the
-- transport to an outcome and a new state. The outcome is a value, an error, a panic (a closed key has no
-- transport to call), or waiting: fuel has run out in the loop of roundTrip, which has no bound of its
-- own. Fuel counts the reports received, so fuel for the reports before an answer or before a failure of
-- the transport is enough. The fuel of CBC is the length of its input, which has fewer blocks.
--
-- Interfaces stand for what the package only calls: the transport, the sources of randomness, the CBOR
-- library (github.com/fxamacker/cbor), and SHA-256, HMAC, HKDF, the AES block cipher and ECDH. What is
-- assumed of them is a named hypothesis of the theorem that needs it. The curve equation of P-256 is
-- written out. The assigned order of a map's entries is kept, and their encoding is the library's. A
-- context's deadline is a failure of the transport. Not modelled: readerhelp.go, which makes a reader for
-- the CBOR decoder, and the choice of the library's CTAP2 encoding in credential.go, which is made once.
pub mod Base
pub mod Errors
pub mod Format
pub mod Init
pub mod Transport
pub mod Session
pub mod Cbor
pub mod Status
pub mod Ctap2
pub mod Info
pub mod AuthData
pub mod Cose
pub mod PinProtocol
pub mod Agreement
pub mod ClientPin
pub mod Requests
pub mod Credentials
pub mod Lifetime
pub mod Framing
pub mod Reassembly
pub mod Examples
