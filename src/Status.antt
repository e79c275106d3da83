-- ===== src/Status.antt =====
-- ctap2.go: `Status`, its names and its text.
use fido.Base.{ℕ, ◌==◌, if◌then◌else◌, Bool, not, Option, none, some, List, [], ◌∷◌, ◌++◌}
use fido.Errors.{Text}
use fido.Format.{text, hex_u8}

-- The byte that a CTAP2 reply begins with.
abbrev pub Status : Type 0
Status = ℕ

abbrev pub status_ok : Status
status_ok = 0x00

abbrev pub status_names : List (Status × Text)
status_names =
    (0x01, text "the command is not one this authenticator knows")
    ∷ (0x02, text "a parameter was wrong")
    ∷ (0x11, text "the CBOR held a type the command did not expect")
    ∷ (0x12, text "the CBOR was invalid")
    ∷ (0x24, text "an operation is already in progress")
    ∷ (0x27, text "the person refused")
    ∷ (0x2b, text "an option this authenticator does not support")
    ∷ (0x2e, text "no credential the authenticator holds matches")
    ∷ (0x2f, text "the person did not act in time")
    ∷ (0x31, text "the PIN was wrong")
    ∷ (
      0x32,
      text
          "the PIN is blocked: no tries are left, and only a reset, which erases the credentials, unblocks it",
    )
    ∷ (0x33, text "the PIN token was not accepted")
    ∷ (0x34, text "too many wrong PINs in a row; unplug the key and plug it in again")
    ∷ (0x35, text "no PIN is set on this authenticator")
    ∷ (0x36, text "a PIN is required and none was given")
    ∷ (0x37, text "the PIN does not meet the authenticator's policy")
    ∷ (0x3a, text "the person did not touch the key in time")
    ∷ (0x3b, text "the key needs to be touched")
    ∷ []

-- `Status.Error`
unfoldable pub is_refusal : Status → Bool
is_refusal s = not (s == status_ok)

unfoldable pub status_name : Status → List (Status × Text) → Option Text
status_name s [] = none
status_name s ((code, name) ∷ rest) = if code == s then some name else status_name s rest

unfoldable pub status_text : Status → Text
unfolding status_name
status_text s = if s == status_ok then text "ok" else elim (status_name s status_names) [
  | some name ↦ name ++ text " (" ++ hex_u8 s ++ text ")"
  | none ↦ text "CTAP2 status " ++ hex_u8 s
]
