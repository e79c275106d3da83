-- ===== src/Init.antt =====
-- fido.go: `Capabilities`, `Version`, `InitReply` and `ParseInit`, and the texts of these types.
pub mod Laws
use fido.Base.{
  ℕ, ◌+◌, ◌==◌, if◌then◌else◌, Bool, not, List, [], ◌∷◌, ◌++◌, length, is_empty, bit_and,
}
use fido.Base.Bits.{Bytes, u32}
use fido.Errors.{Text, Result, ok, err, truncated}
use fido.Format.{text, decimal, hex_u8, hex_u32}
use fido.Framing.{Message}

-- A byte of capability bits.
abbrev pub Capabilities : Type 0
Capabilities = ℕ

abbrev pub cap_wink : Capabilities
cap_wink = 0x01

abbrev pub cap_cbor : Capabilities
cap_cbor = 0x04

abbrev pub cap_no_msg : Capabilities
cap_no_msg = 0x08

-- `Has`, of `Capabilities` and of `Flags` alike: every bit of `want` is set in `c`.
unfoldable pub has : ℕ → ℕ → Bool
has c want = bit_and c want == want

-- The closure `add` of `Capabilities.String`.
abbrev add : Text → Text → Text
add out s = if is_empty out then s else out ++ text ", " ++ s

unfoldable pub capabilities_text : Capabilities → Text
capabilities_text c =
    let out₁ : Text = if has c cap_wink then add [] (text "wink") else [] in
    let out₂ : Text = if has c cap_cbor then add out₁ (text "ctap2") else out₁ in
    let out₃ : Text = if not (has c cap_no_msg) then add out₂ (text "ctap1") else out₂ in
    if is_empty out₃ then text "none (" ++ hex_u8 c ++ text ")" else out₃

pub record Version : Type 0 where
  pub ctaphid : ℕ
  pub major : ℕ
  pub minor : ℕ
  pub build : ℕ

unfoldable pub version_text : Version → Text
version_text v =
    text "CTAPHID v"
    ++ decimal v.ctaphid
    ++ text ", firmware "
    ++ decimal v.major
    ++ text "."
    ++ decimal v.minor
    ++ text "."
    ++ decimal v.build

unfoldable pub message_text : Message → Text
message_text m =
    text "channel "
    ++ hex_u32 m.channel
    ++ text " cmd "
    ++ hex_u8 m.cmd
    ++ text ", "
    ++ decimal (length m.content)
    ++ text " byte(s)"

pub record InitReply : Type 0 where
  pub nonce : Bytes
  pub channel : ℕ
  pub version : Version
  pub caps : Capabilities

-- The patterns are the slices of `data`: bytes 0 to 7, 8 to 11, 12 to 15 and 16.
unfoldable pub parse_init : Bytes → Result InitReply
parse_init
      (n0 ∷ n1 ∷ n2 ∷ n3 ∷ n4 ∷ n5 ∷ n6 ∷ n7 ∷ c3 ∷ c2 ∷ c1 ∷ c0 ∷ v ∷ major ∷ minor ∷ build ∷ caps
        ∷ _) =
    ok (record {
      nonce = n0 ∷ n1 ∷ n2 ∷ n3 ∷ n4 ∷ n5 ∷ n6 ∷ n7 ∷ [];
      channel = u32 c3 c2 c1 c0;
      version = record { ctaphid = v; major = major; minor = minor; build = build };
      caps = caps;
    })
parse_init _ = err truncated
