-- ===== src/Ctap2.antt =====
-- ctap2.go and the helpers of credential.go: the CTAP2 commands over a key, `ctap2Ready`, `cborCall`
-- and `field`.
pub mod Exchange
pub mod Asked
pub mod Service
pub mod Answered
use fido.Base.{ℕ, if◌then◌else◌, not, none, some}
use fido.Base.{List, [], ◌∷◌}
use fido.Base.Bits.{Bytes}
use fido.Errors.{Result, ok, err, Member, no_ctap2, empty_reply, ctap_status, cannot_encode}
use fido.Errors.{missing_member, bad_member}
use fido.Framing.{cmd_cbor}
use fido.Init.{has, cap_cbor}
use fido.Transport.{Transport, M, ◌>>=◌, return, raise}
use fido.Session.{Key, name, round_trip}
use fido.Cbor.{Value, Cbor, Coded, got, bad, find}
use fido.Status.{is_refusal}

abbrev pub cmd_get_info : ℕ
cmd_get_info = 0x04

-- `field`: a required member of a reply.
unfoldable pub member_field :
    {A : Type 0} → (Bytes → Coded A) → List (ℕ × Bytes) → ℕ → Member → Result A
member_field decode raw key what = elim (find key raw) [
  | none ↦ err (missing_member what)
  | some m ↦ elim (decode m) [ got a ↦ ok a | bad cause ↦ err (bad_member what cause) ]
]

module _ {S : Type 0} (t : Transport S) where
  -- The reply to a CTAP2 command: its status byte is taken off.
  unfoldable pub take_status : Key → Bytes → M S Bytes
  unfolding is_refusal
  take_status k [] = name t k >>= λ n. raise (empty_reply n)
  take_status k (s ∷ body) =
      if is_refusal s then (name t k >>= λ n. raise (ctap_status n s)) else return body

  -- `CBOR`
  unfoldable pub cbor : ℕ → Key → ℕ → Bytes → M S Bytes
  cbor fuel k cmd params = do
    reply ← round_trip t fuel k cmd_cbor (cmd ∷ params)
    take_status k reply

  unfoldable pub ctap2_ready : Key → M S (Unit {0})
  ctap2_ready k =
      if not (has k.caps cap_cbor) then (name t k >>= λ n. raise (no_ctap2 n)) else return tt

module _ {S : Type 0} (t : Transport S) (c : Cbor) where
  unfoldable pub cbor_call : ℕ → Key → ℕ → Value → M S Bytes
  cbor_call fuel k cmd params = elim (c.marshal params) [
    | got b ↦ cbor t fuel k cmd b
    | bad cause ↦ raise (cannot_encode cause)
  ]
