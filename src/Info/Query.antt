-- ===== src/Info/Query.antt =====
-- `GetInfo`: which replies come to a description, and to which.
use fido.Base.{ℕ, ◌≡◌, ◌≢◌, ◌↔◌, arith, true, Bool-cases, inl, inr, []}
use fido.Base.Bits.{Bytes}
use fido.Init.{has, cap_cbor}
use fido.Transport.{Transport, value}
use fido.Session.{Key, name}
use fido.Cbor.{Cbor}
use fido.Ctap2.{cbor, cmd_get_info}
use fido.Ctap2.Asked.{call-value}
use fido.Info.{Info, parse_info, get_info}
use fido.Info.Fields.{Described, parse_info-Described}

module _ (c : Cbor) {S : Type 0} (t : Transport S) (fuel : ℕ) (k : Key) where
  -- `GetInfo` returns a description exactly if the key speaks CTAP2 and the reply to its command is
  -- not empty and is a map that describes it: each field is the decoded member of the map, or the
  -- zero value if the map has no such member, it names a version, and the identifier in the map has
  -- 16 bytes or is missing.
  pub get_info-Described :
      (s s' : S) (i : Info)
      → (get_info c t fuel k s ≡ (value i, s'))
        ↔ (has k.caps cap_cbor ≡ true)
          × ((body : Bytes) × (cbor t fuel k cmd_get_info [] s ≡ (value body, s'))
              × (body ≢ [])
              × Described c body i)
  unfolding get_info name
  get_info-Described s s' i =
      let asked = call-value t k (cbor t fuel k cmd_get_info []) (parse_info c) s s' i in
      elim (Bool-cases (has k.caps cap_cbor)) [
        | inr off ↦ ((λ h. absurd (ground arith)), (λ (on, _). cc))
        | inl on ↦ (
          (λ h.
              let (body, found, read) = asked.0 (rw on at h) in
              let (there, holds) = (parse_info-Described c body i).0.0 read in
              (on, (body, found, there, holds))),
          (λ (_, (body, found, there, holds)).
              rw on (asked.1 (body, found, (parse_info-Described c body i).0.1 (there, holds)))),
        )
      ]
