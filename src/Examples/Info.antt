-- ===== src/Examples/Info.antt =====
-- Descriptions of an authenticator at concrete input.
use fido.Base.{◌≡◌, true, List, [], ◌∷◌, replicate}
use fido.Format.{text}
use fido.Info.{Info, info_text}
use fido.Info.Sorting.{AreOn, spelt, info_text-IsSorted}
use mathlib.Core.List.{Perm}
use mathlib.Core.Bool.{Bool}
use mathlib.Core.Bool.{false}
use fido.Errors.{Text}

abbrev pub described : Info
described = record {
  versions = (65 ∷ []) ∷ [];
  extensions = [];
  aaguid = replicate 16 0;
  options = [];
  max_msg_size = 2;
  pin_protocols = [];
  transports = [];
}

-- Three options, of which two are true.
abbrev walked : Info
walked = record described {
  options = (text "uv", true) ∷ (text "rk", true) ∷ (text "up", false) ∷ [];
}

info_text-IsSorted_example :
    (l : List Text) × AreOn walked.options l
    × (info_text walked ≡ spelt ((65 ∷ []) ∷ []) l)
    × ((m : List Text) → AreOn walked.options m → m ≡ l)
    × ((options : List (Text × Bool))
        → Perm walked.options options
        → info_text walked ≡ info_text (record walked { options = options }))
info_text-IsSorted_example = info_text-IsSorted walked
