-- ===== src/Cbor.antt =====
-- The CBOR library that the source calls, github.com/fxamacker/cbor, as an interface: what can be
-- encoded, and one decoder for each type that the source decodes into.
pub mod Entries
use fido.Base.{
  ◌≡◌, refl, ◌⊎◌, inl, inr, ℕ, Bool, List, [], ◌∷◌, Option, none, some, ◌==◌, if◌then◌else◌,
}
use fido.Base.Bits.{Bytes}
use fido.Base.Int.{ℤ, int_eq}
use fido.Errors.{Text}

-- The values that requests are made of: `map[int]any` and `map[int64]any`, `map[string]any`, lists of
-- these, strings, byte strings, integers and booleans.
mutual
  pub data Value : Type 0 where
    num : ℤ → Value
    bool : Bool → Value
    bytes : Bytes → Value
    str : Text → Value
    arr : Items → Value
    labels : Labels → Value
    names : Names → Value

  pub data Items : Type 0 where
    nil : Items
    cons : Value → Items → Items

  -- The entries of a map, in the order in which they were assigned.
  pub data Labels : Type 0 where
    end : Labels
    entry : ℤ → Value → Labels → Labels

  pub data Names : Type 0 where
    stop : Names
    member : Text → Value → Names → Names

-- What the library answers: a value, or an error with its text.
pub data Coded {ℓ} (A : Type ℓ) : Type ℓ where
  got : A → Coded A
  bad : Text → Coded A

pub Coded-cases : {A : Type 0} (x : Coded A) → ((a : A) × (x ≡ got a)) ⊎ ((e : Text) × (x ≡ bad e))
Coded-cases (got a) = inl (a, refl)
Coded-cases (bad e) = inr (e, refl)

pub record Cbor : Type 0 where
  -- `ctap2.Marshal`
  pub marshal : Value → Coded Bytes
  -- `cbor.Unmarshal`, into each of the types.
  pub to_map : Bytes → Coded (List (ℕ × Bytes))
  pub to_int_map : Bytes → Coded (List (ℤ × Bytes))
  pub to_raw : Bytes → Coded Bytes
  pub to_bytes : Bytes → Coded Bytes
  pub to_text : Bytes → Coded Text
  pub to_texts : Bytes → Coded (List Text)
  pub to_options : Bytes → Coded (List (Text × Bool))
  pub to_uint : Bytes → Coded ℕ
  pub to_uints : Bytes → Coded (List ℕ)
  pub to_int : Bytes → Coded ℤ
  pub to_bool : Bytes → Coded Bool
  pub to_credential : Bytes → Coded (Text × Bytes)
  pub to_user : Bytes → Coded Bytes
  -- `Decoder.Decode` into a raw message, with `NumBytesRead`.
  pub decode_first : Bytes → Coded (Bytes × ℕ)

-- A lookup in a decoded map.
unfoldable pub find : ℕ → List (ℕ × Bytes) → Option Bytes
find key [] = none
find key ((k, r) ∷ raw) = if k == key then some r else find key raw

unfoldable pub find_label : ℤ → List (ℤ × Bytes) → Option Bytes
find_label key [] = none
find_label key ((k, r) ∷ raw) = if int_eq k key then some r else find_label key raw
