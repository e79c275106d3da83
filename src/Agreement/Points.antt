-- ===== src/Agreement/Points.antt =====
-- The keys that are agreed with: points of the curve, which survive the way through COSE.
use fido.Base.{ℕ, ◌≡◌, refl, sym, ◌∙◌, subst, arith, true, Bool-cases}
use fido.Base.{inl, inr, List, [], ◌∷◌, ◌++◌, length, take, drop, get_or, All, take-append-drop}
use fido.Base.{length-take, length-drop}
use mathlib.Core.Path.{ap₂}
use fido.Base.Bits.{Bytes, IsByte}
use fido.Base.Int.{ℤ}
use fido.Errors.{ok, bind-eq-ok, Coordinate, agreement_key}
use fido.Cbor.{Cbor, Coded-cases, Value, bytes, labels, Labels, entry, end, got}
use fido.Cose.{number, is_on_curve, read_coordinate, cose_x, cose_y}
use fido.Cose.Sound.{read_coordinate-Member, OnCurve, Member, is_on_curve-OnCurve}
use fido.Agreement.{is_point, point_of, read_agreement_key, cose_to_ecdh, ecdh_to_cose, cose_labels}
use fido.Agreement.Keys.{ecdh_to_cose_lem}

-- An uncompressed point of P-256.
abbrev pub IsPoint : Bytes → Type 0
IsPoint p =
    (length p ≡ 65)
    × (get_or p 0 0 ≡ 4)
    × OnCurve (number 0 (take 32 (drop 1 p))) (number 0 (drop 33 p))

is_point-IsPoint : (p : Bytes) → is_point p ≡ true → IsPoint p
unfolding is_point
is_point-IsPoint p h =
    let x : ℕ = number 0 (take 32 (drop 1 p)) in
    let y : ℕ = number 0 (drop 33 p) in
    elim (Bool-cases (is_on_curve x y)) [
      | inl on ↦ (ground arith, ground arith, is_on_curve-OnCurve x y on)
      | inr off ↦ absurd (ground arith)
    ]

point_of-IsPoint : (x y p : Bytes) → point_of x y ≡ ok p → IsPoint p
unfolding point_of
point_of-IsPoint x y p h = elim (Bool-cases (is_point (4 ∷ (x ++ y)))) [
  | inl good ↦
      let same : 4 ∷ (x ++ y) ≡ p = ground arith in
      subst IsPoint same (is_point-IsPoint (4 ∷ (x ++ y)) good)
  | inr wrong ↦ absurd (ground arith)
]

point_halves :
    (p : Bytes) → length p ≡ 65 → get_or p 0 0 ≡ 4 → p ≡ 4 ∷ (take 32 (drop 1 p) ++ drop 33 p)
unfolding drop
point_halves [] h e = absurd (omega arith)
point_halves (b ∷ p) h e = ap₂ (λ x t. x ∷ t) e (sym (take-append-drop 32 p))

point_of-halves :
    (p : Bytes)
    → length p ≡ 65
    → get_or p 0 0 ≡ 4
    → is_point p ≡ true
    → point_of (take 32 (drop 1 p)) (drop 33 p) ≡ ok p
unfolding point_of
point_of-halves p size mark good =
    let x : Bytes = take 32 (drop 1 p) in
    let y : Bytes = drop 33 p in
    let whole : 4 ∷ (x ++ y) ≡ p = sym (point_halves p size mark) in
    let left : length x ≡ 32 = omega (arith, length-take 32 (drop 1 p), length-drop 1 p) in
    let right : length y ≡ 32 = omega (arith, length-drop 33 p) in
    rw (left, right, whole, good) refl

module _ (c : Cbor) where
  -- `coseToECDH` makes points of the curve, and nothing else.
  pub cose_to_ecdh-IsPoint : (raw p : Bytes) → cose_to_ecdh c raw ≡ ok p → IsPoint p
  unfolding cose_to_ecdh read_agreement_key
  cose_to_ecdh-IsPoint raw p h = elim (Coded-cases (c.to_int_map raw)) [
    | inr (x, e) ↦ absurd (ground arith)
    | inl (m, e) ↦
        let read : read_agreement_key c m ≡ ok p = ground arith in
        let (x, e1, h1) =
          bind-eq-ok (read_coordinate c agreement_key m cose_x Coordinate.x) _ read in
        let (y, e2, h2) = bind-eq-ok (read_coordinate c agreement_key m cose_y Coordinate.y) _ h1 in
        point_of-IsPoint x y p h2
  ]

  -- The bytes `raw` are CBOR for a value, as far as integer labels with byte strings go.
  abbrev pub HoldsLabels : List (ℤ × Bytes) → Labels → Type 0
  HoldsLabels m end = Unit {0}
  HoldsLabels m (entry label (bytes b) more) = Member c.to_bytes m label b × HoldsLabels m more
  HoldsLabels m (entry label v more) = HoldsLabels m more

  abbrev pub Encodes : Bytes → Value → Type 0
  Encodes raw (labels l) = (m : List (ℤ × Bytes)) × (c.to_int_map raw ≡ got m) × HoldsLabels m l
  Encodes raw _ = ⊥

  cose_to_ecdh-Encodes :
      (raw x y : Bytes) → Encodes raw (cose_labels x y) → cose_to_ecdh c raw ≡ point_of x y
  unfolding cose_to_ecdh read_agreement_key cose_labels
  cose_to_ecdh-Encodes raw x y (m, e, (hx, (hy, _))) = rw (
    e,
    cose_to_ecdh,
    read_coordinate-Member c agreement_key m cose_x Coordinate.x x hx,
    read_coordinate-Member c agreement_key m cose_y Coordinate.y y hy,
  )

  -- A point of the curve that `ecdhToCOSE` puts into a COSE key is the point that `coseToECDH` reads
  -- from any encoding of that key.
  pub cose_to_ecdh-ecdh_to_cose :
      (p raw : Bytes) (v : Value)
      → All IsByte p
      → is_point p ≡ true
      → ecdh_to_cose p ≡ ok v
      → Encodes raw v
      → cose_to_ecdh c raw ≡ ok p
  cose_to_ecdh-ecdh_to_cose p raw v hb good sent enc = elim (ecdh_to_cose_lem p hb) [
    | inr (_, wrong) ↦ absurd (cc)
    | inl (size, mark, made) ↦
        let same : v ≡ cose_labels (take 32 (drop 1 p)) (drop 33 p) =
          unfold cose_labels in (ground arith) in
        cose_to_ecdh-Encodes raw (take 32 (drop 1 p)) (drop 33 p) (subst (Encodes raw) same enc)
        ∙ point_of-halves p size mark good
  ]
