-- ===== src/Agreement/Offers.antt =====
-- Which COSE keys `coseToECDH` reads, and as which points.
use fido.Base.{◌≡◌, ◌↔◌, refl, arith, true, inl, inr}
use fido.Base.{List, ◌∷◌, ◌++◌, length, drop, take-append, drop-append, length-append}
use fido.Base.Bits.{Bytes}
use fido.Base.Int.{ℤ, negsuc}
use fido.Errors.{ok, bind-eq-ok, Coordinate, agreement_key}
use fido.Cbor.{Cbor, Coded-cases, got}
use fido.Cose.{is_on_curve, number, read_coordinate, cose_x, cose_y}
use fido.Cose.Sound.{OnCurve, Member, is_on_curve-OnCurve, is_on_curve-true, read_coordinate-ok}
use fido.Cose.Sound.{read_coordinate-Member}
use fido.Agreement.{is_point, point_of, read_agreement_key, cose_to_ecdh}

-- The uncompressed point of two coordinates.
abbrev pub IsPointOf : Bytes → Bytes → Bytes → Type 0
IsPointOf x y p =
    (length x ≡ 32) × (length y ≡ 32) × OnCurve (number 0 x) (number 0 y) × (p ≡ 4 ∷ (x ++ y))

is_point-halves :
    (x y : Bytes)
    → length x ≡ 32
    → length y ≡ 32
    → is_point (4 ∷ (x ++ y)) ≡ is_on_curve (number 0 x) (number 0 y)
unfolding is_point drop
is_point-halves x y lx ly =
    let size : length (x ++ y) ≡ 64 = omega (arith, length-append x y) in
    rw (size, take-append 32 x y lx, drop-append 32 x y lx) refl

point_of-IsPointOf : (x y p : Bytes) → (point_of x y ≡ ok p) ↔ IsPointOf x y p
unfolding point_of
point_of-IsPointOf x y p = (
  (λ h.
      let lx : length x ≡ 32 = ground arith in
      let ly : length y ≡ 32 = ground arith in
      let on : is_on_curve (number 0 x) (number 0 y) ≡ true =
        ground (arith, is_point-halves x y lx ly) in
      (lx, ly, is_on_curve-OnCurve (number 0 x) (number 0 y) on, ground arith)),
  (λ (lx, ly, on, e).
      ground (arith, is_point-halves x y lx ly, is_on_curve-true (number 0 x) (number 0 y) on)),
)

module _ (c : Cbor) where
  -- A COSE map holds a point: its coordinates, whatever else the map says.
  abbrev pub HoldsPoint : Bytes → Bytes → Type 0
  HoldsPoint raw p =
      (m : List (ℤ × Bytes)) × (x : Bytes) × (y : Bytes) × (c.to_int_map raw ≡ got m)
      × Member c.to_bytes m (negsuc 1) x
      × Member c.to_bytes m (negsuc 2) y
      × IsPointOf x y p

  pub cose_to_ecdh-HoldsPoint : (raw p : Bytes) → (cose_to_ecdh c raw ≡ ok p) ↔ HoldsPoint raw p
  unfolding cose_to_ecdh read_agreement_key
  cose_to_ecdh-HoldsPoint raw p = (only, enough)
    where
      only : cose_to_ecdh c raw ≡ ok p → HoldsPoint raw p
      only h = elim (Coded-cases (c.to_int_map raw)) [
        | inr (x, e) ↦ absurd (ground arith)
        | inl (m, e) ↦
            let read : read_agreement_key c m ≡ ok p = ground arith in
            let (x, e1, h1) =
              bind-eq-ok (read_coordinate c agreement_key m cose_x Coordinate.x) _ read in
            let (y, e2, h2) =
              bind-eq-ok (read_coordinate c agreement_key m cose_y Coordinate.y) _ h1 in
            (
              m,
              x,
              y,
              e,
              read_coordinate-ok c _ m _ _ x e1,
              read_coordinate-ok c _ m _ _ y e2,
              (point_of-IsPointOf x y p).0 h2,
            )
      ]

      enough : HoldsPoint raw p → cose_to_ecdh c raw ≡ ok p
      enough (m, x, y, e, hx, hy, is_it) =
          rw
            (
              e,
              cose_to_ecdh,
              read_coordinate-Member c agreement_key m cose_x Coordinate.x x hx,
              read_coordinate-Member c agreement_key m cose_y Coordinate.y y hy,
            )
            ((point_of-IsPointOf x y p).1 is_it)
