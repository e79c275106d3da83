-- ===== src/Cose/Sound.antt =====
-- What a public key that `PublicKey` returns is.
use fido.Base.{ℕ, ◌+◌, ◌-◌, ◌*◌, ◌%◌, ◌<◌, ◌≡◌, ◌≢◌, refl, arith, true, ◌⊎◌, inl, inr}
use fido.Base.{Option, none, some, List, [], length, ◌↔◌, is_empty-ne}
use fido.Base.Bits.{Bytes}
use fido.Base.Int.{ℤ, pos, negsuc}
use fido.Errors.{ok, bind-eq-ok, Header, Coordinate, Purpose, credential}
use fido.Cbor.{Cbor, Coded, got, Coded-cases, find_label}
use fido.AuthData.{AuthData}
use fido.Cose.{PublicKey, number, p256_prime, p256_b, is_on_curve, checked_point, check_kind}
use fido.Cose.{
  read_header, read_coordinate, read_public_key, public_key, cose_kty, cose_alg, cose_crv,
}
use fido.Cose.{cose_x, cose_y}

-- A point of P-256, with its coordinates in the field.
abbrev pub OnCurve : ℕ → ℕ → Type 0
OnCurve x y =
    (x < p256_prime)
    × (y < p256_prime)
    × (y * y % p256_prime ≡ (x * x * x + (p256_prime - 3) * x + p256_b) % p256_prime)

-- A member of a COSE map, decoded.
abbrev pub Member : {A : Type 0} → (Bytes → Coded A) → List (ℤ × Bytes) → ℤ → A → Type 0
Member decode m label a = (r : Bytes) × (find_label label m ≡ some r) × (decode r ≡ got a)

pub is_on_curve-OnCurve : (x y : ℕ) → is_on_curve x y ≡ true → OnCurve x y
unfolding is_on_curve
is_on_curve-OnCurve x y h = ground arith

pub is_on_curve-true : (x y : ℕ) → OnCurve x y → is_on_curve x y ≡ true
unfolding is_on_curve
is_on_curve-true x y (hx, hy, e) = ground arith

pub Option-cases {ℓ} : {A : Type ℓ} (o : Option A) → (o ≡ none) ⊎ ((a : A) × (o ≡ some a))
Option-cases none = inl refl
Option-cases (some a) = inr (a, refl)

checked_point-ok :
    (x y : Bytes) (k : PublicKey)
    → checked_point x y ≡ ok k
    → (length x ≡ 32)
      × (length y ≡ 32)
      × (k.x ≡ number 0 x)
      × (k.y ≡ number 0 y)
      × OnCurve (number 0 x) (number 0 y)
unfolding checked_point
checked_point-ok x y k h = ground (arith, is_on_curve-OnCurve (number 0 x) (number 0 y))

checked_point-intro :
    (x y : Bytes)
    → length x ≡ 32
    → length y ≡ 32
    → OnCurve (number 0 x) (number 0 y)
    → checked_point x y ≡ ok (record { x = number 0 x; y = number 0 y })
unfolding checked_point
checked_point-intro x y lx ly on = ground (arith, is_on_curve-true (number 0 x) (number 0 y) on)

check_kind-ok :
    (kty alg crv : ℤ)
    → check_kind kty alg crv ≡ ok tt
    → (kty ≡ pos 2) × (alg ≡ negsuc 6) × (crv ≡ pos 1)
unfolding check_kind
check_kind-ok kty alg crv h = ground arith

module _ (c : Cbor) where
  read_header-ok :
      (m : List (ℤ × Bytes)) (label : ℤ) (what : Header) (n : ℤ)
      → read_header c m label what ≡ ok n
      → Member c.to_int m label n
  unfolding read_header
  read_header-ok m label what n h = elim (Option-cases (find_label label m)) [
    | inl e ↦ absurd (ground arith)
    | inr (r, e) ↦ (r, e, ground arith)
  ]

  pub read_coordinate-ok :
      (u : Purpose) (m : List (ℤ × Bytes)) (label : ℤ) (what : Coordinate) (b : Bytes)
      → read_coordinate c u m label what ≡ ok b
      → Member c.to_bytes m label b
  unfolding read_coordinate
  read_coordinate-ok u m label what b h = elim (Option-cases (find_label label m)) [
    | inl e ↦ absurd (ground arith)
    | inr (r, e) ↦ (r, e, ground arith)
  ]

  -- What a COSE map holds that gives the key `k`.
  abbrev pub Holds : List (ℤ × Bytes) → PublicKey → Type 0
  Holds m k =
      Member c.to_int m (pos 1) (pos 2)
      × Member c.to_int m (pos 3) (negsuc 6)
      × Member c.to_int m (negsuc 0) (pos 1)
      × ((x : Bytes) × (y : Bytes) × Member c.to_bytes m (negsuc 1) x
          × Member c.to_bytes m (negsuc 2) y
          × (length x ≡ 32)
          × (length y ≡ 32)
          × (k.x ≡ number 0 x)
          × (k.y ≡ number 0 y)
          × OnCurve (number 0 x) (number 0 y))

  read_public_key-Holds :
      (m : List (ℤ × Bytes)) (k : PublicKey) → read_public_key c m ≡ ok k → Holds m k
  unfolding read_public_key
  read_public_key-Holds m k h =
      let (kty, e1, h1) = bind-eq-ok (read_header c m cose_kty Header.key_type) _ h in
      let (alg, e2, h2) = bind-eq-ok (read_header c m cose_alg Header.algorithm) _ h1 in
      let (crv, e3, h3) = bind-eq-ok (read_header c m cose_crv Header.curve) _ h2 in
      let (_, e4, h4) = bind-eq-ok (check_kind kty alg crv) _ h3 in
      let (x, e5, h5) = bind-eq-ok (read_coordinate c credential m cose_x Coordinate.x) _ h4 in
      let (y, e6, h6) = bind-eq-ok (read_coordinate c credential m cose_y Coordinate.y) _ h5 in
      let (k1, k2, k3) = check_kind-ok kty alg crv e4 in
      let (l1, l2, n1, n2, on) = checked_point-ok x y k h6 in
      (
        rw k1 at (read_header-ok m _ _ kty e1),
        rw k2 at (read_header-ok m _ _ alg e2),
        rw k3 at (read_header-ok m _ _ crv e3),
        (
          x,
          y,
          read_coordinate-ok _ m _ _ x e5,
          read_coordinate-ok _ m _ _ y e6,
          l1,
          l2,
          n1,
          n2,
          on,
        ),
      )

  read_header-Member :
      (m : List (ℤ × Bytes)) (label : ℤ) (what : Header) (n : ℤ)
      → Member c.to_int m label n
      → read_header c m label what ≡ ok n
  unfolding read_header
  read_header-Member m label what n (r, there, e) = ground arith

  pub read_coordinate-Member :
      (u : Purpose) (m : List (ℤ × Bytes)) (label : ℤ) (what : Coordinate) (b : Bytes)
      → Member c.to_bytes m label b
      → read_coordinate c u m label what ≡ ok b
  unfolding read_coordinate
  read_coordinate-Member u m label what b (r, there, e) = ground arith

  Holds-read_public_key :
      (m : List (ℤ × Bytes)) (k : PublicKey) → Holds m k → read_public_key c m ≡ ok k
  unfolding read_public_key check_kind
  Holds-read_public_key m k (kty, alg, crv, (x, y, hx, hy, lx, ly, ex, ey, on)) =
      rw
        (
          read_header-Member m cose_kty Header.key_type (pos 2) kty,
          read_header-Member m cose_alg Header.algorithm (negsuc 6) alg,
          read_header-Member m cose_crv Header.curve (pos 1) crv,
          read_coordinate-Member credential m cose_x Coordinate.x x hx,
          read_coordinate-Member credential m cose_y Coordinate.y y hy,
          checked_point-intro x y lx ly on,
          ex,
          ey,
        )
        refl

  -- `PublicKey` returns a key exactly if the authenticator data has a COSE key whose map says EC2,
  -- ES256 and P-256 and holds the key's two coordinates, each of 32 bytes, and they are those of a
  -- point of the curve.
  pub public_key-Holds :
      (a : AuthData) (k : PublicKey)
      → (public_key c a ≡ ok k)
        ↔ (a.cose_key ≢ [])
          × ((m : List (ℤ × Bytes)) × (c.to_int_map a.cose_key ≡ got m) × Holds m k)
  unfolding public_key
  public_key-Holds a k = (only, enough)
    where
      only :
          public_key c a ≡ ok k
          → (a.cose_key ≢ [])
            × ((m : List (ℤ × Bytes)) × (c.to_int_map a.cose_key ≡ got m) × Holds m k)
      only h = elim (Coded-cases (c.to_int_map a.cose_key)) [
        | inl (m, e) ↦ (λ empty. ground arith, (m, e, read_public_key-Holds m k (ground arith)))
        | inr (x, e) ↦ absurd (ground arith)
      ]

      enough :
          (a.cose_key ≢ [])
            × ((m : List (ℤ × Bytes)) × (c.to_int_map a.cose_key ≡ got m) × Holds m k)
          → public_key c a ≡ ok k
      enough (there, (m, e, h)) =
          ground (arith, Holds-read_public_key m k h, is_empty-ne a.cose_key there)
