-- ===== src/Base/Bits.antt =====
-- Bytes: the masks of the framing as arithmetic, and big-endian numbers of two and four bytes.
use Prim.Native.Nat.{ℕ, zero, suc, ◌+◌, ◌*◌, ◌/◌, ◌%◌, ◌^◌, ◌<◌, bit_and, bit_or, bit_xor}
use mathlib.Core.Path.{◌≡◌, refl}
use mathlib.Core.Bool.{Bool, true, ◌&&◌}
use mathlib.Core.List.{List, ◌∷◌}
use native.Mathlib.Omega.{arith}
use fido.Base.Tests.{◌==◌, ==_iff}

abbrev pub IsByte : ℕ → Type 0
IsByte b = b < 256

abbrev pub Bytes : Type 0
Bytes = List ℕ

-- Go's `a &^ m`.
abbrev pub and_not : ℕ → ℕ → ℕ
and_not a m = bit_xor a (bit_and a m)

unfoldable pub holds_below : ℕ → (ℕ → Bool) → Bool
holds_below zero test = true
holds_below (suc last) test = holds_below last test && test last

pub holds_below_sound :
    (bound : ℕ) (test : ℕ → Bool) (b : ℕ)
    → holds_below bound test ≡ true
    → b < bound
    → test b ≡ true
unfolding holds_below
holds_below_sound zero test b table small = absurd (omega arith)
holds_below_sound (suc last) test b table small =
    let before = holds_below_sound last test b in ground (arith, before)

-- Two functions that agree on a table of the numbers below a bound.
pub agree_below :
    (bound : ℕ) (f g : ℕ → ℕ)
    → holds_below bound (λ b. f b == g b) ≡ true
    → (b : ℕ) → b < bound
    → f b ≡ g b
agree_below bound f g table b small =
    (==_iff (f b) (g b)).0 (holds_below_sound bound _ b table small)

pub set_high : (b : ℕ) → b < 128 → bit_or 0x80 b ≡ b + 128
unfolding holds_below
set_high = agree_below 128 (λ b. bit_or 0x80 b) (λ b. b + 128) refl

pub high_bit : (b : ℕ) → b < 256 → bit_and b 0x80 ≡ b / 128 * 128
unfolding holds_below
high_bit = agree_below 256 (λ b. bit_and b 0x80) (λ b. b / 128 * 128) refl

pub clear_high : (b : ℕ) → b < 256 → and_not b 0x80 ≡ b % 128
unfolding holds_below
clear_high = agree_below 256 (λ b. and_not b 0x80) (λ b. b % 128) refl

-- `binary.BigEndian.PutUint16` and `PutUint32`, and the reads that reverse them.
abbrev pub put_u16 : ℕ → Bytes → Bytes
put_u16 n rest = (n / 256 % 256) ∷ (n % 256) ∷ rest

abbrev pub put_u32 : ℕ → Bytes → Bytes
put_u32 n rest = (n / 0x1000000 % 256) ∷ (n / 0x10000 % 256) ∷ (n / 256 % 256) ∷ (n % 256) ∷ rest

abbrev pub u16 : ℕ → ℕ → ℕ
u16 a b = a * 256 + b

abbrev pub u32 : ℕ → ℕ → ℕ → ℕ → ℕ
u32 a b c d = a * 0x1000000 + b * 0x10000 + c * 256 + d

pub u16-put_u16 : (n : ℕ) → n < 2 ^ 16 → u16 (n / 256 % 256) (n % 256) ≡ n
u16-put_u16 n h = omega arith

pub u32-put_u32 :
    (n : ℕ)
    → n < 2 ^ 32
    → u32 (n / 0x1000000 % 256) (n / 0x10000 % 256) (n / 256 % 256) (n % 256) ≡ n
u32-put_u32 n h = omega arith

pub put_u32-u32 :
    (a b c d : ℕ) (rest : Bytes)
    → a < 256
    → b < 256
    → c < 256
    → d < 256
    → put_u32 (u32 a b c d) rest ≡ a ∷ b ∷ c ∷ d ∷ rest
put_u32-u32 a b c d rest ha hb hc hd =
    let n : ℕ = u32 a b c d in
    let e3 : n / 0x1000000 % 256 ≡ a = omega arith in
    let e2 : n / 0x10000 % 256 ≡ b = omega arith in
    let e1 : n / 256 % 256 ≡ c = omega arith in let e0 : n % 256 ≡ d = omega arith in cc

pub u32-lt : (a b c d : ℕ) → a < 256 → b < 256 → c < 256 → d < 256 → u32 a b c d < 2 ^ 32
u32-lt a b c d ha hb hc hd = omega arith

pub put_u16-u16 :
    (a b : ℕ) (rest : Bytes) → a < 256 → b < 256 → put_u16 (u16 a b) rest ≡ a ∷ b ∷ rest
put_u16-u16 a b rest ha hb =
    let n : ℕ = u16 a b in
    let e1 : n / 256 % 256 ≡ a = omega arith in let e0 : n % 256 ≡ b = omega arith in cc
