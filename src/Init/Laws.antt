-- ===== src/Init/Laws.antt =====
-- `ParseInit` against the layout of the INIT reply, and `Has` against single bits.
use fido.Base.{ℕ, ◌/◌, ◌%◌, ◌^◌, ◌<◌, ◌≡◌, refl, arith, Bool, true, false}
use fido.Base.{[], ◌∷◌, ◌++◌, length, take, All, ◌==◌, not, ap, ◌⊎◌, inl, inr}
use fido.Base.Bits.{Bytes, IsByte, put_u32, put_u32-u32, u32-lt, holds_below, holds_below_sound}
use fido.Errors.{ok, err, truncated}
use fido.Init.{InitReply, parse_init, has}

-- The 17 bytes of an INIT reply.
abbrev pub init_bytes : InitReply → Bytes
init_bytes r =
    r.nonce
    ++ put_u32 r.channel
        (r.version.ctaphid ∷ r.version.major ∷ r.version.minor ∷ r.version.build ∷ r.caps ∷ [])

-- What `ParseInit` returns for bytes is the reply that their first 17 spell, and it fails exactly
-- when there are fewer.
pub parse_init_lem :
    (d : Bytes)
    → All IsByte d
    → ((length d < 17) × (parse_init d ≡ err truncated))
      ⊎ ((r : InitReply) × (parse_init d ≡ ok r)
          × (init_bytes r ≡ take 17 d)
          × (length r.nonce ≡ 8)
          × (r.channel < 2 ^ 32))
unfolding parse_init take
parse_init_lem
      (n0 ∷ n1 ∷ n2 ∷ n3 ∷ n4 ∷ n5 ∷ n6 ∷ n7 ∷ c3 ∷ c2 ∷ c1 ∷ c0 ∷ v ∷ major ∷ minor ∷ build ∷ caps
        ∷ _)
      h =
    inr (
      _,
      refl,
      ap (λ t. n0 ∷ n1 ∷ n2 ∷ n3 ∷ n4 ∷ n5 ∷ n6 ∷ n7 ∷ t)
          (put_u32-u32 c3 c2 c1 c0 _ (omega arith) (omega arith) (omega arith) (omega arith)),
      refl,
      u32-lt c3 c2 c1 c0 (omega arith) (omega arith) (omega arith) (omega arith),
    )
parse_init_lem _ h = inl (omega arith, refl)

-- The bit of weight `w` in a byte.
abbrev pub bit : ℕ → ℕ → Bool
bit w c = (c / w % 2) == 1

same : Bool → Bool → Bool
same true b = b
same false b = not b

same→eq : (a b : Bool) → same a b ≡ true → a ≡ b
unfolding same
same→eq a b h = ground arith

-- `Has` for the one bit of weight `w`, over all bytes.
has_table : ℕ → Bool
has_table w = holds_below 256 (λ c. same (has c w) (bit w c))

has_table_sound : (w : ℕ) → has_table w ≡ true → (c : ℕ) → c < 256 → has c w ≡ bit w c
unfolding has_table
has_table_sound w h c lt = same→eq _ _ (holds_below_sound 256 _ c h lt)

-- For each of the eight bits of a byte, `Has` tells whether that bit of the byte is set.
pub has-bit :
    (c : ℕ) → c < 256 → All (λ w. has c w ≡ bit w c) (1 ∷ 2 ∷ 4 ∷ 8 ∷ 16 ∷ 32 ∷ 64 ∷ 128 ∷ [])
unfolding has_table holds_below has same
has-bit c h = assumption (
  has_table_sound 1 refl c h,
  has_table_sound 2 refl c h,
  has_table_sound 4 refl c h,
  has_table_sound 8 refl c h,
  has_table_sound 16 refl c h,
  has_table_sound 32 refl c h,
  has_table_sound 64 refl c h,
  has_table_sound 128 refl c h,
)
