-- ===== src/Info/Fields.antt =====
-- What a description that `parseInfo` returns comes from.
use fido.Base.{ℕ, ◌-◌, ◌≡◌, ◌≢◌, ◌⊎◌, inl, inr, ◌↔◌, is_empty-ne, ap, ◌∙◌, refl, sym, subst, arith}
use fido.Base.{
  Option, none, some, List, [], ◌∷◌, length, replicate, length-take, length-append,
  length-replicate, take,
}
use fido.Base.Bits.{Bytes}
use fido.Errors.{ok, bind-eq-ok, ◌>>=◌}
use fido.Framing.{copy_into}
use fido.Cbor.{Cbor, Coded, got, Coded-cases, find}
use fido.Info.{
  Info, optional, checked_info, read_fields, parse_info, info_versions, info_extensions,
}
use fido.Info.{info_aaguid, info_options, info_max_msg_size, info_pin_protocols, info_transports}

-- A field of the description: its member decoded, or the zero value if there is no such member.
abbrev pub Field : {A : Type 0} → (Bytes → Coded A) → A → List (ℕ × Bytes) → ℕ → A → Type 0
Field decode absent raw key a =
    ((find key raw ≡ none) × (a ≡ absent))
    ⊎ ((r : Bytes) × (find key raw ≡ some r) × (decode r ≡ got a))

optional-Field :
    {A : Type 0} (decode : Bytes → Coded A) (absent : A) (raw : List (ℕ × Bytes)) (key : ℕ) (a : A)
    → optional decode absent raw key ≡ ok a
    → Field decode absent raw key a
unfolding optional
optional-Field decode absent raw key a h = go (find key raw) refl
  where
    go : (m : Option Bytes) → find key raw ≡ m → Field decode absent raw key a
    go none e = inl (e, ground arith)
    go (some r) e = inr (r, e, ground arith)

Field-optional :
    {A : Type 0} (decode : Bytes → Coded A) (absent : A) (raw : List (ℕ × Bytes)) (key : ℕ) (a : A)
    → Field decode absent raw key a
    → optional decode absent raw key ≡ ok a
unfolding optional
Field-optional decode absent raw key a (inl (missing, e)) = ground arith
Field-optional decode absent raw key a (inr (r, there, e)) = ground arith

length-copy_into : (n : ℕ) (src : Bytes) → length (copy_into n src) ≡ n
unfolding copy_into
length-copy_into n src = omega (
  arith,
  length-append (take n src) (replicate (n - length src) 0),
  length-take n src,
  length-replicate {A = ℕ} (n - length src) 0,
)

checked_info-ok :
    (i j : Info)
    → checked_info i ≡ ok j
    → (i.versions ≢ []) × (j ≡ record i { aaguid = copy_into 16 i.aaguid })
unfolding checked_info
checked_info-ok i j h = (λ empty. ground arith, ground arith)

-- An identifier has 16 bytes, or is missing.
abbrev pub IsIdentifier : Bytes → Type 0
IsIdentifier a = (a ≡ []) ⊎ (length a ≡ 16)

checked_info-IsIdentifier : (i j : Info) → checked_info i ≡ ok j → IsIdentifier i.aaguid
unfolding checked_info
checked_info-IsIdentifier i j h = go i.aaguid refl
  where
    go : (a : Bytes) → i.aaguid ≡ a → IsIdentifier i.aaguid
    go [] e = inl e
    go (b ∷ bs) e = inr (ground arith)

checked_info-intro :
    (i : Info)
    → i.versions ≢ []
    → IsIdentifier i.aaguid
    → checked_info i ≡ ok (record i { aaguid = copy_into 16 i.aaguid })
unfolding checked_info
checked_info-intro i named (inl missing) =
    ground (arith, is_empty-ne i.versions named, ap length missing)
checked_info-intro i named (inr full) = ground (arith, is_empty-ne i.versions named)

module _ (c : Cbor) where
  -- What the map of a description holds, whose identifier is `a` there.
  abbrev pub Describes : List (ℕ × Bytes) → Bytes → Info → Type 0
  Describes raw a i =
      Field c.to_bytes [] raw 0x03 a
      × Field c.to_texts [] raw 0x01 i.versions
      × Field c.to_texts [] raw 0x02 i.extensions
      × Field c.to_options [] raw 0x04 i.options
      × Field c.to_uint 0 raw 0x05 i.max_msg_size
      × Field c.to_uints [] raw 0x06 i.pin_protocols
      × Field c.to_texts [] raw 0x09 i.transports

  read_fields-Describes :
      (raw : List (ℕ × Bytes)) (i : Info) → read_fields c raw ≡ ok i → Describes raw i.aaguid i
  unfolding read_fields
  read_fields-Describes raw i h =
      let (v, e1, h1) = bind-eq-ok (optional c.to_texts [] raw info_versions) _ h in
      let (x, e2, h2) = bind-eq-ok (optional c.to_texts [] raw info_extensions) _ h1 in
      let (a, e3, h3) = bind-eq-ok (optional c.to_bytes [] raw info_aaguid) _ h2 in
      let (o, e4, h4) = bind-eq-ok (optional c.to_options [] raw info_options) _ h3 in
      let (m, e5, h5) = bind-eq-ok (optional c.to_uint 0 raw info_max_msg_size) _ h4 in
      let (p, e6, h6) = bind-eq-ok (optional c.to_uints [] raw info_pin_protocols) _ h5 in
      let (t, e7, h7) = bind-eq-ok (optional c.to_texts [] raw info_transports) _ h6 in
      (
        optional-Field c.to_bytes [] raw 0x03 i.aaguid (ground arith),
        optional-Field c.to_texts [] raw 0x01 i.versions (ground arith),
        optional-Field c.to_texts [] raw 0x02 i.extensions (ground arith),
        optional-Field c.to_options [] raw 0x04 i.options (ground arith),
        optional-Field c.to_uint 0 raw 0x05 i.max_msg_size (ground arith),
        optional-Field c.to_uints [] raw 0x06 i.pin_protocols (ground arith),
        optional-Field c.to_texts [] raw 0x09 i.transports (ground arith),
      )

  Describes-read_fields :
      (raw : List (ℕ × Bytes)) (a : Bytes) (i : Info)
      → Describes raw a i
      → read_fields c raw ≡ ok (record i { aaguid = a })
  unfolding read_fields
  Describes-read_fields raw a i (h3, h1, h2, h4, h5, h6, h9) =
      rw
        (
          Field-optional c.to_texts [] raw 0x01 i.versions h1,
          Field-optional c.to_texts [] raw 0x02 i.extensions h2,
          Field-optional c.to_bytes [] raw 0x03 a h3,
          Field-optional c.to_options [] raw 0x04 i.options h4,
          Field-optional c.to_uint 0 raw 0x05 i.max_msg_size h5,
          Field-optional c.to_uints [] raw 0x06 i.pin_protocols h6,
          Field-optional c.to_texts [] raw 0x09 i.transports h9,
        )
        refl

  -- A description of a reply: it names a version, and its fields are the members of the reply's map,
  -- with an identifier of 16 bytes, or of zeros if there is none.
  abbrev pub Described : Bytes → Info → Type 0
  Described body i =
      (i.versions ≢ [])
      × ((raw : List (ℕ × Bytes)) × (a : Bytes) × (c.to_map body ≡ got raw)
          × IsIdentifier a
          × (i.aaguid ≡ copy_into 16 a)
          × Describes raw a i)

  -- `parseInfo` returns a description exactly if the reply is not empty and is a map, each field of the
  -- description is the decoded member of the map, or the zero value if the map has no such member, it
  -- names a version, and the identifier in the map has 16 bytes or is missing; and the description's
  -- identifier always has 16 bytes.
  pub parse_info-Described :
      (body : Bytes) (i : Info)
      → ((parse_info c body ≡ ok i) ↔ (body ≢ []) × Described body i)
        × (parse_info c body ≡ ok i → length i.aaguid ≡ 16)
  unfolding parse_info
  parse_info-Described body i = ((only body, enough body), λ h. sized (only body h).1)
    where
      sized : Described body i → length i.aaguid ≡ 16
      sized (_, (_, a, _, _, e, _)) = ap length e ∙ length-copy_into 16 a

      only : (body : Bytes) → parse_info c body ≡ ok i → (body ≢ []) × Described body i
      only [] h = absurd (ground arith)
      only (b ∷ body) h = elim (Coded-cases (c.to_map (b ∷ body))) [
        | inr (x, e) ↦ absurd (ground arith)
        | inl (raw, e) ↦
            let read : (read_fields c raw >>= checked_info) ≡ ok i = ground arith in
            let (j, found, last) = bind-eq-ok (read_fields c raw) checked_info read in
            let (named, same) = checked_info-ok j i last in
            let whole = checked_info-IsIdentifier j i last in
            (
              λ empty. cc,
              subst (Described (b ∷ body)) (sym same)
                  (named, (raw, j.aaguid, e, whole, refl, read_fields-Describes raw j found)),
            )
      ]

      enough : (body : Bytes) → (body ≢ []) × Described body i → parse_info c body ≡ ok i
      enough [] (there, _) = absurd (there refl)
      enough (b ∷ body) (_, (named, (raw, a, e, whole, id, described))) =
          rw (e, parse_info, Describes-read_fields raw a i described)
            (checked_info-intro (record i { aaguid = a }) named whole
              ∙ ap (λ d. ok (record i { aaguid = d })) (sym id))
