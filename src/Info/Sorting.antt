-- ===== src/Info/Sorting.antt =====
-- The options in the text of an `Info`: the enabled ones, in the order of strings.
use fido.Base.{◌<◌, ◌⊎◌, arith, ◌≡◌, refl, sym, ◌∙◌, ap, true, false, Bool-cases, inl, inr}
use fido.Base.{Bool, List, [], ◌∷◌, ◌++◌, All, if◌then◌else◌, is_empty}
use mathlib.Core.List.{Perm, Permᴰ}
use mathlib.Core.List
use fido.Errors.{Text}
use fido.Format.{text, join}
use fido.Info.{Info, text_le, insert_text, sort_texts, enabled, info_text}
use fido.Info.Order.{text_le_total, text_le_trans, sort_texts-enabled_Perm, info_text-Perm}

-- In the order that the sort compares by.
abbrev IsInOrder : List Text → Type 0
IsInOrder [] = Unit {0}
IsInOrder (s ∷ l) = All (λ t. text_le s t ≡ true) l × IsInOrder l

All-le-insert_text :
    (s t : Text) (l : List Text)
    → text_le s t ≡ true
    → All (λ u. text_le s u ≡ true) l
    → All (λ u. text_le s u ≡ true) (insert_text t l)
unfolding insert_text
All-le-insert_text s t [] h a = (h, tt)
All-le-insert_text s t (u ∷ l) h a = elim (Bool-cases (text_le t u)) [
  | inl le ↦ rw le (h, a)
  | inr gt ↦ rw gt (a.0, All-le-insert_text s t l h a.1)
]

All-le_trans :
    (s t : Text) (l : List Text)
    → text_le s t ≡ true
    → All (λ u. text_le t u ≡ true) l
    → All (λ u. text_le s u ≡ true) l
All-le_trans s t [] h a = tt
All-le_trans s t (u ∷ l) h a = (text_le_trans s t u h a.0, All-le_trans s t l h a.1)

insert_text-IsInOrder : (s : Text) (l : List Text) → IsInOrder l → IsInOrder (insert_text s l)
unfolding insert_text
insert_text-IsInOrder s [] h = (tt, tt)
insert_text-IsInOrder s (t ∷ l) h = elim (Bool-cases (text_le s t)) [
  | inl le ↦ rw le ((le, All-le_trans s t l le h.0), h)
  | inr gt ↦
      rw gt (All-le-insert_text t s l (text_le_total s t gt) h.0, insert_text-IsInOrder s l h.1)
]

sort_texts-IsInOrder : (l : List Text) → IsInOrder (sort_texts l)
unfolding sort_texts
sort_texts-IsInOrder [] = tt
sort_texts-IsInOrder (s ∷ l) = insert_text-IsInOrder s (sort_texts l) (sort_texts-IsInOrder l)

insert_text-Perm : (s : Text) (l : List Text) → Perm (insert_text s l) (s ∷ l)
unfolding insert_text
insert_text-Perm s [] = List.Perm.refl _
insert_text-Perm s (t ∷ l) = elim (Bool-cases (text_le s t)) [
  | inl le ↦ rw le (List.Perm.refl _)
  | inr gt ↦
      rw gt (List.Perm.trans (List.Perm.cons t (insert_text-Perm s l)) (List.Perm.swap s t l))
]

sort_texts-Perm : (l : List Text) → Perm (sort_texts l) l
unfolding sort_texts
sort_texts-Perm [] = List.Perm.refl _
sort_texts-Perm (s ∷ l) =
    List.Perm.trans (insert_text-Perm s (sort_texts l)) (List.Perm.cons s (sort_texts-Perm l))

-- Sorting a sorted list changes nothing.
sort_texts_sorted : (l : List Text) → IsInOrder l → sort_texts l ≡ l
unfolding sort_texts insert_text
sort_texts_sorted [] h = refl
sort_texts_sorted (s ∷ l) h = ap (insert_text s) (sort_texts_sorted l h.1) ∙ first s l h.0
  where
    first : (s : Text) (l : List Text) → All (λ t. text_le s t ≡ true) l → insert_text s l ≡ s ∷ l
    first s [] a = refl
    first s (t ∷ l) a = rw (a.0) refl

-- The text of some versions and options.
abbrev pub spelt : List Text → List Text → Text
spelt versions options =
    let joined : Text = join versions (text ", ") in
    let shown : Text = if is_empty joined then text "no version stated" else joined in
    if is_empty options then shown else shown ++ text "; " ++ join options (text ", ")

-- The order of strings: by the first byte that differs, and a prefix first.
abbrev pub TextLe : Text → Text → Type 0
TextLe [] t = Unit {0}
TextLe (a ∷ s) [] = ⊥
TextLe (a ∷ s) (b ∷ t) = (a < b) ⊎ ((a ≡ b) × TextLe s t)

abbrev pub IsSorted : List Text → Type 0
IsSorted [] = Unit {0}
IsSorted (s ∷ l) = All (TextLe s) l × IsSorted l

text_le-TextLe : (s t : Text) → text_le s t ≡ true → TextLe s t
unfolding text_le
text_le-TextLe [] t h = tt
text_le-TextLe (a ∷ s) [] h = absurd (ground arith)
text_le-TextLe (a ∷ s) (b ∷ t) h = ground (arith, text_le-TextLe s t)

TextLe-text_le : (s t : Text) → TextLe s t → text_le s t ≡ true
unfolding text_le
TextLe-text_le [] t h = refl
TextLe-text_le (a ∷ s) [] h = absurd h
TextLe-text_le (a ∷ s) (b ∷ t) (inl lt) = ground arith
TextLe-text_le (a ∷ s) (b ∷ t) (inr (same, h)) = ground (arith, TextLe-text_le s t h)

All-imp : {P Q : Text → Type 0} → ((t : Text) → P t → Q t) → (l : List Text) → All P l → All Q l
All-imp f [] h = tt
All-imp f (t ∷ l) (h, hs) = (f t h, All-imp f l hs)

IsInOrder-IsSorted : (l : List Text) → IsInOrder l → IsSorted l
IsInOrder-IsSorted [] h = tt
IsInOrder-IsSorted (s ∷ l) (h, hs) = (All-imp (text_le-TextLe s) l h, IsInOrder-IsSorted l hs)

IsSorted-IsInOrder : (l : List Text) → IsSorted l → IsInOrder l
IsSorted-IsInOrder [] h = tt
IsSorted-IsInOrder (s ∷ l) (h, hs) = (All-imp (TextLe-text_le s) l h, IsSorted-IsInOrder l hs)

-- The options of a map that are true under the names `on`, and false under the names `off`.
abbrev pub switched : List Text → List Text → List (Text × Bool)
switched on off = List.map (λ k. (k, true)) on ++ List.map (λ k. (k, false)) off

disabled : List (Text × Bool) → List Text
disabled [] = []
disabled ((k, v) ∷ options) = if v then disabled options else k ∷ disabled options

options-switched :
    (options : List (Text × Bool)) → Perm options (switched (enabled options) (disabled options))
unfolding enabled disabled
options-switched [] = List.Perm.refl []
options-switched ((k, true) ∷ options) = List.Perm.cons (k, true) (options-switched options)
options-switched ((k, false) ∷ options) =
    List.Perm.trans (List.Perm.cons (k, false) (options-switched options)) (
      List.Perm.symm (
        List.perm_middle (List.map (λ t. (t, true)) (enabled options))
          (List.map (λ t. (t, false)) (disabled options))))

enabled-switched : (on off : List Text) → enabled (switched on off) ≡ on
unfolding enabled
enabled-switched [] [] = refl
enabled-switched [] (k ∷ off) = enabled-switched [] off
enabled-switched (k ∷ on) off = ap (λ l. k ∷ l) (enabled-switched on off)

-- In the order of strings, with some names off, these are the options.
abbrev pub AreOn : List (Text × Bool) → List Text → Type 0
AreOn options l = IsSorted l × ((off : List Text) × Perm options (switched l off))

sort_texts-AreOn : (options : List (Text × Bool)) → AreOn options (sort_texts (enabled options))
sort_texts-AreOn options =
    let on = enabled options in
    let off = disabled options in
    (
      IsInOrder-IsSorted (sort_texts on) (sort_texts-IsInOrder on),
      (
        off,
        List.Perm.trans (options-switched options) (
            List.Perm.append_right (List.map (λ k. (k, false)) off)
              (List.Perm.map (λ k. (k, true)) (List.Perm.symm (sort_texts-Perm on)))),
      ),
    )

AreOn-sort_texts :
    (options : List (Text × Bool)) (l : List Text)
    → AreOn options l
    → l ≡ sort_texts (enabled options)
AreOn-sort_texts options l (sorted, (off, p)) =
    sym (sort_texts_sorted l (IsSorted-IsInOrder l sorted))
    ∙ sym (ap sort_texts (enabled-switched l off))
    ∙ sym (sort_texts-enabled_Perm p)

-- Exactly one list in the order of strings makes up the options, each of its names with true, together
-- with some names with false; the text of an `Info` is that of its versions and this list; and two
-- descriptions that differ in the order of their options alone have the same text.
pub info_text-IsSorted :
    (i : Info)
    → (l : List Text) × AreOn i.options l
      × (info_text i ≡ spelt i.versions l)
      × ((m : List Text) → AreOn i.options m → m ≡ l)
      × ((options : List (Text × Bool))
          → Perm i.options options
          → info_text i ≡ info_text (record i { options = options }))
unfolding info_text
info_text-IsSorted i = (
  sort_texts (enabled i.options),
  sort_texts-AreOn i.options,
  refl,
  AreOn-sort_texts i.options,
  info_text-Perm i,
)
