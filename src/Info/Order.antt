-- ===== src/Info/Order.antt =====
-- The order in which a Go map is walked does not show in the text of an `Info`.
use fido.Base.{◌≡◌, refl, sym, ◌∙◌, ap, arith, Bool, true, false, if◌then◌else◌}
use fido.Base.{List, [], ◌∷◌}
use mathlib.Core.Path.{ap₂}
use mathlib.Core.Logic.{∥∥₁_elim}
use mathlib.Core.List.{Perm, Permᴰ}
use fido.Errors.{Text}
use fido.Info.{Info, text_le, insert_text, sort_texts, enabled, info_text}

pub text_le_total : (s t : Text) → text_le s t ≡ false → text_le t s ≡ true
unfolding text_le
text_le_total [] t h = absurd (ground arith)
text_le_total (a ∷ s) [] h = refl
text_le_total (a ∷ s) (b ∷ t) h = ground (arith, text_le_total s t)

text_le_antisym : (s t : Text) → text_le s t ≡ true → text_le t s ≡ true → s ≡ t
unfolding text_le
text_le_antisym [] [] h k = refl
text_le_antisym [] (b ∷ t) h k = absurd (ground arith)
text_le_antisym (a ∷ s) [] h k = absurd (ground arith)
text_le_antisym (a ∷ s) (b ∷ t) h k = ground (arith, text_le_antisym s t)

pub text_le_trans : (s t u : Text) → text_le s t ≡ true → text_le t u ≡ true → text_le s u ≡ true
unfolding text_le
text_le_trans [] t u h k = refl
text_le_trans (a ∷ s) [] u h k = absurd (ground arith)
text_le_trans (a ∷ s) (b ∷ t) [] h k = absurd (ground arith)
text_le_trans (a ∷ s) (b ∷ t) (c ∷ u) h k = ground (arith, text_le_trans s t u)

insert_text-insert_text :
    (s t : Text) (l : List Text) → insert_text s (insert_text t l) ≡ insert_text t (insert_text s l)
unfolding insert_text
insert_text-insert_text s t [] = ground (arith, text_le_total s t, text_le_antisym s t)
insert_text-insert_text s t (u ∷ l) = ground (
  arith,
  text_le_total s t,
  text_le_antisym s t,
  text_le_trans s t u,
  text_le_trans t s u,
  insert_text-insert_text s t l,
)

-- What one option does to the names that are sorted already.
put : Text × Bool → List Text → List Text
put (k, v) on = if v then insert_text k on else on

sort_texts-enabled :
    (o : Text × Bool) (options : List (Text × Bool))
    → sort_texts (enabled (o ∷ options)) ≡ put o (sort_texts (enabled options))
unfolding sort_texts enabled put
sort_texts-enabled (k, true) options = refl
sort_texts-enabled (k, false) options = refl

put-put : (o p : Text × Bool) (on : List Text) → put o (put p on) ≡ put p (put o on)
unfolding put
put-put (k, true) (l, true) on = insert_text-insert_text k l on
put-put (k, true) (l, false) on = refl
put-put (k, false) (l, true) on = refl
put-put (k, false) (l, false) on = refl

sort_texts-enabled-Permᴰ :
    {o p : List (Text × Bool)} → Permᴰ o p → sort_texts (enabled o) ≡ sort_texts (enabled p)
sort_texts-enabled-Permᴰ Permᴰ.nil = refl
sort_texts-enabled-Permᴰ (Permᴰ.cons {a} {b} {l₁} {l₂} e d) =
    sort_texts-enabled a l₁ ∙ ap₂ put e (sort_texts-enabled-Permᴰ d) ∙ sym (sort_texts-enabled b l₂)
sort_texts-enabled-Permᴰ (Permᴰ.swap {a} {b} {a'} {b'} {l} e₁ e₂) =
    sort_texts-enabled a (b ∷ l)
    ∙ ap (put a) (sort_texts-enabled b l)
    ∙ put-put a b (sort_texts (enabled l))
    ∙ ap₂ (λ x y. put x (put y (sort_texts (enabled l)))) e₂ e₁
    ∙ ap (put a') (sym (sort_texts-enabled b' l))
    ∙ sym (sort_texts-enabled a' (b' ∷ l))
sort_texts-enabled-Permᴰ (Permᴰ.trans d₁ d₂) =
    sort_texts-enabled-Permᴰ d₁ ∙ sort_texts-enabled-Permᴰ d₂

-- What is sorted does not depend on the order of the options.
pub sort_texts-enabled_Perm :
    {o p : List (Text × Bool)} → Perm o p → sort_texts (enabled o) ≡ sort_texts (enabled p)
sort_texts-enabled_Perm p = ∥∥₁_elim p (hlevel) sort_texts-enabled-Permᴰ

-- Two descriptions that differ in the order of their options alone have the same text.
pub info_text-Perm :
    (i : Info) (options : List (Text × Bool))
    → Perm i.options options
    → info_text i ≡ info_text (record i { options = options })
unfolding info_text
info_text-Perm i options p =
    let sorted : sort_texts (enabled i.options) ≡ sort_texts (enabled options) =
      sort_texts-enabled_Perm p in
    rw sorted refl
