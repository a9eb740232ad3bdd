-- ===== src/XmlConfig/Markup/Cuts.antt =====
-- Where `find` and `find_tag_end` cut a text.
use netft_cpp.Base.{
  ℕ, ◌≡◌, refl, ap, true, ◌&&◌, [], ◌∷◌, ◌++◌, Option, none, some, ◌==◌, Bool-cases, inl, inr,
}
use netft_cpp.Base.Text.{Bytes}
use netft_cpp.XmlConfig.Markup.{Cut, add_before, starts_with, find, next_quote, find_tag_end}

-- What is known of a cut of a text, if there is one.
abbrev pub Splits : Bytes → Option Cut → Type 0
Splits text none = Unit {0}
Splits text (some cut) = text ≡ cut.before ++ cut.rest

add_before-Splits :
    (c : ℕ) (text : Bytes) (cut : Option Cut)
    → Splits text cut
    → Splits (c ∷ text) (add_before c cut)
add_before-Splits c text none h = tt
add_before-Splits c text (some cut) h = ap (◌∷◌ c) h

pub find-Splits : (needle text : Bytes) → Splits text (find needle text)
unfolding find
find-Splits needle [] = elim (Bool-cases (starts_with needle [])) [
  | inl hit ↦ rw hit refl
  | inr miss ↦ rw miss tt
]
find-Splits needle (c ∷ text) = elim (Bool-cases (starts_with needle (c ∷ text))) [
  | inl hit ↦ rw hit refl
  | inr miss ↦ rw miss (add_before-Splits c text (find needle text) (find-Splits needle text))
]

pub find_tag_end-Splits : (quote : ℕ) (text : Bytes) → Splits text (find_tag_end quote text)
unfolding find_tag_end
find_tag_end-Splits quote [] = tt
find_tag_end-Splits quote (c ∷ text) = elim (Bool-cases (quote == 0 && c == b'>')) [
  | inl hit ↦ rw hit refl
  | inr miss ↦ rw miss (
      add_before-Splits c text (find_tag_end (next_quote quote c) text)
        (find_tag_end-Splits (next_quote quote c) text))
]

-- What follows the cut begins with the text looked for.
abbrev pub Begins : Bytes → Option Cut → Type 0
Begins needle none = Unit {0}
Begins needle (some cut) = starts_with needle cut.rest ≡ true

add_before-Begins :
    (needle : Bytes) (c : ℕ) (cut : Option Cut)
    → Begins needle cut
    → Begins needle (add_before c cut)
add_before-Begins needle c none h = tt
add_before-Begins needle c (some cut) h = h

pub find-Begins : (needle text : Bytes) → Begins needle (find needle text)
unfolding find
find-Begins needle [] = elim (Bool-cases (starts_with needle [])) [
  | inl hit ↦ rw hit hit
  | inr miss ↦ rw miss tt
]
find-Begins needle (c ∷ text) = elim (Bool-cases (starts_with needle (c ∷ text))) [
  | inl hit ↦ rw hit hit
  | inr miss ↦ rw miss (add_before-Begins needle c (find needle text) (find-Begins needle text))
]
