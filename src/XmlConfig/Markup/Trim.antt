-- ===== src/XmlConfig/Markup/Trim.antt =====
-- What `trim_ascii_whitespace` leaves.
use mathlib.Core.List.{reverse, reverse-reverse, reverse-append, reverse-cons}
use netft_cpp.Base.{
  ℕ, ◌≡◌, refl, sym, subst, ap, ◌∙◌, true, false, [], ◌∷◌, ◌++◌, All, Bool-cases, inl, inr,
}
use netft_cpp.Base.Text.{Bytes}
use netft_cpp.XmlConfig.Markup.{is_ascii_whitespace, trim_front, trim_ascii_whitespace}

abbrev pub IsBlank : ℕ → Type 0
IsBlank c = is_ascii_whitespace c ≡ true

-- No whitespace at the front.
abbrev pub Bare : Bytes → Type 0
Bare [] = Unit {0}
Bare (c ∷ cs) = is_ascii_whitespace c ≡ false

-- No whitespace at either end.
pub record Trimmed (value : Bytes) : Type 0 where
  pub front : Bare value
  pub back : Bare (reverse value)

trim_front-Bare : (value : Bytes) → Bare (trim_front value)
unfolding trim_front
trim_front-Bare [] = tt
trim_front-Bare (c ∷ cs) = elim (Bool-cases (is_ascii_whitespace c)) [
  | inl blank ↦ rw blank (trim_front-Bare cs)
  | inr plain ↦ rw plain plain
]

pub trim_front_kept : (value : Bytes) → Bare value → trim_front value ≡ value
unfolding trim_front
trim_front_kept [] h = refl
trim_front_kept (c ∷ cs) h = rw h

trim_front_split :
    (value : Bytes) → (blanks : Bytes) × All IsBlank blanks × (value ≡ blanks ++ trim_front value)
unfolding trim_front
trim_front_split [] = ([], tt, refl)
trim_front_split (c ∷ cs) =
    let (blanks, all, e) = trim_front_split cs in
    elim (Bool-cases (is_ascii_whitespace c)) [
      | inl blank ↦ (c ∷ blanks, (blank, all), rw blank (ap (◌∷◌ c) e))
      | inr plain ↦ ([], tt, rw plain)
    ]

Bare-prefix : (a b : Bytes) → Bare (a ++ b) → Bare a
Bare-prefix [] b h = tt
Bare-prefix (c ∷ a) b h = h

All-append : (a b : Bytes) → All IsBlank a → All IsBlank b → All IsBlank (a ++ b)
All-append [] b ha hb = hb
All-append (c ∷ a) b ha hb = (ha.0, All-append a b ha.1 hb)

All-reverse : (a : Bytes) → All IsBlank a → All IsBlank (reverse a)
All-reverse [] h = tt
All-reverse (c ∷ a) h =
    subst (All IsBlank) (sym (reverse-cons c a))
      (All-append (reverse a) (c ∷ []) (All-reverse a h.1) (h.0, tt))

-- The text of a value: what stands between the whitespace at its ends.
pub record Trims (value inner : Bytes) : Type 0 where
  pub leading : Bytes
  pub trailing : Bytes
  pub leading_blank : All IsBlank leading
  pub trailing_blank : All IsBlank trailing
  pub parts : value ≡ leading ++ (inner ++ trailing)
  pub trimmed : Trimmed inner

trim_back_split :
    (u : Bytes)
    → (blanks : Bytes) × All IsBlank blanks × (u ≡ reverse (trim_front (reverse u)) ++ blanks)
trim_back_split u =
    let (blanks, all, e) = trim_front_split (reverse u) in
    (
      reverse blanks,
      All-reverse blanks all,
      sym (reverse-reverse u) ∙ ap reverse e ∙ reverse-append blanks (trim_front (reverse u)),
    )

-- Trimming takes off whitespace and nothing else, at both ends and all of it.
pub trim_ascii_whitespace-Trims : (value : Bytes) → Trims value (trim_ascii_whitespace value)
unfolding trim_ascii_whitespace
trim_ascii_whitespace-Trims value =
    let (leading, l, el) = trim_front_split value in
    let u = trim_front value in
    let (trailing, t, et) = trim_back_split u in
    record {
      leading = leading;
      trailing = trailing;
      leading_blank = l;
      trailing_blank = t;
      parts = el ∙ ap (◌++◌ leading) et;
      trimmed = record {
        front =
            Bare-prefix (reverse (trim_front (reverse u))) trailing
              (subst Bare et (trim_front-Bare value));
        back =
            subst Bare (sym (reverse-reverse (trim_front (reverse u))))
              (trim_front-Bare (reverse u));
      };
    }

pub trim_Trimmed : (value : Bytes) → Trimmed value → trim_ascii_whitespace value ≡ value
unfolding trim_ascii_whitespace
trim_Trimmed value h =
    rw (trim_front_kept value h.front, trim_front_kept (reverse value) h.back)
      (reverse-reverse value)
