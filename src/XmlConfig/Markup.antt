-- ===== src/XmlConfig/Markup.antt =====
-- The scanner of the page's markup: `is_ascii_whitespace` to `find_tag_end`, and `std::string_view`'s
-- `find` and `find_first_of` as the scanner uses them.
pub mod Trim
pub mod Cuts
use mathlib.Core.List.{reverse}
use netft_cpp.Base.{
  ℕ, suc, ◌+◌, Bool, true, false, ◌&&◌, ◌||◌, List, [], ◌∷◌, ◌++◌, Option, none, some,
  if◌then◌else◌, ◌==◌, not, drop, length,
}
use netft_cpp.Base.Text.{Bytes, codes, equal}

unfoldable pub is_ascii_whitespace : ℕ → Bool
is_ascii_whitespace c = c == b' ' || c == 9 || c == 10 || c == 13 || c == 12 || c == 11

-- the first loop of `trim_ascii_whitespace`
unfoldable pub trim_front : Bytes → Bytes
trim_front [] = []
trim_front (c ∷ cs) = if is_ascii_whitespace c then trim_front cs else c ∷ cs

-- the second loop: trim the reversed bytes
unfoldable pub trim_ascii_whitespace : Bytes → Bytes
trim_ascii_whitespace value = reverse (trim_front (reverse (trim_front value)))

-- `view.substr(0, prefix.size()) == prefix`
unfoldable pub starts_with : Bytes → Bytes → Bool
starts_with [] text = true
starts_with (p ∷ prefix) [] = false
starts_with (p ∷ prefix) (c ∷ text) = p == c && starts_with prefix text

-- A piece of the page: the bytes before a place, and those from it on.
pub record Cut : Type 0 where
  pub before : Bytes
  pub rest : Bytes

abbrev pub add_before : ℕ → Option Cut → Option Cut
add_before c none = none
add_before c (some cut) = some (record cut { before = c ∷ cut.before })

-- `find(needle)`: the cut before its first occurrence
unfoldable pub find : Bytes → Bytes → Option Cut
find needle [] = if starts_with needle [] then some (record { before = []; rest = [] }) else none
find needle (c ∷ text) =
    if starts_with needle (c ∷ text)
    then some (record { before = []; rest = c ∷ text })
    else add_before c (find needle text)

-- `tag.find_first_of(" \t\r\n\f\v")`, and the name in front of it
unfoldable pub before_whitespace : Bytes → Bytes
before_whitespace [] = []
before_whitespace (c ∷ cs) = if is_ascii_whitespace c then [] else c ∷ before_whitespace cs

-- `name.find_first_of(" \t\r\n\f\v/") != npos`
unfoldable pub has_separator : Bytes → Bool
has_separator [] = false
has_separator (c ∷ cs) = is_ascii_whitespace c || c == b'/' || has_separator cs

-- the quotation mark that is open after a byte, or 0
next_quote : ℕ → ℕ → ℕ
next_quote quote c =
    if not (quote == 0)
    then (if c == quote then 0 else quote)
    else if c == 39 || c == b'"'
    then c
    else quote

-- The loop of `find_tag_end`, by the quotation mark that is open: the cut before the `>` that ends
-- the tag.
unfoldable pub find_tag_end : ℕ → Bytes → Option Cut
unfolding next_quote
find_tag_end quote [] = none
find_tag_end quote (c ∷ text) =
    let later = add_before c (find_tag_end (next_quote quote c) text) in
    if quote == 0 && c == b'>' then some (record { before = []; rest = c ∷ text }) else later
