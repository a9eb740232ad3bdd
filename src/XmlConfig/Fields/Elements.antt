-- ===== src/XmlConfig/Fields/Elements.antt =====
-- How the scan reads one element of a plain page: a required tag, its text and its closing tag.
use netft_cpp.Base.{
  ℕ, zero, suc, ◌<◌, ◌≡◌, refl, ap, ◌∙◌, Bool, true, false, List, [], ◌∷◌, ◌++◌, none, some, ok,
  set, get_or, ◌==◌, arith,
}
use netft_cpp.Base.Text.{Bytes, codes}
use netft_cpp.XmlConfig.Fields.{
  OpenElement, Scanner, append_required_text, tag_element, markup_step, continue_with, round, scan,
  required_tags, required_tag_index,
}
use netft_cpp.XmlConfig.Markup.{
  find, find_tag_end, starts_with, trim_front, trim_ascii_whitespace, is_ascii_whitespace,
  before_whitespace, has_separator,
}

-- No markup stands in a text.
abbrev pub Plain : Bytes → Type 0
Plain [] = Unit {0}
Plain (c ∷ cs) = ((c == b'<') ≡ false) × Plain cs

pub find-Plain :
    (text rest : Bytes)
    → Plain text
    → find (codes "<") (text ++ (b'<' ∷ rest)) ≡ some (record { before = text; rest = b'<' ∷ rest })
unfolding find starts_with
find-Plain [] rest h = refl
find-Plain (c ∷ text) rest h = ground (arith, h.0, find-Plain text rest h.1)

-- The page's tags: `root` for the element around the fields, and the required ones.
abbrev pub tag : ℕ → Bytes
tag index = get_or required_tags index []

abbrev pub open_tag : Bytes → Bytes → Bytes
open_tag name rest = b'<' ∷ (name ++ (b'>' ∷ rest))

abbrev pub close_tag : Bytes → Bytes → Bytes
close_tag name rest = b'<' ∷ b'/' ∷ (name ++ (b'>' ∷ rest))

-- `<tag>text</tag>` and what follows it
abbrev pub element : ℕ → Bytes → Bytes → Bytes
element index text rest = open_tag (tag index) (text ++ close_tag (tag index) rest)

abbrev root_name : Bytes
root_name = codes "netft"

abbrev root : OpenElement
root = record { name = root_name; required_index = none }

-- The scanner inside the root element.
abbrev within : List Bytes → List Bool → Scanner
within fields seen = record { fields = fields; seen = seen; elements = root ∷ [] }

abbrev within_field : ℕ → List Bytes → List Bool → Scanner
within_field index fields seen = record {
  fields = fields;
  seen = seen;
  elements = record { name = tag index; required_index = some index } ∷ root ∷ [];
}

opens :
    (index : ℕ) (fields : List Bytes) (seen : List Bool) (rest : Bytes)
    → index < 5
    → get_or seen index false ≡ false
    → markup_step (within fields seen) (open_tag (tag index) rest)
      ≡ ok (within_field index fields (set seen index true), rest)
unfolding markup_step starts_with find_tag_end trim_ascii_whitespace is_ascii_whitespace
    before_whitespace required_tag_index tag_element trim_front
opens zero fields seen rest h new = rw new
opens (suc zero) fields seen rest h new = rw new
opens (suc (suc zero)) fields seen rest h new = rw new
opens (suc (suc (suc zero))) fields seen rest h new = rw new
opens (suc (suc (suc (suc zero)))) fields seen rest h new = rw new
opens (suc (suc (suc (suc (suc index))))) fields seen rest h new = absurd (omega arith)

closes :
    (index : ℕ) (fields : List Bytes) (seen : List Bool) (rest : Bytes)
    → index < 5
    → markup_step (within_field index fields seen) (close_tag (tag index) rest)
      ≡ ok (within fields seen, rest)
unfolding markup_step starts_with find_tag_end trim_ascii_whitespace is_ascii_whitespace
    has_separator tag_element trim_front
closes zero fields seen rest h = refl
closes (suc zero) fields seen rest h = refl
closes (suc (suc zero)) fields seen rest h = refl
closes (suc (suc (suc zero))) fields seen rest h = refl
closes (suc (suc (suc (suc zero)))) fields seen rest h = refl
closes (suc (suc (suc (suc (suc index))))) fields seen rest h = absurd (omega arith)

-- One round: the text up to the markup, and the markup.
scan_round :
    (fuel : ℕ) (s s' : Scanner) (text rest rest' : Bytes)
    → Plain text
    → markup_step (append_required_text s text) (b'<' ∷ rest) ≡ ok (s', rest')
    → scan (suc fuel) s (text ++ (b'<' ∷ rest)) ≡ scan fuel s' rest'
unfolding scan
scan_round fuel s s' [] rest rest' h e =
    ap (round (scan fuel) s (b'<' ∷ rest)) (find-Plain [] rest tt)
    ∙ ap (continue_with (scan fuel)) e
scan_round fuel s s' (c ∷ text) rest rest' h e =
    ap (round (scan fuel) s (c ∷ (text ++ (b'<' ∷ rest)))) (find-Plain (c ∷ text) rest h)
    ∙ ap (continue_with (scan fuel)) e

-- Two rounds read an element: its text is appended to the field, and the field is marked.
scan-element :
    (fuel index : ℕ) (fields : List Bytes) (seen : List Bool) (text rest : Bytes)
    → index < 5
    → get_or seen index false ≡ false
    → Plain text
    → scan (suc (suc fuel)) (within fields seen) (element index text rest)
      ≡ scan fuel
          (within (set fields index (get_or fields index [] ++ text)) (set seen index true))
          rest
unfolding append_required_text
scan-element fuel index fields seen text rest h new plain =
    scan_round (suc fuel) (within fields seen) _ [] _ _ tt
      (opens index fields seen (text ++ close_tag (tag index) rest) h new)
    ∙ scan_round fuel (within_field index fields (set seen index true)) _ text _ _ plain (
        closes index (set fields index (get_or fields index [] ++ text)) (set seen index true) rest
          h)

-- The elements of a page, one after another.
abbrev pub elements : List (ℕ × Bytes) → Bytes → Bytes
elements [] rest = rest
elements ((index, text) ∷ items) rest = element index text (elements items rest)

-- Every item is a required tag that was not seen yet, with a text that holds no markup.
abbrev pub AreFresh : List Bool → List (ℕ × Bytes) → Type 0
AreFresh seen [] = Unit {0}
AreFresh seen ((index, text) ∷ items) =
    (index < 5)
    × (get_or seen index false ≡ false)
    × Plain text
    × AreFresh (set seen index true) items

abbrev pub texts_after : List Bytes → List (ℕ × Bytes) → List Bytes
texts_after fields [] = fields
texts_after fields ((index, text) ∷ items) =
    texts_after (set fields index (get_or fields index [] ++ text)) items

abbrev pub seen_after : List Bool → List (ℕ × Bytes) → List Bool
seen_after seen [] = seen
seen_after seen ((index, text) ∷ items) = seen_after (set seen index true) items

-- Two rounds for each item.
abbrev pub rounds : List (ℕ × Bytes) → ℕ → ℕ
rounds [] fuel = fuel
rounds (item ∷ items) fuel = suc (suc (rounds items fuel))

scan-elements :
    (items : List (ℕ × Bytes)) (fuel : ℕ) (fields : List Bytes) (seen : List Bool) (rest : Bytes)
    → AreFresh seen items
    → scan (rounds items fuel) (within fields seen) (elements items rest)
      ≡ scan fuel (within (texts_after fields items) (seen_after seen items)) rest
scan-elements [] fuel fields seen rest h = refl
scan-elements ((index, text) ∷ items) fuel fields seen rest (lt, new, plain, fresh) =
    scan-element (rounds items fuel) index fields seen text (elements items rest) lt new plain
    ∙ scan-elements items fuel _ _ rest fresh

-- A page: an element around the fields, in any order.
abbrev pub page : List (ℕ × Bytes) → Bytes
page items = open_tag root_name (elements items (close_tag root_name []))

-- With at least two rounds for each item and three more, the scan of a page ends with the items'
-- texts and flags.
pub scan-page :
    (items : List (ℕ × Bytes)) (fuel : ℕ) (fields : List Bytes) (seen : List Bool)
    → AreFresh seen items
    → scan
        (suc (rounds items (suc (suc fuel))))
        (record { fields = fields; seen = seen; elements = [] })
        (page items)
      ≡ some (
          ok (record {
            fields = texts_after fields items;
            seen = seen_after seen items;
            elements = [];
          }))
unfolding scan append_required_text markup_step starts_with find_tag_end trim_ascii_whitespace
    is_ascii_whitespace has_separator before_whitespace required_tag_index tag_element trim_front
scan-page items fuel fields seen fresh =
    scan_round (rounds items (suc (suc fuel)))
      (record { fields = fields; seen = seen; elements = [] }) (within fields seen) [] _
      (elements items (close_tag root_name [])) tt refl
    ∙ scan-elements items (suc (suc fuel)) fields seen (close_tag root_name []) fresh
    ∙ scan_round (suc fuel) (within (texts_after fields items) (seen_after seen items)) _ [] _ [] tt
        refl
