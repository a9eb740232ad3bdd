-- ===== src/XmlConfig/Fields.antt =====
-- `extract_required_fields` of src/detail/xml_config.cpp.
pub mod Termination
pub mod Shapes
pub mod Wellformed
pub mod Elements
pub mod RoundTrip
use mathlib.Core.List.{reverse}
use netft_cpp.Base.{
  ℕ, zero, suc, ◌+◌, Bool, true, false, not, ◌&&◌, ◌||◌, List, [], ◌∷◌, ◌++◌, Option, none, some,
  Result, ok, err, ◌>>=◌, ◌>>◌, guard, if◌then◌else◌, ◌==◌, ltb, drop, length, get_or, set,
}
use netft_cpp.Base.Text.{Bytes, codes, equal}
use netft_cpp.XmlConfig.Markup.{
  Cut, find, find_tag_end, starts_with, trim_ascii_whitespace, before_whitespace, has_separator,
}

abbrev pub maximum_field_length : ℕ
maximum_field_length = 128

abbrev pub required_tags : List Bytes
required_tags =
    codes "prodname" ∷ codes "cfgcpf" ∷ codes "cfgcpt" ∷ codes "scfgfu" ∷ codes "scfgtu" ∷ []

-- The messages of a `DiscoveryError` that concern the page. A number is a required tag's index.
pub data PageError : Type 0 where
  unterminated_markup unterminated_comment unterminated_cdata unsupported_markup : PageError
  malformed_markup malformed_nesting text_only : PageError
  not_exactly_once is_empty is_too_long : ℕ → PageError

pub record OpenElement : Type 0 where
  pub name : Bytes
  -- `none` stands for -1
  pub required_index : Option ℕ

-- The loop's variables. The vector's back is the list's head.
pub record Scanner : Type 0 where
  pub fields : List Bytes
  pub seen : List Bool
  pub elements : List OpenElement

-- the loop of `required_tag_index`, from an index on
tag_index : ℕ → List Bytes → Bytes → Option ℕ
tag_index index [] name = none
tag_index index (tag ∷ tags) name =
    if equal name tag then some index else tag_index (suc index) tags name

unfoldable pub required_tag_index : Bytes → Option ℕ
unfolding tag_index
required_tag_index = tag_index 0 required_tags

-- `elements.empty() ? -1 : elements.back().required_index`
back_index : List OpenElement → Option ℕ
back_index [] = none
back_index (e ∷ elements) = e.required_index

append_at : Option ℕ → Bytes → List Bytes → List Bytes
append_at none text fields = fields
append_at (some index) text fields = set fields index (get_or fields index [] ++ text)

unfoldable pub append_required_text : Scanner → Bytes → Scanner
unfolding back_index append_at
append_required_text s text = record s { fields = append_at (back_index s.elements) text s.fields }

-- After a cut, the page goes on behind a closing mark of so many bytes.
abbrev Step : Type 0
Step = Result PageError (Scanner × Bytes)

skip_to : PageError → ℕ → Scanner → Option Cut → Step
skip_to e size s none = err e
skip_to e size s (some cut) = ok (s, drop size cut.rest)

cdata_section : Scanner → Option Cut → Step
cdata_section s none = err unterminated_cdata
cdata_section s (some cut) = ok (append_required_text s cut.before, drop 3 cut.rest)

-- `</name>`: the tag is the bytes behind the slash
close_element : List OpenElement → Scanner → Bytes → Result PageError Scanner
close_element [] s name = err malformed_nesting
close_element (e ∷ elements) s name =
    if equal name [] || has_separator name || not (equal e.name name)
    then err malformed_nesting
    else ok (record s { elements = elements })

-- the check and mark of a required tag
mark_seen : Option ℕ → Scanner → Result PageError Scanner
mark_seen none s = ok s
mark_seen (some index) s =
    if get_or s.seen index false
    then err (not_exactly_once index)
    else ok (record s { seen = set s.seen index true })

is_required : Option ℕ → Bool
is_required none = false
is_required (some _) = true

starts_with_slash : Bytes → Bool
starts_with_slash [] = false
starts_with_slash (c ∷ _) = c == b'/'

open_as : Bytes → Option ℕ → OpenElement
open_as name index = record { name = name; required_index = index }

-- `if (!self_closing) elements.push_back(…)`
push_element : Bool → OpenElement → Scanner → Scanner
push_element true element s = s
push_element false element s = record s { elements = element ∷ s.elements }

-- `<name …>`, with the slash of a self-closing tag taken off
open_element : Scanner → Bytes → Bool → Result PageError Scanner
unfolding open_as push_element mark_seen is_required starts_with_slash back_index
open_element s tag self_closing = do
  let name = before_whitespace tag
  guard (not (equal name [] || starts_with_slash name)) malformed_markup
  let index = required_tag_index name
  guard (not (is_required (back_index s.elements))) text_only
  s' ← mark_seen index s
  ok (push_element self_closing (open_as name index) s')

-- The tag without the slash at its back, and whether it had one; the bytes are given backwards too.
unslash : Bytes → Bytes → Bytes × Bool
unslash tag [] = (tag, false)
unslash tag (c ∷ backwards) =
    if c == b'/' then (trim_ascii_whitespace (reverse backwards), true) else (tag, false)

tag_element : Scanner → Bytes → Result PageError Scanner
unfolding close_element open_element unslash
tag_element s tag =
    let (open_tag, self_closing) = unslash tag (reverse tag) in
    if equal tag []
    then err malformed_markup
    else if starts_with_slash tag
    then close_element s.elements s (trim_ascii_whitespace (drop 1 tag))
    else open_element s open_tag self_closing

tag_step : Scanner → Option Cut → Step
tag_step s none = err unterminated_markup
tag_step s (some cut) = do
  s' ← tag_element s (trim_ascii_whitespace cut.before)
  ok (s', drop 1 cut.rest)

-- The body of the loop from the markup on, which the page goes on with.
markup_step : Scanner → Bytes → Step
unfolding skip_to cdata_section tag_step
markup_step s text =
    if starts_with (codes "<!--") text
    then skip_to unterminated_comment 3 s (find (codes "-->") (drop 4 text))
    else if starts_with (codes "<![CDATA[") text
    then cdata_section s (find (codes "]]>") (drop 9 text))
    else if starts_with (codes "<?") text
    then skip_to unterminated_markup 2 s (find (codes "?>") (drop 2 text))
    else if starts_with (codes "<!") text
    then err unsupported_markup
    else tag_step s (find_tag_end 0 (drop 1 text))

-- The scan's end, or `none` if the fuel ran out.
abbrev Scan : Type 0
Scan = Option (Result PageError Scanner)

-- The next round, `again`, starts behind the markup that this one read.
continue_with : (Scanner → Bytes → Scan) → Step → Scan
continue_with again (err e) = some (err e)
continue_with again (ok (s, rest)) = again s rest

-- by the cut before the next `<`
round : (Scanner → Bytes → Scan) → Scanner → Bytes → Option Cut → Scan
unfolding continue_with
round again s text none = some (ok (append_required_text s text))
round again s text (some cut) =
    continue_with again (markup_step (append_required_text s cut.before) cut.rest)

-- The `while` loop on fuel.
pub scan : ℕ → Scanner → Bytes → Scan
unfolding round
scan zero s text = none
scan (suc fuel) s [] = some (ok s)
scan (suc fuel) s (c ∷ text) = round (scan fuel) s (c ∷ text) (find (codes "<") (c ∷ text))

-- the last loop, from an index on
finish_field : ℕ → Bool → Bytes → Result PageError Bytes
finish_field index seen text =
    let value = trim_ascii_whitespace text in
    if not seen
    then if index == 0 then ok (codes "ATI Net F/T") else err (not_exactly_once index)
    else if equal value []
    then err (is_empty index)
    else if ltb maximum_field_length (length value)
    then err (is_too_long index)
    else ok value

finish_fields : ℕ → List Bytes → List Bool → Result PageError (List Bytes)
unfolding finish_field
finish_fields index (text ∷ fields) (seen ∷ later) = do
  value ← finish_field index seen text
  values ← finish_fields (suc index) fields later
  ok (value ∷ values)
finish_fields index _ _ = ok []

-- by the elements that are still open
finish_closed : List OpenElement → Scanner → Result PageError (List Bytes)
finish_closed [] s = finish_fields 0 s.fields s.seen
finish_closed (_ ∷ _) s = err malformed_nesting

finish_scan : Scanner → Result PageError (List Bytes)
unfolding finish_fields finish_closed
finish_scan s = finish_closed s.elements s

abbrev pub initial : Scanner
initial = record {
  fields = [] ∷ [] ∷ [] ∷ [] ∷ [] ∷ [];
  seen = false ∷ false ∷ false ∷ false ∷ false ∷ [];
  elements = [];
}

finish_result : Option (Result PageError Scanner) → Option (Result PageError (List Bytes))
unfolding finish_scan
finish_result none = none
finish_result (some result) = some (result >>= finish_scan)

-- A round reads at least one byte, so one more round than bytes is enough.
pub extract_required_fields : Bytes → Option (Result PageError (List Bytes))
unfolding finish_result scan
extract_required_fields xml = finish_result (scan (suc (length xml)) initial xml)
