-- ===== src/XmlConfig/Fields/Shapes.antt =====
-- The scan keeps one text and one flag for each required tag.
use netft_cpp.Base.{
  ℕ, zero, suc, ◌≡◌, refl, ap, Bool, true, false, not, List, [], ◌∷◌, ◌++◌, Option, none, some,
  Result, ok, err, ◌>>=◌, drop, length, set, get_or, if◌then◌else◌, arith, guard, ◌||◌,
}
use netft_cpp.Base.Text.{Bytes, codes, equal}
use netft_cpp.XmlConfig.Fields.{
  PageError, OpenElement, Scanner, Step, Scan, append_at, append_required_text, back_index, skip_to,
  cdata_section, close_element, mark_seen, open_element, open_as, push_element, is_required,
  starts_with_slash, tag_element, tag_step, markup_step, continue_with, round, scan,
  required_tag_index,
}
use netft_cpp.XmlConfig.Markup.{
  Cut, find, find_tag_end, starts_with, trim_ascii_whitespace, before_whitespace,
}

-- One flag and one text for each required tag.
pub record Shape (s : Scanner) : Type 0 where
  pub texts : length s.fields ≡ 5
  pub flags : length s.seen ≡ 5

length-set : {A : Type 0} (xs : List A) (i : ℕ) (v : A) → length (set xs i v) ≡ length xs
length-set [] i v = refl
length-set (x ∷ xs) zero v = refl
length-set (x ∷ xs) (suc i) v = ap suc (length-set xs i v)

append_required_text-Shape :
    (s : Scanner) (text : Bytes) → Shape s → Shape (append_required_text s text)
unfolding append_required_text
append_required_text-Shape s text h = record {
  texts = same (back_index s.elements);
  flags = h.flags;
}
  where
    same : (index : Option ℕ) → length (append_at index text s.fields) ≡ 5
    same none = h.texts
    same (some i) = omega (arith, length-set s.fields i (get_or s.fields i [] ++ text), h.texts)

pub data Shaped : Result PageError Scanner → Type 0 where
  kept : {s : Scanner} → Shape s → Shaped (ok s)
  failed : {e : PageError} → Shaped (err e)

pub data ShapedStep : Step → Type 0 where
  goes_on : {s : Scanner} {rest : Bytes} → Shape s → ShapedStep (ok (s, rest))
  stops : {e : PageError} → ShapedStep (err e)

branch :
    (b : Bool) (x y : Result PageError Scanner) → Shaped x → Shaped y → Shaped (if b then x else y)
branch true x y hx hy = hx
branch false x y hx hy = hy

branch_step :
    (b : Bool) (x y : Step) → ShapedStep x → ShapedStep y → ShapedStep (if b then x else y)
branch_step true x y hx hy = hx
branch_step false x y hx hy = hy

close_element-Shaped :
    (elements : List OpenElement) (s : Scanner) (name : Bytes)
    → Shape s
    → Shaped (close_element elements s name)
unfolding close_element
close_element-Shaped [] s name h = failed
close_element-Shaped (e ∷ elements) s name h =
    branch _ _ _ failed (kept (record { texts = h.texts; flags = h.flags }))

mark_seen-Shaped : (index : Option ℕ) (s : Scanner) → Shape s → Shaped (mark_seen index s)
unfolding mark_seen
mark_seen-Shaped none s h = kept h
mark_seen-Shaped (some i) s h =
    branch _ _ _ failed
      (kept (record { texts = h.texts; flags = omega (arith, length-set s.seen i true, h.flags) }))

bind-Shaped :
    (m : Result PageError Scanner) (f : Scanner → Result PageError Scanner)
    → Shaped m
    → ((s : Scanner) → Shape s → Shaped (f s))
    → Shaped (m >>= f)
bind-Shaped m f (kept {s} h) k = k s h
bind-Shaped m f failed k = failed

guard-Shaped :
    (m : Result PageError (Unit {0})) (k : Result PageError Scanner)
    → Shaped k
    → Shaped (m >>= λ _. k)
guard-Shaped (ok u) k h = h
guard-Shaped (err e) k h = failed

push_element-Shape :
    (b : Bool) (element : OpenElement) (s : Scanner) → Shape s → Shape (push_element b element s)
unfolding push_element
push_element-Shape true element s h = h
push_element-Shape false element s h = record { texts = h.texts; flags = h.flags }

open_element-Shaped :
    (s : Scanner) (tag : Bytes) (self_closing : Bool)
    → Shape s
    → Shaped (open_element s tag self_closing)
unfolding open_element
open_element-Shaped s tag self_closing h =
    let name = before_whitespace tag in
    let index = required_tag_index name in
    guard-Shaped (guard (not (equal name [] || starts_with_slash name)) PageError.malformed_markup)
      _
      (guard-Shaped (guard (not (is_required (back_index s.elements))) PageError.text_only) _ (
        bind-Shaped (mark_seen index s)
          (λ s'. ok (push_element self_closing (open_as name index) s'))
          (mark_seen-Shaped index s h)
          (λ s' h'. kept (push_element-Shape self_closing (open_as name index) s' h'))))

tag_element-Shaped : (s : Scanner) (tag : Bytes) → Shape s → Shaped (tag_element s tag)
unfolding tag_element
tag_element-Shaped s tag h =
    branch _ _ _ failed
      (branch _ _ _ (close_element-Shaped s.elements s _ h) (open_element-Shaped s _ _ h))

tag_step-Shaped : (s : Scanner) (cut : Option Cut) → Shape s → ShapedStep (tag_step s cut)
unfolding tag_step
tag_step-Shaped s none h = stops
tag_step-Shaped s (some cut) h =
    after (tag_element s (trim_ascii_whitespace cut.before)) (tag_element-Shaped s _ h)
  where
    after :
        (m : Result PageError Scanner)
        → Shaped m
        → ShapedStep (m >>= λ s'. ok (s', drop 1 cut.rest))
    after m (kept k) = goes_on k
    after m failed = stops

skip_to-Shaped :
    (e : PageError) (size : ℕ) (s : Scanner) (cut : Option Cut)
    → Shape s
    → ShapedStep (skip_to e size s cut)
unfolding skip_to
skip_to-Shaped e size s none h = stops
skip_to-Shaped e size s (some cut) h = goes_on h

cdata_section-Shaped : (s : Scanner) (cut : Option Cut) → Shape s → ShapedStep (cdata_section s cut)
unfolding cdata_section
cdata_section-Shaped s none h = stops
cdata_section-Shaped s (some cut) h = goes_on (append_required_text-Shape s cut.before h)

markup_step-Shaped : (s : Scanner) (text : Bytes) → Shape s → ShapedStep (markup_step s text)
unfolding markup_step
markup_step-Shaped s text h =
    branch_step (starts_with (codes "<!--") text) _ _
      (skip_to-Shaped PageError.unterminated_comment 3 s (find (codes "-->") (drop 4 text)) h)
      (branch_step (starts_with (codes "<![CDATA[") text) _ _
        (cdata_section-Shaped s (find (codes "]]>") (drop 9 text)) h)
        (branch_step (starts_with (codes "<?") text) _ _
          (skip_to-Shaped PageError.unterminated_markup 2 s (find (codes "?>") (drop 2 text)) h)
          (branch_step (starts_with (codes "<!") text) (err PageError.unsupported_markup) _ stops
            (tag_step-Shaped s (find_tag_end 0 (drop 1 text)) h))))

abbrev pub ShapedScan : Scan → Type 0
ShapedScan none = Unit {0}
ShapedScan (some result) = Shaped result

abbrev pub KeepsShape : (Scanner → Bytes → Scan) → Type 0
KeepsShape again = (s : Scanner) (text : Bytes) → Shape s → ShapedScan (again s text)

continue_with-Shaped :
    (again : Scanner → Bytes → Scan) (step : Step)
    → KeepsShape again
    → ShapedStep step
    → ShapedScan (continue_with again step)
unfolding continue_with
continue_with-Shaped again step k (goes_on {s} {rest} h) = k s rest h
continue_with-Shaped again step k stops = failed

round-Shaped :
    (again : Scanner → Bytes → Scan) (s : Scanner) (text : Bytes) (cut : Option Cut)
    → KeepsShape again
    → Shape s
    → ShapedScan (round again s text cut)
unfolding round
round-Shaped again s text none k h = kept (append_required_text-Shape s text h)
round-Shaped again s text (some cut) k h =
    continue_with-Shaped again _ k
      (markup_step-Shaped _ cut.rest (append_required_text-Shape s cut.before h))

pub scan-Shaped : (fuel : ℕ) → KeepsShape (scan fuel)
unfolding scan
scan-Shaped zero s text h = tt
scan-Shaped (suc fuel) s [] h = kept h
scan-Shaped (suc fuel) s (c ∷ text) h =
    round-Shaped (scan fuel) s (c ∷ text) (find (codes "<") (c ∷ text)) (scan-Shaped fuel) h
