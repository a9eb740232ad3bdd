-- ===== src/XmlConfig/Fields/Termination.antt =====
-- The scan of a page ends: each round reads at least one byte.
use netft_cpp.Base.{
  ℕ, zero, suc, ◌≤◌, ◌<◌, ◌≡◌, refl, ap, Bool, true, false, List, [], ◌∷◌, Option, none, some,
  Result, ok, err, ◌>>=◌, drop, length, length-append, length-drop, if◌then◌else◌, arith,
}
use netft_cpp.Base.Text.{Bytes, codes}
use netft_cpp.XmlConfig.Fields.{
  PageError, Scanner, Step, skip_to, cdata_section, tag_step, markup_step, Scan, continue_with,
  round, scan, finish_scan, finish_result, initial, append_required_text, extract_required_fields,
}
use netft_cpp.XmlConfig.Markup.{Cut, find, starts_with}
use netft_cpp.XmlConfig.Markup.Cuts.{Splits, find-Splits, find_tag_end-Splits, Begins, find-Begins}

-- A step that goes on leaves less than `n` bytes to read.
abbrev Shrinks : ℕ → Step → Type 0
Shrinks n (ok (s, rest)) = length rest < n
Shrinks n (err e) = Unit {0}

cut_length : (text : Bytes) (cut : Cut) → Splits text (some cut) → length cut.rest ≤ length text
cut_length text cut h = omega (arith, ap length h, length-append cut.before cut.rest)

skip_to-Shrinks :
    (e : PageError) (size n : ℕ) (s : Scanner) (text : Bytes) (cut : Option Cut)
    → length text < n
    → Splits text cut
    → Shrinks n (skip_to e size s cut)
unfolding skip_to
skip_to-Shrinks e size n s text none h c = tt
skip_to-Shrinks e size n s text (some cut) h c =
    omega (arith, cut_length text cut c, length-drop size cut.rest)

cdata_section-Shrinks :
    (n : ℕ) (s : Scanner) (text : Bytes) (cut : Option Cut)
    → length text < n
    → Splits text cut
    → Shrinks n (cdata_section s cut)
unfolding cdata_section
cdata_section-Shrinks n s text none h c = tt
cdata_section-Shrinks n s text (some cut) h c =
    omega (arith, cut_length text cut c, length-drop 3 cut.rest)

bind-Shrinks :
    (n : ℕ) (m : Result PageError Scanner) (rest : Bytes)
    → length rest < n
    → Shrinks n (m >>= λ s. ok (s, rest))
bind-Shrinks n (ok s) rest h = h
bind-Shrinks n (err e) rest h = tt

tag_step-Shrinks :
    (n : ℕ) (s : Scanner) (text : Bytes) (cut : Option Cut)
    → length text < n
    → Splits text cut
    → Shrinks n (tag_step s cut)
unfolding tag_step
tag_step-Shrinks n s text none h c = tt
tag_step-Shrinks n s text (some cut) h c =
    bind-Shrinks n _ (drop 1 cut.rest)
      (omega (arith, cut_length text cut c, length-drop 1 cut.rest))

markup_step-Shrinks :
    (s : Scanner) (c : ℕ) (text : Bytes) → Shrinks (suc (length text)) (markup_step s (c ∷ text))
unfolding markup_step
markup_step-Shrinks s c text =
    branch (starts_with (codes "<!--") (c ∷ text)) _ _
      (skip_to-Shrinks _ 3 n s (behind 3) _ (shorter 3) (find-Splits _ _))
      (branch (starts_with (codes "<![CDATA[") (c ∷ text)) _ _
        (cdata_section-Shrinks n s (behind 8) _ (shorter 8) (find-Splits _ _))
        (branch (starts_with (codes "<?") (c ∷ text)) _ _
          (skip_to-Shrinks _ 2 n s (behind 1) _ (shorter 1) (find-Splits _ _))
          (branch (starts_with (codes "<!") (c ∷ text)) _ _ tt
            (tag_step-Shrinks n s text _ (omega arith) (find_tag_end-Splits 0 text)))))
  where
    n : ℕ
    n = suc (length text)

    behind : ℕ → Bytes
    behind k = drop k text

    shorter : (k : ℕ) → length (drop k text) < n
    shorter k = omega (arith, length-drop k text)

    branch : (b : Bool) (x y : Step) → Shrinks n x → Shrinks n y → Shrinks n (if b then x else y)
    branch true x y hx hy = hx
    branch false x y hx hy = hy

abbrev Ends : Scan → Type 0
Ends r = (result : Result PageError Scanner) × (r ≡ some result)

-- The next round ends on every text of fewer than `n` bytes.
abbrev EndsBelow : ℕ → (Scanner → Bytes → Scan) → Type 0
EndsBelow n again = (s : Scanner) (text : Bytes) → length text < n → Ends (again s text)

continue_with-Ends :
    (n : ℕ) (again : Scanner → Bytes → Scan) (step : Step)
    → EndsBelow n again
    → Shrinks n step
    → Ends (continue_with again step)
unfolding continue_with
continue_with-Ends n again (err e) h k = (err e, refl)
continue_with-Ends n again (ok (s, rest)) h k = h s rest k

Shrinks-mono : (m n : ℕ) (step : Step) → m ≤ n → Shrinks m step → Shrinks n step
Shrinks-mono m n (err e) h k = tt
Shrinks-mono m n (ok (s, rest)) h k = omega arith

step-Shrinks :
    (n : ℕ) (s : Scanner) (text : Bytes)
    → length text ≤ n
    → starts_with (codes "<") text ≡ true
    → Shrinks n (markup_step s text)
step-Shrinks n s [] h b = absurd (false_not_true b)
  where
    false_not_true : starts_with (codes "<") [] ≡ true → ⊥
    false_not_true = unfold starts_with in λ e. cc
step-Shrinks n s (c ∷ text) h b = Shrinks-mono _ n _ h (markup_step-Shrinks s c text)

round-Ends :
    (n : ℕ) (again : Scanner → Bytes → Scan) (s : Scanner) (text : Bytes) (cut : Option Cut)
    → EndsBelow n again
    → length text ≤ n
    → Splits text cut
    → Begins (codes "<") cut
    → Ends (round again s text cut)
unfolding round
round-Ends n again s text none h l c b = (ok (append_required_text s text), refl)
round-Ends n again s text (some cut) h l c b =
    continue_with-Ends n again _ h
      (step-Shrinks n _ cut.rest (omega (arith, cut_length text cut c)) b)

scan-Ends : (fuel : ℕ) → EndsBelow fuel (scan fuel)
unfolding scan
scan-Ends zero s text h = absurd (omega arith)
scan-Ends (suc fuel) s [] h = (ok s, refl)
scan-Ends (suc fuel) s (c ∷ text) h =
    round-Ends fuel (scan fuel) s (c ∷ text) (find (codes "<") (c ∷ text)) (scan-Ends fuel)
      (omega arith) (find-Splits (codes "<") (c ∷ text)) (find-Begins (codes "<") (c ∷ text))

-- The scan of any page ends, with the fields or with an error of the page: the fuel, one round more
-- than the page has bytes, never runs out.
pub extract_required_fields_ends :
    (xml : Bytes)
    → (result : Result PageError (List Bytes)) × (extract_required_fields xml ≡ some result)
unfolding extract_required_fields
extract_required_fields_ends xml =
    let (result, e) = scan-Ends (suc (length xml)) initial xml (omega arith) in
    (result >>= finish_scan, ap finish_result e)
