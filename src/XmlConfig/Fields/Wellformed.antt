-- ===== src/XmlConfig/Fields/Wellformed.antt =====
-- Every field that `extract_required_fields` returns is usable.
use netft_cpp.Base.{
  ℕ, suc, ◌≤◌, ◌≡◌, ◌≢◌, inl, inr, refl, ap, Bool, true, false, List, [], ◌∷◌, none, some, ok, err,
  >>=-eq-ok, length, All, ◌==◌, arith, Bool-cases,
}
use netft_cpp.Base.Text.{Bytes, codes, equal_iff}
use netft_cpp.XmlConfig.Fields.{
  Scanner, Scan, scan, finish_field, finish_fields, finish_closed, finish_scan, OpenElement,
  finish_result, initial, extract_required_fields, maximum_field_length,
}
use netft_cpp.XmlConfig.Fields.Shapes.{Shape, kept, scan-Shaped, ShapedScan}
use netft_cpp.XmlConfig.Markup.{is_ascii_whitespace, trim_ascii_whitespace}
use netft_cpp.XmlConfig.Markup.Trim.{Trimmed, trim_ascii_whitespace-Trims}

-- What a field's value must be.
pub record IsField (value : Bytes) : Type 0 where
  pub trimmed : Trimmed value
  pub nonempty : value ≢ []
  pub bounded : length value ≤ maximum_field_length

default-IsField : IsField (codes "ATI Net F/T")
unfolding is_ascii_whitespace
default-IsField = record {
  trimmed = record { front = refl; back = refl };
  nonempty = λ e. cc;
  bounded = omega arith;
}

finish_field-IsField :
    (index : ℕ) (seen : Bool) (text : Bytes) (value : Bytes)
    → finish_field index seen text ≡ ok value
    → IsField value
unfolding finish_field
finish_field-IsField index false text value e = elim (Bool-cases (index == 0)) [
  | inl first ↦ let v : codes "ATI Net F/T" ≡ value = ground arith in rw (← v) default-IsField
  | inr later ↦ let never : false ≡ true = ground arith in cc
]
finish_field-IsField index true text value e =
    let trims = trim_ascii_whitespace-Trims text in
    let v : trim_ascii_whitespace text ≡ value = ground arith in
    rw (← v) (record {
      trimmed = trims.trimmed;
      nonempty = ground (arith, equal_iff (trim_ascii_whitespace text) []);
      bounded = ground arith;
    })

finish_fields-IsField :
    (index : ℕ) (texts : List Bytes) (seen : List Bool) (values : List Bytes)
    → length texts ≡ length seen
    → finish_fields index texts seen ≡ ok values
    → All IsField values × (length values ≡ length texts)
unfolding finish_fields
finish_fields-IsField index [] [] values l e = let v : [] ≡ values = cc in rw (← v) (tt, refl)
finish_fields-IsField index [] (b ∷ seen) values l e = absurd (omega arith)
finish_fields-IsField index (t ∷ texts) [] values l e = absurd (omega arith)
finish_fields-IsField index (t ∷ texts) (b ∷ seen) values l e =
    let (value, one, others) = >>=-eq-ok (finish_field index b t) _ e in
    let (rest, many, whole) = >>=-eq-ok (finish_fields (suc index) texts seen) _ others in
    let (valid, same) = finish_fields-IsField (suc index) texts seen rest (omega arith) many in
    let v : value ∷ rest ≡ values = cc in
    rw (← v) ((finish_field-IsField index b t value one, valid), ap suc same)

finish_scan-IsField :
    (s : Scanner) (values : List Bytes)
    → Shape s
    → finish_scan s ≡ ok values
    → All IsField values × (length values ≡ 5)
unfolding finish_scan
finish_scan-IsField s values h e = closed s.elements e
  where
    closed :
        (elements : List OpenElement)
        → finish_closed elements s ≡ ok values
        → All IsField values × (length values ≡ 5)
    closed [] e' =
        let (valid, same) =
          finish_fields-IsField 0 s.fields s.seen values (omega (arith, h.texts, h.flags)) e' in
        (valid, omega (arith, same, h.texts))
    closed (x ∷ elements) e' = cc

finish_result-IsField :
    (r : Scan) (values : List Bytes)
    → ShapedScan r
    → finish_result r ≡ some (ok values)
    → All IsField values × (length values ≡ 5)
unfolding finish_result
finish_result-IsField none values h e = cc
finish_result-IsField (some (err x)) values h e = cc
finish_result-IsField (some (ok s)) values (kept h) e = finish_scan-IsField s values h (cc)

-- If the page is read, there are five fields, and each is non-empty, has at most 128 bytes and no
-- whitespace at its ends.
pub extract_required_fields-IsField :
    (xml : Bytes) (values : List Bytes)
    → extract_required_fields xml ≡ some (ok values)
    → All IsField values × (length values ≡ 5)
unfolding extract_required_fields
extract_required_fields-IsField xml values e =
    finish_result-IsField (scan (suc (length xml)) initial xml) values
      (scan-Shaped (suc (length xml)) initial xml (record { texts = refl; flags = refl })) e
