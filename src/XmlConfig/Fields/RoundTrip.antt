-- ===== src/XmlConfig/Fields/RoundTrip.antt =====
-- Reading back a page that was written from its fields.
use netft_cpp.Base.{
  ℕ, suc, ◌+◌, ◌-◌, ◌*◌, ◌≤◌, ◌≡◌, refl, ap, ◌∙◌, Bool, true, false, List, [], ◌∷◌, ◌++◌, some, ok,
  length, length-append, arith,
}
use netft_cpp.Base.Text.{Bytes, codes, equal_iff}
use netft_cpp.XmlConfig.Fields.{
  scan, finish_field, finish_fields, finish_result, initial, extract_required_fields,
}
use netft_cpp.XmlConfig.Fields.Elements.{
  Plain, elements, AreFresh, texts_after, seen_after, rounds, page, tag, close_tag, scan-page,
}
use netft_cpp.XmlConfig.Fields.Wellformed.{IsField}
use netft_cpp.XmlConfig.Markup.Trim.{trim_Trimmed}

rounds-eq : (items : List (ℕ × Bytes)) (fuel : ℕ) → rounds items fuel ≡ 2 * length items + fuel
rounds-eq [] fuel = omega arith
rounds-eq (item ∷ items) fuel = omega (arith, rounds-eq items fuel)

-- Each item takes more bytes than rounds.
length-elements :
    (items : List (ℕ × Bytes)) (rest : Bytes)
    → 2 * length items + length rest ≤ length (elements items rest)
length-elements [] rest = omega arith
length-elements ((index, text) ∷ items) rest = omega (
  arith,
  length-append (tag index) (b'>' ∷ (text ++ close_tag (tag index) (elements items rest))),
  length-append text (close_tag (tag index) (elements items rest)),
  length-append (tag index) (b'>' ∷ elements items rest),
  length-elements items rest,
)

abbrev no_texts : List Bytes
no_texts = [] ∷ [] ∷ [] ∷ [] ∷ [] ∷ []

abbrev none_seen : List Bool
none_seen = false ∷ false ∷ false ∷ false ∷ false ∷ []

extract_required_fields-page :
    (items : List (ℕ × Bytes))
    → AreFresh none_seen items
    → extract_required_fields (page items)
      ≡ some (finish_fields 0 (texts_after no_texts items) (seen_after none_seen items))
unfolding extract_required_fields
extract_required_fields-page items fresh =
    let n = length (page items) in
    let spare = n - 2 * length items - 2 in
    let enough : n ≡ rounds items (suc (suc spare)) = omega (
      arith,
      rounds-eq items (suc (suc spare)),
      length-elements items (close_tag (codes "netft") []),
    ) in
    ap (λ f. finish_result (scan (suc f) initial (page items))) enough
    ∙ ap finish_result (scan-page items spare no_texts none_seen fresh)

-- A text that can stand in a page and be read back.
abbrev pub IsText : Bytes → Type 0
IsText v = IsField v × Plain v

finish_field-IsText : (index : ℕ) (v : Bytes) → IsField v → finish_field index true v ≡ ok v
unfolding finish_field
finish_field-IsText index v f =
    rw (trim_Trimmed v f.trimmed) (ground (arith, f.nonempty, f.bounded, equal_iff v []))

module _ (force torque force_unit torque_unit : Bytes) where
  abbrev pub calibration_items : List (ℕ × Bytes)
  calibration_items = (1, force) ∷ (2, torque) ∷ (3, force_unit) ∷ (4, torque_unit) ∷ []

  -- A page that holds the five fields is read back: product name, counts per force and per torque
  -- unit, and the units, each as it was written.
  pub extract_required_fields_complete :
      (name : Bytes)
      → IsText name
      → IsText force
      → IsText torque
      → IsText force_unit
      → IsText torque_unit
      → extract_required_fields (page ((0, name) ∷ calibration_items))
        ≡ some (ok (name ∷ force ∷ torque ∷ force_unit ∷ torque_unit ∷ []))
  unfolding finish_fields
  extract_required_fields_complete name n f t u v =
      extract_required_fields-page ((0, name) ∷ calibration_items) (fresh n.1 f.1 t.1 u.1 v.1)
      ∙ rw (
        finish_field-IsText 0 name n.0,
        finish_field-IsText 1 force f.0,
        finish_field-IsText 2 torque t.0,
        finish_field-IsText 3 force_unit u.0,
        finish_field-IsText 4 torque_unit v.0,
      )
    where
      fresh :
          Plain name
          → Plain force
          → Plain torque
          → Plain force_unit
          → Plain torque_unit
          → AreFresh none_seen ((0, name) ∷ calibration_items)
      fresh n' f' t' u' v' = (
        omega arith,
        refl,
        n',
        (
          omega arith,
          refl,
          f',
          (omega arith, refl, t', (omega arith, refl, u', (omega arith, refl, v', tt))),
        ),
      )

  -- A page of legacy firmware, which has the calibration but no product name, is read with the
  -- generic name "ATI Net F/T".
  pub extract_required_fields_legacy :
      IsText force
      → IsText torque
      → IsText force_unit
      → IsText torque_unit
      → extract_required_fields (page calibration_items)
        ≡ some (ok (codes "ATI Net F/T" ∷ force ∷ torque ∷ force_unit ∷ torque_unit ∷ []))
  unfolding finish_fields finish_field
  extract_required_fields_legacy f t u v =
      extract_required_fields-page calibration_items (
        omega arith,
        refl,
        f.1,
        (omega arith, refl, t.1, (omega arith, refl, u.1, (omega arith, refl, v.1, tt))),
      )
      ∙ rw (
        finish_field-IsText 1 force f.0,
        finish_field-IsText 2 torque t.0,
        finish_field-IsText 3 force_unit u.0,
        finish_field-IsText 4 torque_unit v.0,
      )
