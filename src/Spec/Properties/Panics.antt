-- ===== src/Spec/Properties/Panics.antt =====
-- The annotation that ends the program in `initSystemdProps` of specconv/spec_linux.go.
use libcontainer.Prelude.{
  ℕ, ◌≤◌, true, false, ◌&&◌, [], ◌∷◌, ◌++◌, Option, none, some, ltb, leb, ◌==◌, length,
  bytes_eq_iff, ok, err, err_step, err_ne_ok, drop, ◌≡◌, ◌↔◌, ◌≢◌, ◌⊎◌, inl, inr, refl, sym, arith,
  Bool-cases, Option-cases, subst, ap, ◌∙◌,
}
use libcontainer.Text.{Bytes, has_prefix}
use libcontainer.Spec.{index_panic, Annotation}
use libcontainer.Text.{trim_prefix, trim_suffix}
use libcontainer.Spec.Properties.{
  Variant, check_property_name, convert_sec_to_usec, last_byte, key_prefix, sec_suffix, parsed,
  sec_property, renamed, property_of,
}
use libcontainer.Spec.Properties.Names.{check_property_name_ok}

trim_suffix_empty : (s t : Bytes) → trim_suffix s t ≡ [] → (s ≡ []) ⊎ (s ≡ t)
unfolding trim_suffix
trim_suffix_empty [] t h = inl refl
trim_suffix_empty (c ∷ s) t h = ground (arith, bytes_eq_iff (c ∷ s) t)

last_byte-none : (s : Bytes) → last_byte s ≡ none → s ≡ []
unfolding last_byte
last_byte-none [] h = refl
last_byte-none (c ∷ []) h = ground arith
last_byte-none (c ∷ d ∷ s) h = absurd (ne (last_byte-none (d ∷ s) h))
  where
    ne : ◌≢◌ {A = Bytes} (d ∷ s) []
    ne e = ground arith

has_prefix_split : (s p : Bytes) → has_prefix s p ≡ true → s ≡ p ++ drop (length p) s
unfolding has_prefix
has_prefix_split s [] h = refl
has_prefix_split [] (c ∷ p) h = ground arith
has_prefix_split (d ∷ s) (c ∷ p) h = ground (arith, has_prefix_split s p)

check_panics : (s : Bytes) → check_property_name s ≢ err index_panic
unfolding check_property_name
check_panics s h = ground arith

parsed_panics : (o : Option Variant) → parsed o ≢ err index_panic
parsed_panics none h = ground arith
parsed_panics (some v) h = ground arith

convert_panics : (f : ℕ → ℕ) (v : Variant) → convert_sec_to_usec f v ≢ err index_panic
unfolding convert_sec_to_usec
convert_panics f v h = ground arith

-- The name whose change indexes in front of its first byte.
abbrev IsBareSuffix : Bytes → Type 0
IsBareSuffix name = name ≡ sec_suffix

has_value : (o : Option Variant) (v : Variant) → parsed o ≡ ok v → o ≢ none
has_value none v h = absurd (err_ne_ok _ _ h)
has_value (some w) v h = λ e. ground arith

same_length :
    (k : Bytes)
    → has_prefix k key_prefix ≡ false
    → (length (trim_prefix k key_prefix) == length k) ≢ false
same_length k e h = ground arith

not_empty : (s : Bytes) → 3 ≤ length s → s ≢ []
not_empty s n z = ground (arith, n, z)

module _ (parse_variant : Bytes → Option Variant) (float_usec : ℕ → ℕ) where
  sec_property_panics :
      (name trim_name : Bytes) (ch : Option ℕ) (v : Variant)
      → sec_property parse_variant float_usec name trim_name ch v ≡ err index_panic
      → ch ≡ none
  unfolding sec_property
  sec_property_panics name trim_name none v h = refl
  sec_property_panics name trim_name (some ch) v h =
      elim (Bool-cases (leb b'a' ch && leb ch b'z')) [
        | inl e ↦ elim (err_step (convert_sec_to_usec float_usec v) _ (rw e at h)) [
          | inl c ↦ absurd (convert_panics float_usec v c)
          | inr (w, _, last) ↦ absurd (err_ne_ok _ _ (sym last))
        ]
        | inr e ↦ absurd (err_ne_ok _ _ (sym (rw e at h)))
      ]

  renamed_panics :
      (name : Bytes) (v : Variant)
      → 3 ≤ length name
      → renamed parse_variant float_usec name v ≡ err index_panic
      → IsBareSuffix name
  unfolding renamed
  renamed_panics name v n h =
      let trim_name = trim_suffix name sec_suffix in
      elim (Bool-cases (ltb (length trim_name) (length name))) [
        | inl e ↦
            let bare =
              last_byte-none trim_name
                (sec_property_panics name trim_name (last_byte trim_name) v (rw e at h)) in
            elim (trim_suffix_empty name sec_suffix bare) [
              | inl z ↦ absurd (not_empty name n z)
              | inr same ↦ same
            ]
        | inr e ↦ absurd (err_ne_ok _ _ (sym (rw e at h)))
      ]

  -- The key of an annotation with a name that was looked at.
  whole_key :
      (k : Bytes)
      → (length (trim_prefix k key_prefix) == length k) ≡ false
      → IsBareSuffix (trim_prefix k key_prefix)
      → k ≡ key_prefix ++ sec_suffix
  whole_key k ne bare = elim (Bool-cases (has_prefix k key_prefix)) [
    | inl e ↦ has_prefix_split k key_prefix e ∙ ap (λ t. key_prefix ++ t) (rw e at bare)
    | inr e ↦ absurd (same_length k e ne)
  ]

  panics_only :
      (a : Annotation)
      → property_of parse_variant float_usec a ≡ err index_panic
      → (a.key ≡ key_prefix ++ sec_suffix) × (parse_variant a.value ≢ none)
  unfolding property_of
  panics_only a h =
      let name = trim_prefix a.key key_prefix in
      elim (Bool-cases (length name == length a.key)) [
        | inl e ↦ absurd (err_ne_ok _ _ (sym (rw e at h)))
        | inr e ↦ elim (err_step (check_property_name name) _ (rw e at h)) [
          | inl c ↦ absurd (check_panics name c)
          | inr (b, checked, rest) ↦ elim (err_step (parsed (parse_variant a.value)) _ rest) [
            | inl c ↦ absurd (parsed_panics _ c)
            | inr (v, value, last) ↦ (
              whole_key a.key e
                  (renamed_panics name v (check_property_name_ok name b checked).0 last),
              has_value (parse_variant a.value) v value,
            )
          ]
        ]
      ]

  panics_there :
      (value : Bytes)
      → parse_variant value ≢ none
      → property_of parse_variant float_usec
          (record { key = key_prefix ++ sec_suffix; value = value })
        ≡ err index_panic
  unfolding property_of check_property_name has_prefix renamed sec_property trim_suffix last_byte
  panics_there value found = elim (Option-cases (parse_variant value)) [
    | inl e ↦ absurd (found e)
    | inr (v, e) ↦ rw e refl
  ]

  -- One annotation panics the program exactly if its key is the prefix and "Sec", with nothing
  -- between them, and its value is parsed.
  pub property_of_panics :
      (a : Annotation)
      → (property_of parse_variant float_usec a ≡ err index_panic)
        ↔ ((a.key ≡ key_prefix ++ sec_suffix) × (parse_variant a.value ≢ none))
  unfolding property_of
  property_of_panics a = (
    panics_only a,
    λ (k, found).
        subst
          (λ key.
            property_of parse_variant float_usec (record { key = key; value = a.value })
            ≡ err index_panic)
          (sym k) (panics_there a.value found),
  )
