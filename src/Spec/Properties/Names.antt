-- ===== src/Spec/Properties/Names.antt =====
-- The names of systemd's properties that specconv/spec_linux.go takes from annotations.
use libcontainer.Prelude.{
  ℕ, ◌≤◌, Bool, true, ◌&&◌, List, [], ◌∷◌, ◌++◌, Option, none, some, ltb, leb, ◌==◌, length,
  length-append, ok, ok_step, ok-injective, err_ne_ok, ◌≡◌, inl, inr, refl, arith, Bool-cases, All,
  subst,
}
use libcontainer.Text.{Bytes, codes}
use libcontainer.Spec.{Annotation}
use libcontainer.Text.{trim_prefix, trim_suffix}
use libcontainer.Spec.Properties.{
  Variant, Property, letters_only, check_property_name, convert_sec_to_usec, last_byte, key_prefix,
  sec_suffix, parsed, sec_property, renamed, property_of, with_property, init_systemd_props,
}

-- A name that systemd takes.
abbrev pub IsPropertyName : Bytes → Type 0
IsPropertyName s = (3 ≤ length s) × (letters_only s ≡ true)

pub check_property_name_ok :
    (s : Bytes) (b : Bool) → check_property_name s ≡ ok b → IsPropertyName s
unfolding check_property_name
check_property_name_ok s b h = ground arith

letters_only-append : (s t : Bytes) → letters_only (s ++ t) ≡ (letters_only s && letters_only t)
unfolding letters_only
letters_only-append [] t = refl
letters_only-append (c ∷ s) t = ground (arith, letters_only-append s t)

letters_only-trim_suffix :
    (s t : Bytes) → letters_only s ≡ true → letters_only (trim_suffix s t) ≡ true
unfolding letters_only trim_suffix
letters_only-trim_suffix [] t h = refl
letters_only-trim_suffix (c ∷ s) t h = ground (arith, letters_only-trim_suffix s t)

usec_name : (s : Bytes) → letters_only s ≡ true → IsPropertyName (s ++ codes "USec")
unfolding letters_only
usec_name s h = (
  omega (arith, length-append s (codes "USec")),
  rw (letters_only-append s (codes "USec"), h) refl,
)

-- What a property's name must be, if there is one.
abbrev Named : Option Property → Type 0
Named none = Unit
Named (some p) = IsPropertyName p.name

module _ (parse_variant : Bytes → Option Variant) (float_usec : ℕ → ℕ) where
  sec_property-Named :
      (name trim_name : Bytes) (ch : Option ℕ) (v : Variant) (p : Option Property)
      → IsPropertyName name
      → letters_only trim_name ≡ true
      → sec_property parse_variant float_usec name trim_name ch v ≡ ok p
      → Named p
  unfolding sec_property
  sec_property-Named name trim_name none v p n t h = absurd (err_ne_ok _ _ h)
  sec_property-Named name trim_name (some ch) v p n t h =
      elim (Bool-cases (leb b'a' ch && leb ch b'z')) [
        | inl e ↦
            let (w, _, last) = ok_step (convert_sec_to_usec float_usec v) _ (rw e at h) in
            subst Named (ok-injective _ p last) (usec_name trim_name t)
        | inr e ↦ subst Named (ok-injective _ p (rw e at h)) n
      ]

  renamed-Named :
      (name : Bytes) (v : Variant) (p : Option Property)
      → IsPropertyName name
      → renamed parse_variant float_usec name v ≡ ok p
      → Named p
  unfolding renamed
  renamed-Named name v p n h =
      let trim_name = trim_suffix name sec_suffix in
      elim (Bool-cases (ltb (length trim_name) (length name))) [
        | inl e ↦
            sec_property-Named name trim_name (last_byte trim_name) v p n
              (letters_only-trim_suffix name sec_suffix n.1) (rw e at h)
        | inr e ↦ subst Named (ok-injective _ p (rw e at h)) n
      ]

  property_of-Named :
      (a : Annotation) (p : Option Property)
      → property_of parse_variant float_usec a ≡ ok p
      → Named p
  unfolding property_of
  property_of-Named a p h =
      let name = trim_prefix a.key key_prefix in
      elim (Bool-cases (length name == length a.key)) [
        | inl e ↦ subst Named (ok-injective none p (rw e at h)) tt
        | inr e ↦
            let (b, checked, rest) = ok_step (check_property_name name) _ (rw e at h) in
            let (v, _, last) = ok_step (parsed (parse_variant a.value)) _ rest in
            renamed-Named name v p (check_property_name_ok name b checked) last
      ]

  with_property-All :
      (p : Option Property) (sp : List Property)
      → Named p
      → All (λ q. IsPropertyName q.name) sp
      → All (λ q. IsPropertyName q.name) (with_property p sp)
  with_property-All none sp n a = a
  with_property-All (some p) sp n a = (n, a)

  -- Each property that the annotations give has a name of at least three letters and of letters
  -- only, also where its suffix was changed.
  pub init_systemd_props-names :
      (xs : List Annotation) (sp : List Property)
      → init_systemd_props parse_variant float_usec xs ≡ ok sp
      → All (λ q. IsPropertyName q.name) sp
  unfolding init_systemd_props
  init_systemd_props-names [] sp h =
      subst (All (λ q. IsPropertyName q.name)) (ok-injective [] sp h) tt
  init_systemd_props-names (a ∷ rest) sp h =
      let (p, first, whole) = ok_step (property_of parse_variant float_usec a) _ h in
      let (ps, second, last) = ok_step (init_systemd_props parse_variant float_usec rest) _ whole in
      subst (All (λ q. IsPropertyName q.name)) (ok-injective _ sp last) (
        with_property-All p ps (property_of-Named a p first)
          (init_systemd_props-names rest ps second))
