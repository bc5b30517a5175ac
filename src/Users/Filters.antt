-- ===== src/Users/Filters.antt =====
-- The filters of the Parse…Filter functions of user/user.go.
use libcontainer.Prelude.{
  Bool, true, false, List, [], ◌∷◌, ◌++◌, Option, none, some, ◌≡◌, refl, sym, ◌∙◌, ap, inl, inr,
  arith, if◌then◌else◌, bytes_eq, Bool-cases, All, Result, ok, err, subst,
}
use libcontainer.Text.{Bytes, Reader, trim_space}
use libcontainer.Users.{
  Error, Group, ChunkReader, scan_lines, parse_file, take_group, scan_groups, parse_group_filter,
  is_blank_line, parse_group,
}

-- The items that pass a test, in order.
pub keep {ℓ} : {A : Type ℓ} → (A → Bool) → List A → List A
keep f [] = []
keep f (x ∷ xs) = let rest = keep f xs in if f x then x ∷ rest else rest

abbrev pub keep_result {ℓ κ} :
    {E : Type ℓ} {A : Type κ} → (A → Bool) → Result E (List A) → Result E (List A)
keep_result f (err e) = err e
keep_result f (ok xs) = ok (keep f xs)

module _ {ℓ} {A : Type ℓ} (f : A → Bool) where
  keep-concat :
      (xs : List A) (x : A)
      → keep f (xs ++ x ∷ []) ≡ (if f x then keep f xs ++ x ∷ [] else keep f xs)
  unfolding keep
  keep-concat [] x = elim (Bool-cases (f x)) [ inl e ↦ rw e refl | inr e ↦ rw e refl ]
  keep-concat (y ∷ ys) x = ground (arith, keep-concat ys x)

  scan_lines-keep :
      (parse : Bytes → A) (lines : List Bytes) (out : List A)
      → scan_lines parse (some f) lines (keep f out) ≡ keep f (scan_lines parse none lines out)
  unfolding scan_lines
  scan_lines-keep parse [] out = refl
  scan_lines-keep parse (text ∷ rest) out = elim (Bool-cases (bytes_eq (trim_space text) [])) [
    | inl blank ↦ rw blank (scan_lines-keep parse rest out)
    | inr line ↦
        rw (line, ← keep-concat out (parse (trim_space text)))
          (scan_lines-keep parse rest (out ++ parse (trim_space text) ∷ []))
  ]

  -- Parsing a passwd, subid or id-map file with a filter gives what filtering the whole file
  -- gives, in the same order, and fails on the same readers.
  pub parse_file-keep :
      (parse : Bytes → A) (r : Option Reader)
      → parse_file parse r (some f) ≡ keep_result f (parse_file parse r none)
  unfolding parse_file
  parse_file-keep parse none = refl
  parse_file-keep parse (some r) = elim (Bool-cases r.fails) [
    | inl e ↦ rw e refl
    | inr e ↦ rw e (ap ok (unfold keep in scan_lines-keep parse r.lines []))
  ]

  keep-All : (xs : List A) → All (λ x. f x ≡ true) (keep f xs)
  unfolding keep
  keep-All [] = tt
  keep-All (x ∷ xs) = elim (Bool-cases (f x)) [
    | inl e ↦ rw e (e, keep-All xs)
    | inr e ↦ rw e (keep-All xs)
  ]

  keep_result-All :
      (m : Result Error (List A)) (xs : List A) → keep_result f m ≡ ok xs → All (λ x. f x ≡ true) xs
  keep_result-All (err e) xs h = cc
  keep_result-All (ok ys) xs h = subst (All (λ x. f x ≡ true)) (cc) (keep-All ys)

  -- Every entry of a filtered file passes the filter.
  pub parse_file-All :
      (parse : Bytes → A) (r : Option Reader) (xs : List A)
      → parse_file parse r (some f) ≡ ok xs
      → All (λ x. f x ≡ true) xs
  parse_file-All parse r xs h =
      keep_result-All (parse_file parse r none) xs (sym (parse_file-keep parse r) ∙ h)

module _ (f : Group → Bool) where
  take_group-keep :
      (text : Bytes) (out : List Group)
      → take_group (some f) text (keep f out) ≡ keep f (take_group none text out)
  unfolding take_group
  take_group-keep text out = elim (Bool-cases (is_blank_line (trim_space text))) [
    | inl blank ↦ rw blank refl
    | inr line ↦ rw line (sym (keep-concat f out (parse_group (trim_space text))))
  ]

  scan_groups-keep :
      (whole : Bytes) (chunks : List (Bytes × Bool)) (out : List Group)
      → scan_groups (some f) whole chunks (keep f out) ≡ keep f (scan_groups none whole chunks out)
  unfolding scan_groups
  scan_groups-keep whole [] out = refl
  scan_groups-keep whole ((line, true) ∷ rest) out = scan_groups-keep (whole ++ line) rest out
  scan_groups-keep whole ((line, false) ∷ rest) out =
      rw take_group-keep (scan_groups-keep [] rest (take_group none (whole ++ line) out))

  -- Parsing a group file with a filter gives what filtering the whole file gives, in the same
  -- order, however the lines come in chunks, and fails on the same readers.
  pub parse_group_filter-keep :
      (r : Option ChunkReader)
      → parse_group_filter r (some f) ≡ keep_result f (parse_group_filter r none)
  unfolding parse_group_filter
  parse_group_filter-keep none = refl
  parse_group_filter-keep (some r) = elim (Bool-cases r.fails) [
    | inl e ↦ rw e refl
    | inr e ↦ rw e (ap ok (unfold keep in scan_groups-keep [] r.chunks []))
  ]

  pub parse_group_filter-All :
      (r : Option ChunkReader) (xs : List Group)
      → parse_group_filter r (some f) ≡ ok xs
      → All (λ x. f x ≡ true) xs
  parse_group_filter-All r xs h =
      keep_result-All f (parse_group_filter r none) xs (sym (parse_group_filter-keep r) ∙ h)
