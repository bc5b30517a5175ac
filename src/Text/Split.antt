-- ===== src/Text/Split.antt =====
-- `strings.Split` on text that is written part by part, and `strings.TrimSuffix` on text with its
-- suffix.
use libcontainer.Prelude.{
  ℕ, false, List, [], ◌∷◌, ◌++◌, append-nil, append_assoc, ◌==◌, length, length-append, bytes_eq,
  bytes_eq_iff, ◌≡◌, ◌≢◌, refl, ◌∙◌, subst, ap, arith, All, All-append, Bool-cases, inl, inr,
}
use libcontainer.Text.{Bytes, split, split_from, trim_suffix}

-- Text without a separator.
abbrev pub IsPlain : ℕ → Bytes → Type 0
IsPlain sep = All (λ c. (c == sep) ≡ false)

split_from-run :
    (sep : ℕ) (w cur rest : Bytes)
    → IsPlain sep w
    → split_from sep cur (w ++ rest) ≡ split_from sep (cur ++ w) rest
unfolding split_from
split_from-run sep [] cur rest h = rw append-nil refl
split_from-run sep (c ∷ w) cur rest h =
    rw (split_from, h.0) (split_from-run sep w (cur ++ c ∷ []) rest h.1 ∙ rw append_assoc refl)

pub split-word :
    (sep : ℕ) (w rest : Bytes) → IsPlain sep w → split (w ++ sep ∷ rest) sep ≡ w ∷ split rest sep
unfolding split_from
split-word sep w rest h = split_from-run sep w [] (sep ∷ rest) h ∙ ground arith

pub split-last : (sep : ℕ) (w : Bytes) → IsPlain sep w → split w sep ≡ w ∷ []
unfolding split_from
split-last sep w h =
    subst (λ x. split_from sep [] x ≡ w ∷ []) (append-nil w) (split_from-run sep w [] [] h)

longer : (c : ℕ) (s suffix : Bytes) → bytes_eq (c ∷ (s ++ suffix)) suffix ≡ false
longer c s suffix = elim (Bool-cases (bytes_eq (c ∷ (s ++ suffix)) suffix)) [
  | inl e ↦
      let same = ap (λ x. length x) ((bytes_eq_iff (c ∷ (s ++ suffix)) suffix).0 e) in
      absurd (omega (arith, same, length-append s suffix))
  | inr e ↦ e
]

pub trim_suffix-append : (s suffix : Bytes) → suffix ≢ [] → trim_suffix (s ++ suffix) suffix ≡ s
unfolding trim_suffix
trim_suffix-append [] [] ne = absurd (ne refl)
trim_suffix-append [] (c ∷ suffix) ne = rw ((bytes_eq_iff (c ∷ suffix) (c ∷ suffix)).1 refl) refl
trim_suffix-append (c ∷ s) suffix ne = rw (longer c s suffix, trim_suffix-append s suffix ne) refl

-- The parts with a separator between them.
abbrev pub join : ℕ → Bytes → List Bytes → Bytes
join sep c [] = c
join sep c (d ∷ ds) = c ++ sep ∷ join sep d ds

pub split-join :
    (sep : ℕ) (c : Bytes) (cs : List Bytes)
    → IsPlain sep c
    → All (IsPlain sep) cs
    → split (join sep c cs) sep ≡ c ∷ cs
split-join sep c [] h a = split-last sep c h
split-join sep c (d ∷ ds) h a =
    split-word sep c (join sep d ds) h ∙ ap (λ x. c ∷ x) (split-join sep d ds a.0 a.1)

pub join-IsPlain :
    (other sep : ℕ) (c : Bytes) (cs : List Bytes)
    → (sep == other) ≡ false
    → IsPlain other c
    → All (IsPlain other) cs
    → IsPlain other (join sep c cs)
join-IsPlain other sep c [] ne h a = h
join-IsPlain other sep c (d ∷ ds) ne h a =
    All-append (λ x. (x == other) ≡ false) c (sep ∷ join sep d ds) h
      (ne, join-IsPlain other sep d ds ne a.0 a.1)
