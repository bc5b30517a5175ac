-- ===== src/Text/Fields.antt =====
-- `strings.FieldsFunc` on text that is written field by field.
use libcontainer.Prelude.{
  ℕ, Bool, true, false, List, [], ◌∷◌, ◌++◌, ◌≡◌, ◌≢◌, refl, All, append_assoc, append-nil, ◌∙◌,
}
use libcontainer.Text.{Bytes, flush, fields_from}

-- No separator in the text.
abbrev pub Plain : (ℕ → Bool) → Bytes → Type 0
Plain sep = All (λ c. sep c ≡ false)

flush_ne_nil : (w : Bytes) (fs : List Bytes) → w ≢ [] → flush w fs ≡ w ∷ fs
flush_ne_nil [] fs h = absurd (h refl)
flush_ne_nil (c ∷ w) fs h = refl

fields-run :
    (sep : ℕ → Bool) (w cur rest : Bytes)
    → Plain sep w
    → fields_from sep cur (w ++ rest) ≡ fields_from sep (cur ++ w) rest
unfolding fields_from
fields-run sep [] cur rest h = rw append-nil
fields-run sep (c ∷ w) cur rest h =
    rw h.0 (fields-run sep w (cur ++ c ∷ []) rest h.1 ∙ rw append_assoc)

-- A field with a separator behind it.
pub fields-word :
    (sep : ℕ → Bool) (w : Bytes) (c : ℕ) (rest : Bytes)
    → Plain sep w
    → w ≢ []
    → sep c ≡ true
    → fields_from sep [] (w ++ c ∷ rest) ≡ w ∷ fields_from sep [] rest
unfolding fields_from
fields-word sep w c rest h ne s =
    fields-run sep w [] (c ∷ rest) h ∙ rw (s, fields_from) (flush_ne_nil w _ ne)

-- The last field.
pub fields-last :
    (sep : ℕ → Bool) (w : Bytes) → Plain sep w → w ≢ [] → fields_from sep [] w ≡ w ∷ []
unfolding fields_from
fields-last sep w h ne = rw (append-nil w) at (last_with_nil (fields-run sep w [] [] h))
  where
    last_with_nil :
        fields_from sep [] (w ++ []) ≡ fields_from sep w [] → fields_from sep [] (w ++ []) ≡ w ∷ []
    last_with_nil e = e ∙ flush_ne_nil w [] ne
