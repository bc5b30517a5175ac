-- ===== src/Text/Trim.antt =====
-- Decimal text among spaces: what trimming leaves, and its value as a signed number.
use libcontainer.Prelude.{
  ℕ, ◌^◌, ◌<◌, false, [], ◌∷◌, ◌++◌, append-nil, append_assoc, ◌≡◌, ◌≢◌, refl, ◌∙◌, subst, arith,
  All, All-imp, ok, ◌>>=◌, lt→ltb,
}
use libcontainer.Prelude.Int.{pos}
use libcontainer.Text.{
  Bytes, is_space, trim_left, trim_right, trim_space, format_uint, parse_int, parse_uint, signed,
}
use libcontainer.Text.Decimal.{IsDigit, format-digits, format-ne-nil, parse-format}
use libcontainer.Text.Fields.{Plain}

pub digits-Plain : (n : ℕ) → Plain is_space (format_uint n)
digits-Plain n =
    All-imp IsDigit (λ c. is_space c ≡ false) (λ c d. ground (arith, d)) (format_uint n)
      (format-digits n)

trim_right_step : (c d : ℕ) (s t : Bytes) → trim_right s ≡ d ∷ t → trim_right (c ∷ s) ≡ c ∷ d ∷ t
unfolding trim_right
trim_right_step c d s t e = rw e refl

trim_right-cons :
    (c d : ℕ) (s : Bytes) → trim_right (d ∷ s) ≡ d ∷ s → trim_right (c ∷ d ∷ s) ≡ c ∷ d ∷ s
trim_right-cons c d s e = trim_right_step c d (d ∷ s) s e

trim_right-word : (w : Bytes) → Plain is_space w → trim_right w ≡ w
unfolding trim_right
trim_right-word [] h = refl
trim_right-word (c ∷ []) h = rw h.0 refl
trim_right-word (c ∷ d ∷ w) h = trim_right-cons c d w (trim_right-word (d ∷ w) h.1)

-- Text that ends in a word without spaces has nothing to trim at its end.
pub trim_right-last : (s w : Bytes) → Plain is_space w → w ≢ [] → trim_right (s ++ w) ≡ s ++ w
trim_right-last [] w h ne = trim_right-word w h
trim_right-last (c ∷ []) [] h ne = absurd (ne refl)
trim_right-last (c ∷ []) (d ∷ w) h ne = trim_right-cons c d w (trim_right-word (d ∷ w) h)
trim_right-last (c ∷ d ∷ s) w h ne = trim_right-cons c d (s ++ w) (trim_right-last (d ∷ s) w h ne)

trim_left-word : (w rest : Bytes) → Plain is_space w → w ≢ [] → trim_left (w ++ rest) ≡ w ++ rest
unfolding trim_left
trim_left-word [] rest h ne = absurd (ne refl)
trim_left-word (c ∷ w) rest h ne = rw h.0 refl

-- A word, text, and a word.
pub trim_space-words :
    (v s w : Bytes)
    → Plain is_space v
    → v ≢ []
    → Plain is_space w
    → w ≢ []
    → trim_space (v ++ (s ++ w)) ≡ v ++ (s ++ w)
unfolding trim_space
trim_space-words v s w hv nv hw nw =
    rw (trim_left-word v (s ++ w) hv nv)
      (subst (λ x. trim_right x ≡ x) (append_assoc v s w) (trim_right-last (v ++ s) w hw nw))

pub trim_space-word : (w : Bytes) → Plain is_space w → w ≢ [] → trim_space w ≡ w
unfolding trim_space
trim_space-word w h ne =
    subst (λ x. trim_right (trim_left x) ≡ x) (append-nil w)
      (rw (trim_left-word w [] h ne) (rw (append-nil w) (trim_right-word w h)))

parse_int-digits :
    (bits : ℕ) (s : Bytes)
    → All IsDigit s
    → s ≢ []
    → parse_int bits s ≡ (parse_uint bits s >>= signed false bits)
unfolding parse_int
parse_int-digits bits [] h ne = absurd (ne refl)
parse_int-digits bits (c ∷ s) h ne = ground (arith, h.0)

-- A number below the least that an int64 cannot hold is read back as such.
pub parse_int-format : (n : ℕ) → n < 2 ^ 63 → parse_int 64 (format_uint n) ≡ ok (pos n)
unfolding signed
parse_int-format n h =
    parse_int-digits 64 (format_uint n) (format-digits n) (format-ne-nil n)
    ∙ rw (parse-format 64 n (omega arith), lt→ltb n (2 ^ 63) h) refl
