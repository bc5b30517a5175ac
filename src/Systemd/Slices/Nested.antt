-- ===== src/Systemd/Slices/Nested.antt =====
-- The path of a slice of cgroups/systemd/common.go, from its components.
use libcontainer.Prelude.{
  ℕ, ◌+◌, false, ◌||◌, not, List, [], ◌∷◌, ◌++◌, append_assoc, any, ◌==◌, ltb, length,
  length-append, bytes_eq, bytes_eq_iff, some, ◌≡◌, ◌≢◌, refl, ap, ◌∙◌, arith, All, All-append,
  All-imp,
}
use libcontainer.Text.{Bytes, codes}
use libcontainer.Text.Split.{IsPlain, join, split-join, join-IsPlain, trim_suffix-append}
use libcontainer.Systemd.Slices.{slice_suffix, expand_components, expand_slice}

-- A component: not empty, and without the two separators.
pub record IsComponent (c : Bytes) : Type 0 where
  pub filled : c ≢ []
  pub no_dash : IsPlain b'-' c
  pub no_slash : IsPlain b'/' c

-- One directory for each ancestor: the name of a slice is its components up to there.
abbrev pub nested : Bytes → Bytes → List Bytes → Bytes
nested name c [] = codes "/" ++ (name ++ (c ++ slice_suffix))
nested name c (d ∷ ds) =
    (codes "/" ++ (name ++ (c ++ slice_suffix))) ++ nested (name ++ (c ++ codes "-")) d ds

not_nil : (c : Bytes) → c ≢ [] → bytes_eq c [] ≡ false
not_nil c ne = ground (arith, bytes_eq_iff c [], ne)

expand_components-nested :
    (c : Bytes) (cs : List Bytes) (path name : Bytes)
    → c ≢ []
    → All IsComponent cs
    → expand_components (c ∷ cs) path name ≡ some (path ++ nested name c cs)
unfolding expand_components
expand_components-nested c [] path name ne a = rw (not_nil c ne) refl
expand_components-nested c (d ∷ ds) path name ne a = rw (not_nil c ne) (
    expand_components-nested d ds (path ++ (codes "/" ++ (name ++ (c ++ slice_suffix))))
      (name ++ (c ++ codes "-")) a.0.filled a.1
    ∙ ap some (append_assoc path _ _))

any-IsPlain : (sep : ℕ) (s : Bytes) → IsPlain sep s → any (λ x. x == sep) s ≡ false
any-IsPlain sep [] h = refl
any-IsPlain sep (c ∷ s) h = rw h.0 (any-IsPlain sep s h.1)

-- The text is no lone "-".
join-no_root :
    (c : Bytes) (cs : List Bytes)
    → c ≢ []
    → IsPlain b'-' c
    → bytes_eq (join b'-' c cs) (codes "-") ≡ false
join-no_root [] cs ne h = absurd (ne refl)
join-no_root (x ∷ c) [] ne h = rw h.0 refl
join-no_root (x ∷ c) (d ∷ ds) ne h = rw h.0 refl

no_slash :
    (c : Bytes) (cs : List Bytes)
    → IsPlain b'/' c
    → All IsComponent cs
    → any (λ x. x == b'/') (join b'-' c cs ++ slice_suffix) ≡ false
no_slash c cs h a = any-IsPlain b'/' (join b'-' c cs ++ slice_suffix) (
    All-append (λ x. (x == b'/') ≡ false) (join b'-' c cs) slice_suffix
      (join-IsPlain b'/' b'-' c cs refl h
        (All-imp IsComponent (IsPlain b'/') (λ d n. n.no_slash) cs a))
      (refl, (refl, (refl, (refl, (refl, (refl, tt)))))))

lengths_pass : (n : ℕ) → (ltb (n + 6) 6 || not (ltb n (n + 6))) ≡ false
lengths_pass n = ground arith

-- The text of components with "-" between them and ".slice" behind them, none of which is empty or
-- has a "-" or "/", is expanded to one directory for each: its name is the components up to there,
-- with "-" between them and ".slice" behind them.
pub expand_slice-nested :
    (c : Bytes) (cs : List Bytes)
    → IsComponent c
    → All IsComponent cs
    → expand_slice (join b'-' c cs ++ slice_suffix) ≡ some (nested [] c cs)
unfolding expand_slice
expand_slice-nested c cs h a =
    rw
      (
        trim_suffix-append (join b'-' c cs) slice_suffix (λ e. ground arith),
        length-append (join b'-' c cs) slice_suffix,
        lengths_pass (length (join b'-' c cs)),
        no_slash c cs h.no_slash a,
        join-no_root c cs h.filled h.no_dash,
        split-join b'-' c cs h.no_dash (All-imp IsComponent (IsPlain b'-') (λ d n. n.no_dash) cs a),
      )
      (expand_components-nested c cs [] [] h.filled a)
