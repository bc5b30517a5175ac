-- ===== src/Devices/Permissions.antt =====
-- The laws of permission sets: the strings that `from_set` prints stand for the eight sets of
-- access bits, and the set operations of devices/device.go act on those bits.
use libcontainer.Prelude.{
  ℕ, ◌<◌, ◌≡◌, refl, ap, sym, ◌∙◌, ◌↔◌, Bool, true, ◌&&◌, [], ◌∷◌, arith, bit_and, bit_or, ltb,
  ltb→lt, ◌==◌, ==_iff, bytes_eq_iff, holds_below, holds_below_at,
}
use libcontainer.Devices.{
  Permissions, to_set, to_set_from, perm_bit, from_set, and_not, union, difference, intersection,
  is_empty, is_valid,
}

-- A test on two sets that holds everywhere by evaluation.
all_sets :
    (p : ℕ → ℕ → Bool)
    → holds_below 8 (λ a. holds_below 8 (p a)) ≡ true
    → (a b : ℕ) → a < 8
    → b < 8
    → p a b ≡ true
all_sets p h a b ha hb =
    holds_below_at (p a) 8 b hb (holds_below_at (λ x. holds_below 8 (p x)) 8 a ha h)

or_table : holds_below 8 (λ a. holds_below 8 (λ b. ltb (bit_or a b) 8)) ≡ true
unfolding holds_below
or_table = refl

and_table : holds_below 8 (λ a. holds_below 8 (λ b. ltb (bit_and a b) 8)) ≡ true
unfolding holds_below
and_table = refl

not_table : holds_below 8 (λ a. holds_below 8 (λ b. ltb (and_not a b) 8)) ≡ true
unfolding holds_below
not_table = refl

or-lt : (a b : ℕ) → a < 8 → b < 8 → bit_or a b < 8
or-lt a b ha hb = ltb→lt _ _ (all_sets (λ x y. ltb (bit_or x y) 8) or_table a b ha hb)

and-lt : (a b : ℕ) → a < 8 → b < 8 → bit_and a b < 8
and-lt a b ha hb = ltb→lt _ _ (all_sets (λ x y. ltb (bit_and x y) 8) and_table a b ha hb)

and_not-lt : (a b : ℕ) → a < 8 → b < 8 → and_not a b < 8
and_not-lt a b ha hb = ltb→lt _ _ (all_sets (λ x y. ltb (and_not x y) 8) not_table a b ha hb)

perm_bit-lt : (s c : ℕ) → s < 8 → perm_bit s c < 8
perm_bit-lt s c h =
    ground (arith, or-lt s 1 h (omega arith), or-lt s 2 h (omega arith), or-lt s 4 h (omega arith))

to_set_from-lt : (s : ℕ) (p : Permissions) → s < 8 → to_set_from s p < 8
unfolding to_set_from
to_set_from-lt s [] h = h
to_set_from-lt s (c ∷ p) h = to_set_from-lt (perm_bit s c) p (perm_bit-lt s c h)

pub to_set-lt : (p : Permissions) → to_set p < 8
unfolding to_set
to_set-lt p = to_set_from-lt 0 p (omega arith)

round_table : holds_below 8 (λ s. to_set (from_set s) == s) ≡ true
unfolding holds_below to_set from_set
round_table = refl

pub to_set-from_set : (s : ℕ) → s < 8 → to_set (from_set s) ≡ s
to_set-from_set s h =
    (==_iff _ s).0 (holds_below_at (λ x. to_set (from_set x) == x) 8 s h round_table)

pub to_set-union : (p o : Permissions) → to_set (union p o) ≡ bit_or (to_set p) (to_set o)
unfolding union
to_set-union p o = to_set-from_set _ (or-lt _ _ (to_set-lt p) (to_set-lt o))

pub to_set-difference :
    (p o : Permissions) → to_set (difference p o) ≡ and_not (to_set p) (to_set o)
unfolding difference
to_set-difference p o = to_set-from_set _ (and_not-lt _ _ (to_set-lt p) (to_set-lt o))

pub to_set-intersection :
    (p o : Permissions) → to_set (intersection p o) ≡ bit_and (to_set p) (to_set o)
unfolding intersection
to_set-intersection p o = to_set-from_set _ (and-lt _ _ (to_set-lt p) (to_set-lt o))

-- A permission string in the one form that `from_set` prints.
abbrev pub IsCanonical : Permissions → Type 0
IsCanonical p = from_set (to_set p) ≡ p

pub from_set-IsCanonical : (s : ℕ) → s < 8 → IsCanonical (from_set s)
from_set-IsCanonical s h = ap from_set (to_set-from_set s h)

pub nil-IsCanonical : IsCanonical []
unfolding to_set from_set
nil-IsCanonical = refl

pub union-IsCanonical : (p o : Permissions) → IsCanonical (union p o)
unfolding union
union-IsCanonical p o = from_set-IsCanonical _ (or-lt _ _ (to_set-lt p) (to_set-lt o))

pub difference-IsCanonical : (p o : Permissions) → IsCanonical (difference p o)
unfolding difference
difference-IsCanonical p o = from_set-IsCanonical _ (and_not-lt _ _ (to_set-lt p) (to_set-lt o))

pub is_valid_iff : (p : Permissions) → (is_valid p ≡ true) ↔ IsCanonical p
unfolding is_valid
is_valid_iff p = (λ h. sym ((bytes_eq_iff p _).0 h), λ h. (bytes_eq_iff p _).1 (sym h))

pub is_empty_iff : (p : Permissions) → (is_empty p ≡ true) ↔ (p ≡ [])
unfolding is_empty
is_empty_iff p = bytes_eq_iff p []

-- Two canonical strings of the same set are the same string.
pub eq_of_to_set : (p q : Permissions) → IsCanonical p → IsCanonical q → to_set p ≡ to_set q → p ≡ q
eq_of_to_set p q hp hq e = sym hp ∙ ap from_set e ∙ hq

merge_table :
    holds_below 8 (λ n. holds_below 8 (λ o. bit_or (and_not n o) (and_not o (and_not o n)) == n))
    ≡ true
unfolding holds_below
merge_table = refl

-- Removing what was dropped from the old permissions and adding what was gained gives the new
-- ones.
pub union_dropped_gained :
    (n o : Permissions) → IsCanonical n → union (difference n o) (difference o (difference o n)) ≡ n
union_dropped_gained n o hn = eq_of_to_set _ n (union-IsCanonical _ _) hn (
    rw (to_set-union, to_set-difference, to_set-difference, to_set-difference)
      ((==_iff _ _).0 (
        all_sets (λ a b. bit_or (and_not a b) (and_not b (and_not b a)) == a) merge_table (to_set n)
          (to_set o) (to_set-lt n) (to_set-lt o))))

-- The laws of the empty set and of a set with itself, for canonical strings.
neutral_table :
    holds_below 8 (λ n.
      (bit_or 0 n == n)
      && ((and_not n 0 == n) && ((bit_and 0 n == 0) && (and_not 0 n == 0)) && (and_not n n == 0)))
    ≡ true
unfolding holds_below
neutral_table = refl

neutral_laws :
    (n : ℕ)
    → n < 8
    → (bit_or 0 n ≡ n)
      × (and_not n 0 ≡ n)
      × (bit_and 0 n ≡ 0)
      × (and_not 0 n ≡ 0)
      × (and_not n n ≡ 0)
neutral_laws n h = ground (
  arith,
  holds_below_at
      (λ x.
        (bit_or 0 x == x)
        && ((and_not x 0 == x) && ((bit_and 0 x == 0) && (and_not 0 x == 0)) && (and_not x x == 0)))
      8 n h neutral_table,
)

to_set-nil : to_set [] ≡ 0
unfolding to_set
to_set-nil = refl

from_set-zero : from_set 0 ≡ []
unfolding from_set
from_set-zero = refl

module _ (p : Permissions) where
  pub nil-union : IsCanonical p → union [] p ≡ p
  unfolding union
  nil-union h = rw (to_set-nil, (neutral_laws _ (to_set-lt p)).0) h

  pub difference-nil : IsCanonical p → difference p [] ≡ p
  unfolding difference
  difference-nil h = rw (to_set-nil, (neutral_laws _ (to_set-lt p)).1) h

  pub nil-intersection : intersection [] p ≡ []
  unfolding intersection
  nil-intersection = rw (to_set-nil, (neutral_laws _ (to_set-lt p)).2) from_set-zero

  pub nil-difference : difference [] p ≡ []
  unfolding difference
  nil-difference = rw (to_set-nil, (neutral_laws _ (to_set-lt p)).3) from_set-zero

  pub difference_self : difference p p ≡ []
  unfolding difference
  difference_self = rw (neutral_laws _ (to_set-lt p)).4 from_set-zero

pub union-nil : (p : Permissions) → IsCanonical p → union p [] ≡ p
union-nil p h =
    ground
      (arith, union_dropped_gained p [] h, difference-nil p h, nil-difference (difference [] p))
