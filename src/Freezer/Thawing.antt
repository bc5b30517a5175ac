-- ===== src/Freezer/Thawing.antt =====
-- What `Set` of cgroups/fs/freezer.go leaves in freezer.state.
use libcontainer.Prelude.{
  ◌<◌, ◌≤◌, arith, sym, subst, ==_iff, ◌∙◌, ℕ, zero, suc, ◌+◌, ◌%◌, List, [], ◌∷◌, ◌++◌, ◌≡◌, refl,
  Result, ok, err, ◌==◌, Bool-cases, inl, inr, bytes_eq, err_ne_ok,
}
use libcontainer.Text.{Bytes, trim_space}
use libcontainer.Freezer.{
  Kernel, Error, frozen, thawed, freeze_rounds, set, Outcome, thaw_on_error, wrote, after_write,
  unexpected_state, Status, freezing,
}

-- The last value written, where there is one, else the given one.
abbrev pub last_written : Bytes → List Bytes → Bytes
last_written s [] = s
last_written s (x ∷ xs) = last_written x xs

last_written-append : (s t : Bytes) (xs : List Bytes) → last_written s (xs ++ t ∷ []) ≡ t
last_written-append s t [] = refl
last_written-append s t (x ∷ xs) = last_written-append x t xs

-- A loop that ends with no error has FROZEN as its last write.
abbrev EndsFrozen : Outcome → Type 0
EndsFrozen o = (s : Bytes) → o.0 ≡ ok tt → last_written s o.1 ≡ frozen

after_write-EndsFrozen :
    (again : Outcome) (state : Result Error Bytes) (w : Status)
    → EndsFrozen again
    → EndsFrozen (wrote frozen (after_write again state w))
after_write-EndsFrozen again state (err e) h s o = cc
after_write-EndsFrozen again (err e) (ok _) h s o = cc
after_write-EndsFrozen again (ok state) (ok _) h s o =
    elim (Bool-cases (bytes_eq (trim_space state) freezing)) [
      | inl f ↦ rw f (h frozen (rw f at o))
      | inr f ↦ elim (Bool-cases (bytes_eq (trim_space state) frozen)) [
        | inl g ↦ rw (f, g)
        | inr g ↦ absurd (err_ne_ok unexpected_state tt (rw (f, g) at o))
      ]
    ]

freeze_rounds-EndsFrozen : (k : Kernel) (i left : ℕ) → EndsFrozen (freeze_rounds k i left)
unfolding freeze_rounds
freeze_rounds-EndsFrozen k i zero s h = cc
freeze_rounds-EndsFrozen k i (suc left) s h = elim (Bool-cases (i % 50 == 49)) [
  | inl e ↦ rw e (
      after_write-EndsFrozen (freeze_rounds k (i + 1) left) (k.read_state i) (k.write_frozen i)
        (freeze_rounds-EndsFrozen k (i + 1) left) s (rw e at h))
  | inr e ↦ rw e (
      after_write-EndsFrozen (freeze_rounds k (i + 1) left) (k.read_state i) (k.write_frozen i)
        (freeze_rounds-EndsFrozen k (i + 1) left) s (rw e at h))
]

-- the state that the outcome calls for
abbrev pub state_for : Status → Bytes
state_for (ok _) = frozen
state_for (err e) = thawed

thaw_on_error-last :
    (o : Outcome)
    → EndsFrozen o
    → (s : Bytes) → last_written s (thaw_on_error o).1 ≡ state_for (thaw_on_error o).0
thaw_on_error-last (ok _, trace) h s = h s refl
thaw_on_error-last (err e, trace) h s = last_written-append s thawed trace

-- Whatever the kernel answers, the last value that a request to freeze writes to freezer.state is
-- FROZEN if the request succeeds and THAWED if it fails.
pub set-last_written :
    (k : Kernel) (s : Bytes) → last_written s (set k frozen).1 ≡ state_for (set k frozen).0
unfolding set
set-last_written k s =
    thaw_on_error-last (freeze_rounds k 0 1000) (freeze_rounds-EndsFrozen k 0 1000) s

-- A read gives a state, with white space around it.
abbrev pub Reads : Bytes → Result Error Bytes → Type 0
Reads state r = (text : Bytes) × (r ≡ ok text) × (trim_space text ≡ state)

-- one round, by what its read gives
round_frozen :
    (k : Kernel) (i left : ℕ)
    → k.write_frozen i ≡ ok tt
    → Reads frozen (k.read_state i)
    → (freeze_rounds k i (suc left)).0 ≡ ok tt
unfolding freeze_rounds
round_frozen k i left w (text, f, t) = elim (Bool-cases (i % 50 == 49)) [
  | inl e ↦ rw (e, w, f, t) refl
  | inr e ↦ rw (e, w, f, t) refl
]

round_freezing :
    (k : Kernel) (i left : ℕ)
    → k.write_frozen i ≡ ok tt
    → Reads freezing (k.read_state i)
    → (freeze_rounds k i (suc left)).0 ≡ (freeze_rounds k (i + 1) left).0
unfolding freeze_rounds
round_freezing k i left w (text, f, t) = elim (Bool-cases (i % 50 == 49)) [
  | inl e ↦ rw (e, w, f, t) refl
  | inr e ↦ rw (e, w, f, t) refl
]

freeze_rounds-succeeds :
    (k : Kernel) (left i n : ℕ)
    → i ≤ n
    → n < i + left
    → ((j : ℕ) → j ≤ n → k.write_frozen j ≡ ok tt)
    → ((j : ℕ) → j < n → Reads freezing (k.read_state j))
    → Reads frozen (k.read_state n)
    → (freeze_rounds k i left).0 ≡ ok tt
freeze_rounds-succeeds k zero i n le lt w r f = absurd (omega arith)
freeze_rounds-succeeds k (suc left) i n le lt w r f = elim (Bool-cases (i == n)) [
  | inl e ↦
      round_frozen k i left (w i le)
        (subst (λ j. Reads frozen (k.read_state j)) (sym ((==_iff i n).0 e)) f)
  | inr e ↦
      round_freezing k i left (w i le) (r i (ground arith))
      ∙ freeze_rounds-succeeds k left (i + 1) n (ground arith) (omega arith) w r f
]

thaw_on_error_ok : (o : Outcome) → o.0 ≡ ok tt → (thaw_on_error o).0 ≡ ok tt
thaw_on_error_ok (ok _, trace) h = refl
thaw_on_error_ok (err e, trace) h = h

-- A request to freeze succeeds if the kernel takes the writes of FROZEN and reads back FREEZING in
-- each round before some round below 1000, and FROZEN in that one, with any white space around
-- the words, such as the newline that the kernel writes.
pub set-succeeds :
    (k : Kernel) (n : ℕ)
    → n < 1000
    → ((j : ℕ) → j ≤ n → k.write_frozen j ≡ ok tt)
    → ((j : ℕ) → j < n → Reads freezing (k.read_state j))
    → Reads frozen (k.read_state n)
    → (set k frozen).0 ≡ ok tt
unfolding set
set-succeeds k n lt w r f =
    thaw_on_error_ok (freeze_rounds k 0 1000)
      (freeze_rounds-succeeds k 1000 0 n (omega arith) lt w r f)
