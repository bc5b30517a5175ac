-- ===== src/Systemd/Devices/Groups.antt =====
-- The group that `findDeviceGroup` of cgroups/systemd/common.go finds, against the lines of
-- /proc/devices.
use libcontainer.Prelude.{
  ℕ, Bool, true, false, ◌||◌, List, [], ◌∷◌, ◌++◌, Option, none, some, ◌==◌, ==_iff, bytes_eq,
  bytes_eq_iff, if◌then◌else◌, Result, ok, ◌≡◌, ◌≢◌, ◌⊎◌, inl, inr, refl, sym, subst, ap, ◌∙◌,
  arith, All, Bool-cases, ok-injective,
}
use libcontainer.Prelude.Int.{ℤ, eq_ℤ, eq_ℤ_iff}
use libcontainer.Text.{Bytes, codes, Reader, trim_space}
use libcontainer.Devices.{block_device, char_device}
use libcontainer.Emulator.Apply.{IsCgroupNode}
use libcontainer.Systemd.Devices.{
  Host, Error, group_prefix, find_in_lines, find_in_file, find_device_group, scanned, block_header,
  char_header,
}

-- what a group of a type is written with, and the line that its section of the file begins with
abbrev pub prefix_of : ℕ → Bytes
prefix_of t = if t == block_device then codes "block-" else codes "char-"

abbrev pub header_of : ℕ → Bytes
header_of t = if t == block_device then codes "Block devices:" else codes "Character devices:"

abbrev pub is_header : Bytes → Bool
is_header raw =
    bytes_eq (trim_space raw) (codes "Block devices:")
    || bytes_eq (trim_space raw) (codes "Character devices:")

module _ (scan : Bytes → Option (ℤ × Bytes)) (major : ℤ) where
  -- The lines, up to the next header, have one with the major number and the name.
  record InSection (lines : List Bytes) (name : Bytes) : Type 0 where
    before : List Bytes
    line : Bytes
    rest : List Bytes
    split : lines ≡ before ++ line ∷ rest
    same_section : All (λ raw. is_header raw ≡ false) before
    scanned : scan (trim_space line) ≡ some (major, name)

  -- The lines have one with the major number and the name in a section of the type.
  pub record IsListed (t : ℕ) (lines : List Bytes) (name : Bytes) : Type 0 where
    pub before : List Bytes
    pub header : Bytes
    pub between : List Bytes
    pub line : Bytes
    pub rest : List Bytes
    pub split : lines ≡ before ++ header ∷ (between ++ line ∷ rest)
    pub of_type : trim_space header ≡ header_of t
    pub same_section : All (λ raw. is_header raw ≡ false) between
    pub scanned : scan (trim_space line) ≡ some (major, name)

  -- the same of lines that a section of a type has begun before
  data FoundIn (t current : ℕ) (lines : List Bytes) (name : Bytes) : Type 0 where
    in_section : current ≡ t → InSection lines name → FoundIn t current lines name
    under_header : IsListed t lines name → FoundIn t current lines name

  listed_later :
      (t : ℕ) (raw : Bytes) (lines : List Bytes) (name : Bytes)
      → IsListed t lines name
      → IsListed t (raw ∷ lines) name
  listed_later t raw lines name l = record {
    before = raw ∷ l.before;
    header = l.header;
    between = l.between;
    line = l.line;
    rest = l.rest;
    split = ap (λ x. raw ∷ x) l.split;
    of_type = l.of_type;
    same_section = l.same_section;
    scanned = l.scanned;
  }

  behind_header :
      (t current next : ℕ) (raw : Bytes) (lines : List Bytes) (name : Bytes)
      → trim_space raw ≡ header_of next
      → FoundIn t next lines name
      → FoundIn t current (raw ∷ lines) name
  behind_header t current next raw lines name h (in_section same s) = under_header (record {
    before = [];
    header = raw;
    between = s.before;
    line = s.line;
    rest = s.rest;
    split = ap (λ x. raw ∷ x) s.split;
    of_type = h ∙ ap header_of same;
    same_section = s.same_section;
    scanned = s.scanned;
  })
  behind_header t current next raw lines name h (under_header l) =
      under_header (listed_later t raw lines name l)

  behind_line :
      (t current : ℕ) (raw : Bytes) (lines : List Bytes) (name : Bytes)
      → is_header raw ≡ false
      → FoundIn t current lines name
      → FoundIn t current (raw ∷ lines) name
  behind_line t current raw lines name h (in_section same s) = in_section same (record {
    before = raw ∷ s.before;
    line = s.line;
    rest = s.rest;
    split = ap (λ x. raw ∷ x) s.split;
    same_section = (h, s.same_section);
    scanned = s.scanned;
  })
  behind_line t current raw lines name h (under_header l) =
      under_header (listed_later t raw lines name l)

  -- A search that answers with a path finds no group, or one that the lines have.
  abbrev Answers : Bytes → ℕ → ℕ → List Bytes → Result Error Bytes → Type 0
  Answers prefix t current lines r =
      (path : Bytes)
      → r ≡ ok path
      → (path ≡ []) ⊎ ((name : Bytes) × (path ≡ prefix ++ name) × FoundIn t current lines name)

  behind_first :
      (prefix : Bytes) (t current next : ℕ) (raw : Bytes) (lines : List Bytes)
      (r : Result Error Bytes)
      → ((name : Bytes) → FoundIn t next lines name → FoundIn t current (raw ∷ lines) name)
      → Answers prefix t next lines r
      → Answers prefix t current (raw ∷ lines) r
  behind_first prefix t current next raw lines r f a path e = elim (a path e) [
    | inl empty ↦ inl empty
    | inr (name, same, found) ↦ inr (name, same, f name found)
  ]

  -- a line of the type
  line_of_type :
      (prefix : Bytes) (t : ℕ) (raw : Bytes) (lines : List Bytes) (s : Option (ℤ × Bytes))
      (go : Result Error Bytes)
      → s ≡ scan (trim_space raw)
      → Answers prefix t t (raw ∷ lines) go
      → Answers prefix t t (raw ∷ lines) (scanned prefix major s go)
  line_of_type prefix t raw lines none go q a path e = cc
  line_of_type prefix t raw lines (some (m, name)) go q a path e =
      elim (Bool-cases (eq_ℤ m major)) [
        | inl same ↦
            let number = (eq_ℤ_iff m major).0 same in
            inr (
              name,
              sym (ok-injective _ _ (rw same at e)),
              in_section refl (record {
                before = [];
                line = raw;
                rest = lines;
                split = refl;
                same_section = tt;
                scanned = sym q ∙ ap (λ x. some (x, name)) number;
              }),
            )
        | inr other ↦ a path (rw other at e)
      ]

  find_in_lines-Answers :
      (prefix : Bytes) (t current : ℕ) (fails : Bool) (lines : List Bytes)
      → Answers prefix t current lines (find_in_lines scan prefix t major current fails lines)
  unfolding find_in_lines
  find_in_lines-Answers prefix t current true [] = λ path e. cc
  find_in_lines-Answers prefix t current false [] = λ path e. inl (sym (ok-injective [] path e))
  find_in_lines-Answers prefix t current fails (raw ∷ lines) =
      elim (Bool-cases (bytes_eq (trim_space raw) block_header)) [
        | inl b ↦ rw b (
            behind_first prefix t current block_device raw lines _
              (λ name. behind_header t current block_device raw lines name ((bytes_eq_iff _ _).0 b))
              (find_in_lines-Answers prefix t block_device fails lines))
        | inr nb ↦ elim (Bool-cases (bytes_eq (trim_space raw) char_header)) [
          | inl c ↦
              rw (nb, c)
                (behind_first prefix t current char_device raw lines _
                  (λ name.
                    behind_header t current char_device raw lines name ((bytes_eq_iff _ _).0 c))
                  (find_in_lines-Answers prefix t char_device fails lines))
          | inr nc ↦
              let later =
                behind_first prefix t current current raw lines _
                  (λ name. behind_line t current raw lines name (rw (nb, nc) refl))
                  (find_in_lines-Answers prefix t current fails lines) in
              elim (Bool-cases (bytes_eq (trim_space raw) [])) [
                | inl blank ↦ rw (nb, nc, blank) later
                | inr full ↦ elim (Bool-cases (current == t)) [
                  | inr other ↦ rw (nb, nc, full, other) later
                  | inl same ↦
                      let q = (==_iff current t).0 same in
                      rw (nb, nc, full, same)
                        (subst
                          (λ k. Answers prefix t k (raw ∷ lines) (
                            scanned prefix major (scan (trim_space raw))
                              (find_in_lines scan prefix t major current fails lines)))
                          (sym q)
                          (line_of_type prefix t raw lines (scan (trim_space raw)) _ refl (
                            subst
                              (λ k.
                                Answers prefix t k (raw ∷ lines)
                                  (find_in_lines scan prefix t major current fails lines))
                              q later)))
                ]
              ]
        ]
      ]

  no_section_yet : (t : ℕ) → IsCgroupNode t → 0 ≢ t
  no_section_yet t i e = ground (arith, i, e)

  listed_at_first :
      (t : ℕ) (lines : List Bytes) (name : Bytes)
      → IsCgroupNode t
      → FoundIn t 0 lines name
      → IsListed t lines name
  listed_at_first t lines name i (in_section same s) = absurd (no_section_yet t i same)
  listed_at_first t lines name i (under_header l) = l

-- A path for a group of devices of a type is the type's prefix and a name that /proc/devices has for
-- the major number in a section of the type.
pub record IsGroup (h : Host) (t : ℕ) (major : ℤ) (path : Bytes) : Type 0 where
  pub file : Reader
  pub name : Bytes
  pub opened : h.proc_devices ≡ some file
  pub path_is : path ≡ prefix_of t ++ name
  pub listed : IsListed h.scan_line major t file.lines name

pub group_prefix_lem : (t : ℕ) → IsCgroupNode t → group_prefix t ≡ ok (prefix_of t)
unfolding group_prefix
group_prefix_lem t (inl b) = rw b refl
group_prefix_lem t (inr c) = rw c refl

pub find_device_group-IsGroup :
    (h : Host) (t : ℕ) (major : ℤ) (path : Bytes)
    → IsCgroupNode t
    → find_device_group h t major ≡ ok path
    → bytes_eq path [] ≡ false
    → IsGroup h t major path
unfolding find_device_group
find_device_group-IsGroup h t major path i e ne = with_file h.proc_devices refl e
  where
    with_file :
        (o : Option Reader)
        → h.proc_devices ≡ o
        → find_in_file h.scan_line t major o ≡ ok path
        → IsGroup h t major path
    with_file none q f = cc
    with_file (some r) q f =
        let run =
          find_in_lines-Answers h.scan_line major (prefix_of t) t 0 r.fails r.lines path
            (rw (group_prefix_lem t i) at f) in
        elim run [
          | inl empty ↦ absurd (ground (arith, empty, ne))
          | inr (name, same, found) ↦ record {
            file = r;
            name = name;
            opened = q;
            path_is = same;
            listed = listed_at_first h.scan_line major t r.lines name i found;
          }
        ]
