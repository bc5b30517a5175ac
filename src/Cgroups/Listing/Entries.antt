-- ===== src/Cgroups/Listing/Entries.antt =====
-- `parseCgroupFromReader` of cgroups/utils.go on the entries that the kernel writes.
use libcontainer.Prelude.{
  ℕ, Bool, true, false, List, [], ◌∷◌, ◌++◌, any, map, bytes_eq, if◌then◌else◌, Option, none, some,
  ok, ◌≡◌, refl, ap, ◌∙◌, arith, All, All-imp,
}
use libcontainer.Text.{Bytes}
use libcontainer.Text.Split.{IsPlain, join, split-join, join-IsPlain}
use libcontainer.Cgroups.Listing.{
  Assignments, lookup, cut, last_parts, assign, parse_lines, parse_cgroup_from_reader,
}

-- an entry of /proc/[pid]/cgroup; its subsystems are a first one and more
pub record Entry : Type 0 where
  pub hierarchy : Bytes
  pub subsystem : Bytes
  pub more : List Bytes
  pub path : Bytes

-- `hierarchy-ID:subsystem-list:cgroup-path`
abbrev pub line : Entry → Bytes
line e = e.hierarchy ++ b':' ∷ (join b',' e.subsystem e.more ++ b':' ∷ e.path)

-- A name of a subsystem: without the two separators.
pub record IsName (s : Bytes) : Type 0 where
  pub no_comma : IsPlain b',' s
  pub no_colon : IsPlain b':' s

pub record IsEntry (e : Entry) : Type 0 where
  pub hierarchy : IsPlain b':' e.hierarchy
  pub subsystem : IsName e.subsystem
  pub more : All IsName e.more

-- The path of a subsystem: that of the last entry with its name.
pub path_of : Bytes → List Entry → Option Bytes
path_of k [] = none
path_of k (e ∷ es) = elim (path_of k es) [
  | none ↦ if any (λ s. bytes_eq s k) (e.subsystem ∷ e.more) then some e.path else none
  | some path ↦ some path
]

cut-word : (sep : ℕ) (w s : Bytes) → IsPlain sep w → cut sep (w ++ sep ∷ s) ≡ some (w, s)
unfolding cut
cut-word sep [] s h = ground arith
cut-word sep (c ∷ w) s h = rw (h.0, cut-word sep w s h.1) refl

last_parts-line :
    (e : Entry) → IsEntry e → last_parts (line e) ≡ some (join b',' e.subsystem e.more, e.path)
last_parts-line e h =
    let list = join b',' e.subsystem e.more in
    let plain =
      join-IsPlain b':' b',' e.subsystem e.more refl h.subsystem.no_colon
        (All-imp IsName (IsPlain b':') (λ s n. n.no_colon) e.more h.more) in
    rw
      (
        cut-word b':' e.hierarchy (list ++ b':' ∷ e.path) h.hierarchy,
        cut-word b':' list e.path plain,
      )
      refl

-- A later map in front of an earlier one.
over : Option Bytes → Option Bytes → Option Bytes
over none earlier = earlier
over (some path) earlier = some path

lookup-assign :
    (k : Bytes) (subs : List Bytes) (path : Bytes) (m : Assignments)
    → lookup k (assign subs path m)
      ≡ (if any (λ s. bytes_eq s k) subs then some path else lookup k m)
unfolding lookup
lookup-assign k [] path m = refl
lookup-assign k (s ∷ subs) path m = lookup-assign k subs path ((s, path) ∷ m) ∙ ground arith

-- What the loop gives on the entries, from the assignments so far.
record IsParsed (es : List Entry) (m : Assignments) : Type 0 where
  result : Assignments
  parsed : parse_lines false (map line es) m ≡ ok result
  values : (k : Bytes) → lookup k result ≡ over (path_of k es) (lookup k m)

over_path :
    (later : Option Bytes) (b : Bool) (path : Bytes) (earlier : Option Bytes)
    → over later (if b then some path else earlier)
      ≡ over (elim later [ none ↦ if b then some path else none | some p ↦ some p ]) earlier
unfolding over
over_path none true path earlier = refl
over_path none false path earlier = refl
over_path (some p) b path earlier = refl

parse_lines-entries : (es : List Entry) (m : Assignments) → All IsEntry es → IsParsed es m
unfolding parse_lines path_of over
parse_lines-entries [] m h = record { result = m; parsed = refl; values = λ k. refl }
parse_lines-entries (e ∷ es) m h =
    let subs = e.subsystem ∷ e.more in
    let rest = parse_lines-entries es (assign subs e.path m) h.1 in
    let names =
      split-join b',' e.subsystem e.more h.0.subsystem.no_comma
        (All-imp IsName (IsPlain b',') (λ s n. n.no_comma) e.more h.0.more) in
    record {
      result = rest.result;
      parsed = rw (last_parts-line e h.0, names) rest.parsed;
      values = λ k.
          rest.values k
          ∙ ap (λ x. over (path_of k es) x) (lookup-assign k subs e.path m)
          ∙ over_path (path_of k es) (any (λ s. bytes_eq s k) subs) e.path (lookup k m);
    }

over-none : (o : Option Bytes) → over o none ≡ o
unfolding over
over-none none = refl
over-none (some p) = refl

-- Entries in the kernel's format, in which no name of a subsystem has a comma or a colon, are read
-- with no error, and the map has for each subsystem the path of the last entry with its name.
pub parse_cgroup_from_reader-entries :
    (es : List Entry)
    → All IsEntry es
    → (m : Assignments) × (parse_cgroup_from_reader (record { lines = map line es; fails = false })
        ≡ ok m)
      × ((k : Bytes) → lookup k m ≡ path_of k es)
unfolding parse_cgroup_from_reader lookup
parse_cgroup_from_reader-entries es h =
    let p = parse_lines-entries es [] h in
    (p.result, p.parsed, λ k. p.values k ∙ over-none (path_of k es))
