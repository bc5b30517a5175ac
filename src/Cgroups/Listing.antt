-- ===== src/Cgroups/Listing.antt =====
-- cgroups/utils.go: what the library reads from the kernel's files on control groups. Opening a file
-- is not modelled; a file is the lines that `bufio.Scanner` yields. A Go map is the list of its
-- assignments, the last one first.
pub mod Entries
pub mod Pids
use libcontainer.Prelude.{
  ℕ, ◌+◌, ◌/◌, ◌^◌, Bool, true, false, ◌&&◌, not, List, [], ◌∷◌, ◌++◌, Option, none, some, ◌==◌,
  leb, length, bytes_eq, if◌then◌else◌, Result, ok, err, ◌>>=◌,
}
use libcontainer.Prelude.Int.{ℤ, pos, negsuc}
use libcontainer.Text.{
  Bytes, codes, Reader, NumError, split, is_space, fields_func, parse_int, format_uint, trim_prefix,
  trim_suffix,
}

pub data Error : Type 0 where
  invalid_entry read_failed : Error
  bad_pid : NumError → Error

abbrev pub Assignments : Type 0
Assignments = List (Bytes × Bytes)

unfoldable pub lookup : Bytes → Assignments → Option Bytes
lookup k [] = none
lookup k ((s, path) ∷ m) = let rest = lookup k m in if bytes_eq s k then some path else rest

abbrev pub cut_on : ℕ → Option (Bytes × Bytes) → Option (Bytes × Bytes)
cut_on c none = none
cut_on c (some (before, after)) = some (c ∷ before, after)

-- text around its first separator
unfoldable pub cut : ℕ → Bytes → Option (Bytes × Bytes)
cut sep [] = none
cut sep (c ∷ s) = let rest = cut_on c (cut sep s) in if c == sep then some ([], s) else rest

abbrev pub cut_more : ℕ → Option (Bytes × Bytes) → Option (Bytes × Bytes)
cut_more sep none = none
cut_more sep (some (before, after)) = cut sep after

-- The second and third part of `strings.SplitN(text, ":", 3)`, if there are three.
abbrev pub last_parts : Bytes → Option (Bytes × Bytes)
last_parts text = cut_more b':' (cut b':' text)

-- the inner loop of `parseCgroupFromReader`
abbrev pub assign : List Bytes → Bytes → Assignments → Assignments
assign [] path m = m
assign (s ∷ subs) path m = assign subs path ((s, path) ∷ m)

abbrev pub assign_parts : Option (Bytes × Bytes) → Assignments → Result Error Assignments
assign_parts none m = err invalid_entry
assign_parts (some (subs, path)) m = ok (assign (split subs b',') path m)

-- its loop over the lines
unfoldable pub parse_lines : Bool → List Bytes → Assignments → Result Error Assignments
parse_lines fails [] m = if fails then err read_failed else ok m
parse_lines fails (text ∷ rest) m =
    assign_parts (last_parts text) m >>= λ next. parse_lines fails rest next

-- `parseCgroupFromReader`
unfoldable pub parse_cgroup_from_reader : Reader → Result Error Assignments
parse_cgroup_from_reader r = parse_lines r.fails r.lines []

abbrev pub pid_then : Result NumError ℤ → Result Error (List ℤ) → Result Error (List ℤ)
pid_then (err e) rest = err (bad_pid e)
pid_then (ok pid) rest = rest >>= λ pids. ok (pid ∷ pids)

-- the loop of `readProcsFile`
unfoldable pub read_pids : Bool → List Bytes → Result Error (List ℤ)
read_pids fails [] = if fails then err read_failed else ok []
read_pids fails (t ∷ lines) =
    let rest = read_pids fails lines in
    if bytes_eq t [] then rest else pid_then (parse_int 64 t) rest

-- `readProcsFile`, behind the opening of the file
unfoldable pub read_procs_file : Reader → Result Error (List ℤ)
read_procs_file r = read_pids r.fails r.lines

-- `GetAllSubsystems` on the unified hierarchy, with the data of cgroup.controllers
abbrev pub unified_subsystems : Bytes → List Bytes
unified_subsystems controllers =
    codes "devices" ∷ codes "freezer" ∷ fields_func is_space controllers

-- the fields of a line of /proc/cgroups: a name, if it is enabled
abbrev pub enabled : List Bytes → List Bytes → List Bytes
enabled (name ∷ b ∷ c ∷ flag ∷ more) rest =
    if not (bytes_eq flag (codes "0")) then name ∷ rest else rest
enabled parts rest = rest

-- the loop of `GetAllSubsystems` over /proc/cgroups; `none` is the panic on the first byte of an empty
-- line
unfoldable pub enabled_subsystems : List Bytes → Option (List Bytes)
enabled_subsystems [] = some []
enabled_subsystems ([] ∷ lines) = none
enabled_subsystems ((c ∷ text) ∷ lines) = elim (enabled_subsystems lines) [
  | none ↦ none
  | some rest ↦
      some (if not (c == b'#') then enabled (fields_func is_space (c ∷ text)) rest else rest)
]

-- the sizes that `getHugePageSizeFromFilenames` returns, and the file of its first warning
pub record PageSizes : Type 0 where
  pub sizes : List Bytes
  pub warn : Option Bytes

abbrev pub page_text : Bytes → ℤ → Bytes
page_text val (pos n) =
    if leb (2 ^ 20) n
    then format_uint (n / 2 ^ 20) ++ codes "GB"
    else if leb (2 ^ 10) n
    then format_uint (n / 2 ^ 10) ++ codes "MB"
    else val ++ codes "KB"
page_text val (negsuc n) = val ++ codes "KB"

abbrev pub with_size : Bytes → PageSizes → PageSizes
with_size size r = record r { sizes = size ∷ r.sizes }

abbrev pub with_warning : Bytes → PageSizes → PageSizes
with_warning file r = record r { warn = some file }

-- the body of its loop, behind the prefix
abbrev pub page_size : Bytes → Bytes → PageSizes → PageSizes
page_size file val rest =
    let number = trim_suffix val (codes "kB") in
    if not (length number + 2 == length val)
    then with_warning file rest
    else elim (parse_int 64 number) [
      | err e ↦ with_warning file rest
      | ok size ↦ with_size (page_text number size) rest
    ]

-- `getHugePageSizeFromFilenames`
unfoldable pub get_huge_page_size_from_filenames : List Bytes → PageSizes
get_huge_page_size_from_filenames [] = record { sizes = []; warn = none }
get_huge_page_size_from_filenames (file ∷ files) =
    let rest = get_huge_page_size_from_filenames files in
    let val = trim_prefix file (codes "hugepages-") in
    if length val == length file then rest else page_size file val rest
