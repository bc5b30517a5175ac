-- ===== src/Users.antt =====
-- user/user.go: passwd, group, subid and id-map files. A file comes as the lines of a
-- `bufio.Scanner`, or for groups as the chunks of `bufio.Reader.ReadLine`. The functions that open
-- files by their
-- paths are in Users.Paths. `int` and `int64` have 64 bits.
pub mod Exec
pub mod Additional
pub mod Filters
pub mod Lookup
pub mod Asked
pub mod Paths
use libcontainer.Prelude.{
  ℕ, zero, suc, ◌-◌, ◌^◌, Bool, true, false, ◌&&◌, ◌||◌, not, List, [], ◌∷◌, ◌++◌, Option, none,
  some, ◌==◌, if◌then◌else◌, bytes_eq, Result, ok, err, ◌>>=◌,
}
use libcontainer.Prelude.Int.{ℤ, pos, negsuc}
use libcontainer.Text.{
  Bytes, Reader, NumError, syntax, range, parse_int, split, trim_space, fields_func, is_space,
}

pub record User : Type 0 where
  pub name : Bytes
  pub pass : Bytes
  pub uid : ℤ
  pub gid : ℤ
  pub gecos : Bytes
  pub home : Bytes
  pub shell : Bytes

pub record Group : Type 0 where
  pub name : Bytes
  pub pass : Bytes
  pub gid : ℤ
  pub list : List Bytes

-- an entry in /etc/sub{u,g}id
pub record SubId : Type 0 where
  pub name : Bytes
  pub sub_id : ℤ
  pub count : ℤ

-- an entry in /proc/PID/{u,g}id_map
pub record IdMap : Type 0 where
  pub id : ℤ
  pub parent_id : ℤ
  pub count : ℤ

pub data Error : Type 0 where
  nil_source read_failed open_failed : Error
  no_passwd_entries no_group_entries out_of_range : Error

-- the value that `strconv.Atoi` and `ParseInt` return beside an error that is ignored
unfoldable pub int_value : Bytes → ℤ
int_value s = elim (parse_int 64 s) [
  | ok n ↦ n
  | err e ↦ elim e [
    | syntax ↦ pos 0
    | range ↦ elim s [
      | [] ↦ pos 0
      | c ∷ cs ↦ if c == b'-' then negsuc (2 ^ 63 - 1) else pos (2 ^ 63 - 1)
    ]
  ]
]

-- `parseParts` for one argument: part `i`, or the zero value where there are not enough parts
unfoldable pub part : List Bytes → ℕ → Option Bytes
part [] i = none
part (p ∷ ps) zero = some p
part (p ∷ ps) (suc i) = part ps i

unfoldable pub string_part : List Bytes → ℕ → Bytes
string_part ps i = elim (part ps i) [ none ↦ [] | some p ↦ p ]

unfoldable pub int_part : List Bytes → ℕ → ℤ
int_part ps i = elim (part ps i) [ none ↦ pos 0 | some p ↦ int_value p ]

unfoldable pub list_part : List Bytes → ℕ → List Bytes
list_part ps i = elim (part ps i) [
  | none ↦ []
  | some p ↦ (if bytes_eq p [] then [] else split p b',')
]

unfoldable pub parse_user : Bytes → User
unfolding string_part int_part part int_value
parse_user line =
    let ps = split line b':' in
    record {
      name = string_part ps 0;
      pass = string_part ps 1;
      uid = int_part ps 2;
      gid = int_part ps 3;
      gecos = string_part ps 4;
      home = string_part ps 5;
      shell = string_part ps 6;
    }

unfoldable pub parse_group : Bytes → Group
unfolding string_part int_part list_part part int_value
parse_group line =
    let ps = split line b':' in
    record {
      name = string_part ps 0;
      pass = string_part ps 1;
      gid = int_part ps 2;
      list = list_part ps 3;
    }

unfoldable pub parse_sub_id : Bytes → SubId
unfolding string_part int_part part int_value
parse_sub_id line =
    let ps = split line b':' in
    record { name = string_part ps 0; sub_id = int_part ps 1; count = int_part ps 2 }

unfoldable pub parse_id_map : Bytes → IdMap
unfolding int_part part int_value
parse_id_map line =
    let ps = fields_func is_space line in
    record { id = int_part ps 0; parent_id = int_part ps 1; count = int_part ps 2 }

-- A filter, or nil.
abbrev pub accepts {ℓ} : {A : Type ℓ} → Option (A → Bool) → A → Bool
accepts none a = true
accepts (some f) a = f a

-- The loop of `ParsePasswdFilter`, `ParseSubIDFilter` and `ParseIDMapFilter`, over the parser of
-- one trimmed line; its last argument is `out`.
unfoldable pub scan_lines {ℓ} :
    {A : Type ℓ} → (Bytes → A) → Option (A → Bool) → List Bytes → List A → List A
scan_lines parse filter [] out = out
scan_lines parse filter (text ∷ rest) out =
    let line = trim_space text in
    let p = parse line in
    scan_lines parse filter rest
      (if bytes_eq line [] then out else if accepts filter p then out ++ p ∷ [] else out)

unfoldable pub parse_file {ℓ} :
    {A : Type ℓ} → (Bytes → A) → Option Reader → Option (A → Bool) → Result Error (List A)
parse_file parse none filter = err nil_source
parse_file parse (some r) filter =
    if r.fails then err read_failed else ok (scan_lines parse filter r.lines [])

abbrev pub parse_passwd_filter : Option Reader → Option (User → Bool) → Result Error (List User)
parse_passwd_filter = parse_file parse_user

abbrev pub parse_sub_id_filter : Option Reader → Option (SubId → Bool) → Result Error (List SubId)
parse_sub_id_filter = parse_file parse_sub_id

abbrev pub parse_id_map_filter : Option Reader → Option (IdMap → Bool) → Result Error (List IdMap)
parse_id_map_filter = parse_file parse_id_map

-- A reader under `ReadLine`: chunks, each with `isPrefix`, and whether an error follows them.
pub record ChunkReader : Type 0 where
  pub chunks : List (Bytes × Bool)
  pub fails : Bool

-- a comment, or nothing
abbrev pub is_blank_line : Bytes → Bool
is_blank_line [] = true
is_blank_line (c ∷ cs) = c == b'#'

-- one round of the outer loop of `ParseGroupFilter`, after a whole line is read
unfoldable pub take_group : Option (Group → Bool) → Bytes → List Group → List Group
take_group filter text out =
    let line = trim_space text in
    let p = parse_group line in
    if is_blank_line line then out else if accepts filter p then out ++ p ∷ [] else out

-- both loops of `ParseGroupFilter`; `whole` is `wholeLine`
unfoldable pub scan_groups :
    Option (Group → Bool) → Bytes → List (Bytes × Bool) → List Group → List Group
scan_groups filter whole [] out = out
scan_groups filter whole ((line, is_prefix) ∷ rest) out =
    scan_groups filter (if is_prefix then whole ++ line else []) rest
      (if is_prefix then out else take_group filter (whole ++ line) out)

unfoldable pub parse_group_filter :
    Option ChunkReader → Option (Group → Bool) → Result Error (List Group)
parse_group_filter none filter = err nil_source
parse_group_filter (some r) filter =
    if r.fails then err read_failed else ok (scan_groups filter [] r.chunks [])

pub record ExecUser : Type 0 where
  pub uid : ℤ
  pub gid : ℤ
  pub sgids : List ℤ
  pub home : Bytes
