-- ===== src/Cgroups/Listing/Pids.antt =====
-- `readProcsFile` of cgroups/utils.go on the kernel's text.
use libcontainer.Prelude.{
  ℕ, ◌^◌, ◌<◌, false, List, [], ◌∷◌, bytes_eq_iff, ok, ◌≡◌, refl, arith, All, map,
}
use libcontainer.Prelude.Int.{pos}
use libcontainer.Text.{format_uint}
use libcontainer.Text.Decimal.{format-ne-nil}
use libcontainer.Text.Trim.{parse_int-format}
use libcontainer.Cgroups.Listing.{read_pids, read_procs_file}

read_pids-format :
    (pids : List ℕ)
    → All (λ p. p < 2 ^ 63) pids
    → read_pids false (map format_uint pids) ≡ ok (map pos pids)
unfolding read_pids
read_pids-format [] h = refl
read_pids-format (p ∷ pids) h = ground (
  arith,
  bytes_eq_iff (format_uint p) [],
  format-ne-nil p,
  parse_int-format p h.0,
  read_pids-format pids h.1,
)

-- The process ids of a file with one id on each line are read in order.
pub read_procs_file-format :
    (pids : List ℕ)
    → All (λ p. p < 2 ^ 63) pids
    → read_procs_file (record { lines = map format_uint pids; fails = false }) ≡ ok (map pos pids)
unfolding read_procs_file
read_procs_file-format pids h = read_pids-format pids h
