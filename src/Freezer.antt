-- ===== src/Freezer.antt =====
-- cgroups/fs/freezer.go. The kernel's side is a parameter: what each write and each read of the
-- files of the freezer gives, by the round of the loop. Writes are kept as a trace, oldest first.
-- Sleeps and log lines are left out.
pub mod Thawing
use libcontainer.Prelude.{
  ℕ, zero, suc, ◌+◌, ◌-◌, ◌%◌, Bool, true, false, ◌||◌, List, [], ◌∷◌, ◌++◌, Option, none, some,
  ◌==◌, if◌then◌else◌, bytes_eq, Result, ok, err,
}
use libcontainer.Text.{Bytes, codes, trim_space}

-- configs.FreezerState, a string
abbrev pub undefined : Bytes
undefined = []

abbrev pub frozen : Bytes
frozen = codes "FROZEN"

abbrev pub thawed : Bytes
thawed = codes "THAWED"

abbrev pub freezing : Bytes
freezing = codes "FREEZING"

pub data Error : Type 0 where
  write_failed read_failed no_such_file no_such_device : Error
  unexpected_state unable_to_freeze invalid_argument unknown_state unknown_self_freezing : Error

-- a Go error alone
abbrev pub Status : Type 0
Status = Result {0, 0} Error Unit

-- What the writes of FROZEN and THAWED and the reads give, by the round. A write that fails may
-- have been seen by the kernel or not; the trace keeps it.
pub record Kernel : Type 0 where
  pub write_frozen : ℕ → Status
  pub write_thawed : Status
  pub read_state : ℕ → Result Error Bytes

-- the outcome, and the values written to freezer.state
abbrev pub Outcome : Type 0
Outcome = Status × List Bytes

abbrev pub wrote : Bytes → Outcome → Outcome
wrote s o = (o.0, s ∷ o.1)

-- the switch on the state read back; `again` is the next round
abbrev pub judge : Outcome → Result Error Bytes → Outcome
judge again (err e) = (err e, [])
judge again (ok state) =
    if bytes_eq (trim_space state) freezing
    then again
    else if bytes_eq (trim_space state) frozen
    then (ok tt, [])
    else (err unexpected_state, [])

abbrev pub after_write : Outcome → Result Error Bytes → Status → Outcome
after_write again state (err e) = (err e, [])
after_write again state (ok _) = judge again state

-- The rounds from `i`; the number of rounds left is 1000 - `i`.
unfoldable pub freeze_rounds : Kernel → ℕ → ℕ → Outcome
freeze_rounds k i zero = (err unable_to_freeze, [])
freeze_rounds k i (suc left) =
    let again = freeze_rounds k (i + 1) left in
    let round = wrote frozen (after_write again (k.read_state i) (k.write_frozen i)) in
    if i % 50 == 49 then wrote thawed round else round

-- the deferred thaw, whose own error is dropped
abbrev pub thaw_on_error : Outcome → Outcome
thaw_on_error (ok _, trace) = (ok tt, trace)
thaw_on_error (err e, trace) = (err e, trace ++ thawed ∷ [])

-- `Set` of FreezerGroup
unfoldable pub set : Kernel → Bytes → Outcome
set k state =
    if bytes_eq state frozen
    then thaw_on_error (freeze_rounds k 0 1000)
    else if bytes_eq state thawed
    then (k.write_thawed, thawed ∷ [])
    else if bytes_eq state undefined
    then (ok tt, [])
    else (err invalid_argument, [])

-- an error of the two kinds that mean an old kernel
abbrev pub is_absent : Error → Bool
is_absent no_such_file = true
is_absent no_such_device = true
is_absent e = false

-- The state that `GetState` returns, with its error.
abbrev pub Answer : Type 0
Answer = Bytes × Option Error

abbrev pub unless_absent : Bytes → Error → Answer
unless_absent state e = if is_absent e then (state, none) else (state, some e)

-- freezer.self_freezing, read where the state is FROZEN
unfoldable pub self_state : Result Error Bytes → Answer
self_state (err e) = unless_absent frozen e
self_state (ok self) =
    if bytes_eq self (codes "0\n")
    then (thawed, none)
    else if bytes_eq self (codes "1\n")
    then (frozen, none)
    else (undefined, some unknown_self_freezing)

-- `GetState` over what the reads give, in order; `none` is a loop that has not ended with them.
unfoldable pub get_state : List (Result Error Bytes) → Result Error Bytes → Option Answer
unfolding self_state
get_state [] self = none
get_state (err e ∷ reads) self = some (unless_absent undefined e)
get_state (ok state ∷ reads) self =
    let again = get_state reads self in
    if bytes_eq (trim_space state) thawed
    then some (thawed, none)
    else if bytes_eq (trim_space state) frozen
    then some (self_state self)
    else if bytes_eq (trim_space state) freezing
    then again
    else some (undefined, some unknown_state)
