-- ===== src/Spec/Profile/Expanded.antt =====
-- The rules that `SetupSeccomp` of specconv/spec_linux.go makes of a profile.
use libcontainer.Prelude.{
  Bool, true, false, ◌&&◌, not, List, [], ◌∷◌, ◌++◌, Option, none, some, bytes_eq, if◌then◌else◌,
  ok, err, ◌>>=◌, ok_step, ok-injective, err_ne_ok, ◌≡◌, refl, ap, ◌∙◌, subst, arith,
}
use libcontainer.Text.{Bytes}
use libcontainer.Spec.Mounts.{find}
use libcontainer.Spec.Profile.{
  Operator, Action, operators, actions, archs, Error, known, convert_string_to_operator,
  bad_operator, convert_string_to_action, bad_action, convert_string_to_arch, bad_arch, SpecArg,
  SpecSyscall, SpecSeccomp, Arg, Syscall, Seccomp, convert_arg, convert_args, convert_archs,
  rule_for, convert_names, convert_syscalls, no_items, convert_seccomp, setup_seccomp,
  flags_unsupported,
}

-- Arguments with the operators of the table, in order.
pub data AreArgs : List SpecArg → List Arg → Type 0 where
  no_args : AreArgs [] []
  arg :
      {rest : List SpecArg} {more : List Arg} (a : SpecArg) (op : Operator)
      → find operators a.op ≡ some op
      → AreArgs rest more
      → AreArgs (a ∷ rest) (convert_arg a op ∷ more)

-- Architectures of the table, in order.
pub data AreArchs : List Bytes → List Bytes → Type 0 where
  no_archs : AreArchs [] []
  arch :
      {rest more : List Bytes} (s new : Bytes)
      → find archs s ≡ some new
      → AreArchs rest more
      → AreArchs (s ∷ rest) (new ∷ more)

-- One rule for each name of a block, all with the same action and arguments.
pub data AreRules (call : SpecSyscall) (action : Action) : List Bytes → List Syscall → Type 0 where
  no_names : AreRules call action [] []
  rule :
      {rest : List Bytes} {more : List Syscall} (name : Bytes) (args : List Arg)
      → AreArgs call.args args
      → AreRules call action rest more
      → AreRules call action (name ∷ rest) (rule_for call action args name ∷ more)

-- The rules of all blocks, in order.
pub data AreBlocks : List SpecSyscall → List Syscall → Type 0 where
  no_blocks : AreBlocks [] []
  block :
      {rest : List SpecSyscall} {own more : List Syscall} (call : SpecSyscall) (action : Action)
      → find actions call.action ≡ some action
      → AreRules call action call.names own
      → AreBlocks rest more
      → AreBlocks (call ∷ rest) (own ++ more)

known_lem {ℓ} :
    {A : Type ℓ} (e : Error) (found : Option A) (a : A) → known e found ≡ ok a → found ≡ some a
known_lem e none a h = absurd (err_ne_ok e a h)
known_lem e (some b) a h = ap some (ok-injective b a h)

convert_args_lem :
    (args : List SpecArg) (new : List Arg) → convert_args args ≡ ok new → AreArgs args new
unfolding convert_args
convert_args_lem [] new h = subst (λ x. AreArgs [] x) (ok-injective [] new h) no_args
convert_args_lem (a ∷ rest) new h =
    let (op, is_op, later) = ok_step (convert_string_to_operator a.op) _ h in
    let (more, made, whole) = ok_step (convert_args rest) _ later in
    subst (λ x. AreArgs (a ∷ rest) x) (ok-injective (convert_arg a op ∷ more) new whole)
      (arg a op (known_lem bad_operator (find operators a.op) op is_op)
        (convert_args_lem rest more made))

convert_archs_lem : (names new : List Bytes) → convert_archs names ≡ ok new → AreArchs names new
unfolding convert_archs
convert_archs_lem [] new h = subst (λ x. AreArchs [] x) (ok-injective [] new h) no_archs
convert_archs_lem (s ∷ rest) new h =
    let (t, is_arch, later) = ok_step (convert_string_to_arch s) _ h in
    let (more, made, whole) = ok_step (convert_archs rest) _ later in
    subst (λ x. AreArchs (s ∷ rest) x) (ok-injective (t ∷ more) new whole)
      (arch s t (known_lem bad_arch (find archs s) t is_arch) (convert_archs_lem rest more made))

convert_names_lem :
    (call : SpecSyscall) (action : Action) (names : List Bytes) (new : List Syscall)
    → convert_names call action names ≡ ok new
    → AreRules call action names new
unfolding convert_names
convert_names_lem call action [] new h =
    subst (λ x. AreRules call action [] x) (ok-injective [] new h) no_names
convert_names_lem call action (name ∷ rest) new h =
    let (args, are_args, later) = ok_step (convert_args call.args) _ h in
    let (more, made, whole) = ok_step (convert_names call action rest) _ later in
    subst (λ x. AreRules call action (name ∷ rest) x)
      (ok-injective (rule_for call action args name ∷ more) new whole)
      (rule name args (convert_args_lem call.args args are_args)
        (convert_names_lem call action rest more made))

convert_syscalls_lem :
    (calls : List SpecSyscall) (new : List Syscall)
    → convert_syscalls calls ≡ ok new
    → AreBlocks calls new
unfolding convert_syscalls
convert_syscalls_lem [] new h = subst (λ x. AreBlocks [] x) (ok-injective [] new h) no_blocks
convert_syscalls_lem (call ∷ rest) new h =
    let (action, is_action, later) = ok_step (convert_string_to_action call.action) _ h in
    let (own, are_own, last) = ok_step (convert_names call action call.names) _ later in
    let (more, made, whole) = ok_step (convert_syscalls rest) _ last in
    subst (λ x. AreBlocks (call ∷ rest) x) (ok-injective (own ++ more) new whole)
      (block call action (known_lem bad_action (find actions call.action) action is_action)
        (convert_names_lem call action call.names own are_own)
        (convert_syscalls_lem rest more made))

-- What the profile must be.
pub record IsExpanded (c : SpecSeccomp) (new : Seccomp) : Type 0 where
  pub no_flags : c.flags ≡ []
  pub action : find actions c.default_action ≡ some new.default_action
  pub archs_known : AreArchs c.architectures new.architectures
  pub rules : AreBlocks c.syscalls new.syscalls
  pub same_errno : new.default_errno_ret ≡ c.default_errno_ret

no_items_nil : (flags : List Bytes) → not (no_items flags) ≡ false → flags ≡ []
no_items_nil [] h = refl
no_items_nil (x ∷ xs) h = ground (arith, h)

convert_seccomp_lem :
    (c : SpecSeccomp) (new : Seccomp) → c.flags ≡ [] → convert_seccomp c ≡ ok new → IsExpanded c new
unfolding convert_seccomp
convert_seccomp_lem c new no_flags h =
    let (architectures, are_archs, later) = ok_step (convert_archs c.architectures) _ h in
    let (action, is_action, last) = ok_step (convert_string_to_action c.default_action) _ later in
    let (syscalls, are_calls, whole) = ok_step (convert_syscalls c.syscalls) _ last in
    subst (λ x. IsExpanded c x) (ok-injective _ new whole)
      (record {
        no_flags = no_flags;
        action = known_lem bad_action (find actions c.default_action) action is_action;
        archs_known = convert_archs_lem c.architectures architectures are_archs;
        rules = convert_syscalls_lem c.syscalls syscalls are_calls;
        same_errno = refl;
      })

after_flags :
    (c : SpecSeccomp) (new : Seccomp) (b : Bool)
    → not (no_items c.flags) ≡ b
    → (if b then err flags_unsupported else (convert_seccomp c >>= λ x. ok (some x)))
      ≡ ok (some new)
    → IsExpanded c new
after_flags c new true e h = absurd (err_ne_ok _ (some new) h)
after_flags c new false e h =
    let (x, made, same) = ok_step (convert_seccomp c) (λ x. ok (some x)) h in
    convert_seccomp_lem c new (no_items_nil c.flags e)
      (made ∙ ap ok (some-injective x new (ok-injective (some x) (some new) same)))
  where
    some-injective : (x y : Seccomp) → some x ≡ some y → x ≡ y
    some-injective x y h = cc

not_disabled :
    (c : SpecSeccomp) (new : Seccomp) (b : Bool)
    → (if b
        then ok none
        else if not (no_items c.flags)
        then err flags_unsupported
        else (convert_seccomp c >>= λ x. ok (some x)))
      ≡ ok (some new)
    → IsExpanded c new
not_disabled c new true h = absurd cc
not_disabled c new false h = after_flags c new (not (no_items c.flags)) refl h

-- Where SetupSeccomp returns a profile, the specification has no flags; the default action, the
-- architectures and the operators are those that the tables have for its strings; and the rules are,
-- block by block and in order, one for each name of the block, with the action that the table has for
-- the block and with the block's arguments.
pub setup_seccomp-IsExpanded :
    (c : SpecSeccomp) (new : Seccomp) → setup_seccomp (some c) ≡ ok (some new) → IsExpanded c new
unfolding setup_seccomp
setup_seccomp-IsExpanded c new h =
    not_disabled c new (bytes_eq c.default_action [] && no_items c.syscalls) h
