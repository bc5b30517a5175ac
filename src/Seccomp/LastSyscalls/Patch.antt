-- ===== src/Seccomp/LastSyscalls/Patch.antt =====
-- The map that seccomp/patchbpf/enosys_linux.go makes of a configuration, and the patched filter.
use libcontainer.Prelude.{
  ℕ, ◌≡◌, ◌≢◌, ◌⊎◌, inl, inr, true, false, List, [], ◌∷◌, ◌++◌, ◌==◌, if◌then◌else◌, any, ◌||◌, ok,
  ◌>>=◌, Result, arith, All, Bool-cases, ok_step, ok-injective, subst, sym,
}
use libcontainer.Seccomp.{
  scmp_eq, ScmpArch, Header, ArchEntry, LastSyscallMap, Insn, Error, generate_enosys_stub,
}
use libcontainer.Seccomp.Machine.{Machine, SeccompData}
use libcontainer.Seccomp.Stub.{IsDistinct, IsOrder, stub_answer, generate_enosys_stub-run}
use libcontainer.Seccomp.LastSyscalls.{
  Orders, Syscall, Config, Libseccomp, largest_syscall, add_key, set_key, get_key, add_arch,
  add_archs, find_last_syscalls, is_enosys_ret, is_allow_action, generate_patch,
  enosys_patch_filter, scmp_arch_to_audit_arch, configured_archs,
}

ne_of_false : (a b : ℕ) → (a == b) ≡ false → b ≢ a
ne_of_false a b h e = ground arith

keys_other :
    (e : ArchEntry) (k : ℕ) (es : LastSyscallMap)
    → k ≢ e.audit_arch
    → All (λ (f : ArchEntry). f.audit_arch ≢ e.audit_arch) es
    → All (λ (f : ArchEntry). f.audit_arch ≢ e.audit_arch) (add_key k es)
unfolding add_key
keys_other e k [] ne h = (ne, tt)
keys_other e k (f ∷ es) ne h = elim (Bool-cases (f.audit_arch == k)) [
  | inl same ↦ rw same h
  | inr other ↦ rw other (h.0, keys_other e k es ne h.1)
]

add_key-IsDistinct : (k : ℕ) (es : LastSyscallMap) → IsDistinct es → IsDistinct (add_key k es)
unfolding add_key
add_key-IsDistinct k [] h = (tt, tt)
add_key-IsDistinct k (e ∷ es) h = elim (Bool-cases (e.audit_arch == k)) [
  | inl same ↦ rw same h
  | inr other ↦
      rw other
        (keys_other e k es (ne_of_false e.audit_arch k other) h.0, add_key-IsDistinct k es h.1)
]

set_keys :
    (a k : ℕ) (ms : List (ScmpArch × ℕ)) (es : LastSyscallMap)
    → All (λ (f : ArchEntry). f.audit_arch ≢ a) es
    → All (λ (f : ArchEntry). f.audit_arch ≢ a) (set_key k ms es)
unfolding set_key
set_keys a k ms [] h = tt
set_keys a k ms (f ∷ es) h = elim (Bool-cases (f.audit_arch == k)) [
  | inl same ↦ rw same h
  | inr other ↦ rw other (h.0, set_keys a k ms es h.1)
]

set_key-IsDistinct :
    (k : ℕ) (ms : List (ScmpArch × ℕ)) (es : LastSyscallMap)
    → IsDistinct es
    → IsDistinct (set_key k ms es)
unfolding set_key
set_key-IsDistinct k ms [] h = tt
set_key-IsDistinct k ms (e ∷ es) h = elim (Bool-cases (e.audit_arch == k)) [
  | inl same ↦ rw same h
  | inr other ↦ rw other (set_keys e.audit_arch k ms es h.0, set_key-IsDistinct k ms es h.1)
]

module _ (h : Header) (l : Libseccomp) (rules : List Syscall) where
  -- what a round writes
  abbrev written : ℕ → LastSyscallMap → ScmpArch → LastSyscallMap
  written k m a =
      let m' = add_key k m in
      let ms = get_key k m' in
      let n = largest_syscall l a rules 0 in
      if any (λ (p : ScmpArch × ℕ). scmp_eq p.0 a) ms || n == 0
      then m'
      else set_key k (ms ++ (a, n) ∷ []) m'

  written-IsDistinct :
      (k : ℕ) (m : LastSyscallMap) (a : ScmpArch) → IsDistinct m → IsDistinct (written k m a)
  written-IsDistinct k m a d =
      let ms = get_key k (add_key k m) in
      let n = largest_syscall l a rules 0 in
      elim (Bool-cases (any (λ (p : ScmpArch × ℕ). scmp_eq p.0 a) ms || n == 0)) [
        | inl old ↦ rw old (add_key-IsDistinct k m d)
        | inr new ↦
            rw new
              (set_key-IsDistinct k (ms ++ (a, n) ∷ []) (add_key k m) (add_key-IsDistinct k m d))
      ]

  add_arch-IsDistinct :
      (m : LastSyscallMap) (a : ScmpArch) (m' : LastSyscallMap)
      → IsDistinct m
      → add_arch h l rules m a ≡ ok m'
      → IsDistinct m'
  unfolding add_arch
  add_arch-IsDistinct m a m' d r =
      let step = ok_step (scmp_arch_to_audit_arch h l a) (λ k. ok (written k m a)) r in
      subst IsDistinct (ok-injective (written step.0 m a) m' step.2)
        (written-IsDistinct step.0 m a d)

  add_archs-IsDistinct :
      (m : LastSyscallMap) (archs : List ScmpArch) (m' : LastSyscallMap)
      → IsDistinct m
      → add_archs h l rules m archs ≡ ok m'
      → IsDistinct m'
  unfolding add_archs
  add_archs-IsDistinct m [] m' d r = subst IsDistinct (ok-injective m m' r) d
  add_archs-IsDistinct m (a ∷ archs) m' d r =
      let step = ok_step (add_arch h l rules m a) (λ m. add_archs h l rules m archs) r in
      add_archs-IsDistinct step.0 archs m' (add_arch-IsDistinct m a step.0 d step.1) step.2

find_last_syscalls-IsDistinct :
    (h : Header) (l : Libseccomp) (visit : List ScmpArch → List ScmpArch) (c : Config)
    (last : LastSyscallMap)
    → find_last_syscalls h l visit c ≡ ok last
    → IsDistinct last
unfolding find_last_syscalls
find_last_syscalls-IsDistinct h l visit c last r =
    let step =
      ok_step (configured_archs l c.architectures)
        (λ archs. add_archs h l c.syscalls [] (visit archs)) r in
    add_archs-IsDistinct h l c.syscalls [] (visit step.0) last tt step.2

-- Each loop over a map visits every key of it once.
abbrev pub AreOrders : Orders → Type 0
AreOrders o = (m : LastSyscallMap) → IsDistinct m → IsOrder m (o.sections m) × IsOrder m (o.jumps m)

-- With the patch of a configuration in front of a filter, on every machine that meets the interface
-- and in whatever orders Go visits the maps: if the default action allows or the default is already
-- that return value, the program is the filter, and else it answers by the numbers that
-- `findLastSyscalls` found.
pub enosys_patch_filter-run :
    (h : Header) (l : Libseccomp) (o : Orders) (c : Config) (m : Machine) (d : SeccompData)
    (filter program : List Insn) (x : ℕ)
    → AreOrders o
    → enosys_patch_filter h l o c filter ≡ ok program
    → (is_enosys_ret h c.default_errno_ret || is_allow_action c.default_action ≡ true)
        × (program ≡ filter)
      ⊎ (is_enosys_ret h c.default_errno_ret || is_allow_action c.default_action ≡ false)
        × (last : LastSyscallMap) × (find_last_syscalls h l o.archs c ≡ ok last)
        × (m.run program d x ≡ stub_answer h m d filter last)
unfolding enosys_patch_filter generate_patch
enosys_patch_filter-run h l o c m d filter program x orders r =
    elim (Bool-cases (is_enosys_ret h c.default_errno_ret || is_allow_action c.default_action)) [
      | inl skip ↦ inl (skip, sym (ok-injective filter program (rw skip at r)))
      | inr patch ↦ let p = patched (rw patch at r) in inr (patch, p.0, p.1, p.2)
    ]
  where
    stub_of : LastSyscallMap → Result Error (List Insn)
    stub_of last = generate_enosys_stub h (o.sections last) (o.jumps last)

    patched :
        (find_last_syscalls h l o.archs c >>= stub_of >>= λ stub. ok (stub ++ filter)) ≡ ok program
        → (last : LastSyscallMap) × (find_last_syscalls h l o.archs c ≡ ok last)
          × (m.run program d x ≡ stub_answer h m d filter last)
    patched r =
        let step =
          ok_step (find_last_syscalls h l o.archs c >>= stub_of) (λ stub. ok (stub ++ filter)) r in
        let found = ok_step (find_last_syscalls h l o.archs c) stub_of step.1 in
        let visits = orders found.0 (find_last_syscalls-IsDistinct h l o.archs c found.0 found.1) in
        (
          found.0,
          found.1,
          subst (λ p. m.run p d x ≡ stub_answer h m d filter found.0)
              (ok-injective (step.0 ++ filter) program step.2)
              (generate_enosys_stub-run h m d filter found.0 (o.sections found.0) (o.jumps found.0)
                step.0 x visits.0 visits.1 found.2),
        )
