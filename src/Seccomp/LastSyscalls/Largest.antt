-- ===== src/Seccomp/LastSyscalls/Largest.antt =====
-- The numbers that `findLastSyscalls` of seccomp/patchbpf/enosys_linux.go keeps.
use libcontainer.Prelude.{
  ℕ, ◌≤◌, ◌<◌, ◌≡◌, Bool, false, List, [], ◌∷◌, ◌++◌, Option, none, some, ◌==◌, if◌then◌else◌, any,
  ◌||◌, ok, arith, All, All-append, Bool-cases, inl, inr, ok_step, ok-injective, subst,
}
use libcontainer.Prelude.Int.{ℤ, pos, negsuc}
use libcontainer.Seccomp.{scmp_eq, ScmpArch, Header, ArchEntry, LastSyscallMap}
use libcontainer.Seccomp.LastSyscalls.{
  Syscall, Config, Libseccomp, larger, largest_syscall, add_key, set_key, get_key, add_arch,
  add_archs, find_last_syscalls, scmp_arch_to_audit_arch, configured_archs,
}

-- A number that is not above a bound, if it is one.
abbrev pub IsAtMost : ℕ → Option ℤ → Type 0
IsAtMost n (some (pos k)) = k ≤ n
IsAtMost n _ = Unit

larger_bounds : (n : ℕ) (o : Option ℤ) → (n ≤ larger n o) × IsAtMost (larger n o) o
larger_bounds n none = (omega arith, tt)
larger_bounds n (some (pos k)) = ground arith
larger_bounds n (some (negsuc k)) = (omega arith, tt)

module _ (l : Libseccomp) (a : ScmpArch) where
  largest_syscall_ge : (rules : List Syscall) (n : ℕ) → n ≤ largest_syscall l a rules n
  unfolding largest_syscall
  largest_syscall_ge [] n = omega arith
  largest_syscall_ge (r ∷ rules) n = omega (
    arith,
    (larger_bounds n (l.syscall_number r.name a)).0,
    largest_syscall_ge rules (larger n (l.syscall_number r.name a)),
  )

  IsAtMost-mono : (n k : ℕ) (o : Option ℤ) → n ≤ k → IsAtMost n o → IsAtMost k o
  IsAtMost-mono n k none le h = tt
  IsAtMost-mono n k (some (pos i)) le h = omega arith
  IsAtMost-mono n k (some (negsuc i)) le h = tt

  largest_syscall-IsAtMost :
      (rules : List Syscall) (n : ℕ)
      → All
          (λ (r : Syscall). IsAtMost (largest_syscall l a rules n) (l.syscall_number r.name a))
          rules
  unfolding largest_syscall
  largest_syscall-IsAtMost [] n = tt
  largest_syscall-IsAtMost (r ∷ rules) n =
      let n' = larger n (l.syscall_number r.name a) in
      (
        IsAtMost-mono n' (largest_syscall l a rules n') (l.syscall_number r.name a)
            (largest_syscall_ge rules n') (larger_bounds n (l.syscall_number r.name a)).1,
        largest_syscall-IsAtMost rules n',
      )

module _ (l : Libseccomp) (rules : List Syscall) where
  -- Every rule's number on the architecture is at most the number kept for it, which is not 0.
  abbrev pub Covers : ScmpArch × ℕ → Type 0
  Covers p = (0 < p.1) × All (λ (r : Syscall). IsAtMost p.1 (l.syscall_number r.name p.0)) rules

  abbrev pub EntriesCover : LastSyscallMap → Type 0
  EntriesCover = All (λ (e : ArchEntry). All Covers e.max_syscalls)

  add_key-EntriesCover :
      (k : ℕ) (es : LastSyscallMap) → EntriesCover es → EntriesCover (add_key k es)
  unfolding add_key
  add_key-EntriesCover k [] h = (tt, tt)
  add_key-EntriesCover k (e ∷ es) h = elim (Bool-cases (e.audit_arch == k)) [
    | inl same ↦ rw same h
    | inr other ↦ rw other (h.0, add_key-EntriesCover k es h.1)
  ]

  set_key-EntriesCover :
      (k : ℕ) (ms : List (ScmpArch × ℕ)) (es : LastSyscallMap)
      → All Covers ms
      → EntriesCover es
      → EntriesCover (set_key k ms es)
  unfolding set_key
  set_key-EntriesCover k ms [] c h = tt
  set_key-EntriesCover k ms (e ∷ es) c h = elim (Bool-cases (e.audit_arch == k)) [
    | inl same ↦ rw same (c, h.1)
    | inr other ↦ rw other (h.0, set_key-EntriesCover k ms es c h.1)
  ]

  get_key-Covers : (k : ℕ) (es : LastSyscallMap) → EntriesCover es → All Covers (get_key k es)
  unfolding get_key
  get_key-Covers k [] h = tt
  get_key-Covers k (e ∷ es) h = elim (Bool-cases (e.audit_arch == k)) [
    | inl same ↦ rw same h.0
    | inr other ↦ rw other (get_key-Covers k es h.1)
  ]

  abbrev pub written : ℕ → LastSyscallMap → ScmpArch → LastSyscallMap
  written k m a =
      let m' = add_key k m in
      let ms = get_key k m' in
      let n = largest_syscall l a rules 0 in
      if any (λ (p : ScmpArch × ℕ). scmp_eq p.0 a) ms || n == 0
      then m'
      else set_key k (ms ++ (a, n) ∷ []) m'

  written-EntriesCover :
      (k : ℕ) (m : LastSyscallMap) (a : ScmpArch) → EntriesCover m → EntriesCover (written k m a)
  written-EntriesCover k m a c =
      let ms = get_key k (add_key k m) in
      let n = largest_syscall l a rules 0 in
      let c' = add_key-EntriesCover k m c in
      elim (Bool-cases (any (λ (p : ScmpArch × ℕ). scmp_eq p.0 a) ms || n == 0)) [
        | inl old ↦ rw old c'
        | inr new ↦ rw new (
            set_key-EntriesCover k (ms ++ (a, n) ∷ []) (add_key k m)
              (All-append Covers ms ((a, n) ∷ []) (get_key-Covers k (add_key k m) c') (
                (
                  positive (any (λ (p : ScmpArch × ℕ). scmp_eq p.0 a) ms) n new,
                  largest_syscall-IsAtMost l a rules 0,
                ),
                tt,
              ))
              c')
      ]
    where
      positive : (b : Bool) (n : ℕ) → b || n == 0 ≡ false → 0 < n
      positive b n e = ground arith

module _ (h : Header) (l : Libseccomp) (rules : List Syscall) where
  add_archs-EntriesCover :
      (m : LastSyscallMap) (archs : List ScmpArch) (m' : LastSyscallMap)
      → EntriesCover l rules m
      → add_archs h l rules m archs ≡ ok m'
      → EntriesCover l rules m'
  unfolding add_archs add_arch
  add_archs-EntriesCover m [] m' c r = subst (EntriesCover l rules) (ok-injective m m' r) c
  add_archs-EntriesCover m (a ∷ archs) m' c r =
      let step = ok_step (add_arch h l rules m a) (λ m. add_archs h l rules m archs) r in
      let key = ok_step (scmp_arch_to_audit_arch h l a) (λ k. ok (written l rules k m a)) step.1 in
      add_archs-EntriesCover step.0 archs m'
        (subst (EntriesCover l rules) (ok-injective (written l rules key.0 m a) step.0 key.2)
          (written-EntriesCover l rules key.0 m a c))
        step.2

-- Each number that `findLastSyscalls` keeps for an architecture is above 0 and no rule of the
-- configuration has a larger number there.
pub find_last_syscalls-EntriesCover :
    (h : Header) (l : Libseccomp) (visit : List ScmpArch → List ScmpArch) (c : Config)
    (last : LastSyscallMap)
    → find_last_syscalls h l visit c ≡ ok last
    → EntriesCover l c.syscalls last
unfolding find_last_syscalls
find_last_syscalls-EntriesCover h l visit c last r =
    let step =
      ok_step (configured_archs l c.architectures)
        (λ archs. add_archs h l c.syscalls [] (visit archs)) r in
    add_archs-EntriesCover h l c.syscalls [] (visit step.0) last tt step.2
