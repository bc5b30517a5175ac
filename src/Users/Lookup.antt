-- ===== src/Users/Lookup.antt =====
-- What `GetExecUser` of user/user.go returns for a user or a group that is given by number.
use libcontainer.Prelude.{
  true, false, ◌||◌, not, List, [], ◌∷◌, Option, none, some, ◌≡◌, ◌≢◌, refl, sym, ◌∙◌, ap, inl, inr,
  arith, bytes_eq, bytes_eq_iff, Bool-cases, All, Result, ok, err, ◌>>=◌, ok_step, ok-injective,
  subst,
}
use libcontainer.Prelude.Int.{ℤ, eq_ℤ_iff}
use libcontainer.Text.{Bytes, Reader, NumError, parse_int}
use libcontainer.Users.{
  User, Group, ExecUser, ChunkReader, Error, parse_passwd_filter, parse_group_filter, parse_user,
}
use libcontainer.Users.Filters.{parse_file-All, parse_group_filter-All}
use libcontainer.Users.Exec.{
  user_matches, group_matches, unless_nil, apply_users, apply_groups, find_groups, exec_user,
}

-- An item that the reader gives passes the filter; a nil reader gives none.
unless_nil-All :
    {R A : Type 0} (P : A → Type 0) (r : Option R) (x : Result Error (List A)) (xs : List A)
    → ((ys : List A) → x ≡ ok ys → All P ys)
    → unless_nil r x ≡ ok xs
    → All P xs
unless_nil-All P r (ok ys) xs h e = subst (All P) (ok-injective ys xs e) (h ys refl)
unless_nil-All P none (err _) xs h e = subst (All P) (ok-injective [] xs e) tt
unless_nil-All P (some r) (err _) xs h e = cc

apply_users-uid :
    (user : ExecUser) (arg : Bytes) (n : ℤ) (us : List User) (found : ExecUser × Bytes)
    → arg ≢ []
    → All (λ u. user_matches user arg (ok n) u ≡ true) us
    → apply_users user arg (ok n) us ≡ ok found
    → (found.0).uid ≡ n
unfolding apply_users user_matches
apply_users-uid user arg n [] found ne a h = ground (arith, bytes_eq_iff arg [])
apply_users-uid user arg n (u ∷ us) found ne a h =
    ground (arith, bytes_eq_iff arg [], eq_ℤ_iff n u.uid, a.0)

apply_groups-uid :
    (user : ExecUser) (arg : Bytes) (gid : Result NumError ℤ) (gs : List Group) (x : ExecUser)
    → apply_groups user arg gid gs ≡ ok x
    → x.uid ≡ user.uid
unfolding apply_groups
apply_groups-uid user arg (ok n) [] x h = ground arith
apply_groups-uid user arg (err _) [] x h = ground arith
apply_groups-uid user arg gid (g ∷ gs) x h = ground arith

find_groups-uid :
    (group : Option ChunkReader) (user : ExecUser) (name arg : Bytes) (x : ExecUser)
    → find_groups group user name arg ≡ ok x
    → x.uid ≡ user.uid
unfolding find_groups
find_groups-uid group user name arg x h =
    elim (Bool-cases (not (bytes_eq arg []) || not (bytes_eq name []))) [
      | inl e ↦
          let (gs, _, last) =
            ok_step
              (unless_nil group
                (parse_group_filter group (some (group_matches name arg (parse_int 64 arg)))))
              (apply_groups user arg (parse_int 64 arg)) (rw e at h) in
          apply_groups-uid user arg (parse_int 64 arg) gs x last
      | inr e ↦ ap (λ (y : ExecUser). y.uid) (sym (ok-injective user x (rw e at h)))
    ]

-- A user that is given by a number gets that number as the uid, or there is an error: neither an
-- entry with another uid nor one with that text as its name is taken.
pub exec_user-uid :
    (arg group_arg : Bytes) (user : ExecUser) (passwd : Option Reader) (group : Option ChunkReader)
    (n : ℤ) (x : ExecUser)
    → arg ≢ []
    → parse_int 64 arg ≡ ok n
    → exec_user arg group_arg user passwd group ≡ ok x
    → x.uid ≡ n
unfolding exec_user
exec_user-uid arg group_arg user passwd group n x ne numeric h =
    let matching = user_matches user arg (ok n) in
    let (us, found_users, rest) =
      ok_step (unless_nil passwd (parse_passwd_filter passwd (some matching)))
        (λ us. apply_users user arg (ok n) us >>= λ f. find_groups group f.0 f.1 group_arg)
        (rw numeric at h) in
    let (found, by_user, by_group) =
      ok_step (apply_users user arg (ok n) us) (λ f. find_groups group f.0 f.1 group_arg) rest in
    find_groups-uid group found.0 found.1 group_arg x by_group
    ∙ apply_users-uid user arg n us found ne
        (unless_nil-All (λ u. matching u ≡ true) passwd (parse_passwd_filter passwd (some matching))
          us (parse_file-All matching parse_user passwd) found_users)
        by_user

apply_groups-gid :
    (user : ExecUser) (arg name : Bytes) (n : ℤ) (gs : List Group) (x : ExecUser)
    → arg ≢ []
    → All (λ g. group_matches name arg (ok n) g ≡ true) gs
    → apply_groups user arg (ok n) gs ≡ ok x
    → x.gid ≡ n
unfolding apply_groups group_matches
apply_groups-gid user arg name n [] x ne a h = ground (arith, bytes_eq_iff arg [])
apply_groups-gid user arg name n (g ∷ gs) x ne a h =
    ground (arith, bytes_eq_iff arg [], eq_ℤ_iff n g.gid, a.0)

find_groups-gid :
    (group : Option ChunkReader) (user : ExecUser) (name arg : Bytes) (n : ℤ) (x : ExecUser)
    → arg ≢ []
    → parse_int 64 arg ≡ ok n
    → find_groups group user name arg ≡ ok x
    → x.gid ≡ n
unfolding find_groups
find_groups-gid group user name arg n x ne numeric h =
    let matching = group_matches name arg (ok n) in
    let explicit : bytes_eq arg [] ≡ false = ground (arith, bytes_eq_iff arg []) in
    let (gs, found, last) =
      ok_step (unless_nil group (parse_group_filter group (some matching)))
        (apply_groups user arg (ok n)) (rw (explicit, numeric) at h) in
    apply_groups-gid user arg name n gs x ne
      (unless_nil-All (λ g. matching g ≡ true) group (parse_group_filter group (some matching)) gs
        (parse_group_filter-All matching group) found)
      last

-- A group that is given by a number sets that number as the gid, or there is an error.
pub exec_user-gid :
    (user_arg arg : Bytes) (user : ExecUser) (passwd : Option Reader) (group : Option ChunkReader)
    (n : ℤ) (x : ExecUser)
    → arg ≢ []
    → parse_int 64 arg ≡ ok n
    → exec_user user_arg arg user passwd group ≡ ok x
    → x.gid ≡ n
unfolding exec_user
exec_user-gid user_arg arg user passwd group n x ne numeric h =
    let uid = parse_int 64 user_arg in
    let (us, _, rest) =
      ok_step
        (unless_nil passwd (parse_passwd_filter passwd (some (user_matches user user_arg uid))))
        (λ us. apply_users user user_arg uid us >>= λ f. find_groups group f.0 f.1 arg) h in
    let (found, _, by_group) =
      ok_step (apply_users user user_arg uid us) (λ f. find_groups group f.0 f.1 arg) rest in
    find_groups-gid group found.0 found.1 arg n x ne numeric by_group
