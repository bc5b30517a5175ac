-- ===== src/Users/Asked.antt =====
-- What `GetAdditionalGroups` of user/user.go returns for the groups asked for.
use libcontainer.Prelude.{
  true, false, ◌&&◌, ◌||◌, List, [], ◌∷◌, ◌++◌, none, some, ◌≡◌, refl, ap, ◌⊎◌, inl, inr, arith,
  Bool-cases, Option-cases, All, any, Result, ok, err, ok_step, ok-injective, subst,
}
use libcontainer.Prelude.Int.{ℤ, eq_ℤ, eq_ℤ_iff}
use libcontainer.Text.{Bytes, NumError, parse_int}
use libcontainer.Users.{Group, Error, no_group_entries}
use libcontainer.Users.Exec.{numeric_id, id_out_of_range}
use libcontainer.Users.Additional.{is_asked, contains, find_new, insert_gid, add_group, add_groups}

-- No gid stands twice.
abbrev pub IsDistinct : List ℤ → Type 0
IsDistinct [] = Unit {0}
IsDistinct (g ∷ gs) = (contains gs g ≡ false) × IsDistinct gs

contains-concat : (gs : List ℤ) (g h : ℤ) → contains (gs ++ g ∷ []) h ≡ (contains gs h || eq_ℤ h g)
contains-concat [] g h = ground arith
contains-concat (x ∷ gs) g h = ground (arith, contains-concat gs g h)

concat-IsDistinct :
    (gs : List ℤ) (g : ℤ) → contains gs g ≡ false → IsDistinct gs → IsDistinct (gs ++ g ∷ [])
concat-IsDistinct [] g h d = (refl, tt)
concat-IsDistinct (x ∷ gs) g h d = (
  ground (arith, contains-concat gs g x, eq_ℤ_iff x g, eq_ℤ_iff g x),
  concat-IsDistinct gs g (ground arith) d.1,
)

-- A group of the file that is asked for by `ag` has the gid, or `ag` is that number, in range.
abbrev pub Represents : List Group → Bytes → ℤ → Type 0
Represents groups ag gid =
    (any (λ g. is_asked ag g && eq_ℤ g.gid gid) groups ≡ true)
    ⊎ ((parse_int 64 ag ≡ ok gid) × (id_out_of_range gid ≡ false))

find_new-found :
    (gids : List ℤ) (ag : Bytes) (groups : List Group) (gid : ℤ)
    → find_new gids ag groups ≡ some gid
    → (contains gids gid ≡ false) × (any (λ g. is_asked ag g && eq_ℤ g.gid gid) groups ≡ true)
unfolding find_new
find_new-found gids ag [] gid h = cc
find_new-found gids ag (g ∷ gs) gid h =
    ground (arith, find_new-found gids ag gs gid, eq_ℤ_iff g.gid gid)

-- What one round leaves: the old gids, distinct still, and one for the group asked for.
record Round (groups : List Group) (gids : List ℤ) (ag : Bytes) (gids' : List ℤ) : Type 0 where
  distinct : IsDistinct gids'
  grows : (g : ℤ) → contains gids g ≡ true → contains gids' g ≡ true
  gid : ℤ
  held : contains gids' gid ≡ true
  represents : Represents groups ag gid

eq_ℤ_refl : (g : ℤ) → eq_ℤ g g ≡ true
eq_ℤ_refl g = (eq_ℤ_iff g g).1 refl

concat-Round :
    (groups : List Group) (gids : List ℤ) (ag : Bytes) (gid : ℤ)
    → IsDistinct gids
    → contains gids gid ≡ false
    → Represents groups ag gid
    → Round groups gids ag (gids ++ gid ∷ [])
concat-Round groups gids ag gid d new r = record {
  distinct = concat-IsDistinct gids gid new d;
  grows = λ g h. ground (arith, contains-concat gids gid g);
  gid = gid;
  held = ground (arith, contains-concat gids gid gid, eq_ℤ_refl gid);
  represents = r;
}

numeric-Round :
    (groups : List Group) (gids : List ℤ) (ag : Bytes) (gid : ℤ)
    → IsDistinct gids
    → Represents groups ag gid
    → Round groups gids ag (insert_gid gids gid)
numeric-Round groups gids ag gid d r = elim (Bool-cases (contains gids gid)) [
  | inl old ↦
      rw old (record { distinct = d; grows = λ g h. h; gid = gid; held = old; represents = r })
  | inr new ↦ rw new (concat-Round groups gids ag gid d new r)
]

numeric_id-ok :
    (missing : Error) (x : Result NumError ℤ) (n : ℤ)
    → numeric_id missing x ≡ ok n
    → (x ≡ ok n) × (id_out_of_range n ≡ false)
numeric_id-ok missing (err _) n h = cc
numeric_id-ok missing (ok k) n h = elim (Bool-cases (id_out_of_range k)) [
  | inl e ↦ absurd (never (rw e at h))
  | inr e ↦
      let same = ok-injective k n (rw e at h) in
      (ap ok same, subst (λ z. id_out_of_range z ≡ false) same e)
]
  where
    never : {e : Error} → ◌≡◌ {A = Result Error ℤ} (err e) (ok n) → ⊥
    never e = cc

add_group-Round :
    (groups : List Group) (gids : List ℤ) (ag : Bytes) (gids' : List ℤ)
    → IsDistinct gids
    → add_group groups gids ag ≡ ok gids'
    → Round groups gids ag gids'
unfolding add_group
add_group-Round groups gids ag gids' d h = elim (Option-cases (find_new gids ag groups)) [
  | inr (gid, e) ↦
      let (new, matched) = find_new-found gids ag groups gid e in
      subst (Round groups gids ag) (ok-injective (gids ++ gid ∷ []) gids' (rw (e, add_group) at h))
        (concat-Round groups gids ag gid d new (inl matched))
  | inl e ↦
      let (n, number, last) =
        ok_step (numeric_id no_group_entries (parse_int 64 ag)) (λ n. ok (insert_gid gids n))
          (rw (e, add_group) at h) in
      let (parsed, fits) = numeric_id-ok no_group_entries (parse_int 64 ag) n number in
      subst (Round groups gids ag) (ok-injective (insert_gid gids n) gids' last)
        (numeric-Round groups gids ag n d (inr (parsed, fits)))
]

-- Every group asked for is represented by a gid of the result.
abbrev pub Answered : List Group → List Bytes → List ℤ → Type 0
Answered groups ags gids =
    All (λ ag. (gid : ℤ) × (contains gids gid ≡ true) × Represents groups ag gid) ags

add_groups-grows :
    (groups : List Group) (ags : List Bytes) (gids gids' : List ℤ) (g : ℤ)
    → IsDistinct gids
    → add_groups groups gids ags ≡ ok gids'
    → contains gids g ≡ true
    → contains gids' g ≡ true
unfolding add_groups
add_groups-grows groups [] gids gids' g d h c =
    subst (λ x. contains x g ≡ true) (ok-injective gids gids' h) c
add_groups-grows groups (ag ∷ ags) gids gids' g d h c =
    let (gids1, first, rest) =
      ok_step (add_group groups gids ag) (λ x. add_groups groups x ags) h in
    let round = add_group-Round groups gids ag gids1 d first in
    add_groups-grows groups ags gids1 gids' g round.distinct rest (round.grows g c)

add_groups-Answered :
    (groups : List Group) (ags : List Bytes) (gids gids' : List ℤ)
    → IsDistinct gids
    → add_groups groups gids ags ≡ ok gids'
    → IsDistinct gids' × Answered groups ags gids'
unfolding add_groups
add_groups-Answered groups [] gids gids' d h = (subst IsDistinct (ok-injective gids gids' h) d, tt)
add_groups-Answered groups (ag ∷ ags) gids gids' d h =
    let (gids1, first, rest) =
      ok_step (add_group groups gids ag) (λ x. add_groups groups x ags) h in
    let round = add_group-Round groups gids ag gids1 d first in
    let (distinct, others) = add_groups-Answered groups ags gids1 gids' round.distinct rest in
    (
      distinct,
      (
        (
          round.gid,
          add_groups-grows groups ags gids1 gids' round.gid round.distinct rest round.held,
          round.represents,
        ),
        others,
      ),
    )

-- If `GetAdditionalGroups` succeeds with the groups that it read, no gid stands twice in the
-- result, and each name or number asked for is represented: by the gid of a group of the file
-- with that name or number, or by the number itself, which is in range.
pub add_groups_answer :
    (groups : List Group) (ags : List Bytes) (gids : List ℤ)
    → add_groups groups [] ags ≡ ok gids
    → IsDistinct gids × Answered groups ags gids
add_groups_answer groups ags gids h = add_groups-Answered groups ags [] gids tt h

find_new-again :
    (name : Bytes) (groups : List Group) (gid : ℤ)
    → All (λ g. is_asked name g ≡ true → g.gid ≡ gid) groups
    → find_new (gid ∷ []) name groups ≡ none
unfolding find_new
find_new-again name [] gid h = refl
find_new-again name (g ∷ gs) gid h =
    ground (arith, find_new-again name gs gid h.1, h.0, eq_ℤ_iff g.gid gid)

-- A group that is asked for twice by a name that is no number is not found the second time, if
-- all the groups of the file that match the name have one gid: the call fails, although the name
-- alone is found.
pub add_groups_twice :
    (groups : List Group) (name : Bytes) (gid : ℤ) (e : NumError)
    → parse_int 64 name ≡ err e
    → find_new [] name groups ≡ some gid
    → All (λ g. is_asked name g ≡ true → g.gid ≡ gid) groups
    → (add_groups groups [] (name ∷ []) ≡ ok (gid ∷ []))
      × (add_groups groups [] (name ∷ name ∷ []) ≡ err no_group_entries)
unfolding add_groups add_group
add_groups_twice groups name gid e number found same = (
  rw (found, add_group) refl,
  rw (found, add_group, find_new-again name groups gid same, number) refl,
)
