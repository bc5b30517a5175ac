-- ===== src/Spec/Owners/Roots.antt =====
-- `setupUserNamespace` of specconv/spec_linux.go: whose mappings the configuration ends with, and
-- who owns its devices.
use libcontainer.Prelude.{
  ℕ, ◌<◌, ◌%◌, ◌^◌, ◌≡◌, ◌≢◌, refl, ap, ◌∙◌, List, [], ◌∷◌, ◌++◌, append-nil, Option, none, some,
  All, All-imp, length, true, ◌||◌, ◌↔◌, Result, ok, err, ok_step, ok-injective, err_ne_ok, subst,
  arith, bytes_eq, bytes_eq_iff, if◌then◌else◌,
}
use libcontainer.Text.{Bytes}
use libcontainer.Namespaces.{path_of, new_user}
use libcontainer.Mappings.{IdMapping, Config, host_root_uid, host_root_gid}
use libcontainer.Spec.{Error as SpecError, Device, Heap, load, Linux, no_root_uid, no_root_gid}
use libcontainer.Spec.Store.{load-store_same, load-store_field, load-store_prop, length-store}
use libcontainer.Spec.Owners.{
  Maps, same_items, items, is_set, with_spec_mappings, joined, set_owner, set_owners, or_error,
  setup_user_namespace,
}

length-set_owner : (h : Heap) (p uid gid : ℕ) → length (set_owner h p uid gid) ≡ length h
unfolding set_owner
length-set_owner h p uid gid = length-store h p _

pub length-set_owners :
    (h : Heap) (ps : List ℕ) (uid gid : ℕ) → length (set_owners h ps uid gid) ≡ length h
unfolding set_owners
length-set_owners h [] uid gid = refl
length-set_owners h (p ∷ ps) uid gid =
    length-set_owners (set_owner h p uid gid) ps uid gid ∙ length-set_owner h p uid gid

-- A field that is not the owner stays as it was.
pub set_owners-field {ℓ} :
    {A : Type ℓ} (f : Device → A) (h : Heap) (ps : List ℕ) (uid gid q : ℕ)
    → ((d : Device) (u g : ℕ) → f (record d { uid = u; gid = g }) ≡ f d)
    → f (load (set_owners h ps uid gid) q) ≡ f (load h q)
unfolding set_owners set_owner
set_owners-field f h [] uid gid q k = refl
set_owners-field f h (p ∷ ps) uid gid q k =
    set_owners-field f (set_owner h p uid gid) ps uid gid q k
    ∙ load-store_field f h p q _ (k (load h p) _ _)

-- The owner of a device.
abbrev pub owner_of : Device → ℕ × ℕ
owner_of d = (d.uid, d.gid)

abbrev wrapped : ℕ → ℕ → ℕ × ℕ
wrapped uid gid = (uid % 2 ^ 32, gid % 2 ^ 32)

owner_at :
    (h : Heap) (p uid gid : ℕ)
    → p < length h
    → owner_of (load (set_owner h p uid gid) p) ≡ wrapped uid gid
unfolding set_owner
owner_at h p uid gid lt = ap owner_of (load-store_same h p _ lt)

-- An owner that is set once is not changed by setting the same one elsewhere.
owner_stays :
    (h : Heap) (ps : List ℕ) (q uid gid : ℕ)
    → owner_of (load h q) ≡ wrapped uid gid
    → owner_of (load (set_owners h ps uid gid) q) ≡ wrapped uid gid
unfolding set_owners set_owner
owner_stays h [] q uid gid e = e
owner_stays h (p ∷ ps) q uid gid e =
    owner_stays (set_owner h p uid gid) ps q uid gid
      (load-store_prop (λ d. owner_of d ≡ wrapped uid gid) h p q _ refl e)

-- The pointers lead into the store.
abbrev pub AreInside : Heap → List ℕ → Type 0
AreInside h ps = All (λ p. p < length h) ps

pub set_owners-owner :
    (h : Heap) (ps rest : List ℕ) (uid gid : ℕ)
    → AreInside h ps
    → All (λ p. owner_of (load (set_owners h (ps ++ rest) uid gid) p) ≡ wrapped uid gid) ps
unfolding set_owners
set_owners-owner h [] rest uid gid a = tt
set_owners-owner h (p ∷ ps) rest uid gid a = (
  owner_stays (set_owner h p uid gid) (ps ++ rest) p uid gid (owner_at h p uid gid a.0),
  set_owners-owner (set_owner h p uid gid) ps rest uid gid (
      All-imp (λ x. x < length h) (λ x. x < length (set_owner h p uid gid))
        (λ x lt. rw (length-set_owner h p uid gid) lt) ps a.1),
)

same_items_iff : (a b : List IdMapping) → (same_items a b ≡ true) ↔ (a ≡ b)
unfolding same_items
same_items_iff [] [] = ground arith
same_items_iff [] (y ∷ b) = ground arith
same_items_iff (x ∷ a) [] = ground arith
same_items_iff (x ∷ a) (y ∷ b) = ground (arith, same_items_iff a b)

-- The mappings of a namespace that is joined: those that the kernel has, which any that were asked
-- for are equal to.
pub record IsJoin (asked : Config) (found : Option Maps) (c : Config) : Type 0 where
  pub maps : Maps
  pub are_found : found ≡ some maps
  pub taken : c ≡ record asked { uid_mappings = maps.uids; gid_mappings = maps.gids }
  pub agrees :
      (is_set asked.uid_mappings || is_set asked.gid_mappings) ≡ true
      → (items maps.uids ≡ items asked.uid_mappings) × (items maps.gids ≡ items asked.gid_mappings)

joined-IsJoin :
    (asked : Config) (found : Option Maps) (c : Config)
    → joined asked found ≡ ok c
    → IsJoin asked found c
unfolding joined
joined-IsJoin asked none c h = absurd (err_ne_ok _ _ h)
joined-IsJoin asked (some maps) c h = record {
  maps = maps;
  are_found = refl;
  taken = ground arith;
  agrees = λ e. ground (
    arith,
    same_items_iff (items maps.uids) (items asked.uid_mappings),
    same_items_iff (items maps.gids) (items asked.gid_mappings),
  );
}

or_error_ok {ℓ κ} :
    {F : Type ℓ} {A : Type κ} (e : SpecError) (r : Result F A) (a : A)
    → or_error e r ≡ ok a
    → r ≡ ok a
or_error_ok e (err f) a h = absurd (err_ne_ok _ _ h)
or_error_ok e (ok b) a h = ap ok (ok-injective b a h)

-- What the call leaves: the mappings of the specification, or those of the namespace that is
-- joined, and each device with the host's root as its owner.
pub record IsSettled (maps_of : Bytes → Option Maps) (l : Option Linux) (c : Config)
    (nodes : List ℕ) (c' : Config) (h' : Heap) : Type 0 where
  pub own : path_of (with_spec_mappings l c).namespaces new_user ≡ [] → c' ≡ with_spec_mappings l c
  pub joins :
      path_of (with_spec_mappings l c).namespaces new_user ≢ []
      → IsJoin
          (with_spec_mappings l c)
          (maps_of (path_of (with_spec_mappings l c).namespaces new_user))
          c'
  pub uid : ℕ
  pub gid : ℕ
  pub root_uid : host_root_uid c' ≡ ok uid
  pub root_gid : host_root_gid c' ≡ ok gid
  pub owners : All (λ p. owner_of (load h' p) ≡ (uid % 2 ^ 32, gid % 2 ^ 32)) nodes

-- Where the call succeeds on pointers into the store, the configuration ends with the mappings
-- of the specification, or, where there is a namespace to join, with the mappings of that
-- namespace, to which any that the specification has are equal; and each device of the
-- configuration is owned by the ids that the host's root has under these mappings, modulo 2 ^ 32.
pub setup_user_namespace-IsSettled :
    (maps_of : Bytes → Option Maps) (l : Option Linux) (c : Config) (h : Heap) (nodes : List ℕ)
    (c' : Config) (h' : Heap)
    → AreInside h nodes
    → setup_user_namespace maps_of l c h nodes ≡ ok (c', h')
    → IsSettled maps_of l c nodes c' h'
unfolding setup_user_namespace
setup_user_namespace-IsSettled maps_of l c h nodes c' h' inside done =
    let asked = with_spec_mappings l c in
    let path = path_of asked.namespaces new_user in
    let choice = if bytes_eq path [] then ok asked else joined asked (maps_of path) in
    let (c1, chosen, rest) = ok_step choice _ done in
    let (uid, first, rest2) = ok_step (or_error no_root_uid (host_root_uid c1)) _ rest in
    let (gid, second, last) = ok_step (or_error no_root_gid (host_root_gid c1)) _ rest2 in
    let same = ok-injective _ _ last in
    subst (λ r. IsSettled maps_of l c nodes r.0 r.1) same
      (record {
        own = λ e. ground (arith, bytes_eq_iff path []);
        joins = λ ne. joined-IsJoin asked (maps_of path) c1 (ground (arith, bytes_eq_iff path []));
        uid = uid;
        gid = gid;
        root_uid = or_error_ok no_root_uid (host_root_uid c1) uid first;
        root_gid = or_error_ok no_root_gid (host_root_gid c1) gid second;
        owners =
            subst
              (λ ps. All (λ p. owner_of (load (set_owners h ps uid gid) p) ≡ wrapped uid gid) nodes)
              (append-nil nodes) (set_owners-owner h nodes [] uid gid inside);
      })
