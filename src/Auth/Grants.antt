-- ===== src/Auth/Grants.antt =====
-- Who has a permission, and who may log in.
use macftpd.Prelude.{
  ◌≡◌, ◌↔◌, Bool, true, false, ◌||◌, Option, none, some, List, [], ◌∷◌, arith, any, ◌∙◌,
  Option-cases, inl, inr, refl, sym, ap,
}
use macftpd.Text.{Text, text_eq, is_empty}
use macftpd.Dict.{Dict, get}
use macftpd.Auth.{
  User, Group, Database, PermissionSet, Permission, has, has-merge, merge_groups, merge_found,
  permissions_locked, authenticate, permissions_of,
}
use macftpd.Auth.Names.{normalize_name}
use macftpd.Auth.Password.{Crypto, verify_password}

abbrev pub group_has : Permission → Option Group → Bool
group_has r none = false
group_has r (some g) = has r g.permissions

has-merge_found :
    (r : Permission) (p : PermissionSet) (g : Option Group)
    → has r (merge_found p g) ≡ (has r p || group_has r g)
has-merge_found r p none = ground arith
has-merge_found r p (some g) = has-merge r p g.permissions

has-merge_groups :
    (r : Permission) (groups : Dict Text Group) (names : List Text) (p : PermissionSet)
    → has r (merge_groups groups names p)
      ≡ (has r p || any (λ n. group_has r (get (normalize_name n) groups)) names)
unfolding merge_groups
has-merge_groups r groups [] p = ground arith
has-merge_groups r groups (n ∷ names) p =
    has-merge_groups r groups names (merge_found p (get (normalize_name n) groups))
    ∙ rw (has-merge_found r p (get (normalize_name n) groups)) (ground arith)

-- A user has a permission exactly if it is the user's own or that of a group that the user names and that
-- is there.
pub permissions_exact :
    (r : Permission) (groups : Dict Text Group) (user : User)
    → has r (permissions_locked groups user) ≡ (
        has r user.permissions
        || any (λ n. group_has r (get (normalize_name n) groups)) user.groups)
unfolding permissions_locked
permissions_exact r groups user = has-merge_groups r groups user.groups user.permissions

-- which account a login is for
authenticate-permissions_of :
    (c : Crypto) (db : Database) (username password : Text) (user : User) (p : PermissionSet)
    → (authenticate c db username password ≡ some (user, p)) ↔ (
        (get (normalize_name username) db.users ≡ some user)
        × (user.disabled ≡ false)
        × (is_empty user.password_hash ≡ false)
        × (verify_password c user.password_hash password ≡ true)
        × (permissions_of db username ≡ some (user, p)))
unfolding authenticate permissions_of
authenticate-permissions_of c db username password user p =
    elim (Option-cases (get (normalize_name username) db.users)) [
      | inl e ↦ rw e (ground arith)
      | inr (u, e) ↦ rw e (ground arith)
    ]

-- two sets with the same permissions are the same
same_permissions : (p q : PermissionSet) → ((r : Permission) → has r p ≡ has r q) → p ≡ q
same_permissions p q h = λ i. record {
  list = h Permission.list i;
  download = h Permission.download i;
  upload = h Permission.upload i;
  delete = h Permission.delete i;
  mkdir = h Permission.mkdir i;
  rename = h Permission.rename i;
  admin = h Permission.admin i;
  public = h Permission.public i;
  dropbox = h Permission.dropbox i;
}

permissions_of-found :
    (db : Database) (username : Text) (user : User)
    → get (normalize_name username) db.users ≡ some user
    → user.disabled ≡ false
    → permissions_of db username ≡ some (user, permissions_locked db.groups user)
unfolding permissions_of
permissions_of-found db username user there enabled = rw (there, enabled) refl

unfoldable second : Option (User × PermissionSet) → PermissionSet → PermissionSet
second none p = p
second (some (user, q)) p = q

same_found :
    (user : User) (p q : PermissionSet) (o : Option (User × PermissionSet))
    → o ≡ some (user, p)
    → o ≡ some (user, q)
    → p ≡ q
unfolding second
same_found user p q o e f = ap (λ x. second x p) (sym e ∙ f)

-- A login succeeds exactly for a user that is stored under the normal form of the name, is not disabled, has a
-- password hash and gives a password that the hash accepts. It yields that user, with each permission that the
-- user or a group of the user has, and no other. A later check of the name gives the same user and permissions,
-- as long as the account and the groups are the same.
pub authenticate_exact :
    (c : Crypto) (db : Database) (username password : Text) (user : User) (p : PermissionSet)
    → ((authenticate c db username password ≡ some (user, p)) ↔ (
        (get (normalize_name username) db.users ≡ some user)
        × (user.disabled ≡ false)
        × (is_empty user.password_hash ≡ false)
        × (verify_password c user.password_hash password ≡ true)
        × ((r : Permission)
            → has r p ≡ (
                has r user.permissions
                || any (λ n. group_has r (get (normalize_name n) db.groups)) user.groups))))
      × (authenticate c db username password ≡ some (user, p)
          → (later : Database) → get (normalize_name username) later.users ≡ some user
          → later.groups ≡ db.groups
          → permissions_of later username ≡ some (user, p))
authenticate_exact c db username password user p = (
  (
    λ e.
        let (there, enabled, hash, accepted, found) =
          (authenticate-permissions_of c db username password user p).0 e in
        (
          there,
          enabled,
          hash,
          accepted,
          λ r. ap (has r) (merged there enabled found) ∙ permissions_exact r db.groups user,
        ),
    λ (there, enabled, hash, accepted, each).
        let all_of : permissions_locked db.groups user ≡ p =
          same_permissions (permissions_locked db.groups user) p
            (λ r. permissions_exact r db.groups user ∙ sym (each r)) in
        (authenticate-permissions_of c db username password user p).1 (
          there,
          enabled,
          hash,
          accepted,
          permissions_of-found db username user there enabled ∙ ap (λ q. some (user, q)) all_of,
        ),
  ),
  λ e later again same.
      let (there, enabled, hash, accepted, found) =
        (authenticate-permissions_of c db username password user p).0 e in
      permissions_of-found later username user again enabled
      ∙ ap (λ g. some (user, permissions_locked g user)) same
      ∙ ap (λ q. some (user, q)) (sym (merged there enabled found)),
)
  where
    merged :
        get (normalize_name username) db.users ≡ some user
        → user.disabled ≡ false
        → permissions_of db username ≡ some (user, p)
        → p ≡ permissions_locked db.groups user
    merged there enabled found =
        same_found user p (permissions_locked db.groups user) (permissions_of db username) found
          (permissions_of-found db username user there enabled)
