-- ===== src/Auth.antt =====
-- internal/auth/auth.go: users, groups and their permissions. The store's methods take what they get
-- from outside as arguments: `hash` is what `HashPassword` returned, and `saved` whether the file was
-- written. Each runs under the store's mutex.
mod Permissions
pub mod Names
pub mod Password
pub mod Grants
pub mod Admins
pub mod Groups
pub mod Listing
pub mod Tests
pub mod Toy
pub use Permissions.*
use macftpd.Prelude.{
  ℕ, ◌+◌, Bool, true, false, ◌&&◌, ◌||◌, not, Option, none, some, List, [], ◌∷◌, ◌++◌, leb, map,
  if◌then◌else◌,
}
use macftpd.Text.{Text, codes, is_empty, text_eq}
use macftpd.Dict.{Dict, get, put, del, count}
use macftpd.Sort.{sort, text_ltb}
use Names.{normalize_name, validate_name}
use Password.{Crypto, verify_password}

pub record User : Type 0 where
  pub username : Text
  pub password_hash : Text
  pub groups : List Text
  pub home : Text
  pub disabled : Bool
  pub permissions : PermissionSet

pub record Group : Type 0 where
  pub name : Text
  pub home : Text
  pub permissions : PermissionSet

pub record Database : Type 0 where
  pub users : Dict Text User
  pub groups : Dict Text Group

pub data Error : Type 0 where
  invalid_username last_admin password_required hash_failed save_failed : Error

-- the result of a method that returns an error or nil, with the database that it leaves
abbrev pub Outcome : Type 0
Outcome = Option Error × Database

-- `return s.saveLocked()`: a failed write is reported, and the database in memory stays changed
abbrev pub save : Bool → Database → Outcome
save true db = (none, db)
save false db = (some save_failed, db)

abbrev merge_found : PermissionSet → Option Group → PermissionSet
merge_found merged none = merged
merge_found merged (some g) = merge merged g.permissions

-- the loop of `permissionsLocked`
unfoldable pub merge_groups : Dict Text Group → List Text → PermissionSet → PermissionSet
merge_groups groups [] merged = merged
merge_groups groups (name ∷ names) merged =
    merge_groups groups names (merge_found merged (get (normalize_name name) groups))

unfoldable pub permissions_locked : Dict Text Group → User → PermissionSet
unfolding merge_groups
permissions_locked groups user = merge_groups groups user.groups user.permissions

unfoldable pub user_would_be_admin : Dict Text Group → User → Bool
user_would_be_admin groups user =
    if user.disabled then false else (permissions_locked groups user).admin

abbrev only_admin : Database → Option User → Bool
only_admin db none = false
only_admin db (some user) =
    if not (user_would_be_admin db.groups user)
    then false
    else leb (count (user_would_be_admin db.groups) db.users) 1

unfoldable pub is_last_admin : Database → Text → Bool
is_last_admin db username = only_admin db (get username db.users)

module _ (c : Crypto) where
  abbrev authenticate_found : Database → Text → Option User → Option (User × PermissionSet)
  authenticate_found db password none = none
  authenticate_found db password (some user) =
      if user.disabled || is_empty user.password_hash
      then none
      else if not (verify_password c user.password_hash password)
      then none
      else some (user, permissions_locked db.groups user)

  unfoldable pub authenticate : Database → Text → Text → Option (User × PermissionSet)
  authenticate db username password =
      authenticate_found db password (get (normalize_name username) db.users)

abbrev permissions_found : Database → Option User → Option (User × PermissionSet)
permissions_found db none = none
permissions_found db (some user) =
    if user.disabled then none else some (user, permissions_locked db.groups user)

-- `Permissions`
unfoldable pub permissions_of : Database → Text → Option (User × PermissionSet)
permissions_of db username = permissions_found db (get (normalize_name username) db.users)

-- the password hash that `UpsertUser` stores: the old one without a new password, and none for a new user
abbrev kept_hash : Option User → Text
kept_hash none = []
kept_hash (some old) = old.password_hash

abbrev new_hash : Option User → Text → Option Text → Option Text
new_hash old [] hash = some (kept_hash old)
new_hash old (p ∷ password) hash = hash

-- `existed && s.isLastAdminLocked(old.Username) && !s.userWouldBeAdminLocked(user)`
abbrev drops_last_admin : Database → Option User → User → Bool
drops_last_admin db none user = false
drops_last_admin db (some old) user =
    is_last_admin db old.username && not (user_would_be_admin db.groups user)

-- the rest of `UpsertUser`, once the hash is known
abbrev store_user : Bool → Database → Option User → User → Option Text → Outcome
store_user saved db old user none = (some hash_failed, db)
store_user saved db old user (some hash) =
    let user' : User = record user { password_hash = hash } in
    if is_empty hash
    then (some password_required, db)
    else if drops_last_admin db old user'
    then (some last_admin, db)
    else save saved (record db { users = put user.username user' db.users })

unfoldable pub upsert_user : Bool → Option Text → Database → User → Text → Outcome
upsert_user saved hash db user password =
    let name = normalize_name user.username in
    let named : User = record user {
      username = name;
      home = if is_empty user.home then b'/' ∷ name else user.home;
    } in
    if not (validate_name name)
    then (some invalid_username, db)
    else let old = get name db.users in store_user saved db old named (new_hash old password hash)

unfoldable pub delete_user : Bool → Database → Text → Outcome
delete_user saved db username =
    let name = normalize_name username in
    if not (validate_name name)
    then (some invalid_username, db)
    else if is_last_admin db name
    then (some last_admin, db)
    else save saved (record db { users = del name db.users })

unfoldable pub upsert_group : Bool → Database → Group → Outcome
upsert_group saved db group =
    let name = normalize_name group.name in
    if not (validate_name name)
    then (some invalid_username, db)
    else save saved (record db { groups = put name (record group { name = name }) db.groups })

-- the end of `BootstrapAdmin`, for a user that is not there
abbrev make_admin : Bool → Database → Text → Option Text → Outcome
make_admin saved db name none = (some hash_failed, db)
make_admin saved db name (some hash) = save saved (record {
  users =
      put name
        (record {
          username = name;
          password_hash = hash;
          groups = codes "admins" ∷ [];
          home = codes "/";
          disabled = false;
          permissions = admin_permissions;
        })
        db.users;
  groups =
      put (codes "admins")
        (record { name = codes "admins"; home = codes "/"; permissions = admin_permissions })
        db.groups;
})

abbrev bootstrap_found : Bool → Option Text → Database → Text → Option User → Outcome
bootstrap_found saved hash db name (some user) = (none, db)
bootstrap_found saved hash db name none = make_admin saved db name hash

-- `hash` is that of the given password, or of the generated one if none is given.
unfoldable pub bootstrap_admin : Bool → Option Text → Database → Text → Outcome
bootstrap_admin saved hash db username =
    let given = normalize_name username in
    let name = if is_empty given then codes "admin" else given in
    if not (validate_name name)
    then (some invalid_username, db)
    else bootstrap_found saved hash db name (get name db.users)

abbrev pub user_values : Dict Text User → List User
user_values [] = []
user_values ((k, u) ∷ m) = u ∷ user_values m

abbrev pub group_values : Dict Text Group → List Group
group_values [] = []
group_values ((k, g) ∷ m) = g ∷ group_values m

abbrev pub without_hash : User → User
without_hash u = record u { password_hash = [] }

unfoldable pub list_users : Database → List User
list_users db =
    sort (λ (a : User) (b : User). text_ltb a.username b.username)
      (map without_hash (user_values db.users))

unfoldable pub list_groups : Database → List Group
list_groups db = sort (λ (a : Group) (b : Group). text_ltb a.name b.name) (group_values db.groups)
