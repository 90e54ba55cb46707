-- ===== src/Auth/Tests.antt =====
-- Accounts at work, and the theorems at concrete inputs.
use macftpd.Prelude.{
  ◌≡◌, ◌<◌, refl, true, false, ◌||◌, Option, none, some, [], ◌∷◌, arith, any, ◌∙◌,
}
use macftpd.Text.{is_empty, Text, codes, text_eq, ◌=ₜ◌, =ₜ_iff, join}
use macftpd.Text.Laws.{=ₜ_refl}
use macftpd.Dict.{get, count}
use macftpd.Auth.{
  User, Group, Database, Permission, PermissionSet, no_permissions, admin_permissions,
  read_only_permissions, has, permissions_locked, authenticate, permissions_of, upsert_group,
  list_users, user_would_be_admin,
}
use macftpd.Auth
use macftpd.Auth.Permissions.{merge}
use macftpd.Auth.Toy.{toy, toy-IsCrypto, pad}
use macftpd.Auth.Names.{normalize_name, validate_name, normalize_name-validate_name}
use macftpd.Auth.Password.{hash_password, verify_password, verify_password-hash_password}
use macftpd.Auth.Grants.{group_has, permissions_exact, authenticate_exact}
use macftpd.Auth.Admins.{admins, admins_remain, IsValid, run, upsert_op, delete_op}
use macftpd.Auth.Groups.{upsert_group-drops_admins}

abbrev pub ann : Text
ann = codes "ann"

abbrev pub staff : Text
staff = codes "staff"

-- a member of the staff, who has no permission of her own
abbrev pub member : User
member = record {
  username = ann;
  password_hash = [];
  groups = staff ∷ [];
  home = codes "/ann";
  disabled = false;
  permissions = no_permissions;
}

abbrev pub staff_group : Group
staff_group = record { name = staff; home = []; permissions = admin_permissions }

abbrev pub office : Database
office = record { users = (ann, member) ∷ []; groups = (staff, staff_group) ∷ [] }

permissions_exact_example : has Auth.admin (permissions_locked office.groups member) ≡ (
    has Auth.admin member.permissions
    || any (λ n. group_has Auth.admin (get (normalize_name n) office.groups)) member.groups)
permissions_exact_example = permissions_exact Auth.admin office.groups member

abbrev pub salt : Text
salt = codes "salt"

abbrev pub secret : Text
secret = codes "secret"

abbrev pub or_empty : Option Text → Text
or_empty none = []
or_empty (some s) = s

abbrev pub secret_hash : Text
secret_hash = or_empty (hash_password toy (some salt) secret)

secret-hash_password : hash_password toy (some salt) secret ≡ some secret_hash
unfolding hash_password
secret-hash_password = refl

-- a wrong password
verify_password-hash_password_example :
    verify_password toy secret_hash (codes "guess") ≡ (pad 32 (codes "guess") =ₜ pad 32 secret)
verify_password-hash_password_example =
    verify_password-hash_password toy toy-IsCrypto salt secret (codes "guess") secret_hash
      secret-hash_password

-- a member who has a password
abbrev pub keeper : User
keeper = record member { password_hash = secret_hash }

abbrev pub vault : Database
vault = record office { users = (ann, keeper) ∷ [] }

keeper-accepted : verify_password toy secret_hash secret ≡ true
keeper-accepted =
    verify_password-hash_password toy toy-IsCrypto salt secret secret secret_hash
      secret-hash_password
    ∙ =ₜ_refl (pad 32 secret)

ann_there : get (normalize_name ann) vault.users ≡ some keeper
unfolding get ◌=ₜ◌ normalize_name codes
ann_there = refl

pub ann_permitted : permissions_of vault ann ≡ some (keeper, admin_permissions)
unfolding get ◌=ₜ◌ normalize_name codes permissions_of permissions_locked merge
ann_permitted = refl

hashed : is_empty secret_hash ≡ false
unfolding hash_password codes join
hashed = refl

ann_granted :
    (r : Permission)
    → has r admin_permissions ≡ (
        has r keeper.permissions
        || any (λ n. group_has r (get (normalize_name n) vault.groups)) keeper.groups)
unfolding get ◌=ₜ◌ normalize_name codes permissions_locked merge
ann_granted r = permissions_exact r vault.groups keeper

pub ann_accepted : authenticate toy vault ann secret ≡ some (keeper, admin_permissions)
ann_accepted =
    (authenticate_exact toy vault ann secret keeper admin_permissions).0.1
      (ann_there, refl, hashed, keeper-accepted, ann_granted)

authenticate_exact_example : permissions_of vault ann ≡ some (keeper, admin_permissions)
authenticate_exact_example =
    (authenticate_exact toy vault ann secret keeper admin_permissions).1 ann_accepted vault
      ann_there refl

office-IsValid : IsValid office
unfolding get ◌=ₜ◌
office-IsValid = record { distinct = (refl, tt); named = λ k u e. ground (arith, =ₜ_iff ann k) }

office-admins : 0 < admins office
unfolding count user_would_be_admin permissions_locked get ◌=ₜ◌ normalize_name codes merge
office-admins = omega arith

staff_valid : validate_name staff ≡ true
unfolding codes validate_name
staff_valid = refl

staff_known : normalize_name staff ≡ staff
staff_known = (normalize_name-validate_name staff).2 staff_valid

-- Ann is the only administrator: neither the deletion of her nor another password changes that.
admins_remain_example :
    0
    < admins (
        run
          (delete_op true ann ∷ upsert_op true none (record member { disabled = true }) [] ∷ [])
          office)
admins_remain_example =
    admins_remain
      (delete_op true ann ∷ upsert_op true none (record member { disabled = true }) [] ∷ []) office
      office-IsValid office-admins

upsert_group-drops_admins_example :
    ((upsert_group true office (record staff_group { permissions = read_only_permissions })).0
      ≡ none)
    × (admins
          (upsert_group true office (record staff_group { permissions = read_only_permissions })).1
        ≡ 0)
upsert_group-drops_admins_example =
    upsert_group-drops_admins office (record staff_group { permissions = read_only_permissions })
      staff_valid refl (((refl, ((λ other. absurd (other staff_known)), tt))), tt)
