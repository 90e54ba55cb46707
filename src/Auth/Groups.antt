-- ===== src/Auth/Groups.antt =====
-- The group operation has no guard for the last admin.
use macftpd.Prelude.{◌≡◌, ◌≢◌, refl, true, false, none, List, [], ◌∷◌, arith, any, All}
use macftpd.Text.{Text, text_eq, =ₜ_iff}
use macftpd.Dict.{Dict, get, put, count, get-put}
use macftpd.Auth.{User, Group, Database, admin, user_would_be_admin, upsert_group}
use macftpd.Auth.Admins.{admins}
use macftpd.Auth.Grants.{group_has, permissions_exact}
use macftpd.Auth.Names.{normalize_name, validate_name, normalize_name-validate_name}

-- The user has the admin permission at most through the named group.
abbrev pub DependsOn : Text → Dict Text Group → User → Type 0
DependsOn name groups u =
    (u.permissions.admin ≡ false)
    × All (λ n. normalize_name n ≢ name → group_has admin (get (normalize_name n) groups) ≡ false)
        u.groups

no_admin_group :
    (name : Text) (groups : Dict Text Group) (g : Group) (names : List Text)
    → g.permissions.admin ≡ false
    → All
        (λ n. normalize_name n ≢ name → group_has admin (get (normalize_name n) groups) ≡ false)
        names
    → any (λ n. group_has admin (get (normalize_name n) (put name g groups))) names ≡ false
no_admin_group name groups g [] a h = refl
no_admin_group name groups g (n ∷ names) a (p, h) = ground (
  arith,
  p,
  get-put name (normalize_name n) g groups,
  =ₜ_iff name (normalize_name n),
  no_admin_group name groups g names a h,
)

loses_admin :
    (name : Text) (groups : Dict Text Group) (g : Group) (u : User)
    → g.permissions.admin ≡ false
    → DependsOn name groups u
    → user_would_be_admin (put name g groups) u ≡ false
unfolding user_would_be_admin
loses_admin name groups g u a (own, h) = ground (
  arith,
  permissions_exact admin (put name g groups) u,
  no_admin_group name groups g u.groups a h,
)

count_none :
    (name : Text) (groups : Dict Text Group) (g : Group) (users : Dict Text User)
    → g.permissions.admin ≡ false
    → All (λ u. DependsOn name groups u.1) users
    → count (user_would_be_admin (put name g groups)) users ≡ 0
unfolding count
count_none name groups g [] a h = refl
count_none name groups g ((k, u) ∷ users) a (d, h) =
    rw (loses_admin name groups g u a d) (omega (arith, count_none name groups g users a h))

-- If every user has the admin permission at most through one group, storing that group without the permission succeeds
-- and leaves no admin.
pub upsert_group-drops_admins :
    (db : Database) (g : Group)
    → validate_name g.name ≡ true
    → g.permissions.admin ≡ false
    → All (λ u. DependsOn g.name db.groups u.1) db.users
    → ((upsert_group true db g).0 ≡ none) × (admins (upsert_group true db g).1 ≡ 0)
unfolding upsert_group
upsert_group-drops_admins db g valid a h =
    let same : normalize_name g.name ≡ g.name = (normalize_name-validate_name g.name).2 valid in
    rw (same, valid) (refl, count_none g.name db.groups (record g { name = g.name }) db.users a h)
