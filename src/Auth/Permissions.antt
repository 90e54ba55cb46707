-- ===== src/Auth/Permissions.antt =====
-- internal/auth/auth.go: the set of permissions.
use macftpd.Prelude.{Bool, true, false, ◌||◌, ◌≡◌, refl}

pub record PermissionSet : Type 0 where
  pub list : Bool
  pub download : Bool
  pub upload : Bool
  pub delete : Bool
  pub mkdir : Bool
  pub rename : Bool
  pub admin : Bool
  pub public : Bool
  pub dropbox : Bool

-- `PermissionSet{}`
abbrev pub no_permissions : PermissionSet
no_permissions = record {
  list = false;
  download = false;
  upload = false;
  delete = false;
  mkdir = false;
  rename = false;
  admin = false;
  public = false;
  dropbox = false;
}

abbrev pub admin_permissions : PermissionSet
admin_permissions = record {
  list = true;
  download = true;
  upload = true;
  delete = true;
  mkdir = true;
  rename = true;
  admin = true;
  public = true;
  dropbox = true;
}

abbrev pub read_only_permissions : PermissionSet
read_only_permissions = record no_permissions { list = true; download = true; public = true }

unfoldable pub merge : PermissionSet → PermissionSet → PermissionSet
merge p other = record {
  list = p.list || other.list;
  download = p.download || other.download;
  upload = p.upload || other.upload;
  delete = p.delete || other.delete;
  mkdir = p.mkdir || other.mkdir;
  rename = p.rename || other.rename;
  admin = p.admin || other.admin;
  public = p.public || other.public;
  dropbox = p.dropbox || other.dropbox;
}

-- One permission of the set.
pub data Permission : Type 0 where
  list download upload delete mkdir rename admin public dropbox : Permission

abbrev pub has : Permission → PermissionSet → Bool
has list p = p.list
has download p = p.download
has upload p = p.upload
has delete p = p.delete
has mkdir p = p.mkdir
has rename p = p.rename
has admin p = p.admin
has public p = p.public
has dropbox p = p.dropbox

pub has-merge : (r : Permission) (p q : PermissionSet) → has r (merge p q) ≡ (has r p || has r q)
unfolding merge
has-merge list p q = refl
has-merge _ p q = refl
