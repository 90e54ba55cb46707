-- ===== src/Storage/Listing.antt =====
-- internal/storage/storage.go: the listing of a directory, with the mounts of a user, and the making of a home.
pub mod Names
use macftpd.Prelude.{
  ℕ, ◌≡◌, Bool, true, false, not, Option, none, some, List, [], ◌∷◌, ◌++◌, any, if◌then◌else◌,
}
use macftpd.Text.{Text, codes, ◌=ₜ◌}
use macftpd.Clock.{Time}
use macftpd.Path.{clean_virtual, join_paths, path_join_virtual, slash}
use macftpd.Auth.{User}
use macftpd.Storage.{Root, is_ignored_virtual, resolve}
use macftpd.Storage.Os.{
  Os, M, Result, ok, err, Error, outside_root, Info, ◌>>=◌, ◌>>◌, return, fail, ignoring, in_root,
  with_root, stat, mkdir_all,
}

pub record Entry : Type 0 where
  pub name : Text
  pub path : Text
  pub size : ℕ
  pub mode : Text
  pub is_dir : Bool
  pub mod_time : Time

-- `entryFromInfo`
abbrev pub entry_from_info : Text → Info → Text → Entry
entry_from_info name info virtual = record {
  name = name;
  path = virtual;
  size = info.size;
  mode = info.mode;
  is_dir = info.is_dir;
  mod_time = info.mod_time;
}

abbrev pub with_entry : Text → Text → Result Info → List Entry → List Entry
with_entry name virtual (ok info) rest = entry_from_info name info virtual ∷ rest
with_entry name virtual (err e) rest = rest

abbrev pub is_named : Text → Entry → Bool
is_named name e = e.name =ₜ name

module _ {S : Type 0} (os : Os S) (glob : Text → Text → Option Bool) (r : Root) where
  unfoldable pub listed : Text → List (Text × Result Info) → List Entry
  listed virtual_dir [] = []
  listed virtual_dir ((name, seen) ∷ items) =
      let rest = listed virtual_dir items in
      let virtual = path_join_virtual virtual_dir name in
      if is_ignored_virtual r glob virtual then rest else with_entry name virtual seen rest

  unfoldable pub read_root : Text → M S (List (Text × Result Info))
  read_root real = with_root os r real (λ p s. (s, os.read_dir p s))

  -- `List`
  unfoldable pub list : Text → Text → M S (List Entry)
  unfolding read_root
  list real virtual_dir = do items ← read_root real; return (listed virtual_dir items)

  abbrev pub append_seen : List Entry → Text → Text → Result Info → List Entry
  append_seen entries name virtual (ok info) = entries ++ entry_from_info name info virtual ∷ []
  append_seen entries name virtual (err e) = entries

  abbrev pub append_made : List Entry → Text → Text → Text → Result Info → M S (List Entry)
  append_made entries name virtual real (ok info) =
      return (append_seen entries name virtual (ok info))
  append_made entries name virtual real (err e) =
      ignoring (mkdir_all os r real)
      >> (λ s. (s, ok (append_seen entries name virtual (stat os r real s).1)))

  -- `appendVirtualMount`
  unfoldable pub append_virtual_mount : List Entry → Text → Text → Text → M S (List Entry)
  append_virtual_mount entries name virtual real s =
      if any (is_named name) entries
      then (s, ok entries)
      else append_made entries name virtual real (stat os r real s).1 s

  abbrev pub public_mount : User → List Entry → M S (List Entry)
  public_mount user entries =
      if user.permissions.public
      then append_virtual_mount entries (codes "public")
          (path_join_virtual (clean_virtual user.home) (codes "public"))
          (join_paths (r.base ∷ r.public_dir ∷ []))
      else return entries

  abbrev pub dropbox_mount : User → List Entry → M S (List Entry)
  dropbox_mount user entries =
      let real = join_paths (r.base ∷ r.dropbox_dir ∷ user.username ∷ []) in
      if user.permissions.dropbox
      then ignoring (mkdir_all os r real)
        >> append_virtual_mount entries (codes "dropbox")
            (path_join_virtual (clean_virtual user.home) (codes "dropbox")) real
      else return entries

  abbrev pub mounts_of : User → List Entry → M S (List Entry)
  mounts_of user entries = public_mount user entries >>= dropbox_mount user

  -- `ListForUser`
  unfoldable pub list_for_user : User → Text → Text → M S (List Entry)
  list_for_user user real virtual_dir = do
    entries ← list real virtual_dir
    if virtual_dir =ₜ clean_virtual user.home then mounts_of user entries else return entries

  abbrev pub make_home : User → Option (Text × Text) → M S (Unit {0})
  make_home user none = fail outside_root
  make_home user (some (real, virtual)) =
      mkdir_all os r real
      >> (if user.permissions.dropbox
          then mkdir_all os r (join_paths (r.base ∷ r.dropbox_dir ∷ user.username ∷ []))
          else return tt)

  -- `EnsureUserHome`
  unfoldable pub ensure_user_home : User → M S (Unit {0})
  ensure_user_home user = make_home user (resolve r glob user slash user.home)
