-- ===== src/Storage.antt =====
-- internal/storage/storage.go: from the path that a user names to a path under the storage root.
-- `glob` is Go's `filepath.Match` of a pattern and a name, `none` for a malformed pattern. A path that
-- is refused (`ErrOutsideRoot`) is `none`.
pub mod Containment
pub mod Copy
pub mod DiskTests
pub mod Hidden
pub mod Listing
pub mod Os
pub mod Replace
pub mod Restore
pub mod Retain
pub mod Tests
pub mod Toy
use macftpd.Prelude.{
  ℕ, Bool, true, false, ◌&&◌, ◌||◌, not, Option, none, some, List, [], ◌∷◌, ◌++◌, any,
  if◌then◌else◌, ◌==◌,
}
use macftpd.Text.{
  Text, codes, is_empty, has_prefix, cut_prefix, trim_prefix, trim_space, split, contains, trim,
  replace, ◌=ₜ◌, to_lower,
}
use macftpd.Path.{clean, clean_virtual, join_paths, path_join_virtual, slash, dot, backslash}
use macftpd.Auth.{User}

pub record Root : Type 0 where
  pub base : Text
  pub public_dir : Text
  pub dropbox_dir : Text
  pub ignore : List Text

abbrev is_slash : ℕ → Bool
is_slash c = c == b'/'

unfoldable pub clean_name : Text → Text
clean_name name = trim is_slash (replace backslash b'/' name)

unfoldable pub normalize_ignore : List Text → List Text
normalize_ignore [] = []
normalize_ignore (pattern ∷ patterns) =
    let rest = normalize_ignore patterns in
    let trimmed = trim_space pattern in if is_empty trimmed then rest else trimmed ∷ rest

-- `New`, on the absolute form of the base
unfoldable pub new : Text → Text → Text → List Text → Root
new abs public_dir dropbox_dir ignore = record {
  base = clean abs;
  public_dir = clean_name public_dir;
  dropbox_dir = clean_name dropbox_dir;
  ignore = normalize_ignore ignore;
}

-- The directories of the program's own below the root.
unfoldable pub is_internal_storage_name : Text → Bool
is_internal_storage_name name =
    name =ₜ codes "._macftpd_trash"
    || name =ₜ codes "._macftpd_versions"
    || name =ₜ codes "._macftpd_uploads"

abbrev matched : Option Bool → Text → Text → Bool
matched (some m) pattern segment = m
matched none pattern segment = pattern =ₜ segment

-- the virtual path is that of a file below a directory, or the directory's
abbrev pub is_below : Text → Text → Bool
is_below path dir = path =ₜ dir || has_prefix path (dir ++ slash)

-- `mountSuffix`: what stands behind the mount in the virtual path
abbrev pub suffix_behind : Text → Text → Option Text
suffix_behind mount_root virtual =
    if virtual =ₜ mount_root then some [] else cut_prefix virtual (mount_root ++ slash)

unfoldable pub mount_suffix : Text → Text → Text → Option Text
mount_suffix home virtual mount = suffix_behind (path_join_virtual home mount) virtual

abbrev pub mounted : (Text → Text) → Option Text → Option Text
mounted target none = none
mounted target (some suffix) = some (target suffix)

abbrev pub first_mount : Option Text → Option Text → Text → Text
first_mount (some real) other virtual = real
first_mount none (some real) virtual = real
first_mount none none virtual = virtual

-- the virtual path of a request
unfoldable pub virtual_of : Text → Text → Text
virtual_of cwd given =
    let requested = if is_empty given then cwd else given in
    if has_prefix requested slash
    then clean_virtual requested
    else clean_virtual (join_paths (cwd ∷ requested ∷ []))

module _ (r : Root) where
  abbrev pub public_target : Text → Text
  public_target suffix = clean_virtual (join_paths (slash ∷ r.public_dir ∷ suffix ∷ []))

  abbrev pub dropbox_target : User → Text → Text
  dropbox_target user suffix =
      clean_virtual (join_paths (slash ∷ r.dropbox_dir ∷ user.username ∷ suffix ∷ []))

  -- `home` is never empty here: it was cleaned
  unfoldable pub mount_virtual : User → Text → Text → Text
  mount_virtual user given virtual =
      let home = if is_empty given then slash else given in
      first_mount
        (if user.permissions.public
          then mounted public_target (mount_suffix home virtual (codes "public"))
          else none)
        (if user.permissions.dropbox
          then mounted (dropbox_target user) (mount_suffix home virtual (codes "dropbox"))
          else none)
        virtual

  unfoldable pub real_from_virtual : Text → Option Text
  real_from_virtual virtual =
      let real = clean (join_paths (r.base ∷ trim_prefix virtual slash ∷ [])) in
      if is_below real r.base then some real else none

  abbrev rel_or_dot : Option Text → Text
  rel_or_dot none = dot
  rel_or_dot (some rel) = if is_empty rel then dot else rel

  -- `filepath.Rel` of a path below the base is what stands behind it
  unfoldable pub rel_from_real : Text → Option Text
  rel_from_real real_path =
      let real = clean real_path in
      if is_below real r.base then some (rel_or_dot (cut_prefix real (r.base ++ slash))) else none

  unfoldable pub is_public_real : Text → Bool
  is_public_real real_path = is_below (clean real_path) (join_paths (r.base ∷ r.public_dir ∷ []))

  module _ (glob : Text → Text → Option Bool) where
    abbrev pub is_ignored_segment : Text → Bool
    is_ignored_segment segment =
        is_internal_storage_name segment
        || any (λ pattern. matched (glob pattern segment) pattern segment) r.ignore

    unfoldable pub is_ignored_virtual : Text → Bool
    is_ignored_virtual given =
        let virtual = clean_virtual given in
        if virtual =ₜ slash
        then false
        else any is_ignored_segment (split b'/' (trim_prefix virtual slash))

    abbrev pub with_virtual : Text → Option Text → Option (Text × Text)
    with_virtual virtual none = none
    with_virtual virtual (some real) = some (real, virtual)

    -- the path in the file system and the virtual path
    unfoldable pub resolve : User → Text → Text → Option (Text × Text)
    resolve user cwd requested =
        let home = clean_virtual user.home in
        let virtual = virtual_of cwd requested in
        let real_virtual = mount_virtual user home virtual in
        if not (home =ₜ slash) && not (virtual =ₜ home) && not (has_prefix virtual (home ++ slash))
        then none
        else if is_ignored_virtual real_virtual
        then none
        else with_virtual virtual (real_from_virtual real_virtual)

    unfoldable pub resolve_admin : Text → Option (Text × Text)
    resolve_admin given =
        let virtual = clean_virtual given in
        if is_ignored_virtual virtual
        then none
        else with_virtual virtual (real_from_virtual virtual)
