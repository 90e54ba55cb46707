-- ===== src/Storage/Tests.antt =====
-- Requests for paths, and the theorems at concrete inputs.
use macftpd.Prelude.{
  ◌≡◌, refl, Bool, true, false, Option, none, some, List, [], ◌∷◌, ◌++◌, arith, All, ◌&&◌, not,
  if◌then◌else◌,
}
use macftpd.Text.{Text, codes, ◌=ₜ◌, join, split, trim_space, replace, has_prefix, trim_prefix}
use macftpd.Text.Laws.{Lacks}
use macftpd.Path.{absolute, clean_virtual, dot, join_paths, clean}
use macftpd.Path.Laws.{IsPlain}
use macftpd.Auth.{User, no_permissions}
use macftpd.Storage.{
  Root, resolve, resolve_admin, mount_virtual, virtual_of, is_ignored_virtual,
  is_internal_storage_name, real_from_virtual, is_ignored_segment,
}
use macftpd.Storage.Containment.{IsSound, base_of, in_home, resolve_exact, resolve_admin_exact}
use macftpd.Storage.Hidden.{resolve_visible, ignored_reached, IsTidy, dots_blank}

-- `/srv`, with no patterns
abbrev pub srv : Text
srv = b's' ∷ b'r' ∷ b'v' ∷ []

abbrev pub root : Root
root = record {
  base = b'/' ∷ srv;
  public_dir = codes "public";
  dropbox_dir = codes "dropbox";
  ignore = [];
}

pub root-IsSound : IsSound root
unfolding absolute join
root-IsSound = record {
  first = srv;
  rest = [];
  base_parts = refl;
  plain = ((λ e. ground arith, λ e. ground arith, λ e. ground arith, ground arith), tt);
}

-- a user whose home is the whole tree
abbrev pub guest : User
guest = record {
  username = b'g' ∷ [];
  password_hash = [];
  groups = [];
  home = [];
  disabled = false;
  permissions = no_permissions;
}

abbrev no_glob : Text → Text → Option Bool
no_glob pattern name = some false

-- a request that climbs
abbrev climbing : Text
climbing = b'.' ∷ b'.' ∷ b'/' ∷ b'a' ∷ []

resolve_exact_example :
    (parts : List Text) × (mount_virtual root guest
        (clean_virtual guest.home)
        (virtual_of (b'/' ∷ []) climbing)
      ≡ absolute parts)
    × All IsPlain parts
    × (resolve root no_glob guest (b'/' ∷ []) climbing ≡ (
        if in_home guest (virtual_of (b'/' ∷ []) climbing)
          && not (is_ignored_virtual root no_glob (absolute parts))
        then some (absolute (base_of root-IsSound ++ parts), virtual_of (b'/' ∷ []) climbing)
        else none))
resolve_exact_example = resolve_exact root root-IsSound no_glob guest (b'/' ∷ []) climbing

resolve_admin_exact_example :
    (parts : List Text) × (clean_virtual climbing ≡ absolute parts)
    × All IsPlain parts
    × (resolve_admin root no_glob climbing ≡ (
        if is_ignored_virtual root no_glob (absolute parts)
        then none
        else some (absolute (base_of root-IsSound ++ parts), absolute parts)))
resolve_admin_exact_example = resolve_admin_exact root root-IsSound no_glob climbing

-- what the climbing request resolves to
climbing-resolved :
    resolve root no_glob guest (b'/' ∷ []) climbing
    ≡ some (b'/' ∷ srv ++ b'/' ∷ b'a' ∷ [], b'/' ∷ b'a' ∷ [])
unfolding resolve virtual_of mount_virtual is_ignored_virtual real_from_virtual
    is_internal_storage_name codes ◌=ₜ◌ clean_virtual trim_space replace has_prefix join_paths clean
    join split trim_prefix
climbing-resolved = refl

climbing-IsTidy :
    IsTidy (mount_virtual root guest (clean_virtual guest.home) (virtual_of (b'/' ∷ []) climbing))
unfolding virtual_of mount_virtual codes ◌=ₜ◌ clean_virtual trim_space replace has_prefix join_paths
    clean join split trim_prefix
climbing-IsTidy = (ground arith, ground arith)

resolve_visible_example :
    (parts : List Text) × ((b'/' ∷ srv ++ b'/' ∷ b'a' ∷ [])
      ≡ absolute (base_of root-IsSound ++ parts))
    × All IsPlain parts
    × All (λ p. is_ignored_segment root no_glob p ≡ false) parts
resolve_visible_example =
    resolve_visible root no_glob root-IsSound guest (b'/' ∷ []) climbing
      (b'/' ∷ srv ++ b'/' ∷ b'a' ∷ []) (b'/' ∷ b'a' ∷ []) climbing-resolved climbing-IsTidy

-- the trash
abbrev bin : Text
bin = codes "._macftpd_trash"

bin-IsPlain : IsPlain bin
unfolding codes
bin-IsPlain = ((λ e. ground arith), (λ e. ground arith), (λ e. ground arith), ground arith)

bin-Lacks : Lacks b'\\' bin
unfolding codes
bin-Lacks = ground arith

bin-hidden : is_internal_storage_name bin ≡ true
unfolding codes is_internal_storage_name ◌=ₜ◌
bin-hidden = refl

ignored_reached_example :
    resolve_admin root no_glob (absolute (bin ∷ dots_blank ∷ dot ∷ []))
    ≡ some
        (absolute (base_of root-IsSound ++ bin ∷ dots_blank ∷ []), absolute (bin ∷ dots_blank ∷ []))
ignored_reached_example = ignored_reached bin bin-IsPlain bin-Lacks root root-IsSound no_glob
