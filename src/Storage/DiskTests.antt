-- ===== src/Storage/DiskTests.antt =====
-- A storage root at "/", a file in it and a file in its trash, and the theorems on moves and copies there.
use macftpd.Prelude.{if◌then◌else◌, ◌≡◌, refl, Bool, true, false, Option, none, some, List, [], ◌∷◌}
use macftpd.Text.{Text, codes, ◌=ₜ◌, trim_space, to_lower, split, join, has_prefix, cut_prefix}
use macftpd.Path.{clean, clean_part, clean_parts, absolute, join_paths, dir_path, through_slash}
use macftpd.Storage.{Root, is_below, rel_from_real}
use macftpd.Storage.Os.{Os, Apart, Info, Result, ok, err, exists, in_root, mkdir_all, remove_all}
use macftpd.Storage.Toy.{Tree, tree_os, tree_laws}
use macftpd.Storage.Retain.{Stamp, Notes, payload_of, entry_id, trash, keep_safe, safe_name}
use macftpd.Storage.Retain.Safety.{Laid, Trashed, trash_dir, trash_kept}
use macftpd.Storage.Restore.{restore_to}
use macftpd.Storage.Restore.Safety.{Landing, Restored, restore_to-Restored, restore_to_loses}
use macftpd.Auth.{User, no_permissions}
use macftpd.Storage.Listing.{list_for_user}
use macftpd.Storage.Listing.Names.{AreUnique, NamesOnce, list_for_user-once}
use macftpd.Storage.Copy.{CopyOptions, CopyResult, copy}
use macftpd.Storage.Copy.Exact.{Copied, copy_copied}
use macftpd.Storage.Replace.{install_file, replace_file}
use macftpd.Storage.Replace.Versions.{version_dir, Entry, Outside}
use macftpd.Storage.Replace.Safety.{Replaced, replace_file-Replaced}
use macftpd.Storage.Replace.Install.{Installed, install_file-Installed}

abbrev pub disk_root : Root
disk_root = record { base = b'/' ∷ b's' ∷ []; public_dir = []; dropbox_dir = []; ignore = [] }

abbrev pub no_notes : Notes
no_notes = record { encode = λ e. some []; decode = λ raw. none }

abbrev pub first_stamp : Stamp
first_stamp = record { text = b'1' ∷ []; now = 1 }

-- "/s/a", "/s/b", and the trash entry "/s/t"
abbrev pub file_a : Text
file_a = b'/' ∷ b's' ∷ b'/' ∷ b'a' ∷ []

abbrev pub file_b : Text
file_b = b'/' ∷ b's' ∷ b'/' ∷ b'b' ∷ []

abbrev entry_t : Text
entry_t = b'/' ∷ b's' ∷ b'/' ∷ b't' ∷ []

abbrev pub tree : Tree
tree = record { found = λ p. some p; stuck = [] }

abbrev blocked : Tree
blocked = record { found = λ p. some p; stuck = file_a }

pub files-Apart : Apart file_a file_b
unfolding ◌=ₜ◌ has_prefix
files-Apart = (refl, refl)

pub tidy_a : clean file_a ≡ file_a
unfolding clean clean_part clean_parts absolute ◌=ₜ◌ split join
tidy_a = refl

pub tidy_b : clean file_b ≡ file_b
unfolding clean clean_part clean_parts absolute ◌=ₜ◌ split join
tidy_b = refl

install_file-Installed_example :
    Installed tree_os tree_laws disk_root file_a file_b tree
      (install_file tree_os disk_root file_a file_b tree)
install_file-Installed_example =
    install_file-Installed tree_os tree_laws disk_root file_a file_b tree files-Apart tidy_a tidy_b

pub above_b : is_below (clean (dir_path file_b)) file_a ≡ false
unfolding clean clean_part clean_parts absolute ◌=ₜ◌ split join has_prefix dir_path through_slash
above_b = refl

pub b-above : is_below (clean (dir_path file_b)) file_b ≡ false
unfolding clean clean_part clean_parts absolute ◌=ₜ◌ split join has_prefix dir_path through_slash
b-above = refl

there_a : tree_laws.at file_a tree ≡ some file_a
unfolding tree_laws
there_a = refl

flat_a : tree_laws.folder file_a ≡ false
unfolding tree_laws
flat_a = refl

-- no directory is copied here
abbrev pub no_dirs : Text → Text → CopyOptions → Tree → Tree × Result CopyResult
no_dirs src dst opts t = (t, err exists)

abbrev with_clone : CopyOptions
with_clone = record { deduplicate = true; overwrite = false }

copy_copied_example :
    Copied tree_os tree_laws disk_root file_b file_a
      (copy tree_os disk_root no_dirs file_a file_b with_clone tree)
copy_copied_example =
    copy_copied tree_os tree_laws disk_root no_dirs file_a file_b with_clone file_a tree files-Apart
      tidy_a tidy_b above_b there_a flat_a

a-Landing : Landing file_a entry_t
unfolding clean clean_part clean_parts absolute ◌=ₜ◌ split join has_prefix dir_path through_slash
    join_paths codes
a-Landing = record {
  tidy = refl;
  off_dir = (refl, refl);
  off_payload = (refl, refl);
  off_note = (refl, refl);
  parent = refl;
  above = refl;
}

restore_to-Restored_example :
    Restored tree_os tree_laws no_notes disk_root file_a entry_t
      (b'/' ∷ [])
      true
      tree
      (restore_to tree_os no_notes disk_root entry_t (b'/' ∷ []) file_a true tree)
restore_to-Restored_example =
    restore_to-Restored tree_os tree_laws no_notes disk_root file_a entry_t (b'/' ∷ []) true tree
      a-Landing

-- "/s/a" is removed, and nothing can be moved there
abbrev cleared : Tree
cleared = record blocked { found = λ x. if is_below x file_a then none else some x }

made : mkdir_all tree_os disk_root (dir_path file_a) blocked ≡ (blocked, ok tt)
unfolding clean clean_part clean_parts absolute ◌=ₜ◌ split join has_prefix dir_path through_slash
    mkdir_all in_root rel_from_real cut_prefix
made = refl

removed : remove_all tree_os disk_root file_a blocked ≡ (cleared, ok tt)
unfolding clean clean_part clean_parts absolute ◌=ₜ◌ split join has_prefix dir_path through_slash
    remove_all in_root rel_from_real cut_prefix
removed = refl

refused : tree_os.rename (payload_of entry_t) file_a cleared ≡ (cleared, err exists)
unfolding clean clean_part clean_parts absolute ◌=ₜ◌ split join has_prefix join_paths codes
refused = refl

restore_to_loses_example :
    ((restore_to tree_os no_notes disk_root entry_t (b'/' ∷ []) file_a true blocked).1 ≡ err exists)
    × (tree_laws.at file_a
          (restore_to tree_os no_notes disk_root entry_t (b'/' ∷ []) file_a true blocked).0
        ≡ none)
restore_to_loses_example =
    restore_to_loses tree_os tree_laws no_notes disk_root file_a entry_t (b'/' ∷ []) blocked blocked
      cleared cleared exists a-Landing made removed refused

a-Laid : Laid file_a (trash_dir tree_os tree_laws no_notes disk_root first_stamp [])
unfolding clean clean_part clean_parts absolute ◌=ₜ◌ split join has_prefix join_paths codes
    safe_name trim_space to_lower keep_safe
a-Laid = record {
  outside = (refl, refl);
  off_payload = (refl, refl);
  off_note = (refl, refl);
  two = (refl, refl);
}

trash_kept_example :
    Trashed tree_os tree_laws no_notes disk_root file_a
      (trash_dir tree_os tree_laws no_notes disk_root first_stamp [])
      []
      (entry_id tree_os no_notes disk_root first_stamp [])
      tree
      (trash tree_os no_notes disk_root first_stamp file_a [] [] tree)
trash_kept_example =
    trash_kept tree_os tree_laws no_notes disk_root first_stamp file_a [] [] tree a-Laid

-- the version that is kept of "/s/b"
abbrev pub version_b : Text
version_b = version_dir tree_os tree_laws no_notes disk_root no_dirs first_stamp []

pub b-Entry : Entry version_b
unfolding clean clean_part clean_parts absolute ◌=ₜ◌ split join has_prefix join_paths codes
    safe_name trim_space to_lower keep_safe
b-Entry = record { tidy = refl; two = (refl, refl) }

pub a-Outside : Outside version_b file_a
unfolding clean clean_part clean_parts absolute ◌=ₜ◌ split join has_prefix join_paths codes
    safe_name trim_space to_lower keep_safe dir_path through_slash
a-Outside = record {
  off_dir = (refl, refl);
  off_payload = (refl, refl);
  off_note = (refl, refl);
  above = refl;
}

pub b-Outside : Outside version_b file_b
unfolding clean clean_part clean_parts absolute ◌=ₜ◌ split join has_prefix join_paths codes
    safe_name trim_space to_lower keep_safe dir_path through_slash
b-Outside = record {
  off_dir = (refl, refl);
  off_payload = (refl, refl);
  off_note = (refl, refl);
  above = refl;
}

replace_file-Replaced_example :
    Replaced tree_os tree_laws no_notes disk_root no_dirs file_a file_b
      (payload_of version_b)
      true
      tree
      (replace_file tree_os no_notes disk_root no_dirs first_stamp file_a file_b [] [] true tree)
replace_file-Replaced_example =
    replace_file-Replaced tree_os tree_laws no_notes disk_root no_dirs first_stamp file_a file_b []
      [] true tree b-Entry a-Outside b-Outside files-Apart tidy_a tidy_b

-- a user with both mounts, in a home that has a directory named as one
abbrev mounting : User
mounting = record {
  username = b'u' ∷ [];
  password_hash = [];
  groups = [];
  home = [];
  disabled = false;
  permissions = record no_permissions { public = true; dropbox = true };
}

abbrev shared_dir : Os Tree
shared_dir = record tree_os {
  read_dir = λ p t.
      ok ((codes "public", ok (record { is_dir = true; size = 0; mode = []; mod_time = 0 })) ∷ []);
}

abbrev pub no_glob : Text → Text → Option Bool
no_glob pattern name = some false

shared_dir-AreUnique :
    (p : Text) (t : Tree) (items : List (Text × Result Info))
    → shared_dir.read_dir p t ≡ ok items
    → AreUnique items
shared_dir-AreUnique p t [] e = tt
shared_dir-AreUnique p t ((name, seen) ∷ []) e = (refl, tt)
shared_dir-AreUnique p t ((name, seen) ∷ item ∷ items) e = cc

list_for_user-once_example :
    NamesOnce shared_dir no_glob disk_root
      (list_for_user shared_dir no_glob disk_root mounting (b'/' ∷ b's' ∷ []) (b'/' ∷ []) tree)
list_for_user-once_example =
    list_for_user-once shared_dir no_glob disk_root mounting (b'/' ∷ b's' ∷ []) (b'/' ∷ []) tree
      shared_dir-AreUnique
