-- ===== src/Storage/Retain.antt =====
-- internal/storage/storage.go: `retain`, which moves a file to the trash or copies it to the versions, and
-- `Restore`. A retained entry is a directory with the object, "payload", and a note about it. `Notes` is the JSON of a note.
pub mod Safety
use macftpd.Prelude.{
  ℕ, ◌≡◌, Bool, true, false, ◌&&◌, ◌||◌, not, Option, none, some, List, [], ◌∷◌, ◌++◌,
  if◌then◌else◌, leb, ltb, ◌==◌,
}
use macftpd.Text.{Text, codes, is_empty, trim_space, to_lower, trim_prefix, contains, ◌=ₜ◌}
use macftpd.Clock.{Time}
use macftpd.Path.{base_path, clean, clean_virtual, join_paths, slash}
use macftpd.Storage.{Root, real_from_virtual, rel_from_real, is_below}
use macftpd.Storage.Os.{
  Os, M, Result, ok, err, Error, outside_root, exists, bad_entry, joined, Info, ◌>>=◌, ◌>>◌, return,
  fail, on_error, ignoring, stat, mkdir_all, remove_all,
}

pub record RetainedEntry : Type 0 where
  pub id : Text
  pub original_path : Text
  pub retained_path : Text
  pub size : ℕ
  pub is_dir : Bool
  pub mod_time : Time

-- The time when an object is retained: as the text in the name of its entry, and as read again for its note.
pub record Stamp : Type 0 where
  pub text : Text
  pub now : Time

pub record Notes : Type 0 where
  pub encode : RetainedEntry → Option Text
  pub decode : Text → Option RetainedEntry

-- `retainedRoot`
unfoldable pub retained_root : Text → Text
retained_root kind =
    if kind =ₜ codes "versions" || kind =ₜ codes "version"
    then codes "._macftpd_versions"
    else codes "._macftpd_trash"

abbrev is_safe : ℕ → Bool
is_safe c =
    (leb b'a' c && leb c b'z') || (leb b'0' c && leb c b'9') || c == b'-' || c == b'_' || c == b'.'

unfoldable pub keep_safe : Text → Text
keep_safe [] = []
keep_safe (c ∷ s) = let rest = keep_safe s in if is_safe c then c ∷ rest else rest

abbrev pub or_system : Text → Text
or_system name = if is_empty name then codes "system" else name

-- `safeName`
unfoldable pub safe_name : Text → Text
unfolding keep_safe
safe_name name =
    let lower = trim_space (to_lower name) in
    if is_empty lower then codes "system" else or_system (keep_safe lower)

abbrev rel_or_base : Option Text → Text → Text
rel_or_base (some rel) real = rel
rel_or_base none real = base_path real

-- the directory of a retained entry, and what is in it
abbrev pub retained_dir : Root → Text → Text → Text
retained_dir r root_name id = join_paths (r.base ∷ root_name ∷ id ∷ [])

abbrev pub payload_of : Text → Text
payload_of dir = join_paths (dir ∷ codes "payload" ∷ [])

abbrev pub note_of : Text → Text
note_of dir = join_paths (dir ∷ codes ".macftpd-retain.json" ∷ [])

module _ {S : Type 0} (os : Os S) (notes : Notes) (r : Root) where
  abbrev pub encoded : Option Text → M S Text
  encoded none = fail bad_entry
  encoded (some raw) = return raw

  -- `cleanup`
  abbrev pub dropping : {A : Type 0} → Text → Error → M S A
  dropping dir e = ignoring (os.remove_all dir) >> fail e

  -- the note could not be written: a moved object goes back, and stays where it is if that fails
  abbrev pub roll_back : Bool → Text → Text → Error → M S (Unit {0})
  roll_back true real dir e =
      on_error (os.rename (payload_of dir) real) (λ f. fail (joined e f)) >> dropping dir e
  roll_back false real dir e = dropping dir e

  -- `retain`, once the entry is known; `copy` is `Copy` to the payload
  unfoldable pub retain_at : M S (Unit {0}) → Bool → Text → Text → RetainedEntry → M S RetainedEntry
  retain_at copy move real dir entry = do
    os.mkdir_all dir
    raw ← on_error (encoded (notes.encode entry)) (dropping dir)
    on_error (if move then os.rename real (payload_of dir) else copy) (dropping dir)
    on_error (os.write_file (note_of dir) raw) (roll_back move real dir)
    return entry

  abbrev pub entry_for : Text → Text → Text → Time → Info → RetainedEntry
  entry_for virtual root_name id now info = record {
    id = id;
    original_path = clean_virtual virtual;
    retained_path = b'/' ∷ root_name ++ b'/' ∷ id;
    size = info.size;
    is_dir = info.is_dir;
    mod_time = now;
  }

  -- the virtual path if none is given: the one from the base, if it can be told
  abbrev pub named_virtual : Text → Text → Text
  named_virtual virtual real =
      if is_empty virtual
      then b'/' ∷ trim_prefix (rel_or_base (rel_from_real r real) real) (codes "./")
      else virtual

  abbrev pub entry_id : Stamp → Text → Text
  entry_id stamp actor = stamp.text ++ b'-' ∷ safe_name actor

  unfoldable pub retain :
      (Text → M S (Unit {0})) → Bool → Text → Stamp → Text → Text → Text → M S RetainedEntry
  unfolding retain_at
  retain copy_to move root_name stamp real virtual actor = do
    info ← stat os r real
    let id = entry_id stamp actor
    let dir = retained_dir r root_name id
    retain_at (copy_to (payload_of dir)) move real dir
        (entry_for (named_virtual virtual real) root_name id stamp.now info)

  -- `Trash`
  unfoldable pub trash : Stamp → Text → Text → Text → M S RetainedEntry
  unfolding retain
  trash stamp real virtual actor =
      retain (λ p. return tt) true (codes "._macftpd_trash") stamp real virtual actor

  -- `Version`; `copy` is `Copy` with its options
  unfoldable pub version :
      (Text → Text → M S (Unit {0})) → Stamp → Text → Text → Text → M S RetainedEntry
  unfolding retain
  version copy stamp real virtual actor =
      retain (copy real) false (codes "._macftpd_versions") stamp real virtual actor
