-- ===== src/Ftp/UploadTests.antt =====
-- A file is appended to over FTP.
use macftpd.Prelude.{if◌then◌else◌, ◌≡◌, refl, true, false, none, some, [], ◌∷◌}
use macftpd.Text.{codes, ◌=ₜ◌, split, join, has_prefix, cut_prefix}
use macftpd.Path.{clean, clean_part, clean_parts, absolute, join_paths}
use macftpd.Storage.{is_below, rel_from_real}
use macftpd.Storage.Os.{in_root, ok}
use macftpd.Storage.Toy.{Tree, tree_os, tree_laws}
use macftpd.Storage.DiskTests.{
  disk_root, no_notes, no_dirs, first_stamp, file_a, file_b, files-Apart, tidy_a, tidy_b, b-above,
  b-Entry, a-Outside, b-Outside,
}
use macftpd.Ftp.Upload.{Incoming, store_at}
use macftpd.Ftp.Upload.Placed.{Staging, Destined}
use macftpd.Ftp.Upload.Exact.{Uploaded, store_at-Uploaded}

-- "/s/b" is there, and "/s/a" is a name for the staged file
abbrev half : Tree
half = record { found = λ p. if p =ₜ file_b then some (b'1' ∷ []) else none; stuck = [] }

abbrev sent : Incoming
sent = record {
  opens = true;
  bytes = b'2' ∷ [];
  breaks = none;
  seek_fails = false;
  truncate_fails = false;
  close_fails = false;
}

b-beside :
    is_below (clean (join_paths (disk_root.base ∷ codes "._macftpd_uploads" ∷ []))) file_b ≡ false
unfolding clean clean_part clean_parts absolute ◌=ₜ◌ split join has_prefix join_paths codes
b-beside = refl

b-admitted : (t : Tree) → in_root tree_os disk_root file_b t ≡ (t, ok file_b)
unfolding clean clean_part clean_parts absolute ◌=ₜ◌ split join has_prefix in_root rel_from_real
    cut_prefix
b-admitted t = refl

a-Staging : Staging tree_os tree_laws no_notes disk_root no_dirs first_stamp [] file_b file_a
a-Staging = record { outside = a-Outside; apart = files-Apart; tidy = tidy_a }

b-Destined : Destined tree_os tree_laws no_notes disk_root no_dirs first_stamp [] file_b
b-Destined = record {
  entry = b-Entry;
  outside = b-Outside;
  tidy = tidy_b;
  admitted = b-admitted;
  above = b-above;
  beside = b-beside;
}

store_at-Uploaded_example :
    Uploaded tree_os tree_laws no_notes disk_root no_dirs first_stamp [] file_b true false 0
      (b'2' ∷ [])
      half
      (store_at tree_os no_notes disk_root no_dirs first_stamp
        (file_a ∷ [])
        file_b
        (b'/' ∷ [])
        []
        sent
        true
        false
        0
        half)
store_at-Uploaded_example =
    store_at-Uploaded tree_os tree_laws no_notes disk_root no_dirs first_stamp [] file_b
      (file_a ∷ []) (b'/' ∷ []) sent true false 0 half b-Destined (a-Staging, tt)
