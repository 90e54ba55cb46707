-- ===== src/Http/Upload.antt =====
-- internal/httpapi/server.go: uploads in chunks, `uploadChunk` of an administrator and `dropChunk` of a link.
-- `Digest` is SHA-256 and base64. The requests for one part run one after the other under its lock.
pub mod Chunks
pub mod Whole
use macftpd.Prelude.{
  ℕ, ◌+◌, ◌-◌, ◌*◌, ◌^◌, ◌≡◌, Bool, true, false, ◌&&◌, ◌||◌, not, Option, none, some, List, [], ◌∷◌,
  ◌++◌, if◌then◌else◌, ltb, leb, ◌==◌, length, take, drop, all, ℤ, pos, negsuc, min,
}
use macftpd.Text.{Text, codes, is_empty, has_prefix, ◌=ₜ◌, trim_right, has_suffix}
use macftpd.Clock.{Time, hour}
use macftpd.Path.{clean, dir_path, join_paths, slash, dot}
use macftpd.Auth.Names.{is_alnum}
use macftpd.Ftp.Ports.{parse_int, print_nat}
use macftpd.Share.Tokens.{Digest, hash_token}
use macftpd.Storage.{Root, resolve_admin}
use macftpd.Storage.Copy.{CopyOptions, CopyResult}
use macftpd.Storage.Retain.{Notes, Stamp}
use macftpd.Storage.Replace.{replace_file, install_file}
use macftpd.Storage.Os.{
  Os, M, Result, ok, err, Error, not_exist, exists, Info, bound, ◌>>=◌, ◌>>◌, return, fail,
  ignoring, mkdir_all, chmod,
}

-- `safeUploadID`
abbrev pub is_id_char : ℕ → Bool
is_id_char c =
    (leb b'a' c && leb c b'z')
    || (leb b'A' c && leb c b'Z')
    || (leb b'0' c && leb c b'9')
    || c == b'-'
    || c == b'_'

unfoldable pub safe_upload_id : Text → Bool
safe_upload_id id = leb 8 (length id) && leb (length id) 96 && all is_id_char id

-- `uploadPartName`
unfoldable pub upload_part_name : Digest → Text → Text → Text
upload_part_name d scope upload_id = hash_token d (scope ++ 0 ∷ upload_id) ++ codes ".part"

-- `filepath.Base`
unfoldable pub after_slash : Text → Text → Text
after_slash [] name = name
after_slash (c ∷ s) name = if c == b'/' then after_slash s s else after_slash s name

abbrev pub base_of : Text → Text
base_of path =
    let name = trim_right (λ c. c == b'/') path in
    if is_empty path then dot else if is_empty name then slash else after_slash name name

abbrev pub is_bad_filename : Text → Bool
is_bad_filename name = is_empty name || name =ₜ dot || name =ₜ slash

abbrev pub max_int64 : ℕ
max_int64 = 2 ^ 63 - 1

-- What becomes of the bytes that `io.Copy` is given: it fails after a number of them if there is one; and
-- whether `Truncate` fails.
pub record Copying : Type 0 where
  pub stops : Option ℕ
  pub keeps_excess : Bool

pub data Taken : Type 0 where
  copied failed : ℕ → Taken
  exceeds : Taken

abbrev pub limit_of : ℕ → ℕ
limit_of remaining = if ltb remaining max_int64 then remaining + 1 else remaining

-- `copyChunk`: the part after it, and what it reports
abbrev pub copy_chunk_read : Copying → Text → Text → ℕ → Option ℕ → Text × Taken
copy_chunk_read io part piece remaining (some n) =
    (part ++ take n piece, failed (length (take n piece)))
copy_chunk_read io part piece remaining none =
    if leb (length piece) remaining
    then (part ++ piece, copied (length piece))
    else (if io.keeps_excess then part ++ piece else part, exceeds)

unfoldable pub copy_chunk : Copying → Text → Text → ℕ → ℕ → Text × Taken
copy_chunk io part chunk offset total =
    copy_chunk_read io part (take (limit_of (total - offset)) chunk) (total - offset) io.stops

-- The answer to a request: the status of a refusal, or how much was received and whether that is all; and
-- what is noted of an upload.
pub data Reply : Type 0 where
  refused : ℕ → Reply
  refused_at : ℕ → ℕ → Reply
  received : ℕ → Bool → Reply

pub record Form : Type 0 where
  pub filename : Text
  pub upload_id : Text
  pub offset : Text
  pub total_size : Text
  pub chunk : Option Text

module _ {S : Type 0} (os : Os S) where
  -- what is done once the file is whole: the status of a refusal, if there is one
  abbrev pub Finish : Type 0
  Finish = S → S × Option ℕ

  abbrev pub answered : (Error → ℕ) → S × Result (Unit {0}) → S × Option ℕ
  answered status (s, ok a) = (s, none)
  answered status (s, err e) = (s, some (status e))

  abbrev pub and_then : S × Option ℕ → Finish → S × Option ℕ
  and_then (s, none) next = next s
  and_then (s, some status) next = (s, some status)

  abbrev pub completed : ℕ → S × Option ℕ → S × Reply
  completed written (s, none) = (s, received written true)
  completed written (s, some status) = (s, refused status)

  -- after `copyChunk`; a part that failed is logged with what was written
  abbrev pub counted : Finish → ℕ → ℕ → Taken → S → S × Reply
  counted finish offset total exceeds s = (s, refused 400)
  counted finish offset total (failed n) s = (s, refused_at 500 (offset + n))
  counted finish offset total (copied n) s =
      if ltb (offset + n) total
      then (s, received (offset + n) false)
      else completed (offset + n) (finish s)

  abbrev pub written : Finish → ℕ → ℕ → Taken → S × Result (Unit {0}) → S × Reply
  written finish offset total taken (s, err e) = (s, refused 500)
  written finish offset total taken (s, ok a) = counted finish offset total taken s

  abbrev pub copied_to : Finish → Text → ℕ → ℕ → Text × Taken → S → S × Reply
  copied_to finish part offset total (content, taken) s =
      written finish offset total taken (os.write_file part content s)

  -- the part is open, with what is in it
  abbrev pub opened : Copying → Finish → Text → ℕ → ℕ → Text → S × Result Text → S × Reply
  opened io finish part offset total chunk (s, err e) = (s, refused 500)
  opened io finish part offset total chunk (s, ok content) =
      if length content == offset
      then copied_to finish part offset total (copy_chunk io content chunk offset total) s
      else (s, refused 409)

  abbrev pub or_created : Text → Result Text → M S Text
  or_created part (ok content) = return content
  or_created part (err not_exist) = os.write_file part [] >> return []
  or_created part (err e) = fail e

  -- `os.OpenFile` with O_CREATE, and a look at what is there
  abbrev pub open_part : Text → M S Text
  open_part part s = or_created part (os.read_file part s) s

  -- the old part goes where the upload starts
  abbrev pub started : Bool → Text → S → S
  started true part s = (os.remove part s).0
  started false part s = s

  -- from `offset == 0` on, under the lock of the part
  unfoldable pub receive : Copying → Finish → Text → ℕ → ℕ → Text → S → S × Reply
  unfolding copy_chunk
  receive io finish part offset total chunk s =
      opened io finish part offset total chunk (open_part part (started (offset == 0) part s))

  -- `cleanupUploadParts`: parts that were not written to for a day are removed
  abbrev pub is_stale : Time → Text → Info → Bool
  is_stale before name info =
      not info.is_dir && has_suffix name (codes ".part") && ltb info.mod_time before

  abbrev pub drop_stale : Time → Text → Text → Result Info → M S (Unit {0})
  drop_stale before dir name (ok info) =
      if is_stale before name info
      then ignoring (os.remove (join_paths (dir ∷ name ∷ [])))
      else return tt
  drop_stale before dir name (err e) = return tt

  unfoldable pub drop_parts : Time → Text → List (Text × Result Info) → S → S
  drop_parts before dir [] s = s
  drop_parts before dir ((name, seen) ∷ items) s =
      drop_parts before dir items (drop_stale before dir name seen s).0

  abbrev pub drop_listed : Time → Text → Result (List (Text × Result Info)) → S → S
  drop_listed before dir (ok items) s = drop_parts before dir items s
  drop_listed before dir (err e) s = s

  unfoldable pub cleanup_upload_parts : Time → Text → S → S
  unfolding drop_parts
  cleanup_upload_parts before dir s = drop_listed before dir (os.read_dir dir s) s

abbrev pub in_range : Option ℤ → Option ℤ → Option (ℕ × ℕ)
in_range (some (pos offset)) (some (pos total)) =
    if leb offset total then some (offset, total) else none
in_range offset total = none

module _ {S : Type 0} (os : Os S) (notes : Notes) (d : Digest) (glob : Text → Text → Option Bool)
    (r : Root) (copy_dir : Text → Text → CopyOptions → M S CopyResult) (stamp : Stamp)
    (now : Time) where
  abbrev pub uploads_dir : Text
  uploads_dir = join_paths (r.base ∷ codes "._macftpd_uploads" ∷ [])

  abbrev pub failing : Error → ℕ
  failing e = 500

  abbrev pub conflict : Bool → Error → ℕ
  conflict false exists = 409
  conflict allow_overwrite e = 500

  -- the whole part is put in its place
  abbrev pub place : Bool → Text → Text → Text → Text → M S (Unit {0})
  place true actor part dest virtual =
      replace_file os notes r copy_dir stamp part dest virtual actor true
  place false actor part dest virtual = install_file os r part dest

  unfoldable pub finish_upload : Bool → Text → Text → Text → Text → Finish os
  finish_upload allow_overwrite actor part dest virtual s =
      and_then os
        (and_then os (answered os failing (mkdir_all os r (dir_path dest) s)) (λ t.
          answered os (conflict allow_overwrite) (place allow_overwrite actor part dest virtual t)))
        (λ t. answered os failing (chmod os r dest t))

  abbrev pub part_path : Text → Text → ℕ → Text → Text
  part_path scope virtual total upload_id = clean (
      join_paths (
        uploads_dir
        ∷ upload_part_name d (scope ++ b':' ∷ virtual ++ b':' ∷ print_nat total) upload_id
        ∷ []))

  -- the directory of the parts is there
  abbrev pub prepared :
      Copying → Bool → Text → Text → Text → Text → ℕ → ℕ → Text → S × Result (Unit {0}) → S × Reply
  prepared io allow_overwrite actor part dest virtual offset total chunk (s, err e) =
      (s, refused 500)
  prepared io allow_overwrite actor part dest virtual offset total chunk (s, ok a) =
      let t = cleanup_upload_parts os (now - 24 * hour) uploads_dir s in
      if has_prefix part (uploads_dir ++ slash)
      then receive os io (finish_upload allow_overwrite actor part dest virtual) part offset total
          chunk t
      else (t, refused 400)

  abbrev pub destined :
      Copying
      → Bool
      → Text
      → Text
      → Text
      → ℕ × ℕ
      → Text
      → Option (Text × Text)
      → Text
      → S
      → S × Reply
  destined io allow_overwrite actor scope virtual range chunk none upload_id s = (s, refused 400)
  destined io allow_overwrite actor scope virtual (offset, total) chunk (some (dest, path))
        upload_id s =
      prepared io allow_overwrite actor (part_path scope virtual total upload_id) dest virtual
        offset total chunk (os.mkdir_all uploads_dir s)

  abbrev pub ranged :
      Copying → Bool → Text → Text → Text → Option (ℕ × ℕ) → Option Text → Text → S → S × Reply
  ranged io allow_overwrite actor scope virtual none chunk upload_id s = (s, refused 400)
  ranged io allow_overwrite actor scope virtual (some range) none upload_id s = (s, refused 400)
  ranged io allow_overwrite actor scope virtual (some range) (some chunk) upload_id s =
      destined io allow_overwrite actor scope virtual range chunk (resolve_admin r glob virtual)
        upload_id s

  abbrev pub named : Copying → Bool → Text → Text → Text → Text → Form → S → S × Reply
  named io allow_overwrite actor scope dir name form s =
      if is_bad_filename name
      then (s, refused 400)
      else if not (safe_upload_id form.upload_id)
      then (s, refused 400)
      else ranged io allow_overwrite actor scope (join_paths (dir ∷ name ∷ []))
          (in_range (parse_int form.offset) (parse_int form.total_size)) form.chunk form.upload_id s

  -- `dropChunk`, for the link `id` to the directory `dir`
  unfoldable pub drop_chunk : Copying → Text → Text → Bool → Form → S → S × Reply
  drop_chunk io id dir allow_overwrite form =
      named io allow_overwrite (codes "drop-link") (codes "drop:" ++ id) dir (base_of form.filename)
        form

  abbrev pub in_directory : Copying → Text → Form → Option (Text × Text) → S → S × Reply
  in_directory io user form none s = (s, refused 400)
  in_directory io user form (some (real, dir)) s =
      named io true user (codes "admin:" ++ user) dir (base_of form.filename) form s

  -- `uploadChunk`, of a request that is a POST with a form
  unfoldable pub upload_chunk : Copying → Text → Text → Form → S → S × Reply
  upload_chunk io user path form = in_directory io user form (resolve_admin r glob path)
