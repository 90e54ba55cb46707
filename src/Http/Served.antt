-- ===== src/Http/Served.antt =====
-- internal/httpapi/server.go: what is noted of a file that was served, `fileServeResult` and
-- `logDownloadActivity`.
use macftpd.Prelude.{
  ℕ, ◌-◌, ◌/◌, Bool, true, false, ◌&&◌, ◌||◌, not, Option, none, some, [], ◌++◌, if◌then◌else◌, ltb,
  leb, ◌==◌, length, take, drop, ℤ, pos, negsuc, min,
}
use macftpd.Text.{Text, codes, is_empty, trim_space, contains, cut, ◌=ₜ◌, equal_fold}
use macftpd.Activity
use macftpd.Activity.Message.{Event}
use macftpd.Ftp.Ports.{parse_int, print_nat}
use macftpd.Http.Request.{Net, Request, Env, Server, remote_of}

-- `err` is the text of an error, and whether it says that the client has gone (`isClientDisconnect`).
pub record FileServeResult : Type 0 where
  pub status : ℕ
  pub bytes : ℕ
  pub size : ℕ
  pub meth : Text
  pub err : Option (Text × Bool)
  pub range : Text

abbrev pub no_error : Option (Text × Bool) → Bool
no_error none = true
no_error (some e) = false

-- `Success`
unfoldable pub success : FileServeResult → Bool
success r =
    no_error r.err
    && leb 200 r.status
    && ltb r.status 400
    && (ltb 0 r.bytes || (r.meth =ₜ codes "GET" && r.status == 200 && r.size == 0))

abbrev bytes_prefix : Text
bytes_prefix = codes "bytes="

abbrev pub reaches : ℕ → Option ℤ → Bool
reaches size none = false
reaches size (some (negsuc n)) = false
reaches size (some (pos last)) = leb (size - 1) last

abbrev pub is_number : Option ℤ → Bool
is_number none = false
is_number (some n) = true

abbrev pub ends_at_end : ℕ → Option (Text × Text) → Bool
ends_at_end size none = false
ends_at_end size (some (first, last)) =
    not (is_empty (trim_space first))
    && is_number (parse_int (trim_space first))
    && (is_empty (trim_space last) || reaches size (parse_int (trim_space last)))

-- `rangeRunsToEOF`
unfoldable pub range_runs_to_eof : Text → ℕ → Bool
range_runs_to_eof header size =
    let value = trim_space header in
    let spec = trim_space (drop 6 value) in
    if size == 0
    then false
    else if ltb (length value) 6 || not (equal_fold (take 6 value) bytes_prefix)
    then false
    else if is_empty spec || contains b',' spec
    then false
    else ends_at_end size (cut b'-' spec)

abbrev pub minimum_resume : ℕ → ℕ
minimum_resume size = min (if leb 1 (size / 100) then size / 100 else 1) 8388608

-- `RecordableDownload`
unfoldable pub recordable_download : FileServeResult → Bool
unfolding success range_runs_to_eof
recordable_download r =
    if not (success r)
    then false
    else if r.status == 200
    then true
    else if not (r.status == 206) || not (range_runs_to_eof r.range r.size)
    then false
    else leb (minimum_resume r.size) r.bytes

abbrev pub with_range : Text → Text
with_range range = if is_empty range then [] else codes " range=" ++ range

abbrev pub counts : FileServeResult → Text
counts r =
    codes " status="
    ++ print_nat r.status
    ++ codes " bytes="
    ++ print_nat r.bytes
    ++ with_range r.range

abbrev pub with_error : Option (Text × Bool) → Text
with_error none = []
with_error (some (message, gone)) = codes " error=" ++ message

abbrev pub is_gone : Option (Text × Bool) → Bool
is_gone none = false
is_gone (some (message, gone)) = gone

module _ (net : Net) where
  -- the event, as `logDownloadActivity` changes it
  abbrev pub download_event : Request → Text → Text → Text → Text → Text → FileServeResult → Event
  download_event q type actor referrer path detail r = record {
    id = 0;
    time = 0;
    type = type;
    protocol = codes "http";
    actor = actor;
    remote = remote_of net q;
    referrer = referrer;
    action =
        if is_gone r.err || not (no_error r.err) || leb 400 r.status || recordable_download r
        then codes "download"
        else codes "download_probe";
    outcome =
        if is_gone r.err
        then codes "canceled"
        else if not (no_error r.err) || leb 400 r.status
        then codes "failed"
        else [];
    path = path;
    dest_path = [];
    bytes = r.bytes;
    detail =
        detail
        ++ (if is_gone r.err
            then codes " canceled"
            else if not (no_error r.err) || leb 400 r.status
            then codes " failed"
            else [])
        ++ counts r
        ++ with_error r.err;
    message = [];
  }

  -- `logDownloadActivity`
  unfoldable pub log_download_activity :
      Env → Request → Text → Text → Text → Text → Text → FileServeResult → Server → Server
  log_download_activity env q type actor referrer path detail r s = record s {
    activity =
        (Activity.add env.log_written env.now (download_event q type actor referrer path detail r)
          s.activity).0;
  }
