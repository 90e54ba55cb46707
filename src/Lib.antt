-- ===== src/Lib.antt =====
-- Verification of macftpd, a file server for FTP and HTTP.
--
-- The program keeps accounts (internal/auth), maps the paths that a user names to files under one base
-- directory (internal/storage), and serves them over FTP (internal/ftpserver) and HTTP (internal/httpapi).
-- Around these stand a limiter of failed logins (internal/ratelimit), a tracker of live sessions
-- (internal/status), a log of events (internal/activity) and links that share a file with a password, a
-- time limit and a limit of downloads (internal/share). A client of the router opens ports for FTP
-- (internal/natpmp). The FTP session asks the accounts, the limiter and the storage root, and tells the
-- tracker and the log.
--
-- Which file models what:
--   Ratelimit        internal/ratelimit/ratelimit.go: New, Allow, Fail, Reset, trimLocked as new, allow, fail,
--                    reset, trim_locked; Ratelimit/Lockout and Ratelimit/Threshold are about runs of them
--   Status           internal/status/status.go: Add, Update, Remove, Snapshot
--   Activity         internal/activity/activity.go: New, NewFile, Add, Recent, load, appendEvent;
--                    Activity/Message is humanMessage, Activity/Stats is State and StatsForPath
--   Auth             internal/auth/auth.go: the store's methods; Auth/Permissions, Auth/Names and
--                    Auth/Password are its types, its names and its password hashes
--   Path, Storage    internal/storage/storage.go: New, Resolve, ResolveAdmin, IsPublicReal,
--                    IsIgnoredVirtual, cleanVirtual and what they call, on paths as texts.
--                    Storage/Os is the file system below the root, as calls that may fail, and Stat,
--                    MkdirAll, Remove, RemoveAll, Rename, Chmod; Storage/Listing is List, ListForUser,
--                    appendVirtualMount and EnsureUserHome; Storage/Retain is retain, Trash and Version;
--                    Storage/Restore is Restore; Storage/Copy is Copy and copyFile, Storage/Copy/Tree
--                    copyDir; Storage/Replace is ReplaceFile and InstallFile. Storage/Os/Frame and
--                    Storage/Os/Moves are about what calls leave alone and what a rename does
--   Share            internal/share/share.go: the store of links; Share/Tokens is Create, Verify,
--                    VerifyAuthorized and validate
--   Ftp              internal/ftpserver/server.go: Ftp/World the state of a session and its server,
--                    Ftp/Access requireAuth and requireAuthPerm, Ftp/Command the words of a command,
--                    Ftp/Ports parsePorts and listenPassive, Ftp/Control and Ftp/Control/Dispatch the
--                    commands that steer a session, Ftp/Files the commands about files, Ftp/Upload
--                    store from the resolved path on, and createStagedUpload
--   Http             internal/httpapi/server.go: Http/Request the tests of a request (sameOriginUnsafe,
--                    clientAddrForLimit), Http/Sessions setSession, verifySession, setShareCookie and
--                    verifyShareCookie, Http/Access login, authenticateRequest and requireAdmin,
--                    Http/Links shareLink and verifySharePassword, Http/Served the note of a file that
--                    was served, Http/Upload uploadChunk, dropChunk, copyChunk and cleanupUploadParts
--   NatPmp           internal/natpmp/natpmp.go: PublicAddress, MapTCP and a round of MaintainTCP;
--                    NatPmp/Ports is ParsePorts, which nothing calls
--   Prelude, Text, Dict, Clock, Sort hold what these share: numbers, Go strings and the functions of Go's
--   strings package, maps as association lists, times, and the stable sort.
--
-- How the code is modelled. A method that runs under a mutex is one function from the state before to the
-- state after; an interleaving is a list of operations. What comes from outside is an argument: the time,
-- whether a file was written, random tokens, the network. Times are nanoseconds in natural numbers, with 0
-- for Go's zero time, and a difference of times is cut at the longest duration as in Go. Counters are
-- natural numbers: the source's 64-bit counters are taken not to overflow. A text is a list of code
-- points, and white space and case are those of ASCII texts. Loops are structural recursion on a list or
-- a text, or count down the rounds that the source's loop has. print_from of Ftp/Ports takes fuel, one more
-- than the number that it prints, and Ftp/Ports/Numbers is about what it prints then. copy_tree of
-- Storage/Copy/Tree takes fuel for the depth of the directories that it copies, which a file system bounds;
-- what is said of a copy is said for any copy of directories. top_bit of NatPmp counts down from the exponent 33:
-- no duration has 2 ^ 34 seconds.
--
-- The file system is a state of any type with the record Os of calls on absolute paths; each call answers a
-- state and a result, and may fail. IsOs says what the calls are relied on to do to the object at a path, a
-- file with its bytes or a directory with what is in it. Handlers that write to a part of an upload read it
-- and write it whole, and so does store with the staged file. The root's mutex makes ReplaceFile
-- and InstallFile one step, and the lock of an upload the requests for one part. A line of the activity log is
-- taken to be no longer than the 1 MiB that a start reads.
--
-- Parameters: Crypto (key derivation and base64, with IsCrypto as their documented behaviour), Digest
-- (SHA-256 and base64 of share tokens), Signer (the HMAC of a cookie and its base64, with IsSigner), the glob
-- matcher of path/filepath, Env (the clock and the network of an FTP session), Os (the calls of packages os
-- and io, with IsOs), Notes (the JSON of a retained entry), Net (addresses as package net reads them), and
-- for FTP the interfaces Homes and Disk of the storage root, whose operations on the file system may fail.
--
-- Not modelled: ListRetained and WriteFileAtomic of internal/storage, FTP downloads and listings, the pages,
-- public files, drop links but their chunks, the account and file handlers and the transfers between servers of internal/httpapi,
-- internal/config, the sockets of internal/natpmp, internal/upnpigd, internal/cloudflare, cmd/macftpd, and
-- JSON.
pub mod Prelude
pub mod Text
pub mod Dict
pub mod Clock
pub mod Sort
pub mod Path
pub mod Ratelimit
pub mod Status
pub mod Activity
pub mod Auth
pub mod Storage
pub mod Share
pub mod Ftp
pub mod NatPmp
pub mod Http
