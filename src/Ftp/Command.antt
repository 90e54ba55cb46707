-- ===== src/Ftp/Command.antt =====
-- internal/ftpserver/server.go: the words of a command line.
use macftpd.Prelude.{
  Bool, false, ◌||◌, not, Option, none, some, List, [], ◌∷◌, ◌++◌, ◌==◌, if◌then◌else◌,
}
use macftpd.Text.{
  Text, codes, cut, trim_space, trim, to_upper, has_prefix, replace, is_space, is_empty, ◌=ₜ◌,
}
use macftpd.Path.{backslash}

abbrev cut_line : Text → Option (Text × Text) → Text × Text
cut_line line none = (line, [])
cut_line line (some (before, after)) = (before, trim_space after)

-- `splitCommand`
unfoldable pub split_command : Text → Text × Text
split_command line = cut_line line (cut b' ' line)

-- The commands that `dispatch` knows; the ones with two names are one.
pub data Command : Type 0 where
  user pass auth pbsz prot syst feat clnt opts pwd cwd cdup type mode noop quit : Command
  pasv epsv port eprt list nlst mlsd mlst retr stor appe rest dele mkd rmd rnfr rnto size : Command
  mdtm unknown : Command

abbrev commands : List (Text × Command)
commands =
    (codes "USER", user)
    ∷ (codes "PASS", pass)
    ∷ (codes "AUTH", auth)
    ∷ (codes "PBSZ", pbsz)
    ∷ (codes "PROT", prot)
    ∷ (codes "SYST", syst)
    ∷ (codes "FEAT", feat)
    ∷ (codes "CLNT", clnt)
    ∷ (codes "OPTS", opts)
    ∷ (codes "PWD", pwd)
    ∷ (codes "XPWD", pwd)
    ∷ (codes "CWD", cwd)
    ∷ (codes "CDUP", cdup)
    ∷ (codes "TYPE", type)
    ∷ (codes "MODE", mode)
    ∷ (codes "STRU", mode)
    ∷ (codes "NOOP", noop)
    ∷ (codes "QUIT", quit)
    ∷ (codes "PASV", pasv)
    ∷ (codes "EPSV", epsv)
    ∷ (codes "PORT", port)
    ∷ (codes "EPRT", eprt)
    ∷ (codes "LIST", list)
    ∷ (codes "NLST", nlst)
    ∷ (codes "MLSD", mlsd)
    ∷ (codes "MLST", mlst)
    ∷ (codes "RETR", retr)
    ∷ (codes "STOR", stor)
    ∷ (codes "APPE", appe)
    ∷ (codes "REST", rest)
    ∷ (codes "DELE", dele)
    ∷ (codes "MKD", mkd)
    ∷ (codes "XMKD", mkd)
    ∷ (codes "RMD", rmd)
    ∷ (codes "XRMD", rmd)
    ∷ (codes "RNFR", rnfr)
    ∷ (codes "RNTO", rnto)
    ∷ (codes "SIZE", size)
    ∷ (codes "MDTM", mdtm)
    ∷ []

unfoldable pub find_command : Text → List (Text × Command) → Command
find_command word [] = unknown
find_command word ((name, c) ∷ table) = if word =ₜ name then c else find_command word table

-- the `switch` on the upper case of the first word
unfoldable pub command_of : Text → Command
unfolding find_command
command_of word = find_command (to_upper word) commands

-- `strings.Fields`, the words between blanks, from a word that was begun
unfoldable pub fields_from : Text → Text → List Text
fields_from word [] = if is_empty word then [] else word ∷ []
fields_from word (c ∷ s) =
    let next = fields_from [] s in
    let longer = fields_from (word ++ c ∷ []) s in
    if is_space c then (if is_empty word then next else word ∷ next) else longer

abbrev first_path : List Text → Text
first_path [] = []
first_path (field ∷ fields) =
    if not (has_prefix field (b'-' ∷ [])) then field else first_path fields

unfoldable pub scrub_list_arg : Text → Text
unfolding fields_from
scrub_list_arg arg = first_path (fields_from [] arg)

unfoldable pub is_monitor_virtual : Text → Bool
is_monitor_virtual given =
    let virtual = b'/' ∷ trim (λ c. c == b'/') (replace backslash b'/' given) in
    virtual =ₜ codes "/_monitor" || has_prefix virtual (codes "/_monitor/")

-- `net.JoinHostPort` asks for this
abbrev pub has_colon : Text → Bool
has_colon [] = false
has_colon (c ∷ s) = c == b':' || has_colon s
