-- ===== src/Path.antt =====
-- The functions of Go's `path/filepath` that the program calls, on a system where "/" is the separator,
-- and `cleanVirtual` of internal/storage/storage.go.
pub mod Laws
use macftpd.Prelude.{
  ℕ, Bool, true, false, ◌&&◌, ◌||◌, Option, none, some, List, [], ◌∷◌, ◌++◌, reverse, ◌==◌,
  if◌then◌else◌,
}
use macftpd.Text.{
  Text, codes, is_empty, trim_space, trim_right, trim_prefix, split, join, replace, ◌=ₜ◌,
}

abbrev pub backslash : ℕ
backslash = 92

abbrev pub dot : Text
dot = b'.' ∷ []

abbrev pub dots : Text
dots = b'.' ∷ b'.' ∷ []

abbrev pub slash : Text
slash = b'/' ∷ []

-- ".." takes the last part away; at a relative path's start it stays
abbrev up : Bool → List Text → List Text
up true [] = []
up true (s ∷ stack) = stack
up false [] = dots ∷ []
up false (s ∷ stack) = if s =ₜ dots then dots ∷ s ∷ stack else stack

-- one part of a path, on a stack with its top at the head
unfoldable pub clean_part : Bool → List Text → Text → List Text
clean_part rooted stack part =
    if is_empty part || part =ₜ dot
    then stack
    else if part =ₜ dots
    then up rooted stack
    else part ∷ stack

unfoldable pub clean_parts : Bool → List Text → List Text → List Text
unfolding clean_part
clean_parts rooted stack [] = reverse stack
clean_parts rooted stack (part ∷ parts) = clean_parts rooted (clean_part rooted stack part) parts

-- "/" and the parts of a path from the root
unfoldable pub absolute : List Text → Text
absolute parts = b'/' ∷ join b'/' parts

abbrev relative : List Text → Text
relative [] = dot
relative (s ∷ parts) = join b'/' (s ∷ parts)

-- `filepath.Clean`
unfoldable pub clean : Text → Text
unfolding clean_parts absolute
clean [] = dot
clean (c ∷ s) =
    if c == b'/'
    then absolute (clean_parts true [] (split b'/' s))
    else relative (clean_parts false [] (split b'/' (c ∷ s)))

-- the elements of a `filepath.Join` from the first that is not empty on
abbrev given : List Text → List Text
given [] = []
given (s ∷ parts) = if is_empty s then given parts else s ∷ parts

abbrev clean_joined : List Text → Text
clean_joined [] = []
clean_joined (s ∷ parts) = clean (join b'/' (s ∷ parts))

-- a text up to its last "/", with it
unfoldable pub through_slash : Text → Text
through_slash [] = []
through_slash (c ∷ s) =
    let rest = through_slash s in
    if is_empty rest then (if c == b'/' then slash else []) else c ∷ rest

-- `filepath.Dir`
unfoldable pub dir_path : Text → Text
unfolding through_slash
dir_path path = clean (through_slash path)

-- a text behind its last "/"
unfoldable pub behind_slash : Text → Text
unfolding through_slash
behind_slash [] = []
behind_slash (c ∷ s) =
    let rest = behind_slash s in
    if is_empty (through_slash (c ∷ s))
    then c ∷ s
    else if is_empty (through_slash s)
    then s
    else rest

-- `filepath.Base`
abbrev pub base_path : Text → Text
base_path path =
    if is_empty path
    then dot
    else let trimmed = trim_right (λ c. c == b'/') path in
      if is_empty trimmed then slash else behind_slash trimmed

-- `filepath.Join`
unfoldable pub join_paths : List Text → Text
join_paths parts = clean_joined (given parts)

-- `cleanVirtual`
unfoldable pub clean_virtual : Text → Text
clean_virtual p =
    let q = trim_space (replace backslash b'/' p) in
    if is_empty q
    then slash
    else (let c = clean (b'/' ∷ trim_prefix q slash) in if c =ₜ dot then slash else c)

-- `pathJoinVirtual`
unfoldable pub path_join_virtual : Text → Text → Text
path_join_virtual base name = if base =ₜ slash then b'/' ∷ name else join_paths (base ∷ name ∷ [])
