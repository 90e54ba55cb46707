-- ===== src/Share.antt =====
-- internal/share/share.go: links for downloads and uploads. Each method runs under the store's mutex and
-- takes what it gets from outside as arguments: the time, whether the file was written (`saved`), the
-- random tokens that are drawn, and the hash of a new password. JSON is not modelled.
pub mod Bounds
pub mod Downloads
pub mod Others
pub mod Tokens
pub mod Access
pub mod Tests
use macftpd.Prelude.{
  ℕ, zero, suc, ◌+◌, ◌-◌, Bool, true, false, ◌&&◌, ◌||◌, not, Option, none, some, List, [], ◌∷◌,
  ◌++◌, leb, ltb, if◌then◌else◌, ℤ, pos, negsuc, map,
}
use macftpd.Text.{Text, codes, is_empty, trim_space, trim_prefix, replace, ◌=ₜ◌, text_eq}
use macftpd.Dict.{Dict, get, put, del}
use macftpd.Clock.{Time, after, is_zero}
use macftpd.Path.{clean, slash, backslash}
use macftpd.Auth.Password.{Crypto, verify_password}
use macftpd.Sort.{sort}

pub record Link : Type 0 where
  pub id : Text
  pub kind : Text
  pub path : Text
  pub url_path : Text
  pub label : Text
  pub created_by : Text
  pub created_at : Time
  pub expires_at : Time
  pub max_downloads : ℤ
  pub download_count : ℕ
  pub last_download_at : Time
  pub token_hash : Text
  pub password_hash : Text
  pub allow_overwrite : Bool
  pub disabled : Bool

pub record PublicLink : Type 0 where
  pub id : Text
  pub kind : Text
  pub path : Text
  pub url_path : Text
  pub label : Text
  pub created_by : Text
  pub created_at : Time
  pub expires_at : Option Time
  pub max_downloads : ℤ
  pub download_count : ℕ
  pub last_download_at : Option Time
  pub has_password : Bool
  pub allow_overwrite : Bool
  pub disabled : Bool

pub record CreateRequest : Type 0 where
  pub kind : Text
  pub path : Text
  pub label : Text
  pub created_by : Text
  pub expires_at : Time
  pub max_downloads : ℤ
  pub password : Text
  pub allow_overwrite : Bool

pub record Store : Type 0 where
  pub links : Dict Text Link
  pub active : Dict Text ℕ

pub data Error : Type 0 where
  not_found denied expired disabled : Error
  bad_kind no_random hash_failed save_failed not_reserved : Error

pub data Result {ℓ} (A : Type ℓ) : Type ℓ where
  ok : A → Result A
  err : Error → Result A

-- what a method returns, and the store that it leaves
abbrev pub Outcome : Type 0 → Type 0
Outcome A = Result A × Store

-- `return s.saveLocked()`: a failed write is reported, and the links in memory stay changed
abbrev pub save : {A : Type 0} → Bool → A → Store → Outcome A
save true a s = (ok a, s)
save false a s = (err save_failed, s)

abbrev pub optional : Time → Option Time
optional t = if is_zero t then none else some t

unfoldable pub public : Link → PublicLink
public link = record {
  id = link.id;
  kind = link.kind;
  path = link.path;
  url_path = link.url_path;
  label = link.label;
  created_by = link.created_by;
  created_at = link.created_at;
  expires_at = optional link.expires_at;
  max_downloads = link.max_downloads;
  download_count = link.download_count;
  last_download_at = optional link.last_download_at;
  has_password = not (is_empty link.password_hash);
  allow_overwrite = link.allow_overwrite;
  disabled = link.disabled;
}

-- `link.MaxDownloads > 0 && count >= link.MaxDownloads`
abbrev pub is_spent : ℤ → ℕ → Bool
is_spent (pos zero) count = false
is_spent (pos (suc max)) count = leb (suc max) count
is_spent (negsuc n) count = false

unfoldable pub available : Time → Link → ℕ → Option Error
available now link active =
    if link.disabled
    then some disabled
    else if not (is_zero link.expires_at) && after now link.expires_at
    then some expired
    else if is_spent link.max_downloads (link.download_count + active)
    then some expired
    else none

-- `s.activeDownloads[id]`
abbrev pub count_or_zero : Option ℕ → ℕ
count_or_zero none = 0
count_or_zero (some n) = n

abbrev pub active_of : Text → Store → ℕ
active_of id s = count_or_zero (get id s.active)

abbrev reserve_available : Text → Store → Option Error → Outcome (Unit {0})
reserve_available id s (some e) = (err e, s)
reserve_available id s none = (ok tt, record s { active = put id (active_of id s + 1) s.active })

abbrev reserve_found : Time → Text → Store → Option Link → Outcome (Unit {0})
reserve_found now id s none = (err not_found, s)
reserve_found now id s (some link) = reserve_available id s (available now link (active_of id s))

unfoldable pub reserve_download : Time → Text → Store → Outcome (Unit {0})
reserve_download now id s = reserve_found now id s (get id s.links)

-- one download less is running
unfoldable pub release : Text → Store → Store
release id s =
    if leb (active_of id s) 1
    then record s { active = del id s.active }
    else record s { active = put id (active_of id s - 1) s.active }

abbrev finish_found : Bool → Time → Text → Store → Option Link → Outcome (Unit {0})
finish_found saved now id s none = (err not_found, s)
finish_found saved now id s (some link) = save saved tt (record s {
  links =
      put id (record link { download_count = link.download_count + 1; last_download_at = now })
        s.links;
})

unfoldable pub finish_download : Bool → Time → Text → Bool → Store → Outcome (Unit {0})
unfolding release
finish_download saved now id completed s =
    let released = release id s in
    if leb (active_of id s) 0
    then (err not_reserved, s)
    else if not completed
    then (ok tt, released)
    else finish_found saved now id released (get id released.links)

abbrev set_url_found : Bool → Text → Text → Store → Option Link → Outcome (Unit {0})
set_url_found saved id url_path s none = (err not_found, s)
set_url_found saved id url_path s (some link) =
    save saved tt (record s { links = put id (record link { url_path = url_path }) s.links })

unfoldable pub set_url_path : Bool → Text → Text → Store → Outcome (Unit {0})
set_url_path saved id url_path s = set_url_found saved id url_path s (get id s.links)

abbrev delete_found : Bool → Text → Store → Option Link → Outcome (Unit {0})
delete_found saved id s none = (err not_found, s)
delete_found saved id s (some link) = save saved tt (record s { links = del id s.links })

unfoldable pub delete : Bool → Text → Store → Outcome (Unit {0})
delete saved id s = delete_found saved id s (get id s.links)

abbrev public_found : Option Link → Result PublicLink
public_found none = err not_found
public_found (some link) = ok (public link)

-- `Public`
unfoldable pub public_of : Text → Store → Result PublicLink
public_of id s = public_found (get id s.links)

abbrev pub values : Dict Text Link → List Link
values [] = []
values ((k, link) ∷ m) = link ∷ values m

unfoldable pub list : Store → List PublicLink
list s =
    sort (λ (a : PublicLink) (b : PublicLink). after a.created_at b.created_at)
      (map public (values s.links))

-- `cleanVirtual` of this file
unfoldable pub clean_path : Text → Text
clean_path p =
    let q = trim_space (replace backslash b'/' p) in
    if is_empty q then slash else clean (b'/' ∷ trim_prefix q slash)

-- the loop of `load` over the links of the file
unfoldable pub load_links : List Link → Dict Text Link → Dict Text Link
load_links [] m = m
load_links (link ∷ links) m =
    load_links links (if not (is_empty link.id) then put link.id link m else m)
