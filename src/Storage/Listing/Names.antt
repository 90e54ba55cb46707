-- ===== src/Storage/Listing/Names.antt =====
-- The names in a listing.
use macftpd.Prelude.{
  ◌≡◌, refl, Bool, false, Option, List, [], ◌∷◌, ◌++◌, any, if◌then◌else◌, arith, Bool-cases, sym,
  subst, inl, inr,
}
use macftpd.Text.{Text, ◌=ₜ◌, =ₜ_iff}
use macftpd.Path.{clean, clean_virtual, path_join_virtual}
use macftpd.Auth.{User}
use macftpd.Storage.{Root, is_ignored_virtual}
use macftpd.Storage.Os.{Os, M, Result, ok, err, Info, M-cases, ◌>>=◌, return, stat, bound}
use macftpd.Storage.Os.Moves.{in_root_cases}
use macftpd.Storage.Listing.{
  Entry, entry_from_info, with_entry, is_named, listed, list, read_root, append_seen, append_made,
  append_virtual_mount, public_mount, dropbox_mount, mounts_of, list_for_user,
}

abbrev pub shares : Text → Text × Result Info → Bool
shares name (other, seen) = other =ₜ name

-- no name stands in it twice
abbrev pub AreUnique : List (Text × Result Info) → Type 0
AreUnique [] = Unit
AreUnique ((name, seen) ∷ items) = (any (shares name) items ≡ false) × AreUnique items

abbrev pub IsUnique : List Entry → Type 0
IsUnique [] = Unit
IsUnique (e ∷ entries) = (any (is_named e.name) entries ≡ false) × IsUnique entries

differ : (s t : Text) → (s =ₜ t) ≡ false → (t =ₜ s) ≡ false
differ s t apart = elim (Bool-cases (t =ₜ s)) [
  | inl e ↦ absurd (let back = (=ₜ_iff s t).1 (sym ((=ₜ_iff t s).0 e)) in ground arith)
  | inr e ↦ e
]

any-append :
    (name : Text) (entries : List Entry) (e : Entry)
    → any (is_named name) entries ≡ false
    → (e.name =ₜ name) ≡ false
    → any (is_named name) (entries ++ e ∷ []) ≡ false
any-append name [] e none_of other = ground arith
any-append name (f ∷ entries) e none_of other =
    let rest = any-append name entries e (ground arith) other in ground arith

append-IsUnique :
    (entries : List Entry) (e : Entry)
    → any (is_named e.name) entries ≡ false
    → IsUnique entries
    → IsUnique (entries ++ e ∷ [])
append-IsUnique [] e fresh unique = (refl, tt)
append-IsUnique (f ∷ entries) e fresh (first, unique) = (
  any-append f.name entries e first (differ f.name e.name (ground arith)),
  append-IsUnique entries e (ground arith) unique,
)

shown-fresh :
    (name other virtual : Text) (seen : Result Info) (entries : List Entry)
    → (other =ₜ name) ≡ false
    → any (is_named name) entries ≡ false
    → any (is_named name) (with_entry other virtual seen entries) ≡ false
shown-fresh name other virtual (ok info) entries apart fresh = ground arith
shown-fresh name other virtual (err e) entries apart fresh = fresh

shown-IsUnique :
    (other virtual : Text) (seen : Result Info) (entries : List Entry)
    → any (is_named other) entries ≡ false
    → IsUnique entries
    → IsUnique (with_entry other virtual seen entries)
shown-IsUnique other virtual (ok info) entries fresh unique = (fresh, unique)
shown-IsUnique other virtual (err e) entries fresh unique = unique

module _ {S : Type 0} (os : Os S) (glob : Text → Text → Option Bool) (r : Root) where
  listed-fresh :
      (name virtual_dir : Text) (items : List (Text × Result Info))
      → any (shares name) items ≡ false
      → any (is_named name) (listed os glob r virtual_dir items) ≡ false
  unfolding listed
  listed-fresh name virtual_dir [] fresh = refl
  listed-fresh name virtual_dir ((other, seen) ∷ items) fresh =
      let ih = listed-fresh name virtual_dir items (ground arith) in
      elim (Bool-cases (is_ignored_virtual r glob (path_join_virtual virtual_dir other))) [
        | inl e ↦ rw e ih
        | inr e ↦ rw e (
            shown-fresh name other (path_join_virtual virtual_dir other) seen
              (listed os glob r virtual_dir items) (ground arith) ih)
      ]

  listed-IsUnique :
      (virtual_dir : Text) (items : List (Text × Result Info))
      → AreUnique items
      → IsUnique (listed os glob r virtual_dir items)
  unfolding listed
  listed-IsUnique virtual_dir [] unique = tt
  listed-IsUnique virtual_dir ((other, seen) ∷ items) (fresh, unique) =
      let ih = listed-IsUnique virtual_dir items unique in
      elim (Bool-cases (is_ignored_virtual r glob (path_join_virtual virtual_dir other))) [
        | inl e ↦ rw e ih
        | inr e ↦ rw e (
            shown-IsUnique other (path_join_virtual virtual_dir other) seen
              (listed os glob r virtual_dir items) (listed-fresh other virtual_dir items fresh) ih)
      ]

  abbrev pub NamesOnce : S × Result (List Entry) → Type 0
  NamesOnce (s, ok entries) = IsUnique entries
  NamesOnce (s, err e) = Unit

  -- what each step keeps
  then_once :
      (m : M S (List Entry)) (f : List Entry → M S (List Entry)) (s : S)
      → NamesOnce (m s)
      → ((t : S) (entries : List Entry) → IsUnique entries → NamesOnce (f entries t))
      → NamesOnce ((m >>= f) s)
  then_once m f s once keeps = elim (M-cases (m s)) [
    | inl (t, entries, e) ↦ rw e (keeps t entries (subst NamesOnce e once))
    | inr (t, g, e) ↦ rw e tt
  ]

  append_seen-IsUnique :
      (entries : List Entry) (name virtual : Text) (seen : Result Info)
      → any (is_named name) entries ≡ false
      → IsUnique entries
      → IsUnique (append_seen os glob r entries name virtual seen)
  append_seen-IsUnique entries name virtual (ok info) fresh unique =
      append-IsUnique entries (entry_from_info name info virtual) fresh unique
  append_seen-IsUnique entries name virtual (err e) fresh unique = unique

  append_made-once :
      (entries : List Entry) (name virtual real : Text) (seen : Result Info) (s : S)
      → any (is_named name) entries ≡ false
      → IsUnique entries
      → NamesOnce (append_made os glob r entries name virtual real seen s)
  append_made-once entries name virtual real (ok info) s fresh unique =
      append-IsUnique entries (entry_from_info name info virtual) fresh unique
  append_made-once entries name virtual real (err e) s fresh unique =
      append_seen-IsUnique entries name virtual _ fresh unique

  mount_once :
      (entries : List Entry) (name virtual real : Text) (s : S)
      → IsUnique entries
      → NamesOnce (append_virtual_mount os glob r entries name virtual real s)
  unfolding append_virtual_mount
  mount_once entries name virtual real s unique = elim (Bool-cases (any (is_named name) entries)) [
    | inl e ↦ rw e unique
    | inr e ↦ rw e (append_made-once entries name virtual real (stat os r real s).1 s e unique)
  ]

  public_once :
      (user : User) (entries : List Entry) (s : S)
      → IsUnique entries
      → NamesOnce (public_mount os glob r user entries s)
  public_once user entries s unique = elim (Bool-cases user.permissions.public) [
    | inl e ↦ rw e (mount_once entries _ _ _ s unique)
    | inr e ↦ rw e unique
  ]

  dropbox_once :
      (user : User) (entries : List Entry) (s : S)
      → IsUnique entries
      → NamesOnce (dropbox_mount os glob r user entries s)
  dropbox_once user entries s unique = elim (Bool-cases user.permissions.dropbox) [
    | inl e ↦ rw e (mount_once entries _ _ _ _ unique)
    | inr e ↦ rw e unique
  ]

  list_once :
      (real virtual_dir : Text) (s : S)
      → ((p : Text) (s : S) (items : List (Text × Result Info))
          → os.read_dir p s ≡ ok items
          → AreUnique items)
      → NamesOnce (list os glob r real virtual_dir s)
  unfolding list read_root
  list_once real virtual_dir s named = elim (in_root_cases os r real s) [
    | inr (f, e) ↦ rw e tt
    | inl e ↦ rw e (given (os.read_dir (clean real) s) refl)
  ]
    where
      given :
          (res : Result (List (Text × Result Info)))
          → os.read_dir (clean real) s ≡ res
          → NamesOnce (bound (λ items. return (listed os glob r virtual_dir items)) (s, res))
      given (ok items) e = listed-IsUnique virtual_dir items (named (clean real) s items e)
      given (err f) e = tt

  -- In what a user is shown of a directory, each name stands once, also where the directory has an entry
  -- that is named as a mount. The operating system is relied on to name each entry of a directory once.
  pub list_for_user-once :
      (user : User) (real virtual_dir : Text) (s : S)
      → ((p : Text) (s : S) (items : List (Text × Result Info))
          → os.read_dir p s ≡ ok items
          → AreUnique items)
      → NamesOnce (list_for_user os glob r user real virtual_dir s)
  unfolding list_for_user
  list_for_user-once user real virtual_dir s named =
      then_once (list os glob r real virtual_dir)
        (λ entries.
          if virtual_dir =ₜ clean_virtual user.home
          then mounts_of os glob r user entries
          else return entries)
        s (list_once real virtual_dir s named)
        (λ t entries unique. elim (Bool-cases (virtual_dir =ₜ clean_virtual user.home)) [
          | inl e ↦ rw e (
              then_once (public_mount os glob r user entries) (dropbox_mount os glob r user) t
                (public_once user entries t unique)
                (λ u entries' unique'. dropbox_once user entries' u unique'))
          | inr e ↦ rw e unique
        ])
