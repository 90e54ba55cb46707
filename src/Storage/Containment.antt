-- ===== src/Storage/Containment.antt =====
-- No request leaves the storage root, or the home of its user.
use mathlib.Core.List.{append-nil, append_assoc}
use macftpd.Prelude.{
  ◌≡◌, Bool, true, false, ◌&&◌, ◌||◌, not, Option, none, some, List, [], ◌∷◌, ◌++◌, arith, ap, sym,
  ◌∙◌, All, if◌then◌else◌, Bool-cases, inl, inr,
}
use macftpd.Text.{Text, is_empty, has_prefix, join, ◌=ₜ◌}
use macftpd.Text.Laws.{has_prefix_append, join-append, =ₜ_refl}
use macftpd.Path.{absolute, slash, clean_virtual}
use macftpd.Path.Laws.{IsPlain, clean-absolute, clean_virtual-IsPlain, join_paths-absolute}
use macftpd.Auth.{User}
use macftpd.Storage.{
  Root, is_below, mount_virtual, first_mount, real_from_virtual, is_ignored_virtual, virtual_of,
  resolve, resolve_admin, mounted, public_target, dropbox_target,
}

-- The base is a cleaned path that is not the root of the file system.
pub record IsSound (r : Root) : Type 0 where
  pub first : Text
  pub rest : List Text
  pub base_parts : r.base ≡ absolute (first ∷ rest)
  pub plain : All IsPlain (first ∷ rest)

abbrev pub base_of : {r : Root} → IsSound r → List Text
base_of s = s.first ∷ s.rest

pub All-append-IsPlain :
    (xs ys : List Text) → All IsPlain xs → All IsPlain ys → All IsPlain (xs ++ ys)
All-append-IsPlain [] ys h k = k
All-append-IsPlain (x ∷ xs) ys (p, h) k = (p, All-append-IsPlain xs ys h k)

absolute-append :
    (b p : Text) (base parts : List Text)
    → absolute ((b ∷ base) ++ p ∷ parts) ≡ (absolute (b ∷ base) ++ slash) ++ join b'/' (p ∷ parts)
unfolding absolute
absolute-append b p base parts =
    ap (λ s. b'/' ∷ s)
      (sym (join-append b'/' b p base parts)
        ∙ sym (append_assoc (join b'/' (b ∷ base)) slash (join b'/' (p ∷ parts))))

pub is_below-absolute :
    (b : Text) (base parts : List Text)
    → is_below (absolute ((b ∷ base) ++ parts)) (absolute (b ∷ base)) ≡ true
is_below-absolute b base [] = rw (append-nil, =ₜ_refl (absolute (b ∷ base)))
is_below-absolute b base (p ∷ parts) =
    let within : has_prefix (absolute ((b ∷ base) ++ p ∷ parts)) (absolute (b ∷ base) ++ slash)
        ≡ true =
      rw (absolute-append b p base parts)
        (has_prefix_append (absolute (b ∷ base) ++ slash) (join b'/' (p ∷ parts))) in
    ground arith

module _ (r : Root) (s : IsSound r) where
  -- A cleaned virtual path has its file below the base: the containment test never refuses it.
  pub real_from_virtual-absolute :
      (parts : List Text)
      → All IsPlain parts
      → real_from_virtual r (absolute parts) ≡ some (absolute (base_of s ++ parts))
  unfolding real_from_virtual
  real_from_virtual-absolute parts h = rw (
    s.base_parts,
    join_paths-absolute s.first s.rest parts s.plain h,
    clean-absolute (base_of s ++ parts) (All-append-IsPlain (base_of s) parts s.plain h),
    is_below-absolute s.first s.rest parts,
  )

abbrev Plain : Text → Type 0
Plain v = (parts : List Text) × (v ≡ absolute parts) × All IsPlain parts

abbrev AllSome : Option Text → Type 0
AllSome none = Unit
AllSome (some v) = Plain v

mounted-Plain :
    (f : Text → Text) (o : Option Text) → ((v : Text) → Plain (f v)) → AllSome (mounted f o)
mounted-Plain f none h = tt
mounted-Plain f (some v) h = h v

allowed-Plain : (b : Bool) (o : Option Text) → AllSome o → AllSome (if b then o else none)
allowed-Plain true o h = h
allowed-Plain false o h = tt

first_mount-Plain :
    (a b : Option Text) (v : Text) → AllSome a → AllSome b → Plain v → Plain (first_mount a b v)
first_mount-Plain (some x) b v h k p = h
first_mount-Plain none (some x) v h k p = k
first_mount-Plain none none v h k p = p

mount_virtual-Plain :
    (r : Root) (user : User) (home virtual : Text)
    → Plain virtual
    → Plain (mount_virtual r user home virtual)
unfolding mount_virtual
mount_virtual-Plain r user home virtual h =
    first_mount-Plain _ _ virtual
      (allowed-Plain user.permissions.public _
        (mounted-Plain (public_target r) _ (λ v. clean_virtual-IsPlain _)))
      (allowed-Plain user.permissions.dropbox _
        (mounted-Plain (dropbox_target r user) _ (λ v. clean_virtual-IsPlain _)))
      h

virtual_of-Plain : (cwd requested : Text) → Plain (virtual_of cwd requested)
unfolding virtual_of
virtual_of-Plain cwd given =
    let requested = if is_empty given then cwd else given in
    elim (Bool-cases (has_prefix requested slash)) [
      | inl e ↦ rw e (clean_virtual-IsPlain requested)
      | inr e ↦ rw e (clean_virtual-IsPlain _)
    ]

-- The virtual path is in the home of the user, or the home is the whole tree.
abbrev pub in_home : User → Text → Bool
in_home user virtual =
    clean_virtual user.home =ₜ slash || is_below virtual (clean_virtual user.home)

module _ (r : Root) (s : IsSound r) (glob : Text → Text → Option Bool) where
  -- A request is answered exactly if its virtual path lies in the user's home and the path that the mounts make of
  -- it is not ignored; the answer is then the virtual path and a path below the base: the base's parts, and
  -- behind them parts none of which is empty, "." or "..".
  pub resolve_exact :
      (user : User) (cwd requested : Text)
      → (parts : List Text) × (mount_virtual r user
            (clean_virtual user.home)
            (virtual_of cwd requested)
          ≡ absolute parts)
        × All IsPlain parts
        × (resolve r glob user cwd requested ≡ (
            if in_home user (virtual_of cwd requested)
              && not (is_ignored_virtual r glob (absolute parts))
            then some (absolute (base_of s ++ parts), virtual_of cwd requested)
            else none))
  unfolding resolve
  resolve_exact user cwd requested =
      let virtual = virtual_of cwd requested in
      let (parts, same, plain) =
        mount_virtual-Plain r user (clean_virtual user.home) virtual
          (virtual_of-Plain cwd requested) in
      (parts, same, plain, rw (same, real_from_virtual-absolute r s parts plain) (ground arith))

  -- A request of an admin is answered exactly if its cleaned virtual path is not ignored; the answer is then
  -- that path and a path below the base: the base's parts, and behind them parts none of which is empty,
  -- "." or "..".
  pub resolve_admin_exact :
      (given : Text)
      → (parts : List Text) × (clean_virtual given ≡ absolute parts)
        × All IsPlain parts
        × (resolve_admin r glob given ≡ (
            if is_ignored_virtual r glob (absolute parts)
            then none
            else some (absolute (base_of s ++ parts), absolute parts)))
  unfolding resolve_admin
  resolve_admin_exact given =
      let (parts, same, plain) = clean_virtual-IsPlain given in
      (parts, same, plain, rw (same, real_from_virtual-absolute r s parts plain) (ground arith))
