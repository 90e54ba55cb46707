-- ===== src/Ftp/Files/Confined.antt =====
-- Which paths a command about files hands to the file system.
pub mod Commands
pub mod Handlers
use macftpd.Prelude.{
  ℕ, ◌≡◌, refl, Bool, true, false, ◌&&◌, ◌||◌, not, Option, none, some, List, [], ◌∷◌, ◌++◌, arith,
  if◌then◌else◌, ◌∙◌, ap, sym, Option-cases, Bool-cases, inl, inr, subst, All,
}
use macftpd.Text.{Text, codes, is_empty, ◌=ₜ◌}
use macftpd.Text.Laws.{=ₜ_refl}
use macftpd.Auth.{User}
use macftpd.Storage.{Root, resolve, is_below, is_ignored_virtual, virtual_of, is_public_real}
use macftpd.Status
use macftpd.Auth.{Permission}
use macftpd.Auth
use macftpd.Storage.Containment.{
  IsSound, base_of, All-append-IsPlain, resolve_exact, in_home, is_below-absolute,
}
use macftpd.Path.{absolute, clean}
use macftpd.Path.Laws.{IsPlain, clean-absolute}
use macftpd.Ftp.Command.{Command, is_monitor_virtual}
use macftpd.Ftp.Command
use macftpd.Ftp.World.{
  Env, Session, Server, World, update_status, log_activity, add_activity, emit, purged,
}
use macftpd.Ftp.Access.{with_perm, require_auth, require_auth_perm}
use macftpd.Ftp.Files.{
  Disk, Info, file, change_dir, delete, rmdir, mkdir, rename_from_path, rename_to_path, size, mdtm,
  resolved, discarded, discard_at, purge, set_disk, log,
}

-- a disk that writes down the paths that its operations are to change
abbrev pub note :
    {S : Type 0} → List Text → S × Option Text → List Text → (S × List Text) × Option Text
note paths (s, e) seen = ((s, seen ++ paths), e)

abbrev pub recording : {S : Type 0} → Disk S → Disk (S × List Text)
recording d = record {
  stat = λ p s. d.stat p s.0;
  make_dirs = λ p s. note (p ∷ []) (d.make_dirs p s.0) s.1;
  remove_file = λ p s. note (p ∷ []) (d.remove_file p s.0) s.1;
  remove_tree = λ p s. note (p ∷ []) (d.remove_tree p s.0) s.1;
  trash = λ p v user s. note (p ∷ []) (d.trash p v user s.0) s.1;
  move = λ p q s. note (p ∷ q ∷ []) (d.move p q s.0) s.1;
}

-- A path in clean form that is a directory or below it: the file system meets no step to a parent in it.
unfoldable pub is_inside : Text → Text → Bool
is_inside p base = is_below p base && clean p =ₜ p

unfoldable pub all_inside : Text → List Text → Bool
all_inside base [] = true
all_inside base (p ∷ paths) = is_inside p base && all_inside base paths

pub all_inside-append :
    (base : Text) (ps qs : List Text)
    → all_inside base (ps ++ qs) ≡ (all_inside base ps && all_inside base qs)
unfolding all_inside
all_inside-append base [] qs = refl
all_inside-append base (p ∷ ps) qs = rw (all_inside-append base ps qs) (ground arith)

pub all_inside-one : (base p : Text) → is_inside p base ≡ true → all_inside base (p ∷ []) ≡ true
unfolding all_inside
all_inside-one base p h = ground arith

pub all_inside-two :
    (base p q : Text)
    → is_inside p base ≡ true
    → is_inside q base ≡ true
    → all_inside base (p ∷ q ∷ []) ≡ true
unfolding all_inside
all_inside-two base p q h k = ground arith

-- the paths that were handed on, and the source of a move that is under way
abbrev pub confined : {S : Type 0} → World (S × List Text) → Bool
confined w =
    all_inside w.server.root.base w.disk.1
    && (is_empty w.session.rename_from || is_inside w.session.rename_from w.server.root.base)

inside_of_parts :
    (b : Text) (base parts : List Text)
    → All IsPlain (b ∷ base)
    → All IsPlain parts
    → is_inside (absolute ((b ∷ base) ++ parts)) (absolute (b ∷ base)) ≡ true
unfolding is_inside
inside_of_parts b base parts h k =
    rw
      (
        is_below-absolute b base parts,
        clean-absolute ((b ∷ base) ++ parts) (All-append-IsPlain (b ∷ base) parts h k),
        =ₜ_refl (absolute ((b ∷ base) ++ parts)),
      )
      refl

answered-is_inside :
    (b : Bool) (x y real virtual base : Text)
    → if◌then◌else◌ {A = Option (Text × Text)} b (some (x, y)) none ≡ some (real, virtual)
    → is_inside x base ≡ true
    → is_inside real base ≡ true
answered-is_inside true x y real virtual base e h = ground arith
answered-is_inside false x y real virtual base e h = absurd (ground arith)

pub resolve-is_inside :
    (r : Root)
    → IsSound r
    → (glob : Text → Text → Option Bool) (user : User) (cwd requested : Text) (real virtual : Text)
    → resolve r glob user cwd requested ≡ some (real, virtual)
    → is_inside real r.base ≡ true
resolve-is_inside r s glob user cwd requested real virtual e =
    let (parts, same, plain, answer) = resolve_exact r s glob user cwd requested in
    answered-is_inside _ (absolute (base_of s ++ parts)) _ real virtual r.base (sym answer ∙ e) (
      subst (λ b. is_inside (absolute (base_of s ++ parts)) b ≡ true) (sym s.base_parts)
        (inside_of_parts s.first s.rest parts s.plain plain))

module _ {S : Type 0} (glob : Text → Text → Option Bool) (disk : Disk S) (env : Env) where
  pub confined-log_activity :
      (action outcome path dest : Text) (bytes : ℕ) (detail : Text) (w : World (S × List Text))
      → confined (log_activity env action outcome path dest bytes detail w) ≡ confined w
  unfolding log_activity add_activity
  confined-log_activity action outcome path dest bytes detail w = ground arith

  pub confined-update_status :
      (f : Status.Session → Status.Session) (w : World (S × List Text))
      → confined (update_status env f w) ≡ confined w
  unfolding update_status
  confined-update_status f w = ground arith

  pub confined-require_auth_perm :
      (r : Permission) (w : World (S × List Text)) → confined (require_auth_perm r w).0 ≡ confined w
  unfolding require_auth_perm require_auth
  confined-require_auth_perm r w = ground arith

  pub confined-note :
      (ps : List Text) (r : S × Option Text) (w : World (S × List Text))
      → confined w ≡ true
      → all_inside w.server.root.base ps ≡ true
      → confined (set_disk glob (recording disk) env (note ps r w.disk.1).0 w) ≡ true
  confined-note ps r w g h = rw (all_inside-append w.server.root.base w.disk.1 ps) (ground arith)

  pub confined-purge :
      (public : Bool) (virtual : Text) (w : World (S × List Text))
      → confined (purge glob (recording disk) env public virtual w) ≡ confined w
  confined-purge public virtual w = ground arith

  pub confined-discarded :
      (folder : Bool) (arg detail : Text) (hook : World (S × List Text) → World (S × List Text))
      → ((v : World (S × List Text)) → confined (hook v) ≡ confined v)
      → (d : S × List Text) (e : Option Text) (w : World (S × List Text))
      → confined (set_disk glob (recording disk) env d w) ≡ true
      → confined (discarded glob (recording disk) env folder arg detail hook (d, e) w) ≡ true
  confined-discarded folder arg detail hook keeps d none w g =
      confined-log_activity _ _ arg _ _ detail (hook (set_disk glob (recording disk) env d w))
      ∙ keeps (set_disk glob (recording disk) env d w)
      ∙ g
  confined-discarded folder arg detail hook keeps d (some error) w g =
      confined-log_activity _ _ arg _ _ error (set_disk glob (recording disk) env d w) ∙ g
