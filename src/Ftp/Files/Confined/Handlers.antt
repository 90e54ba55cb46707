-- ===== src/Ftp/Files/Confined/Handlers.antt =====
-- What each handler of a command about files does to the paths that are handed on.
use macftpd.Prelude.{
  ◌≡◌, refl, Bool, true, false, ◌&&◌, not, Option, none, some, List, [], ◌∷◌, arith, if◌then◌else◌,
  ◌∙◌, Bool-cases, inl, inr,
}
use macftpd.Text.{Text, codes, is_empty}
use macftpd.Storage.{is_public_real}
use macftpd.Ftp.Command.{is_monitor_virtual}
use macftpd.Ftp.World.{Env, World, set_session, reply}
use macftpd.Ftp.Files.{
  Disk, Info, discarded, discard_at, purge, set_disk, log, erased_detail, trashed_detail, change_to,
  entered, made, make_at, rename_from_at, moved, rename_to_at, size_at, time_at,
}
use macftpd.Ftp.Files.Confined.{
  recording, is_inside, all_inside-one, all_inside-two, confined, confined-log_activity,
  confined-update_status, confined-note, confined-purge, confined-discarded,
}

-- what an answer of `resolve` is
abbrev pub AnswersInside : Text → Option (Text × Text) → Type 0
AnswersInside base o = (real virtual : Text) → o ≡ some (real, virtual) → is_inside real base ≡ true

module _ {S : Type 0} (glob : Text → Text → Option Bool) (disk : Disk S) (env : Env) where
  confined-erased :
      (folder : Bool) (arg real : Text) (w : World (S × List Text))
      → is_inside real w.server.root.base ≡ true
      → confined w ≡ true
      → confined (
          discarded glob
            (recording disk)
            env
            folder
            arg
            (erased_detail glob (recording disk) env folder)
            (λ v. v)
            (if folder
              then (recording disk).remove_tree real w.disk
              else (recording disk).remove_file real w.disk)
            w)
        ≡ true
  confined-erased true arg real w h g =
      confined-discarded glob disk env true arg (erased_detail glob (recording disk) env true)
        (λ v. v) (λ v. refl) _ _ w
        (confined-note glob disk env (real ∷ []) (disk.remove_tree real w.disk.0) w g
          (all_inside-one w.server.root.base real h))
  confined-erased false arg real w h g =
      confined-discarded glob disk env false arg (erased_detail glob (recording disk) env false)
        (λ v. v) (λ v. refl) _ _ w
        (confined-note glob disk env (real ∷ []) (disk.remove_file real w.disk.0) w g
          (all_inside-one w.server.root.base real h))

  pub confined-discard_at :
      (folder : Bool) (arg : Text) (o : Option (Text × Text)) (w : World (S × List Text))
      → AnswersInside w.server.root.base o
      → confined w ≡ true
      → confined (discard_at glob (recording disk) env folder arg o w) ≡ true
  confined-discard_at folder arg none w h g = g
  confined-discard_at folder arg (some (real, virtual)) w h g =
      let below = h real virtual refl in
      elim (Bool-cases (is_public_real w.server.root real && not w.session.perms.admin)) [
        | inl refused ↦ rw refused g
        | inr passed ↦ rw passed (elim (Bool-cases (is_monitor_virtual virtual)) [
          | inl monitor ↦ rw monitor (confined-erased folder arg real w below g)
          | inr kept ↦ rw kept (
              confined-discarded glob disk env folder arg
                (trashed_detail glob (recording disk) env folder)
                (purge glob (recording disk) env (is_public_real w.server.root real) virtual)
                (confined-purge glob disk env (is_public_real w.server.root real) virtual) _ _ w
                (confined-note glob disk env (real ∷ [])
                  (disk.trash real virtual w.session.user.username w.disk.0) w g
                  (all_inside-one w.server.root.base real below)))
        ])
      ]

  confined-entered :
      (virtual : Text) (o : Option Info) (w : World (S × List Text))
      → confined w ≡ true
      → confined (entered glob (recording disk) env virtual o w) ≡ true
  confined-entered virtual none w g = g
  confined-entered virtual (some info) w g = elim (Bool-cases info.is_dir) [
    | inl folder ↦ rw folder (
        confined-update_status glob disk env _ (set_session (record w.session { cwd = virtual }) w)
        ∙ g)
    | inr plain ↦ rw plain g
  ]

  pub confined-change_to :
      (o : Option (Text × Text)) (w : World (S × List Text))
      → confined w ≡ true
      → confined (change_to glob (recording disk) env o w) ≡ true
  confined-change_to none w g = g
  confined-change_to (some (real, virtual)) w g =
      confined-entered virtual (disk.stat real w.disk.0) w g

  confined-made :
      (real virtual : Text) (d : S × List Text) (e : Option Text) (w : World (S × List Text))
      → confined (set_disk glob (recording disk) env d w) ≡ true
      → confined (made glob (recording disk) env real virtual (d, e) w) ≡ true
  confined-made real virtual d none w g =
      let public = is_public_real w.server.root real in
      let kept = set_disk glob (recording disk) env d w in
      confined-log_activity glob disk env _ _ _ _ _ _
        (purge glob (recording disk) env public virtual kept)
      ∙ confined-purge glob disk env public virtual kept
      ∙ g
  confined-made real virtual d (some error) w g =
      confined-log_activity glob disk env _ _ _ _ _ _ (set_disk glob (recording disk) env d w) ∙ g

  pub confined-make_at :
      (o : Option (Text × Text)) (w : World (S × List Text))
      → AnswersInside w.server.root.base o
      → confined w ≡ true
      → confined (make_at glob (recording disk) env o w) ≡ true
  confined-make_at none w h g = g
  confined-make_at (some (real, virtual)) w h g = confined-made real virtual _ _ w (
      confined-note glob disk env (real ∷ []) (disk.make_dirs real w.disk.0) w g
        (all_inside-one w.server.root.base real (h real virtual refl)))

  pub confined-rename_from_at :
      (o : Option (Text × Text)) (w : World (S × List Text))
      → AnswersInside w.server.root.base o
      → confined w ≡ true
      → confined (rename_from_at glob (recording disk) env o w) ≡ true
  confined-rename_from_at none w h g = g
  confined-rename_from_at (some (real, virtual)) w h g =
      let below = h real virtual refl in ground arith

  pub confined-size_at :
      (o : Option (Text × Text)) (w : World (S × List Text))
      → confined w ≡ true
      → confined (size_at glob (recording disk) env o w) ≡ true
  confined-size_at o w g = ground arith

  pub confined-time_at :
      (o : Option (Text × Text)) (w : World (S × List Text))
      → confined w ≡ true
      → confined (time_at glob (recording disk) env o w) ≡ true
  confined-time_at o w g = ground arith

  confined-forgotten :
      (w : World (S × List Text))
      → confined w ≡ true
      → confined (set_session (record w.session { rename_from = [] }) w) ≡ true
  confined-forgotten w g = ground arith

  confined-moved :
      (arg source : Text) (public : Bool) (virtual : Text) (d : S × List Text) (e : Option Text)
      (w : World (S × List Text))
      → confined (set_disk glob (recording disk) env d w) ≡ true
      → confined (moved glob (recording disk) env arg source public virtual (d, e) w) ≡ true
  confined-moved arg source public virtual d none w g =
      let kept = set_disk glob (recording disk) env d w in
      confined-forgotten
        (reply 250 (codes "Renamed") (
          log glob (recording disk) env (codes "move") (codes "ok") source arg (codes "FTP rename")
            (purge glob (recording disk) env public virtual kept)))
        (confined-log_activity glob disk env _ _ _ _ _ _
            (purge glob (recording disk) env public virtual kept)
          ∙ confined-purge glob disk env public virtual kept
          ∙ g)
  confined-moved arg source public virtual d (some error) w g =
      confined-forgotten
        (reply 550 (codes "Rename failed") (
          log glob (recording disk) env (codes "move") (codes "failed") source arg error
            (set_disk glob (recording disk) env d w)))
        (confined-log_activity glob disk env _ _ _ _ _ _ (set_disk glob (recording disk) env d w)
          ∙ g)

  pub confined-rename_to_at :
      (arg : Text) (o : Option (Text × Text)) (w : World (S × List Text))
      → AnswersInside w.server.root.base o
      → is_empty w.session.rename_from ≡ false
      → confined w ≡ true
      → confined (rename_to_at glob (recording disk) env arg o w) ≡ true
  confined-rename_to_at arg none w h f g = g
  confined-rename_to_at arg (some (real, virtual)) w h f g =
      let below = h real virtual refl in
      let source : is_inside w.session.rename_from w.server.root.base ≡ true = ground arith in
      elim (Bool-cases (is_public_real w.server.root real && not w.session.perms.admin)) [
        | inl refused ↦ rw refused g
        | inr passed ↦ rw passed (
            confined-moved arg w.session.rename_from _ virtual _ _ w (
              confined-note glob disk env (w.session.rename_from ∷ real ∷ [])
                (disk.move w.session.rename_from real w.disk.0) w g
                (all_inside-two w.server.root.base w.session.rename_from real source below)))
      ]
