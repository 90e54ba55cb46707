-- ===== src/Ftp/Upload/Exact.antt =====
-- What an upload leaves at its destination.
use macftpd.Prelude.{
  ℕ, ◌≡◌, refl, Bool, true, false, ◌&&◌, ◌||◌, Option, none, some, List, [], ◌++◌, ◌⊎◌, inl, inr,
  All, arith, length, take, ◌-◌, ltb, Bool-cases, ◌∙◌, sym, ap, subst, if◌then◌else◌,
}
use macftpd.Text.{Text}
use macftpd.Path.{dir_path}
use macftpd.Storage.{Root}
use macftpd.Storage.Os.{
  Os, IsOs, Apart, M, Result, ok, err, not_exist, Info, M-cases, bound, stat, mkdir_all, remove,
}
use macftpd.Storage.Os.Frame.{Apart-sym, mkdir_all_frame, remove_frame}
use macftpd.Storage.Os.Moves.{in_root_cases}
use macftpd.Storage.Copy.{CopyOptions, CopyResult}
use macftpd.Storage.Retain.{Notes, Stamp}
use macftpd.Storage.Replace.Safety.{Shown, stat_Shown}
use macftpd.Ftp.Upload.{
  Outcome, stopped, no_data, failed, stored, Incoming, from_base, sought, base_of, zeros,
  from_current, read_current, cleaned, with_staged, with_offset, with_seen, store_at,
}
use macftpd.Ftp.Upload.Placed.{
  Staging, Destined, After, Staged, transfer-After, staged_upload-Staged,
}

module _ {S O : Type 0} (os : Os S) (l : IsOs os O) (notes : Notes) (r : Root)
    (copy_dir : Text → Text → CopyOptions → M S CopyResult) (stamp : Stamp)
    (actor real : Text) where
  -- what stands before the bytes that come: nothing, or what is kept of the file that was there
  abbrev pub BaseOf : Bool → Bool → ℕ → Option O → Text → Type 0
  BaseOf appending restarting offset o base =
      (((appending || restarting) ≡ false) × (base ≡ []))
      ⊎ ((current : Text) × ((appending || restarting) ≡ true)
          × (o ≡ some (l.file current))
          × (base ≡ (
              if restarting
              then take offset current ++ zeros (offset - length current)
              else current)))
      ⊎ ((o ≡ none) × (base ≡ []))

  abbrev pub Base : Bool → Bool → ℕ → S → Text → Type 0
  Base appending restarting offset s = BaseOf appending restarting offset (l.at real s)

  abbrev pub Uploaded : Bool → Bool → ℕ → Text → S → S × Outcome → Type 0
  Uploaded appending restarting offset bytes s (s', stored n) =
      (n ≡ length bytes)
      × ((base : Text) × Base appending restarting offset s base
          × (l.at real s' ≡ some (l.file (base ++ bytes))))
  Uploaded appending restarting offset bytes s (s', stopped code text) = l.at real s' ≡ l.at real s
  Uploaded appending restarting offset bytes s (s', no_data) = l.at real s' ≡ l.at real s
  Uploaded appending restarting offset bytes s (s', failed code text n) = l.at real s' ≡ l.at real s

  After-Uploaded :
      (appending restarting : Bool) (offset : ℕ) (base bytes : Text) (s t : S) (x : S × Outcome)
      → l.at real t ≡ l.at real s
      → Base appending restarting offset s base
      → After os l notes r copy_dir stamp actor real
          (some (l.file (base ++ bytes)))
          (length bytes)
          t
          x
      → Uploaded appending restarting offset bytes s x
  After-Uploaded appending restarting offset base bytes s t (s', stored m) same kept (size, here) =
      (size, (base, kept, here))
  After-Uploaded appending restarting offset base bytes s t (s', stopped code text) same kept h =
      h ∙ same
  After-Uploaded appending restarting offset base bytes s t (s', no_data) same kept h = h ∙ same
  After-Uploaded appending restarting offset base bytes s t (s', failed code text m) same kept h =
      h ∙ same

  from_base-Uploaded :
      (path virtual : Text) (incoming : Incoming) (appending restarting : Bool) (offset : ℕ)
      (base : Text) (s t : S)
      → Destined os l notes r copy_dir stamp actor real
      → Staging os l notes r copy_dir stamp actor real path
      → l.at real t ≡ l.at real s
      → Base appending restarting offset s base
      → Uploaded appending restarting offset incoming.bytes s
          (from_base os notes r copy_dir stamp path real virtual actor incoming base t)
  from_base-Uploaded path virtual incoming appending restarting offset base s t dest staging same
        kept =
      elim (Bool-cases incoming.opens) [
        | inr e ↦ rw e same
        | inl e ↦ rw e (
            After-Uploaded appending restarting offset base incoming.bytes s t _ same kept (
              transfer-After os l notes r copy_dir stamp actor real incoming.close_fails path
                virtual base incoming.bytes incoming.breaks t dest staging))
      ]

  sought-Uploaded :
      (path virtual : Text) (incoming : Incoming) (appending restarting : Bool) (offset : ℕ)
      (base : Text) (s t : S)
      → Destined os l notes r copy_dir stamp actor real
      → Staging os l notes r copy_dir stamp actor real path
      → l.at real t ≡ l.at real s
      → Base appending restarting offset s base
      → Uploaded appending restarting offset incoming.bytes s (
          sought os notes r copy_dir stamp path real virtual actor incoming appending restarting
            base t)
  sought-Uploaded path virtual incoming appending restarting offset base s t dest staging same
        kept =
      elim (Bool-cases (appending && incoming.seek_fails)) [
        | inl e ↦ rw e same
        | inr e ↦ elim (Bool-cases (restarting && incoming.seek_fails)) [
          | inl f ↦ rw (e, f) same
          | inr f ↦ elim (Bool-cases (restarting && incoming.truncate_fails)) [
            | inl g ↦ rw (e, f, g) same
            | inr g ↦
                rw (e, f, g)
                  (from_base-Uploaded path virtual incoming appending restarting offset base s t
                    dest staging same kept)
          ]
        ]
      ]

  read-Uploaded :
      (path virtual : Text) (incoming : Incoming) (appending restarting : Bool)
      (kept : (appending || restarting) ≡ true) (offset : ℕ) (s t : S) (res : Result Text)
      → Destined os l notes r copy_dir stamp actor real
      → Staging os l notes r copy_dir stamp actor real path
      → l.at real t ≡ l.at real s
      → os.read_file real t ≡ res
      → Uploaded appending restarting offset incoming.bytes s (
          from_current os notes r copy_dir stamp path real virtual actor incoming appending
            restarting offset
            (t, res))
  read-Uploaded path virtual incoming appending restarting kept offset s t (err f) dest staging same
        e =
      same
  read-Uploaded path virtual incoming appending restarting kept offset s t (ok current) dest staging
        same e =
      sought-Uploaded path virtual incoming appending restarting offset
        (base_of os notes r copy_dir stamp restarting offset current) s t dest staging same
        (inr (inl (current, kept, sym same ∙ l.read_ok real current t e, refl)))

  current-Uploaded :
      (path virtual : Text) (incoming : Incoming) (appending restarting : Bool)
      (kept : (appending || restarting) ≡ true) (offset : ℕ) (s t : S)
      → Destined os l notes r copy_dir stamp actor real
      → Staging os l notes r copy_dir stamp actor real path
      → l.at real t ≡ l.at real s
      → Uploaded appending restarting offset incoming.bytes s (
          from_current os notes r copy_dir stamp path real virtual actor incoming appending
            restarting offset
            (read_current os notes r copy_dir stamp real t))
  current-Uploaded path virtual incoming appending restarting kept offset s t dest staging same =
      elim (in_root_cases os r real t) [
        | inr (f, e) ↦ rw e same
        | inl e ↦
            subst
              (λ x. Uploaded appending restarting offset incoming.bytes s (
                from_current os notes r copy_dir stamp path real virtual actor incoming appending
                  restarting offset x))
              (sym (ap (bound (λ p s. (s, os.read_file p s))) (e ∙ ap (λ p. (t, ok p)) dest.tidy)))
              (read-Uploaded path virtual incoming appending restarting kept offset s t
                (os.read_file real t) dest staging same refl)
      ]

  cleaned-Uploaded :
      (path : Text) (appending restarting : Bool) (offset : ℕ) (bytes : Text) (s : S)
      (x : S × Outcome)
      → Staging os l notes r copy_dir stamp actor real path
      → Uploaded appending restarting offset bytes s x
      → Uploaded appending restarting offset bytes s (cleaned os notes r copy_dir stamp path x)
  cleaned-Uploaded path appending restarting offset bytes s (t, outcome) staging h = kept outcome h
    where
      same : l.at real (remove os r path t).0 ≡ l.at real t
      same =
          remove_frame os l r path real t
            (subst (λ p. Apart real p) (sym staging.tidy) (Apart-sym path real staging.apart))

      kept :
          (outcome : Outcome)
          → Uploaded appending restarting offset bytes s (t, outcome)
          → Uploaded appending restarting offset bytes s ((remove os r path t).0, outcome)
      kept (stored n) (size, (base, from, here)) = (size, (base, from, same ∙ here))
      kept (stopped code text) h = same ∙ h
      kept no_data h = same ∙ h
      kept (failed code text n) h = same ∙ h

  Staged-Uploaded :
      (virtual : Text) (incoming : Incoming) (appending restarting : Bool) (offset : ℕ)
      (keep : Bool) (s : S) (x : S × Result Text)
      → Destined os l notes r copy_dir stamp actor real
      → (((keep ≡ true) × ((appending || restarting) ≡ true))
          ⊎ ((keep ≡ false) × Base appending restarting offset s []))
      → Staged os l notes r copy_dir stamp actor real s x
      → Uploaded appending restarting offset incoming.bytes s (
          with_staged os notes r copy_dir stamp real virtual actor incoming appending restarting
            offset keep x)
  Staged-Uploaded virtual incoming appending restarting offset keep s (t, err e) dest base same =
      same
  Staged-Uploaded virtual incoming appending restarting offset true s (t, ok path) dest
        (inl (e, kept)) (staging, same) =
      cleaned-Uploaded path appending restarting offset incoming.bytes s _ staging (
        current-Uploaded path virtual incoming appending restarting kept offset s t dest staging
          same)
  Staged-Uploaded virtual incoming appending restarting offset true s (t, ok path) dest
        (inr (e, base)) (staging, same) =
      absurd (ground arith)
  Staged-Uploaded virtual incoming appending restarting offset false s (t, ok path) dest
        (inl (e, kept)) (staging, same) =
      absurd (ground arith)
  Staged-Uploaded virtual incoming appending restarting offset false s (t, ok path) dest
        (inr (e, base)) (staging, same) =
      cleaned-Uploaded path appending restarting offset incoming.bytes s _ staging (
        sought-Uploaded path virtual incoming appending restarting offset [] s t dest staging same
          base)

  offset-Uploaded :
      (paths : List Text) (virtual : Text) (incoming : Incoming) (appending restarting : Bool)
      (offset : ℕ) (size : Option ℕ) (s : S)
      → Destined os l notes r copy_dir stamp actor real
      → All (Staging os l notes r copy_dir stamp actor real) paths
      → (size ≡ none → l.at real s ≡ none)
      → Uploaded appending restarting offset incoming.bytes s (
          with_offset os notes r copy_dir stamp paths real virtual actor incoming appending
            restarting offset size s)
  offset-Uploaded paths virtual incoming appending restarting offset none s dest each missing =
      elim (Bool-cases (restarting && ltb 0 offset)) [
        | inl e ↦ rw e refl
        | inr e ↦ rw e (
            Staged-Uploaded virtual incoming appending restarting offset false s _ dest
              (inr (refl, inr (inr (missing refl, refl))))
              (staged_upload-Staged os l notes r copy_dir stamp actor real paths s s dest each
                refl))
      ]
  offset-Uploaded paths virtual incoming appending restarting offset (some size) s dest each
        missing =
      elim (Bool-cases (restarting && ltb 0 offset && ltb size offset)) [
        | inl e ↦ rw e refl
        | inr e ↦ rw e (
            Staged-Uploaded virtual incoming appending restarting offset (appending || restarting) s
              _ dest (asked (Bool-cases (appending || restarting)))
              (staged_upload-Staged os l notes r copy_dir stamp actor real paths s s dest each
                refl))
      ]
    where
      asked :
          ((appending || restarting) ≡ true) ⊎ ((appending || restarting) ≡ false)
          → (((appending || restarting) ≡ true) × ((appending || restarting) ≡ true))
            ⊎ (((appending || restarting) ≡ false) × Base appending restarting offset s [])
      asked (inl e) = inl (e, e)
      asked (inr e) = inr (e, inl (e, refl))

  seen-Uploaded :
      (paths : List Text) (virtual : Text) (incoming : Incoming) (appending restarting : Bool)
      (offset : ℕ) (seen : Result Info) (s : S)
      → Destined os l notes r copy_dir stamp actor real
      → All (Staging os l notes r copy_dir stamp actor real) paths
      → Shown os l notes r copy_dir real s seen
      → Uploaded appending restarting offset incoming.bytes s (
          with_seen os notes r copy_dir stamp paths real virtual actor incoming appending restarting
            offset seen s)
  seen-Uploaded paths virtual incoming appending restarting offset (err not_exist) s dest each
        shown =
      offset-Uploaded paths virtual incoming appending restarting offset none s dest each
        (λ e. shown)
  seen-Uploaded paths virtual incoming appending restarting offset (err f) s dest each shown = refl
  seen-Uploaded paths virtual incoming appending restarting offset (ok info) s dest each shown =
      elim (Bool-cases info.is_dir) [
        | inl e ↦ rw e refl
        | inr e ↦ rw e (
            offset-Uploaded paths virtual incoming appending restarting offset (some info.size) s
              dest each (λ e. absurd (cc)))
      ]

  from_earlier :
      (appending restarting : Bool) (offset : ℕ) (bytes : Text) (s t : S) (x : S × Outcome)
      → l.at real t ≡ l.at real s
      → Uploaded appending restarting offset bytes t x
      → Uploaded appending restarting offset bytes s x
  from_earlier appending restarting offset bytes s t (s', stored n) same
        (size, (base, from, here)) =
      (size, (base, subst (λ o. BaseOf appending restarting offset o base) same from, here))
  from_earlier appending restarting offset bytes s t (s', stopped code text) same h = h ∙ same
  from_earlier appending restarting offset bytes s t (s', no_data) same h = h ∙ same
  from_earlier appending restarting offset bytes s t (s', failed code text m) same h = h ∙ same

  -- Whatever the calls of the file system do, an upload to a path in a root that can be opened ends in one of two
  -- ways, when the names tried for the staged file, the destination and the version that is kept lie apart. It is
  -- stored, with the count of the bytes that came, and the destination is a file with these bytes behind what was to be
  -- kept: nothing for a plain upload or if there was no file, all of the old file for APPE, the old file cut or filled
  -- up to the offset after REST. Or it is not stored, and the destination is as before.
  pub store_at-Uploaded :
      (paths : List Text) (virtual : Text) (incoming : Incoming) (appending restarting : Bool)
      (offset : ℕ) (s : S)
      → Destined os l notes r copy_dir stamp actor real
      → All (Staging os l notes r copy_dir stamp actor real) paths
      → Uploaded appending restarting offset incoming.bytes s (
          store_at os notes r copy_dir stamp paths real virtual actor incoming appending restarting
            offset s)
  unfolding store_at
  store_at-Uploaded paths virtual incoming appending restarting offset s dest each =
      elim (M-cases (mkdir_all os r (dir_path real) s)) [
        | inr (u, f, e) ↦ rw e (same u (err f) e)
        | inl (u, a, e) ↦ rw e (
            from_earlier appending restarting offset incoming.bytes s u _ (same u (ok a) e) (
              seen-Uploaded paths virtual incoming appending restarting offset (stat os r real u).1
                u dest each (stat_Shown os l notes r copy_dir real u dest.tidy (dest.admitted u))))
      ]
    where
      same :
          (u : S) (x : Result (Unit {0}))
          → mkdir_all os r (dir_path real) s ≡ (u, x)
          → l.at real u ≡ l.at real s
      same u x e =
          ap (λ y. l.at real y.0) (sym e) ∙ mkdir_all_frame os l r (dir_path real) real s dest.above
