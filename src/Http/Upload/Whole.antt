-- ===== src/Http/Upload/Whole.antt =====
-- A file that is uploaded in chunks.
use macftpd.Prelude.{ℕ, ◌≡◌, Bool, true, false, Option, none, some, List, [], ◌∷◌, ◌++◌, length}
use macftpd.Clock.{Time}
use macftpd.Text.{Text}
use macftpd.Storage.{Root}
use macftpd.Storage.Os.{Os, IsOs, M}
use macftpd.Storage.Copy.{CopyOptions, CopyResult}
use macftpd.Storage.Retain.{Notes, Stamp}
use macftpd.Share.Tokens.{Digest}
use macftpd.Http.Upload.{
  Copying, Reply, refused, refused_at, received, Finish, receive, finish_upload,
}

-- the bytes of some chunks, each with what happens before its request
abbrev pub contents : {S : Type 0} → List (Text × (S → S)) → Text
contents [] = []
contents ((chunk, meanwhile) ∷ chunks) = chunk ++ contents chunks

module _ {S : Type 0} (os : Os S) (io : Copying) (finish : Finish os) (part : Text)
    (total : ℕ) where
  abbrev pub after_reply : (S → S × Option ℕ) → List (Text × (S → S)) → S × Reply → S × Option ℕ
  after_reply rest chunks (s, received n false) = rest s
  after_reply rest [] (s, received n true) = (s, some n)
  after_reply rest (c ∷ chunks) (s, received n true) = (s, none)
  after_reply rest chunks (s, refused status) = (s, none)
  after_reply rest chunks (s, refused_at status n) = (s, none)

  -- A client that sends the chunks in turn, each from where the last one ended, until a request is refused
  -- or the file is complete: how much was received then.
  unfoldable pub send : Text → List (Text × (S → S)) → S → S × Option ℕ
  send before [] s = (s, none)
  send before ((chunk, meanwhile) ∷ chunks) s =
      after_reply (send (before ++ chunk) chunks) chunks
        (receive os io finish part (length before) total chunk (meanwhile s))

module _ {S O : Type 0} (os : Os S) (l : IsOs os O) (io : Copying) (finish : Finish os)
    (part : Text) (total : ℕ) where
  -- the whole file was handed on
  abbrev pub Handed : Text → S × Option ℕ → Type 0
  Handed whole (s', none) = Unit
  Handed whole (s', some n) =
      (n ≡ total)
      × (n ≡ length whole)
      × ((u : S) × (l.at part u ≡ some (l.file whole)) × (finish u ≡ (s', none)))

  abbrev pub Leaves : Text × (S → S) → Type 0
  Leaves (chunk, meanwhile) = (t : S) → l.at part (meanwhile t) ≡ l.at part t

module _ {S O : Type 0} (os : Os S) (l : IsOs os O) (notes : Notes) (d : Digest)
    (glob : Text → Text → Option Bool) (r : Root)
    (copy_dir : Text → Text → CopyOptions → M S CopyResult) (stamp : Stamp) (now : Time) where
  -- what stands at the destination is what was in the part, if nothing failed
  abbrev Placed : Bool → Text → Text → S → S × Option ℕ → Type 0
  Placed allow_overwrite part dest u (s', none) =
      (l.at dest s' ≡ l.at part u) × (allow_overwrite ≡ false → l.at dest u ≡ none)
  Placed allow_overwrite part dest u (s', some status) = Unit

  -- without the leave to overwrite, nothing was at the destination when the whole part was put there
  abbrev pub Free : Bool → Text → Text → Text → Text → S → Type 0
  Free allow_overwrite actor part dest virtual s' =
      allow_overwrite ≡ false
      → (u : S) × (finish_upload os notes d glob r copy_dir stamp now allow_overwrite actor part
            dest virtual u
          ≡ (s', none))
        × (l.at dest u ≡ none)

  abbrev pub Uploaded : Bool → Text → Text → Text → Text → Text → ℕ → S × Option ℕ → Type 0
  Uploaded allow_overwrite actor part dest virtual whole total (s', none) = Unit
  Uploaded allow_overwrite actor part dest virtual whole total (s', some n) =
      (l.at dest s' ≡ some (l.file whole))
      × (n ≡ total)
      × (length whole ≡ total)
      × Free allow_overwrite actor part dest virtual s'
