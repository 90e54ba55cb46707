-- ===== src/Share/Downloads.antt =====
-- The limit of a link's downloads is never passed, counting those that still run.
use macftpd.Prelude.{
  ◌≡◌, Bool, Option, none, some, List, [], ◌∷◌, arith, Option-cases, Bool-cases, inl, inr,
}
use macftpd.Text.{Text, text_eq}
use macftpd.Clock.{Time}
use macftpd.Auth.Password.{Crypto}
use macftpd.Share.{
  CreateRequest, Store, active_of, reserve_download, finish_download, set_url_path, delete,
}
use macftpd.Share.Tokens.{Digest, create, is_bad_kind, fresh_id, new_link, password_hash_of}
use macftpd.Share.Bounds.{
  Within-le, Within-zero, put_link-IsWithin, save-IsWithin, reserve-IsWithin, finish-IsWithin,
  set_url_path-IsWithin, delete-IsWithin, IsWithin,
}

-- What is done with the links, with what the clock, the disk and the random source give.
pub data Op : Type 0 where
  reserve_op : Time → Text → Op
  finish_op : Bool → Time → Text → Bool → Op
  set_url_op : Bool → Text → Text → Op
  delete_op : Bool → Text → Op
  create_op : Bool → Time → List Text → Option Text → Option Text → CreateRequest → Op

module _ (c : Crypto) (d : Digest) where
  unfoldable pub apply : Op → Store → Store
  apply (reserve_op now i) s = (reserve_download now i s).1
  apply (finish_op saved now i completed) s = (finish_download saved now i completed s).1
  apply (set_url_op saved i url) s = (set_url_path saved i url s).1
  apply (delete_op saved i) s = (delete saved i s).1
  apply (create_op saved now ids token salt req) s = (create c d saved now ids token salt req s).1

  unfoldable pub run : List Op → Store → Store
  run [] s = s
  run (op ∷ ops) s = run ops (apply op s)

  -- An identifier that is drawn for a new link has no download running, as one might of a deleted link
  -- that had the same identifier.
  abbrev pub IsFresh : Store → Op → Type 0
  IsFresh s (create_op saved now ids token salt req) =
      (i : Text) → fresh_id s.links ids ≡ some i → active_of i s ≡ 0
  IsFresh s op = Unit

  abbrev pub AreFresh : Store → List Op → Type 0
  AreFresh s [] = Unit
  AreFresh s (op ∷ ops) = IsFresh s op × AreFresh (apply op s) ops

  create-IsWithin :
      (saved : Bool) (now : Time) (ids : List Text) (token salt : Option Text) (req : CreateRequest)
      (s : Store)
      → ((i : Text) → fresh_id s.links ids ≡ some i → active_of i s ≡ 0)
      → IsWithin s
      → IsWithin (create c d saved now ids token salt req s).1
  unfolding create
  create-IsWithin saved now [] token salt req s h w = ground arith
  create-IsWithin saved now (id ∷ ids) none salt req s h w = ground arith
  create-IsWithin saved now (id ∷ ids) (some t) salt req s h w =
      elim (Bool-cases (is_bad_kind req.kind)) [
        | inl e ↦ rw e w
        | inr e ↦ elim (Option-cases (password_hash_of c d salt req.password)) [
          | inl no_hash ↦ rw (e, no_hash) w
          | inr (hash, hashed) ↦ elim (Option-cases (fresh_id s.links (id ∷ ids))) [
            | inl taken ↦ rw (e, hashed, taken) w
            | inr (i, free) ↦
                rw (e, hashed, free)
                  (save-IsWithin saved _ _ (
                    put_link-IsWithin i (new_link c d now req i t hash) s w (
                      unfold new_link in
                      rw (h i free) (
                        Within-le req.max_downloads _ 0 (omega arith)
                          (Within-zero req.max_downloads)))))
          ]
        ]
      ]

  apply-IsWithin : (op : Op) (s : Store) → IsFresh s op → IsWithin s → IsWithin (apply op s)
  unfolding apply
  apply-IsWithin (reserve_op now i) s f w = reserve-IsWithin now i s w
  apply-IsWithin (finish_op saved now i completed) s f w = finish-IsWithin saved now i completed s w
  apply-IsWithin (set_url_op saved i url) s f w = set_url_path-IsWithin saved i url s w
  apply-IsWithin (delete_op saved i) s f w = delete-IsWithin saved i s w
  apply-IsWithin (create_op saved now ids token salt req) s f w =
      create-IsWithin saved now ids token salt req s f w

  -- From a store in which the downloads of each link, finished or running, keep to its limit, they do so after any
  -- operations: reservations, ends of downloads, changes, deletions and creations under identifiers that
  -- have no download running.
  pub downloads-IsWithin :
      (ops : List Op) (s : Store) → AreFresh s ops → IsWithin s → IsWithin (run ops s)
  unfolding run
  downloads-IsWithin [] s f w = w
  downloads-IsWithin (op ∷ ops) s f w =
      downloads-IsWithin ops (apply op s) f.1 (apply-IsWithin op s f.0 w)
