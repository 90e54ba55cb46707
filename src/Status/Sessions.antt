-- ===== src/Status/Sessions.antt =====
-- Identifiers of sessions are never used twice, and a removed session stays removed.
use macftpd.Prelude.{
  ℕ, ◌+◌, ◌≤◌, ◌<◌, ◌≡◌, refl, none, some, List, [], ◌∷◌, arith, nat_eq, Option-cases, inl, inr,
}
use macftpd.Text.{Text}
use macftpd.Dict.{get, get-put, get-del, get-put_self}
use macftpd.Clock.{Time}
use macftpd.Status.{Session, Tracker, new, add, update, remove}

-- Every live session has an identifier that was given out.
pub record IsValid (t : Tracker) : Type 0 where
  pub given : (id : ℕ) → t.next_id < id → get id t.sessions ≡ none

pub data Op : Type 0 where
  add_op : (protocol remote : Text) → Op
  update_op : ℕ → (Session → Session) → Op
  remove_op : ℕ → Op

unfoldable pub apply : Time → Op → Tracker → Tracker
apply now (add_op protocol remote) t = (add now protocol remote t).0
apply now (update_op id mutate) t = update now id mutate t
apply now (remove_op id) t = remove id t

unfoldable pub run : List (Time × Op) → Tracker → Tracker
run [] t = t
run ((now, op) ∷ ops) t = run ops (apply now op t)

update-IsValid :
    (now : Time) (i : ℕ) (mutate : Session → Session) (t : Tracker)
    → IsValid t
    → IsValid (update now i mutate t)
unfolding update
update-IsValid now i mutate t v = elim (Option-cases (get i t.sessions)) [
  | inl e ↦ rw e v
  | inr (s, e) ↦
      rw e (record { given = λ id b. rw get-put (ground (arith, v.given id b, v.given i, e)) })
]

apply-IsValid : (now : Time) (op : Op) (t : Tracker) → IsValid t → IsValid (apply now op t)
unfolding apply add remove
apply-IsValid now (add_op protocol remote) t v = record {
  given = λ id b. rw get-put (ground (arith, v.given id));
}
apply-IsValid now (update_op i mutate) t v = update-IsValid now i mutate t v
apply-IsValid now (remove_op i) t v = record {
  given = λ id b. rw get-del (ground (arith, v.given id));
}

pub run-IsValid : (ops : List (Time × Op)) (t : Tracker) → IsValid t → IsValid (run ops t)
unfolding run
run-IsValid [] t v = v
run-IsValid ((now, op) ∷ ops) t v = run-IsValid ops (apply now op t) (apply-IsValid now op t v)

-- An identifier that was given out and has no session.
abbrev pub IsGone : ℕ → Tracker → Type 0
IsGone id t = (id ≤ t.next_id) × (get id t.sessions ≡ none)

update-IsGone :
    (now : Time) (id i : ℕ) (mutate : Session → Session) (t : Tracker)
    → IsGone id t
    → IsGone id (update now i mutate t)
unfolding update
update-IsGone now id i mutate t g = elim (Option-cases (get i t.sessions)) [
  | inl e ↦ rw e g
  | inr (s, e) ↦ rw e (g.0, rw get-put (ground (arith, g.1, e)))
]

apply-IsGone :
    (now : Time) (id : ℕ) (op : Op) (t : Tracker) → IsGone id t → IsGone id (apply now op t)
unfolding apply add remove
apply-IsGone now id (add_op protocol remote) t g =
    (omega (arith, g.0), rw get-put (ground (arith, g.0, g.1)))
apply-IsGone now id (update_op i mutate) t g = update-IsGone now id i mutate t g
apply-IsGone now id (remove_op i) t g = (g.0, rw get-del (ground (arith, g.1)))

run-IsGone : (id : ℕ) (ops : List (Time × Op)) (t : Tracker) → IsGone id t → IsGone id (run ops t)
unfolding run
run-IsGone id [] t g = g
run-IsGone id ((now, op) ∷ ops) t g =
    run-IsGone id ops (apply now op t) (apply-IsGone now id op t g)

-- A session that is added, after any operations on a new tracker, gets an identifier that had no session
-- and finds its session under it. Once it is removed, no later operation brings a session back
-- under that identifier, also not an update that was still on its way.
pub add-remove :
    (before after : List (Time × Op)) (now : Time) (protocol remote : Text)
    → (get (add now protocol remote (run before new)).1 (run before new).sessions ≡ none)
      × ((s : Session) × (get
              (add now protocol remote (run before new)).1
              (add now protocol remote (run before new)).0.sessions
            ≡ some s)
          × (s.id ≡ (add now protocol remote (run before new)).1)
          × (s.started_at ≡ now))
      × (get
            (add now protocol remote (run before new)).1
            (run after (
              remove
                (add now protocol remote (run before new)).1
                (add now protocol remote (run before new)).0)).sessions
          ≡ none)
unfolding add remove
add-remove before after now protocol remote =
    let t = run before new in
    let v = run-IsValid before new (record { given = λ id b. unfold get in refl }) in
    (
      v.given (t.next_id + 1) (omega arith),
      (_, get-put_self (t.next_id + 1) _ t.sessions, refl, refl),
      (run-IsGone (t.next_id + 1) after _ (omega arith, rw get-del (ground arith))).1,
    )
