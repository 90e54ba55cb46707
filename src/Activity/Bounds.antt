-- ===== src/Activity/Bounds.antt =====
-- The log holds at most `limit` events, with rising identifiers.
use macftpd.Prelude.{
  ℕ, ◌+◌, ◌-◌, ◌≤◌, ◌<◌, ◌≡◌, refl, Bool, List, [], ◌∷◌, ◌++◌, arith, length, drop, leb,
  if◌then◌else◌, All, All-append, All-drop, length-drop, reverse, ℤ, positive_or, suc, zero, take,
  ◌&&◌, not, Bool-cases, inl, inr, ltb,
}
use macftpd.Clock.{Time}
use macftpd.Activity.{Store, new, add, keep_last, recent, recent_loop}
use macftpd.Activity.Message.{Event}

length-keep_last : (n : ℕ) (es : List Event) → length (keep_last n es) ≤ n
unfolding keep_last
length-keep_last n es = ground (arith, length-drop (length es - n) es)

-- Identifiers rise from one event to the next, and stay above a bound.
abbrev pub Rises : ℕ → List Event → Type 0
Rises low [] = Unit
Rises low (e ∷ es) = (low < e.id) × Rises e.id es

Rises-weaken : (a b : ℕ) (es : List Event) → a ≤ b → Rises b es → Rises a es
Rises-weaken a b [] h r = tt
Rises-weaken a b (e ∷ es) h (p, r) = (omega arith, r)

Rises-drop : (low n : ℕ) (es : List Event) → Rises low es → Rises low (drop n es)
Rises-drop low zero es r = r
Rises-drop low (suc n) [] r = tt
Rises-drop low (suc n) (e ∷ es) (p, r) =
    Rises-weaken low e.id (drop n es) (omega arith) (Rises-drop e.id n es r)

Rises-keep_last : (low n : ℕ) (es : List Event) → Rises low es → Rises low (keep_last n es)
unfolding keep_last
Rises-keep_last low n es r = ground (arith, Rises-drop low (length es - n) es)

-- A larger identifier may follow.
Rises-append :
    (low top : ℕ) (es : List Event) (e : Event)
    → Rises low es
    → All (λ x. x.id ≤ top) es
    → low ≤ top
    → top < e.id
    → Rises low (es ++ e ∷ [])
Rises-append low top [] e r h b t = (omega arith, tt)
Rises-append low top (x ∷ es) e (p, r) (q, h) b t = (p, Rises-append x.id top es e r h q t)

-- What every store keeps: its size, and identifiers that rise up to the last one given out.
pub record IsValid (s : Store) : Type 0 where
  pub small : length s.events ≤ s.limit
  pub rising : Rises 0 s.events
  pub given : All (λ e. e.id ≤ s.next_id) s.events

All-keep_last : (P : Event → Type 0) (n : ℕ) (es : List Event) → All P es → All P (keep_last n es)
unfolding keep_last
All-keep_last P n es h = elim (Bool-cases (ltb n (length es))) [
  | inl e ↦ rw e (All-drop P (length es - n) es h)
  | inr e ↦ rw e h
]

All-le : (a b : ℕ) (es : List Event) → a ≤ b → All (λ x. x.id ≤ a) es → All (λ x. x.id ≤ b) es
All-le a b [] h k = tt
All-le a b (e ∷ es) h (p, k) = (omega arith, All-le a b es h k)

pub add-IsValid :
    (written : Bool) (now : Time) (e : Event) (s : Store)
    → IsValid s
    → IsValid (add written now e s).0
unfolding add
add-IsValid written now e s v = record {
  small = length-keep_last s.limit _;
  rising = Rises-keep_last 0 s.limit _ (
      Rises-append 0 s.next_id s.events (add written now e s).1 v.rising v.given (omega arith)
        (omega arith));
  given = All-keep_last _ s.limit _ (
      All-append _ s.events ((add written now e s).1 ∷ [])
        (All-le s.next_id (s.next_id + 1) s.events (omega arith) v.given) (omega arith, tt));
}

-- A sequence of additions, each with what the operating system and the clock gave.
unfoldable pub adds : List (Bool × Time × Event) → Store → Store
adds [] s = s
adds ((written, now, e) ∷ es) s = adds es (add written now e s).0

pub adds-IsValid : (es : List (Bool × Time × Event)) (s : Store) → IsValid s → IsValid (adds es s)
unfolding adds
adds-IsValid [] s v = v
adds-IsValid ((written, now, e) ∷ es) s v =
    adds-IsValid es (add written now e s).0 (add-IsValid written now e s v)

-- The log of a new store, after any additions, holds at most its capacity of events, with
-- identifiers that rise from the oldest to the newest and are at most the last one given out.
pub log_bounded :
    (limit : ℤ) (es : List (Bool × Time × Event))
    → (length (adds es (new limit)).events ≤ (adds es (new limit)).limit)
      × Rises 0 (adds es (new limit)).events
      × All (λ e. e.id ≤ (adds es (new limit)).next_id) (adds es (new limit)).events
log_bounded limit es =
    let v = adds-IsValid es (new limit) (record { small = omega arith; rising = tt; given = tt }) in
    (v.small, v.rising, v.given)

abbrev pub select : (Event → Bool) → List Event → List Event
select p [] = []
select p (e ∷ es) = if p e then e ∷ select p es else select p es

abbrev pub is_newer : ℕ → Event → Bool
is_newer after_id e = not (ltb 0 after_id && leb e.id after_id)

recent_loop_lem :
    (room after_id : ℕ) (es : List Event)
    → recent_loop room after_id es ≡ take room (select (is_newer after_id) es)
unfolding recent_loop
recent_loop_lem zero after_id [] = refl
recent_loop_lem (suc room) after_id [] = refl
recent_loop_lem zero after_id (e ∷ es) = refl
recent_loop_lem (suc room) after_id (e ∷ es) =
    let left : suc room - 1 ≡ room = omega arith in
    rw left
      (ground (arith, recent_loop_lem (suc room) after_id es, recent_loop_lem room after_id es))

-- `recent` is the newest events first, those behind the given identifier alone if there is one, as
-- many as the limit allows, 100 if it is not positive.
pub recent-eq-take :
    (limit : ℤ) (after_id : ℕ) (s : Store)
    → recent limit after_id s
      ≡ take (positive_or limit 100) (select (is_newer after_id) (reverse s.events))
unfolding recent
recent-eq-take limit after_id s =
    recent_loop_lem (positive_or limit 100) after_id (reverse s.events)
