-- ===== src/Activity/Stats.antt =====
-- internal/activity/activity.go: `State` and `StatsForPath`.
use macftpd.Prelude.{
  ℕ, ◌+◌, ◌-◌, ◌≡◌, refl, Bool, true, false, ◌&&◌, ◌||◌, not, Option, none, some, List, [], ◌∷◌,
  ◌++◌, arith, length, length-append, ltb, leb, if◌then◌else◌, reverse, Bool-cases, inl, inr, ◌∙◌,
  ◌⊎◌, sym, ap, ◌<◌, ◌≤◌, suc, zero, ℤ, pos, negsuc, take,
}
use mathlib.Core.List.{append-nil, append_assoc}
use native.Mathlib.Nat.{sub-zero}
use macftpd.Text.{Text, codes, is_empty, ◌=ₜ◌, text_eq, =ₜ_iff}
use macftpd.Dict.{Dict, get, put, count, get-put}
use macftpd.Clock.{Time, is_zero}
use macftpd.Activity.{Store}
use macftpd.Activity.Bounds.{select}
use macftpd.Activity.Message.{Event}

pub record State : Type 0 where
  pub count : ℕ
  pub capacity : ℕ
  pub oldest_id : ℕ
  pub newest_id : ℕ
  pub oldest_time : Time
  pub newest_time : Time

-- the last of a list that starts with `e`
abbrev last_of : Event → List Event → Event
last_of e [] = e
last_of e (f ∷ es) = last_of f es

abbrev state_of : ℕ → ℕ → List Event → State
state_of count capacity [] = record {
  count = count;
  capacity = capacity;
  oldest_id = 0;
  newest_id = 0;
  oldest_time = 0;
  newest_time = 0;
}
state_of count capacity (e ∷ es) = record {
  count = count;
  capacity = capacity;
  oldest_id = e.id;
  newest_id = (last_of e es).id;
  oldest_time = e.time;
  newest_time = (last_of e es).time;
}

unfoldable pub state : Store → State
state s = state_of (length s.events) s.limit s.events

pub record PathStats : Type 0 where
  pub path : Text
  pub downloads : ℕ
  pub last_download_at : Time
  pub referrers : Dict Text ℕ
  pub recent : List Event

-- an event that `StatsForPath` does not pass over
unfoldable pub is_download : Text → Event → Bool
is_download path e =
    e.path =ₜ path
    && e.outcome =ₜ codes "ok"
    && e.action =ₜ codes "download"
    && (e.type =ₜ codes "public_download" || e.type =ₜ codes "share_download")

abbrev or_zero : Option ℕ → ℕ
or_zero none = 0
or_zero (some n) = n

-- one counted event
unfoldable pub count_event : ℕ → PathStats → Event → PathStats
count_event limit st e = record {
  path = st.path;
  downloads = st.downloads + 1;
  last_download_at = if is_zero st.last_download_at then e.time else st.last_download_at;
  referrers =
      if not (is_empty e.referrer)
      then put e.referrer (or_zero (get e.referrer st.referrers) + 1) st.referrers
      else st.referrers;
  recent = if ltb (length st.recent) limit then st.recent ++ e ∷ [] else st.recent;
}

-- the loop, over the events from the newest on
unfoldable pub stats_loop : Text → ℕ → List Event → PathStats → PathStats
unfolding count_event
stats_loop path limit [] st = st
stats_loop path limit (e ∷ es) st =
    stats_loop path limit es (if is_download path e then count_event limit st e else st)

-- `if limit <= 0 || limit > 100 { limit = 20 }`
abbrev pub stats_limit : ℤ → ℕ
stats_limit (pos n) = if leb n 0 || ltb 100 n then 20 else n
stats_limit (negsuc n) = 20

unfoldable pub stats_for_path : Text → ℤ → Store → PathStats
unfolding stats_loop
stats_for_path path limit s =
    stats_loop path (stats_limit limit) (reverse s.events)
      (record { path = path; downloads = 0; last_download_at = 0; referrers = []; recent = [] })

-- how often a referrer was counted
abbrev pub referred : Text → PathStats → ℕ
referred r st = or_zero (get r st.referrers)

-- the downloads of a path that name a referrer
abbrev pub names : Text → Event → Bool
names r e = e.referrer =ₜ r

take-nil : (n : ℕ) → take {A = Event} n [] ≡ []
take-nil zero = refl
take-nil (suc n) = refl

stats_loop-downloads :
    (path : Text) (limit : ℕ) (es : List Event) (st : PathStats)
    → (stats_loop path limit es st).downloads ≡ st.downloads + length (select (is_download path) es)
unfolding stats_loop
stats_loop-downloads path limit [] st = omega arith
stats_loop-downloads path limit (e ∷ es) st = ground (
  arith,
  stats_loop-downloads path limit es (count_event limit st e),
  stats_loop-downloads path limit es st,
)

referred-count_event :
    (r : Text) (limit : ℕ) (st : PathStats) (e : Event)
    → is_empty r ≡ false
    → referred r (count_event limit st e) ≡ referred r st + (if names r e then 1 else 0)
unfolding count_event
referred-count_event r limit st e h = elim (Bool-cases (is_empty e.referrer)) [
  | inl none_given ↦ rw none_given (ground (arith, =ₜ_iff e.referrer r))
  | inr given ↦
      rw (given, get-put e.referrer r (or_zero (get e.referrer st.referrers) + 1) st.referrers)
        (ground (arith, =ₜ_iff e.referrer r))
]

stats_loop-referred :
    (r path : Text) (limit : ℕ) (es : List Event) (st : PathStats)
    → is_empty r ≡ false
    → referred r (stats_loop path limit es st)
      ≡ referred r st + length (select (names r) (select (is_download path) es))
unfolding stats_loop
stats_loop-referred r path limit [] st h = omega arith
stats_loop-referred r path limit (e ∷ es) st h = elim (Bool-cases (is_download path e)) [
  | inl d ↦
      rw (d, stats_loop)
        (stats_loop-referred r path limit es (count_event limit st e) h
          ∙ ground (arith, referred-count_event r limit st e h))
  | inr d ↦ rw (d, stats_loop) (stats_loop-referred r path limit es st h)
]

recent-count_event_room :
    (limit : ℕ) (st : PathStats) (e : Event)
    → ltb (length st.recent) limit ≡ true
    → (count_event limit st e).recent ≡ st.recent ++ e ∷ []
unfolding count_event
recent-count_event_room limit st e h = rw h

recent-count_event_full :
    (limit : ℕ) (st : PathStats) (e : Event)
    → ltb (length st.recent) limit ≡ false
    → (count_event limit st e).recent ≡ st.recent
unfolding count_event
recent-count_event_full limit st e h = rw h

stats_loop-recent :
    (path : Text) (limit : ℕ) (es : List Event) (st : PathStats)
    → (stats_loop path limit es st).recent
      ≡ st.recent ++ take (limit - length st.recent) (select (is_download path) es)
unfolding stats_loop
stats_loop-recent path limit [] st = rw (take-nil (limit - length st.recent), append-nil)
stats_loop-recent path limit (e ∷ es) st = elim (Bool-cases (is_download path e)) [
  | inr d ↦ rw (d, stats_loop) (stats_loop-recent path limit es st)
  | inl d ↦
      rw (d, stats_loop)
        (elim (Bool-cases (ltb (length st.recent) limit)) [
          | inl room ↦
              let one : limit - length st.recent ≡ suc (limit - (length st.recent + 1)) =
                ground arith in
              let len : length (st.recent ++ e ∷ []) ≡ length st.recent + 1 =
                omega (arith, length-append st.recent (e ∷ [])) in
              stats_loop-recent path limit es (count_event limit st e)
              ∙ rw (recent-count_event_room limit st e room, len, one)
                  (append_assoc st.recent (e ∷ []) _)
          | inr full ↦
              let zero_left : limit - length st.recent ≡ 0 = ground arith in
              stats_loop-recent path limit es (count_event limit st e)
              ∙ rw (recent-count_event_full limit st e full, zero_left)
        ])
]

stats_limit_within : (n : ℕ) → 0 < n → n ≤ 100 → stats_limit (pos n) ≡ n
stats_limit_within n h k = ground arith

stats_limit_outside : (n : ℕ) → (n ≡ 0) ⊎ (100 < n) → stats_limit (pos n) ≡ 20
stats_limit_outside n h = ground arith

-- The statistics of a path are those of its downloads: the events about the path that succeeded, with the action
-- "download" and the type "public_download" or "share_download". They have their number, how many of them name
-- each referrer, and the newest of them first: as many as the limit allows if it is 1 to 100, and else 20.
pub stats_exact :
    (path : Text) (limit : ℤ) (s : Store) (found : List Event)
    → found
      ≡ select
          (λ e.
            e.path =ₜ path
            && e.outcome =ₜ codes "ok"
            && e.action =ₜ codes "download"
            && (e.type =ₜ codes "public_download" || e.type =ₜ codes "share_download"))
          (reverse s.events)
    → ((stats_for_path path limit s).downloads ≡ length found)
      × ((r : Text)
          → is_empty r ≡ false
          → referred r (stats_for_path path limit s) ≡ length (select (names r) found))
      × ((n : ℕ)
          → limit ≡ pos n
          → 0 < n
          → n ≤ 100
          → (stats_for_path path limit s).recent ≡ take n found)
      × ((n : ℕ)
          → limit ≡ pos n
          → (n ≡ 0) ⊎ (100 < n)
          → (stats_for_path path limit s).recent ≡ take 20 found)
      × ((n : ℕ) → limit ≡ negsuc n → (stats_for_path path limit s).recent ≡ take 20 found)
unfolding stats_for_path is_download
stats_exact path limit s found same = (
  stats_loop-downloads path (stats_limit limit) (reverse s.events) _
      ∙ ap (λ es. 0 + length es) (sym same)
      ∙ omega arith,
  λ r h.
      unfold get in
      stats_loop-referred r path (stats_limit limit) (reverse s.events) _ h
      ∙ ap (λ es. 0 + length (select (names r) es)) (sym same)
      ∙ omega arith,
  λ n e h k. newest ∙ ap (λ x. take x found) (ap stats_limit e ∙ stats_limit_within n h k),
  λ n e h. newest ∙ ap (λ x. take x found) (ap stats_limit e ∙ stats_limit_outside n h),
  λ n e. newest ∙ ap (λ x. take x found) (ap stats_limit e),
)
  where
    newest : (stats_for_path path limit s).recent ≡ take (stats_limit limit) found
    newest =
        stats_loop-recent path (stats_limit limit) (reverse s.events) _
        ∙ rw (sub-zero) (ap (take (stats_limit limit)) (sym same))
