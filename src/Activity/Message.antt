-- ===== src/Activity/Message.antt =====
-- internal/activity/activity.go: events, and the message of an event that has none of its own.
use macftpd.Prelude.{ℕ, ◌&&◌, ◌||◌, not, [], ◌∷◌, ◌++◌, if◌then◌else◌}
use macftpd.Text.{Text, codes, is_empty, ◌=ₜ◌}
use macftpd.Clock.{Time}

pub record Event : Type 0 where
  pub id : ℕ
  pub time : Time
  pub type : Text
  pub protocol : Text
  pub actor : Text
  pub remote : Text
  pub referrer : Text
  pub action : Text
  pub outcome : Text
  pub path : Text
  pub dest_path : Text
  pub bytes : ℕ
  pub detail : Text
  pub message : Text

-- `if a == "" { a = b }`
abbrev pub or_text : Text → Text → Text
or_text a b = if is_empty a then b else a

space : Text
space = b' ' ∷ []

unfoldable pub human_message : Event → Text
unfolding space
human_message e =
    let actor = or_text e.actor (codes "someone") in
    let action = or_text e.action e.type in
    let subject = or_text e.path e.detail in
    let start = actor ++ space ++ action in
    if e.outcome =ₜ codes "failed" || e.outcome =ₜ codes "denied" || e.outcome =ₜ codes "limited"
    then (if not (is_empty subject)
        then start ++ codes " failed for " ++ subject
        else start ++ codes " failed")
    else if e.outcome =ₜ codes "canceled" || e.outcome =ₜ codes "cancelled"
    then (if not (is_empty subject)
        then start ++ codes " canceled for " ++ subject
        else start ++ codes " canceled")
    else if not (is_empty e.dest_path) && not (is_empty subject)
    then start ++ space ++ subject ++ codes " to " ++ e.dest_path
    else if not (is_empty subject)
    then start ++ space ++ subject
    else start
