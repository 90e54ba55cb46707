-- ===== src/Activity.antt =====
-- internal/activity/activity.go: the bounded log of events, with an append-only file behind it.
-- The file is a list of lines that end in a newline, each an event or a line that does not decode, and what may
-- stand behind the last newline; the JSON encoding is not modelled. No line is longer than the 1 MiB that a start reads. Identifiers are natural numbers: the source's int64 counter is taken not to overflow.
pub mod Message
pub mod Bounds
pub mod Restart
pub mod Stats
pub mod Tests
use macftpd.Prelude.{
  ℕ, ◌+◌, ◌-◌, Bool, true, false, ◌&&◌, ◌||◌, not, Option, none, some, List, [], ◌∷◌, ◌++◌, reverse,
  length, drop, ltb, leb, if◌then◌else◌, ℤ, positive_or,
}
use macftpd.Text.{Text, codes, trim_space, is_empty, ◌=ₜ◌, text_eq}
use macftpd.Dict.{Dict, get, put}
use macftpd.Clock.{Time, is_zero}
use Message.{Event, human_message}

-- what stands behind the last newline of a file: what it decodes to as a line, and what it decodes to with the
-- line of an event behind it
pub record Tail : Type 0 where
  pub alone : Option Event
  pub followed : Event → Option Event

pub record Store : Type 0 where
  pub next_id : ℕ
  pub limit : ℕ
  pub path : Text
  pub events : List Event
  pub file : List (Option Event)
  pub tail : Option Tail

abbrev pub new : ℤ → Store
new limit = record {
  next_id = 0;
  limit = positive_or limit 1000;
  path = [];
  events = [];
  file = [];
  tail = none;
}

-- the event as it is stored, but for its identifier
unfoldable pub clean : Time → Event → Event
clean now e =
    let outcome = trim_space e.outcome in
    let tidy : Event = record e {
      time = if is_zero e.time then now else e.time;
      type = trim_space e.type;
      protocol = trim_space e.protocol;
      actor = trim_space e.actor;
      remote = trim_space e.remote;
      referrer = trim_space e.referrer;
      action = trim_space e.action;
      outcome = if is_empty outcome then codes "ok" else outcome;
    } in
    if is_empty e.message then record tidy { message = human_message tidy } else tidy

-- keep the last `limit` events
unfoldable pub keep_last : ℕ → List Event → List Event
keep_last limit events =
    if ltb limit (length events) then drop (length events - limit) events else events

-- the line that an event makes behind what the file ends in
abbrev new_line : Option Tail → Event → Option Event
new_line none e = some e
new_line (some t) e = t.followed e

-- `appendEvent`: a failed write leaves the file as it is, and is not reported
abbrev append_event : Bool → Text → Event → List (Option Event) → Option Tail → List (Option Event)
append_event written path e file tail =
    if not (is_empty path) && written then file ++ new_line tail e ∷ [] else file

abbrev tail_after : Bool → Text → Option Tail → Option Tail
tail_after written path tail = if not (is_empty path) && written then none else tail

-- `written` says whether the operating system took the line.
unfoldable pub add : Bool → Time → Event → Store → Store × Event
unfolding clean keep_last
add written now e s =
    let stored : Event = record (clean now e) { id = s.next_id + 1 } in
    (
      record s {
        next_id = s.next_id + 1;
        events = keep_last s.limit (s.events ++ stored ∷ []);
        file = append_event written s.path stored s.file s.tail;
        tail = tail_after written s.path s.tail;
      },
      stored,
    )

-- the loop of `Recent`, over the events from the newest on, with the room that is left
unfoldable pub recent_loop : ℕ → ℕ → List Event → List Event
recent_loop room after_id [] = []
recent_loop room after_id (e ∷ es) =
    if leb room 0
    then []
    else if ltb 0 after_id && leb e.id after_id
    then recent_loop room after_id es
    else e ∷ recent_loop (room - 1) after_id es

-- A negative `afterID` is, as 0, no bound.
unfoldable pub recent : ℤ → ℕ → Store → List Event
unfolding recent_loop
recent limit after_id s = recent_loop (positive_or limit 100) after_id (reverse s.events)

-- one line of `load`
unfoldable pub load_line : Store → Option Event → Store
unfolding keep_last
load_line s none = s
load_line s (some e) = record s {
  next_id = if ltb s.next_id e.id then e.id else s.next_id;
  events = keep_last s.limit (s.events ++ e ∷ []);
}

unfoldable pub load_lines : List (Option Event) → Store → Store
unfolding load_line
load_lines [] s = s
load_lines (line ∷ lines) s = load_lines lines (load_line s line)

-- the lines that a scanner finds: what stands behind the last newline is one
abbrev lines_of : List (Option Event) → Option Tail → List (Option Event)
lines_of lines none = lines
lines_of lines (some t) = lines ++ t.alone ∷ []

-- `NewFile` on a file that can be read; no file is an empty one
unfoldable pub new_file : ℤ → Text → List (Option Event) → Option Tail → Store
unfolding load_lines
new_file limit path lines tail =
    let s = record (new limit) { path = trim_space path } in
    if is_empty s.path
    then s
    else record (load_lines (lines_of lines tail) s) { file = lines; tail = tail }
