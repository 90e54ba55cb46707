-- ===== src/Activity/Tests.antt =====
-- A log with a few events, and the theorems at concrete inputs.
use macftpd.Prelude.{
  ◌≡◌, ◌≤◌, refl, Bool, true, false, none, some, List, [], ◌∷◌, pos, map, ◌&&◌, ◌||◌, arith, take,
  reverse, length, All,
}
use macftpd.Text.{Text, codes, is_empty, trim_space, ◌=ₜ◌}
use macftpd.Clock.{Time}
use macftpd.Activity.{Store, new, recent, new_file}
use macftpd.Activity.Message.{Event}
use macftpd.Activity.Bounds.{adds, log_bounded, recent-eq-take, select, is_newer, Rises}
use macftpd.Activity.Restart.{new_file-adds}
use macftpd.Activity.Stats.{stats_exact, stats_for_path}

abbrev file_name : Text
file_name = b'a' ∷ []

-- a download of the file
abbrev download : Event
download = record {
  id = 0;
  time = 0;
  type = codes "public_download";
  protocol = codes "public";
  actor = codes "ann";
  remote = [];
  referrer = codes "site";
  action = codes "download";
  outcome = codes "ok";
  path = b'/' ∷ file_name;
  dest_path = [];
  bytes = 7;
  detail = [];
  message = [];
}

abbrev two_events : List (Bool × Time × Event)
two_events = (true, 5, download) ∷ (false, 6, record download { action = codes "list" }) ∷ []

abbrev log : Store
log = adds two_events (new (pos 1))

log_bounded_example :
    (length log.events ≤ log.limit) × Rises 0 log.events × All (λ e. e.id ≤ log.next_id) log.events
log_bounded_example = log_bounded (pos 1) two_events

recent-eq-take_example : recent (pos 3) 1 log ≡ take 3 (select (is_newer 1) (reverse log.events))
recent-eq-take_example = recent-eq-take (pos 3) 1 log

named : is_empty (trim_space file_name) ≡ false
unfolding trim_space
named = refl

new_file-adds_example :
    new_file
      (pos 2)
      file_name
      (adds
        (map {A = Time × Event} (λ x. (true, x.0, x.1)) ((5, download) ∷ []))
        (new_file (pos 2) file_name (some download ∷ none ∷ []) none)).file
      (adds
        (map {A = Time × Event} (λ x. (true, x.0, x.1)) ((5, download) ∷ []))
        (new_file (pos 2) file_name (some download ∷ none ∷ []) none)).tail
    ≡ adds
        (map {A = Time × Event} (λ x. (true, x.0, x.1)) ((5, download) ∷ []))
        (new_file (pos 2) file_name (some download ∷ none ∷ []) none)
new_file-adds_example =
    new_file-adds (pos 2) file_name (some download ∷ none ∷ []) ((5, download) ∷ []) named

-- the log of one download
abbrev downloaded : Store
downloaded = adds ((true, 5, download) ∷ []) (new (pos 2))

stats_exact_example :
    (stats_for_path download.path (pos 3) downloaded).recent
    ≡ take 3 (
        select
          (λ e.
            e.path =ₜ download.path
            && e.outcome =ₜ codes "ok"
            && e.action =ₜ codes "download"
            && (e.type =ₜ codes "public_download" || e.type =ₜ codes "share_download"))
          (reverse downloaded.events))
stats_exact_example =
    (stats_exact download.path (pos 3) downloaded _ refl).2 3 refl (omega arith) (omega arith)
