-- ===== src/Status/Tests.antt =====
-- Sessions that come and go, and the theorems at concrete inputs.
use macftpd.Prelude.{ℕ, ◌≡◌, none, some, List, [], ◌∷◌, true, nat_eq}
use macftpd.Text.{codes}
use macftpd.Dict.{get}
use macftpd.Clock.{Time}
use macftpd.Status.{Session, Tracker, new, add, remove}
use macftpd.Status.Sessions.{Op, add_op, remove_op, update_op, run, add-remove}

-- two sessions begin, and the first ends
abbrev earlier : List (Time × Op)
earlier =
    (5, add_op (codes "ftp") (codes "a"))
    ∷ (6, add_op (codes "web") (codes "b"))
    ∷ (7, remove_op 1)
    ∷ []

abbrev later : List (Time × Op)
later =
    (9, add_op (codes "ftp") (codes "c")) ∷ (10, update_op 3 (λ s. record s { secure = true })) ∷ []

abbrev begun : Tracker × ℕ
begun = add 8 (codes "ftp") (codes "d") (run earlier new)

add-remove_example :
    (get begun.1 (run earlier new).sessions ≡ none)
    × ((s : Session) × (get begun.1 begun.0.sessions ≡ some s)
        × (s.id ≡ begun.1)
        × (s.started_at ≡ 8))
    × (get begun.1 (run later (remove begun.1 begun.0)).sessions ≡ none)
add-remove_example = add-remove earlier later 8 (codes "ftp") (codes "d")
