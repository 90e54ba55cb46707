-- ===== src/Auth/Listing.antt =====
-- What a listing of the users shows.
use mathlib.Core.List.{Perm}
use macftpd.Prelude.{◌≡◌, refl, List, [], ◌∷◌, All, map}
use macftpd.Sort.{text_ltb}
use macftpd.Sort.Laws.{IsSorted, sort-IsSorted, sort-perm, sort-All, text_ltb_asym}
use macftpd.Auth.{User, Database, list_users, user_values, without_hash}

no_hashes : (us : List User) → All (λ u. u.password_hash ≡ []) (map without_hash us)
no_hashes [] = tt
no_hashes (u ∷ us) = (refl, no_hashes us)

-- The listing has each user once, in the order of the names, and no password hash.
pub list_users-IsSorted :
    (db : Database)
    → IsSorted (λ a b. text_ltb a.username b.username) (list_users db)
      × Perm (list_users db) (map without_hash (user_values db.users))
      × All (λ u. u.password_hash ≡ []) (list_users db)
unfolding list_users
list_users-IsSorted db = (
  sort-IsSorted _ (λ x y h. text_ltb_asym x.username y.username h) _,
  sort-perm _ _,
  sort-All _ (λ u. u.password_hash ≡ []) _ (no_hashes (user_values db.users)),
)
