-- ===== src/Auth/Admins.antt =====
-- The last admin cannot be removed through the user operations.
use macftpd.Prelude.{
  ℕ, ◌<◌, ◌≡◌, refl, Bool, true, false, Option, none, some, List, [], ◌∷◌, arith, if◌then◌else◌,
  Option-cases, Bool-cases, inl, inr, ap, ◌∙◌,
}
use macftpd.Text.{Text, text_eq, is_empty, =ₜ_iff}
use macftpd.Dict.{
  get, put, del, count, IsDict, get-put, get-del, put-IsDict, del-IsDict, count-put_new,
  count-put_old, count-del, del_of_absent,
}
use macftpd.Auth.{
  User, Database, user_would_be_admin, is_last_admin, upsert_user, delete_user, new_hash,
  store_user, save, drops_last_admin,
}
use macftpd.Auth.Names.{normalize_name, validate_name}

abbrev pub admins : Database → ℕ
admins db = count (user_would_be_admin db.groups) db.users

-- Each user is stored once, under the user's own name.
pub record IsValid (db : Database) : Type 0 where
  pub distinct : IsDict db.users
  pub named : (k : Text) (u : User) → get k db.users ≡ some u → u.username ≡ k

module _ (db : Database) (v : IsValid db) (some_admin : 0 < admins db) where
  admins-put :
      (name : Text) (user : User)
      → drops_last_admin db (get name db.users) user ≡ false
      → 0 < count (user_would_be_admin db.groups) (put name user db.users)
  unfolding is_last_admin
  admins-put name user h = elim (Option-cases (get name db.users)) [
    | inl e ↦
        let c = count-put_new (user_would_be_admin db.groups) name user db.users e in
        ground (arith, c)
    | inr (old, e) ↦
        let again : get old.username db.users ≡ some old =
          ap (λ k. get k db.users) (v.named name old e) ∙ e in
        let kept = rw again at (rw e at h) in
        let c = count-put_old (user_would_be_admin db.groups) name user old db.users e in
        ground (arith, c, kept)
  ]

  admins-del :
      (name : Text)
      → is_last_admin db name ≡ false
      → 0 < count (user_would_be_admin db.groups) (del name db.users)
  unfolding is_last_admin
  admins-del name h = elim (Option-cases (get name db.users)) [
    | inl e ↦ rw (del_of_absent name db.users e) some_admin
    | inr (old, e) ↦
        let kept = rw e at h in
        let c = count-del (user_would_be_admin db.groups) name old db.users v.distinct e in
        ground (arith, c, kept)
  ]

put-IsValid :
    (name : Text) (user : User) (db : Database)
    → user.username ≡ name
    → IsValid db
    → IsValid (record db { users = put name user db.users })
put-IsValid name user db n v = record {
  distinct = put-IsDict name user db.users v.distinct;
  named = λ k u e. ground (arith, =ₜ_iff name k, get-put name k user db.users, v.named k u);
}

del-IsValid :
    (name : Text) (db : Database) → IsValid db → IsValid (record db { users = del name db.users })
del-IsValid name db v = record {
  distinct = del-IsDict name db.users v.distinct;
  named = λ k u e. ground (arith, =ₜ_iff name k, get-del name k db.users, v.named k u);
}

-- What both operations keep.
abbrev HasAdmin : Database → Type 0
HasAdmin db = IsValid db × (0 < admins db)

save-HasAdmin : (saved : Bool) (db : Database) → HasAdmin db → HasAdmin (save saved db).1
save-HasAdmin true db h = h
save-HasAdmin false db h = h

store_user-HasAdmin :
    (saved : Bool) (db : Database) (user : User) (hash : Option Text)
    → HasAdmin db
    → HasAdmin (store_user saved db (get user.username db.users) user hash).1
store_user-HasAdmin saved db user none h = h
store_user-HasAdmin saved db user (some hash) (v, a) = elim (Bool-cases (is_empty hash)) [
  | inl e ↦ rw e (v, a)
  | inr e ↦
      let user' : User = record user { password_hash = hash } in
      elim (Bool-cases (drops_last_admin db (get user.username db.users) user')) [
        | inl d ↦ rw (e, d) (v, a)
        | inr d ↦
            rw (e, d)
              (save-HasAdmin saved _ (
                put-IsValid user.username user' db refl v,
                admins-put db v a user.username user' d,
              ))
      ]
]

upsert_user-HasAdmin :
    (saved : Bool) (hash : Option Text) (db : Database) (user : User) (password : Text)
    → HasAdmin db
    → HasAdmin (upsert_user saved hash db user password).1
unfolding upsert_user
upsert_user-HasAdmin saved hash db user password h =
    let name = normalize_name user.username in
    let named : User = record user {
      username = name;
      home = if is_empty user.home then b'/' ∷ name else user.home;
    } in
    elim (Bool-cases (validate_name name)) [
      | inl e ↦
          rw e (store_user-HasAdmin saved db named (new_hash (get name db.users) password hash) h)
      | inr e ↦ rw e h
    ]

delete_user-HasAdmin :
    (saved : Bool) (db : Database) (username : Text)
    → HasAdmin db
    → HasAdmin (delete_user saved db username).1
unfolding delete_user
delete_user-HasAdmin saved db username (v, a) =
    let name = normalize_name username in
    elim (Bool-cases (validate_name name)) [
      | inr e ↦ rw e (v, a)
      | inl e ↦ elim (Bool-cases (is_last_admin db name)) [
        | inl d ↦ rw (e, d) (v, a)
        | inr d ↦
            rw (e, d) (save-HasAdmin saved _ (del-IsValid name db v, admins-del db v a name d))
      ]
    ]

-- What an administrator does to users, with what the hash and the disk answer.
pub data Op : Type 0 where
  upsert_op : Bool → Option Text → User → Text → Op
  delete_op : Bool → Text → Op

unfoldable pub apply : Op → Database → Database
apply (upsert_op saved hash user password) db = (upsert_user saved hash db user password).1
apply (delete_op saved username) db = (delete_user saved db username).1

unfoldable pub run : List Op → Database → Database
run [] db = db
run (op ∷ ops) db = run ops (apply op db)

apply-HasAdmin : (op : Op) (db : Database) → HasAdmin db → HasAdmin (apply op db)
unfolding apply
apply-HasAdmin (upsert_op saved hash user password) db h =
    upsert_user-HasAdmin saved hash db user password h
apply-HasAdmin (delete_op saved username) db h = delete_user-HasAdmin saved db username h

run-HasAdmin : (ops : List Op) (db : Database) → HasAdmin db → HasAdmin (run ops db)
unfolding run
run-HasAdmin [] db h = h
run-HasAdmin (op ∷ ops) db h = run-HasAdmin ops (apply op db) (apply-HasAdmin op db h)

-- From a database in which each user is stored once and under its own name, and with an admin that is not disabled,
-- no sequence of user additions, changes and deletions, successful or not, leads to one without such an admin.
pub admins_remain :
    (ops : List Op) (db : Database) → IsValid db → 0 < admins db → 0 < admins (run ops db)
admins_remain ops db v a = (run-HasAdmin ops db (v, a)).1
