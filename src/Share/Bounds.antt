-- ===== src/Share/Bounds.antt =====
-- The limit of downloads of a link, and each operation's effect on it.
use macftpd.Prelude.{
  ℕ, zero, suc, ◌+◌, ◌-◌, ◌≤◌, ◌≡◌, Bool, true, false, none, some, arith, leb, Option-cases,
  Bool-cases, inl, inr, ℤ, pos, negsuc, ap,
}
use macftpd.Text.{Text, text_eq, =ₜ_iff, ◌=ₜ◌}
use macftpd.Dict.{get, put, del, get-put, get-del}
use macftpd.Clock.{Time}
use macftpd.Share.{
  Link, Store, is_spent, available, active_of, save, reserve_download, release, finish_download,
  set_url_path, delete,
}

-- The count keeps to a limit, if there is one.
abbrev pub Within : ℤ → ℕ → Type 0
Within (pos zero) n = Unit
Within (pos (suc max)) n = n ≤ suc max
Within (negsuc k) n = Unit

Within-next : (max : ℤ) (n : ℕ) → is_spent max n ≡ false → Within max (n + 1)
Within-next (pos zero) n h = tt
Within-next (pos (suc max)) n h = ground arith
Within-next (negsuc k) n h = tt

pub Within-le : (max : ℤ) (m n : ℕ) → m ≤ n → Within max n → Within max m
Within-le (pos zero) m n h w = tt
Within-le (pos (suc max)) m n h w = omega arith
Within-le (negsuc k) m n h w = tt

pub Within-zero : (max : ℤ) → Within max 0
Within-zero (pos zero) = tt
Within-zero (pos (suc max)) = omega arith
Within-zero (negsuc k) = tt

-- The downloads of each link, finished or running, keep to its limit.
pub record IsWithin (s : Store) : Type 0 where
  pub at :
      (id : Text) (link : Link)
      → get id s.links ≡ some link
      → Within link.max_downloads (link.download_count + active_of id s)

-- A change of what one link has running, or of one link, keeps the rest.
put_active-IsWithin :
    (i : Text) (n : ℕ) (s : Store)
    → IsWithin s
    → ((link : Link)
        → get i s.links ≡ some link
        → Within link.max_downloads (link.download_count + n))
    → IsWithin (record s { active = put i n s.active })
put_active-IsWithin i n s w h = record {
  at = λ id link f. elim (Bool-cases (i =ₜ id)) [
    | inl e ↦ rw (get-put, e) (h link (rw ((=ₜ_iff i id).0 e) f))
    | inr e ↦ rw (get-put, e) (w.at id link f)
  ];
}

del_active-IsWithin :
    (i : Text) (s : Store) → IsWithin s → IsWithin (record s { active = del i s.active })
del_active-IsWithin i s w = record {
  at = λ id link f. elim (Bool-cases (i =ₜ id)) [
    | inl e ↦
        rw (get-del, e)
          (Within-le link.max_downloads (link.download_count + 0) _ (omega arith) (w.at id link f))
    | inr e ↦ rw (get-del, e) (w.at id link f)
  ];
}

pub put_link-IsWithin :
    (i : Text) (link : Link) (s : Store)
    → IsWithin s
    → Within link.max_downloads (link.download_count + active_of i s)
    → IsWithin (record s { links = put i link s.links })
put_link-IsWithin i link s w h = record {
  at = λ id other f. elim (Bool-cases (i =ₜ id)) [
    | inl e ↦
        let same : link ≡ other = ground (arith, get-put i id link s.links) in
        rw (← same) (rw (← ((=ₜ_iff i id).0 e)) h)
    | inr e ↦ w.at id other (ground (arith, get-put i id link s.links))
  ];
}

del_link-IsWithin :
    (i : Text) (s : Store) → IsWithin s → IsWithin (record s { links = del i s.links })
del_link-IsWithin i s w = record {
  at = λ id other f. w.at id other (ground (arith, get-del i id s.links));
}

pub save-IsWithin :
    {A : Type 0} (saved : Bool) (a : A) (s : Store) → IsWithin s → IsWithin (save saved a s).1
save-IsWithin true a s w = w
save-IsWithin false a s w = w

available-not-spent :
    (now : Time) (link : Link) (active : ℕ)
    → available now link active ≡ none
    → is_spent link.max_downloads (link.download_count + active) ≡ false
unfolding available
available-not-spent now link active h = ground arith

pub reserve-IsWithin :
    (now : Time) (i : Text) (s : Store) → IsWithin s → IsWithin (reserve_download now i s).1
unfolding reserve_download
reserve-IsWithin now i s w = elim (Option-cases (get i s.links)) [
  | inl e ↦ rw e w
  | inr (link, e) ↦ elim (Option-cases (available now link (active_of i s))) [
    | inr (x, closed) ↦ rw (e, closed) w
    | inl open_link ↦
        rw (e, open_link)
          (put_active-IsWithin i (active_of i s + 1) s w (λ other f.
            let same : link ≡ other = cc in
            rw (← same) (
              Within-le link.max_downloads _ (link.download_count + active_of i s + 1) (omega arith)
                (Within-next link.max_downloads (link.download_count + active_of i s)
                  (available-not-spent now link (active_of i s) open_link)))))
  ]
]

release-IsWithin : (i : Text) (s : Store) → IsWithin s → IsWithin (release i s)
unfolding release
release-IsWithin i s w = elim (Bool-cases (leb (active_of i s) 1)) [
  | inl e ↦ rw e (del_active-IsWithin i s w)
  | inr e ↦ rw e (
      put_active-IsWithin i (active_of i s - 1) s w
        (λ link f. Within-le link.max_downloads _ _ (omega arith) (w.at i link f)))
]

pub links-release : (i : Text) (s : Store) → (release i s).links ≡ s.links
unfolding release
links-release i s = ground arith

-- One running download less.
active_of-release : (i : Text) (s : Store) → active_of i (release i s) ≡ active_of i s - 1
unfolding release
active_of-release i s = elim (Bool-cases (leb (active_of i s) 1)) [
  | inl e ↦ rw (e, get-del) (ground (arith, =ₜ_iff i i))
  | inr e ↦ rw (e, get-put) (ground (arith, =ₜ_iff i i))
]

-- A finished download moves from the running ones to the count.
counted-IsWithin :
    (saved : Bool) (now : Time) (i : Text) (s : Store)
    → IsWithin s
    → leb (active_of i s) 0 ≡ false
    → IsWithin (finish_download saved now i true s).1
unfolding finish_download
counted-IsWithin saved now i s w running =
    let released = release-IsWithin i s w in
    elim (Option-cases (get i (release i s).links)) [
      | inl e ↦ rw (running, e) released
      | inr (link, e) ↦
          let before : get i s.links ≡ some link =
            rw (ap (λ l. get i l) (links-release i s)) at e in
          rw (running, e)
            (save-IsWithin saved tt _ (
              put_link-IsWithin i
                (record link { download_count = link.download_count + 1; last_download_at = now })
                (release i s) released
                (Within-le link.max_downloads _ (link.download_count + active_of i s)
                  (ground (arith, active_of-release i s)) (w.at i link before))))
    ]

pub finish-IsWithin :
    (saved : Bool) (now : Time) (i : Text) (completed : Bool) (s : Store)
    → IsWithin s
    → IsWithin (finish_download saved now i completed s).1
unfolding finish_download
finish-IsWithin saved now i completed s w = elim (Bool-cases (leb (active_of i s) 0)) [
  | inl e ↦ rw e w
  | inr running ↦ elim (Bool-cases completed) [
    | inr e ↦ rw (running, e) (release-IsWithin i s w)
    | inl e ↦ rw e (counted-IsWithin saved now i s w running)
  ]
]

pub set_url_path-IsWithin :
    (saved : Bool) (i url : Text) (s : Store) → IsWithin s → IsWithin (set_url_path saved i url s).1
unfolding set_url_path
set_url_path-IsWithin saved i url s w = elim (Option-cases (get i s.links)) [
  | inl e ↦ rw e w
  | inr (link, e) ↦ rw e (
      save-IsWithin saved tt _
        (put_link-IsWithin i (record link { url_path = url }) s w (w.at i link e)))
]

pub delete-IsWithin :
    (saved : Bool) (i : Text) (s : Store) → IsWithin s → IsWithin (delete saved i s).1
unfolding delete
delete-IsWithin saved i s w = elim (Option-cases (get i s.links)) [
  | inl e ↦ rw e w
  | inr (link, e) ↦ rw e (save-IsWithin saved tt _ (del_link-IsWithin i s w))
]
