-- ===== src/Storage/Toy.antt =====
-- A file system of files only, for the tests: a function from paths, and a path that nothing moves to.
use macftpd.Prelude.{
  Bool, ℕ, ◌≡◌, refl, false, ◌∙◌, inl, inr, sym, ap, subst, Option, none, some, [], arith,
  if◌then◌else◌, Bool-cases, length,
}
use macftpd.Text.{Text, ◌=ₜ◌}
use macftpd.Text.Laws.{=ₜ_refl}
use macftpd.Storage.{is_below}
use macftpd.Storage.Os.Frame.{Apart-sym}
use macftpd.Storage.Os.{Os, IsOs, Apart, M, Result, ok, err, Error, not_exist, exists, Info}

pub record Tree : Type 0 where
  pub found : Text → Option Text
  pub stuck : Text

abbrev pub with_file : Text → Option Text → Tree → Tree
with_file p o t = record t { found = λ x. if x =ₜ p then o else t.found x }

abbrev info_of : Text → Info
info_of raw = record { is_dir = false; size = length raw; mode = []; mod_time = 0 }

abbrev pub looked : Option Text → Result Info
looked none = err not_exist
looked (some raw) = ok (info_of raw)

abbrev pub read_as : Option Text → Result Text
read_as none = err not_exist
read_as (some raw) = ok raw

abbrev pub moved : Text → Text → Option Text → M Tree (Unit {0})
moved p q none t = (t, err not_exist)
moved p q (some raw) t =
    if q =ₜ t.stuck then (t, err exists) else (with_file p none (with_file q (some raw) t), ok tt)

abbrev pub dropped : Text → Option Text → M Tree (Unit {0})
dropped p none t = (t, err not_exist)
dropped p (some raw) t = (with_file p none t, ok tt)

abbrev pub linked : Text → Option Text → Option Text → M Tree (Unit {0})
linked q none o t = (t, err not_exist)
linked q (some raw) none t = (with_file q (some raw) t, ok tt)
linked q (some raw) (some other) t = (t, err exists)

abbrev pub cloned : Text → Option Text → M Tree (Unit {0})
cloned q none t = (t, err not_exist)
cloned q (some raw) t = (with_file q (some raw) t, ok tt)

abbrev pub counted : Text → Option Text → M Tree ℕ
counted q none t = (t, err not_exist)
counted q (some raw) t = (with_file q (some raw) t, ok (length raw))

abbrev pub created : Text → Option Text → M Tree (Unit {0})
created p none t = (with_file p (some []) t, ok tt)
created p (some raw) t = (t, err exists)

abbrev pub tree_os : Os Tree
tree_os = record {
  open_root = λ p t. none;
  stat = λ p t. looked (t.found p);
  read_dir = λ p t. ok [];
  mkdir_all = λ p t. (t, ok tt);
  remove = λ p t. dropped p (t.found p) t;
  remove_all = λ p t. (record t { found = λ x. if is_below x p then none else t.found x }, ok tt);
  rename = λ p q t. moved p q (t.found p) t;
  link = λ p q t. linked q (t.found p) (t.found q) t;
  clone = λ p q t. cloned q (t.found p) t;
  copy_bytes = λ over p q t. counted q (t.found p) t;
  chmod = λ p t. (t, ok tt);
  read_file = λ p t. read_as (t.found p);
  write_file = λ p raw t. (with_file p (some raw) t, ok tt);
  create_new = λ p t. created p (t.found p) t;
}

Apart-eq : (x p : Text) → Apart x p → (x =ₜ p) ≡ false
Apart-eq x p apart = ground arith

abbrev pub dir_of : Result Info → Bool
dir_of (ok i) = i.is_dir
dir_of (err e) = false

pub looked_ok :
    (o : Option Text) (i : Info)
    → looked o ≡ ok i
    → (raw : Text) × (o ≡ some raw) × (false ≡ i.is_dir)
looked_ok none i e = cc
looked_ok (some raw) i e = (raw, refl, ap dir_of e)

pub looked_missing : (o : Option Text) → looked o ≡ err not_exist → o ≡ none
looked_missing none e = refl
looked_missing (some raw) e = cc

pub same_file : (p : Text) (o : Option Text) (t : Tree) → (with_file p o t).found p ≡ o
same_file p o t = rw (=ₜ_refl p) refl

pub other_file :
    (p x : Text) (o : Option Text) (t : Tree) → Apart x p → (with_file p o t).found x ≡ t.found x
other_file p x o t apart = rw (Apart-eq x p apart) refl

-- What a call did, when it is on one path: `Post` of the object there if there was no error, and nothing
-- elsewhere; nothing at all with an error.
abbrev pub Did : {A : Type 0} → Text → (Option Text → Type 0) → Tree → Tree × Result A → Type 0
Did q Post t (t', ok a) = Post (t'.found q) × ((x : Text) → Apart x q → t'.found x ≡ t.found x)
Did q Post t (t', err e) = (x : Text) → t'.found x ≡ t.found x

-- What a call did: a move of the object at `p`, or a new name for it
abbrev pub Moved : Text → Text → Tree → Tree × Result (Unit {0}) → Type 0
Moved p q t (t', ok a) =
    (t'.found q ≡ t.found p)
    × (t'.found p ≡ none)
    × ((x : Text) → Apart x p → Apart x q → t'.found x ≡ t.found x)
Moved p q t (t', err e) = (x : Text) → t'.found x ≡ t.found x

pub moved_lem :
    (p q : Text) (o : Option Text) (t : Tree)
    → Apart p q
    → t.found p ≡ o
    → Moved p q t (moved p q o t)
moved_lem p q none t apart there = λ x. refl
moved_lem p q (some raw) t apart there = elim (Bool-cases (q =ₜ t.stuck)) [
  | inl e ↦ rw e (λ x. refl)
  | inr e ↦
      let differ = Apart-eq q p (Apart-sym p q apart) in
      rw e (
        rw (differ, =ₜ_refl q) (sym there),
        rw (=ₜ_refl p) refl,
        λ x to_p to_q. rw (Apart-eq x p to_p, Apart-eq x q to_q) refl,
      )
]

pub dropped_lem : (p : Text) (o : Option Text) (t : Tree) → Did p (λ y. y ≡ none) t (dropped p o t)
dropped_lem p none t = λ x. refl
dropped_lem p (some raw) t = (same_file p none t, λ x apart. other_file p x none t apart)

pub linked_lem :
    (q : Text) (o r : Option Text) (t : Tree) → Did q (λ y. (r ≡ none) × (y ≡ o)) t (linked q o r t)
linked_lem q none r t = λ x. refl
linked_lem q (some raw) none t =
    ((refl, same_file q (some raw) t), λ x apart. other_file q x (some raw) t apart)
linked_lem q (some raw) (some other) t = λ x. refl

pub cloned_lem : (q : Text) (o : Option Text) (t : Tree) → Did q (λ y. y ≡ o) t (cloned q o t)
cloned_lem q none t = λ x. refl
cloned_lem q (some raw) t = (same_file q (some raw) t, λ x apart. other_file q x (some raw) t apart)

pub counted_lem : (q : Text) (o : Option Text) (t : Tree) → Did q (λ y. y ≡ o) t (counted q o t)
counted_lem q none t = λ x. refl
counted_lem q (some raw) t =
    (same_file q (some raw) t, λ x apart. other_file q x (some raw) t apart)

Did-Apart :
    {A : Type 0} (q x : Text) (Post : Option Text → Type 0) (t : Tree) (r : Tree × Result A)
    → Did q Post t r
    → Apart x q
    → r.0.found x ≡ t.found x
Did-Apart q x Post t (t', ok a) did apart = did.1 x apart
Did-Apart q x Post t (t', err e) did apart = did x

pub Did-ok :
    {A : Type 0} (q : Text) (Post : Option Text → Type 0) (t t' : Tree) (a : A)
    (r : Tree × Result A)
    → Did q Post t r
    → r ≡ (t', ok a)
    → Post (t'.found q) × ((x : Text) → Apart x q → t'.found x ≡ t.found x)
Did-ok q Post t t' a r did e = subst (Did q Post t) e did

pub Did-err :
    {A : Type 0} (q : Text) (Post : Option Text → Type 0) (t t' : Tree) (f : Error)
    (r : Tree × Result A)
    → Did q Post t r
    → r ≡ (t', err f)
    → (x : Text) → t'.found x ≡ t.found x
Did-err q Post t t' f r did e = subst (Did q Post t) e did

pub Did-any :
    {A : Type 0} (q x : Text) (Post : Option Text → Type 0) (t t' : Tree) (a : Result A)
    (r : Tree × Result A)
    → Did q Post t r
    → r ≡ (t', a)
    → Apart x q
    → t'.found x ≡ t.found x
Did-any q x Post t t' a r did e apart =
    Did-Apart q x Post t (t', a) (subst (Did q Post t) e did) apart

abbrev pub Untouched : Tree → Tree × Result (Unit {0}) → Type 0
Untouched t (t', ok a) = Unit
Untouched t (t', err e) = (x : Text) → t'.found x ≡ t.found x

pub moved-Untouched : (p q : Text) (o : Option Text) (t : Tree) → Untouched t (moved p q o t)
moved-Untouched p q none t = λ x. refl
moved-Untouched p q (some raw) t = elim (Bool-cases (q =ₜ t.stuck)) [
  | inl e ↦ rw e (λ x. refl)
  | inr e ↦ rw e tt
]

pub below_gone : (p : Text) (t : Tree) → (if is_below p p then none else t.found p) ≡ none
below_gone p t = rw (=ₜ_refl p) refl

pub read_lem : (o : Option Text) (got : Text) → read_as o ≡ ok got → o ≡ some got
read_lem none got e = cc
read_lem (some found) got e = cc

pub created-Apart :
    (p x : Text) (o : Option Text) (t : Tree) → Apart x p → (created p o t).0.found x ≡ t.found x
created-Apart p x none t apart = other_file p x (some []) t apart
created-Apart p x (some raw) t apart = refl

unfoldable pub tree_laws : IsOs tree_os Text
tree_laws = record {
  at = λ p t. t.found p;
  folder = λ raw. false;
  file = λ raw. raw;
  stat_ok = λ p t i e. looked_ok (t.found p) i e;
  stat_missing = λ p t e. looked_missing (t.found p) e;
  rename_ok = λ p q t t' apart e. subst (Moved p q t) e (moved_lem p q (t.found p) t apart refl);
  rename_err = λ p q t t' f e. subst (Untouched t) e (moved-Untouched p q (t.found p) t);
  link_ok = λ p q t t' apart e.
      let ((free, here), rest) =
        Did-ok q (λ y. (t.found q ≡ none) × (y ≡ t.found p)) t t' tt _
          (linked_lem q (t.found p) (t.found q) t) e in
      (free, here, rest p apart, rest);
  link_err = λ p q t t' f e.
      Did-err q (λ y. (t.found q ≡ none) × (y ≡ t.found p)) t t' f _
        (linked_lem q (t.found p) (t.found q) t) e;
  remove_ok = λ p t t' e. Did-ok p (λ y. y ≡ none) t t' tt _ (dropped_lem p (t.found p) t) e;
  remove_err = λ p t t' f e. Did-err p (λ y. y ≡ none) t t' f _ (dropped_lem p (t.found p) t) e;
  remove_all_ok = λ p t t' e. ap (λ y. y.0.found p) (sym e) ∙ below_gone p t;
  remove_all_apart = λ p t t' a e x apart. ap (λ y. y.0.found x) (sym e) ∙ rw (apart.0) refl;
  mkdir_all_apart = λ p t t' a e x apart. ap (λ y. y.0.found x) (sym e);
  clone_ok = λ p q t t' apart e.
      (Did-ok q (λ y. y ≡ t.found p) t t' tt _ (cloned_lem q (t.found p) t) e).0;
  clone_apart = λ p q t t' a e x apart.
      Did-any q x (λ y. y ≡ t.found p) t t' a _ (cloned_lem q (t.found p) t) e apart;
  copy_bytes_ok = λ over p q t t' n apart e.
      (Did-ok q (λ y. y ≡ t.found p) t t' n _ (counted_lem q (t.found p) t) e).0;
  copy_bytes_apart = λ over p q t t' a e x apart.
      Did-any q x (λ y. y ≡ t.found p) t t' a _ (counted_lem q (t.found p) t) e apart;
  write_ok = λ p raw t t' e. ap (λ y. y.0.found p) (sym e) ∙ same_file p (some raw) t;
  write_apart =
      λ p raw t t' a e x apart. ap (λ y. y.0.found x) (sym e) ∙ other_file p x (some raw) t apart;
  create_apart =
      λ p t t' a e x apart. ap (λ y. y.0.found x) (sym e) ∙ created-Apart p x (t.found p) t apart;
  file_exact = λ a b e. e;
  chmod_same = λ p x t. refl;
  read_ok = λ p got t e. read_lem (t.found p) got e;
}
