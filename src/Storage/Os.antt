-- ===== src/Storage/Os.antt =====
-- internal/storage/storage.go: the operating system below the storage root, and the methods of `Root` that
-- hand one call on to it. A call answers the state after it and a result; any call may fail, and which
-- calls fail is part of the state.
pub mod Frame
pub mod Moves
use macftpd.Prelude.{
  ℕ, ◌≡◌, refl, Bool, true, false, ◌&&◌, ◌||◌, not, Option, none, some, List, [], ◌∷◌, ◌++◌, ◌⊎◌,
  inl, inr, if◌then◌else◌, subst, sym, ◌∙◌,
}
use macftpd.Text.{Text, codes, is_empty}
use macftpd.Clock.{Time}
use macftpd.Path.{clean, join_paths}
use macftpd.Storage.{Root, is_below, rel_from_real}

pub data Error : Type 0 where
  outside_root not_exist exists is_directory bad_entry inside_source : Error
  os_error : Text → Error
  joined : Error → Error → Error

pub data Result {ℓ} (A : Type ℓ) : Type ℓ where
  ok : A → Result A
  err : Error → Result A

pub record Info : Type 0 where
  pub is_dir : Bool
  pub size : ℕ
  pub mode : Text
  pub mod_time : Time

-- What runs on a state of the file system.
abbrev pub M : Type 0 → Type 0 → Type 0
M S A = S → S × Result A

-- what follows on a result
abbrev pub bound : {S A B : Type 0} → (A → M S B) → S × Result A → S × Result B
bound f (s, ok a) = f a s
bound f (s, err e) = (s, err e)

abbrev pub handled : {S A : Type 0} → (Error → M S A) → S × Result A → S × Result A
handled handler (s, ok a) = (s, ok a)
handled handler (s, err e) = handler e s

infixl 5 ◌>>=◌ ◌>>◌
abbrev pub ◌>>=◌ : {S A B : Type 0} → M S A → (A → M S B) → M S B
◌>>=◌ m f s = bound f (m s)

abbrev pub ◌>>◌ : {S A B : Type 0} → M S A → M S B → M S B
m >> k = m >>= λ _. k

abbrev pub return : {S A : Type 0} → A → M S A
return a s = (s, ok a)

abbrev pub fail : {S A : Type 0} → Error → M S A
fail e s = (s, err e)

-- `if err := m; err != nil { handler }`
abbrev pub on_error : {S A : Type 0} → M S A → (Error → M S A) → M S A
on_error m handler s = handled handler (m s)

-- `_ = m`
abbrev pub ignoring : {S A : Type 0} → M S A → M S (Unit {0})
ignoring m s = ((m s).0, ok tt)

-- To split on what a call answers and keep the equation.
pub M-cases :
    {S A : Type 0} (x : S × Result A)
    → ((s : S) × (a : A) × (x ≡ (s, ok a))) ⊎ ((s : S) × (e : Error) × (x ≡ (s, err e)))
M-cases (s, ok a) = inl (s, a, refl)
M-cases (s, err e) = inr (s, e, refl)

-- The calls of packages `os` and `io` that the root makes, on absolute paths. `open_root` is whether the
-- base can be opened. `read_dir` gives the names in a
-- directory and what is told of each, and `clone` is the call that shares the
-- blocks of a file.
pub record Os (S : Type 0) : Type 0 where
  pub open_root : Text → S → Option Error
  pub stat : Text → S → Result Info
  pub read_dir : Text → S → Result (List (Text × Result Info))
  pub mkdir_all : Text → M S (Unit {0})
  pub remove : Text → M S (Unit {0})
  pub remove_all : Text → M S (Unit {0})
  pub rename : Text → Text → M S (Unit {0})
  pub link : Text → Text → M S (Unit {0})
  pub clone : Text → Text → M S (Unit {0})
  -- the bytes of a file are copied to a file that is opened for it, which must be new without the flag
  pub copy_bytes : Bool → Text → Text → M S ℕ
  pub chmod : Text → M S (Unit {0})
  pub read_file : Text → S → Result Text
  pub write_file : Text → Text → M S (Unit {0})
  -- `OpenFile` with O_CREATE and O_EXCL: an empty file is made, if there is nothing
  pub create_new : Text → M S (Unit {0})

-- neither path is the other or below it
abbrev pub Apart : Text → Text → Type 0
Apart p q = (is_below p q ≡ false) × (is_below q p ≡ false)

-- What the calls are relied on to do. An object is a file with its bytes, or a directory with all that is
-- in it, without their times and modes, and `at` finds the one at a path. A call that fails on two paths or on an existing target has done
-- nothing; one that writes, removes or makes directories may have done a part, at its own path.
pub record IsOs {S : Type 0} (os : Os S) (O : Type 0) : Type 0 where
  pub at : Text → S → Option O
  pub folder : O → Bool
  pub file : Text → O
  pub stat_ok :
      (p : Text) (s : S) (i : Info)
      → os.stat p s ≡ ok i
      → (o : O) × (at p s ≡ some o) × (folder o ≡ i.is_dir)
  pub stat_missing : (p : Text) (s : S) → os.stat p s ≡ err not_exist → at p s ≡ none
  pub rename_ok :
      (p q : Text) (s s' : S)
      → Apart p q
      → os.rename p q s ≡ (s', ok tt)
      → (at q s' ≡ at p s)
        × (at p s' ≡ none)
        × ((x : Text) → Apart x p → Apart x q → at x s' ≡ at x s)
  pub rename_err :
      (p q : Text) (s s' : S) (e : Error)
      → os.rename p q s ≡ (s', err e)
      → (x : Text) → at x s' ≡ at x s
  pub link_ok :
      (p q : Text) (s s' : S)
      → Apart p q
      → os.link p q s ≡ (s', ok tt)
      → (at q s ≡ none)
        × (at q s' ≡ at p s)
        × (at p s' ≡ at p s)
        × ((x : Text) → Apart x q → at x s' ≡ at x s)
  pub link_err :
      (p q : Text) (s s' : S) (e : Error)
      → os.link p q s ≡ (s', err e)
      → (x : Text) → at x s' ≡ at x s
  pub remove_ok :
      (p : Text) (s s' : S)
      → os.remove p s ≡ (s', ok tt)
      → (at p s' ≡ none) × ((x : Text) → Apart x p → at x s' ≡ at x s)
  pub remove_err :
      (p : Text) (s s' : S) (e : Error)
      → os.remove p s ≡ (s', err e)
      → (x : Text) → at x s' ≡ at x s
  pub remove_all_ok : (p : Text) (s s' : S) → os.remove_all p s ≡ (s', ok tt) → at p s' ≡ none
  pub remove_all_apart :
      (p : Text) (s s' : S) (r : Result (Unit {0}))
      → os.remove_all p s ≡ (s', r)
      → (x : Text) → Apart x p
      → at x s' ≡ at x s
  pub mkdir_all_apart :
      (p : Text) (s s' : S) (r : Result (Unit {0}))
      → os.mkdir_all p s ≡ (s', r)
      → (x : Text) → is_below p x ≡ false
      → at x s' ≡ at x s
  pub clone_ok :
      (p q : Text) (s s' : S) → Apart p q → os.clone p q s ≡ (s', ok tt) → at q s' ≡ at p s
  pub clone_apart :
      (p q : Text) (s s' : S) (r : Result (Unit {0}))
      → os.clone p q s ≡ (s', r)
      → (x : Text) → Apart x q
      → at x s' ≡ at x s
  pub copy_bytes_ok :
      (over : Bool) (p q : Text) (s s' : S) (n : ℕ)
      → Apart p q
      → os.copy_bytes over p q s ≡ (s', ok n)
      → at q s' ≡ at p s
  pub copy_bytes_apart :
      (over : Bool) (p q : Text) (s s' : S) (r : Result ℕ)
      → os.copy_bytes over p q s ≡ (s', r)
      → (x : Text) → Apart x q
      → at x s' ≡ at x s
  pub chmod_same : (p x : Text) (s : S) → at x (os.chmod p s).0 ≡ at x s
  pub write_ok :
      (p raw : Text) (s s' : S) → os.write_file p raw s ≡ (s', ok tt) → at p s' ≡ some (file raw)
  pub write_apart :
      (p raw : Text) (s s' : S) (r : Result (Unit {0}))
      → os.write_file p raw s ≡ (s', r)
      → (x : Text) → Apart x p
      → at x s' ≡ at x s
  pub create_apart :
      (p : Text) (s s' : S) (r : Result (Unit {0}))
      → os.create_new p s ≡ (s', r)
      → (x : Text) → Apart x p
      → at x s' ≡ at x s
  pub read_ok : (p found : Text) (s : S) → os.read_file p s ≡ ok found → at p s ≡ some (file found)
  pub file_exact : (a b : Text) → file a ≡ file b → a ≡ b

module _ {S : Type 0} (os : Os S) (r : Root) where
  -- `os.OpenRoot` and `relFromReal`: the path that an operation within the root is on
  abbrev pub rooted : Option Error → Option Text → Text → Result Text
  rooted (some e) rel real = err e
  rooted none none real = err outside_root
  rooted none (some rel) real = ok (clean real)

  unfoldable pub in_root : Text → M S Text
  in_root real s = (s, rooted (os.open_root r.base s) (rel_from_real r real) real)

  -- a call within the root on one path
  abbrev pub with_root : {A : Type 0} → Text → (Text → M S A) → M S A
  with_root real op = in_root real >>= op

  -- `Stat`, `MkdirAll`, `Chmod`, `Remove`, `RemoveAll`, `Rename`
  unfoldable pub stat : Text → M S Info
  unfolding in_root
  stat real = with_root real (λ p s. (s, os.stat p s))

  unfoldable pub mkdir_all : Text → M S (Unit {0})
  unfolding in_root
  mkdir_all real = with_root real os.mkdir_all

  unfoldable pub chmod : Text → M S (Unit {0})
  unfolding in_root
  chmod real = with_root real os.chmod

  unfoldable pub remove : Text → M S (Unit {0})
  unfolding in_root
  remove real = with_root real os.remove

  unfoldable pub create_new : Text → M S (Unit {0})
  unfolding in_root
  create_new real = with_root real os.create_new

  unfoldable pub remove_all : Text → M S (Unit {0})
  unfolding in_root
  remove_all real = with_root real os.remove_all

  unfoldable pub rename : Text → Text → M S (Unit {0})
  unfolding in_root
  rename old_path new_path = do p ← in_root old_path; q ← in_root new_path; os.rename p q

  stat_result : (s : S) (a : Result Text) → (bound (λ p s. (s, os.stat p s)) (s, a)).0 ≡ s
  stat_result s (ok a) = refl
  stat_result s (err e) = refl

  -- a look changes nothing
  pub stat_pure : (real : Text) (s : S) → (stat real s).0 ≡ s
  unfolding stat in_root
  stat_pure real s = stat_result s (in_root real s).1
