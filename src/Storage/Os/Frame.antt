-- ===== src/Storage/Os/Frame.antt =====
-- What a call within the root leaves alone.
use macftpd.Prelude.{◌≡◌, refl, false, ◌∙◌, inl, inr, sym, ap, Option, none, some}
use macftpd.Text.{Text}
use macftpd.Path.{clean}
use macftpd.Storage.{Root, is_below, rel_from_real}
use macftpd.Storage.Os.{
  Os, IsOs, Apart, M, ok, Error, M-cases, bound, ◌>>=◌, on_error, in_root, mkdir_all, remove,
  remove_all, create_new, chmod, rooted,
}

pub Apart-sym : (p q : Text) → Apart p q → Apart q p
Apart-sym p q (a, b) = (b, a)

module _ {S O : Type 0} (os : Os S) (l : IsOs os O) where
  pub remove-Apart : (p x : Text) (s : S) → Apart x p → l.at x (os.remove p s).0 ≡ l.at x s
  remove-Apart p x s apart = elim (M-cases (os.remove p s)) [
    | inl (t, a, e) ↦ rw e ((l.remove_ok p s t e).1 x apart)
    | inr (t, f, e) ↦ rw e (l.remove_err p s t f e x)
  ]

  module _ (r : Root) where
    rooted_frame :
        (op : Text → M S (Unit {0})) (real x : Text) (s : S)
        → ((s : S) → l.at x (op (clean real) s).0 ≡ l.at x s)
        → (o : Option Error) (rel : Option Text)
        → l.at x (bound op (s, rooted os r o rel real)).0 ≡ l.at x s
    rooted_frame op real x s h (some e) rel = refl
    rooted_frame op real x s h none none = refl
    rooted_frame op real x s h none (some rel) = h s

    in_root_frame :
        (op : Text → M S (Unit {0})) (real x : Text) (s : S)
        → ((s : S) → l.at x (op (clean real) s).0 ≡ l.at x s)
        → l.at x (bound op (in_root os r real s)).0 ≡ l.at x s
    unfolding in_root
    in_root_frame op real x s h =
        rooted_frame op real x s h (os.open_root r.base s) (rel_from_real r real)

    pub mkdir_all_frame :
        (real x : Text) (s : S)
        → is_below (clean real) x ≡ false
        → l.at x (mkdir_all os r real s).0 ≡ l.at x s
    unfolding mkdir_all
    mkdir_all_frame real x s apart =
        in_root_frame os.mkdir_all real x s (λ t. l.mkdir_all_apart (clean real) t _ _ refl x apart)

    pub remove_all_frame :
        (real x : Text) (s : S)
        → Apart x (clean real)
        → l.at x (remove_all os r real s).0 ≡ l.at x s
    unfolding remove_all
    remove_all_frame real x s apart =
        in_root_frame os.remove_all real x s
          (λ t. l.remove_all_apart (clean real) t _ _ refl x apart)

    pub remove_frame :
        (real x : Text) (s : S) → Apart x (clean real) → l.at x (remove os r real s).0 ≡ l.at x s
    unfolding remove
    remove_frame real x s apart =
        in_root_frame os.remove real x s (λ t. remove-Apart (clean real) x t apart)

    pub create_new_frame :
        (real x : Text) (s : S)
        → Apart x (clean real)
        → l.at x (create_new os r real s).0 ≡ l.at x s
    unfolding create_new
    create_new_frame real x s apart =
        in_root_frame os.create_new real x s (λ t. l.create_apart (clean real) t _ _ refl x apart)

    pub chmod_frame : (real x : Text) (s : S) → l.at x (chmod os r real s).0 ≡ l.at x s
    unfolding chmod
    chmod_frame real x s = in_root_frame os.chmod real x s (λ t. l.chmod_same (clean real) x t)

    gone_at :
        (real : Text) (t u : S) (o : Option Error) (rel : Option Text)
        → bound os.remove_all (t, rooted os r o rel real) ≡ (u, ok tt)
        → l.at (clean real) u ≡ none
    gone_at real t u (some e) rel h = cc
    gone_at real t u none none h = cc
    gone_at real t u none (some rel) h = l.remove_all_ok (clean real) t u h

    pub remove_all_gone :
        (real : Text) (t u : S) → remove_all os r real t ≡ (u, ok tt) → l.at (clean real) u ≡ none
    unfolding remove_all in_root
    remove_all_gone real t u h = gone_at real t u (os.open_root r.base t) (rel_from_real r real) h

  -- an operation that leaves what is at a path alone, and what is made of such
  abbrev pub Frames : {A : Type 0} → Text → M S A → Type 0
  Frames x m = (s : S) → l.at x (m s).0 ≡ l.at x s

  pub Frames-bind :
      {A B : Type 0} (x : Text) (m : M S A) (f : A → M S B)
      → Frames x m
      → ((a : A) → Frames x (f a))
      → Frames x (m >>= f)
  Frames-bind x m f h k s = elim (M-cases (m s)) [
    | inl (t, a, e) ↦ rw e (k a t ∙ ap (λ y. l.at x y.0) (sym e) ∙ h s)
    | inr (t, f, e) ↦ rw e (ap (λ y. l.at x y.0) (sym e) ∙ h s)
  ]

  pub Frames-on_error :
      {A : Type 0} (x : Text) (m : M S A) (f : Error → M S A)
      → Frames x m
      → ((e : Error) → Frames x (f e))
      → Frames x (on_error m f)
  Frames-on_error x m f h k s = elim (M-cases (m s)) [
    | inl (t, a, e) ↦ rw e (ap (λ y. l.at x y.0) (sym e) ∙ h s)
    | inr (t, f, e) ↦ rw e (k f t ∙ ap (λ y. l.at x y.0) (sym e) ∙ h s)
  ]
