-- ===== src/Storage/Hidden.antt =====
-- Ignored names, the program's own directories among them, are hidden from requests; and the one kind of
-- path that gets past the test.
use macftpd.Prelude.{
  ◌≡◌, refl, Bool, true, false, Option, some, List, [], ◌∷◌, ◌++◌, any, arith, ap, sym, ◌∙◌, All,
  All-append,
}
use mathlib.Core.List.{append_assoc}
use macftpd.Text.{Text, is_space, trim_prefix, trim_space, trim_right, join, split, ◌=ₜ◌}
use macftpd.Text.Laws.{
  Lacks, NoneOf, trim_space_of_NoneOf, replace_of_Lacks, split-join, split-append, trim_right-last,
  trim_right-last_trimmed,
}
use macftpd.Path.{
  absolute, slash, dot, dots, clean, clean_parts, clean_part, clean_virtual, backslash,
}
use macftpd.Path.Laws.{IsPlain, IsPlain-Lacks, clean-absolute, clean_parts-append, absolute-ne-dot}
use macftpd.Auth.{User}
use macftpd.Storage.{
  Root, is_ignored_segment, is_ignored_virtual, mount_virtual, virtual_of, resolve, resolve_admin,
}
use macftpd.Storage.Containment.{IsSound, base_of, resolve_exact, real_from_virtual-absolute}

-- No blank and no backslash stands in the text.
abbrev pub IsTidy : Text → Type 0
IsTidy s = NoneOf is_space s × Lacks backslash s

clean_virtual-absolute :
    (parts : List Text)
    → All IsPlain parts
    → IsTidy (absolute parts)
    → clean_virtual (absolute parts) ≡ absolute parts
unfolding clean_virtual
clean_virtual-absolute parts h (blank, back) =
    rw
      (
        replace_of_Lacks backslash b'/' (absolute parts) back,
        trim_space_of_NoneOf (absolute parts) blank,
      )
      (unfold absolute trim_prefix in rw (clean-absolute parts h, absolute-ne-dot parts))

absolute-ne-slash :
    (s : Text) (parts : List Text) → IsPlain s → (absolute (s ∷ parts) =ₜ slash) ≡ false
unfolding absolute join ◌=ₜ◌
absolute-ne-slash [] parts h = absurd (h.0 refl)
absolute-ne-slash (c ∷ s) [] h = refl
absolute-ne-slash (c ∷ s) (t ∷ parts) h = refl

none_of-any :
    (p : Text → Bool) (parts : List Text) → any p parts ≡ false → All (λ s. p s ≡ false) parts
none_of-any p [] h = tt
none_of-any p (s ∷ parts) h = (ground arith, none_of-any p parts (ground arith))

module _ (r : Root) (glob : Text → Text → Option Bool) where
  -- Of a path that cleaning leaves alone the test sees each part.
  is_ignored_virtual-absolute :
      (parts : List Text)
      → All IsPlain parts
      → IsTidy (absolute parts)
      → is_ignored_virtual r glob (absolute parts) ≡ any (is_ignored_segment r glob) parts
  unfolding is_ignored_virtual
  is_ignored_virtual-absolute [] h t =
      rw (clean_virtual-absolute [] h t) (unfold absolute join ◌=ₜ◌ in refl)
  is_ignored_virtual-absolute (s ∷ parts) h t =
      rw (clean_virtual-absolute (s ∷ parts) h t, absolute-ne-slash s parts h.0)
        (unfold absolute trim_prefix in
          ap (any (is_ignored_segment r glob))
            (split-join b'/' s parts (IsPlain-Lacks (s ∷ parts) h)))

  -- Where the mounts make of a request a path with no blank and no backslash, the answer is a path below the base
  -- with no ignored part: no name of the program's own directories, and none that an ignore pattern
  -- matches.
  pub resolve_visible :
      (s : IsSound r) (user : User) (cwd requested real virtual : Text)
      → resolve r glob user cwd requested ≡ some (real, virtual)
      → IsTidy (mount_virtual r user (clean_virtual user.home) (virtual_of cwd requested))
      → (parts : List Text) × (real ≡ absolute (base_of s ++ parts))
        × All IsPlain parts
        × All (λ p. is_ignored_segment r glob p ≡ false) parts
  resolve_visible s user cwd requested real virtual e t =
      let (parts, same, plain, answer) = resolve_exact r s glob user cwd requested in
      let tidy : IsTidy (absolute parts) = rw same at t in
      let seen = is_ignored_virtual-absolute parts plain tidy in
      (
        parts,
        ground (arith, answer),
        plain,
        none_of-any (is_ignored_segment r glob) parts (ground (arith, answer, seen)),
      )

-- ".." and a blank
abbrev pub dots_blank : Text
dots_blank = b'.' ∷ b'.' ∷ b' ' ∷ []

clean_virtual_of_trimmed :
    (u w : Text)
    → Lacks backslash (b'/' ∷ u)
    → trim_right is_space (b'/' ∷ u) ≡ b'/' ∷ w
    → clean_virtual (b'/' ∷ u) ≡ absolute (clean_parts true [] (split b'/' w))
unfolding clean_virtual trim_space is_space
clean_virtual_of_trimmed u w back e =
    rw (replace_of_Lacks backslash b'/' (b'/' ∷ u) back, e)
      (unfold trim_prefix clean in rw (absolute-ne-dot (clean_parts true [] (split b'/' w))))

pushed :
    (name : Text)
    → clean_parts true (name ∷ []) (split b'/' (dots_blank ++ b'/' ∷ dot)) ≡ name ∷ dots_blank ∷ []
unfolding split clean_parts clean_part ◌=ₜ◌
pushed name = refl

popped : (name : Text) → clean_parts true (name ∷ []) (split b'/' dots) ≡ []
unfolding split clean_parts clean_part ◌=ₜ◌
popped name = refl

-- a name, a slash and more
below : Text → Text → Text
below name more = name ++ b'/' ∷ more

module _ (name : Text) (plain : IsPlain name) (back : Lacks backslash name) where
  hole_parts : All IsPlain (name ∷ dots_blank ∷ [])
  hole_parts = (plain, ((λ e. cc, λ e. cc, λ e. cc, omega arith), tt))

  below-Lacks : (more : Text) → Lacks backslash more → Lacks backslash (b'/' ∷ below name more)
  unfolding below
  below-Lacks more h = (omega arith, All-append _ name (b'/' ∷ more) back (omega arith, h))

  split-below : (more : Text) → split b'/' (below name more) ≡ name ∷ split b'/' more
  unfolding below
  split-below more = split-append b'/' name more (IsPlain-Lacks (name ∷ []) (plain, tt)).0

  -- the request keeps its blank, since a "." follows
  clean_request :
      clean_virtual (absolute (name ∷ dots_blank ∷ dot ∷ [])) ≡ absolute (name ∷ dots_blank ∷ [])
  unfolding absolute join below
  clean_request =
      clean_virtual_of_trimmed (below name (dots_blank ++ b'/' ∷ dot)) _
        (below-Lacks (dots_blank ++ b'/' ∷ dot) (omega arith))
        (ap (λ t. trim_right is_space (b'/' ∷ t)) ends
          ∙ trim_right-last is_space (b'/' ∷ name ++ front) b'.' (unfold is_space in refl)
          ∙ ap (λ t. b'/' ∷ t) (sym ends))
      ∙ ap (λ t. absolute (clean_parts true [] t)) (split-below (dots_blank ++ b'/' ∷ dot))
      ∙ ap absolute (
          clean_parts-append true [] (name ∷ []) (split b'/' (dots_blank ++ b'/' ∷ dot)) (plain, tt)
          ∙ pushed name)
    where
      front : Text
      front = b'/' ∷ b'.' ∷ b'.' ∷ b' ' ∷ b'/' ∷ []

      ends : below name (dots_blank ++ b'/' ∷ dot) ≡ (name ++ front) ++ b'.' ∷ []
      ends = sym (append_assoc name front (b'.' ∷ []))

  -- cleaned once more, the path loses its blank and then its parts
  clean_again : clean_virtual (absolute (name ∷ dots_blank ∷ [])) ≡ absolute []
  unfolding absolute join below
  clean_again =
      clean_virtual_of_trimmed (below name dots_blank) (below name dots)
        (below-Lacks dots_blank (omega arith))
        (ap (λ t. trim_right is_space (b'/' ∷ t))
            (sym (append_assoc name (b'/' ∷ dots) (b' ' ∷ [])))
          ∙ trim_right-last_trimmed is_space (b'/' ∷ below name dots) b' ' (unfold is_space in refl)
          ∙ ap (λ t. trim_right is_space (b'/' ∷ t)) ends
          ∙ trim_right-last is_space (b'/' ∷ below name dot) b'.' (unfold is_space in refl)
          ∙ ap (λ t. b'/' ∷ t) (sym ends))
      ∙ ap (λ t. absolute (clean_parts true [] t)) (split-below dots)
      ∙ ap absolute
          (clean_parts-append true [] (name ∷ []) (split b'/' dots) (plain, tt) ∙ popped name)
    where
      ends : below name dots ≡ below name dot ++ b'.' ∷ []
      ends = sym (append_assoc name (b'/' ∷ dot) (b'.' ∷ []))

  -- The test cleans the path that it is given, which is already cleaned: a last part of ".." and a blank
  -- becomes "..", and takes the part before it out of sight. So, whatever the ignore patterns, an entry of
  -- that name is reached in every directory directly below the root, the program's own among them.
  pub ignored_reached :
      (r : Root) (s : IsSound r) (glob : Text → Text → Option Bool)
      → resolve_admin r glob (absolute (name ∷ dots_blank ∷ dot ∷ []))
        ≡ some (absolute (base_of s ++ name ∷ dots_blank ∷ []), absolute (name ∷ dots_blank ∷ []))
  unfolding resolve_admin is_ignored_virtual
  ignored_reached r s glob =
      rw (clean_request, clean_again)
        (rw (real_from_virtual-absolute r s (name ∷ dots_blank ∷ []) hole_parts)
          (unfold absolute join ◌=ₜ◌ in refl))
