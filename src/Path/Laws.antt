-- ===== src/Path/Laws.antt =====
-- A cleaned path is "/" and parts none of which is empty, "." or "..".
use mathlib.Core.List.{append-nil, append_assoc, reverse-cons, reverse_aux, reverse-reverse}
use macftpd.Prelude.{
  ◌≡◌, ◌≢◌, refl, Bool, true, false, List, [], ◌∷◌, ◌++◌, arith, ap, sym, ◌∙◌, reverse, All,
  All-reverse_aux, Bool-cases, inl, inr,
}
use macftpd.Text.{Text, is_empty, trim_space, trim_prefix, split, join, replace, ◌=ₜ◌, =ₜ_iff}
use macftpd.Text.Laws.{Lacks, split-Lacks, split-join, split-append}
use macftpd.Path.{
  backslash, dot, dots, slash, clean_part, clean_parts, absolute, clean, join_paths, clean_virtual,
}

-- A name that stands for one entry of a directory.
abbrev pub IsPlain : Text → Type 0
IsPlain s = (s ≢ []) × (s ≢ dot) × (s ≢ dots) × Lacks b'/' s

clean_part-IsPlain :
    (stack : List Text) (part : Text)
    → All IsPlain stack
    → Lacks b'/' part
    → All IsPlain (clean_part true stack part)
unfolding clean_part
clean_part-IsPlain [] part h k = ground (arith, =ₜ_iff part dot, =ₜ_iff part dots)
clean_part-IsPlain (s ∷ stack) part h k = ground (arith, =ₜ_iff part dot, =ₜ_iff part dots)

clean_parts-IsPlain :
    (stack parts : List Text)
    → All IsPlain stack
    → All (Lacks b'/') parts
    → All IsPlain (clean_parts true stack parts)
unfolding clean_parts
clean_parts-IsPlain stack [] h k = All-reverse_aux IsPlain stack [] h tt
clean_parts-IsPlain stack (part ∷ parts) h (k, ks) =
    clean_parts-IsPlain (clean_part true stack part) parts (clean_part-IsPlain stack part h k) ks

clean_part_of_IsPlain :
    (rooted : Bool) (stack : List Text) (part : Text)
    → IsPlain part
    → clean_part rooted stack part ≡ part ∷ stack
unfolding clean_part
clean_part_of_IsPlain rooted stack part h = ground (arith, =ₜ_iff part dot, =ₜ_iff part dots)

clean_parts_of_IsPlain :
    (rooted : Bool) (stack parts : List Text)
    → All IsPlain parts
    → clean_parts rooted stack parts ≡ reverse stack ++ parts
unfolding clean_parts
clean_parts_of_IsPlain rooted stack [] h = sym (append-nil (reverse stack))
clean_parts_of_IsPlain rooted stack (part ∷ parts) (p, h) =
    ap (λ s. clean_parts rooted s parts) (clean_part_of_IsPlain rooted stack part p)
    ∙ clean_parts_of_IsPlain rooted (part ∷ stack) parts h
    ∙ ap (λ s. s ++ parts) (reverse-cons part stack)
    ∙ append_assoc (reverse stack) (part ∷ []) parts

no_slash : (parts : List Text) → All IsPlain parts → All (Lacks b'/') parts
no_slash [] h = tt
no_slash (s ∷ parts) (p, h) = (p.3, no_slash parts h)

-- Plain parts come back from the path that they make.
pub clean_parts-join :
    (parts : List Text)
    → All IsPlain parts
    → clean_parts true [] (split b'/' (join b'/' parts)) ≡ parts
clean_parts-join [] h = unfold clean_parts split join in refl
clean_parts-join (s ∷ parts) h =
    ap (clean_parts true []) (split-join b'/' s parts (no_slash (s ∷ parts) h))
    ∙ clean_parts_of_IsPlain true [] (s ∷ parts) h

pub clean-absolute :
    (parts : List Text) → All IsPlain parts → clean (absolute parts) ≡ absolute parts
unfolding clean
clean-absolute parts h = ap absolute (clean_parts-join parts h)

-- A path from the root cleans to one with plain parts.
pub clean_rooted :
    (s : Text) → (parts : List Text) × (clean (b'/' ∷ s) ≡ absolute parts) × All IsPlain parts
unfolding clean
clean_rooted s = (
  clean_parts true [] (split b'/' s),
  refl,
  clean_parts-IsPlain [] (split b'/' s) tt (split-Lacks b'/' s),
)

pub absolute-ne-dot : (parts : List Text) → (absolute parts =ₜ dot) ≡ false
unfolding absolute ◌=ₜ◌
absolute-ne-dot parts = refl

-- Whatever is asked for, a cleaned virtual path is "/" and plain parts.
pub clean_virtual-IsPlain :
    (p : Text) → (parts : List Text) × (clean_virtual p ≡ absolute parts) × All IsPlain parts
unfolding clean_virtual
clean_virtual-IsPlain p =
    let q = trim_space (replace backslash b'/' p) in
    elim (Bool-cases (is_empty q)) [
      | inl e ↦ ([], rw e (unfold absolute join in refl), tt)
      | inr e ↦
          let (parts, same, plain) = clean_rooted (trim_prefix q slash) in
          (parts, rw (e, same, absolute-ne-dot parts), plain)
    ]

pub IsPlain-Lacks : (parts : List Text) → All IsPlain parts → All (Lacks b'/') parts
IsPlain-Lacks = no_slash

split-join_append :
    (s : Text) (parts : List Text) (t : Text)
    → All (Lacks b'/') (s ∷ parts)
    → split b'/' (join b'/' (s ∷ parts) ++ b'/' ∷ t) ≡ (s ∷ parts) ++ split b'/' t
unfolding join
split-join_append s [] t h = split-append b'/' s t h.0
split-join_append s (u ∷ parts) t (p, h) =
    ap (split b'/') (append_assoc s (b'/' ∷ join b'/' (u ∷ parts)) (b'/' ∷ t))
    ∙ split-append b'/' s (join b'/' (u ∷ parts) ++ b'/' ∷ t) p
    ∙ ap (λ r. s ∷ r) (split-join_append u parts t h)

pub clean_parts-append :
    (rooted : Bool) (stack parts more : List Text)
    → All IsPlain parts
    → clean_parts rooted stack (parts ++ more) ≡ clean_parts rooted (reverse_aux parts stack) more
unfolding clean_parts
clean_parts-append rooted stack [] more h = refl
clean_parts-append rooted stack (part ∷ parts) more (p, h) =
    ap (λ s. clean_parts rooted s (parts ++ more)) (clean_part_of_IsPlain rooted stack part p)
    ∙ clean_parts-append rooted (part ∷ stack) parts more h

-- Joining a virtual path to a base: the parts of the one behind those of the other.
pub join_paths-absolute :
    (b : Text) (base parts : List Text)
    → All IsPlain (b ∷ base)
    → All IsPlain parts
    → join_paths (absolute (b ∷ base) ∷ trim_prefix (absolute parts) slash ∷ [])
      ≡ absolute ((b ∷ base) ++ parts)
unfolding join_paths clean absolute trim_prefix join
join_paths-absolute b base parts h k = ap absolute (
    ap (clean_parts true []) (split-join_append b base (join b'/' parts) (no_slash (b ∷ base) h))
    ∙ clean_parts-append true [] (b ∷ base) (split b'/' (join b'/' parts)) h
    ∙ onto parts k)
  where
    onto :
        (more : List Text)
        → All IsPlain more
        → clean_parts true (reverse_aux (b ∷ base) []) (split b'/' (join b'/' more))
          ≡ (b ∷ base) ++ more
    onto [] m =
        unfold clean_parts split in (reverse-reverse (b ∷ base) ∙ sym (append-nil (b ∷ base)))
    onto (s ∷ more) m =
        ap (clean_parts true (reverse_aux (b ∷ base) []))
          (split-join b'/' s more (no_slash (s ∷ more) m))
        ∙ clean_parts_of_IsPlain true (reverse_aux (b ∷ base) []) (s ∷ more) m
        ∙ ap (λ r. r ++ s ∷ more) (reverse-reverse (b ∷ base))
