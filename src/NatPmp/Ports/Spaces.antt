-- ===== src/NatPmp/Ports/Spaces.antt =====
-- White space around a specification of ports makes no difference.
use macftpd.Prelude.{
  ℕ, ◌≡◌, refl, Bool, true, false, ◌&&◌, List, [], ◌∷◌, ◌∙◌, sym, ap, inl, inr, Bool-cases, arith,
  map, if◌then◌else◌, ◌==◌,
}
use macftpd.Text.{Text, trim_left, trim_right, trim_space, is_space, is_empty, split, cons_head}
use macftpd.Text.Laws.{trim_right_idempotent}
use macftpd.NatPmp.Ports.{parse_parts, parse_ports}

abbrev cut_right : Text → Text
cut_right = trim_right is_space

pub empty_nil : (s : Text) → is_empty s ≡ true → s ≡ []
empty_nil [] e = refl
empty_nil (c ∷ s) e = cc

trim_space-cut_right : (s : Text) → trim_space (cut_right s) ≡ trim_space s
unfolding trim_space trim_left trim_right
trim_space-cut_right [] = refl
trim_space-cut_right (c ∷ s) = elim (Bool-cases (is_space c)) [
  | inl e ↦ elim (Bool-cases (is_empty (cut_right s))) [
    | inl f ↦ rw (e, f) (sym (ap trim_space (empty_nil (cut_right s) f)) ∙ trim_space-cut_right s)
    | inr f ↦ rw (e, f, e) (trim_space-cut_right s)
  ]
  | inr e ↦ rw (e, e, trim_right_idempotent is_space s, e) refl
]

-- the head of the parts gets a character
abbrev cons_cut : ℕ → List Text → List Text
cons_cut c [] = cut_right (c ∷ []) ∷ []
cons_cut c (t ∷ ts) = (if is_space c && is_empty t then [] else c ∷ t) ∷ ts

map-cons_head :
    (c : ℕ) (ts : List Text) → map cut_right (cons_head c ts) ≡ cons_cut c (map cut_right ts)
unfolding trim_right
map-cons_head c [] = refl
map-cons_head c (t ∷ ts) = refl

and_right : (a b : Bool) → (a && b) ≡ true → b ≡ true
and_right true b e = e
and_right false b e = absurd (ground arith)

space_apart : (c : ℕ) → is_space c ≡ true → (c == b',') ≡ false
unfolding is_space
space_apart c e = ground arith

-- a text of which nothing is left
split-cut_all :
    (c : ℕ) (s : Text) (x : Bool)
    → is_space c ≡ x
    → (is_space c && is_empty (cut_right s)) ≡ true
    → map cut_right (split b',' (cut_right s)) ≡ map cut_right (split b',' s)
    → map cut_right (split b',' (cut_right (c ∷ s))) ≡ map cut_right (split b',' (c ∷ s))
unfolding split trim_right
split-cut_all c s false e f same = absurd (ground arith)
split-cut_all c s true e f same =
    rw (f, space_apart c e)
      (sym (
        map-cons_head c (split b',' s)
        ∙ ap (cons_cut c) (
            sym same
            ∙ ap (λ x. map cut_right (split b',' x))
                (empty_nil (cut_right s) (and_right (is_space c) (is_empty (cut_right s)) f)))
        ∙ rw e refl))

split-cut_right :
    (s : Text) → map cut_right (split b',' (cut_right s)) ≡ map cut_right (split b',' s)
unfolding split trim_right
split-cut_right [] = refl
split-cut_right (c ∷ s) = elim (Bool-cases (is_space c && is_empty (cut_right s))) [
  | inl e ↦ split-cut_all c s (is_space c) refl e (split-cut_right s)
  | inr e ↦ elim (Bool-cases (c == b',')) [
    | inl f ↦ rw (e, f) (ap (λ ts. [] ∷ ts) (split-cut_right s))
    | inr f ↦
        rw (e, f)
          (map-cons_head c (split b',' (cut_right s))
            ∙ ap (cons_cut c) (split-cut_right s)
            ∙ sym (map-cons_head c (split b',' s)))
  ]
]

parse_parts-map : (ts : List Text) → parse_parts (map cut_right ts) ≡ parse_parts ts
unfolding parse_parts
parse_parts-map [] = refl
parse_parts-map (t ∷ ts) = rw (trim_space-cut_right t, parse_parts-map ts) refl

parse_ports-cut_right : (s : Text) → parse_ports (cut_right s) ≡ parse_ports s
unfolding parse_ports
parse_ports-cut_right s =
    sym (parse_parts-map (split b',' (cut_right s)))
    ∙ ap parse_parts (split-cut_right s)
    ∙ parse_parts-map (split b',' s)

parse_parts-cons_head :
    (c : ℕ) (ts : List Text) → is_space c ≡ true → parse_parts (cons_head c ts) ≡ parse_parts ts
unfolding parse_parts trim_space trim_left trim_right
parse_parts-cons_head c [] e = rw e refl
parse_parts-cons_head c (t ∷ ts) e = rw e refl

parse_ports-trim_left : (s : Text) → parse_ports (trim_left is_space s) ≡ parse_ports s
unfolding parse_ports trim_left split
parse_ports-trim_left [] = refl
parse_ports-trim_left (c ∷ s) = elim (Bool-cases (is_space c)) [
  | inr e ↦ rw e refl
  | inl e ↦
      rw (e, space_apart c e)
        (parse_ports-trim_left s ∙ sym (parse_parts-cons_head c (split b',' s) e))
]

pub parse_ports-trim_space : (s : Text) → parse_ports (trim_space s) ≡ parse_ports s
unfolding trim_space
parse_ports-trim_space s = parse_ports-cut_right (trim_left is_space s) ∙ parse_ports-trim_left s
