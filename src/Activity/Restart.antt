-- ===== src/Activity/Restart.antt =====
-- A restart reads the log back.
use macftpd.Prelude.{
  ◌+◌, ◌≡◌, refl, Bool, true, false, Option, none, some, List, [], ◌∷◌, ◌++◌, arith, ℤ, sym, ◌∙◌,
  ap, ltb, map,
}
use macftpd.Text.{Text, is_empty, trim_space}
use macftpd.Clock.{Time}
use macftpd.Activity.{Store, new, add, load_line, load_lines, new_file}
use macftpd.Activity.Message.{Event}
use macftpd.Activity.Bounds.{adds}

load_lines-append :
    (lines : List (Option Event)) (line : Option Event) (s : Store)
    → load_lines (lines ++ line ∷ []) s ≡ load_line (load_lines lines s) line
unfolding load_lines
load_lines-append [] line s = refl
load_lines-append (l ∷ lines) line s = load_lines-append lines line (load_line s l)

tail-load_lines : (lines : List (Option Event)) (s : Store) → (load_lines lines s).tail ≡ s.tail
unfolding load_lines
tail-load_lines [] s = refl
tail-load_lines (none ∷ lines) s = tail-load_lines lines s
tail-load_lines (some e ∷ lines) s = tail-load_lines lines (load_line s (some e))

path-load_lines : (lines : List (Option Event)) (s : Store) → (load_lines lines s).path ≡ s.path
unfolding load_lines
path-load_lines [] s = refl
path-load_lines (none ∷ lines) s = path-load_lines lines s
path-load_lines (some e ∷ lines) s = path-load_lines lines (load_line s (some e))

-- What is read does not depend on the lines that the store itself holds.
load_line-file :
    (s : Store) (line : Option Event) (f : List (Option Event))
    → load_line (record s { file = f; tail = none }) line
      ≡ record (load_line s line) { file = f; tail = none }
unfolding load_line
load_line-file s none f = refl
load_line-file s (some e) f = refl

module _ (path : Text) (named : is_empty path ≡ false) where
  -- An addition whose line is written is the reading of one more line.
  add-eq-load_line :
      (now : Time) (e : Event) (s : Store)
      → s.path ≡ path
      → s.tail ≡ none
      → (add true now e s).0 ≡ record (load_line s (some (add true now e s).1)) {
        file = s.file ++ some (add true now e s).1 ∷ [];
        tail = none;
      }
  unfolding add load_line
  add-eq-load_line now e s p ended =
      let up : ltb s.next_id (s.next_id + 1) ≡ true = ground arith in
      let open_file : is_empty s.path ≡ false = rw p named in rw (up, open_file, ended) refl

  -- The store is what reading its own file gives.
  abbrev IsBacked : Store → Store → Type 0
  IsBacked base s =
      (s.path ≡ path)
      × (s.tail ≡ none)
      × (s ≡ record (load_lines s.file base) { file = s.file; tail = none })

  path-add :
      (written : Bool) (now : Time) (e : Event) (s : Store) → (add written now e s).0.path ≡ s.path
  unfolding add
  path-add written now e s = refl

  tail-add : (now : Time) (e : Event) (s : Store) → s.tail ≡ none → (add true now e s).0.tail ≡ none
  unfolding add
  tail-add now e s h = ground arith

  add-IsBacked :
      (base : Store) (now : Time) (e : Event) (s : Store)
      → IsBacked base s
      → IsBacked base (add true now e s).0
  add-IsBacked base now e s (p, ended, b) =
      (path-add true now e s ∙ p, tail-add now e s ended, again)
    where
      line : Option Event
      line = some (add true now e s).1

      step :
          load_line s line
          ≡ record (load_lines (s.file ++ line ∷ []) base) { file = s.file; tail = none }
      step =
          ap (λ t. load_line t line) b
          ∙ load_line-file (load_lines s.file base) line s.file
          ∙ ap (λ (t : Store). record t { file = s.file; tail = none })
              (sym (load_lines-append s.file line base))

      now_file : (add true now e s).0 ≡ record (load_lines (s.file ++ line ∷ []) base) {
        file = s.file ++ line ∷ [];
        tail = none;
      }
      now_file =
          add-eq-load_line now e s p ended
          ∙ ap (λ (t : Store). record t { file = s.file ++ line ∷ []; tail = none }) step

      lines : (add true now e s).0.file ≡ s.file ++ line ∷ []
      lines = ap (λ (t : Store). t.file) now_file

      again : (add true now e s).0 ≡ record (load_lines (add true now e s).0.file base) {
        file = (add true now e s).0.file;
        tail = none;
      }
      again = now_file ∙ ap (λ f. record (load_lines f base) { file = f; tail = none }) (sym lines)

  adds-IsBacked :
      (base : Store) (es : List (Time × Event)) (s : Store)
      → IsBacked base s
      → IsBacked base (adds (map (λ x. (true, x.0, x.1)) es) s)
  unfolding adds
  adds-IsBacked base [] s b = b
  adds-IsBacked base ((now, e) ∷ es) s b =
      adds-IsBacked base es (add true now e s).0 (add-IsBacked base now e s b)

-- After a start on a file that ends in a newline or is empty, and any additions whose lines are all written, a restart
-- on the file as it is then gives the same store: the same events, identifiers and counter. Lines that do not decode
-- may be in the file; no line, old or new, is longer than a start can read.
pub new_file-adds :
    (limit : ℤ) (path : Text) (lines : List (Option Event)) (es : List (Time × Event))
    → is_empty (trim_space path) ≡ false
    → new_file limit path
        (adds (map (λ x. (true, x.0, x.1)) es) (new_file limit path lines none)).file
        (adds (map (λ x. (true, x.0, x.1)) es) (new_file limit path lines none)).tail
      ≡ adds (map (λ x. (true, x.0, x.1)) es) (new_file limit path lines none)
unfolding new_file adds
new_file-adds limit path lines es h =
    let base : Store = record (new limit) { path = trim_space path } in
    let b =
      adds-IsBacked (trim_space path) h base es
        (record (load_lines lines base) { file = lines; tail = none })
        (path-load_lines lines base, refl, refl) in
    rw (h, b.1) (sym b.2)
