-- ===== src/Http/Upload/Chunks.antt =====
-- What a request with a chunk does to its part.
use macftpd.Prelude.{
  ℕ, zero, suc, ◌+◌, ◌-◌, ◌<◌, ◌≤◌, ◌≡◌, refl, true, false, Option, none, some, [], ◌∷◌, ◌++◌, inl,
  inr, ltb, leb, ◌==◌, length, take, length-append, arith, Bool-cases, ◌∙◌, sym, ap, subst,
}
use macftpd.Text.{Text}
use macftpd.Storage.Os.{Os, IsOs, Result, ok, err, not_exist, M-cases}
use macftpd.Http.Upload.{
  Copying, Taken, copied, failed, exceeds, Reply, refused, refused_at, received, limit_of,
  max_int64, copy_chunk_read, copy_chunk, Finish, completed, counted, copied_to, opened, or_created,
  open_part, started, receive,
}

take-whole : (k : ℕ) (xs : Text) → length (take k xs) < k → take k xs ≡ xs
take-whole zero xs h = absurd (omega arith)
take-whole (suc k) [] h = refl
take-whole (suc k) (x ∷ xs) h = ap (λ t. x ∷ t) (take-whole k xs (omega arith))

-- a chunk that `copyChunk` reports as copied
abbrev pub Copied : Text → Text → ℕ → Text × Taken → Type 0
Copied part chunk remaining (after, copied n) =
    (after ≡ part ++ chunk) × (n ≡ length chunk) × (n ≤ remaining)
Copied part chunk remaining (after, failed n) = Unit
Copied part chunk remaining (after, exceeds) = Unit

copy_read_Copied :
    (io : Copying) (part chunk : Text) (remaining : ℕ) (stops : Option ℕ)
    → remaining < max_int64
    → Copied part chunk remaining
        (copy_chunk_read io part (take (limit_of remaining) chunk) remaining stops)
copy_read_Copied io part chunk remaining (some n) small = tt
copy_read_Copied io part chunk remaining none small =
    let lim : limit_of remaining ≡ remaining + 1 = ground arith in
    elim (Bool-cases (leb (length (take (limit_of remaining) chunk)) remaining)) [
      | inl e ↦
          let fits : length (take (limit_of remaining) chunk) ≤ remaining = ground arith in
          let whole =
            take-whole (limit_of remaining) chunk
              (subst (λ k. length (take (limit_of remaining) chunk) < k) (sym lim) (omega arith)) in
          rw e (ap (λ p. part ++ p) whole, ap length whole, fits)
      | inr e ↦ rw e tt
    ]

pub copy_chunk-Copied :
    (io : Copying) (part chunk : Text) (offset total : ℕ)
    → total < max_int64
    → Copied part chunk (total - offset) (copy_chunk io part chunk offset total)
unfolding copy_chunk
copy_chunk-Copied io part chunk offset total small =
    copy_read_Copied io part chunk (total - offset) io.stops (omega arith)

module _ {S O : Type 0} (os : Os S) (l : IsOs os O) (io : Copying) (finish : Finish os) where
  -- A request is taken with the part as it was before it, and the chunk: what is answered is then true of the
  -- part, and a whole file is handed on.
  abbrev pub Arrived : Text → Text → Text → ℕ → S × Reply → Type 0
  Arrived part before chunk total (s', received n true) =
      (n ≡ length (before ++ chunk))
      × (n ≡ total)
      × ((u : S) × (l.at part u ≡ some (l.file (before ++ chunk))) × (finish u ≡ (s', none)))
  Arrived part before chunk total (s', received n false) =
      (n ≡ length (before ++ chunk))
      × (n < total)
      × (l.at part s' ≡ some (l.file (before ++ chunk)))
  Arrived part before chunk total (s', refused status) = Unit
  Arrived part before chunk total (s', refused_at status n) = Unit

  completed-Arrived :
      (part before chunk : Text) (total n : ℕ) (u : S) (x : S × Option ℕ)
      → finish u ≡ x
      → l.at part u ≡ some (l.file (before ++ chunk))
      → n ≡ length (before ++ chunk)
      → n ≡ total
      → Arrived part before chunk total (completed os n x)
  completed-Arrived part before chunk total n u (s', none) done there size whole =
      (size, whole, (u, there, done))
  completed-Arrived part before chunk total n u (s', some status) done there size whole = tt

  counted-Arrived :
      (part before chunk : Text) (total : ℕ) (after : Text) (taken : Taken) (u : S)
      → length before ≤ total
      → Copied before chunk (total - length before) (after, taken)
      → l.at part u ≡ some (l.file after)
      → Arrived part before chunk total (counted os finish (length before) total taken u)
  counted-Arrived part before chunk total after exceeds u fits is there = tt
  counted-Arrived part before chunk total after (failed n) u fits is there = tt
  counted-Arrived part before chunk total after (copied n) u fits (same, size, room) there =
      let long : length before + n ≡ length (before ++ chunk) =
        ap (λ k. length before + k) size ∙ sym (length-append before chunk) in
      let held = there ∙ ap (λ t. some (l.file t)) same in
      elim (Bool-cases (ltb (length before + n) total)) [
        | inl e ↦ rw e (long, ground arith, held)
        | inr e ↦ rw e (
            completed-Arrived part before chunk total (length before + n) u (finish u) refl held
              long (ground arith))
      ]

  copied_to-Arrived :
      (part before chunk : Text) (total : ℕ) (x : Text × Taken) (s : S)
      → length before ≤ total
      → Copied before chunk (total - length before) x
      → Arrived part before chunk total (copied_to os finish part (length before) total x s)
  copied_to-Arrived part before chunk total (after, taken) s fits is =
      elim (M-cases (os.write_file part after s)) [
        | inr (t, f, e) ↦ rw e tt
        | inl (t, a, e) ↦ rw e (
            counted-Arrived part before chunk total after taken t fits is
              (l.write_ok part after s t e))
      ]

  -- what is in the part, if it is as long as what came before
  abbrev pub Holds : Text → Text → S → Type 0
  Holds part before s =
      (content : Text)
      → l.at part s ≡ some (l.file content)
      → length content ≡ length before
      → content ≡ before

  appended-Arrived :
      (part before chunk content : Text) (total : ℕ) (s : S)
      → total < max_int64
      → length before ≤ total
      → (length content ≡ length before → content ≡ before)
      → Arrived part before chunk total
          (opened os io finish part (length before) total chunk (s, ok content))
  appended-Arrived part before chunk content total s small fits same =
      elim (Bool-cases (length content == length before)) [
        | inr e ↦ rw e tt
        | inl e ↦
            let whole : content ≡ before = same (ground arith) in
            rw e (
              subst
                (λ c. Arrived part before chunk total (
                  copied_to os finish part (length before) total
                    (copy_chunk io c chunk (length before) total) s))
                (sym whole)
                (copied_to-Arrived part before chunk total
                  (copy_chunk io before chunk (length before) total) s fits
                  (copy_chunk-Copied io before chunk (length before) total small)))
      ]

  none_left : (before : Text) → 0 ≡ length before → [] ≡ before
  none_left [] h = refl
  none_left (c ∷ before) h = absurd (omega arith)

  created-Arrived :
      (part before chunk : Text) (total : ℕ) (s : S) (res : Result Text)
      → total < max_int64
      → length before ≤ total
      → Holds part before s
      → os.read_file part s ≡ res
      → Arrived part before chunk total
          (opened os io finish part (length before) total chunk (or_created os part res s))
  created-Arrived part before chunk total s (ok content) small fits holds e =
      appended-Arrived part before chunk content total s small fits
        (holds content (l.read_ok part content s e))
  created-Arrived part before chunk total s (err not_exist) small fits holds e =
      elim (M-cases (os.write_file part [] s)) [
        | inr (t, f, g) ↦ rw g tt
        | inl (t, a, g) ↦
            rw g (appended-Arrived part before chunk [] total t small fits (none_left before))
      ]
  created-Arrived part before chunk total s (err f) small fits holds e = tt

  pub empty-Holds : (part : Text) (s : S) → Holds part [] s
  empty-Holds part s [] there e = refl
  empty-Holds part s (c ∷ content) there e = absurd (omega arith)

  pub at-Holds :
      (part before : Text) (s : S) → l.at part s ≡ some (l.file before) → Holds part before s
  at-Holds part before s there content there' e =
      l.file_exact content before (some_exact (sym there' ∙ there))
    where
      some_exact : {a b : O} → some a ≡ some b → a ≡ b
      some_exact e = cc

  pub receive-Arrived :
      (part before chunk : Text) (total : ℕ) (s : S)
      → total < max_int64
      → length before ≤ total
      → Holds part before s
      → Arrived part before chunk total (receive os io finish part (length before) total chunk s)
  unfolding receive
  receive-Arrived part [] chunk total s small fits holds =
      created-Arrived part [] chunk total (os.remove part s).0
        (os.read_file part (os.remove part s).0) small fits (empty-Holds part (os.remove part s).0)
        refl
  receive-Arrived part (c ∷ before) chunk total s small fits holds =
      let later : (length (c ∷ before) == 0) ≡ false = ground arith in
      subst
        (λ b. Arrived part (c ∷ before) chunk total (
          opened os io finish part (length (c ∷ before)) total chunk
            (open_part os part (started os b part s))))
        (sym later)
        (created-Arrived part (c ∷ before) chunk total s (os.read_file part s) small fits holds
          refl)
