-- ===== src/Http/Sessions/Issued.antt =====
-- Which cookies are taken for a session.
use macftpd.Prelude.{
  ℕ, ◌^◌, ◌<◌, ◌≡◌, refl, Bool, true, false, not, Option, none, some, List, [], ◌∷◌, ◌++◌, ◌∙◌, ap,
  subst, if◌then◌else◌, arith, All, ◌≢◌, pos, Bool-cases, Option-cases, inl, inr,
}
use macftpd.Text.{Text, split, join, ◌=ₜ◌, =ₜ_iff}
use macftpd.Text.Laws.{Lacks, join-append, split-join, =ₜ_refl}
use macftpd.Clock.{Time, after}
use macftpd.Ftp.Ports.{print_nat}
use macftpd.Ftp.Ports.Numbers.{print_nat-All}
use macftpd.Http.Sessions.{
  Signer, IsSigner, from_unix, expiry, in_time, session_cookie, session_of, session_decoded,
  verify_session, share_cookie, verify_share_cookie,
}

number-Lacks : (n : ℕ) → Lacks b'|' (print_nat n)
number-Lacks n = print_nat-All (λ c. c ≢ b'|') (λ d h. ground arith) n

-- parts behind bars, and one more, are read back
split_signed :
    (x y : Text) (xs : List Text)
    → All (Lacks b'|') ((x ∷ xs) ++ y ∷ [])
    → split b'|' (join b'|' (x ∷ xs) ++ b'|' ∷ y) ≡ (x ∷ xs) ++ y ∷ []
unfolding join
split_signed x y xs lack =
    ap (λ t. split b'|' t) (join-append b'|' x y xs []) ∙ split-join b'|' x (xs ++ y ∷ []) lack

decided :
    (late : Bool) (name : Text)
    → (if not late then some name else none) ≡ (if late then none else some name)
decided true name = refl
decided false name = refl

module _ (c : Signer) (ok : IsSigner c) where
  -- a text of three parts with its signature is a session
  signed_session :
      (now : Time) (name nonce : Text) (n : ℕ)
      → Lacks b'|' name
      → Lacks b'|' nonce
      → n < 2 ^ 63
      → verify_session c now (
          c.encode (
            join b'|' (name ∷ print_nat n ∷ nonce ∷ [])
            ++ b'|' ∷ c.sign (join b'|' (name ∷ print_nat n ∷ nonce ∷ []))))
        ≡ (if after now (from_unix (pos n)) then none else some name)
  unfolding verify_session
  signed_session now name nonce n plain_name plain_nonce small =
      rw
        (
          ok.decode_encode (
              join b'|' (name ∷ print_nat n ∷ nonce ∷ [])
              ++ b'|' ∷ c.sign (join b'|' (name ∷ print_nat n ∷ nonce ∷ []))),
          split_signed name (c.sign (join b'|' (name ∷ print_nat n ∷ nonce ∷ [])))
              (print_nat n ∷ nonce ∷ [])
              (plain_name, (number-Lacks n, (plain_nonce, (ok.plain_sign _, tt)))),
          =ₜ_refl (c.sign (join b'|' (name ∷ print_nat n ∷ nonce ∷ []))),
          ok.scan_print n small,
        )
        (decided (after now (from_unix (pos n))) name)

  -- The cookie that a login sets names the user until twelve hours have passed, to the second, and nobody
  -- after that. User names have no bar.
  pub verify_session-session_cookie :
      (set now : Time) (username nonce : Text)
      → Lacks b'|' username
      → expiry set < 2 ^ 63
      → verify_session c now (session_cookie c set username nonce)
        ≡ (if after now (from_unix (pos (expiry set))) then none else some username)
  unfolding session_cookie
  verify_session-session_cookie set now username nonce plain small =
      signed_session now username (c.encode nonce) (expiry set) plain (ok.plain_encode nonce) small

  -- The cookie of a protected link lets in who has the token of the link until twelve hours have passed.
  pub verify_share_cookie-share_cookie :
      (set now : Time) (id token : Text)
      → Lacks b'|' id
      → expiry set < 2 ^ 63
      → verify_share_cookie c now (some (share_cookie c set id token)) id token
        ≡ not (after now (from_unix (pos (expiry set))))
  unfolding verify_share_cookie share_cookie
  verify_share_cookie-share_cookie set now id token plain small =
      rw
        (
          ok.decode_encode (
              join b'|' (id ∷ print_nat (expiry set) ∷ [])
              ++ b'|' ∷ c.sign (join b'|' (id ∷ print_nat (expiry set) ∷ []) ++ b'|' ∷ token)),
          split_signed id (c.sign (join b'|' (id ∷ print_nat (expiry set) ∷ []) ++ b'|' ∷ token))
              (print_nat (expiry set) ∷ [])
              (plain, (number-Lacks (expiry set), (ok.plain_sign _, tt))),
          =ₜ_refl id,
          =ₜ_refl (c.sign (join b'|' (id ∷ print_nat (expiry set) ∷ []) ++ b'|' ∷ token)),
          ok.scan_print (expiry set) small,
        )
        (ground arith)

  -- The signature in the cookie of a protected link also signs a session: with the token of the link put
  -- before it, the cookie is taken for a session of a user that is named as the link is.
  pub share_cookie-is_session :
      (set now : Time) (id token : Text)
      → Lacks b'|' id
      → Lacks b'|' token
      → expiry set < 2 ^ 63
      → after now (from_unix (pos (expiry set))) ≡ false
      → (payload : Text) × (mac : Text) × (share_cookie c set id token
          ≡ c.encode (payload ++ b'|' ∷ mac))
        × (verify_session c now (c.encode ((payload ++ b'|' ∷ token) ++ b'|' ∷ mac)) ≡ some id)
  unfolding share_cookie verify_session join
  share_cookie-is_session set now id token plain_id plain_token small early = (
    join b'|' (id ∷ print_nat (expiry set) ∷ []),
    c.sign (join b'|' (id ∷ print_nat (expiry set) ∷ []) ++ b'|' ∷ token),
    refl,
    rw (join-append b'|' id token (print_nat (expiry set) ∷ []) [])
        (signed_session now id token (expiry set) plain_id plain_token small ∙ rw early refl),
  )

  abbrev session_if : Signer → Time → Bool → Text → Text → Option Text
  session_if c now right a b =
      if not right then none else if in_time c now (c.scan b) then some a else none

  session_parts :
      (now : Time) (name : Text) (ps : List Text)
      → session_of c now ps ≡ some name
      → (until : Text) × (nonce : Text) × (ps
          ≡ name ∷ until ∷ nonce ∷ c.sign (join b'|' (name ∷ until ∷ nonce ∷ [])) ∷ [])
        × (in_time c now (c.scan until) ≡ true)
  session_parts now name [] h = cc
  session_parts now name (a ∷ []) h = cc
  session_parts now name (a ∷ b ∷ []) h = cc
  session_parts now name (a ∷ b ∷ d ∷ []) h = cc
  session_parts now name (a ∷ b ∷ d ∷ e ∷ f ∷ ps) h = cc
  session_parts now name (a ∷ b ∷ d ∷ mac ∷ []) h =
      elim (Bool-cases (c.sign (join b'|' (a ∷ b ∷ d ∷ [])) =ₜ mac)) [
        | inr e ↦ absurd (let bad = subst (λ x. session_if c now x a b ≡ some name) e h in cc)
        | inl e ↦
            let mine : session_if c now true a b ≡ some name =
              subst (λ x. session_if c now x a b ≡ some name) e h in
            let signed : c.sign (join b'|' (a ∷ b ∷ d ∷ [])) ≡ mac = (=ₜ_iff _ mac).0 e in
            elim (Bool-cases (in_time c now (c.scan b))) [
              | inr late ↦
                  absurd (
                    let bad = subst (λ x. (if x then some a else none) ≡ some name) late mine in cc)
              | inl early ↦
                  let same = subst (λ x. (if x then some a else none) ≡ some name) early mine in
                  (b, d, cc, early)
            ]
      ]

  -- Nothing is taken for a session but what the key of the server signed: the cookie holds a text of three
  -- parts, which the name leads, with its signature.
  pub verify_session_sound :
      (now : Time) (raw name : Text)
      → verify_session c now raw ≡ some name
      → (until : Text) × (nonce : Text) × (token : Text) × (c.decode raw ≡ some token)
        × (split b'|' token
            ≡ name ∷ until ∷ nonce ∷ c.sign (join b'|' (name ∷ until ∷ nonce ∷ [])) ∷ [])
        × (in_time c now (c.scan until) ≡ true)
  unfolding verify_session
  verify_session_sound now raw name h = elim (Option-cases (c.decode raw)) [
    | inl e ↦ absurd (let bad = subst (λ d. session_decoded c now d ≡ some name) e h in cc)
    | inr (token, e) ↦
        let (until, nonce, parts, early) =
          session_parts now name (split b'|' token)
            (subst (λ d. session_decoded c now d ≡ some name) e h) in
        (until, nonce, token, e, parts, early)
  ]
