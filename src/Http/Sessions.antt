-- ===== src/Http/Sessions.antt =====
-- internal/httpapi/server.go: the cookies of an administrator's session and of a protected link.
pub mod Issued
use macftpd.Prelude.{
  ℕ, ◌+◌, ◌-◌, ◌*◌, ◌/◌, ◌^◌, ◌<◌, ◌≡◌, Bool, true, false, ◌&&◌, not, Option, none, some, List, [],
  ◌∷◌, ◌++◌, if◌then◌else◌, ℤ, pos, negsuc,
}
use macftpd.Text.{Text, codes, split, join, ◌=ₜ◌}
use macftpd.Text.Laws.{Lacks}
use macftpd.Clock.{Time, after, second, hour}
use macftpd.Ftp.Ports.{print_nat}

-- `sign` is the base64 of the HMAC of a text under the key of the server, `encode` and `decode` are
-- `base64.RawURLEncoding`, and `scan` is `fmt.Sscanf` of "%d".
pub record Signer : Type 0 where
  pub sign : Text → Text
  pub encode : Text → Text
  pub decode : Text → Option Text
  pub scan : Text → Option ℤ

-- What is relied on: an encoding is decoded to what it is of, has no bar, and a number that is printed is scanned.
pub record IsSigner (c : Signer) : Type 0 where
  pub decode_encode : (s : Text) → c.decode (c.encode s) ≡ some s
  pub plain_encode : (s : Text) → Lacks b'|' (c.encode s)
  pub plain_sign : (s : Text) → Lacks b'|' (c.sign s)
  pub scan_print : (n : ℕ) → n < 2 ^ 63 → c.scan (print_nat n) ≡ some (pos n)

-- the time of the Unix epoch, and seconds from it on
abbrev pub epoch : Time
epoch = 62135596800 * second

abbrev pub unix : Time → ℕ
unix t = (t - epoch) / second

abbrev pub from_unix : ℤ → Time
from_unix (pos n) = epoch + n * second
from_unix (negsuc n) = epoch - (n + 1) * second

abbrev pub expiry : Time → ℕ
expiry now = unix (now + 12 * hour)

module _ (c : Signer) where
  -- `time.Now().After(time.Unix(unix, 0))` is false, for a text that scans
  abbrev pub in_time : Time → Option ℤ → Bool
  in_time now none = false
  in_time now (some n) = not (after now (from_unix n))

  abbrev pub session_payload : Time → Text → Text → Text
  session_payload now username nonce =
      join b'|' (username ∷ print_nat (expiry now) ∷ c.encode nonce ∷ [])

  -- the cookie that `setSession` sets
  unfoldable pub session_cookie : Time → Text → Text → Text
  session_cookie now username nonce =
      let payload = session_payload now username nonce in
      c.encode (payload ++ b'|' ∷ c.sign payload)

  abbrev pub session_of : Time → List Text → Option Text
  session_of now (name ∷ until ∷ nonce ∷ mac ∷ []) =
      if not (c.sign (join b'|' (name ∷ until ∷ nonce ∷ [])) =ₜ mac)
      then none
      else if in_time now (c.scan until)
      then some name
      else none
  session_of now parts = none

  abbrev pub session_decoded : Time → Option Text → Option Text
  session_decoded now none = none
  session_decoded now (some token) = session_of now (split b'|' token)

  -- `verifySession`
  unfoldable pub verify_session : Time → Text → Option Text
  verify_session now raw = session_decoded now (c.decode raw)

  abbrev pub share_payload : Time → Text → Text
  share_payload now id = join b'|' (id ∷ print_nat (expiry now) ∷ [])

  -- the cookie that `setShareCookie` sets
  unfoldable pub share_cookie : Time → Text → Text → Text
  share_cookie now id token =
      let payload = share_payload now id in
      c.encode (payload ++ b'|' ∷ c.sign (payload ++ b'|' ∷ token))

  abbrev pub share_of : Time → Text → Text → List Text → Bool
  share_of now id token (name ∷ until ∷ mac ∷ []) =
      (name =ₜ id)
      && in_time now (c.scan until)
      && (c.sign (join b'|' (name ∷ until ∷ []) ++ b'|' ∷ token) =ₜ mac)
  share_of now id token parts = false

  abbrev pub share_decoded : Time → Text → Text → Option Text → Bool
  share_decoded now id token none = false
  share_decoded now id token (some value) = share_of now id token (split b'|' value)

  abbrev pub with_cookie : Time → Text → Text → Option Text → Bool
  with_cookie now id token none = false
  with_cookie now id token (some raw) = share_decoded now id token (c.decode raw)

  -- `verifyShareCookie`
  unfoldable pub verify_share_cookie : Time → Option Text → Text → Text → Bool
  verify_share_cookie now cookie id token = with_cookie now id token cookie
