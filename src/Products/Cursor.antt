-- ===== src/Products/Cursor.antt =====
-- The cursor of backend/products/utils.py: encode_cursor and decode_cursor. A text is the list of
-- its code points. Parameters stand for the HMAC (`sign`, with its base64), for Python's JSON
-- writer and reader of the payload, and for base64.urlsafe_b64decode, which the reader calls.
pub mod Base64
pub mod RoundTrip
use phyllonix.Base.{
  ℕ, ◌+◌, ◌-◌, ◌%◌, ◌≡◌, Bool, true, false, not, Option, none, some, List, [], ◌∷◌, ◌++◌, ltb, ◌==◌,
  ◌&&◌, if◌then◌else◌, length, All, Result, ok, err, http, crash,
}
use phyllonix.Products.Cursor.Base64.{Text, urlsafe_b64encode, rstrip, padded}

-- `{"t": …, "ttl": …, "s": [created_at, id]}`
pub record CursorPayload : Type 0 where
  pub t : ℕ
  pub ttl : ℕ
  pub created_at : ℕ
  pub id : ℕ

-- `token.split(".")`
unfoldable pub extend_part : ℕ → List Text → List Text
extend_part c [] = (c ∷ []) ∷ []
extend_part c (p ∷ ps) = (c ∷ p) ∷ ps

unfoldable pub split : Text → ℕ → List Text
unfolding extend_part
split [] sep = [] ∷ []
split (c ∷ s) sep = let rest = split s sep in if c == sep then [] ∷ rest else extend_part c rest

-- hmac.compare_digest of two texts
unfoldable pub same_text : Text → Text → Bool
same_text [] [] = true
same_text [] (y ∷ ys) = false
same_text (x ∷ xs) [] = false
same_text (x ∷ xs) (y ∷ ys) = x == y && same_text xs ys

-- `max_age is not None and int(time.time()) - payload.get("t", 0) > max_age`; a `t` in the future
-- makes the difference negative, so it is never larger.
unfoldable pub is_expired : ℕ → Option ℕ → CursorPayload → Bool
is_expired now none p = false
is_expired now (some max_age) p = ltb max_age (now - p.t)

module _ (sign : Text → Text) (dumps : CursorPayload → Text) where
  unfoldable pub encode_cursor : ℕ → ℕ → ℕ → ℕ → Text
  unfolding urlsafe_b64encode rstrip
  encode_cursor now last_cursor last_cursor_id ttl_seconds =
      let raw =
        dumps
          (record { t = now; ttl = ttl_seconds; created_at = last_cursor; id = last_cursor_id }) in
      rstrip 61 (urlsafe_b64encode raw) ++ 46 ∷ sign raw

module _ (sign : Text → Text) (loads : Text → Option CursorPayload)
    (urlsafe_b64decode : Text → Option Text) where
  -- After the signature: json.loads raises on a text that is no payload, which is not caught.
  unfoldable pub checked_payload : ℕ → Option ℕ → Option CursorPayload → Result (ℕ × ℕ)
  unfolding is_expired
  checked_payload now max_age none = err crash
  checked_payload now max_age (some p) =
      if is_expired now max_age p then err (http 400) else ok (p.created_at, p.id)

  -- After the base64 decoder, whose binascii.Error is not caught.
  unfoldable pub checked_signature : ℕ → Option ℕ → Text → Option Text → Result (ℕ × ℕ)
  unfolding same_text checked_payload
  checked_signature now max_age sig_part none = err crash
  checked_signature now max_age sig_part (some raw) =
      if same_text (sign raw) sig_part
      then checked_payload now max_age (loads raw)
      else err (http 400)

  unfoldable pub decode_parts : ℕ → Option ℕ → List Text → Result (ℕ × ℕ)
  unfolding padded checked_signature
  decode_parts now max_age (token_part ∷ sig_part ∷ []) =
      checked_signature now max_age sig_part (urlsafe_b64decode (padded token_part))
  decode_parts now max_age _ = err (http 400)

  unfoldable pub decode_cursor : ℕ → Text → Option ℕ → Result (ℕ × ℕ)
  unfolding split decode_parts
  decode_cursor now token max_age = decode_parts now max_age (split token 46)
