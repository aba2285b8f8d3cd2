-- ===== src/Products/Cursor/RoundTrip.antt =====
-- decode_cursor after encode_cursor, under what Python's JSON and base64 document.
use phyllonix.Base.{
  ℕ, ◌+◌, ◌-◌, ◌≡◌, ◌≤◌, refl, ap, true, Option, none, some, List, [], ◌∷◌, ◌++◌, ltb,
  if◌then◌else◌, ok, err, http, arith, Bool-cases, inl, inr, sym,
}
use phyllonix.Products.Cursor.Base64.{
  Text, IsBytes, Lacks, urlsafe_b64encode, padded, padded-rstrip, urlsafe_b64encode-Lacks,
  rstrip-Lacks,
}
use phyllonix.Products.Cursor.{
  CursorPayload, extend_part, split, same_text, is_expired, encode_cursor, checked_payload,
  checked_signature, decode_parts, decode_cursor,
}

split_whole : (sep : ℕ) (ys : Text) → Lacks sep ys → split ys sep ≡ ys ∷ []
unfolding split extend_part
split_whole sep [] k = refl
split_whole sep (y ∷ ys) k = ground (arith, k.0, split_whole sep ys k.1)

split-append :
    (sep : ℕ) (xs ys : Text)
    → Lacks sep xs
    → Lacks sep ys
    → split (xs ++ sep ∷ ys) sep ≡ xs ∷ ys ∷ []
unfolding split extend_part
split-append sep [] ys h k = ground (arith, split_whole sep ys k)
split-append sep (x ∷ xs) ys h k = ground (arith, h.0, split-append sep xs ys h.1 k)

same_text_refl : (xs : Text) → same_text xs xs ≡ true
unfolding same_text
same_text_refl [] = refl
same_text_refl (x ∷ xs) = ground (arith, same_text_refl xs)

same_text-eq : (xs ys : Text) → same_text xs ys ≡ true → xs ≡ ys
unfolding same_text
same_text-eq [] [] h = refl
same_text-eq [] (y ∷ ys) h = cc
same_text-eq (x ∷ xs) [] h = cc
same_text-eq (x ∷ xs) (y ∷ ys) h = ground (arith, same_text-eq xs ys)

module _ (sign : Text → Text) (loads : Text → Option CursorPayload)
    (urlsafe_b64decode : Text → Option Text) where
  checked_payload-ok :
      (now max_age : ℕ) (at : ℕ × ℕ) (o : Option CursorPayload)
      → checked_payload sign loads urlsafe_b64decode now (some max_age) o ≡ ok at
      → (p : CursorPayload) × (o ≡ some p) × (at ≡ (p.created_at, p.id)) × (now ≤ p.t + max_age)
  unfolding checked_payload is_expired
  checked_payload-ok now max_age at none h = cc
  checked_payload-ok now max_age at (some p) h = (p, refl, ground arith, ground arith)

  checked_signature-ok :
      (now max_age : ℕ) (at : ℕ × ℕ) (sig : Text) (o : Option Text)
      → checked_signature sign loads urlsafe_b64decode now (some max_age) sig o ≡ ok at
      → (raw : Text) × (p : CursorPayload) × (sign raw ≡ sig)
        × (o ≡ some raw)
        × (loads raw ≡ some p)
        × (at ≡ (p.created_at, p.id))
        × (now ≤ p.t + max_age)
  unfolding checked_signature
  checked_signature-ok now max_age at sig none h = cc
  checked_signature-ok now max_age at sig (some raw) h =
      elim (Bool-cases (same_text (sign raw) sig)) [
        | inl same ↦
            let (p, e, k, l) = checked_payload-ok now max_age at (loads raw) (rw same at h) in
            (raw, p, same_text-eq (sign raw) sig same, refl, e, k, l)
        | inr other ↦ absurd (ground arith)
      ]

  decode_parts-ok :
      (now max_age : ℕ) (at : ℕ × ℕ) (parts : List Text)
      → decode_parts sign loads urlsafe_b64decode now (some max_age) parts ≡ ok at
      → (token_part : Text) × (raw : Text) × (p : CursorPayload) × (parts
          ≡ token_part ∷ sign raw ∷ [])
        × (urlsafe_b64decode (padded token_part) ≡ some raw)
        × (loads raw ≡ some p)
        × (at ≡ (p.created_at, p.id))
        × (now ≤ p.t + max_age)
  unfolding decode_parts
  decode_parts-ok now max_age at [] h = cc
  decode_parts-ok now max_age at (x ∷ []) h = cc
  decode_parts-ok now max_age at (x ∷ y ∷ []) h =
      let (raw, p, sig, e, f, k, l) =
        checked_signature-ok now max_age at y (urlsafe_b64decode (padded x)) h in
      (x, raw, p, ap (λ s. x ∷ s ∷ []) (sym sig), e, f, k, l)
  decode_parts-ok now max_age at (x ∷ y ∷ z ∷ zs) h = cc

  -- With a JSON writer that writes bytes which the reader reads back, a base64 decoder that inverts
  -- the encoder on bytes, and signatures without a `.`: a cursor decodes to the position it was made
  -- from, unless more than max_age seconds have passed since then, which is refused with status 400.
  pub decode_cursor-encode_cursor :
      (dumps : CursorPayload → Text)
      → ((p : CursorPayload) → IsBytes (dumps p))
      → ((p : CursorPayload) → loads (dumps p) ≡ some p)
      → ((r : Text) → IsBytes r → urlsafe_b64decode (urlsafe_b64encode r) ≡ some r)
      → ((r : Text) → Lacks 46 (sign r))
      → (issued now last_cursor last_cursor_id ttl_seconds max_age : ℕ)
      → decode_cursor sign loads urlsafe_b64decode now
          (encode_cursor sign dumps issued last_cursor last_cursor_id ttl_seconds)
          (some max_age)
        ≡ (if ltb max_age (now - issued) then err (http 400) else ok (last_cursor, last_cursor_id))
  unfolding encode_cursor decode_cursor
  decode_cursor-encode_cursor dumps bytes json base64 plain issued now last id ttl max_age =
      rw
        (split-append 46 _ (sign raw)
          (rstrip-Lacks 46 61 _ (urlsafe_b64encode-Lacks raw (bytes payload))) (plain raw))
        (unfold decode_parts checked_signature checked_payload is_expired in
          rw (
            padded-rstrip raw (bytes payload),
            base64 raw (bytes payload),
            same_text_refl,
            json payload,
          ))
    where
      payload : CursorPayload
      payload = record { t = issued; ttl = ttl; created_at = last; id = id }

      raw : Text
      raw = dumps payload

  -- A token that decodes has exactly two parts, its second part is the signature of the payload that
  -- its first part holds, and the position is that payload's, which is at most max_age seconds old:
  -- no position is accepted that the key did not sign.
  pub decode_cursor_signed :
      (now : ℕ) (token : Text) (max_age : ℕ) (at : ℕ × ℕ)
      → decode_cursor sign loads urlsafe_b64decode now token (some max_age) ≡ ok at
      → (token_part : Text) × (raw : Text) × (p : CursorPayload) × (split token 46
          ≡ token_part ∷ sign raw ∷ [])
        × (urlsafe_b64decode (padded token_part) ≡ some raw)
        × (loads raw ≡ some p)
        × (at ≡ (p.created_at, p.id))
        × (now ≤ p.t + max_age)
  unfolding decode_cursor
  decode_cursor_signed now token max_age at h = decode_parts-ok now max_age at (split token 46) h
