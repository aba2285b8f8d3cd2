-- ===== src/Products/Route/Browse.antt =====
-- A client with tokens reads what one with positions reads, and so the whole listing.
use mathlib.Core.List.{Perm}
use phyllonix.Base.{
  All, ap, true, ℕ, ◌+◌, ◌-◌, ◌≤◌, ◌<◌, ◌≡◌, refl, ◌∙◌, Option, none, some, List, [], ◌∷◌, ok, err,
  http, length, ltb, if◌then◌else◌, arith, Option-cases, inl, inr,
}
use phyllonix.Products.Pages.{ProductRow, Position, loader, browse}
use phyllonix.Products.Pages.Sorting.{DistinctIds, IsListed}
use phyllonix.Products.Pages.Complete.{browse_lem}
use phyllonix.Products.Cursor.Base64.{Text, IsBytes, Lacks, urlsafe_b64encode}
use phyllonix.Products.Cursor.{CursorPayload, encode_cursor, decode_cursor}
use phyllonix.Products.Cursor.RoundTrip.{decode_cursor-encode_cursor}
use phyllonix.Products.Route.{
  Listing, Visit, with_token, cursor_vals_of, is_limit, get_products, visit,
}

-- PRODUCT_LIST_TTL
abbrev pub product_list_ttl : ℕ
product_list_ttl = 210

-- Each request comes at most a day after the one before, less the time that a page is cached.
abbrev pub IsPrompt : ℕ → List Visit → Type 0
IsPrompt since [] = Unit
IsPrompt since (v ∷ visits) = (v.at + product_list_ttl ≤ since + 86400) × IsPrompt v.at visits

-- The first request comes at most a day after the token was issued.
abbrev IsStarted : ℕ → List Visit → Type 0
IsStarted issued [] = Unit
IsStarted issued (v ∷ visits) = (v.at ≤ issued + 86400) × IsPrompt v.at visits

IsStarted-prompt :
    (last since : ℕ) (visits : List Visit)
    → last ≤ since + product_list_ttl
    → IsPrompt last visits
    → IsStarted since visits
IsStarted-prompt last since [] h p = tt
IsStarted-prompt last since (v ∷ visits) h p = (omega (arith, p.0), p.1)

module _ (sign : Text → Text) (dumps : CursorPayload → Text) (loads : Text → Option CursorPayload)
    (urlsafe_b64decode : Text → Option Text) (bytes : (p : CursorPayload) → IsBytes (dumps p))
    (json : (p : CursorPayload) → loads (dumps p) ≡ some p)
    (base64 : (r : Text) → IsBytes r → urlsafe_b64decode (urlsafe_b64encode r) ≡ some r)
    (plain : (r : Text) → Lacks 46 (sign r)) where
  -- The token that stands for a position, as it was handed out at this time.
  abbrev token_of : ℕ → Option Position → Option Text
  token_of issued none = none
  token_of issued (some c) = some (encode_cursor sign dumps issued c.0 c.1 3600)

  cursor_vals-token_of :
      (issued now : ℕ) (c : Option Position)
      → now ≤ issued + 86400
      → cursor_vals_of sign dumps loads urlsafe_b64decode now (token_of issued c) ≡ ok c
  unfolding cursor_vals_of
  cursor_vals-token_of issued now none h = refl
  cursor_vals-token_of issued now (some c) h = rw (cursor_vals_of, decoded ∙ fresh)
    where
      decoded :
          decode_cursor sign loads urlsafe_b64decode now
            (encode_cursor sign dumps issued c.0 c.1 3600)
            (some 86400)
          ≡ (if ltb 86400 (now - issued) then err (http 400) else ok (c.0, c.1))
      decoded =
          decode_cursor-encode_cursor sign loads urlsafe_b64decode dumps bytes json base64 plain
            issued now c.0 c.1 3600 86400

      fresh : (if ltb 86400 (now - issued) then err (http 400) else ok (c.0, c.1)) ≡ ok c
      fresh = ground arith

  -- Every page that the cache holds at a visit was loaded from the table, by a request at most
  -- PRODUCT_LIST_TTL before.
  abbrev pub IsFresh : List ProductRow → Visit → Type 0
  IsFresh table v =
      (limit : ℕ) (c : Option Position) (page : Listing)
      → v.cache limit c ≡ some page
      → (issued : ℕ) × (v.at ≤ issued + product_list_ttl)
        × (page ≡ with_token sign dumps loads urlsafe_b64decode issued (loader table limit c))

  -- What a visit answers is the page as it was loaded then or a little earlier.
  visit-page :
      (v : Visit) (table : List ProductRow) (limit issued : ℕ) (c : Option Position)
      → is_limit limit ≡ true
      → v.at ≤ issued + 86400
      → IsFresh table v
      → (since : ℕ) × (v.at ≤ since + product_list_ttl)
        × (get_products sign dumps loads urlsafe_b64decode v.cache table v.at limit
              (token_of issued c)
            ≡ ok (with_token sign dumps loads urlsafe_b64decode since (loader table limit c)))
  unfolding get_products
  visit-page v table limit issued c within h fresh = elim (Option-cases (v.cache limit c)) [
    | inl miss ↦
        (v.at, omega arith, ground (arith, within, cursor_vals-token_of issued v.at c h, miss))
    | inr (page, hit) ↦
        let (since, young, same) = fresh limit c page hit in
        (
          since,
          young,
          ground (arith, within, cursor_vals-token_of issued v.at c h, hit) ∙ ap ok same,
        )
  ]

  visit-browse :
      (visits : List Visit) (table : List ProductRow) (limit issued : ℕ) (c : Option Position)
      → is_limit limit ≡ true
      → All (IsFresh table) visits
      → IsStarted issued visits
      → visit sign dumps loads urlsafe_b64decode visits table limit (token_of issued c)
        ≡ browse (length visits) table limit c
  unfolding visit browse with_token
  visit-browse [] table limit issued c within fresh h = refl
  visit-browse (v ∷ visits) table limit issued c within fresh h =
      let (since, young, answered) = visit-page v table limit issued c within h.0 fresh.0 in
      elim (Option-cases (loader table limit c).next_cursor) [
        | inl last ↦ ground (arith, answered, last)
        | inr (p, more) ↦ ground (
          arith,
          answered,
          more,
          visit-browse visits table limit since (some p) within fresh.1
              (IsStarted-prompt v.at since visits young h.1),
        )
      ]

  -- With a JSON writer that writes bytes which the reader reads back, a base64 decoder that
  -- inverts the encoder on bytes, and signatures without a `.`: in a table with distinct ids, a
  -- client that asks for pages of 1 to 100 products and sends each request within a day, less the
  -- time that a page is cached, of the one before, with the token that it got, reaches the last
  -- page within one request more than there are products, whichever pages the cache holds, as
  -- long as it holds pages of this table that were loaded at most that time before. The pages it
  -- has read, in order, are the newest-first listing, a rearrangement of the whole table: no
  -- token is refused, and no product is missed or shown twice.
  pub visit_lem :
      (visits : List Visit) (table : List ProductRow) (limit issued : ℕ)
      → DistinctIds table
      → 1 ≤ limit
      → limit ≤ 100
      → length table < length visits
      → All (IsFresh table) visits
      → IsPrompt issued visits
      → (rows : List ProductRow) × (visit sign dumps loads urlsafe_b64decode visits table limit none
          ≡ some rows)
        × IsListed rows
        × Perm rows table
  visit_lem visits table limit issued distinct low high enough fresh prompt =
      let (rows, read, listed, whole) =
        browse_lem table limit (length visits) distinct low enough in
      let within : is_limit limit ≡ true = ground arith in
      (
        rows,
        visit-browse visits table limit issued none within fresh
              (IsStarted-prompt issued issued visits (omega arith) prompt)
            ∙ read,
        listed,
        whole,
      )
