-- ===== src/Products/Route.antt =====
-- get_products of products/routes.py with its signed cursor and its cache of pages: what a client
-- of the HTTP interface sees, who hands back the opaque tokens that it got.
use phyllonix.Base.{
  ℕ, ◌+◌, ◌*◌, Bool, true, false, Option, none, some, List, [], ◌∷◌, ◌++◌, Result, ok, err, http,
  ltb, leb, ◌&&◌, if◌then◌else◌,
}
use phyllonix.Products.Pages.{ProductRow, Position, Page, loader}
use phyllonix.Products.Cursor.Base64.{Text}
use phyllonix.Products.Cursor.{CursorPayload, encode_cursor, decode_cursor}
pub mod Browse

-- `response`
pub record Listing : Type 0 where
  pub items : List ProductRow
  pub next_cursor : Option Text
  pub has_more : Bool

-- What Redis has of the pages, by limit and position. `q` and `category` only name the key too: the
-- loader does not read them.
abbrev pub PageCache : Type 0
PageCache = ℕ → Option Position → Option Listing

-- The time of a request and what the cache then holds.
pub record Visit : Type 0 where
  pub at : ℕ
  pub cache : PageCache

-- `limit: int = Query(20, ge=1, le=100)`
abbrev pub is_limit : ℕ → Bool
is_limit limit = ltb 0 limit && leb limit 100

-- What cache_get_or_set_product_listings answers while Redis answers it: the cached page of this
-- key, or a new one.
abbrev pub through_cache : Option Listing → Listing → Listing
through_cache (some page) fresh = page
through_cache none fresh = fresh

module _ (sign : Text → Text) (dumps : CursorPayload → Text) (loads : Text → Option CursorPayload)
    (urlsafe_b64decode : Text → Option Text) where
  -- `next_cursor = encode_cursor(last.created_at, last.id, ttl_seconds=3600)`
  unfoldable pub with_token : ℕ → Page → Listing
  with_token now p = record {
    items = p.items;
    next_cursor = elim p.next_cursor [
      | none ↦ none
      | some c ↦ some (encode_cursor sign dumps now c.0 c.1 3600)
    ];
    has_more = p.has_more;
  }

  -- `if cursor: … decode_cursor(cursor, max_age=24*3600)`
  unfoldable pub cursor_vals_of : ℕ → Option Text → Result (Option Position)
  cursor_vals_of now none = ok none
  cursor_vals_of now (some token) =
      elim (decode_cursor sign loads urlsafe_b64decode now token (some 86400)) [
        | ok c ↦ ok (some c)
        | err e ↦ err e
      ]

  unfoldable pub get_products : PageCache → List ProductRow → ℕ → ℕ → Option Text → Result Listing
  unfolding with_token cursor_vals_of
  get_products cache table now limit cursor =
      if is_limit limit
      then elim (cursor_vals_of now cursor) [
        | ok cursor_vals ↦ ok (
            through_cache (cache limit cursor_vals)
              (with_token now (loader table limit cursor_vals)))
        | err e ↦ err e
      ]
      else err (http 422)

  -- A client that sends its requests at these visits, each with the token of the page before.
  unfoldable pub visit : List Visit → List ProductRow → ℕ → Option Text → Option (List ProductRow)
  unfolding get_products
  visit [] table limit cursor = none
  visit (v ∷ visits) table limit cursor = elim (get_products v.cache table v.at limit cursor) [
    | err e ↦ none
    | ok page ↦ elim page.next_cursor [
      | none ↦ some page.items
      | some token ↦ elim (visit visits table limit (some token)) [
        | none ↦ none
        | some rest ↦ some (page.items ++ rest)
      ]
    ]
  ]
