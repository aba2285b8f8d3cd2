-- ===== src/Tests/Cursor.antt =====
-- The cursor's theorems at a concrete key, JSON writer and base64 decoder.
use mathlib.Core.Option.{some-injective}
use phyllonix.Base.{
  sym, ◌∙◌, ℕ, zero, suc, ◌+◌, ◌-◌, ◌*◌, ◌/◌, ◌%◌, ◌<◌, ◌≤◌, ◌≡◌, ◌≢◌, refl, ap, Option, none, some,
  List, [], ◌∷◌, ◌++◌, ltb, ◌==◌, if◌then◌else◌, length, ok, err, http, arith, All-append,
}
use mathlib.Core.List.{Perm}
use phyllonix.Products.Pages.{ProductRow, loader}
use phyllonix.Products.Pages.Sorting.{IsListed}
use phyllonix.Products.Route.{PageCache, Visit, with_token, visit}
use phyllonix.Products.Route.Browse.{IsFresh, visit_lem}
use phyllonix.Products.Cursor.Base64.{
  Text, IsBytes, Lacks, digit, urlsafe_b64encode, repeat, padded,
}
use phyllonix.Products.Cursor.{CursorPayload, encode_cursor, decode_cursor, split}
use phyllonix.Products.Cursor.RoundTrip.{decode_cursor-encode_cursor, decode_cursor_signed}

-- The value of a base64 digit.
undigit : ℕ → ℕ
undigit c =
    if ltb 96 c
    then c - 71
    else (if c == 95 then 63 else (if ltb 64 c then c - 65 else (if ltb 47 c then c + 4 else 62)))

undigit-digit : (n : ℕ) → n < 64 → undigit (digit n) ≡ n
unfolding undigit digit
undigit-digit n h = ground arith

digit-ne : (n : ℕ) → n < 64 → digit n ≢ 61
unfolding digit
digit-ne n h = ground arith

-- The bytes of four digits, the first two by their values.
abbrev quad : ℕ → ℕ → ℕ → ℕ → Text → Text
quad p q r s rest =
    (p * 4 + q / 16)
    ∷ (if r == 61
        then []
        else (q % 16 * 16 + undigit r / 4)
          ∷ (if s == 61 then [] else (undigit r % 4 * 64 + undigit s) ∷ rest))

bytes : Text → Text
bytes (p ∷ q ∷ r ∷ s ∷ rest) = let later = bytes rest in quad (undigit p) (undigit q) r s later
bytes _ = []

quad-one : (a r s : ℕ) → a < 256 → r ≡ 61 → quad (a / 4) (a % 4 * 16) r s [] ≡ a ∷ []
quad-one a r s h e = ground arith

quad-two :
    (a b r s : ℕ)
    → undigit r ≡ b % 16 * 4
    → r ≢ 61
    → s ≡ 61
    → b < 256
    → quad (a / 4) (a % 4 * 16 + b / 16) r s [] ≡ a ∷ b ∷ []
quad-two a b r s u h e k = ground arith

quad-three :
    (a b c r s : ℕ) (rest : Text)
    → undigit r ≡ b % 16 * 4 + c / 64
    → undigit s ≡ c % 64
    → r ≢ 61
    → s ≢ 61
    → b < 256
    → c < 256
    → quad (a / 4) (a % 4 * 16 + b / 16) r s rest ≡ a ∷ b ∷ c ∷ rest
quad-three a b c r s rest u v h k l m = ground arith

bytes-encode : (r : Text) → IsBytes r → bytes (urlsafe_b64encode r) ≡ r
unfolding bytes urlsafe_b64encode
bytes-encode [] h = refl
bytes-encode (a ∷ []) h =
    rw (undigit-digit (a / 4) (omega (arith, h.0)), undigit-digit (a % 4 * 16) (omega arith))
      (quad-one a 61 61 h.0 refl)
bytes-encode (a ∷ b ∷ []) h =
    let third = undigit-digit (b % 16 * 4) (omega arith) in
    rw
      (
        undigit-digit (a / 4) (omega (arith, h.0)),
        undigit-digit (a % 4 * 16 + b / 16) (omega (arith, h.1.0)),
      )
      (quad-two a b _ 61 third (digit-ne (b % 16 * 4) (omega arith)) refl h.1.0)
bytes-encode (a ∷ b ∷ c ∷ rest) h =
    let third = undigit-digit (b % 16 * 4 + c / 64) (omega (arith, h.1.1.0)) in
    let fourth = undigit-digit (c % 64) (omega arith) in
    rw
      (
        undigit-digit (a / 4) (omega (arith, h.0)),
        undigit-digit (a % 4 * 16 + b / 16) (omega (arith, h.1.0)),
        bytes-encode rest h.1.1.1,
      )
      (quad-three a b c _ _ rest third fourth
        (digit-ne (b % 16 * 4 + c / 64) (omega (arith, h.1.1.0))) (digit-ne (c % 64) (omega arith))
        h.1.0 h.1.1.0)

-- A writer of payloads in tally marks, and its reader.
tally : CursorPayload → Text
unfolding repeat
tally p =
    repeat p.t 1
    ++ 0 ∷ (repeat p.ttl 1 ++ 0 ∷ (repeat p.created_at 1 ++ 0 ∷ (repeat p.id 1 ++ 0 ∷ [])))

marks : Text → ℕ × Text
marks [] = (0, [])
marks (x ∷ xs) = let (n, rest) = marks xs in if x == 0 then (0, xs) else (suc n, rest)

untally : Text → Option CursorPayload
unfolding marks
untally s =
    let (t, s1) = marks s in
    let (ttl, s2) = marks s1 in
    let (created_at, s3) = marks s2 in
    let (id, s4) = marks s3 in some (record { t = t; ttl = ttl; created_at = created_at; id = id })

marks-repeat : (n : ℕ) (s : Text) → marks (repeat n 1 ++ 0 ∷ s) ≡ (n, s)
unfolding marks repeat
marks-repeat zero s = refl
marks-repeat (suc n) s = rw (marks-repeat n s)

untally-tally : (p : CursorPayload) → untally (tally p) ≡ some p
unfolding untally tally
untally-tally p =
    rw (marks-repeat p.t _, marks-repeat p.ttl _, marks-repeat p.created_at _, marks-repeat p.id [])

repeat-IsBytes : (n : ℕ) → IsBytes (repeat n 1)
unfolding repeat
repeat-IsBytes zero = tt
repeat-IsBytes (suc n) = (omega arith, repeat-IsBytes n)

marks-IsBytes : (n : ℕ) (s : Text) → IsBytes s → IsBytes (repeat n 1 ++ 0 ∷ s)
marks-IsBytes n s h =
    All-append (λ b. b < 256) (repeat n 1) (0 ∷ s) (repeat-IsBytes n) (omega arith, h)

tally-IsBytes : (p : CursorPayload) → IsBytes (tally p)
unfolding tally
tally-IsBytes p =
    marks-IsBytes p.t _
      (marks-IsBytes p.ttl _ (marks-IsBytes p.created_at _ (marks-IsBytes p.id [] tt)))

-- A signature of one letter.
letter : Text → Text
letter r = (65 + length r % 26) ∷ []

letter-Lacks : (r : Text) → Lacks 46 (letter r)
unfolding letter
letter-Lacks r = (omega arith, tt)

decoded : Text → Option Text
unfolding bytes
decoded s = some (bytes s)

decoded-encode : (r : Text) → IsBytes r → decoded (urlsafe_b64encode r) ≡ some r
unfolding decoded
decoded-encode r h = ap some (bytes-encode r h)

abbrev token : Text
token = encode_cursor letter tally 2 3 1 4

abbrev last_seen : ℕ × ℕ
last_seen = (3, 1)

decode_cursor-encode_cursor_example :
    decode_cursor letter untally decoded 7 token (some 5) ≡ ok (3, 1)
decode_cursor-encode_cursor_example =
    decode_cursor-encode_cursor letter untally decoded tally tally-IsBytes untally-tally
      decoded-encode letter-Lacks 2 7 3 1 4 5

expired_run : decode_cursor letter untally decoded 8 token (some 5) ≡ err (http 400)
unfolding encode_cursor decode_cursor letter tally untally decoded undigit
expired_run = refl

valid_run : decode_cursor letter untally decoded 7 token (some 5) ≡ ok (3, 1)
unfolding encode_cursor decode_cursor letter tally untally decoded undigit
valid_run = refl

decode_cursor_signed_example :
    (token_part : Text) × (raw : Text) × (p : CursorPayload) × (split token 46
      ≡ token_part ∷ letter raw ∷ [])
    × (decoded (padded token_part) ≡ some raw)
    × (untally raw ≡ some p)
    × (last_seen ≡ (p.created_at, p.id))
    × (7 ≤ p.t + 5)
decode_cursor_signed_example =
    decode_cursor_signed letter untally decoded 7 token 5 last_seen valid_run

abbrev row : ℕ → ℕ → ProductRow
row id created_at = record {
  id = id;
  public_id = id;
  name = "tea";
  base_price = 100;
  created_at = created_at;
}

-- Two products of the same second, and a newer one.
abbrev table : List ProductRow
table = row 1 5 ∷ row 2 5 ∷ row 3 7 ∷ []

-- The cache holds the first page from the visit at 10 on.
abbrev first_page : PageCache
first_page limit none = some (with_token letter tally untally decoded 10 (loader table limit none))
first_page limit (some c) = none

abbrev no_pages : PageCache
no_pages limit c = none

abbrev visits : List Visit
visits =
    record { at = 12; cache = first_page }
    ∷ record { at = 13; cache = first_page }
    ∷ record { at = 14; cache = no_pages }
    ∷ record { at = 20; cache = no_pages }
    ∷ []

first_page-IsFresh :
    (v : Visit)
    → v.at ≤ 210
    → v.cache ≡ first_page
    → IsFresh letter tally untally decoded tally-IsBytes untally-tally decoded-encode letter-Lacks
        table v
first_page-IsFresh v early here limit none page hit =
    (10, omega arith, some-injective _ _ (sym hit ∙ ap (λ f. f limit none) here))
first_page-IsFresh v early here limit (some c) page hit =
    absurd (cc (ap (λ f. f limit (some c)) here, hit))

no_pages-IsFresh :
    (at : ℕ)
    → IsFresh letter tally untally decoded tally-IsBytes untally-tally decoded-encode letter-Lacks
        table
        (record { at = at; cache = no_pages })
no_pages-IsFresh at limit c page hit = absurd (cc hit)

visit_lem_example :
    (rows : List ProductRow) × (visit letter tally untally decoded visits table 2 none ≡ some rows)
    × IsListed rows
    × Perm rows table
visit_lem_example =
    visit_lem letter tally untally decoded tally-IsBytes untally-tally decoded-encode letter-Lacks
      visits table 2 10 (omega arith) (omega arith) (omega arith) (omega arith)
      (
        first_page-IsFresh (record { at = 12; cache = first_page }) (omega arith) refl,
        (
          first_page-IsFresh (record { at = 13; cache = first_page }) (omega arith) refl,
          (no_pages-IsFresh 14, (no_pages-IsFresh 20, tt)),
        ),
      )
      (omega arith)
