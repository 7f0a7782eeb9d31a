-- ===== src/Listing/Cursors.antt =====
-- `encodeCursor` and `decodeCursor` of apps/api/src/common/cursor.ts. The library's encodings (base64
-- for URLs, JSON, dates) and PostgreSQL's reading of a UUID are parameters. A date is its time in
-- milliseconds since 1970.
use gatway_pagamento_escrito.Prelude.{
  ℕ, Bool, true, false, ◌&&◌, ◌||◌, Option, none, some, List, [], ◌∷◌, leb, ◌==◌, if◌then◌else◌,
}
use gatway_pagamento_escrito.Failure.{Failure, error, bad_request, Result, ok, err}
use gatway_pagamento_escrito.Auth.Password.{Chars}
use gatway_pagamento_escrito.Listing.{Cursor}

-- What the code tells apart of a JSON value: the two fields that it reads.
pub data Field : Type 0 where
  absent other : Field
  string : Chars → Field

pub data Json : Type 0 where
  other : Json
  object : (created_at id : Field) → Json

pub record Codec : Type 0 where
  pub to_base64url : Chars → Chars
  pub from_base64url : Chars → Chars
  pub stringify : Json → Chars
  -- an error: `JSON.parse` throws
  pub parse : Chars → Result Json
  pub to_iso : ℕ → Chars
  -- none: an invalid date
  pub parse_date : Chars → Option ℕ
  pub uuid_text : ℕ → Chars
  pub uuid_value : Chars → ℕ

pub data Class : Type 0 where
  hex version variant dash : Class

abbrev is_digit : ℕ → Bool
is_digit c = leb 48 c && leb c 57

-- The pattern has the flag `i`.
abbrev is_in : Class → ℕ → Bool
is_in Class.hex c = is_digit c || (leb 97 c && leb c 102) || (leb 65 c && leb c 70)
is_in Class.version c = leb 49 c && leb c 56
is_in Class.variant c = c == 56 || c == 57 || c == 97 || c == 98 || c == 65 || c == 66
is_in Class.dash c = c == 45

abbrev matches_pattern : List Class → Chars → Bool
matches_pattern [] [] = true
matches_pattern (p ∷ ps) (c ∷ cs) = is_in p c && matches_pattern ps cs
matches_pattern _ _ = false

abbrev hexes : List Class → List Class
hexes ps = Class.hex ∷ Class.hex ∷ Class.hex ∷ ps

-- `uuidPattern`
abbrev uuid_pattern : List Class
uuid_pattern =
    Class.hex
    ∷ Class.hex
    ∷ hexes (
        hexes (
          Class.dash
          ∷ Class.hex
          ∷ hexes (
              Class.dash
              ∷ Class.version
              ∷ hexes (
                  Class.dash
                  ∷ Class.variant
                  ∷ hexes (Class.dash ∷ hexes (hexes (hexes (hexes []))))))))

unfoldable pub is_uuid : Chars → Bool
is_uuid id = matches_pattern uuid_pattern id

abbrev pub invalid_cursor : Failure
invalid_cursor = bad_request "Invalid pagination cursor"

-- The error that `decodeCursor` throws inside its `try`
abbrev pub thrown : Failure
thrown = error "Invalid cursor"

-- Its `catch`: whatever was thrown, a bad request is thrown instead.
abbrev pub rethrown : {A : Type 0} → Result A → Result A
rethrown (ok a) = ok a
rethrown (err e) = err invalid_cursor

module _ (codec : Codec) where
  abbrev pub json_of : Cursor → Json
  json_of c = Json.object (string (codec.to_iso c.created_at)) (string (codec.uuid_text c.id))

  unfoldable pub encode_cursor : Cursor → Chars
  encode_cursor c = codec.to_base64url (codec.stringify (json_of c))

  abbrev pub with_date : Chars → Option ℕ → Result (Option Cursor)
  with_date id none = err thrown
  with_date id (some created_at) =
      ok (some (record { created_at = created_at; id = codec.uuid_value id }))

  abbrev pub read_value : Json → Result (Option Cursor)
  read_value (Json.object (string created_at) (string id)) =
      if is_uuid id then with_date id (codec.parse_date created_at) else err thrown
  read_value _ = err thrown

  -- The block of the `try`
  abbrev pub read_json : Result Json → Result (Option Cursor)
  read_json (ok value) = read_value value
  read_json (err e) = err e

  -- No cursor, or an empty one, is the first page.
  unfoldable pub decode_cursor : Option Chars → Result (Option Cursor)
  decode_cursor none = ok none
  decode_cursor (some []) = ok none
  decode_cursor (some (c ∷ cs)) = rethrown (read_json (codec.parse (codec.from_base64url (c ∷ cs))))
