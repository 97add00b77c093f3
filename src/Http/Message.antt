-- ===== src/Http/Message.antt =====
-- HttpMsg of Net/HTTP: the part of a message that requests and responses share, and its parser.
pub mod Header
pub mod Resume
pub mod Body
use yy.Prelude.{
  ℕ, zero, suc, ◌+◌, ◌-◌, Bool, true, false, not, ◌&&◌, Option, none, some, [], ◌∷◌, map, ltb, leb,
  ◌==◌, if◌then◌else◌, ◌>>=◌, add_size, length, drop, get_or, Bytes, slice, equal, ◌>>◌,
}
use yy.StringPiece.{
  StringPiece, bytes, of_string, is_empty, eat, eat_line, eat_word, trim_space, sub, size,
}
use yy.Http.Fields.{Fields, insert, get_field, lower, atoll}

pub data ParseResult : Type 0 where
  error complete not_complete continue_100 : ParseResult

-- `body_view` is what the view holds of the input; whether it reaches past the input is noted.
pub record HttpMsg : Type 0 where
  pub headers : Fields
  pub version : Bytes
  pub body : Bytes
  pub body_view : Bytes
  pub view_reaches_past : Bool
  pub is_complete : Bool
  pub content_len : ℕ
  pub scanned : ℕ

abbrev pub http_1_1 : Bytes
http_1_1 = b'H' ∷ b'T' ∷ b'T' ∷ b'P' ∷ b'/' ∷ b'1' ∷ b'.' ∷ b'1' ∷ []

abbrev pub content_length : Bytes
content_length =
    b'c' ∷ b'o' ∷ b'n' ∷ b't' ∷ b'e' ∷ b'n' ∷ b't' ∷ b'-' ∷ b'l' ∷ b'e' ∷ b'n' ∷ b'g' ∷ b't' ∷ b'h'
    ∷ []

abbrev pub expect : Bytes
expect = b'e' ∷ b'x' ∷ b'p' ∷ b'e' ∷ b'c' ∷ b't' ∷ []

-- `clear` sets every field, and the constructor calls it.
abbrev pub fresh : HttpMsg
fresh = record {
  headers = [];
  version = http_1_1;
  body = [];
  body_view = [];
  view_reaches_past = false;
  is_complete = false;
  content_len = 0;
  scanned = 0;
}

unfoldable pub clear : HttpMsg → HttpMsg
clear m = fresh

unfoldable pub get_header : HttpMsg → Bytes → Bytes
get_header m name = get_field name m.headers

unfoldable pub get_body : HttpMsg → Bytes
get_body m = if length m.body_view == 0 then m.body else m.body_view

-- "\r\n\r\n"
abbrev pub blank_line : Bytes
blank_line = b'\r' ∷ b'\n' ∷ b'\r' ∷ b'\n' ∷ []

-- The search for the end of the headers, with `n` positions left: whether it is found, and where
-- the search stands.
unfoldable pub find_end : Bytes → ℕ → ℕ → Bool × ℕ
find_end buf zero i = (false, i)
find_end buf (suc n) i =
    let next = find_end buf n (i + 1) in
    if get_or buf i 0 == b'\r' && equal (slice i 4 buf) blank_line then (true, i) else next

-- What one turn of the header loop does: go on with a field, stop, or refuse.
pub data Turn : Type 0 where
  field : Bytes → Bytes → StringPiece → Turn
  stop : Turn
  refuse : Turn

unfoldable pub header_line : StringPiece → Turn
header_line slice_left =
    let after_crlf = (eat slice_left 2).1 in
    let (line, rest) = eat_line after_crlf in
    let (key, value) = eat_word line in
    let value' = trim_space value in
    if not (is_empty key)
      && not (is_empty value')
      && get_or key.base (key.pb + (size key - 1)) 0 == b':'
    then field (map lower (bytes (sub key 0 1))) (bytes value') rest
    else if is_empty key && is_empty value' && is_empty rest
    then stop
    else refuse

-- The loop over the header lines: whether it ended well, and the fields read. `none` is a loop that
-- the fuel does not suffice for.
unfoldable pub header_lines : ℕ → StringPiece → Fields → Option (Bool × Fields)
header_lines zero s headers = none
header_lines (suc fuel) s headers =
    if is_empty s then some (true, headers) else elim (header_line s) [
      | field key value rest ↦ header_lines fuel rest (insert key value headers)
      | stop ↦ some (true, headers)
      | refuse ↦ some (false, headers)
    ]

-- The body. The sum in the test may wrap round 2^64 to a place inside the input. Then `assign` reads
-- past the input or throws, which is `none`; but a view is only made, and reaches past the input.
unfoldable pub decode_body : HttpMsg → Bytes → Bool → Option (ParseResult × HttpMsg)
decode_body m buf copy_body =
    if leb (add_size m.content_len m.scanned) (length buf)
    then (if leb (m.content_len + m.scanned) (length buf)
        then some (
          complete,
          record m {
            body = if copy_body then slice m.scanned m.content_len buf else m.body;
            body_view = if copy_body then m.body_view else slice m.scanned m.content_len buf;
            is_complete = true;
            scanned = m.scanned + m.content_len;
          },
        )
        else (if copy_body
            then none
            else some (
              complete,
              record m {
                body_view = drop m.scanned buf;
                view_reaches_past = true;
                is_complete = true;
                scanned = add_size m.scanned m.content_len;
              },
            )))
    else some (not_complete, m)

-- The part behind the header loop: the length of the body, and the test for `100-continue`.
unfoldable pub decode_length : HttpMsg → Bytes → Bool → Option (ParseResult × HttpMsg)
decode_length m buf copy_body =
    let scanned = m.scanned + 4 in
    let len = get_header m content_length in
    let m' = record m {
      scanned = scanned;
      content_len = if length len == 0 then 0 else atoll len;
    } in
    if ltb (length buf) (add_size m'.content_len scanned)
      && not (length (get_header m' expect) == 0)
    then some (continue_100, m')
    else decode_body m' buf copy_body

-- The header part once the blank line stands at `m.scanned`; the first line is returned too.
unfoldable pub decode_header : HttpMsg → Bytes → Bool → Option (ParseResult × HttpMsg × Bytes)
decode_header m buf copy_body =
    let (line1, rest) = eat_line (record { base = buf; pb = 0; pe = m.scanned }) in
    do
      r ← header_lines (length buf + 1) rest m.headers
      let m' = record m { headers = r.1 }
      if r.0
          then (decode_length m' buf copy_body >>= λ d. some (d.0, d.1, bytes line1))
          else some (error, m', bytes line1)

-- `tryDecode_(buf, copyBody, line1)`
unfoldable pub try_decode_msg : HttpMsg → Bytes → Bool → Option (ParseResult × HttpMsg × Bytes)
try_decode_msg m buf copy_body =
    if m.is_complete
    then some (complete, m, [])
    else if m.content_len == 0
    then (let (found, scanned) = find_end buf (length buf - 3 - m.scanned) m.scanned in
        let m' = record m { scanned = scanned } in
        if found && not (scanned == 0)
        then decode_header m' buf copy_body
        else some (not_complete, m', []))
    else (decode_body m buf copy_body >>= λ d. some (d.0, d.1, []))
