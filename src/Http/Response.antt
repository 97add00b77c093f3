-- ===== src/Http/Response.antt =====
-- HttpResponse of Net/HTTP.
use yy.Prelude.{
  ℕ, Bool, Option, some, [], ◌∷◌, ◌++◌, ◌==◌, if◌then◌else◌, length, drop, Bytes, ℤ, to_int, ◌>>=◌,
}
use yy.StringPiece.{bytes, of_string, eat_word, trim_space}
use yy.Http.Fields.{decimal, snprintf, atoll}
use yy.Http.Message
use yy.Http.Message.{HttpMsg, ParseResult, try_decode_msg}
use yy.Http.Request.{c_text, crlf, encode_msg}

-- The status is an `int` underneath: `tryDecode` casts any number to it.
abbrev pub Status : Type 0
Status = ℕ

abbrev pub ok : Status
ok = 200

abbrev pub bad_request : Status
bad_request = 400

abbrev pub not_found : Status
not_found = 404

abbrev pub internal_error : Status
internal_error = 500

pub record HttpResponse : Type 0 where
  pub msg : HttpMsg
  pub status : Status
  pub status_msg : Bytes

-- "OK"
abbrev pub ok_text : Bytes
ok_text = b'O' ∷ b'K' ∷ []

abbrev pub fresh : HttpResponse
fresh = record { msg = Message.fresh; status = ok; status_msg = ok_text }

unfoldable pub clear : HttpResponse → HttpResponse
clear r = record { msg = Message.clear r.msg; status = ok; status_msg = ok_text }

-- "Bad Request"
abbrev pub bad_request_text : Bytes
bad_request_text = b'B' ∷ b'a' ∷ b'd' ∷ b' ' ∷ b'R' ∷ b'e' ∷ b'q' ∷ b'u' ∷ b'e' ∷ b's' ∷ b't' ∷ []

-- "Not Found"
abbrev pub not_found_text : Bytes
not_found_text = b'N' ∷ b'o' ∷ b't' ∷ b' ' ∷ b'F' ∷ b'o' ∷ b'u' ∷ b'n' ∷ b'd' ∷ []

-- "Internal Server Error"
abbrev pub internal_error_text : Bytes
internal_error_text =
    b'I' ∷ b'n' ∷ b't' ∷ b'e' ∷ b'r' ∷ b'n' ∷ b'a' ∷ b'l' ∷ b' ' ∷ b'S' ∷ b'e' ∷ b'r' ∷ b'v' ∷ b'e'
    ∷ b'r' ∷ b' ' ∷ b'E' ∷ b'r' ∷ b'r' ∷ b'o' ∷ b'r' ∷ []

-- "Unknown"
abbrev pub unknown_text : Bytes
unknown_text = b'U' ∷ b'n' ∷ b'k' ∷ b'n' ∷ b'o' ∷ b'w' ∷ b'n' ∷ []

-- "404 Not Found"
abbrev pub not_found_body : Bytes
not_found_body = b'4' ∷ b'0' ∷ b'4' ∷ b' ' ∷ not_found_text

unfoldable pub status_to_string : Status → Bytes
status_to_string s =
    if s == ok
    then ok_text
    else if s == bad_request
    then bad_request_text
    else if s == not_found
    then not_found_text
    else if s == internal_error
    then internal_error_text
    else unknown_text

unfoldable pub set_status : HttpResponse → Status → Bytes → HttpResponse
set_status r st msg = record r {
  status = st;
  status_msg = if length msg == 0 then status_to_string st else msg;
}

pub set_not_found : HttpResponse → HttpResponse
set_not_found r =
    let r' = set_status r not_found not_found_text in
    record r' { msg = record (r'.msg) { body = not_found_body } }

unfoldable pub encode : HttpResponse → Bytes → Bytes × ℤ
encode r buf =
    let text =
      snprintf (
        c_text r.msg.version
        ++ (b' ' ∷ (decimal r.status ++ (b' ' ∷ (c_text r.status_msg ++ crlf)))))
      ++ encode_msg r.msg in
    (buf ++ text, to_int (length text))

-- `atoi` reads from the word on to the end of the line; it stops at the space behind the word.
unfoldable pub decode_line : HttpResponse → Bytes → HttpResponse
decode_line r line1 =
    if length line1 == 0
    then r
    else (let (version, rest) = eat_word (of_string line1) in
        let (code, rest') = eat_word rest in
        record r {
          msg = record (r.msg) { version = bytes version };
          status = atoll (drop code.pb code.base);
          status_msg = bytes (trim_space rest');
        })

unfoldable pub try_decode : HttpResponse → Bytes → Bool → Option (ParseResult × HttpResponse)
try_decode r buf copy_body = do
  d ← try_decode_msg r.msg buf copy_body
  some (d.0, decode_line (record r { msg = d.1 }) d.2)
