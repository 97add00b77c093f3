-- ===== src/Http/Request.antt =====
-- HttpRequest of Net/HTTP: methods, the arguments in the url, encoding and decoding.
pub mod Names
pub mod Args
use yy.Prelude.{
  ℕ, zero, suc, ◌+◌, ◌-◌, Bool, Option, none, some, [], ◌∷◌, ◌++◌, ltb, ◌==◌, if◌then◌else◌, ◌>>=◌,
  length, take, drop, Bytes, slice, equal, ℤ, to_int, ◌>>◌,
}
use yy.StringPiece.{StringPiece, bytes, of_string, eat_word}
use yy.Http.Fields.{Fields, insert, get_field, decimal, snprintf}
use yy.Http.Message
use yy.Http.Message.{HttpMsg, ParseResult, get_body, try_decode_msg}

pub data Method : Type 0 where
  unknown get_method post put delete head : Method

pub record HttpRequest : Type 0 where
  pub msg : HttpMsg
  pub method : Method
  pub url : Bytes
  pub query_url : Bytes
  pub args : Fields

abbrev pub fresh : HttpRequest
fresh = record { msg = Message.fresh; method = unknown; url = []; query_url = []; args = [] }

unfoldable pub clear : HttpRequest → HttpRequest
clear r = record {
  msg = Message.clear r.msg;
  method = unknown;
  url = [];
  query_url = [];
  args = [];
}

pub get_arg : HttpRequest → Bytes → Bytes
get_arg r name = get_field name r.args

unfoldable pub method_to_string : Method → Bytes
method_to_string get_method = b'G' ∷ b'E' ∷ b'T' ∷ []
method_to_string post = b'P' ∷ b'O' ∷ b'S' ∷ b'T' ∷ []
method_to_string put = b'P' ∷ b'U' ∷ b'T' ∷ []
method_to_string delete = b'D' ∷ b'E' ∷ b'L' ∷ b'E' ∷ b'T' ∷ b'E' ∷ []
method_to_string head = b'H' ∷ b'E' ∷ b'A' ∷ b'D' ∷ []
method_to_string unknown = b'U' ∷ b'N' ∷ b'K' ∷ b'N' ∷ b'O' ∷ b'W' ∷ b'N' ∷ []

unfoldable pub string_to_method : Bytes → Method
string_to_method s =
    if equal s (b'G' ∷ b'E' ∷ b'T' ∷ [])
    then get_method
    else if equal s (b'P' ∷ b'O' ∷ b'S' ∷ b'T' ∷ [])
    then post
    else if equal s (b'P' ∷ b'U' ∷ b'T' ∷ [])
    then put
    else if equal s (b'D' ∷ b'E' ∷ b'L' ∷ b'E' ∷ b'T' ∷ b'E' ∷ [])
    then delete
    else if equal s (b'H' ∷ b'E' ∷ b'A' ∷ b'D' ∷ [])
    then head
    else unknown

-- `find(c)` in the bytes, and `s.find(c, start)`
unfoldable pub find_char : ℕ → Bytes → Option ℕ
find_char c [] = none
find_char c (x ∷ xs) =
    let later = find_char c xs in if x == c then some 0 else (later >>= λ i. some (suc i))

unfoldable pub find : ℕ → Bytes → ℕ → Option ℕ
find c s start = find_char c (drop start s) >>= λ i. some (start + i)

-- `npos` stands for the end of the string.
abbrev pub or_end : Option ℕ → Bytes → ℕ
or_end none s = length s
or_end (some i) s = i

-- The loop over the arguments. `none` is a loop that the fuel does not suffice for.
unfoldable pub parse_args : ℕ → Bytes → ℕ → Fields → Option Fields
parse_args zero query start args = none
parse_args (suc fuel) query start args =
    if ltb start (length query)
    then elim (find b'=' query start) [
      | none ↦ some args
      | some eq ↦
          let and = or_end (find b'&' query (eq + 1)) query in
          parse_args fuel query (and + 1)
            (insert (slice start (eq - start) query) (slice (eq + 1) (and - eq - 1) query) args)
    ]
    else some args

unfoldable pub parse_url_params : HttpRequest → Option HttpRequest
parse_url_params r = elim (find b'?' r.query_url 0) [
  | none ↦ some (record r { url = r.query_url })
  | some p ↦
      let query = drop (p + 1) r.query_url in
      parse_args (length query + 1) query 0 r.args >>= λ args.
      some (record r { url = take p r.query_url; args = args })
]

-- `%s` of a `c_str()` stops at the first zero byte.
unfoldable pub c_text : Bytes → Bytes
c_text [] = []
c_text (c ∷ cs) = if c == 0 then [] else c ∷ c_text cs

abbrev pub crlf : Bytes
crlf = b'\r' ∷ b'\n' ∷ []

unfoldable pub header_text : Fields → Bytes
header_text [] = []
header_text ((k, v) ∷ hs) = k ++ (b':' ∷ b' ' ∷ (v ++ (crlf ++ header_text hs)))

-- "Connection: Keep-Alive\r\nContent-Length: "
abbrev pub fixed_headers : Bytes
fixed_headers =
    b'C' ∷ b'o' ∷ b'n' ∷ b'n' ∷ b'e' ∷ b'c' ∷ b't' ∷ b'i' ∷ b'o' ∷ b'n' ∷ b':' ∷ b' ' ∷ b'K' ∷ b'e'
    ∷ b'e' ∷ b'p' ∷ b'-' ∷ b'A' ∷ b'l' ∷ b'i' ∷ b'v' ∷ b'e' ∷ b'\r' ∷ b'\n' ∷ b'C' ∷ b'o' ∷ b'n'
    ∷ b't' ∷ b'e' ∷ b'n' ∷ b't' ∷ b'-' ∷ b'L' ∷ b'e' ∷ b'n' ∷ b'g' ∷ b't' ∷ b'h' ∷ b':' ∷ b' ' ∷ []

-- The headers and the body, behind the first line.
unfoldable pub encode_msg : HttpMsg → Bytes
encode_msg m =
    header_text m.headers
    ++ (fixed_headers ++ (decimal (length (get_body m)) ++ (crlf ++ (crlf ++ get_body m))))

-- The text that is appended to `buf`, and the `int` returned.
unfoldable pub encode : HttpRequest → Bytes → Bytes × ℤ
encode r buf =
    let target = if length r.query_url == 0 then r.url else r.query_url in
    let text =
      snprintf (
        c_text (method_to_string r.method)
        ++ (b' ' ∷ (c_text target ++ (b' ' ∷ (c_text r.msg.version ++ crlf)))))
      ++ encode_msg r.msg in
    (buf ++ text, to_int (length text))

-- What `tryDecode` does with the first line.
unfoldable pub decode_line : HttpRequest → Bytes → Option HttpRequest
decode_line r line1 =
    if length line1 == 0
    then some r
    else (let (method_view, rest) = eat_word (of_string line1) in
        let (url_view, rest') = eat_word rest in
        let (ver_view, rest'') = eat_word rest' in
        parse_url_params (record r {
          msg = record (r.msg) { version = bytes ver_view };
          method = string_to_method (bytes method_view);
          query_url = bytes url_view;
        }))

unfoldable pub try_decode : HttpRequest → Bytes → Bool → Option (ParseResult × HttpRequest)
try_decode r buf copy_body = do
  d ← try_decode_msg r.msg buf copy_body
  r' ← decode_line (record r { msg = d.1 }) d.2
  some (d.0, r')
