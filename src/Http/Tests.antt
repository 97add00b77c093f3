-- ===== src/Http/Tests.antt =====
-- HTTP messages, urls and routes on small inputs.
use Prim.Native.Char.{code}
use Prim.Native.String.{String}
use yy.Prelude.{
  ◌+◌, ◌≡◌, refl, Bool, true, ◌&&◌, none, some, List, [], ◌∷◌, ◌++◌, arith, if◌then◌else◌, Bytes,
  equal,
}
use yy.StringPiece.{eat_word, eat_line, trim_space, eat, sub, scan, scan_back, is_space}
use yy.StringPiece.Order.{lexicographic}
use yy.Http.Fields.{Fields, insert, lookup, lower, atoll}
use yy.Http.Message
use yy.Http.Message.{
  HttpMsg, ParseResult, error, complete, not_complete, continue_100, blank_line, find_end,
  header_line, header_lines, decode_body, decode_length, decode_header, try_decode_msg, get_header,
}
use yy.Http.Message.Header.{header_lines_total}
use yy.Http.Message.Resume.{try_decode_resume}
use yy.Http.Request
use yy.Http.Request.{
  HttpRequest, get_method, find_char, find, parse_args, parse_url_params, string_to_method,
  decode_line, try_decode,
}
use yy.StringPiece.Split.{Lacks}
use yy.Http.Request.Args.{AreArgs, Arg, format_args, insert_all, parse_url_params-format_args}
use yy.Http.Response
use yy.Http.Response.{HttpResponse}
use yy.Http.Router
use yy.Http.Router.{
  HttpHandler, HttpRouter, route, find_route, route_request, default_not_found_handler,
}
use yy.Http.Router.Table.{route_request-route}

-- code points; every literal below is ASCII
abbrev codes : String → Bytes
codes String.[] = []
codes (String.◌∷◌ c s) = code c ∷ codes s

abbrev start : Bytes
start = codes "GET /a?x=1 HTTP/1.1\r\nHost: h\r\nContent-Le"

abbrev rest : Bytes
rest = codes "ngth: 2\r\n\r\nhi"

decode_request :
    try_decode Request.fresh (start ++ rest) true
    ≡ some (
      complete,
      record {
        msg = record Message.fresh {
          headers = (codes "content-length", codes "2") ∷ (codes "host", codes "h") ∷ [];
          body = codes "hi";
          is_complete = true;
          content_len = 2;
          scanned = 53;
        };
        method = get_method;
        url = codes "/a";
        query_url = codes "/a?x=1";
        args = (codes "x", codes "1") ∷ [];
      },
    )
unfolding try_decode try_decode_msg find_end decode_header decode_length decode_body header_lines
    header_line eat_word eat_line trim_space eat sub scan scan_back is_space lexicographic insert
    lookup lower atoll decode_line parse_url_params parse_args find find_char string_to_method
    get_header equal
decode_request = refl

-- A header with no space behind the colon is refused.
decode_no_space :
    (try_decode_msg Message.fresh (codes "GET / HTTP/1.1\r\nHost:h\r\n\r\n") true
      ≡ some (error, record Message.fresh { scanned = 22 }, codes "GET / HTTP/1.1"))
unfolding try_decode_msg find_end decode_header header_lines header_line eat_word eat_line
    trim_space eat sub scan scan_back is_space equal
decode_no_space = refl

try_decode_resume_example :
    let m' = record Message.fresh { scanned = 0 + 37 } in
    (try_decode_msg Message.fresh start true ≡ some (not_complete, m', []))
    × (try_decode_msg m' (start ++ rest) true ≡ try_decode_msg Message.fresh (start ++ rest) true)
unfolding find_end equal
try_decode_resume_example =
    try_decode_resume Message.fresh start rest true (refl, refl) (omega arith) refl

header_lines_total_example :
    (r : Bool × Fields) × (header_lines 42 (record { base = start; pb = 0; pe = 41 }) [] ≡ some r)
header_lines_total_example =
    header_lines_total 42 (record { base = start; pb = 0; pe = 41 }) [] (omega arith)

abbrev two_args : List Arg
two_args = (codes "x", codes "1=1") ∷ (codes "y", []) ∷ []

parse_url_params-format_args_example :
    (parse_url_params
        (record Request.fresh { query_url = codes "/a" ++ (b'?' ∷ format_args two_args) })
      ≡ some (record Request.fresh {
        url = codes "/a";
        query_url = codes "/a" ++ (b'?' ∷ format_args two_args);
        args = insert_all [] two_args;
      }))
    × (parse_url_params (record Request.fresh { query_url = codes "/a" })
        ≡ some (record Request.fresh { url = codes "/a"; query_url = codes "/a" }))
unfolding Lacks AreArgs
parse_url_params-format_args_example =
    parse_url_params-format_args Request.fresh (codes "/a") two_args (omega arith) (omega arith)

abbrev same_back : HttpHandler
same_back req resp = (req, resp)

abbrev asked : HttpRequest
asked = record Request.fresh { url = codes "/a"; method = get_method }

route_request-route_example :
    (route_request (route Router.init (codes "/a") get_method (some same_back)) asked Response.fresh
      ≡ (if equal (codes "/a") (codes "/a") && Router.method_eq get_method get_method
          then (true, asked, Response.fresh)
          else route_request Router.init asked Response.fresh))
    × (route Router.init (codes "/a") get_method none ≡ Router.init)
route_request-route_example =
    route_request-route Router.init (codes "/a") get_method same_back asked Response.fresh
