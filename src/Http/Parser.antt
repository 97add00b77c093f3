-- ===== src/Http/Parser.antt =====
-- HttpParser of Net/HTTP. `parseState_` is only ever set, and left out.
pub mod Feed
pub mod Done
use yy.Prelude.{ℕ, Bool, Option, some, [], ◌++◌, drop, Bytes, ◌>>=◌, ◌>>◌}
use yy.Http.Message.{ParseResult, error, complete, not_complete, continue_100}
use yy.Http.Request
use yy.Http.Request.{HttpRequest}
use yy.Http.Response
use yy.Http.Response.{HttpResponse}

pub record HttpParser : Type 0 where
  pub req : HttpRequest
  pub resp : HttpResponse
  pub input_buffer : Bytes

abbrev pub fresh : HttpParser
fresh = record { req = Request.fresh; resp = Response.fresh; input_buffer = [] }

-- What is left of the input: `erase(0, n)`, `clear()`, or all.
unfoldable pub left_over : ParseResult → ℕ → Bytes → Bytes
left_over complete n input = drop n input
left_over error n input = []
left_over not_complete n input = input
left_over continue_100 n input = input

unfoldable pub parse_request : HttpParser → Bytes → Bool → Option (ParseResult × HttpParser)
parse_request p text copy_body = do
  let input = p.input_buffer ++ text
  r ← Request.try_decode p.req input copy_body
  some (r.0, record p { req = r.1; input_buffer = left_over r.0 r.1.msg.scanned input })

unfoldable pub build_response : HttpParser → HttpResponse → Bytes
build_response p resp = (Response.encode resp []).0

unfoldable pub clear : HttpParser → HttpParser
clear p = record { req = Request.clear p.req; resp = Response.clear p.resp; input_buffer = [] }
