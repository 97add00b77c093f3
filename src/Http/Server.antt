-- ===== src/Http/Server.antt =====
-- HttpServer of Net/HTTP/HttpServer.h: what it does with the bytes of a connection. The connection
-- is its receive buffer and its context; what is sent, and that it is disconnected, is recorded.
pub mod Steps
mod Tests
use yy.Prelude.{
  ℕ, zero, suc, Bool, true, not, Option, none, some, List, [], ◌∷◌, ◌++◌, if◌then◌else◌, ◌>>=◌,
  Bytes, slice, equal,
}
use yy.TcpBuffer.{TcpBuffer, readable_size, consume}
use yy.Http.Fields.{insert}
use yy.Http.Message.{ParseResult, error, complete, not_complete, continue_100, get_header}
use yy.Http.Response
use yy.Http.Response.{HttpResponse, set_status, bad_request, bad_request_text}
use yy.Http.Router.{HttpRouter, route_request, content_type, text_plain}
use yy.Http.Parser
use yy.Http.Parser.{HttpParser, parse_request, build_response, clear}

pub record HttpConnection : Type 0 where
  pub recv_buffer : TcpBuffer
  pub parser : HttpParser
  pub keep_alive : Bool
  pub sent : List Bytes
  pub disconnected : Bool

pub data Outcome : Type 0 where
  returned : HttpConnection → Outcome
  aborted : Outcome  -- a failed assertion, an exception, or a read past the input
  out_of_fuel : Outcome

-- "connection", "Connection", "close", "keep-alive"
abbrev pub connection_key : Bytes
connection_key = b'c' ∷ b'o' ∷ b'n' ∷ b'n' ∷ b'e' ∷ b'c' ∷ b't' ∷ b'i' ∷ b'o' ∷ b'n' ∷ []

abbrev pub connection_name : Bytes
connection_name = b'C' ∷ b'o' ∷ b'n' ∷ b'n' ∷ b'e' ∷ b'c' ∷ b't' ∷ b'i' ∷ b'o' ∷ b'n' ∷ []

abbrev pub close_text : Bytes
close_text = b'c' ∷ b'l' ∷ b'o' ∷ b's' ∷ b'e' ∷ []

abbrev pub keep_alive_text : Bytes
keep_alive_text = b'k' ∷ b'e' ∷ b'e' ∷ b'p' ∷ b'-' ∷ b'a' ∷ b'l' ∷ b'i' ∷ b'v' ∷ b'e' ∷ []

-- "400 Bad Request"
abbrev pub bad_request_body : Bytes
bad_request_body = b'4' ∷ b'0' ∷ b'0' ∷ b' ' ∷ bad_request_text

-- "HTTP/1.1 100 Continue\r\n\r\n"
abbrev pub continue_text : Bytes
continue_text =
    b'H' ∷ b'T' ∷ b'T' ∷ b'P' ∷ b'/' ∷ b'1' ∷ b'.' ∷ b'1' ∷ b' ' ∷ b'1' ∷ b'0' ∷ b'0' ∷ b' ' ∷ b'C'
    ∷ b'o' ∷ b'n' ∷ b't' ∷ b'i' ∷ b'n' ∷ b'u' ∷ b'e' ∷ b'\r' ∷ b'\n' ∷ b'\r' ∷ b'\n' ∷ []

-- the bytes of `peek()` and `readable_size()`
abbrev pub readable : TcpBuffer → Bytes
readable b = slice b.read_index (readable_size b) b.buffer

unfoldable pub with_header : HttpResponse → Bytes → Bytes → HttpResponse
with_header resp name value = record resp {
  msg = record (resp.msg) { headers = insert name value resp.msg.headers };
}

unfoldable pub bad_response : HttpResponse
bad_response =
    let resp = set_status Response.fresh bad_request bad_request_text in
    let resp' = record resp { msg = record (resp.msg) { body = bad_request_body } } in
    with_header (with_header resp' content_type text_plain) connection_name close_text

abbrev pub send : HttpConnection → Bytes → HttpConnection
send c text = record c { sent = c.sent ++ (text ∷ []) }

unfoldable pub on_connection : HttpConnection → HttpConnection
on_connection c = record c { parser = Parser.fresh; keep_alive = true }

-- What the loop does with a request that is complete; the handler may change it. `none` is the
-- failed assertion of `consume`.
unfoldable pub handle : HttpRouter → HttpConnection → Option HttpConnection
handle router c =
    let keep = not (equal (get_header c.parser.req.msg connection_key) close_text) in
    let (found, req, resp) = route_request router c.parser.req Response.fresh in
    let resp' = with_header resp connection_name (if keep then keep_alive_text else close_text) in
    let parser = record (c.parser) { req = req } in
    consume c.recv_buffer req.msg.scanned >>= λ b. some (record c {
      recv_buffer = b;
      keep_alive = keep;
      sent = c.sent ++ (build_response parser resp' ∷ []);
      disconnected = if keep then c.disconnected else true;
      parser = if keep then clear parser else parser;
    })

unfoldable pub go_on : (HttpConnection → Outcome) → Option HttpConnection → Outcome
go_on next none = aborted
go_on next (some c) = next c

-- One round of the loop, behind the parser; `next` is the rounds after it.
unfoldable pub after_parse :
    (HttpConnection → Outcome)
    → HttpRouter
    → HttpConnection
    → Option (ParseResult × HttpParser)
    → Outcome
after_parse next router c none = aborted
after_parse next router c (some (error, parser)) =
    let c' = record c { parser = parser } in
    returned (record (send c' (build_response parser bad_response)) { disconnected = true })
after_parse next router c (some (continue_100, parser)) =
    returned (send (record c { parser = parser }) continue_text)
after_parse next router c (some (not_complete, parser)) = returned (record c { parser = parser })
after_parse next router c (some (complete, parser)) =
    go_on next (handle router (record c { parser = parser }))

-- `onMessage`, with `fuel` rounds of its loop.
unfoldable pub on_message : ℕ → HttpRouter → HttpConnection → Outcome
on_message zero router c = out_of_fuel
on_message (suc fuel) router c =
    after_parse (on_message fuel router) router c
      (parse_request c.parser (readable c.recv_buffer) true)
