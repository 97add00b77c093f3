-- ===== src/Http/Server/Steps.antt =====
-- What `onMessage` does with the bytes that have come.
use yy.Prelude.{
  ℕ, suc, ◌+◌, ◌≤◌, ◌<◌, ◌≡◌, refl, ap, ◌∙◌, true, some, ◌++◌, arith, length, length-drop, Bytes,
  equal,
}
use yy.TcpBuffer.{TcpBuffer, contents}
use yy.TcpBuffer.Inv.{IsValid, readable_eq}
use yy.TcpBuffer.Contents.{consume_lem, consume-beyond}
use yy.Http.Message.{HttpMsg, complete, get_header}
use yy.Http.Request.{HttpRequest}
use yy.Http.Response
use yy.Http.Router.{HttpRouter, route_request}
use yy.Http.Parser
use yy.Http.Parser.{HttpParser, parse_request, build_response, left_over}
use yy.Http.Parser.Done.{parse_request-complete, parse_request-done}
use yy.Http.Parser.Feed.{HasNoEnd, waiting, parse_request-append}
use yy.Http.Server.{
  after_parse, go_on, HttpConnection, returned, aborted, readable, handle, on_message,
  connection_key, close_text,
}

pub readable-contents : (b : TcpBuffer) → IsValid b → readable b ≡ contents b
readable-contents b v = rw (readable_eq b v)

-- When the bytes `a` of a request have come and its headers have not ended, `onMessage` leaves them
-- in the receive buffer, although the parser has kept them. With more bytes `b` behind them, the
-- parser is given `a` a second time: it does what a new parser would do with `a`, `a` again and `b`.
pub on_message_twice :
    (f : ℕ) (router : HttpRouter) (c : HttpConnection) (a b : Bytes) (later : TcpBuffer)
    → c.parser ≡ Parser.fresh
    → IsValid c.recv_buffer
    → IsValid later
    → contents c.recv_buffer ≡ a
    → contents later ≡ a ++ b
    → HasNoEnd Parser.fresh.req.msg a
    → (on_message (suc f) router c ≡ returned (record c { parser = waiting Parser.fresh a }))
      × (parse_request (waiting Parser.fresh a) (readable later) true
          ≡ parse_request Parser.fresh (a ++ (a ++ b)) true)
unfolding on_message after_parse
on_message_twice f router c a b later e v w h k n =
    let (first, second) =
      parse_request-append Parser.fresh a (a ++ b) true
        (record { waits = (refl, refl); looked = omega arith }) n in
    let r : readable c.recv_buffer ≡ a = readable-contents c.recv_buffer v ∙ h in
    let r' : readable later ≡ a ++ b = readable-contents later w ∙ k in
    (rw (r, e) (rw first), rw r' second)

-- A request that asks to close, with fewer bytes behind it than it has itself, aborts the program:
-- after the answer and `disconnect` the loop goes on, the parser gives the same request again, and
-- `consume` is asked for more than is left. The handlers leave the message of the request alone.
pub on_message_close :
    (f : ℕ) (router : HttpRouter) (c : HttpConnection) {p : HttpParser}
    → IsValid c.recv_buffer
    → parse_request c.parser (contents c.recv_buffer) true ≡ some (complete, p)
    → ((r : HttpRequest) → (route_request router r Response.fresh).1.msg ≡ r.msg)
    → equal (get_header p.req.msg connection_key) close_text ≡ true
    → p.req.msg.scanned ≤ length (contents c.recv_buffer)
    → length (contents c.recv_buffer) < p.req.msg.scanned + p.req.msg.scanned
    → on_message (suc (suc f)) router c ≡ aborted
unfolding on_message after_parse go_on handle
on_message_close f router c {p} v e leaves o h few =
    let r = readable-contents c.recv_buffer v in
    let m = p.req.msg in
    let req = (route_request router p.req Response.fresh).1 in
    let same = leaves p.req in
    let (b, d, v', k, s) = consume_lem c.recv_buffer m.scanned v h in
    let r' = readable-contents b v' in
    let done : req.msg.is_complete ≡ true =
      ap (λ (x : HttpMsg). x.is_complete) same
      ∙ parse_request-complete c.parser (contents c.recv_buffer) true e in
    let again = parse_request-done (record p { req = req }) (readable b) true done in
    let amount : (route_request router req Response.fresh).1.msg.scanned ≡ m.scanned =
      ap (λ (x : HttpMsg). x.scanned) (leaves req ∙ same) in
    let left : length (contents b) < m.scanned =
      omega (arith, ap (length {A = ℕ}) k, length-drop m.scanned (contents c.recv_buffer)) in
    let fails = consume-beyond b m.scanned v' left in
    rw (r, e) (rw (ap (λ (x : HttpMsg). x.scanned) same, o, d) (rw again (rw (amount, fails))))
