-- ===== src/Http/Parser/Feed.antt =====
-- HttpParser fed with its input in parts.
use yy.Prelude.{
  ◌+◌, ◌-◌, ◌≤◌, ◌≡◌, Bool, false, some, ◌++◌, append_assoc, arith, length, length-append, Bytes,
}
use yy.Http.Message.{HttpMsg, not_complete, find_end}
use yy.Http.Message.Resume.{try_decode_resume}
use yy.Http.Request
use yy.Http.Request.{HttpRequest, decode_line}
use yy.Http.Parser.{HttpParser, parse_request, left_over}

-- A parser whose message waits for its headers, and has looked no further than its input.
pub record IsOpen (p : HttpParser) : Type 0 where
  pub waits : (p.req.msg.is_complete ≡ false) × (p.req.msg.content_len ≡ 0)
  pub looked : p.req.msg.scanned ≤ length p.input_buffer

-- No blank line stands in the input from where the parser has come to.
abbrev pub HasNoEnd : HttpMsg → Bytes → Type 0
HasNoEnd m buf = (find_end buf (length buf - 3 - m.scanned) m.scanned).0 ≡ false

abbrev pub waiting : HttpParser → Bytes → HttpParser
waiting p a =
    let input = p.input_buffer ++ a in
    record p {
      req = record (p.req) {
        msg = record (p.req.msg) {
          scanned = p.req.msg.scanned + (length input - 3 - p.req.msg.scanned);
        };
      };
      input_buffer = input;
    }

-- A part of the input in which the headers do not end is kept, and the parser comes with the next
-- part to the same result and the same state as with both parts at once.
pub parse_request-append :
    (p : HttpParser) (a b : Bytes) (copy : Bool)
    → IsOpen p
    → HasNoEnd p.req.msg (p.input_buffer ++ a)
    → (parse_request p a copy ≡ some (not_complete, waiting p a))
      × (parse_request (waiting p a) b copy ≡ parse_request p (a ++ b) copy)
unfolding parse_request Request.try_decode decode_line left_over
parse_request-append p a b copy o h =
    let (first, second) =
      try_decode_resume p.req.msg (p.input_buffer ++ a) b copy o.waits
        (omega (arith, o.looked, length-append p.input_buffer a)) h in
    (rw first, rw (second, append_assoc p.input_buffer a b))
