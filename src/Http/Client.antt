-- ===== src/Http/Client.antt =====
-- HTTPClient of Net/HTTP/HttpClient.h: the requests that wait for their response, and what comes for
-- them. What the callbacks of requests do to the client is an argument, and the calls of them are
-- recorded in `answered`; an empty callback is not called. What is
-- given to `send`, and that the connection is disconnected, is recorded too.
pub mod Answers
mod Tests
use yy.Prelude.{
  ℕ, zero, suc, Bool, true, false, Option, none, some, List, [], ◌∷◌, ◌++◌, if◌then◌else◌, ◌>>=◌,
  ◌>>◌, assert, ◌==◌, length, take, Bytes, equal,
}
use yy.TcpBuffer.{TcpBuffer, readable_size, consume}
use yy.Http.Fields.{Fields, insert}
use yy.Http.Message.{ParseResult, error, complete, not_complete, continue_100, get_header, http_1_1}
use yy.Http.Request
use yy.Http.Request.{
  HttpRequest, Method, get_method, post, put, delete, head, unknown, string_to_method, find_char,
  or_end,
}
use yy.Http.Response
use yy.Http.Response.{HttpResponse, try_decode}
use yy.Http.Router.{content_type}
use yy.Http.Server.{readable, connection_key, close_text}

pub record RequestContext : Type 0 where
  pub method : Bytes
  pub url : Bytes
  pub headers : Fields
  pub has_callback : Bool

pub record HttpClient : Type 0 where
  pub has_connection : Bool
  pub recv_buffer : TcpBuffer
  pub response : HttpResponse
  pub pending_requests : List RequestContext
  pub answered : List (RequestContext × HttpResponse)
  pub sent : List Bytes
  pub disconnected : Bool

-- "Host"
abbrev pub host_name : Bytes
host_name = b'H' ∷ b'o' ∷ b's' ∷ b't' ∷ []

-- "application/x-www-form-urlencoded"
abbrev pub form_text : Bytes
form_text =
    b'a' ∷ b'p' ∷ b'p' ∷ b'l' ∷ b'i' ∷ b'c' ∷ b'a' ∷ b't' ∷ b'i' ∷ b'o' ∷ b'n' ∷ b'/' ∷ b'x' ∷ b'-'
    ∷ b'w' ∷ b'w' ∷ b'w' ∷ b'-' ∷ b'f' ∷ b'o' ∷ b'r' ∷ b'm' ∷ b'-' ∷ b'u' ∷ b'r' ∷ b'l' ∷ b'e'
    ∷ b'n' ∷ b'c' ∷ b'o' ∷ b'd' ∷ b'e' ∷ b'd' ∷ []

-- The methods that `sendRequest` knows; HEAD is not one of them.
unfoldable pub method_of : Bytes → Method
unfolding string_to_method
method_of method = elim (string_to_method method) [ head ↦ unknown | m ↦ m ]

unfoldable pub insert_fields : Fields → Fields → Fields
unfolding insert
insert_fields [] headers = headers
insert_fields ((k, v) ∷ more) headers = insert_fields more (insert k v headers)

-- The request that is built; `host` is the address of the peer.
unfoldable pub request_of : Bytes → Bytes → Bytes → Bytes → Fields → HttpRequest
unfolding method_of insert_fields
request_of host method url body headers =
    let fields = insert_fields headers (
      insert host_name (take (or_end (find_char b':' host) host) host) Request.fresh.msg.headers) in
    let has_body = if length body == 0 then fields else insert content_type form_text fields in
    record Request.fresh {
      method = method_of method;
      query_url = url;
      msg = record (Request.fresh.msg) { version = http_1_1; headers = has_body; body = body };
    }

-- `sendRequest`. Without a connection it calls a null pointer.
unfoldable pub send_request :
    Bytes → Bytes → Bytes → Bytes → Bool → Fields → HttpClient → Option HttpClient
unfolding request_of
send_request host method url body has_callback headers c = do
  assert c.has_connection
  some (record c {
    sent = c.sent ++ ((Request.encode (request_of host method url body headers) []).0 ∷ []);
    pending_requests =
        c.pending_requests
        ++ (record { method = method; url = url; headers = headers; has_callback = has_callback }
            ∷ []);
  })

pub data Outcome : Type 0 where
  returned : HttpClient → Outcome
  aborted : Outcome  -- a failed assertion, an exception, or a read past the input
  out_of_fuel : Outcome

-- What the callback of a request does with the response; `none` is a failed assertion in it.
abbrev pub Callback : Type 0
Callback = RequestContext → HttpResponse → HttpClient → Option HttpClient

-- A complete response goes to the request that has waited longest.
unfoldable pub answer : Callback → HttpClient → Option HttpClient
answer callback c = elim c.pending_requests [
  | [] ↦ some c
  | ctx ∷ rest ↦
      if ctx.has_callback
      then callback ctx c.response
          (record c { pending_requests = rest; answered = c.answered ++ ((ctx, c.response) ∷ []) })
      else some (record c { pending_requests = rest })
]

-- What the loop does with a complete response; `none` is the failed assertion of `consume`.
unfoldable pub handle : Callback → HttpClient → Option HttpClient
unfolding answer
handle callback c = do
  c1 ← answer callback c
  b ← consume c1.recv_buffer c1.response.msg.scanned
  some (
      if equal (get_header c1.response.msg connection_key) close_text
      then record c1 { recv_buffer = b; disconnected = true }
      else record c1 { recv_buffer = b; response = Response.clear c1.response })

unfoldable pub go_on : (HttpClient → Outcome) → Option HttpClient → Outcome
go_on next none = aborted
go_on next (some c) = next c

-- One round of the loop, behind the parser. For `Continue100` the loop has no branch.
unfoldable pub after_decode :
    Callback → (HttpClient → Outcome) → HttpClient → Option (ParseResult × HttpResponse) → Outcome
unfolding go_on handle
after_decode callback next c none = aborted
after_decode callback next c (some (error, r)) =
    elim (consume c.recv_buffer (readable_size c.recv_buffer)) [
      | none ↦ aborted
      | some b ↦ returned (record c { recv_buffer = b; response = r })
    ]
after_decode callback next c (some (continue_100, r)) = next (record c { response = r })
after_decode callback next c (some (not_complete, r)) = returned (record c { response = r })
after_decode callback next c (some (complete, r)) =
    go_on next (handle callback (record c { response = r }))

-- `onMessage`, with `fuel` rounds of its loop.
unfoldable pub on_message : Callback → ℕ → HttpClient → Outcome
unfolding after_decode
on_message callback zero c = out_of_fuel
on_message callback (suc fuel) c =
    after_decode callback (on_message callback fuel) c
      (try_decode c.response (readable c.recv_buffer) true)
