-- ===== src/Http/Client/Tests.antt =====
-- Responses for two requests that wait.
use Prim.Native.Char.{code}
use Prim.Native.String.{String}
use yy.Prelude.{
  ℕ, ◌+◌, ◌≡◌, refl, true, false, Option, none, some, [], ◌∷◌, ◌++◌, arith, length, drop, replicate,
  Bytes, equal,
}
use yy.TcpBuffer.{TcpBuffer, contents}
use yy.TcpBuffer.Inv.{IsValid}
use yy.StringPiece.{eat_word, eat_line, trim_space, eat, sub, scan, scan_back, is_space}
use yy.StringPiece.Order.{lexicographic}
use yy.Http.Fields.{insert, lookup, lower, atoll}
use yy.Http.Message.{
  ParseResult, complete, find_end, header_line, header_lines, decode_body, decode_length,
  decode_header, try_decode_msg, get_header,
}
use yy.Http.Response
use yy.Http.Response.{HttpResponse, try_decode}
use yy.Http.Client.{RequestContext, HttpClient, Callback, on_message}
use yy.Http.Client.Answers.{on_message_answers_twice}

-- code points; every literal below is ASCII
abbrev codes : String → Bytes
codes String.[] = []
codes (String.◌∷◌ c s) = code c ∷ codes s

abbrev holding : Bytes → TcpBuffer
holding text = record {
  buffer = replicate 8 0 ++ text;
  prepend_size = 8;
  read_index = 8;
  write_index = 8 + length text;
}

abbrev request : ℕ → RequestContext
request n = record { method = codes "GET"; url = n ∷ []; headers = []; has_callback = true }

abbrev client : Bytes → HttpClient
client text = record {
  has_connection = true;
  recv_buffer = holding text;
  response = Response.fresh;
  pending_requests = request 1 ∷ request 2 ∷ [];
  answered = [];
  sent = [];
  disconnected = false;
}

abbrev plain_response : Bytes
plain_response =
    codes "HTTP/1.1 200 OK\r\nServer: s\r\n\r\nHTTP/1.1 404 NO\r\nServer: t\r\n\r\nHTTP"

abbrev close_responses : Bytes
close_responses =
    codes "HTTP/1.1 200 OK\r\nConnection: close\r\n\r\nHTTP/1.1 404 NO\r\nConnection: close\r\n\r\n"

or_fresh : Option (ParseResult × HttpResponse) → HttpResponse
or_fresh (some (r, p)) = p
or_fresh none = Response.fresh

plain : HttpResponse
plain = or_fresh (try_decode Response.fresh plain_response true)

-- The bytes behind the first response, and the second one.
behind_plain : Bytes
behind_plain = drop plain.msg.scanned plain_response

second_plain : HttpResponse
second_plain = or_fresh (try_decode Response.fresh behind_plain true)

closing : HttpResponse
closing = or_fresh (try_decode Response.fresh close_responses true)

close_parsed :
    try_decode Response.fresh (contents (holding close_responses)) true ≡ some (complete, closing)
unfolding closing or_fresh try_decode try_decode_msg find_end decode_header decode_length
    decode_body header_lines header_line eat_word eat_line trim_space eat sub scan scan_back
    is_space lexicographic insert lookup lower atoll Response.decode_line get_header equal
close_parsed = refl

-- A callback that sends a third request.
abbrev sends_third : Callback
sends_third ctx r c = some (record c {
  pending_requests = c.pending_requests ++ (request 3 ∷ []);
  sent = c.sent ++ ((3 ∷ []) ∷ []);
})

on_message_answers_twice_example :
    (b : TcpBuffer) × IsValid b
    × (contents b
        ≡ drop closing.msg.scanned (drop closing.msg.scanned (contents (holding close_responses))))
    × (on_message sends_third 2 (client close_responses)
        ≡ on_message sends_third 0 (record (client close_responses) {
          recv_buffer = b;
          response = closing;
          pending_requests = request 3 ∷ request 3 ∷ [];
          sent = (3 ∷ []) ∷ (3 ∷ []) ∷ [];
          answered = (request 1, closing) ∷ (request 2, closing) ∷ [];
          disconnected = true;
        }))
unfolding closing or_fresh try_decode try_decode_msg find_end decode_header decode_length
    decode_body header_lines header_line eat_word eat_line trim_space eat sub scan scan_back
    is_space lexicographic insert lookup lower atoll Response.decode_line get_header equal
on_message_answers_twice_example =
    on_message_answers_twice sends_third (λ c. request 3 ∷ []) (λ c. (3 ∷ []) ∷ []) (λ c r b. refl)
      0 (client close_responses) (request 1) (request 2) [] {r = closing} (omega arith) refl refl
      refl close_parsed refl (omega arith)
