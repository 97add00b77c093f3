-- ===== src/Http/Server/Tests.antt =====
-- Requests that come whole or in parts.
use Prim.Native.Char.{code}
use Prim.Native.String.{String}
use yy.Prelude.{
  ℕ, ◌+◌, ◌≡◌, refl, true, false, Option, none, some, [], ◌∷◌, ◌++◌, arith, length, drop, replicate,
  Bytes, equal,
}
use yy.TcpBuffer.{TcpBuffer, contents}
use yy.StringPiece.{eat_word, eat_line, trim_space, eat, sub, scan, scan_back, is_space}
use yy.StringPiece.Order.{lexicographic}
use yy.Http.Fields.{insert, lookup, lower, atoll}
use yy.Http.Message.{
  ParseResult, complete, find_end, header_line, header_lines, decode_body, decode_length,
  decode_header, try_decode_msg, get_header,
}
use yy.Http.Request.{
  find_char, find, parse_args, parse_url_params, string_to_method, decode_line, try_decode,
}
use yy.Http.Router
use yy.Http.Router.{HttpRouter, route_request, find_route, default_not_found_handler}
use yy.Http.Parser
use yy.Http.Parser.{HttpParser, parse_request, left_over, build_response}
use yy.Http.Parser.Feed.{waiting}
use yy.Http.Server.{HttpConnection, returned, aborted, on_message, readable}
use yy.Http.Server.Steps.{on_message_twice, on_message_close}

-- code points; every literal below is ASCII
abbrev codes : String → Bytes
codes String.[] = []
codes (String.◌∷◌ c s) = code c ∷ codes s

abbrev holding : Bytes → TcpBuffer
holding text = record {
  buffer = replicate 8 0 ++ text;
  prepend_size = 8;
  read_index = 8;
  write_index = 8 + length text;
}

abbrev connection : Bytes → HttpConnection
connection text = record {
  recv_buffer = holding text;
  parser = Parser.fresh;
  keep_alive = true;
  sent = [];
  disconnected = false;
}

abbrev close_request : Bytes
close_request = codes "GET / HTTP/1.1\r\nConnection: close\r\n\r\n"

abbrev plain_request : Bytes
plain_request = codes "GET / HTTP/1.1\r\nHost: h\r\n\r\nGET"

abbrev first_half : Bytes
first_half = codes "GET / HT"

or_fresh : Option (ParseResult × HttpParser) → HttpParser
or_fresh (some (r, p)) = p
or_fresh none = Parser.fresh

closing : HttpParser
closing = or_fresh (parse_request Parser.fresh close_request true)

close_parsed :
    parse_request Parser.fresh (contents (connection close_request).recv_buffer) true
    ≡ some (complete, closing)
unfolding closing or_fresh parse_request left_over try_decode try_decode_msg find_end decode_header
    decode_length decode_body header_lines header_line eat_word eat_line trim_space eat sub scan
    scan_back is_space lexicographic insert lookup lower atoll decode_line parse_url_params
    parse_args find find_char string_to_method get_header equal
close_parsed = refl

on_message_close_example : on_message 2 Router.init (connection close_request) ≡ aborted
unfolding closing or_fresh parse_request left_over try_decode try_decode_msg find_end decode_header
    decode_length decode_body header_lines header_line eat_word eat_line trim_space eat sub scan
    scan_back is_space lexicographic insert lookup lower atoll decode_line parse_url_params
    parse_args find find_char string_to_method get_header equal route_request find_route
    default_not_found_handler
on_message_close_example =
    on_message_close 0 Router.init (connection close_request) {p = closing} (omega arith)
      close_parsed (λ r. refl) refl (omega arith) (omega arith)

on_message_twice_example :
    (on_message 1 Router.init (connection first_half)
      ≡ returned (record (connection first_half) { parser = waiting Parser.fresh first_half }))
    × (parse_request (waiting Parser.fresh first_half) (readable (holding plain_request)) true
        ≡ parse_request Parser.fresh (first_half ++ (first_half ++ drop 8 plain_request)) true)
unfolding find_end
on_message_twice_example =
    on_message_twice 0 Router.init (connection first_half) first_half (drop 8 plain_request)
      (holding plain_request) refl (omega arith) (omega arith) refl refl refl

taken : Option (ParseResult × HttpParser) → Option ℕ
taken (some (r, p)) = some p.req.msg.scanned
taken none = none

-- Of a request of 30 bytes that comes in two parts, the server takes 35.
twice_taken :
    (taken (parse_request (waiting Parser.fresh first_half) plain_request true) ≡ some 35)
    × (length plain_request ≡ 30)
unfolding taken parse_request left_over try_decode try_decode_msg find_end decode_header
    decode_length decode_body header_lines header_line eat_word eat_line trim_space eat sub scan
    scan_back is_space lexicographic insert lookup lower atoll decode_line parse_url_params
    parse_args find find_char string_to_method get_header equal
twice_taken = (refl, refl)
