-- ===== src/Codec/Tests.antt =====
-- The codecs on small messages.
use yy.Prelude.{◌+◌, ◌<◌, ◌≡◌, refl, ◌≢◌, none, some, [], ◌∷◌, arith, length, replicate, Bytes, pos}
use yy.TcpBuffer.{TcpBuffer, contents, read_view}
use yy.TcpBuffer.Inv.{IsValid}
use yy.Codec.Line
use yy.Codec.Line.RoundTrip.{try_decode-none}
use yy.Codec.Length
use yy.Codec.Length.RoundTrip.{encoded, encode_message}
use yy.Codec.View.{length_decodes_stale_byte}

abbrev hi : Bytes
hi = b'h' ∷ b'i' ∷ []

abbrev fresh : TcpBuffer
fresh = record { buffer = replicate 12 0; prepend_size = 8; read_index = 8; write_index = 8 }

fresh-IsValid : IsValid fresh
fresh-IsValid = omega arith

try_decode-none_example :
    (hi ≢ 4 ∷ [] → Line.try_decode hi ≡ (pos 0, none))
    × (hi ≡ 4 ∷ [] → Line.try_decode hi ≡ (pos 1, some hi))
try_decode-none_example = try_decode-none hi (omega arith)

encode_message_example :
    (b' : TcpBuffer) × (Length.encode hi fresh ≡ some b')
    × IsValid b'
    × (contents b' ≡ encoded hi)
    × (contents fresh ≡ [] → Length.try_decode (contents b') ≡ (pos (2 + 8), some hi))
encode_message_example = encode_message hi fresh fresh-IsValid (omega arith) (omega arith)

-- "h", framed with length 2, and a stale 7
abbrev framed : TcpBuffer
framed = record {
  buffer = b'm' ∷ b'B' ∷ b'd' ∷ b'T' ∷ 0 ∷ 0 ∷ 0 ∷ 2 ∷ b'h' ∷ 7 ∷ [];
  prepend_size = 0;
  read_index = 0;
  write_index = 9;
}

length_decodes_stale_byte_example :
    (Length.try_decode (read_view framed) ≡ (pos (9 + 1), some (b'h' ∷ 7 ∷ [])))
    × (length (contents framed) < length (read_view framed))
length_decodes_stale_byte_example =
    length_decodes_stale_byte framed (b'h' ∷ []) (omega arith) (omega arith) refl (omega arith)

-- "hi" and a stale newline
abbrev unfinished : TcpBuffer
unfinished = record {
  buffer = b'h' ∷ b'i' ∷ b'\n' ∷ [];
  prepend_size = 0;
  read_index = 0;
  write_index = 2;
}
