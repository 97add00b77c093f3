-- ===== src/Codec/View.antt =====
-- The decoders on `TcpBuffer::readView`, as Net/NetTest/CodecTestServer.cpp calls them. The view has
-- one byte more than the buffer, and a decoder can take that byte for input.
use yy.Prelude.{
  ℕ, ◌+◌, ◌^◌, ◌≤◌, ◌<◌, ◌≡◌, sym, ap, ◌∙◌, some, [], ◌∷◌, ◌++◌, append-nil, arith, length, get_or,
  length-append, Bytes, pos,
}
use yy.TcpBuffer.{TcpBuffer, contents, read_view}
use yy.TcpBuffer.Inv.{IsValid}
use yy.TcpBuffer.Marks.{read_view_lem}
use yy.Codec.Line
use yy.Codec.Line.RoundTrip.{HasNoNewline, strip_cr, try_decode_line}
use yy.Codec.Length
use yy.Codec.Length.{magic, htonl, max_len}
use yy.Codec.Length.RoundTrip.{encoded, try_decode-encoded}

-- When the last byte of a framed message has not arrived, and the storage holds a stale byte at the
-- write index, LengthCodec decodes `readView` to the message with the stale byte at its end, and
-- asks to consume one byte more than is readable.
pub length_decodes_stale_byte :
    (b : TcpBuffer) (msg : Bytes)
    → IsValid b
    → b.write_index < length b.buffer
    → contents b ≡ magic ++ (htonl (length msg + 1) ++ msg)
    → length msg + 1 ≤ max_len
    → (Length.try_decode (read_view b)
        ≡ (pos (length (contents b) + 1), some (msg ++ (get_or b.buffer b.write_index 0 ∷ []))))
      × (length (contents b) < length (read_view b))
length_decodes_stale_byte b msg v h c k =
    let stale = get_or b.buffer b.write_index 0 ∷ [] in
    let whole : Bytes = msg ++ stale in
    let len : length whole ≡ length msg + 1 = length-append msg stale in
    let seen : read_view b ≡ encoded whole ++ [] =
      read_view_lem b v h
      ∙ ap (λ q. q ++ stale) c
      ∙ ap (λ n. magic ++ (htonl n ++ whole)) (sym len)
      ∙ sym (append-nil (encoded whole)) in
    (
      ap Length.try_decode seen
          ∙ (try_decode-encoded whole []).0 (omega (arith, len))
          ∙ ap (λ n. (pos n, some whole)) (omega (arith, len, ap (length {A = ℕ}) c)),
      omega (arith, ap (length {A = ℕ}) (read_view_lem b v h), length-append (contents b) stale),
    )

-- When the readable bytes hold no newline, and the storage holds a stale newline at the write
-- index, LineCodec decodes `readView` to the unfinished line, and asks to consume one byte more than
-- is readable.
pub line_decodes_stale_newline :
    (b : TcpBuffer)
    → IsValid b
    → b.write_index < length b.buffer
    → HasNoNewline (contents b)
    → get_or b.buffer b.write_index 0 ≡ b'\n'
    → length (contents b) + 1 < 2 ^ 31
    → Line.try_decode (read_view b) ≡ (pos (length (contents b) + 1), some (strip_cr (contents b)))
line_decodes_stale_newline b v h n e k =
    ap Line.try_decode (read_view_lem b v h ∙ ap (λ c. contents b ++ (c ∷ [])) e)
    ∙ try_decode_line (contents b) [] n k
