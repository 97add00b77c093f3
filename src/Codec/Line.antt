-- ===== src/Codec/Line.antt =====
-- LineCodec of Net/src/Codec.cpp.
pub mod RoundTrip
use yy.Prelude.{
  ℕ, ◌+◌, ◌-◌, ◌&&◌, Option, none, some, [], ◌∷◌, ltb, ◌==◌, if◌then◌else◌, length, get_or, take,
  Bytes, ℤ, to_int, pos, ◌>>=◌, ◌>>◌,
}
use yy.TcpBuffer.{TcpBuffer, append}

-- the end of the message before the newline at `i`
abbrev pub msg_end : Bytes → ℕ → ℕ
msg_end text i = if ltb 0 i && get_or text (i - 1) 0 == b'\r' then i - 1 else i

-- The loop over `i`; the second list is what the view holds from `i` on.
pub find_line : Bytes → Bytes → ℕ → ℤ × Option Bytes
find_line text [] i = (pos 0, none)
find_line text (c ∷ rest) i =
    let more = find_line text rest (i + 1) in
    if c == b'\n' then (to_int (i + 1), some (take (msg_end text i) text)) else more

pub try_decode : Bytes → ℤ × Option Bytes
try_decode text =
    if length text == 1 && get_or text 0 0 == 0x04
    then (pos 1, some text)
    else find_line text text 0

pub encode : Bytes → TcpBuffer → Option TcpBuffer
encode msg buf = do b ← append buf msg; append b (b'\r' ∷ b'\n' ∷ [])
