-- ===== src/Codec/Length.antt =====
-- LengthCodec of Net/src/Codec.cpp.
pub mod RoundTrip
use yy.Prelude.{
  ℕ, ◌+◌, ◌*◌, ◌/◌, ◌%◌, ◌^◌, not, ◌||◌, Option, none, some, [], ◌∷◌, ltb, leb, if◌then◌else◌,
  length, get_or, take, Bytes, slice, equal, ℤ, to_int, pos, negsuc, ◌>>=◌, ◌>>◌,
}
use yy.TcpBuffer.{TcpBuffer, append}

-- "mBdT"
abbrev pub magic : Bytes
magic = b'm' ∷ b'B' ∷ b'd' ∷ b'T' ∷ []

-- `ntohl` of the four bytes from `i` on: most significant first
abbrev pub be32 : Bytes → ℕ → ℕ
be32 text i =
    get_or text i 0 * 2 ^ 24
    + get_or text (i + 1) 0 * 2 ^ 16
    + get_or text (i + 2) 0 * 2 ^ 8
    + get_or text (i + 3) 0

-- the bytes of `htonl(static_cast<uint32_t>(n))`
abbrev pub htonl : ℕ → Bytes
htonl n = n / 2 ^ 24 % 256 ∷ n / 2 ^ 16 % 256 ∷ n / 2 ^ 8 % 256 ∷ n % 256 ∷ []

abbrev pub max_len : ℕ
max_len = 1024 * 1024

pub try_decode : Bytes → ℤ × Option Bytes
try_decode text =
    if ltb (length text) 8
    then (pos 0, none)
    else (let len = be32 text 4 in
        if ltb max_len len || not (equal (take 4 text) magic)
        then (negsuc 0, none)
        else if leb (len + 8) (length text)
        then (to_int (len + 8), some (slice 8 len text))
        else (pos 0, none))

pub encode : Bytes → TcpBuffer → Option TcpBuffer
encode msg buf = do b ← append buf magic; b' ← append b (htonl (length msg)); append b' msg
