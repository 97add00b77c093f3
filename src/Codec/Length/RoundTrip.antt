-- ===== src/Codec/Length/RoundTrip.antt =====
-- What LengthCodec decodes of what it encodes.
use yy.Prelude.{
  ℕ, suc, ◌+◌, ◌^◌, ◌≤◌, ◌<◌, ◌≡◌, sym, ap, ◌∙◌, inl, inr, true, false, none, some, [], ◌++◌,
  append-nil, append_assoc, arith, ltb, leb, if◌then◌else◌, le→leb, lt→ltb, Bool-cases, length,
  take, length-append, length-take, take-append_self, Bytes, equal, to_int, to_int-pos, pos, negsuc,
}
use yy.TcpBuffer.{TcpBuffer, max_size, contents}
use yy.TcpBuffer.Inv.{IsValid}
use yy.TcpBuffer.Contents.{append_lem}
use yy.Codec.Length.{magic, be32, htonl, max_len, try_decode, encode}

abbrev pub encoded : Bytes → Bytes
encoded msg = magic ++ (htonl (length msg) ++ msg)

be32-htonl : (n : ℕ) (t : Bytes) → n < 2 ^ 32 → be32 (magic ++ (htonl n ++ t)) 4 ≡ n
be32-htonl n t h = omega arith

-- the decoder behind a whole header
try_decode_header :
    (n : ℕ) (t : Bytes)
    → n < 2 ^ 32
    → try_decode (magic ++ (htonl n ++ t)) ≡ (
        if ltb max_len n
        then (negsuc 0, none)
        else if leb n (length t)
        then (to_int (n + 8), some (take n t))
        else (pos 0, none))
unfolding try_decode equal
try_decode_header n t h =
    let text : Bytes = magic ++ (htonl n ++ t) in
    let e = be32-htonl n t h in
    let f : ltb (length text) 8 ≡ false = ground arith in
    let g : leb (n + 8) (length text) ≡ leb n (length t) = ground arith in
    rw (f, e) (elim (Bool-cases (ltb max_len n)) [ inl t ↦ rw t | inr o ↦ rw o (rw g) ])

-- A message of at most a megabyte is decoded to itself, with all the bytes of its encoding
-- consumed, whatever follows them; a longer one is encoded to bytes that `tryDecode` refuses.
pub try_decode-encoded :
    (msg rest : Bytes)
    → (length msg ≤ max_len → try_decode (encoded msg ++ rest) ≡ (pos (length msg + 8), some msg))
      × (max_len < length msg
          → length msg < 2 ^ 32
          → try_decode (encoded msg ++ rest) ≡ (negsuc 0, none))
try_decode-encoded msg rest = (
  (λ h.
      let f : ltb max_len (length msg) ≡ false = ground arith in
      let g : leb (length msg) (length (msg ++ rest)) ≡ true =
        le→leb (length msg) (length (msg ++ rest)) (omega (arith, length-append msg rest)) in
      try_decode_header (length msg) (msg ++ rest) (omega arith)
      ∙ rw (f, g) (rw (to_int-pos (length msg + 8) (omega arith), take-append_self msg rest))),
  (λ h k. try_decode_header (length msg) (msg ++ rest) k ∙ rw (lt→ltb max_len (length msg) h)),
)

try_decode_short : (text : Bytes) → length text < 8 → try_decode text ≡ (pos 0, none)
unfolding try_decode
try_decode_short text h = rw (lt→ltb (length text) 8 h)

-- No proper prefix of the encoding of a message of at most a megabyte is decoded or refused: the
-- decoder waits for more.
pub try_decode_prefix :
    (msg : Bytes) (k : ℕ)
    → length msg ≤ max_len
    → k < length msg + 8
    → try_decode (take k (encoded msg)) ≡ (pos 0, none)
try_decode_prefix msg (suc (suc (suc (suc (suc (suc (suc (suc k)))))))) h l =
    let n = length msg in
    let f : ltb max_len n ≡ false = ground arith in
    let g : leb n (length (take k msg)) ≡ false = ground (arith, length-take k msg) in
    try_decode_header n (take k msg) (omega arith) ∙ rw (f, g)
try_decode_prefix msg k h l =
    try_decode_short (take k (encoded msg)) (omega (arith, length-take k (encoded msg)))

-- `encode` appends the magic, the length and the message to the readable bytes, and from a buffer
-- with no readable byte `tryDecode` of those gives a message of at most a megabyte back.
pub encode_message :
    (msg : Bytes) (b : TcpBuffer)
    → IsValid b
    → length msg ≤ max_len
    → b.prepend_size + length (contents b) + length msg + 8 ≤ max_size
    → (b' : TcpBuffer) × (encode msg b ≡ some b')
      × IsValid b'
      × (contents b' ≡ contents b ++ encoded msg)
      × (contents b ≡ [] → try_decode (contents b') ≡ (pos (length msg + 8), some msg))
unfolding encode
encode_message msg b v k room =
    let hs = htonl (length msg) in
    let (b1, e1, v1, c1, p1) = append_lem b magic v (omega arith) in
    let l1 = ap (length {A = ℕ}) c1 ∙ length-append (contents b) magic in
    let (b2, e2, v2, c2, p2) = append_lem b1 hs v1 (omega (arith, p1, l1)) in
    let l2 = ap (length {A = ℕ}) c2 ∙ length-append (contents b1) hs in
    let (b3, e3, v3, c3, p3) = append_lem b2 msg v2 (omega (arith, p1, p2, l1, l2)) in
    let c : contents b3 ≡ contents b ++ encoded msg = c3 ∙ simp (c2, c1, append_assoc) in
    (
      b3,
      rw e1 (rw e2 e3),
      v3,
      c,
      λ z.
          ap try_decode (c ∙ ap (λ q. q ++ encoded msg) z ∙ sym (append-nil (encoded msg)))
          ∙ (try_decode-encoded msg []).0 k,
    )
