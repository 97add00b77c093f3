-- ===== src/Codec/Line/RoundTrip.antt =====
-- What LineCodec decodes.
use yy.Prelude.{
  ℕ, zero, suc, ◌+◌, ◌-◌, ◌^◌, ◌<◌, ◌≡◌, refl, sym, ap, ap₂, ◌∙◌, ◌≢◌, inl, inr, false, none, some,
  [], ◌∷◌, ◌++◌, append_assoc, arith, ◌==◌, if◌then◌else◌, ==_iff, Bool-cases, length, take,
  length-append, Bytes, to_int-pos, pos,
}
use yy.TcpBuffer.{TcpBuffer}
use yy.Codec.Line.{msg_end, find_line, try_decode}

abbrev pub HasNoNewline : Bytes → Type 0
HasNoNewline [] = Unit
HasNoNewline (c ∷ cs) = (c ≢ b'\n') × HasNoNewline cs

-- a line with the carriage return at its end taken off
pub strip_cr : Bytes → Bytes
strip_cr [] = []
strip_cr (c ∷ []) = if c == b'\r' then [] else c ∷ []
strip_cr (c ∷ d ∷ ds) = c ∷ strip_cr (d ∷ ds)

find_line-newline :
    (text line rest : Bytes) (i : ℕ)
    → HasNoNewline line
    → find_line text (line ++ (b'\n' ∷ rest)) i ≡ find_line text (b'\n' ∷ rest) (i + length line)
unfolding find_line
find_line-newline text [] rest i h = let e : i + length {A = ℕ} [] ≡ i = omega arith in rw e
find_line-newline text (c ∷ cs) rest i h =
    let e : i + length (c ∷ cs) ≡ i + 1 + length cs = omega arith in
    let f : (c == b'\n') ≡ false = ground arith in
    rw (e, f) (find_line-newline text cs rest (i + 1) h.1)

find_line-none :
    (text line : Bytes) (i : ℕ) → HasNoNewline line → find_line text line i ≡ (pos 0, none)
unfolding find_line
find_line-none text [] i h = refl
find_line-none text (c ∷ cs) i h =
    let f : (c == b'\n') ≡ false = ground arith in rw f (find_line-none text cs (i + 1) h.1)

msg_end-suc : (c : ℕ) (t : Bytes) (n : ℕ) → msg_end (c ∷ t) (suc (suc n)) ≡ suc (msg_end t (suc n))
msg_end-suc c t n =
    let e : suc (suc n) - 1 ≡ suc n = omega arith in
    let f : suc n - 1 ≡ n = omega arith in rw (e, f) (ground arith)

take-msg_end :
    (line rest : Bytes) → take (msg_end (line ++ rest) (length line)) (line ++ rest) ≡ strip_cr line
unfolding strip_cr
take-msg_end [] rest = refl
take-msg_end (c ∷ []) rest = elim (Bool-cases (c == b'\r')) [ inl t ↦ rw t | inr f ↦ rw f ]
take-msg_end (c ∷ d ∷ ds) rest =
    rw (msg_end-suc c ((d ∷ ds) ++ rest) (length ds)) (ap (◌∷◌ c) (take-msg_end (d ∷ ds) rest))

-- The test for the end-of-file byte.
pub try_decode-not_eof : (text : Bytes) → text ≢ 4 ∷ [] → try_decode text ≡ find_line text text 0
unfolding try_decode
try_decode-not_eof [] ne = refl
try_decode-not_eof (x ∷ []) ne = elim (Bool-cases (x == 4)) [
  | inl t ↦ absurd (ne (ap (λ y. y ∷ []) ((==_iff x 4).0 t)))
  | inr f ↦ rw f
]
try_decode-not_eof (x ∷ y ∷ ys) ne =
    let f : (length (x ∷ y ∷ ys) == 1) ≡ false = ground arith in rw f

has_newline-ne-eof : (line rest : Bytes) → (line ++ (b'\n' ∷ rest)) ≢ 4 ∷ []
has_newline-ne-eof [] rest e = ground arith
has_newline-ne-eof (x ∷ []) rest e = ground arith
has_newline-ne-eof (x ∷ y ∷ ys) rest e = ground arith

-- Text that holds a newline decodes to its first line: the bytes before the newline, less a
-- carriage return at their end, and the count of the bytes up to and with the newline.
pub try_decode_line :
    (line rest : Bytes)
    → HasNoNewline line
    → length line + 1 < 2 ^ 31
    → try_decode (line ++ (b'\n' ∷ rest)) ≡ (pos (length line + 1), some (strip_cr line))
unfolding find_line
try_decode_line line rest h k =
    let text : Bytes = line ++ (b'\n' ∷ rest) in
    let e : zero + length line ≡ length line = omega arith in
    try_decode-not_eof text (has_newline-ne-eof line rest)
    ∙ find_line-newline text line rest 0 h
    ∙ rw e (
        ap₂ (λ n m. (n, some m)) (to_int-pos (length line + 1) k)
          (take-msg_end line (b'\n' ∷ rest)))

-- Text without a newline is not decoded, unless it is the single byte 4, which is its own message.
pub try_decode-none :
    (text : Bytes)
    → HasNoNewline text
    → (text ≢ 4 ∷ [] → try_decode text ≡ (pos 0, none))
      × (text ≡ 4 ∷ [] → try_decode text ≡ (pos 1, some text))
unfolding try_decode
try_decode-none text h =
    ((λ ne. try_decode-not_eof text ne ∙ find_line-none text text 0 h), (λ e. rw e))

strip_cr-concat : (msg : Bytes) → strip_cr (msg ++ (b'\r' ∷ [])) ≡ msg
unfolding strip_cr
strip_cr-concat [] = refl
strip_cr-concat (c ∷ []) = refl
strip_cr-concat (c ∷ d ∷ ds) = ap (◌∷◌ c) (strip_cr-concat (d ∷ ds))

HasNoNewline-concat : (msg : Bytes) → HasNoNewline msg → HasNoNewline (msg ++ (b'\r' ∷ []))
HasNoNewline-concat [] h = ground arith
HasNoNewline-concat (c ∷ cs) h = (h.0, HasNoNewline-concat cs h.1)

-- A message without a newline is decoded to itself, with all the bytes of its encoding consumed,
-- whatever follows them.
pub try_decode-encoded :
    (msg rest : Bytes)
    → HasNoNewline msg
    → length msg + 2 < 2 ^ 31
    → try_decode (msg ++ (b'\r' ∷ b'\n' ∷ rest)) ≡ (pos (length msg + 2), some msg)
try_decode-encoded msg rest h k =
    let line : Bytes = msg ++ (b'\r' ∷ []) in
    let len : length line + 1 ≡ length msg + 2 = omega (arith, length-append msg (b'\r' ∷ [])) in
    let e : msg ++ (b'\r' ∷ b'\n' ∷ rest) ≡ line ++ (b'\n' ∷ rest) =
      sym (append_assoc msg (b'\r' ∷ []) (b'\n' ∷ rest)) in
    rw e (
      try_decode_line line rest (HasNoNewline-concat msg h) (omega (arith, len))
      ∙ ap₂ (λ n m. (pos n, some m)) len (strip_cr-concat msg))
