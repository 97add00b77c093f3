-- ===== src/TcpBuffer/Fd.antt =====
-- TcpBuffer::appendFormFd over `sockets::readv`, which is given as a parameter: from the room in
-- the two buffers it is handed to the bytes that it read, or none for an error.
use yy.Prelude.{
  ℕ, ◌+◌, ◌-◌, ◌≤◌, ◌<◌, ◌≡◌, refl, sym, ap, ◌∙◌, inl, inr, false, Option, none, some, [], ◌∷◌,
  ◌++◌, append-nil, append_assoc, arith, ltb, leb, ◌==◌, if◌then◌else◌, le→leb, leb→le, suc-ne-zero,
  Bool-cases, ◌>>=◌, length, take, drop, length-append, length-take, length-drop, take-append-drop,
  take-all, Bytes, copy_to, length-copy_to,
}
use yy.TcpBuffer.Contents.{
  append_lem, appended, appended-IsValid, contents-appended, move_write_index-eq,
}
use yy.TcpBuffer.Inv.{IsValid, writable_eq}
use yy.TcpBuffer.{TcpBuffer, max_size, writable_size, contents, append, move_write_index}

abbrev pub extrabuf_size : ℕ
extrabuf_size = 65536

-- the room of the `iovcnt` buffers that are handed to `readv`
abbrev pub offered : ℕ → ℕ
offered writable = if ltb writable extrabuf_size then writable + extrabuf_size else writable

-- what `readv` leaves in the storage, and in `extrabuf`
filled : TcpBuffer → Bytes → TcpBuffer
filled b input = record b { buffer = copy_to b.buffer b.write_index (take (writable_size b) input) }

extra : TcpBuffer → Bytes → Bytes
extra b input = take extrabuf_size (drop (writable_size b) input)

-- `write_index_=buffer_.size(); append(extrabuf, n - writable);`
spilled : TcpBuffer → Bytes → Option TcpBuffer
spilled b input =
    append (record (filled b input) { write_index = length (filled b input).buffer })
      (take (length input - writable_size b) (extra b input))

-- The branch `n > 0`, where `n` is the length of the input.
received : TcpBuffer → Bytes → Option TcpBuffer
received b input =
    if leb (length input) (writable_size (filled b input))
    then move_write_index (filled b input) (length input)
    else spilled b input

-- The second part of the result is `n`: `none` is a negative one.
pub append_from_fd : (ℕ → Option Bytes) → TcpBuffer → Option (TcpBuffer × Option ℕ)
append_from_fd readv b = elim (readv (offered (writable_size b))) [
  | none ↦ some (b, none)
  | some input ↦
      if length input == 0
      then some (b, some 0)
      else (received b input >>= λ b'. some (b', some (length input)))
]

received_all :
    (b : TcpBuffer) (input : Bytes)
    → IsValid b
    → length input ≤ writable_size b
    → received b input ≡ some (appended b input)
unfolding received filled
received_all b input v h =
    let t = take-all (writable_size b) input h in
    let len = length-copy_to b.buffer b.write_index input in
    rw t (
      rw len (
        rw (le→leb (length input) (writable_size b) h)
          (move_write_index-eq b input v (omega arith))))

-- Both parts of the input, put together again.
spilled-eq :
    (b : TcpBuffer) (input : Bytes)
    → IsValid b
    → writable_size b < length input
    → length input ≤ offered (writable_size b)
    → spilled b input
      ≡ append (appended b (take (writable_size b) input)) (drop (writable_size b) input)
unfolding spilled filled extra
spilled-eq b input v h o =
    let w = writable_size b in
    let lt : length (take w input) ≡ w = omega (arith, length-take w input) in
    let ld = length-drop w input in
    let at_end : length (copy_to b.buffer b.write_index (take w input))
        ≡ b.write_index + length (take w input) =
      omega (arith, length-copy_to b.buffer b.write_index (take w input), lt, writable_eq b v) in
    let few : length (drop w input) ≤ extrabuf_size = ground (arith, ld) in
    let all : take (length input - w) (take extrabuf_size (drop w input)) ≡ drop w input =
      rw (take-all extrabuf_size (drop w input) few)
        (take-all (length input - w) (drop w input) (omega (arith, ld))) in
    rw (all, at_end)

received_more :
    (b : TcpBuffer) (input : Bytes)
    → IsValid b
    → writable_size b < length input
    → length input ≤ offered (writable_size b)
    → b.prepend_size + length (contents b) + length input ≤ max_size
    → (b' : TcpBuffer) × (received b input ≡ some b')
      × IsValid b'
      × (contents b' ≡ contents b ++ input)
      × (b'.prepend_size ≡ b.prepend_size)
unfolding received filled
received_more b input v h o k =
    let w = writable_size b in
    let xs = take w input in
    let ys = drop w input in
    let parts = take-append-drop w input in
    let lt : length xs ≡ w = omega (arith, length-take w input) in
    let room : b.write_index + length xs ≤ length b.buffer = omega (arith, lt, writable_eq b v) in
    let c = contents-appended b xs v room in
    let total : length (contents (appended b xs)) + length ys ≡ length (contents b) + length input =
      omega (
        arith,
        ap (length {A = ℕ}) c,
        length-append (contents b) xs,
        length-append xs ys,
        ap (length {A = ℕ}) parts,
      ) in
    let (b', e, v', c', p) =
      append_lem (appended b xs) ys (appended-IsValid b xs v room) (omega (arith, total)) in
    let len = length-copy_to b.buffer b.write_index xs in
    let f : leb (length input) w ≡ false = ground arith in
    (
      b',
      rw (len, f) (spilled-eq b input v h o ∙ e),
      v',
      c' ∙ ap (λ q. q ++ ys) c ∙ append_assoc (contents b) xs ys ∙ ap (λ q. contents b ++ q) parts,
      p,
    )

-- When `readv` reads some bytes, no more than it was offered, `appendFormFd` returns their number,
-- and appends all of them to the readable bytes, also those that went through the extra buffer.
pub append_from_fd_lem :
    (readv : ℕ → Option Bytes) (b : TcpBuffer) {input : Bytes}
    → IsValid b
    → readv (offered (writable_size b)) ≡ some input
    → length input ≤ offered (writable_size b)
    → b.prepend_size + length (contents b) + length input ≤ max_size
    → (b' : TcpBuffer) × (append_from_fd readv b ≡ some (b', some (length input)))
      × IsValid b'
      × (contents b' ≡ contents b ++ input)
      × (b'.prepend_size ≡ b.prepend_size)
unfolding append_from_fd
append_from_fd_lem readv b {input = []} v e o k =
    (b, rw (e, append_from_fd), v, sym (append-nil (contents b)), refl)
append_from_fd_lem readv b {input = x ∷ xs} v e o k =
    elim (Bool-cases (leb (length (x ∷ xs)) (writable_size b))) [
      | inl t ↦
          let h = leb→le (length (x ∷ xs)) (writable_size b) t in
          let room : b.write_index + length (x ∷ xs) ≤ length b.buffer =
            omega (arith, h, writable_eq b v) in
          (
            appended b (x ∷ xs),
            rw (e, append_from_fd) (rw (suc-ne-zero (length xs), received_all b (x ∷ xs) v h)),
            appended-IsValid b (x ∷ xs) v room,
            contents-appended b (x ∷ xs) v room,
            refl,
          )
      | inr f ↦
          let (b', r, v', c, p) = received_more b (x ∷ xs) v (ground arith) o k in
          (b', rw (e, append_from_fd) (rw (suc-ne-zero (length xs), r)), v', c, p)
    ]

-- After an error `appendFormFd` has changed nothing.
pub append_from_fd-none :
    (readv : ℕ → Option Bytes) (b : TcpBuffer)
    → readv (offered (writable_size b)) ≡ none
    → append_from_fd readv b ≡ some (b, none)
unfolding append_from_fd
append_from_fd-none readv b e = rw (e, append_from_fd)
