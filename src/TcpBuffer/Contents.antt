-- ===== src/TcpBuffer/Contents.antt =====
-- TcpBuffer as a byte queue: what each operation does to the readable bytes, and what it returns.
use yy.Prelude.{
  ℕ, zero, ◌+◌, ◌-◌, ◌≤◌, ◌<◌, ◌≡◌, sym, ap, ◌∙◌, inl, inr, true, false, none, some, ◌++◌, arith,
  ltb, leb, if◌then◌else◌, le→leb, ltb→lt, Bool-cases, add_size, length, take, drop, drop-all,
  Bytes, slice, copy_to, length-copy_to, slice-copy_to_end, take-slice, drop-slice,
}
use yy.TcpBuffer.Inv.{IsValid, readable_eq, length-contents, ensure_appendable-IsGrown}
use yy.TcpBuffer.{
  readable_size, TcpBuffer, max_size, writable_size, contents, check_index_validity,
  move_write_index, move_read_index, append, consume, retrieve,
}

abbrev pub appended : TcpBuffer → Bytes → TcpBuffer
appended b xs = record b {
  buffer = copy_to b.buffer b.write_index xs;
  write_index = b.write_index + length xs;
}

module _ (b : TcpBuffer) (xs : Bytes) (v : IsValid b)
    (room : b.write_index + length xs ≤ length b.buffer) where
  pub contents-appended : contents (appended b xs) ≡ contents b ++ xs
  contents-appended =
      slice-copy_to_end b.read_index (b.write_index - b.read_index) b.buffer xs b.write_index
        (b.write_index + length xs - b.read_index) (omega arith) (omega arith) (omega arith)

  pub appended-IsValid : IsValid (appended b xs)
  appended-IsValid = omega (arith, length-copy_to b.buffer b.write_index xs)

  pub move_write_index-eq :
      move_write_index (record b { buffer = copy_to b.buffer b.write_index xs }) (length xs)
      ≡ some (appended b xs)
  unfolding move_write_index
  move_write_index-eq =
      let len = length-copy_to b.buffer b.write_index xs in
      let e : add_size b.write_index (length xs) ≡ b.write_index + length xs = omega arith in
      rw len (rw e (rw (le→leb (length xs) (writable_size b) (omega arith))))

-- `append` succeeds whenever the data fits the largest vector behind the prepend space; it keeps
-- the buffer valid and its prepend size, and the readable bytes become the old ones and then the data.
pub append_lem :
    (b : TcpBuffer) (xs : Bytes)
    → IsValid b
    → b.prepend_size + length (contents b) + length xs ≤ max_size
    → (b' : TcpBuffer) × (append b xs ≡ some b')
      × IsValid b'
      × (contents b' ≡ contents b ++ xs)
      × (b'.prepend_size ≡ b.prepend_size)
unfolding append
append_lem b xs v h =
    let len = length-contents b v in
    let (m, e, g) = ensure_appendable-IsGrown b (length xs) v (omega (arith, len, h)) in
    (
      appended m xs,
      rw e (move_write_index-eq m xs g.valid g.room),
      appended-IsValid m xs g.valid g.room,
      contents-appended m xs g.valid g.room ∙ ap (λ q. q ++ xs) g.same,
      g.prepend_same,
    )

abbrev pub advanced : TcpBuffer → ℕ → TcpBuffer
advanced b n =
    if ltb n (b.write_index - b.read_index)
    then record b { read_index = b.read_index + n }
    else record b { read_index = b.prepend_size; write_index = b.prepend_size }

module _ (b : TcpBuffer) (n : ℕ) (v : IsValid b) (h : n ≤ b.write_index - b.read_index) where
  advanced-IsValid : IsValid (advanced b n)
  advanced-IsValid = elim (Bool-cases (ltb n (b.write_index - b.read_index))) [
    | inl t ↦ rw t (let l = ltb→lt n (b.write_index - b.read_index) t in omega arith)
    | inr f ↦ rw f (omega arith)
  ]

  pub move_read_index-eq : move_read_index b n ≡ some (advanced b n)
  unfolding move_read_index check_index_validity
  move_read_index-eq =
      let r = readable_eq b v in
      rw (r, le→leb n (b.write_index - b.read_index) h)
        (elim (Bool-cases (ltb n (b.write_index - b.read_index))) [
          | inl t ↦ let l = ltb→lt n (b.write_index - b.read_index) t in rw t (ground arith)
          | inr f ↦ rw f (ground arith)
        ])

  contents-advanced : contents (advanced b n) ≡ drop n (contents b)
  contents-advanced = elim (Bool-cases (ltb n (b.write_index - b.read_index))) [
    | inl t ↦ rw t (
        let e : b.write_index - (b.read_index + n) ≡ b.write_index - b.read_index - n =
          omega arith in
        rw e (sym (drop-slice n b.read_index (b.write_index - b.read_index) b.buffer)))
    | inr f ↦ rw f (
        let e : b.prepend_size - b.prepend_size ≡ zero = omega arith in
        let l : length (contents b) ≤ n = ground (arith, length-contents b v) in
        rw e (sym (drop-all n (contents b) l)))
  ]

  bytes_at-advanced : slice b.read_index n (advanced b n).buffer ≡ take n (contents b)
  bytes_at-advanced = elim (Bool-cases (ltb n (b.write_index - b.read_index))) [
    | inl t ↦ rw t (sym (take-slice n b.read_index (b.write_index - b.read_index) b.buffer h))
    | inr f ↦ rw f (sym (take-slice n b.read_index (b.write_index - b.read_index) b.buffer h))
  ]

-- `consume` of at most the readable bytes drops exactly those, and keeps the buffer valid.
pub consume_lem :
    (b : TcpBuffer) (n : ℕ)
    → IsValid b
    → n ≤ length (contents b)
    → (b' : TcpBuffer) × (consume b n ≡ some b')
      × IsValid b'
      × (contents b' ≡ drop n (contents b))
      × (b'.prepend_size ≡ b.prepend_size)
unfolding consume
consume_lem b n v h =
    let h' : n ≤ b.write_index - b.read_index = omega (arith, length-contents b v) in
    (
      advanced b n,
      move_read_index-eq b n v h',
      advanced-IsValid b n v h',
      contents-advanced b n v h',
      ground arith,
    )

-- `consume` of more than the readable bytes fails its assertion.
pub consume-beyond :
    (b : TcpBuffer) (n : ℕ) → IsValid b → length (contents b) < n → consume b n ≡ none
unfolding consume move_read_index
consume-beyond b n v h =
    let size = length-contents b v in
    let big : leb n (b.write_index - b.read_index) ≡ false = ground (arith, size) in
    rw (readable_eq b v, big)

-- `retrieve` of at most the readable bytes returns the old read position, where the bytes asked for
-- still stand in the storage, drops exactly those from the readable bytes, and keeps the buffer
-- valid with its prepend size. Asked for more, it returns null and changes nothing.
pub retrieve_lem :
    (b : TcpBuffer) (n : ℕ)
    → IsValid b
    → (n ≤ length (contents b)
        → (b' : TcpBuffer) × (retrieve b n ≡ some (some b.read_index, b'))
          × IsValid b'
          × (slice b.read_index n b'.buffer ≡ take n (contents b))
          × (contents b' ≡ drop n (contents b))
          × (b'.prepend_size ≡ b.prepend_size))
      × (length (contents b) < n → retrieve b n ≡ some (none, b))
unfolding retrieve
retrieve_lem b n v = (within, beyond)
  where
    size : readable_size b ≡ length (contents b)
    size = readable_eq b v ∙ sym (length-contents b v)

    within :
        n ≤ length (contents b)
        → (b' : TcpBuffer) × (retrieve b n ≡ some (some b.read_index, b'))
          × IsValid b'
          × (slice b.read_index n b'.buffer ≡ take n (contents b))
          × (contents b' ≡ drop n (contents b))
          × (b'.prepend_size ≡ b.prepend_size)
    within h =
        let h' : n ≤ b.write_index - b.read_index = omega (arith, length-contents b v) in
        let t : leb n (readable_size b) ≡ true = le→leb n (readable_size b) (omega (arith, size)) in
        (
          advanced b n,
          rw t (rw (move_read_index-eq b n v h')),
          advanced-IsValid b n v h',
          bytes_at-advanced b n v h',
          contents-advanced b n v h',
          ground arith,
        )

    beyond : length (contents b) < n → retrieve b n ≡ some (none, b)
    beyond h = let f : leb n (readable_size b) ≡ false = ground (arith, size) in rw f
