-- ===== src/TcpBuffer/Marks.antt =====
-- TcpBuffer: the operations that move an index by hand or look past the readable bytes.
use yy.Prelude.{
  ℕ, suc, ◌+◌, ◌-◌, ◌≤◌, ◌<◌, ◌≡◌, refl, sym, ap, ◌∙◌, ◌≢◌, ◌↔◌, inl, inr, true, false, none, some,
  [], ◌∷◌, ◌++◌, arith, ltb, leb, ◌==◌, le→leb, Option-cases, ◌>>=◌, add_size, sub_size, length,
  get_or, take, drop, take-append-drop, Bytes, slice, copy_to, resized, length-copy_to,
  length-resized, slice-copy_to_front, slice-resized, slice-suc, take-slice, drop-drop, slice-add,
}
use yy.TcpBuffer.Contents.{move_read_index-eq}
use yy.TcpBuffer.Inv.{IsValid, readable_eq, writable_eq, length-contents}
use yy.TcpBuffer.{
  TcpBuffer, writable_size, has_written, c_string, retrieve, retrieve_all, retrieve_all_to_string,
  max_size, readable_size, contents, check_index_validity, append, ensure_appendable, prepend,
  unwrite, clear, swap, read_view, shrink, resize,
}

abbrev prepended : TcpBuffer → Bytes → TcpBuffer
prepended b xs = record b {
  buffer = copy_to b.buffer (b.read_index - length xs) xs;
  read_index = b.read_index - length xs;
}

prepend-eq :
    (b : TcpBuffer) (xs : Bytes) → length xs ≤ b.read_index → prepend b xs ≡ some (prepended b xs)
unfolding prepend
prepend-eq b xs h = rw (le→leb (length xs) b.read_index h)

contents-prepended :
    (b : TcpBuffer) (xs : Bytes)
    → IsValid b
    → length xs ≤ b.read_index
    → contents (prepended b xs) ≡ xs ++ contents b
contents-prepended b xs v h =
    slice-copy_to_front (b.read_index - length xs) (b.write_index - b.read_index) b.buffer xs
      b.read_index _ (omega arith) (omega arith) (omega arith)

-- `prepend` of data that fits before the read index puts it in front of the readable bytes. The
-- buffer stays valid exactly when the data leaves the reserved prepend space untouched.
pub prepend_lem :
    (b : TcpBuffer) (xs : Bytes)
    → IsValid b
    → length xs ≤ b.read_index
    → (b' : TcpBuffer) × (prepend b xs ≡ some b')
      × (contents b' ≡ xs ++ contents b)
      × (IsValid b' ↔ (b.prepend_size + length xs ≤ b.read_index))
prepend_lem b xs v h = (
  prepended b xs,
  prepend-eq b xs h,
  contents-prepended b xs v h,
  (
    (λ w. omega (arith, w.prepend_le)),
    (λ k. omega (arith, length-copy_to b.buffer (b.read_index - length xs) xs)),
  ),
)

-- After a `prepend` that uses the reserved prepend space, an `append` that finds enough room still
-- fails: its index check refuses a read index in the reserved space.
pub prepend_then_append_fails :
    (b : TcpBuffer) (xs ys : Bytes)
    → IsValid b
    → length xs ≤ b.read_index
    → b.read_index < b.prepend_size + length xs
    → b.write_index + length ys ≤ length b.buffer
    → (prepend b xs >>= λ b'. append b' ys) ≡ none
unfolding append ensure_appendable check_index_validity
prepend_then_append_fails b xs ys v h k room =
    let len = length-copy_to b.buffer (b.read_index - length xs) xs in
    rw (prepend-eq b xs h) (ground (arith, len))

-- `shrink` keeps the buffer valid and the readable bytes, if the read index is not further than
-- the reserve behind the prepend space. Else it truncates the storage below the write index, and
-- the buffer is no longer valid.
pub shrink_lem :
    (b : TcpBuffer) (reserve : ℕ)
    → IsValid b
    → (b.write_index - b.read_index) + reserve + b.prepend_size ≤ max_size
    → (b' : TcpBuffer) × (shrink b reserve ≡ some b')
      × (b.read_index ≤ b.prepend_size + reserve → IsValid b' × (contents b' ≡ contents b))
      × (b.prepend_size + reserve < b.read_index → ¬ IsValid b')
unfolding shrink resize
shrink_lem b reserve v h =
    let n : ℕ = (b.write_index - b.read_index) + reserve + b.prepend_size in
    let e : add_size (add_size (readable_size b) reserve) b.prepend_size ≡ n = omega arith in
    let len = length-resized n b.buffer in
    (
      record b { buffer = resized n b.buffer },
      rw e (ground arith),
      (λ k. (
        omega (arith, len),
        slice-resized b.read_index (b.write_index - b.read_index) n b.buffer (omega arith)
            (omega arith),
      )),
      (λ k w. absurd (omega (arith, len, w.write_le))),
    )

-- `readView` spans one byte more than the readable bytes: the stored byte at the write index,
-- whenever there is one.
pub read_view_lem :
    (b : TcpBuffer)
    → IsValid b
    → b.write_index < length b.buffer
    → read_view b ≡ contents b ++ (get_or b.buffer b.write_index 0 ∷ [])
unfolding read_view
read_view_lem b v h =
    let n : ℕ = b.write_index - b.read_index in
    let e : readable_size b + 1 ≡ suc n = omega arith in
    let f : b.read_index + n ≡ b.write_index = omega arith in
    rw e (slice-suc b.read_index n b.buffer (omega arith) ∙ rw f)

-- `unwrite` of at most the readable bytes drops them from the end and keeps the buffer valid;
-- of more it fails.
pub unwrite_lem :
    (b : TcpBuffer) (n : ℕ)
    → IsValid b
    → (n ≤ length (contents b)
        → (b' : TcpBuffer) × (unwrite b n ≡ some b')
          × IsValid b'
          × (contents b' ≡ take (length (contents b) - n) (contents b)))
      × (length (contents b) < n → unwrite b n ≡ none)
unfolding unwrite check_index_validity
unwrite_lem b n v =
    let len = length-contents b v in
    let r = readable_eq b v in
    (
      (λ h.
          let h' : n ≤ b.write_index - b.read_index = omega (arith, len) in
          let e : sub_size b.write_index n ≡ b.write_index - n = omega arith in
          let f : b.write_index - n - b.read_index ≡ b.write_index - b.read_index - n =
            omega arith in
          (
            record b { write_index = b.write_index - n },
            rw (r, le→leb n (b.write_index - b.read_index) h') (rw e (ground arith)),
            omega arith,
            rw len (
                rw f (
                  sym (
                    take-slice (b.write_index - b.read_index - n) b.read_index
                      (b.write_index - b.read_index) b.buffer (omega arith)))),
          )),
      (λ h. let f : leb n (readable_size b) ≡ false = ground (arith, len, r) in rw f),
    )

-- `clear` keeps a buffer valid exactly when its prepend size is at most 8 and its storage holds
-- 8 bytes; the buffer then has no readable byte.
pub clear_lem :
    (b : TcpBuffer)
    → IsValid b
    → (IsValid (clear b) ↔ ((b.prepend_size ≤ 8) × (8 ≤ length b.buffer)))
      × (contents (clear b) ≡ [])
unfolding clear
clear_lem b v = (((λ w. omega arith), (λ k. omega arith)), refl)

-- `swap` exchanges the readable bytes; both buffers stay valid if they have the same prepend size.
pub swap_lem :
    (a b : TcpBuffer)
    → IsValid a
    → IsValid b
    → (contents (swap a b).0 ≡ contents b)
      × (contents (swap a b).1 ≡ contents a)
      × (a.prepend_size ≡ b.prepend_size → IsValid (swap a b).0 × IsValid (swap a b).1)
unfolding swap
swap_lem a b v w = (refl, refl, λ e. (omega arith, omega arith))

abbrev pub HasNoZero : Bytes → Type 0
HasNoZero [] = Unit
HasNoZero (x ∷ xs) = (x ≢ 0) × HasNoZero xs

c_string-append :
    (xs ys : Bytes) → HasNoZero xs → c_string (xs ++ ys) ≡ (c_string ys >>= λ s. some (xs ++ s))
unfolding c_string
c_string-append [] ys h = elim (Option-cases (c_string ys)) [ inl e ↦ rw e | inr (s, e) ↦ rw e ]
c_string-append (x ∷ xs) ys h =
    let f : (x == 0) ≡ false = ground arith in
    rw f (
      rw (c_string-append xs ys h.1)
        (elim (Option-cases (c_string ys)) [ inl e ↦ rw e | inr (s, e) ↦ rw e ]))

-- `retrieveAllToString` of readable bytes without a zero returns them followed by the stale bytes
-- of the storage up to the next zero, and it reads past the storage if there is none.
pub retrieve_all_to_string_lem :
    (b : TcpBuffer)
    → IsValid b
    → HasNoZero (contents b)
    → retrieve_all_to_string b ≡ (
        c_string (drop b.write_index b.buffer) >>= λ s.
        some
          (contents b ++ s, record b { read_index = b.prepend_size; write_index = b.prepend_size }))
unfolding retrieve_all_to_string retrieve_all retrieve
retrieve_all_to_string_lem b v z =
    let n : ℕ = b.write_index - b.read_index in
    let t : leb n n ≡ true = le→leb n n (omega arith) in
    let f : ltb n n ≡ false = ground arith in
    let whole : drop b.read_index b.buffer ≡ contents b ++ drop b.write_index b.buffer =
      sym (take-append-drop n (drop b.read_index b.buffer))
      ∙ ap (λ q. contents b ++ q)
          (drop-drop n b.read_index b.buffer ∙ ap (λ m. drop m b.buffer) (omega arith)) in
    let str = ap c_string whole ∙ c_string-append (contents b) (drop b.write_index b.buffer) z in
    let moved = move_read_index-eq b n v (omega arith) in
    rw (readable_eq b v) (
      rw t (
        rw moved (
          rw f (
            rw str (elim (Option-cases (c_string (drop b.write_index b.buffer))) [
              | inl e ↦ rw e
              | inr (s, e) ↦ rw e
            ])))))

-- `hasWritten` of no more than the writable room makes that many stored bytes behind the write
-- index readable, and keeps the buffer valid; of more it fails.
pub has_written_lem :
    (b : TcpBuffer) (n : ℕ)
    → IsValid b
    → (b.write_index + n ≤ length b.buffer
        → (b' : TcpBuffer) × (has_written b n ≡ some b')
          × IsValid b'
          × (contents b' ≡ contents b ++ slice b.write_index n b.buffer))
      × (length b.buffer < b.write_index + n → has_written b n ≡ none)
unfolding has_written check_index_validity
has_written_lem b n v =
    let wr = writable_eq b v in
    (
      (λ h.
          let e : add_size b.write_index n ≡ b.write_index + n = omega arith in
          let k : ℕ = b.write_index - b.read_index in
          let f : b.write_index + n - b.read_index ≡ k + n = omega arith in
          let g : b.read_index + k ≡ b.write_index = omega arith in
          (
            record b { write_index = b.write_index + n },
            rw (le→leb n (writable_size b) (omega arith)) (rw e (ground arith)),
            omega arith,
            rw f (slice-add b.read_index k n b.buffer ∙ rw g),
          )),
      (λ h. let f : leb n (writable_size b) ≡ false = ground arith in rw f),
    )
