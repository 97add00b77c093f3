-- ===== src/TcpBuffer/Inv.antt =====
-- The index invariant of TcpBuffer, and what each operation does to a buffer that has it.
use yy.Prelude.{
  ℕ, ◌+◌, ◌-◌, ◌≤◌, ◌<◌, ◌≡◌, refl, ◌∙◌, inl, inr, true, some, arith, ltb, leb, le→leb, Bool-cases,
  ◌>>=◌, ◌>>◌, assert, add_size, length, length-replicate, copy_to, resized, length-slice,
  length-copy_to, length-resized, slice-copy_to_self, slice-resized,
}
use yy.TcpBuffer.{
  TcpBuffer, max_size, readable_size, writable_size, contents, init, check_index_validity,
  reuse_prependable_space, resize, expend, ensure_appendable,
}

pub record IsValid (b : TcpBuffer) : Type 0 where
  pub prepend_le : b.prepend_size ≤ b.read_index
  pub read_le : b.read_index ≤ b.write_index
  pub write_le : b.write_index ≤ length b.buffer
  pub fits : length b.buffer ≤ max_size

pub readable_eq : (b : TcpBuffer) → IsValid b → readable_size b ≡ b.write_index - b.read_index
readable_eq b v = omega arith

pub writable_eq : (b : TcpBuffer) → IsValid b → writable_size b ≡ length b.buffer - b.write_index
writable_eq b v = omega arith

pub length-contents :
    (b : TcpBuffer) → IsValid b → length (contents b) ≡ b.write_index - b.read_index
length-contents b v =
    length-slice b.read_index (b.write_index - b.read_index) b.buffer (omega arith)

pub check_index_validity-eq : (b : TcpBuffer) → IsValid b → check_index_validity b ≡ some b
unfolding check_index_validity
check_index_validity-eq b v = ground arith

-- A fresh buffer is valid, for any sizes that the vector can have.
pub init-IsValid : (i p : ℕ) → p + i ≤ max_size → IsValid (init i p)
unfolding init
init-IsValid i p h =
    let e : add_size p i ≡ p + i = omega arith in
    record {
      prepend_le = omega arith;
      read_le = omega arith;
      write_le = omega (arith, length-replicate {A = ℕ} (add_size p i) 0);
      fits = omega (arith, length-replicate {A = ℕ} (add_size p i) 0);
    }

abbrev pub moved_to_front : TcpBuffer → TcpBuffer
moved_to_front b = record b {
  buffer = copy_to b.buffer b.prepend_size (contents b);
  read_index = b.prepend_size;
  write_index = b.prepend_size + (b.write_index - b.read_index);
}

pub moved_to_front-IsValid : (b : TcpBuffer) → IsValid b → IsValid (moved_to_front b)
moved_to_front-IsValid b v = omega (arith, length-copy_to b.buffer b.prepend_size (contents b))

pub contents-moved_to_front : (b : TcpBuffer) → IsValid b → contents (moved_to_front b) ≡ contents b
contents-moved_to_front b v =
    slice-copy_to_self b.prepend_size b.buffer (contents b) _ (omega (arith, length-contents b v))
      (omega arith)

pub reuse_prependable_space-eq :
    (b : TcpBuffer) → IsValid b → reuse_prependable_space b ≡ some (moved_to_front b)
unfolding reuse_prependable_space
reuse_prependable_space-eq b v =
    let e : add_size b.prepend_size (readable_size b)
        ≡ b.prepend_size + (b.write_index - b.read_index) =
      omega arith in
    rw e (check_index_validity-eq (moved_to_front b) (moved_to_front-IsValid b v))

-- What a request for `n` writable bytes gives: as much room, and the same readable bytes.
pub record IsGrown (b : TcpBuffer) (n : ℕ) (b' : TcpBuffer) : Type 0 where
  pub valid : IsValid b'
  pub same : contents b' ≡ contents b
  pub prepend_same : b'.prepend_size ≡ b.prepend_size
  pub room : b'.write_index + n ≤ length b'.buffer

resized-IsValid :
    (b : TcpBuffer) (m : ℕ)
    → IsValid b
    → b.write_index ≤ m
    → m ≤ max_size
    → IsValid (record b { buffer = resized m b.buffer })
resized-IsValid b m v h k = omega (arith, length-resized m b.buffer)

contents-resized :
    (b : TcpBuffer) (m : ℕ)
    → IsValid b
    → b.write_index ≤ m
    → contents (record b { buffer = resized m b.buffer }) ≡ contents b
contents-resized b m v h =
    slice-resized b.read_index (b.write_index - b.read_index) m b.buffer (omega arith) (omega arith)

resize-eq :
    (b : TcpBuffer) (m : ℕ)
    → m ≤ max_size
    → resize b m ≡ some (record b { buffer = resized m b.buffer })
unfolding resize
resize-eq b m h = ground arith

abbrev enlarged : TcpBuffer → ℕ → TcpBuffer
enlarged b n = record b { buffer = resized (b.write_index + n) b.buffer }

-- `expend` when the storage has to grow
expend_grow :
    (b : TcpBuffer) (n : ℕ)
    → IsValid b
    → b.prepend_size + (b.write_index - b.read_index) + n ≤ max_size
    → (reuse_prependable_space b >>= λ b1.
        resize b1 (add_size b1.write_index n) >>= check_index_validity)
      ≡ some (enlarged (moved_to_front b) n)
expend_grow b n v h =
    let m = moved_to_front b in
    let e : add_size m.write_index n ≡ m.write_index + n = omega arith in
    rw (reuse_prependable_space-eq b v) (
      rw e (
        rw (resize-eq m (m.write_index + n) (omega arith)) (
          check_index_validity-eq (enlarged m n) (
            resized-IsValid m (m.write_index + n) (moved_to_front-IsValid b v) (omega arith)
              (omega arith)))))

grow-IsGrown :
    (b : TcpBuffer) (n : ℕ)
    → IsValid b
    → b.prepend_size + (b.write_index - b.read_index) + n ≤ max_size
    → IsGrown b n (enlarged (moved_to_front b) n)
grow-IsGrown b n v h =
    let m = moved_to_front b in
    let w = moved_to_front-IsValid b v in
    record {
      valid = resized-IsValid m (m.write_index + n) w (omega arith) (omega arith);
      same = contents-resized m (m.write_index + n) w (omega arith) ∙ contents-moved_to_front b v;
      prepend_same = refl;
      room = omega (arith, length-resized (m.write_index + n) m.buffer);
    }

reuse-IsGrown :
    (b : TcpBuffer) (n : ℕ)
    → IsValid b
    → n + b.prepend_size < (length b.buffer - b.write_index) + b.read_index
    → IsGrown b n (moved_to_front b)
reuse-IsGrown b n v h = record {
  valid = moved_to_front-IsValid b v;
  same = contents-moved_to_front b v;
  prepend_same = refl;
  room = omega (arith, length-copy_to b.buffer b.prepend_size (contents b));
}

pub expend-IsGrown :
    (b : TcpBuffer) (n : ℕ)
    → IsValid b
    → b.prepend_size + (b.write_index - b.read_index) + n ≤ max_size
    → (b' : TcpBuffer) × (expend b n ≡ some b') × IsGrown b n b'
unfolding expend
expend-IsGrown b n v h =
    rw (check_index_validity-eq b v)
      (elim (Bool-cases
        (ltb (add_size n b.prepend_size) (add_size (writable_size b) b.read_index))) [
          | inl t ↦ (
            moved_to_front b,
            rw t (reuse_prependable_space-eq b v),
            reuse-IsGrown b n v (ground arith),
          )
          | inr f ↦
              (enlarged (moved_to_front b) n, rw f (expend_grow b n v h), grow-IsGrown b n v h)
        ])

stay-IsGrown : (b : TcpBuffer) (n : ℕ) → IsValid b → n ≤ writable_size b → IsGrown b n b
stay-IsGrown b n v h = record { valid = v; same = refl; prepend_same = refl; room = omega arith }

ensured :
    (b : TcpBuffer) (n : ℕ) {b' : TcpBuffer}
    → IsGrown b n b'
    → (assert (leb n (writable_size b')) >> check_index_validity b') ≡ some b'
ensured b n {b'} g =
    let e : leb n (writable_size b') ≡ true =
      le→leb n (writable_size b') (omega (arith, g.valid, g.room)) in
    rw e (check_index_validity-eq b' g.valid)

-- `ensure_appendable` never fails while the data fits the largest vector.
pub ensure_appendable-IsGrown :
    (b : TcpBuffer) (n : ℕ)
    → IsValid b
    → b.prepend_size + (b.write_index - b.read_index) + n ≤ max_size
    → (b' : TcpBuffer) × (ensure_appendable b n ≡ some b') × IsGrown b n b'
unfolding ensure_appendable
ensure_appendable-IsGrown b n v h = elim (Bool-cases (ltb (writable_size b) n)) [
  | inl t ↦ let (b', e, g) = expend-IsGrown b n v h in (b', rw (t, e) (ensured b n g), g)
  | inr f ↦ let g = stay-IsGrown b n v (ground arith) in (b, rw f (ensured b n g), g)
]
