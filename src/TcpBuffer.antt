-- ===== src/TcpBuffer.antt =====
-- Net/include/TcpBuffer.h and Net/src/TcpBuffer.cpp, the non-circular buffer of a connection.
-- `buffer` is the whole storage of the vector; pointers into it are indices. Subtraction and
-- addition of sizes wrap at 2^64. `none` stands for a failed `assert` (the build without NDEBUG)
-- and for the `length_error` of `vector::resize`.
pub mod Inv
pub mod Contents
pub mod Fd
pub mod Refine
pub mod Marks
mod Tests
use yy.Prelude.{
  ℕ, ◌+◌, ◌-◌, ◌^◌, ◌&&◌, Option, none, some, [], ◌∷◌, ltb, leb, ◌==◌, if◌then◌else◌, ◌>>=◌, assert,
  add_size, sub_size, length, drop, replicate, Bytes, slice, copy_to, resized, ◌>>◌,
}

pub record TcpBuffer : Type 0 where
  pub buffer : Bytes
  pub prepend_size : ℕ
  pub read_index : ℕ
  pub write_index : ℕ

-- `vector<char>::max_size()`
abbrev pub max_size : ℕ
max_size = 2 ^ 63 - 1

abbrev pub readable_size : TcpBuffer → ℕ
readable_size b = sub_size b.write_index b.read_index

abbrev pub writable_size : TcpBuffer → ℕ
writable_size b = sub_size (length b.buffer) b.write_index

abbrev pub prependable_size : TcpBuffer → ℕ
prependable_size b = b.read_index

-- the readable bytes
abbrev pub contents : TcpBuffer → Bytes
contents b = slice b.read_index (b.write_index - b.read_index) b.buffer

pub init : ℕ → ℕ → TcpBuffer
init initial_size prepend_size = record {
  buffer = replicate (add_size prepend_size initial_size) 0;
  prepend_size = prepend_size;
  read_index = prepend_size;
  write_index = prepend_size;
}

pub check_index_validity : TcpBuffer → Option TcpBuffer
check_index_validity b =
    if leb b.prepend_size b.read_index && leb b.read_index b.write_index then some b else none

pub move_write_index : TcpBuffer → ℕ → Option TcpBuffer
move_write_index b size = do
  assert (leb size (writable_size b))
  some (record b { write_index = add_size b.write_index size })

pub move_read_index : TcpBuffer → ℕ → Option TcpBuffer
move_read_index b size = do
  assert (leb size (readable_size b))
  if ltb size (readable_size b)
      then check_index_validity (record b { read_index = add_size b.read_index size })
      else (check_index_validity b >>= λ b'.
          check_index_validity
            (record b' { read_index = b'.prepend_size; write_index = b'.prepend_size }))

pub reuse_prependable_space : TcpBuffer → Option TcpBuffer
reuse_prependable_space b = check_index_validity (record b {
  buffer = copy_to b.buffer b.prepend_size (contents b);
  read_index = b.prepend_size;
  write_index = add_size b.prepend_size (readable_size b);
})

-- `buffer_.resize(n)`
pub resize : TcpBuffer → ℕ → Option TcpBuffer
resize b n = if ltb max_size n then none else some (record b { buffer = resized n b.buffer })

pub expend : TcpBuffer → ℕ → Option TcpBuffer
expend b size = do
  b0 ← check_index_validity b
  if ltb (add_size size b0.prepend_size) (add_size (writable_size b0) (prependable_size b0))
      then reuse_prependable_space b0
      else (reuse_prependable_space b0 >>= λ b1.
          resize b1 (add_size b1.write_index size) >>= check_index_validity)

pub ensure_appendable : TcpBuffer → ℕ → Option TcpBuffer
ensure_appendable b size = do
  b' ← if ltb (writable_size b) size then expend b size else some b
  assert (leb size (writable_size b'))
  check_index_validity b'

-- `ensureWritableBytes` has the same body.
pub ensure_writable_bytes : TcpBuffer → ℕ → Option TcpBuffer
ensure_writable_bytes b len = do
  b' ← if ltb (writable_size b) len then expend b len else some b
  assert (leb len (writable_size b'))
  check_index_validity b'

-- `appendImp(data, size)`; `append` and `FluentAppend` only call it.
pub append : TcpBuffer → Bytes → Option TcpBuffer
append b bytes = do
  b' ← ensure_appendable b (length bytes)
  move_write_index (record b' { buffer = copy_to b'.buffer b'.write_index bytes }) (length bytes)

pub consume : TcpBuffer → ℕ → Option TcpBuffer
consume b size = move_read_index b size

-- The pointer returned is an index into the storage; `nullptr` is `none`.
pub retrieve : TcpBuffer → ℕ → Option (Option ℕ × TcpBuffer)
retrieve b size =
    if leb size (readable_size b)
    then (move_read_index b size >>= λ b'. some (some b.read_index, b'))
    else some (none, b)

pub retrieve_all : TcpBuffer → Option (Option ℕ × TcpBuffer)
retrieve_all b = retrieve b (readable_size b)

-- A C string: the bytes up to the first zero. `none` is a read past the end of the array.
pub c_string : Bytes → Option Bytes
c_string [] = none
c_string (c ∷ cs) =
    let rest = c_string cs in if c == 0 then some [] else (rest >>= λ s. some (c ∷ s))

-- `std::string(retrieveAll())`
pub retrieve_all_to_string : TcpBuffer → Option (Bytes × TcpBuffer)
retrieve_all_to_string b = do
  r ← retrieve_all b
  p ← r.0
  s ← c_string (drop p r.1.buffer)
  some (s, r.1)

-- `stringPiece(peek(), readable_size() + 1)`, as the bytes that it spans
pub read_view : TcpBuffer → Bytes
read_view b = slice b.read_index (readable_size b + 1) b.buffer

pub shrink : TcpBuffer → ℕ → Option TcpBuffer
shrink b reserve = resize b (add_size (add_size (readable_size b) reserve) b.prepend_size)

pub prepend : TcpBuffer → Bytes → Option TcpBuffer
prepend b bytes = do
  assert (leb (length bytes) (prependable_size b))
  let r = b.read_index - length bytes
  some (record b { buffer = copy_to b.buffer r bytes; read_index = r })

pub has_written : TcpBuffer → ℕ → Option TcpBuffer
has_written b len = do
  assert (leb len (writable_size b))
  check_index_validity (record b { write_index = add_size b.write_index len })

pub unwrite : TcpBuffer → ℕ → Option TcpBuffer
unwrite b len = do
  assert (leb len (readable_size b))
  check_index_validity (record b { write_index = sub_size b.write_index len })

-- `clear` and `reset` set the same two indices, whatever the prepend size.
pub clear : TcpBuffer → TcpBuffer
clear b = record b { read_index = 8; write_index = 8 }

-- `swap` leaves the two (constant) prepend sizes where they are.
pub swap : TcpBuffer → TcpBuffer → TcpBuffer × TcpBuffer
swap a b = (record b { prepend_size = a.prepend_size }, record a { prepend_size = b.prepend_size })
