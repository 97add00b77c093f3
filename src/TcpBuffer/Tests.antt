-- ===== src/TcpBuffer/Tests.antt =====
-- TcpBuffer on small buffers.
use yy.Prelude.{ℕ, ◌≡◌, refl, Option, none, some, List, [], ◌∷◌, arith, take, Bytes}
use yy.TcpBuffer.{
  TcpBuffer, contents, append, retrieve, check_index_validity, ensure_appendable, expend,
  reuse_prependable_space, resize, move_write_index, move_read_index,
}
use yy.TcpBuffer.Inv.{IsValid}
use yy.TcpBuffer.Refine.{Op, put, get, run, run_queue, run_refines}

-- two bytes of prepend space, one byte consumed, "bcd" readable, a stale zero behind
abbrev small : TcpBuffer
small = record {
  buffer = 0 ∷ 0 ∷ b'a' ∷ b'b' ∷ b'c' ∷ b'd' ∷ 0 ∷ [];
  prepend_size = 2;
  read_index = 3;
  write_index = 6;
}

small-IsValid : IsValid small
small-IsValid = omega arith

abbrev script : List Op
script = put (1 ∷ 2 ∷ 3 ∷ []) ∷ get 4 ∷ get 9 ∷ get 2 ∷ []

run-small :
    run small script ≡ some (some (b'b' ∷ b'c' ∷ b'd' ∷ 1 ∷ []) ∷ none ∷ some (2 ∷ 3 ∷ []) ∷ [])
unfolding run append retrieve ensure_appendable expend reuse_prependable_space resize
    check_index_validity move_write_index move_read_index
run-small = refl

run_refines_example : run small script ≡ some (run_queue (contents small) script)
run_refines_example = run_refines script small small-IsValid (omega arith)

-- a `readv` that always reads three bytes, one more than the storage has room for
abbrev three : ℕ → Option Bytes
three n = some (take n (4 ∷ 5 ∷ 6 ∷ []))
