-- ===== src/TcpConnection/Read.antt =====
-- handleETRead and handleRead: what arrives at the receive buffer, and what errors do.
use yy.Prelude.{
  ℕ, zero, suc, ◌+◌, ◌≤◌, ◌<◌, ◌≡◌, refl, sym, ap, ◌∙◌, Bool, true, false, Option, none, some, List,
  [], ◌∷◌, ◌++◌, append-nil, append_assoc, arith, if◌then◌else◌, length, Bytes, length-append,
}
use yy.EventHandler
use yy.TcpBuffer.Fd.{append_from_fd_lem, append_from_fd-none, extrabuf_size}
use yy.TcpBuffer.Inv.{IsValid}
use yy.TcpBuffer.{TcpBuffer, contents, max_size}
use yy.TcpConnection.{
  TcpConnection, Services, Result, ok, fail, Errno, eagain, eintr, other, read_fd, et_loop,
  handle_et_read, handle_read, handle_error, to_read, max_read_num,
}

-- An answer of a socket that has more: some bytes, no more than the extra buffer holds, or EINTR.
abbrev pub HasMore : Result Bytes → Type 0
HasMore (ok input) = (0 < length input) × (length input ≤ extrabuf_size)
HasMore (fail eintr) = Unit
HasMore (fail e) = ⊥

abbrev pub AllHaveMore : List (Result Bytes) → Type 0
AllHaveMore [] = Unit
AllHaveMore (a ∷ answers) = HasMore a × AllHaveMore answers

-- The bytes of the first `left` answers that are bytes.
unfoldable pub gather : List (Result Bytes) → ℕ → Bytes
gather [] left = []
gather (a ∷ answers) zero = []
gather (ok input ∷ answers) (suc left) = input ++ gather answers left
gather (fail e ∷ answers) (suc left) = gather answers (suc left)

-- Whether so many of the answers are bytes.
unfoldable pub reaches : List (Result Bytes) → ℕ → Bool
reaches [] zero = true
reaches [] (suc left) = false
reaches (a ∷ answers) zero = true
reaches (ok input ∷ answers) (suc left) = reaches answers left
reaches (fail e ∷ answers) (suc left) = reaches answers (suc left)

-- The connection with another receive buffer.
abbrev read_into : TcpConnection → TcpBuffer → Errno → Bool → TcpConnection
read_into c b e again = record c {
  recv_buffer = b;
  errno = e;
  pending = if again then c.pending ++ (to_read ∷ []) else c.pending;
}

-- What `handleETRead` makes of a connection.
abbrev pub IsRead : Option TcpConnection → TcpConnection → Bytes → Bool → Type 0
IsRead result c input again =
    (b : TcpBuffer) × (e : Errno) × (result ≡ some (read_into c b e again))
    × IsValid b
    × (contents b ≡ contents c.recv_buffer ++ input)

glue : (xs ys zs : Bytes) {us ws : Bytes} → us ≡ xs ++ ys → ws ≡ us ++ zs → ws ≡ xs ++ (ys ++ zs)
glue xs ys zs e f = f ∙ ap (λ (m : Bytes). m ++ zs) e ∙ append_assoc xs ys zs

module _ (app : Services) (quiet : (d : TcpConnection) → app.message d ≡ some d) where
  et_loop_lem :
      (answers : List (Result Bytes)) (left : ℕ) (c : TcpConnection)
      → IsValid c.recv_buffer
      → AllHaveMore answers
      → c.recv_buffer.prepend_size + length (contents c.recv_buffer) + length (gather answers left)
        ≤ max_size
      → IsRead (et_loop answers left app c) c (gather answers left) (reaches answers left)
  unfolding et_loop gather reaches read_fd
  et_loop_lem [] zero c v more fits = (c.recv_buffer, c.errno, refl, v, sym (append-nil _))
  et_loop_lem [] (suc left) c v more fits = (c.recv_buffer, eagain, refl, v, sym (append-nil _))
  et_loop_lem (a ∷ answers) zero c v more fits =
      (c.recv_buffer, c.errno, refl, v, sym (append-nil _))
  et_loop_lem (ok [] ∷ answers) (suc left) c v ((pos, few), more) fits = absurd (omega arith)
  et_loop_lem (ok (x ∷ xs) ∷ answers) (suc left) c v ((pos, few), more) fits =
      let input = x ∷ xs in
      let (b, e, v', eq, p) =
        append_from_fd_lem (λ _. some input) c.recv_buffer v refl (ground arith)
          (omega (arith, length-append input (gather answers left))) in
      let c1 : TcpConnection = record c { recv_buffer = b } in
      let (b', e', r, v2, eq2) = et_loop_lem answers left c1 v' more (
        omega (
          arith,
          p,
          ap (length {A = ℕ}) eq,
          length-append (contents c.recv_buffer) input,
          length-append input (gather answers left),
        )) in
      (
        b',
        e',
        rw e (rw (quiet c1) r),
        v2,
        glue (contents c.recv_buffer) input (gather answers left) eq eq2,
      )
  et_loop_lem (fail eintr ∷ answers) (suc left) c v (again, more) fits =
      let (b, e, r, v', eq) =
        et_loop_lem answers (suc left) (record c { errno = eintr }) v more fits in
      (b, e, rw (append_from_fd-none (λ _. none) c.recv_buffer refl) r, v', eq)
  et_loop_lem (fail e ∷ answers) (suc left) c v (again, more) fits = elim again [ ]

  -- `handleETRead` when the callback of messages does nothing, all answers are bytes or EINTR, and the
  -- bytes fit: the bytes of the first hundred answers that are bytes stand in their order behind what
  -- was readable. Exactly if there are a hundred such answers the loop is asked to read on later. But
  -- for the receive buffer, `errno` and that request nothing changes.
  pub handle_et_read_lem :
      (answers : List (Result Bytes)) (c : TcpConnection)
      → IsValid c.recv_buffer
      → AllHaveMore answers
      → c.recv_buffer.prepend_size
          + length (contents c.recv_buffer)
          + length (gather answers max_read_num)
        ≤ max_size
      → IsRead
          (handle_et_read answers app c)
          c
          (gather answers max_read_num)
          (reaches answers max_read_num)
  unfolding handle_et_read
  handle_et_read_lem answers c v more fits = et_loop_lem answers max_read_num c v more fits

-- `handleRead`, for handlers that are not edge-triggered, has the test of the error the wrong way
-- round: a real error is neither reported nor does it close the connection, while EINTR is reported.
-- `handleETRead` reports the first and goes on after the second.
pub read_errors_swapped :
    (app : Services) (c : TcpConnection) (n : ℕ)
    → (handle_read (fail (other n)) app c ≡ some (record c { errno = other n }))
      × (handle_et_read (fail (other n) ∷ []) app c
          ≡ EventHandler.call app.error (record c { errno = other n }))
      × (handle_read (fail eintr) app c ≡ EventHandler.call app.error (record c { errno = eintr }))
      × (handle_et_read (fail eintr ∷ []) app c ≡ some (record c { errno = eagain }))
unfolding handle_read handle_et_read et_loop read_fd handle_error
read_errors_swapped app c n =
    let same = append_from_fd-none (λ _. none) c.recv_buffer refl in
    (rw same, rw same, rw same, rw same)
