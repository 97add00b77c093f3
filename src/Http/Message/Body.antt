-- ===== src/Http/Message/Body.antt =====
-- When the body of a message is complete.
use yy.Prelude.{
  ◌+◌, ◌^◌, ◌≤◌, ◌<◌, ◌≡◌, refl, Bool, true, false, some, arith, leb, if◌then◌else◌, le→leb,
  add_size, length, Bytes, slice,
}
use yy.Http.Message.{HttpMsg, complete, not_complete, decode_body}

-- If the end of the body is below 2^64, the message is complete exactly when the input holds it all;
-- the body is then the declared number of bytes behind the headers, and the count of scanned bytes
-- is the end of the body. Else nothing changes.
pub decode_body_lem :
    (m : HttpMsg) (buf : Bytes) (copy : Bool)
    → m.content_len + m.scanned < 2 ^ 64
    → (m.content_len + m.scanned ≤ length buf
        → (m' : HttpMsg) × (decode_body m buf copy ≡ some (complete, m'))
          × ((if copy then m'.body else m'.body_view) ≡ slice m.scanned m.content_len buf)
          × (m'.scanned ≡ m.scanned + m.content_len)
          × (m'.is_complete ≡ true)
          × (m'.headers ≡ m.headers))
      × (length buf < m.content_len + m.scanned → decode_body m buf copy ≡ some (not_complete, m))
unfolding decode_body
decode_body_lem m buf copy h =
    let e : add_size m.content_len m.scanned ≡ m.content_len + m.scanned = omega arith in
    (
      (λ k.
          let t = le→leb (m.content_len + m.scanned) (length buf) k in
          (
            record m {
              body = if copy then slice m.scanned m.content_len buf else m.body;
              body_view = if copy then m.body_view else slice m.scanned m.content_len buf;
              is_complete = true;
              scanned = m.scanned + m.content_len;
            },
            rw e (rw t),
            elim copy
                as (λ c.
                  (if c
                    then (if c then slice m.scanned m.content_len buf else m.body)
                    else (if c then m.body_view else slice m.scanned m.content_len buf))
                  ≡ slice m.scanned m.content_len buf) [ true ↦ refl | false ↦ refl ],
            refl,
            refl,
            refl,
          )),
      (λ k.
          let f : leb (m.content_len + m.scanned) (length buf) ≡ false = ground arith in
          rw e (rw f)),
    )
