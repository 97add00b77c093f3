-- ===== src/Http/Client/Answers.antt =====
-- Which request a response goes to.
use yy.Prelude.{
  if◌then◌else◌, ℕ, suc, ◌+◌, ◌≤◌, ◌≡◌, refl, ap, ◌∙◌, Bool, true, false, some, List, [], ◌∷◌, ◌++◌,
  arith, length, drop, length-drop, Bytes, equal,
}
use yy.TcpBuffer.{TcpBuffer, contents}
use yy.TcpBuffer.Inv.{IsValid}
use yy.TcpBuffer.Contents.{consume_lem}
use yy.Http.Message
use yy.Http.Message.{complete, get_header}
use yy.Http.Response
use yy.Http.Response.{HttpResponse, try_decode}
use yy.Http.Parser.Done.{response-complete, response-done}
use yy.Http.Server.{connection_key, close_text, readable}
use yy.Http.Server.Steps.{readable-contents}
use yy.Http.Client.{
  RequestContext, HttpClient, Callback, answer, handle, go_on, after_decode, on_message,
}

-- What a function gives for each of a list, one behind the other.
abbrev pub all_of : {A B : Type 0} → (A → List B) → List A → List B
all_of f [] = []
all_of f (x ∷ xs) = f x ++ all_of f xs

-- The text begins with the responses of these pairs, none of which closes; `left` is behind them. Each
-- is for a request with a callback.
pub data Arrived : Bytes → List (RequestContext × HttpResponse) → Bytes → Type 0 where
  no_more : (left : Bytes) → Arrived left [] left
  one_more :
      (text : Bytes) (p : RequestContext × HttpResponse) (ps : List (RequestContext × HttpResponse))
      (left : Bytes)
      → p.0.has_callback ≡ true
      → try_decode Response.fresh text true ≡ some (complete, p.1)
      → equal (get_header p.1.msg connection_key) close_text ≡ false
      → p.1.msg.scanned ≤ length text
      → Arrived (drop p.1.msg.scanned text) ps left
      → Arrived text (p ∷ ps) left

if_true : {A : Type 0} (b : Bool) {x : A} (y : A) → b ≡ true → (if b then x else y) ≡ x
if_true true y h = refl
if_true false y h = cc h

module _ (callback : Callback) (asks : RequestContext → List RequestContext)
    (texts : RequestContext → List Bytes)
    (sends : (ctx : RequestContext) (r : HttpResponse) (c : HttpClient)
      → callback ctx r c
        ≡ some (record c {
          pending_requests = c.pending_requests ++ asks ctx;
          sent = c.sent ++ texts ctx;
        })) where
  abbrev answered : HttpClient → RequestContext → List RequestContext → HttpResponse → HttpClient
  answered c ctx rest r = record c {
    response = r;
    pending_requests = rest ++ asks ctx;
    sent = c.sent ++ texts ctx;
    answered = c.answered ++ ((ctx, r) ∷ []);
  }

  answer_lem :
      (c : HttpClient) (ctx : RequestContext) (rest : List RequestContext) (r : HttpResponse)
      → ctx.has_callback ≡ true
      → answer callback (record c { response = r; pending_requests = ctx ∷ rest })
        ≡ some (answered c ctx rest r)
  unfolding answer
  answer_lem c ctx rest r cb =
      let c1 : HttpClient = record c {
        response = r;
        pending_requests = rest;
        answered = c.answered ++ ((ctx, r) ∷ []);
      } in
      if_true ctx.has_callback _ cb ∙ sends ctx r c1

  -- After a response with `Connection: close` the loop goes on with the same response. The next request
  -- that waits gets it too, and if there are bytes enough, as many are taken for it again. The
  -- callbacks of both send further requests at most.
  pub on_message_answers_twice :
      (f : ℕ) (c : HttpClient) (ctx ctx' : RequestContext) (rest : List RequestContext)
      {r : HttpResponse}
      → IsValid c.recv_buffer
      → c.pending_requests ≡ ctx ∷ (ctx' ∷ rest)
      → ctx.has_callback ≡ true
      → ctx'.has_callback ≡ true
      → try_decode c.response (contents c.recv_buffer) true ≡ some (complete, r)
      → equal (get_header r.msg connection_key) close_text ≡ true
      → r.msg.scanned + r.msg.scanned ≤ length (contents c.recv_buffer)
      → (b : TcpBuffer) × IsValid b
        × (contents b ≡ drop r.msg.scanned (drop r.msg.scanned (contents c.recv_buffer)))
        × (on_message callback (suc (suc f)) c
            ≡ on_message callback f (record c {
              recv_buffer = b;
              response = r;
              pending_requests = (rest ++ asks ctx) ++ asks ctx';
              sent = (c.sent ++ texts ctx) ++ texts ctx';
              answered = (c.answered ++ ((ctx, r) ∷ [])) ++ ((ctx', r) ∷ []);
              disconnected = true;
            }))
  unfolding on_message after_decode go_on handle
  on_message_answers_twice f c ctx ctx' rest {r} v p cb cb' e o h =
      let same = readable-contents c.recv_buffer v in
      let n = r.msg.scanned in
      let (b, d, v1, k, s) = consume_lem c.recv_buffer n v (omega arith) in
      let left : n ≤ length (contents b) =
        omega (arith, ap (length {A = ℕ}) k, length-drop n (contents c.recv_buffer)) in
      let (b', d', v2, k', s') = consume_lem b n v1 left in
      let again = response-done r (readable b) true (response-complete c.response _ true e) in
      let whole : c ≡ record c { pending_requests = ctx ∷ (ctx' ∷ rest) } =
        λ i. record c { pending_requests = p i } in
      let c1 : HttpClient = record (answered c ctx (ctx' ∷ rest) r) {
        recv_buffer = b;
        disconnected = true;
      } in
      (
        b',
        v2,
        k' ∙ ap (drop n) k,
        ap (on_message callback (suc (suc f))) whole
            ∙ rw (same, e)
                (rw (answer_lem c ctx (ctx' ∷ rest) r cb) (
                  rw (d, o)
                    (rw again
                      (rw (answer_lem c1 ctx' (rest ++ asks ctx) r cb') (rw (d', o) refl))))),
      )
