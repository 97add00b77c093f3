-- ===== src/Http/Parser/Done.antt =====
-- What a complete message says of its parser.
use yy.Prelude.{
  ◌+◌, ◌-◌, ◌≡◌, refl, ◌∙◌, inl, inr, Bool, true, false, not, ◌&&◌, Option, none, some, [], ◌++◌,
  leb, ◌==◌, if◌then◌else◌, Bool-cases, Option-cases, ◌>>=◌, add_size, length, drop, Bytes,
}
use yy.Http.Message.{
  HttpMsg, ParseResult, not_complete, complete, continue_100, find_end, try_decode_msg, decode_body,
  decode_length, decode_header, header_lines,
}
use yy.Http.Request
use yy.Http.Request.{HttpRequest, decode_line, parse_url_params, parse_args}
use yy.Http.Response
use yy.Http.Parser.{HttpParser, parse_request, left_over}

-- What an operation gives, if it gives anything.
abbrev Gives : {A : Type 0} → (A → Type 0) → Option A → Type 0
Gives P none = Unit
Gives P (some a) = P a

Gives-if :
    {A : Type 0} (P : A → Type 0) (b : Bool) (x y : Option A)
    → (b ≡ true → Gives P x)
    → Gives P y
    → Gives P (if b then x else y)
Gives-if P true x y h k = h refl
Gives-if P false x y h k = k

Gives-bind :
    {A B : Type 0} (P : A → Type 0) (Q : B → Type 0) (o : Option A) (f : A → Option B)
    → Gives P o
    → ((a : A) → P a → Gives Q (f a))
    → Gives Q (o >>= f)
Gives-bind P Q none f h k = tt
Gives-bind P Q (some a) f h k = k a h

Gives-any : {A : Type 0} (o : Option A) → Gives (λ _. Unit {0}) o
Gives-any none = tt
Gives-any (some a) = tt

-- A complete message is marked as such.
abbrev Marked : ParseResult × HttpMsg → Type 0
Marked (r, m) = r ≡ complete → m.is_complete ≡ true

abbrev MarkedToo : ParseResult × HttpMsg × Bytes → Type 0
MarkedToo (r, m, l) = r ≡ complete → m.is_complete ≡ true

-- A body whose end wraps round is marked complete, if there is a result.
past-Marked :
    (copy : Bool) (m : HttpMsg)
    → m.is_complete ≡ true
    → Gives Marked (if copy then none else some (complete, m))
past-Marked true m h = tt
past-Marked false m h = λ _. h

decode_body-Marked :
    (m : HttpMsg) (buf : Bytes) (copy : Bool) → Gives Marked (decode_body m buf copy)
unfolding decode_body
decode_body-Marked m buf copy =
    elim (Bool-cases (leb (add_size m.content_len m.scanned) (length buf))) [
      | inl t ↦ elim (Bool-cases (leb (m.content_len + m.scanned) (length buf))) [
        | inl u ↦ rw (t, u, Gives) (λ _. refl)
        | inr o ↦ rw (t, o, Gives) (past-Marked copy _ refl)
      ]
      | inr o ↦ rw (o, Gives) (λ e. cc)
    ]

decode_length-Marked :
    (m : HttpMsg) (buf : Bytes) (copy : Bool) → Gives Marked (decode_length m buf copy)
unfolding decode_length
decode_length-Marked m buf copy =
    let late : Gives Marked (some (continue_100, m)) = λ e. cc in
    Gives-if Marked _ (some (continue_100, _)) (decode_body _ buf copy) (λ _. late)
      (decode_body-Marked _ buf copy)

decode_header-Marked :
    (m : HttpMsg) (buf : Bytes) (copy : Bool) → Gives MarkedToo (decode_header m buf copy)
unfolding decode_header
decode_header-Marked m buf copy =
    Gives-bind _ MarkedToo (header_lines (length buf + 1) _ m.headers) _ (Gives-any _) (λ r _.
      Gives-if MarkedToo r.0 _ _
        (λ _.
          Gives-bind Marked MarkedToo (decode_length _ buf copy) _ (decode_length-Marked _ buf copy)
            (λ d h. h))
        (λ e. cc))

try_decode_msg-Marked :
    (m : HttpMsg) (buf : Bytes) (copy : Bool) → Gives MarkedToo (try_decode_msg m buf copy)
unfolding try_decode_msg
try_decode_msg-Marked m buf copy =
    let (found, scanned) = find_end buf (length buf - 3 - m.scanned) m.scanned in
    let m' = record m { scanned = scanned } in
    let wait : Option (ParseResult × HttpMsg × Bytes) = some (not_complete, m', []) in
    let head = if found && not (scanned == 0) then decode_header m' buf copy else wait in
    let rest = decode_body m buf copy >>= λ d. some (d.0, d.1, []) in
    Gives-if MarkedToo m.is_complete (some (complete, m, []))
      (if m.content_len == 0 then head else rest) (λ t _. t)
      (Gives-if MarkedToo (m.content_len == 0) head rest
        (λ _.
          Gives-if MarkedToo (found && not (scanned == 0)) (decode_header m' buf copy) wait
            (λ _. decode_header-Marked m' buf copy) (λ e. cc))
        (Gives-bind Marked MarkedToo (decode_body m buf copy) (λ d. some (d.0, d.1, []))
          (decode_body-Marked m buf copy) (λ d h. h)))

-- The first line and the arguments leave the message alone, but for the version.
abbrev Same : HttpMsg → HttpRequest → Type 0
Same m r = (r.msg.is_complete ≡ m.is_complete) × (r.msg.scanned ≡ m.scanned)

parse_url_params-Same : (r : HttpRequest) → Gives (Same r.msg) (parse_url_params r)
unfolding parse_url_params
parse_url_params-Same r = elim (Option-cases (Request.find b'?' r.query_url 0)) [
  | inl z ↦ rw (z, Gives) (refl, refl)
  | inr (p, z) ↦
      rw (z, Gives)
        (Gives-bind _ (Same r.msg) (parse_args _ _ 0 r.args) _ (Gives-any _) (λ a _. (refl, refl)))
]

decode_line-Same : (r : HttpRequest) (l : Bytes) → Gives (Same r.msg) (decode_line r l)
unfolding decode_line
decode_line-Same r l = elim (Bool-cases (length l == 0)) [
  | inl t ↦ rw (t, Gives) (refl, refl)
  | inr o ↦ rw o (parse_url_params-Same _)
]

Gives-at : {A : Type 0} (P : A → Type 0) {o : Option A} {a : A} → Gives P o → o ≡ some a → P a
Gives-at P {o = none} h e = cc
Gives-at P {o = some b} {a} h e = let same : b ≡ a = cc in rw (← same) h

-- A request that the parser reports complete is marked complete, and given again it is so at once.
abbrev IsDone : ParseResult × HttpParser → Type 0
IsDone (r, p) = r ≡ complete → p.req.msg.is_complete ≡ true

parse_request-IsDone :
    (p : HttpParser) (text : Bytes) (copy : Bool) → Gives IsDone (parse_request p text copy)
unfolding parse_request Request.try_decode
parse_request-IsDone p text copy =
    Gives-bind (λ r. r.0 ≡ complete → r.1.msg.is_complete ≡ true) IsDone _ _
      (Gives-bind MarkedToo (λ r. r.0 ≡ complete → r.1.msg.is_complete ≡ true)
        (try_decode_msg p.req.msg (p.input_buffer ++ text) copy) _
        (try_decode_msg-Marked p.req.msg (p.input_buffer ++ text) copy)
        (λ d h.
          Gives-bind (Same d.1) (λ r. r.0 ≡ complete → r.1.msg.is_complete ≡ true)
            (decode_line _ d.2) _ (decode_line-Same _ d.2) (λ r s e. s.0 ∙ h e)))
      (λ r h. h)

pub parse_request-complete :
    (p : HttpParser) (text : Bytes) (copy : Bool) {p' : HttpParser}
    → parse_request p text copy ≡ some (complete, p')
    → p'.req.msg.is_complete ≡ true
parse_request-complete p text copy e = Gives-at IsDone (parse_request-IsDone p text copy) e refl

pub parse_request-done :
    (p : HttpParser) (text : Bytes) (copy : Bool)
    → p.req.msg.is_complete ≡ true
    → parse_request p text copy
      ≡ some (complete, record p { input_buffer = drop p.req.msg.scanned (p.input_buffer ++ text) })
unfolding parse_request Request.try_decode try_decode_msg decode_line left_over
parse_request-done p text copy h = rw h

response_line-Same :
    (r : Response.HttpResponse) (l : Bytes)
    → (Response.decode_line r l).msg.is_complete ≡ r.msg.is_complete
unfolding Response.decode_line
response_line-Same r l = elim (Bool-cases (length l == 0)) [ inl t ↦ rw t refl | inr o ↦ rw o refl ]

pub response-complete :
    (r : Response.HttpResponse) (text : Bytes) (copy : Bool) {r' : Response.HttpResponse}
    → Response.try_decode r text copy ≡ some (complete, r')
    → r'.msg.is_complete ≡ true
unfolding Response.try_decode
response-complete r text copy e =
    Gives-at (λ d. d.0 ≡ complete → d.1.msg.is_complete ≡ true)
      (Gives-bind MarkedToo _ (try_decode_msg r.msg text copy) _
        (try_decode_msg-Marked r.msg text copy)
        (λ d h f. response_line-Same (record r { msg = d.1 }) d.2 ∙ h f))
      e refl

-- A response that is complete, given again, is so at once.
pub response-done :
    (r : Response.HttpResponse) (text : Bytes) (copy : Bool)
    → r.msg.is_complete ≡ true
    → Response.try_decode r text copy ≡ some (complete, r)
unfolding Response.try_decode try_decode_msg Response.decode_line
response-done r text copy done = rw done refl
