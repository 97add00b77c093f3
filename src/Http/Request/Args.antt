-- ===== src/Http/Request/Args.antt =====
-- The arguments of a url: the loop ends, and it reads back what a client formats.
use yy.Prelude.{
  ℕ, zero, suc, ◌+◌, ◌-◌, ◌≤◌, ◌<◌, ◌≡◌, refl, sym, ap, ap₂, ◌∙◌, inl, inr, true, false, none, some,
  List, [], ◌∷◌, ◌++◌, append-nil, append_assoc, arith, ltb, ◌==◌, ltb→lt, lt→ltb, Bool-cases,
  Option-cases, length, take, drop, length-append, take-append_self, drop-append_self, Bytes, slice,
}
use yy.StringPiece.Split.{Lacks}
use yy.Http.Fields.{Fields, insert}
use yy.Http.Request.{HttpRequest, find_char, find, or_end, parse_args, parse_url_params}

find-bounds : (c : ℕ) (s : Bytes) (start : ℕ) {i : ℕ} → find c s start ≡ some i → start ≤ i
unfolding find
find-bounds c s start {i} e = ground arith

-- One round more than the string has bytes is enough for the loop, whatever the string.
pub parse_args_total :
    (fuel : ℕ) (query : Bytes) (start : ℕ) (args : Fields)
    → length query - start < fuel
    → (r : Fields) × (parse_args fuel query start args ≡ some r)
unfolding parse_args
parse_args_total zero query start args h = absurd (omega arith)
parse_args_total (suc fuel) query start args h = elim (Bool-cases (ltb start (length query))) [
  | inl t ↦ elim (Option-cases (find b'=' query start)) [
    | inl e ↦ (args, rw t (rw e))
    | inr (eq, e) ↦
        let and = or_end (find b'&' query (eq + 1)) query in
        let far : start < and + 1 =
          after eq (find-bounds b'=' query start e) (ltb→lt start (length query) t) in
        let (r, p) =
          parse_args_total fuel query (and + 1)
            (insert (slice start (eq - start) query) (slice (eq + 1) (and - eq - 1) query) args)
            (let l = ltb→lt start (length query) t in omega arith) in
        (r, rw t (rw e p))
  ]
  | inr f ↦ (args, rw f)
]
  where
    after :
        (eq : ℕ)
        → start ≤ eq
        → start < length query
        → start < or_end (find b'&' query (eq + 1)) query + 1
    after eq l m = elim (Option-cases (find b'&' query (eq + 1))) [
      | inl e ↦ rw e (omega arith)
      | inr (i, e) ↦ rw e (let b = find-bounds b'&' query (eq + 1) e in omega arith)
    ]

find_char-first :
    (c : ℕ) (xs ys : Bytes) → Lacks c xs → find_char c (xs ++ (c ∷ ys)) ≡ some (length xs)
unfolding find_char Lacks
find_char-first c [] ys h = let t : (c == c) ≡ true = ground arith in rw t
find_char-first c (x ∷ xs) ys h =
    let f : (x == c) ≡ false = ground arith in rw f (rw (find_char-first c xs ys h.1))

find_char-none : (c : ℕ) (xs : Bytes) → Lacks c xs → find_char c xs ≡ none
unfolding find_char Lacks
find_char-none c [] h = refl
find_char-none c (x ∷ xs) h =
    let f : (x == c) ≡ false = ground arith in rw f (rw (find_char-none c xs h.1))

abbrev pub Arg : Type 0
Arg = Bytes × Bytes

-- What a client writes behind the question mark.
unfoldable pub format_args : List Arg → Bytes
format_args [] = []
format_args ((k, v) ∷ []) = k ++ (b'=' ∷ v)
format_args ((k, v) ∷ a ∷ as') = k ++ (b'=' ∷ (v ++ (b'&' ∷ format_args (a ∷ as'))))

unfoldable pub insert_all : Fields → List Arg → Fields
insert_all m [] = m
insert_all m ((k, v) ∷ as') = insert_all (insert k v m) as'

-- keys without `=`, values without `&`
unfoldable pub AreArgs : List Arg → Type 0
AreArgs [] = Unit
AreArgs ((k, v) ∷ as') = Lacks b'=' k × Lacks b'&' v × AreArgs as'

drop-at : (n : ℕ) (xs ys : Bytes) → n ≡ length xs → drop n (xs ++ ys) ≡ ys
drop-at n xs ys e = rw e (drop-append_self xs ys)

abbrev query : Bytes → Bytes → Bytes → Bytes → Bytes
query pre k v tail = pre ++ (k ++ (b'=' ∷ (v ++ tail)))

-- One argument, at `start` in the string behind `pre`.
module _ (pre k v tail : Bytes) (lacks_eq : Lacks b'=' k) where
  find_eq : find b'=' (query pre k v tail) (length pre) ≡ some (length pre + length k)
  unfolding find
  find_eq =
      rw (drop-append_self pre (k ++ (b'=' ∷ (v ++ tail))))
        (rw (find_char-first b'=' k (v ++ tail) lacks_eq))

  drop_value : drop (length pre + length k + 1) (query pre k v tail) ≡ v ++ tail
  drop_value =
      let front : Bytes = pre ++ (k ++ (b'=' ∷ [])) in
      let e : (query pre k v tail) ≡ front ++ (v ++ tail) = simp append_assoc in
      let n : length pre + length k + 1 ≡ length front =
        omega (arith, length-append pre (k ++ (b'=' ∷ [])), length-append k (b'=' ∷ [])) in
      ap (drop (length pre + length k + 1)) e ∙ drop-at _ front (v ++ tail) n

  key_eq : slice (length pre) (length pre + length k - length pre) (query pre k v tail) ≡ k
  key_eq =
      let e : length pre + length k - length pre ≡ length k = omega arith in
      rw e (
        rw (drop-append_self pre (k ++ (b'=' ∷ (v ++ tail))))
          (take-append_self k (b'=' ∷ (v ++ tail))))

  value_eq : slice (length pre + length k + 1) (length v) (query pre k v tail) ≡ v
  value_eq = rw drop_value (take-append_self v tail)

  -- one turn of the loop, where the value ends at `and`
  parse_args_turn :
      (fuel : ℕ) (args : Fields) (and : ℕ)
      → or_end (find b'&' (query pre k v tail) (length pre + length k + 1)) (query pre k v tail)
        ≡ and
      → and ≡ length pre + length k + 1 + length v
      → parse_args (suc fuel) (query pre k v tail) (length pre) args
        ≡ parse_args fuel (query pre k v tail) (and + 1) (insert k v args)
  unfolding parse_args
  parse_args_turn fuel args and e w =
      let t : ltb (length pre) (length (query pre k v tail)) ≡ true =
        lt→ltb (length pre) (length (query pre k v tail)) (
          omega (
            arith,
            length-append pre (k ++ (b'=' ∷ (v ++ tail))),
            length-append k (b'=' ∷ (v ++ tail)),
          )) in
      let n : and - (length pre + length k) - 1 ≡ length v = omega arith in
      rw t (rw find_eq (rw e (rw n (rw (key_eq, value_eq)))))

abbrev behind : Bytes → Bytes → Bytes → Bytes
behind pre k v = pre ++ (k ++ (b'=' ∷ (v ++ (b'&' ∷ []))))

find_value_end :
    (pre k v rest : Bytes)
    → Lacks b'=' k
    → Lacks b'&' v
    → find b'&' (query pre k v (b'&' ∷ rest)) (length pre + length k + 1)
      ≡ some (length pre + length k + 1 + length v)
unfolding find
find_value_end pre k v rest h l =
    rw (drop_value pre k v (b'&' ∷ rest) h) (rw (find_char-first b'&' v rest l))

find_no_end :
    (pre k v : Bytes)
    → Lacks b'=' k
    → Lacks b'&' v
    → find b'&' (query pre k v []) (length pre + length k + 1) ≡ none
unfolding find
find_no_end pre k v h l =
    rw (drop_value pre k v [] h) (rw append-nil (rw (find_char-none b'&' v l)))

parse_args_past :
    (fuel : ℕ) (query : Bytes) (start : ℕ) (args : Fields)
    → length query ≤ start
    → parse_args (suc fuel) query start args ≡ some args
unfolding parse_args
parse_args_past fuel query start args h =
    let f : ltb start (length query) ≡ false = ground arith in rw f

-- Arguments whose keys hold no `=` and whose values hold no `&` are read back from their text, in
-- their order, a later one for the same key in place of an earlier one.
pub parse_args-format_args :
    (as' : List Arg) (fuel : ℕ) (pre : Bytes) (args : Fields)
    → AreArgs as'
    → length as' < fuel
    → parse_args fuel (pre ++ format_args as') (length pre) args ≡ some (insert_all args as')
unfolding format_args insert_all AreArgs
parse_args-format_args as' zero pre args h l = absurd (omega arith)
parse_args-format_args [] (suc fuel) pre args h l =
    parse_args_past fuel (pre ++ []) (length pre) args (omega (arith, length-append pre []))
parse_args-format_args ((k, v) ∷ []) (suc zero) pre args h l = absurd (omega arith)
parse_args-format_args ((k, v) ∷ []) (suc (suc fuel)) pre args h l =
    let q = query pre k v [] in
    let len : length q ≡ length pre + length k + 1 + length v = omega (
      arith,
      length-append pre (k ++ (b'=' ∷ (v ++ []))),
      length-append k (b'=' ∷ (v ++ [])),
      length-append v [],
    ) in
    ap (λ t. parse_args (suc (suc fuel)) (pre ++ (k ++ (b'=' ∷ t))) (length pre) args)
      (sym (append-nil v))
    ∙ parse_args_turn pre k v [] h.0 (suc fuel) args (length q)
        (ap (λ o. or_end o q) (find_no_end pre k v h.0 h.1)) len
    ∙ parse_args_past fuel q (length q + 1) (insert k v args) (omega arith)
parse_args-format_args ((k, v) ∷ a ∷ as') (suc fuel) pre args h l =
    let rest = format_args (a ∷ as') in
    let q = query pre k v (b'&' ∷ rest) in
    let p = behind pre k v in
    let same : q ≡ p ++ rest = simp append_assoc in
    let len : length pre + length k + 1 + length v + 1 ≡ length p = omega (
      arith,
      length-append pre (k ++ (b'=' ∷ (v ++ (b'&' ∷ [])))),
      length-append k (b'=' ∷ (v ++ (b'&' ∷ []))),
      length-append v (b'&' ∷ []),
    ) in
    parse_args_turn pre k v (b'&' ∷ rest) h.0 fuel args (length pre + length k + 1 + length v)
      (ap (λ o. or_end o q) (find_value_end pre k v rest h.0 h.1)) refl
    ∙ ap₂ (λ t n. parse_args fuel t n (insert k v args)) same len
    ∙ parse_args-format_args (a ∷ as') fuel p (insert k v args) h.2 (omega arith)

length-format_args : (as' : List Arg) → length as' ≤ length (format_args as')
unfolding format_args
length-format_args [] = omega arith
length-format_args ((k, v) ∷ []) = omega (arith, length-append k (b'=' ∷ v))
length-format_args ((k, v) ∷ a ∷ as') =
    let rest = format_args (a ∷ as') in
    omega (
      arith,
      length-format_args (a ∷ as'),
      length-append k (b'=' ∷ (v ++ (b'&' ∷ rest))),
      length-append v (b'&' ∷ rest),
    )

find-first : (c : ℕ) (xs ys : Bytes) → Lacks c xs → find c (xs ++ (c ∷ ys)) 0 ≡ some (length xs)
unfolding find
find-first c xs ys h =
    let e : zero + length xs ≡ length xs = omega arith in rw (find_char-first c xs ys h) (rw e)

-- `parseUrlParams` splits a url without a question mark from its arguments and reads all of them
-- back, if no name of an argument holds `=` and no value `&`; a url without a question mark and arguments it takes whole.
pub parse_url_params-format_args :
    (r : HttpRequest) (url : Bytes) (as' : List Arg)
    → Lacks b'?' url
    → AreArgs as'
    → (parse_url_params (record r { query_url = url ++ (b'?' ∷ format_args as') })
        ≡ some (record r {
          url = url;
          query_url = url ++ (b'?' ∷ format_args as');
          args = insert_all r.args as';
        }))
      × (parse_url_params (record r { query_url = url })
          ≡ some (record r { url = url; query_url = url }))
unfolding parse_url_params
parse_url_params-format_args r url as' h k =
    let text = format_args as' in
    let front : Bytes = url ++ (b'?' ∷ []) in
    let split_off : drop (length url + 1) (url ++ (b'?' ∷ text)) ≡ text =
      ap (drop (length url + 1)) (sym (append_assoc url (b'?' ∷ []) text))
      ∙ drop-at (length url + 1) front text (omega (arith, length-append url (b'?' ∷ []))) in
    let parsed : parse_args (length text + 1) text 0 r.args ≡ some (insert_all r.args as') =
      parse_args-format_args as' (length text + 1) [] r.args k
        (omega (arith, length-format_args as')) in
    let missing : find b'?' url 0 ≡ none = unfold find in rw (find_char-none b'?' url h) in
    (
      rw (find-first b'?' url text h, parse_url_params)
          (rw split_off (rw parsed (rw (take-append_self url (b'?' ∷ text))))),
      rw (missing, parse_url_params),
    )

-- `parseUrlParams` ends on every url.
pub parse_url_params_total : (r : HttpRequest) → (r' : HttpRequest) × (parse_url_params r ≡ some r')
unfolding parse_url_params
parse_url_params_total r = elim (Option-cases (find b'?' r.query_url 0)) [
  | inl e ↦ (record r { url = r.query_url }, rw (e, parse_url_params))
  | inr (p, e) ↦
      let query = drop (p + 1) r.query_url in
      let (args, f) = parse_args_total (length query + 1) query 0 r.args (omega arith) in
      (record r { url = take p r.query_url; args = args }, rw (e, parse_url_params) (rw f))
]
