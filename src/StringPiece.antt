-- ===== src/StringPiece.antt =====
-- Common/stringPiece.h: a view of bytes that something else owns. `base` is the array that both
-- pointers point into, and `pb_`, `pe_` are indices into it.
pub mod Scan
pub mod Words
pub mod Order
pub mod Split
mod Tests
use Prim.Native.Nat.{compare, Ordering}
use yy.Prelude.{
  ℕ, zero, suc, ◌+◌, ◌-◌, Bool, true, false, not, ◌&&◌, ◌||◌, List, [], ◌∷◌, ◌++◌, ltb, leb, ◌==◌,
  if◌then◌else◌, sub_size, length, get_or, take, drop, Bytes, slice,
}

pub record StringPiece : Type 0 where
  pub base : Bytes
  pub pb : ℕ
  pub pe : ℕ

-- `isspace` in the C locale
unfoldable pub is_space : ℕ → Bool
is_space c = c == b' ' || (leb 9 c && leb c 13)

abbrev pub is_line_end : ℕ → Bool
is_line_end c = c == b'\n' || c == b'\r'

-- the bytes that a view spans
abbrev pub bytes : StringPiece → Bytes
bytes s = slice s.pb (s.pe - s.pb) s.base

abbrev pub of_string : Bytes → StringPiece
of_string s = record { base = s; pb = 0; pe = length s }

abbrev pub size : StringPiece → ℕ
size s = sub_size s.pe s.pb

abbrev pub is_empty : StringPiece → Bool
is_empty s = s.pe == s.pb

-- `stringPiece(b, n)` with `b` an index into the array of `s`
abbrev pub piece : StringPiece → ℕ → ℕ → StringPiece
piece s b n = record s { pb = b; pe = b + n }

unfoldable pub eat : StringPiece → ℕ → StringPiece × StringPiece
eat s sz = (piece s s.pb sz, record s { pb = s.pb + sz })

-- `sub(boff, -eback)`; no caller moves the end forward.
unfoldable pub sub : StringPiece → ℕ → ℕ → StringPiece
sub s boff eback = record s { pb = s.pb + boff; pe = s.pe - eback }

-- `while (i < e && test(base[i])) i++`, with `n = e - i` rounds at most
unfoldable pub scan : (ℕ → Bool) → Bytes → ℕ → ℕ → ℕ
scan test base zero i = i
scan test base (suc n) i =
    let next = scan test base n (i + 1) in if test (get_or base i 0) then next else i

-- `while (b < e && test(e[-1])) e--`
unfoldable pub scan_back : (ℕ → Bool) → Bytes → ℕ → ℕ → ℕ
scan_back test base zero e = e
scan_back test base (suc n) e =
    let next = scan_back test base n (e - 1) in if test (get_or base (e - 1) 0) then next else e

-- The word, and the view behind it.
unfoldable pub eat_word : StringPiece → StringPiece × StringPiece
eat_word s =
    let b = scan is_space s.base (s.pe - s.pb) s.pb in
    let e = scan (λ c. not (is_space c)) s.base (s.pe - b) b in
    (piece s b (e - b), record s { pb = e })

unfoldable pub eat_line : StringPiece → StringPiece × StringPiece
eat_line s =
    let e = scan (λ c. not (is_line_end c)) s.base (s.pe - s.pb) s.pb in
    (piece s s.pb (e - s.pb), record s { pb = e })

unfoldable pub trim_space : StringPiece → StringPiece
trim_space s =
    let b = scan is_space s.base (s.pe - s.pb) s.pb in
    record s { pb = b; pe = scan_back is_space s.base (s.pe - b) s.pe }

-- `memcmp(a, b, n)` for bytes of equal number: only its sign is used
unfoldable pub memcmp : Bytes → Bytes → Ordering
memcmp [] ys = Ordering.eq
memcmp (x ∷ xs) [] = Ordering.eq
memcmp (x ∷ xs) (y ∷ ys) =
    let rest = memcmp xs ys in
    elim (compare x y) [
      | Ordering.lt ↦ Ordering.lt
      | Ordering.eq ↦ rest
      | Ordering.gt ↦ Ordering.gt
    ]

abbrev pub is_eq : Ordering → Bool
is_eq o = elim o [ Ordering.eq ↦ true | _ ↦ false ]

-- `compare`: the sign of the `int`
unfoldable pub compare_pieces : Bytes → Bytes → Ordering
compare_pieces a b =
    let n = if ltb (length a) (length b) then length a else length b in
    elim (memcmp (take n a) (take n b)) [
      | Ordering.eq ↦
          if ltb (length a) (length b)
          then Ordering.lt
          else if ltb (length b) (length a)
          then Ordering.gt
          else Ordering.eq
      | other ↦ other
    ]

-- `operator==`
unfoldable pub eq_pieces : Bytes → Bytes → Bool
eq_pieces a b = length a == length b && is_eq (memcmp a b)

unfoldable pub starts_with : Bytes → Bytes → Bool
starts_with a x = leb (length x) (length a) && is_eq (memcmp (take (length x) a) x)

unfoldable pub end_with : Bytes → Bytes → Bool
end_with a x = leb (length x) (length a) && is_eq (memcmp (drop (length a - length x) a) x)

-- the loop of `split` over the `n` bytes from `p` on; `b` is the start of the open piece
unfoldable pub split_from : StringPiece → ℕ → ℕ → ℕ → ℕ → List StringPiece × ℕ
split_from s ch zero p b = ([], b)
split_from s ch (suc n) p b =
    let closed = split_from s ch n (p + 1) (p + 1) in
    let open_piece = split_from s ch n (p + 1) b in
    if get_or s.base p 0 == ch
    then (record s { pb = b; pe = p } ∷ closed.0, closed.1)
    else open_piece

unfoldable pub split : StringPiece → ℕ → List StringPiece
split s ch =
    let (pieces, b) = split_from s ch (s.pe - s.pb) s.pb s.pb in
    if s.pe == s.pb then pieces else pieces ++ (record s { pb = b } ∷ [])
