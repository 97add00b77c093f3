-- ===== src/Http/Fields.antt =====
-- `std::map<std::string, std::string>`, as the list of its entries in the order of the keys, and
-- the functions of the C library that http.cpp calls on strings.
use Prim.Native.Nat.{Ordering}
use yy.Prelude.{
  ℕ, zero, suc, ◌+◌, ◌-◌, ◌*◌, ◌/◌, ◌%◌, ◌≡◌, refl, Bool, ◌&&◌, Option, none, some, List, [], ◌∷◌,
  arith, ltb, leb, ◌==◌, if◌then◌else◌, size_mod, sub_size, take, Bytes, equal, equal_iff,
}
use yy.StringPiece.{is_space}
use yy.StringPiece.Order.{lexicographic, lexicographic-eq, lexicographic_refl}

abbrev pub Fields : Type 0
Fields = List (Bytes × Bytes)

-- `m[k] = v`
unfoldable pub insert : Bytes → Bytes → Fields → Fields
insert k v [] = (k, v) ∷ []
insert k v ((j, w) ∷ m) =
    let later = insert k v m in
    elim (lexicographic k j) [
      | Ordering.lt ↦ (k, v) ∷ (j, w) ∷ m
      | Ordering.eq ↦ (k, v) ∷ m
      | Ordering.gt ↦ (j, w) ∷ later
    ]

unfoldable pub lookup : Bytes → Fields → Option Bytes
lookup k [] = none
lookup k ((j, w) ∷ m) = if equal j k then some w else lookup k m

-- `find`, and the empty string for a missing key
abbrev pub get_field : Bytes → Fields → Bytes
get_field k m = elim (lookup k m) [ none ↦ [] | some v ↦ v ]

-- Every key below another one.
pub lookup-insert :
    (k j v : Bytes) (m : Fields)
    → lookup j (insert k v m) ≡ (if equal k j then some v else lookup j m)
unfolding lookup insert
lookup-insert k j v [] = refl
lookup-insert k j v ((i, w) ∷ m) = ground (
  arith,
  equal_iff k j,
  equal_iff i j,
  lexicographic-eq k i,
  lexicographic_refl k,
  lookup-insert k j v m,
)

-- `tolower` on ASCII
unfoldable pub lower : ℕ → ℕ
lower c = if leb b'A' c && leb c b'Z' then c + 32 else c

abbrev is_digit : ℕ → Bool
is_digit c = leb b'0' c && leb c b'9'

digits_from : ℕ → Bytes → ℕ
digits_from acc [] = acc
digits_from acc (c ∷ cs) =
    let more = digits_from (acc * 10 + (c - b'0')) cs in if is_digit c then more else acc

skip_spaces : Bytes → Bytes
skip_spaces [] = []
skip_spaces (c ∷ cs) = let more = skip_spaces cs in if is_space c then more else c ∷ cs

signed : Bytes → ℕ
signed [] = 0
signed (c ∷ cs) =
    if c == b'-'
    then sub_size 0 (digits_from 0 cs)
    else digits_from 0 (if c == b'+' then cs else c ∷ cs) % size_mod

-- `static_cast<size_t>(atoll(s))`, for numbers that a `long long` holds
unfoldable pub atoll : Bytes → ℕ
unfolding digits_from skip_spaces signed
atoll s = signed (skip_spaces s)

decimal_from : ℕ → ℕ → Bytes → Bytes
decimal_from zero n out = out
decimal_from (suc fuel) n out =
    let more = decimal_from fuel (n / 10) ((b'0' + n % 10) ∷ out) in
    if ltb n 10 then (b'0' + n) ∷ out else more

-- `%zu` and `%d` of a number below 2^64, which has at most 20 digits
unfoldable pub decimal : ℕ → Bytes
unfolding decimal_from
decimal n = decimal_from 20 n []

-- `snprintf(tmp, 4096, …)`: the text is cut to leave room for the final zero byte.
abbrev pub snprintf : Bytes → Bytes
snprintf text = take 4095 text
