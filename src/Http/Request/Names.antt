-- ===== src/Http/Request/Names.antt =====
-- The names of the methods.
use yy.Prelude.{◌≡◌, refl, ◌≢◌, [], ◌∷◌, arith, Bytes, equal, equal_iff}
use yy.Http.Request.{
  Method, unknown, get_method, post, put, delete, head, method_to_string, string_to_method,
}

there : (m : Method) → string_to_method (method_to_string m) ≡ m
unfolding string_to_method method_to_string equal
there unknown = refl
there get_method = refl
there post = refl
there put = refl
there delete = refl
there head = refl

back : (s : Bytes) → string_to_method s ≢ unknown → method_to_string (string_to_method s) ≡ s
unfolding string_to_method method_to_string
back s h = ground (
  arith,
  equal_iff s (b'G' ∷ b'E' ∷ b'T' ∷ []),
  equal_iff s (b'P' ∷ b'O' ∷ b'S' ∷ b'T' ∷ []),
  equal_iff s (b'P' ∷ b'U' ∷ b'T' ∷ []),
  equal_iff s (b'D' ∷ b'E' ∷ b'L' ∷ b'E' ∷ b'T' ∷ b'E' ∷ []),
  equal_iff s (b'H' ∷ b'E' ∷ b'A' ∷ b'D' ∷ []),
)

-- Every method, the unknown one included, is read back from its name; and a string that is read as
-- a known method is its name.
pub method_names :
    ((m : Method) → string_to_method (method_to_string m) ≡ m)
    × ((s : Bytes) → string_to_method s ≢ unknown → method_to_string (string_to_method s) ≡ s)
method_names = (there, back)
