-- ===== src/StringPiece/Tests.antt =====
-- StringPiece on small views.
use yy.Prelude.{◌<◌, ◌≡◌, [], ◌∷◌, map, arith, Bytes}
use yy.StringPiece.{StringPiece, bytes, split}
use yy.StringPiece.Scan.{IsView}
use yy.StringPiece.Split.{join, AllLack, split_lem}

-- " a b " inside "x a b y"
abbrev view : StringPiece
view = record { base = b'x' ∷ b' ' ∷ b'a' ∷ b' ' ∷ b'b' ∷ b' ' ∷ b'y' ∷ []; pb = 1; pe = 6 }

view-IsView : IsView view
view-IsView = omega arith

split_lem_example :
    (1 < 6
      → (join b' ' (map bytes (split view b' ')) ≡ bytes view)
        × AllLack b' ' (map bytes (split view b' ')))
    × (view.pb ≡ view.pe → split view b' ' ≡ [])
split_lem_example = split_lem view b' ' view-IsView

abbrev ab : Bytes
ab = b'a' ∷ b'b' ∷ []

abbrev abc : Bytes
abc = b'a' ∷ b'b' ∷ b'c' ∷ []
