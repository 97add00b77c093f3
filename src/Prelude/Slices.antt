-- ===== src/Prelude/Slices.antt =====
-- A stretch of an array, and copies into it: what `std::copy` and `vector::resize` do to bytes.
use Prim.Native.Nat.{ℕ, zero, suc, ◌+◌, ◌-◌, ◌≤◌, ◌<◌}
use mathlib.Core.Path.{◌≡◌, refl, sym, ap, ◌∙◌}
use mathlib.Core.List.{List, [], ◌∷◌, ◌++◌, append-nil}
use native.Mathlib.Omega.{arith}
use mathlib.Core.Bool.{Bool, true, false}
use mathlib.Core.Logic.{◌↔◌}
use yy.Prelude.Tests.{◌==◌, if◌then◌else◌}
use yy.Prelude.Lists.{length, take, drop, get_or, length-take, length-drop}

abbrev pub Bytes : Type 0
Bytes = List ℕ

-- the `n` bytes from index `i` on
abbrev pub slice : ℕ → ℕ → Bytes → Bytes
slice i n bs = take n (drop i bs)

-- `std::copy(xs, xs + length xs, bs + i)`. A byte past the end of the array is not stored.
abbrev pub copy_to : Bytes → ℕ → Bytes → Bytes
copy_to [] i xs = []
copy_to (b ∷ bs) i [] = b ∷ bs
copy_to (b ∷ bs) zero (x ∷ xs) = x ∷ copy_to bs zero xs
copy_to (b ∷ bs) (suc i) (x ∷ xs) = b ∷ copy_to bs i (x ∷ xs)

-- `vector<char>::resize`: new bytes are zero.
abbrev pub resized : ℕ → Bytes → Bytes
resized zero bs = []
resized (suc n) [] = 0 ∷ resized n []
resized (suc n) (b ∷ bs) = b ∷ resized n bs

pub length-slice : (i n : ℕ) (bs : Bytes) → i + n ≤ length bs → length (slice i n bs) ≡ n
length-slice i n bs h = omega (arith, length-take n (drop i bs), length-drop i bs)

pub length-copy_to : (bs : Bytes) (i : ℕ) (xs : Bytes) → length (copy_to bs i xs) ≡ length bs
length-copy_to [] i xs = refl
length-copy_to (b ∷ bs) zero [] = refl
length-copy_to (b ∷ bs) (suc i) [] = refl
length-copy_to (b ∷ bs) zero (x ∷ xs) = ap suc (length-copy_to bs zero xs)
length-copy_to (b ∷ bs) (suc i) (x ∷ xs) = ap suc (length-copy_to bs i (x ∷ xs))

pub length-resized : (n : ℕ) (bs : Bytes) → length (resized n bs) ≡ n
length-resized zero bs = refl
length-resized (suc n) [] = ap suc (length-resized n [])
length-resized (suc n) (b ∷ bs) = ap suc (length-resized n bs)

copy_to-nil : (bs : Bytes) (i : ℕ) → copy_to bs i [] ≡ bs
copy_to-nil [] i = refl
copy_to-nil (b ∷ bs) zero = refl
copy_to-nil (b ∷ bs) (suc i) = refl

copy_to-cons :
    (b : ℕ) (bs : Bytes) (i : ℕ) (xs : Bytes) → copy_to (b ∷ bs) (suc i) xs ≡ b ∷ copy_to bs i xs
copy_to-cons b bs i [] = ap (◌∷◌ b) (sym (copy_to-nil bs i))
copy_to-cons b bs i (x ∷ xs) = refl

take-copy_to :
    (bs : Bytes) (n : ℕ) (xs : Bytes) (k : ℕ)
    → k ≡ n + length xs
    → k ≤ length bs
    → take k (copy_to bs n xs) ≡ take n bs ++ xs
take-copy_to bs zero [] zero e h = refl
take-copy_to bs zero [] (suc k) e h = absurd (omega arith)
take-copy_to [] zero (x ∷ xs) k e h = absurd (omega arith)
take-copy_to (b ∷ bs) zero (x ∷ xs) zero e h = absurd (omega arith)
take-copy_to (b ∷ bs) zero (x ∷ xs) (suc k) e h =
    ap (◌∷◌ x) (take-copy_to bs zero xs k (omega arith) (omega arith))
take-copy_to [] (suc n) xs k e h = absurd (omega arith)
take-copy_to (b ∷ bs) (suc n) xs zero e h = absurd (omega arith)
take-copy_to (b ∷ bs) (suc n) xs (suc k) e h =
    rw copy_to-cons (ap (◌∷◌ b) (take-copy_to bs n xs k (omega arith) (omega arith)))

-- A copy to the end of a slice extends it.
pub slice-copy_to_end :
    (r n : ℕ) (bs xs : Bytes) (i k : ℕ)
    → i ≡ r + n
    → k ≡ n + length xs
    → r + k ≤ length bs
    → slice r k (copy_to bs i xs) ≡ slice r n bs ++ xs
slice-copy_to_end zero n bs xs i k e f h =
    let e' : i ≡ n = omega arith in rw e' (take-copy_to bs n xs k f (omega arith))
slice-copy_to_end (suc r) n [] xs i k e f h = absurd (omega arith)
slice-copy_to_end (suc r) n (b ∷ bs) xs zero k e f h = absurd (omega arith)
slice-copy_to_end (suc r) n (b ∷ bs) xs (suc i) k e f h =
    rw copy_to-cons (slice-copy_to_end r n bs xs i k (omega arith) f (omega arith))

take-copy_to_start :
    (bs xs : Bytes) (n k : ℕ)
    → k ≡ length xs + n
    → k ≤ length bs
    → take k (copy_to bs 0 xs) ≡ xs ++ take n (drop (length xs) bs)
take-copy_to_start bs [] n k e h = let e' : k ≡ n = omega arith in rw (copy_to-nil bs 0, e')
take-copy_to_start [] (x ∷ xs) n k e h = absurd (omega arith)
take-copy_to_start (b ∷ bs) (x ∷ xs) n zero e h = absurd (omega arith)
take-copy_to_start (b ∷ bs) (x ∷ xs) n (suc k) e h =
    ap (◌∷◌ x) (take-copy_to_start bs xs n k (omega arith) (omega arith))

-- A copy just in front of a slice puts the bytes before it.
pub slice-copy_to_front :
    (r n : ℕ) (bs xs : Bytes) (j k : ℕ)
    → j ≡ r + length xs
    → k ≡ length xs + n
    → r + k ≤ length bs
    → slice r k (copy_to bs r xs) ≡ xs ++ slice j n bs
slice-copy_to_front zero n bs xs j k e f h =
    let e' : j ≡ length xs = omega arith in rw e' (take-copy_to_start bs xs n k f (omega arith))
slice-copy_to_front (suc r) n [] xs j k e f h = absurd (omega arith)
slice-copy_to_front (suc r) n (b ∷ bs) xs zero k e f h = absurd (omega arith)
slice-copy_to_front (suc r) n (b ∷ bs) xs (suc j) k e f h =
    rw copy_to-cons (slice-copy_to_front r n bs xs j k (omega arith) f (omega arith))

-- What a copy wrote is there.
pub slice-copy_to_self :
    (r : ℕ) (bs xs : Bytes) (k : ℕ)
    → k ≡ length xs
    → r + k ≤ length bs
    → slice r k (copy_to bs r xs) ≡ xs
slice-copy_to_self r bs xs k e h =
    slice-copy_to_front r 0 bs xs (r + length xs) k refl (omega arith) h ∙ append-nil xs

take-resized : (n m : ℕ) (bs : Bytes) → n ≤ length bs → n ≤ m → take n (resized m bs) ≡ take n bs
take-resized zero m bs h k = refl
take-resized (suc n) zero bs h k = absurd (omega arith)
take-resized (suc n) (suc m) [] h k = absurd (omega arith)
take-resized (suc n) (suc m) (b ∷ bs) h k =
    ap (◌∷◌ b) (take-resized n m bs (omega arith) (omega arith))

pub slice-resized :
    (r n m : ℕ) (bs : Bytes)
    → r + n ≤ length bs
    → r + n ≤ m
    → slice r n (resized m bs) ≡ slice r n bs
slice-resized zero n m bs h k = take-resized n m bs (omega arith) (omega arith)
slice-resized (suc r) n zero bs h k = absurd (omega arith)
slice-resized (suc r) n (suc m) [] h k = absurd (omega arith)
slice-resized (suc r) n (suc m) (b ∷ bs) h k = slice-resized r n m bs (omega arith) (omega arith)

pub slice-suc :
    (r n : ℕ) (bs : Bytes)
    → r + n < length bs
    → slice r (suc n) bs ≡ slice r n bs ++ (get_or bs (r + n) 0 ∷ [])
slice-suc r n [] h = absurd (omega arith)
slice-suc zero zero (b ∷ bs) h = refl
slice-suc zero (suc n) (b ∷ bs) h =
    let e : zero + suc n ≡ suc (zero + n) = omega arith in
    rw e (ap (◌∷◌ b) (slice-suc zero n bs (omega arith)))
slice-suc (suc r) n (b ∷ bs) h =
    let e : suc r + n ≡ suc (r + n) = omega arith in rw e (slice-suc r n bs (omega arith))

pub take-slice : (k r n : ℕ) (bs : Bytes) → k ≤ n → take k (slice r n bs) ≡ slice r k bs
take-slice k r n bs h = take-take k n (drop r bs) h
  where
    take-take : (k n : ℕ) (ys : Bytes) → k ≤ n → take k (take n ys) ≡ take k ys
    take-take zero n ys h = refl
    take-take (suc k) zero ys h = absurd (omega arith)
    take-take (suc k) (suc n) [] h = refl
    take-take (suc k) (suc n) (y ∷ ys) h = ap (◌∷◌ y) (take-take k n ys (omega arith))

drop-take : (k n : ℕ) (ys : Bytes) → drop k (take n ys) ≡ take (n - k) (drop k ys)
drop-take zero n ys = ap (λ m. take m ys) (omega arith)
drop-take (suc k) zero ys = let e : zero - suc k ≡ zero = omega arith in rw e
drop-take (suc k) (suc n) [] = rw (take-nil (suc n - suc k))
  where
    take-nil : (m : ℕ) → take {A = ℕ} m [] ≡ []
    take-nil zero = refl
    take-nil (suc m) = refl
drop-take (suc k) (suc n) (y ∷ ys) =
    let e : suc n - suc k ≡ n - k = omega arith in rw e (drop-take k n ys)

pub drop-drop : (k r : ℕ) (bs : Bytes) → drop k (drop r bs) ≡ drop (r + k) bs
drop-drop k zero bs = ap (λ m. drop m bs) (omega arith)
drop-drop zero (suc r) [] = let e : suc r + zero ≡ suc r = omega arith in rw e
drop-drop (suc k) (suc r) [] = let e : suc r + suc k ≡ suc (r + suc k) = omega arith in rw e
drop-drop k (suc r) (b ∷ bs) =
    let e : suc r + k ≡ suc (r + k) = omega arith in rw e (drop-drop k r bs)

pub drop-slice : (k r n : ℕ) (bs : Bytes) → drop k (slice r n bs) ≡ slice (r + k) (n - k) bs
drop-slice k r n bs = drop-take k n (drop r bs) ∙ ap (take (n - k)) (drop-drop k r bs)

take-add : (n k : ℕ) (ys : Bytes) → take (n + k) ys ≡ take n ys ++ take k (drop n ys)
take-add zero k ys = let e : zero + k ≡ k = omega arith in rw e
take-add (suc n) zero [] = let e : suc n + zero ≡ suc n = omega arith in rw e
take-add (suc n) (suc k) [] = let e : suc n + suc k ≡ suc (n + suc k) = omega arith in rw e
take-add (suc n) k (y ∷ ys) =
    let e : suc n + k ≡ suc (n + k) = omega arith in rw e (ap (◌∷◌ y) (take-add n k ys))

pub slice-add : (r n k : ℕ) (bs : Bytes) → slice r (n + k) bs ≡ slice r n bs ++ slice (r + n) k bs
slice-add r n k bs =
    take-add n k (drop r bs) ∙ ap (λ t. slice r n bs ++ take k t) (drop-drop n r bs)

-- `==` of two strings, and `memcmp(…) == 0` on equally many bytes
unfoldable pub equal : Bytes → Bytes → Bool
equal [] [] = true
equal [] (b ∷ right) = false
equal (a ∷ left) [] = false
equal (a ∷ left) (b ∷ right) = if a == b then equal left right else false

pub equal_iff : (left right : Bytes) → (equal left right ≡ true) ↔ (left ≡ right)
unfolding equal
equal_iff [] [] = ((λ _. refl), (λ _. refl))
equal_iff [] (b ∷ right) = ((λ h. cc), (λ e. cc))
equal_iff (a ∷ left) [] = ((λ h. cc), (λ e. cc))
equal_iff (a ∷ left) (b ∷ right) = ground (arith, equal_iff left right)

pub equal_refl : (a : Bytes) → equal a a ≡ true
equal_refl a = (equal_iff a a).1 refl

pub slice-cut :
    (b d e : ℕ) (bs : Bytes)
    → b ≤ d
    → d ≤ e
    → slice b (e - b) bs ≡ slice b (d - b) bs ++ slice d (e - d) bs
slice-cut b d e bs h k =
    let g : e - b ≡ d - b + (e - d) = omega arith in
    let m : b + (d - b) ≡ d = omega arith in
    ap (λ n. slice b n bs) g
    ∙ slice-add b (d - b) (e - d) bs
    ∙ ap (λ i. slice b (d - b) bs ++ slice i (e - d) bs) m
