-- ===== src/StringPiece/Words.antt =====
-- eatWord, eatLine and trimSpace by the bytes that they leave.
use yy.Prelude.{
  ℕ, ◌+◌, ◌-◌, ◌^◌, ◌<◌, ◌≡◌, sym, ap, ◌∙◌, not, ◌++◌, arith, length, Bytes, slice, length-slice,
  slice-cut,
}
use yy.StringPiece.{
  StringPiece, bytes, size, is_space, is_line_end, scan, scan_back, eat_word, eat_line, trim_space,
}
use yy.StringPiece.Scan.{
  IsView, scan-IsScan, take_while, drop_while, All, EndsOff, scan_back-IsBackScan, StartsOff,
  split_while, StartsOff-append,
}

-- The size of a view is the number of its bytes, if the array is no larger than a `size_t`.
pub size-length : (s : StringPiece) → IsView s → length s.base < 2 ^ 64 → size s ≡ length (bytes s)
size-length s v h = omega (arith, length-slice s.pb (s.pe - s.pb) s.base (omega arith))

-- On a view inside its array, `eatWord` returns the first word: the bytes behind the leading spaces
-- up to the next space. It leaves the bytes from that space on, and both are views inside the array.
pub eat_word_lem :
    (s : StringPiece)
    → IsView s
    → let (word, rest) = eat_word s in
      (bytes word ≡ take_while (λ c. not (is_space c)) (drop_while is_space (bytes s)))
      × (bytes rest ≡ drop_while (λ c. not (is_space c)) (drop_while is_space (bytes s)))
      × IsView word
      × IsView rest
unfolding eat_word
eat_word_lem s v =
    let n : ℕ = s.pe - s.pb in
    let b : ℕ = scan is_space s.base n s.pb in
    let skip = scan-IsScan is_space s.base n s.pb (omega arith) in
    let e : ℕ = scan (λ c. not (is_space c)) s.base (s.pe - b) b in
    let word = scan-IsScan (λ c. not (is_space c)) s.base (s.pe - b) b (omega (arith, skip.upto)) in
    let f : s.pe - b ≡ s.pb + n - b = omega (arith, skip.upto) in
    let w : b + (e - b) - b ≡ e - b = omega arith in
    let l : s.pe - e ≡ b + (s.pe - b) - e = omega (arith, skip.upto) in
    let at_b : slice b (s.pe - b) s.base ≡ drop_while is_space (bytes s) =
      ap (λ k. slice b k s.base) f ∙ skip.left in
    (
      ap (λ k. slice b k s.base) w ∙ word.passed ∙ ap (take_while (λ c. not (is_space c))) at_b,
      ap (λ k. slice e k s.base) l ∙ word.left ∙ ap (drop_while (λ c. not (is_space c))) at_b,
      omega (arith, skip.from, skip.upto, word.from, word.upto),
      omega (arith, skip.from, skip.upto, word.from, word.upto),
    )

-- On a view inside its array, `eatLine` returns the bytes before the first carriage return or
-- newline, and leaves the bytes from there on; both are views inside the array.
pub eat_line_lem :
    (s : StringPiece)
    → IsView s
    → let (line, rest) = eat_line s in
      (bytes line ≡ take_while (λ c. not (is_line_end c)) (bytes s))
      × (bytes rest ≡ drop_while (λ c. not (is_line_end c)) (bytes s))
      × IsView line
      × IsView rest
unfolding eat_line
eat_line_lem s v =
    let n : ℕ = s.pe - s.pb in
    let r = scan-IsScan (λ c. not (is_line_end c)) s.base n s.pb (omega arith) in
    let e : ℕ = scan (λ c. not (is_line_end c)) s.base n s.pb in
    let w : s.pb + (e - s.pb) - s.pb ≡ e - s.pb = omega arith in
    let l : s.pe - e ≡ s.pb + n - e = omega arith in
    (
      ap (λ k. slice s.pb k s.base) w ∙ r.passed,
      ap (λ k. slice e k s.base) l ∙ r.left,
      omega (arith, r.from, r.upto),
      omega (arith, r.from, r.upto),
    )

-- On a view inside its array, `trimSpace` takes spaces off both ends and nothing else: what is left
-- neither starts nor ends with a space, and what was taken off is all spaces.
pub trim_space_lem :
    (s : StringPiece)
    → IsView s
    → (l r : Bytes) × (bytes s ≡ l ++ (bytes (trim_space s) ++ r))
      × All is_space l
      × All is_space r
      × StartsOff is_space (bytes (trim_space s))
      × EndsOff is_space (bytes (trim_space s))
      × IsView (trim_space s)
unfolding trim_space
trim_space_lem s v =
    let n : ℕ = s.pe - s.pb in
    let b : ℕ = scan is_space s.base n s.pb in
    let fore = scan-IsScan is_space s.base n s.pb (omega arith) in
    let d : ℕ = scan_back is_space s.base (s.pe - b) s.pe in
    let back = scan_back-IsBackScan is_space s.base (s.pe - b) s.pe (omega arith) (omega arith) in
    let (whole, spaces, starts) = split_while is_space (bytes s) in
    let f : s.pe - b ≡ s.pb + n - b = omega (arith, fore.upto) in
    let at_b : slice b (s.pe - b) s.base ≡ drop_while is_space (bytes s) =
      ap (λ k. slice b k s.base) f ∙ fore.left in
    let o : s.pe - (s.pe - b) ≡ b = omega (arith, fore.upto) in
    let cut = slice-cut b d s.pe s.base (omega (arith, fore.upto, back.above)) back.below in
    let inner = sym at_b ∙ cut in
    (
      take_while is_space (bytes s),
      slice d (s.pe - d) s.base,
      whole ∙ ap (λ q. take_while is_space (bytes s) ++ q) inner,
      spaces,
      back.skipped,
      StartsOff-append is_space (slice b (d - b) s.base) _ (rw inner at starts),
      rw o at back.kept,
      omega (arith, fore.from, fore.upto, back.above, back.below),
    )
