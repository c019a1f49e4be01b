-- ===== src/Text/Line/Overrun.antt =====
-- A line that ends in a quoted argument: `parse_line` passes the NUL and reads what stands behind.
use nano_vna_x.Base.{
  ==-ne, ℕ, ◌+◌, ◌-◌, ◌<◌, List, [], ◌∷◌, ◌++◌, length, take, ltb, lt→ltb, arith, Every,
  length-append,
}
use nano_vna_x.Text.Line.{after_end, after_argument, parse_loop, parse_line}
use nano_vna_x.Text.Line.Layout.{Entry, render, texts, IsInner, IsLine}
use nano_vna_x.Text.Line.Split.{Splits, Splits-moved, Splits-argument}
use nano_vna_x.Text.Line.Items.{Splits-size, take_quoted, found, no_nul}
use nano_vna_x.Text.Line.Entries.{parse_loop-entries, quote_step}

-- For a line that is one quoted text, with `es` left in the buffer behind its NUL by an earlier
-- line: the call also returns the texts of `es` as arguments.
pub parse_line-overrun :
    (t : List ℕ) (es : List Entry) (max_cnt : ℕ) (stale : List ℕ)
    → Every IsInner t
    → IsLine es
    → 0 < max_cnt
    → Splits
        (parse_line (b'"' ∷ (t ++ (b'"' ∷ (0 ∷ (render es ++ (0 ∷ stale)))))) max_cnt)
        0
        (t ∷ take (max_cnt - 1) (texts es))
        (length t + 3 + length (render es))
        stale
unfolding parse_line found after_argument after_end
parse_line-overrun t es max_cnt stale inner line some_room =
    rw
      (
        ==-ne max_cnt 0 (omega arith),
        quote_step max_cnt 0 size 0 (t ++ (b'"' ∷ (0 ∷ (render es ++ (0 ∷ stale))))),
        take_quoted (parse_loop size max_cnt 1) (ltb 0 max_cnt) 1 t (0 ∷ (render es ++ (0 ∷ stale)))
            inner,
        lt→ltb 0 max_cnt some_room,
      )
      (Splits-size (omega arith) (
        Splits-moved 0 (b'"' ∷ []) _ (
          Splits-argument 1 t _ (no_nul t (λ x p. p.0) inner) (
            Splits-moved (1 + length t + 1) (0 ∷ []) _ (
              parse_loop-entries es max_cnt 1 size (1 + length t + 1 + 1) stale line some_room (
                omega (
                  arith,
                  length-append t (b'"' ∷ (0 ∷ (render es ++ (0 ∷ stale)))),
                  length-append (render es) (0 ∷ stale),
                )))))))
  where
    size : ℕ
    size = length (b'"' ∷ (t ++ (b'"' ∷ (0 ∷ (render es ++ (0 ∷ stale))))))
