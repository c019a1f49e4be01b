-- ===== src/Text/Line/Entries.antt =====
-- `parse_line` finds the items of a line, in order and up to the maximum, whatever stands behind it.
use nano_vna_x.Base.{
  append-nil, ==-ne, ℕ, zero, suc, ◌+◌, ◌-◌, ◌≤◌, ◌<◌, ◌≡◌, ◌≢◌, refl, subst, true, false, List, [],
  ◌∷◌, ◌++◌, length, take, ltb, arith, Every, append_assoc, length-append,
}
use nano_vna_x.Text.Line.{moved, take_argument, parse_loop, parse_line}
use nano_vna_x.Text.Line.Layout.{bare, quoted, Entry, render, texts, IsBlank, IsPlain, IsLine}
use nano_vna_x.Text.Line.Split.{Splits, Splits-moved, Splits-end}
use nano_vna_x.Text.Line.Items.{
  Splits-size, take-nil, parse_loop-blanks, word_blank, quoted_blank, word_end,
}

word_step :
    (max_cnt n fuel pos c : ℕ) (mem : List ℕ)
    → c ≢ b'"'
    → IsPlain c
    → parse_loop (suc fuel) max_cnt n pos (c ∷ mem)
      ≡ take_argument (parse_loop fuel max_cnt (n + 1)) (ltb n max_cnt) false pos (c ∷ mem)
unfolding parse_loop
word_step max_cnt n fuel pos c mem q p =
    rw (==-ne c 0 p.0, ==-ne c b' ' p.1, ==-ne c 9 p.2, ==-ne c b'"' q)

pub quote_step :
    (max_cnt n fuel pos : ℕ) (mem : List ℕ)
    → parse_loop (suc fuel) max_cnt n pos (b'"' ∷ mem)
      ≡ moved
          (b'"' ∷ [])
          (take_argument (parse_loop fuel max_cnt (n + 1)) (ltb n max_cnt) true (pos + 1) mem)
unfolding parse_loop
quote_step max_cnt n fuel pos mem = refl

-- From any point of a line on.
pub parse_loop-entries :
    (es : List Entry) (max_cnt n fuel pos : ℕ) (stale : List ℕ)
    → IsLine es
    → n ≤ max_cnt
    → length (render es) < fuel
    → Splits
        (parse_loop fuel max_cnt n pos (render es ++ (0 ∷ stale)))
        pos
        (take (max_cnt - n) (texts es))
        (length (render es))
        stale
unfolding parse_loop
parse_loop-entries es max_cnt n zero pos stale line le enough = absurd (omega arith)
parse_loop-entries [] max_cnt n (suc fuel) pos stale line le enough =
    rw take-nil (Splits-end pos [] stale)
parse_loop-entries ((bare c w, []) ∷ []) max_cnt n (suc fuel) pos stale line le enough =
    rw (append-nil w, word_step max_cnt n fuel pos c (w ++ (0 ∷ stale)) line.0.0 line.0.1)
      (Splits-size (omega arith)
        (word_end max_cnt n pos (parse_loop fuel max_cnt (n + 1)) stale c w line.0 le))
parse_loop-entries ((bare c w, []) ∷ (e ∷ es)) max_cnt n (suc fuel) pos stale line le enough =
    absurd line.2
parse_loop-entries ((bare c w, b ∷ sp) ∷ es) max_cnt n (suc fuel) pos stale line le enough =
    rw
      (
        append_assoc w (b ∷ (sp ++ render es)) (0 ∷ stale),
        append_assoc sp (render es) (0 ∷ stale),
        word_step max_cnt n fuel pos c (w ++ (b ∷ (sp ++ (render es ++ (0 ∷ stale))))) line.0.0
            line.0.1,
      )
      (Splits-size
        (omega (arith, length-append w (b ∷ (sp ++ render es)), length-append sp (render es)))
        (word_blank max_cnt n fuel pos es stale c w b sp line.0 line.1 le
          (omega (arith, length-append w (b ∷ (sp ++ render es)), length-append sp (render es)))
          (λ room f p k. parse_loop-entries es max_cnt (n + 1) f p stale line.3 (omega arith) k)))
parse_loop-entries ((quoted t, []) ∷ es) max_cnt n (suc fuel) pos stale line le enough =
    absurd line.2
parse_loop-entries ((quoted t, b ∷ sp) ∷ es) max_cnt n (suc fuel) pos stale line le enough =
    rw
      (
        append_assoc t (b'"' ∷ (b ∷ (sp ++ render es))) (0 ∷ stale),
        append_assoc sp (render es) (0 ∷ stale),
        quote_step max_cnt n fuel pos (t ++ (b'"' ∷ (b ∷ (sp ++ (render es ++ (0 ∷ stale)))))),
      )
      (Splits-size
        (omega
          (arith, length-append t (b'"' ∷ (b ∷ (sp ++ render es))), length-append sp (render es)))
        (Splits-moved pos (b'"' ∷ []) _ (
          quoted_blank max_cnt n fuel (pos + 1) es stale t b sp line.0 line.1 le
            (omega (
              arith,
              length-append t (b'"' ∷ (b ∷ (sp ++ render es))),
              length-append sp (render es),
            ))
            (λ room f p k.
              parse_loop-entries es max_cnt (n + 1) f p stale line.3 (omega arith) k))))

-- A line of words and quoted texts between blanks, with each quoted text followed by a blank: the
-- call returns, its arguments are the first `max_cnt` texts in order, and the NUL that ends the line
-- and all that stands behind it are as before, whatever that is.
pub parse_line-entries :
    (lead : List ℕ) (es : List Entry) (max_cnt : ℕ) (stale : List ℕ)
    → Every IsBlank lead
    → IsLine es
    → 0 < max_cnt
    → Splits
        (parse_line (lead ++ (render es ++ (0 ∷ stale))) max_cnt)
        0
        (take max_cnt (texts es))
        (length lead + length (render es))
        stale
unfolding parse_line
parse_line-entries lead es max_cnt stale blanks line some_room =
    rw (==-ne max_cnt 0 (omega arith)) (
      parse_loop-blanks max_cnt 0 lead (suc (length (lead ++ (render es ++ (0 ∷ stale)))))
        (suc (length (render es))) 0 (render es ++ (0 ∷ stale)) (length (render es)) blanks
        (omega (
          arith,
          length-append lead (render es ++ (0 ∷ stale)),
          length-append (render es) (0 ∷ stale),
        ))
        (λ f k.
          whole f (parse_loop-entries es max_cnt 0 f (0 + length lead) stale line (omega arith) k)))
  where
    whole :
        (f : ℕ)
        → Splits
            (parse_loop f max_cnt 0 (0 + length lead) (render es ++ (0 ∷ stale)))
            (0 + length lead)
            (take (max_cnt - 0) (texts es))
            (length (render es))
            stale
        → Splits
            (parse_loop f max_cnt 0 (0 + length lead) (render es ++ (0 ∷ stale)))
            (0 + length lead)
            (take max_cnt (texts es))
            (length (render es))
            stale
    whole f s =
        subst
          (λ k.
            Splits (parse_loop f max_cnt 0 (0 + length lead) (render es ++ (0 ∷ stale)))
              (0 + length lead) (take k (texts es)) (length (render es)) stale)
          (omega arith) s
