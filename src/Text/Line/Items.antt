-- ===== src/Text/Line/Items.antt =====
-- One item of a line: what a round of `parse_line` does with a word and with a quoted text.
use nano_vna_x.Base.{
  ltb→lt, ℕ, zero, suc, ◌+◌, ◌-◌, ◌≤◌, ◌<◌, ◌≡◌, ◌≢◌, ◌⊎◌, inl, inr, refl, subst, Bool, true, false,
  some, List, [], ◌∷◌, ◌++◌, length, take, ltb, ◌==◌, if◌then◌else◌, arith, Every, append_assoc,
  length-append, Bool-cases,
}
use nano_vna_x.Text.Line.{
  has, Parsed, moved, stored, brk, after_end, after_argument, cut_argument, take_argument,
  parse_loop,
}
use nano_vna_x.Text.Line.Layout.{bare, Entry, render, texts, IsBlank, IsPlain, IsInner, IsItem}
use nano_vna_x.Text.Line.Split.{
  Splits, Splits-moved, Splits-argument, Splits-last, Splits-end, strpbrk-text, strpbrk-word,
}

pub Splits-size :
    {r : Parsed} {pos a b : ℕ} {ts : List (List ℕ)} {stale : List ℕ}
    → a ≡ b
    → Splits r pos ts a stale
    → Splits r pos ts b stale
Splits-size {r} {pos} {ts = ts} {stale = stale} e s = subst (λ k. Splits r pos ts k stale) e s

module _ (max_cnt n : ℕ) where
  -- Blanks are passed, one a round.
  pub parse_loop-blanks :
      (sp : List ℕ) (fuel need pos : ℕ) (mem : List ℕ) {ts : List (List ℕ)} (size : ℕ)
      {stale : List ℕ}
      → Every IsBlank sp
      → length sp + need ≤ fuel
      → ((f : ℕ)
          → need ≤ f
          → Splits (parse_loop f max_cnt n (pos + length sp) mem) (pos + length sp) ts size stale)
      → Splits (parse_loop fuel max_cnt n pos (sp ++ mem)) pos ts (length sp + size) stale
  unfolding parse_loop
  parse_loop-blanks [] fuel need pos mem {ts} size {stale} h le next = Splits-size (omega arith) (
      subst (λ p. Splits (parse_loop fuel max_cnt n p mem) p ts size stale) (omega arith)
        (next fuel (omega arith)))
  parse_loop-blanks (b ∷ sp) zero need pos mem size h le next = absurd (omega arith)
  parse_loop-blanks (b ∷ sp) (suc fuel) need pos mem {ts} size {stale} h le next = rw (blank_step) (
      Splits-size (omega arith) (
        Splits-moved pos (b ∷ []) (length sp + size)
          (parse_loop-blanks sp fuel need (pos + 1) mem size h.1 (omega arith) shifted)))
    where
      blank_step :
          parse_loop (suc fuel) max_cnt n pos (b ∷ (sp ++ mem))
          ≡ moved (b ∷ []) (parse_loop fuel max_cnt n (pos + 1) (sp ++ mem))
      blank_step = ground (arith, h.0)

      shifted :
          (f : ℕ)
          → need ≤ f
          → Splits
              (parse_loop f max_cnt n (pos + 1 + length sp) mem)
              (pos + 1 + length sp)
              ts
              size
              stale
      shifted f k =
          subst (λ p. Splits (parse_loop f max_cnt n p mem) p ts size stale) (omega arith)
            (next f k)

plain_stops : (w : List ℕ) → Every IsPlain w → Every (λ b. (b ≢ 0) × (has (brk false) b ≡ false)) w
unfolding has
plain_stops [] h = tt
plain_stops (b ∷ w) h = ((h.0.0, ground (arith, h.0)), plain_stops w h.1)

inner_stops : (t : List ℕ) → Every IsInner t → Every (λ b. (b ≢ 0) × (has (brk true) b ≡ false)) t
unfolding has
inner_stops [] h = tt
inner_stops (b ∷ t) h = ((h.0.0, ground (arith, h.0)), inner_stops t h.1)

blank_stops : (e : ℕ) → IsBlank e ⊎ (e ≡ 0) → (has (brk false) e ≡ true) ⊎ (e ≡ 0)
unfolding has
blank_stops e (inl (inl h)) = inl (ground arith)
blank_stops e (inl (inr h)) = inl (ground arith)
blank_stops e (inr h) = inr h

pub no_nul :
    {P : ℕ → Type 0} (t : List ℕ) → ((b : ℕ) → P b → b ≢ 0) → Every P t → Every (λ b. b ≢ 0) t
no_nul [] f h = tt
no_nul (b ∷ t) f h = (f b h.0, no_nul t f h.1)

-- What is found if there is room, and if there is not.
unfoldable pub found : Bool → ℕ → List ℕ → Parsed → List ℕ → Parsed
found room pos t after rest =
    if room then stored pos (moved t after) else moved t (cut_argument rest)

module _ (next : ℕ → List ℕ → Parsed) (room : Bool) (pos : ℕ) where
  pub take_word :
      (c : ℕ) (w : List ℕ) (e : ℕ) (mem : List ℕ)
      → IsItem (bare c w)
      → IsBlank e ⊎ (e ≡ 0)
      → take_argument next room false pos (c ∷ (w ++ (e ∷ mem)))
        ≡ found room pos
            (c ∷ w)
            (after_argument next false (pos + length (c ∷ w)) (e ∷ mem))
            (e ∷ mem)
  unfolding take_argument found
  take_word c w e mem h stop = rw (
    strpbrk-word (brk false) c w e mem (plain_stops (c ∷ []) (h.1, tt)).0.1 (plain_stops w h.2)
        (blank_stops e stop),
    take_argument,
  )

  pub take_quoted :
      (t : List ℕ) (mem : List ℕ)
      → Every IsInner t
      → take_argument next room true pos (t ++ (b'"' ∷ mem))
        ≡ found room pos t (after_argument next true (pos + length t) (b'"' ∷ mem)) (b'"' ∷ mem)
  unfolding take_argument found has
  take_quoted t mem h =
      rw (strpbrk-text (brk true) t b'"' mem (inner_stops t h) refl, take_argument)

pub take-nil : (n : ℕ) → take {A = List ℕ} n [] ≡ []
take-nil zero = refl
take-nil (suc n) = refl

take-room :
    (k n : ℕ) (t : List ℕ) (ts : List (List ℕ))
    → n < k
    → take (k - n) (t ∷ ts) ≡ t ∷ take (k - (n + 1)) ts
take-room k n t ts h = rw (left) refl
  where
    left : k - n ≡ suc (k - (n + 1))
    left = omega arith

take-full : (k n : ℕ) (ts : List (List ℕ)) → n ≤ k → ltb n k ≡ false → take (k - n) ts ≡ []
take-full k n ts le full = rw (left) refl
  where
    left : k - n ≡ 0
    left = ground arith

-- The rest of the line is found from the next argument on.
abbrev pub Onward : ℕ → ℕ → List Entry → List ℕ → ℕ → Type 0
Onward max_cnt n es stale need =
    (f p : ℕ)
    → need ≤ f
    → Splits (parse_loop f max_cnt n p (render es ++ (0 ∷ stale))) p (take (max_cnt - n) (texts es))
        (length (render es)) stale

module _ (max_cnt n fuel pos : ℕ) (es : List Entry) (stale : List ℕ) where
  abbrev pub onward : ℕ → List ℕ → Parsed
  onward = parse_loop fuel max_cnt (n + 1)

  abbrev pub end_of_line : List ℕ → List ℕ
  end_of_line sp = sp ++ (render es ++ (0 ∷ stale))

  -- With no room the rest of the line stays as it is.
  cut_rest :
      (t sp : List ℕ)
      → Splits
          (moved t (some (0 ∷ end_of_line sp, [])))
          pos
          []
          (length t + (1 + (length sp + length (render es))))
          stale
  cut_rest t sp =
      subst
        (λ m.
          Splits (moved t (some (0 ∷ m, []))) pos []
            (length t + (1 + (length sp + length (render es)))) stale)
        (append_assoc sp (render es) (0 ∷ stale))
        (Splits-size (omega (arith, length-append sp (render es))) (
          Splits-moved pos t (suc (length (sp ++ render es)))
            (Splits-end (pos + length t) (0 ∷ (sp ++ render es)) stale)))

  -- A word, a blank, and the rest.
  pub word_blank :
      (c : ℕ) (w : List ℕ) (b : ℕ) (sp : List ℕ)
      → IsItem (bare c w)
      → Every IsBlank (b ∷ sp)
      → n ≤ max_cnt
      → length sp + suc (length (render es)) ≤ fuel
      → (n < max_cnt → Onward max_cnt (n + 1) es stale (suc (length (render es))))
      → Splits
          (take_argument onward (ltb n max_cnt) false pos (c ∷ (w ++ (b ∷ end_of_line sp))))
          pos
          (take (max_cnt - n) ((c ∷ w) ∷ texts es))
          (suc (length w) + (1 + (length sp + length (render es))))
          stale
  unfolding found after_argument after_end cut_argument
  word_blank c w b sp item blanks le enough ih =
      rw (take_word onward (ltb n max_cnt) pos c w b (end_of_line sp) item (inl blanks.0))
        (elim (Bool-cases (ltb n max_cnt)) [
          | inl room ↦
              rw (room, take-room max_cnt n (c ∷ w) (texts es) (ground arith), not_nul)
                (Splits-argument pos (c ∷ w) (length sp + length (render es))
                  (item.1.0, no_nul w (λ x p. p.0) item.2)
                  (parse_loop-blanks max_cnt (n + 1) sp fuel (suc (length (render es)))
                    (pos + length (c ∷ w) + 1) (render es ++ (0 ∷ stale)) (length (render es))
                    blanks.1 enough
                    (λ f. ih (ltb→lt n max_cnt room) f (pos + length (c ∷ w) + 1 + length sp))))
          | inr full ↦
              rw (full, take-full max_cnt n ((c ∷ w) ∷ texts es) le full) (cut_rest (c ∷ w) sp)
        ])
    where
      not_nul : (b == 0) ≡ false
      not_nul = ground (arith, blanks.0)

  -- A quoted text, the blank that is passed with it, and the rest.
  pub quoted_blank :
      (t : List ℕ) (b : ℕ) (sp : List ℕ)
      → Every IsInner t
      → Every IsBlank (b ∷ sp)
      → n ≤ max_cnt
      → length sp + suc (length (render es)) ≤ fuel
      → (n < max_cnt → Onward max_cnt (n + 1) es stale (suc (length (render es))))
      → Splits
          (take_argument onward (ltb n max_cnt) true pos (t ++ (b'"' ∷ (b ∷ end_of_line sp))))
          pos
          (take (max_cnt - n) (t ∷ texts es))
          (length t + (1 + (1 + (length sp + length (render es)))))
          stale
  unfolding found after_argument after_end cut_argument
  quoted_blank t b sp inner blanks le enough ih =
      rw (take_quoted onward (ltb n max_cnt) pos t (b ∷ end_of_line sp) inner)
        (elim (Bool-cases (ltb n max_cnt)) [
          | inl room ↦
              rw (room, take-room max_cnt n t (texts es) (ground arith))
                (Splits-argument pos t (1 + (length sp + length (render es)))
                  (no_nul t (λ x p. p.0) inner)
                  (Splits-moved (pos + length t + 1) (b ∷ []) (length sp + length (render es)) (
                    parse_loop-blanks max_cnt (n + 1) sp fuel (suc (length (render es)))
                      (pos + length t + 1 + 1) (render es ++ (0 ∷ stale)) (length (render es))
                      blanks.1 enough
                      (λ f. ih (ltb→lt n max_cnt room) f (pos + length t + 1 + 1 + length sp)))))
          | inr full ↦
              rw (full, take-full max_cnt n (t ∷ texts es) le full)
                (Splits-size (omega arith) (cut_rest t (b ∷ sp)))
        ])

-- A word that ends the line.
pub word_end :
    (max_cnt n pos : ℕ) (next : ℕ → List ℕ → Parsed) (stale : List ℕ) (c : ℕ) (w : List ℕ)
    → IsItem (bare c w)
    → n ≤ max_cnt
    → Splits
        (take_argument next (ltb n max_cnt) false pos (c ∷ (w ++ (0 ∷ stale))))
        pos
        (take (max_cnt - n) ((c ∷ w) ∷ []))
        (suc (length w) + 0)
        stale
unfolding found after_argument cut_argument
word_end max_cnt n pos next stale c w item le =
    rw (take_word next (ltb n max_cnt) pos c w 0 stale item (inr refl))
      (elim (Bool-cases (ltb n max_cnt)) [
        | inl room ↦
            rw (room, take-room max_cnt n (c ∷ w) [] (ground arith), take-nil)
              (Splits-last pos (c ∷ w) (item.1.0, no_nul w (λ x p. p.0) item.2))
        | inr full ↦
            rw (full, take-full max_cnt n ((c ∷ w) ∷ []) le full)
              (Splits-moved pos (c ∷ w) 0 (Splits-end (pos + suc (length w)) [] stale))
      ])
