-- ===== src/Text/Line/Split.antt =====
-- What `parse_line` finds in a line of words and quoted texts.
use nano_vna_x.Base.{
  ℕ, zero, suc, ◌+◌, ◌-◌, ◌≤◌, ◌≡◌, ◌≢◌, ◌⊎◌, inl, refl, ap, sym, ◌∙◌, true, false, some, List, [],
  ◌∷◌, ◌++◌, length, drop, ◌==◌, if◌then◌else◌, arith, Every, append_assoc, length-append,
}
use nano_vna_x.Text.Line.{has, span_from, strpbrk, Parsed, moved, stored}

-- The text that a pointer reads: the bytes before the first NUL.
unfoldable pub c_string : List ℕ → List ℕ
c_string [] = []
c_string (b ∷ mem) = if b == 0 then [] else b ∷ c_string mem

-- Memory from `pos` on; the arguments point at these texts.
abbrev pub Reads : ℕ → List ℕ → List ℕ → List (List ℕ) → Type 0
Reads pos mem [] [] = Unit
Reads pos mem [] (t ∷ ts) = ⊥
Reads pos mem (a ∷ args) [] = ⊥
Reads pos mem (a ∷ args) (t ∷ ts) =
    (pos ≤ a) × (c_string (drop (a - pos) mem) ≡ t) × Reads pos mem args ts

-- The call returns; its arguments read as `texts`; `size` bytes on stands the NUL with `stale`.
pub record Splits (r : Parsed) (pos : ℕ) (ts : List (List ℕ)) (size : ℕ) (stale : List ℕ)
    : Type 0 where
  pub mem : List ℕ
  pub args : List ℕ
  pub body : List ℕ
  pub returns : r ≡ some (mem, args)
  pub reads : Reads pos mem args ts
  pub kept : mem ≡ body ++ (0 ∷ stale)
  pub sized : length body ≡ size

drop_past :
    (bs mem : List ℕ) (n : ℕ) → length bs ≤ n → drop n (bs ++ mem) ≡ drop (n - length bs) mem
drop_past [] mem n h = ap (λ k. drop k mem) (omega arith)
drop_past (b ∷ bs) mem zero h = absurd (omega arith)
drop_past (b ∷ bs) mem (suc n) h =
    drop_past bs mem n (omega arith) ∙ ap (λ k. drop k mem) (omega arith)

Reads-moved :
    (pos : ℕ) (bs mem args : List ℕ) (ts : List (List ℕ))
    → Reads (pos + length bs) mem args ts
    → Reads pos (bs ++ mem) args ts
Reads-moved pos bs mem [] [] h = tt
Reads-moved pos bs mem [] (t ∷ ts) h = h
Reads-moved pos bs mem (a ∷ args) [] h = h
Reads-moved pos bs mem (a ∷ args) (t ∷ ts) (le, at, rest) = (
  omega arith,
  rw (drop_past bs mem (a - pos) (omega arith), regroup) at_text,
  Reads-moved pos bs mem args ts rest,
)
  where
    regroup : a - pos - length bs ≡ a - (pos + length bs)
    regroup = omega arith

    at_text : c_string (drop (a - (pos + length bs)) mem) ≡ t
    at_text = at

-- The pointer passes bytes that hold no argument.
pub Splits-moved :
    {r : Parsed} {ts : List (List ℕ)} {stale : List ℕ} (pos : ℕ) (bs : List ℕ) (size : ℕ)
    → Splits r (pos + length bs) ts size stale
    → Splits (moved bs r) pos ts (length bs + size) stale
Splits-moved {ts = ts} {stale} pos bs size s = record {
  mem = bs ++ s.mem;
  args = s.args;
  body = bs ++ s.body;
  returns = rw s.returns;
  reads = Reads-moved pos bs s.mem s.args ts s.reads;
  kept = rw s.kept (sym (append_assoc bs s.body (0 ∷ stale)));
  sized = omega (arith, length-append bs s.body, s.sized);
}

-- An argument is stored that points at its text with a NUL behind it.
pub Splits-stored :
    {r : Parsed} {ts : List (List ℕ)} {stale : List ℕ} (pos : ℕ) (t : List ℕ) (size : ℕ)
    (s : Splits r pos ts size stale)
    → c_string s.mem ≡ t
    → Splits (stored pos r) pos (t ∷ ts) size stale
Splits-stored pos t size s at = record {
  mem = s.mem;
  args = pos ∷ s.args;
  body = s.body;
  returns = rw s.returns;
  reads = (omega arith, rw zero_off at, s.reads);
  kept = s.kept;
  sized = s.sized;
}
  where
    zero_off : pos - pos ≡ 0
    zero_off = omega arith

-- No byte of a text is NUL.
pub c_string-text : (t mem : List ℕ) → Every (λ b. b ≢ 0) t → c_string (t ++ (0 ∷ mem)) ≡ t
unfolding c_string
c_string-text [] mem h = refl
c_string-text (b ∷ t) mem h = ground (arith, c_string-text t mem h.1)

-- No argument is found in what is left of the line.
pub Splits-end :
    (pos : ℕ) (bs stale : List ℕ) → Splits (some (bs ++ (0 ∷ stale), [])) pos [] (length bs) stale
Splits-end pos bs stale = record {
  mem = bs ++ (0 ∷ stale);
  args = [];
  body = bs;
  returns = refl;
  reads = tt;
  kept = refl;
  sized = refl;
}

-- An argument that is followed by more of the line.
pub Splits-argument :
    {r : Parsed} {ts : List (List ℕ)} {stale : List ℕ} (pos : ℕ) (t : List ℕ) (size : ℕ)
    → Every (λ b. b ≢ 0) t
    → Splits r (pos + length t + 1) ts size stale
    → Splits (stored pos (moved t (moved (0 ∷ []) r))) pos (t ∷ ts) (length t + (1 + size)) stale
unfolding Splits-moved
Splits-argument pos t size h s =
    Splits-stored pos t _
      (Splits-moved pos t (1 + size) (Splits-moved (pos + length t) (0 ∷ []) size s))
      (c_string-text t s.mem h)

-- An argument that ends the line.
pub Splits-last :
    {stale : List ℕ} (pos : ℕ) (t : List ℕ)
    → Every (λ b. b ≢ 0) t
    → Splits (stored pos (moved t (some (0 ∷ stale, [])))) pos (t ∷ []) (length t + 0) stale
unfolding Splits-moved Splits-end
Splits-last {stale} pos t h =
    Splits-stored pos t _ (Splits-moved pos t 0 (Splits-end (pos + length t) [] stale))
      (c_string-text t stale h)

-- `_strpbrk` passes the bytes that are neither in the set nor NUL, and stops at the next one.
span_from-text :
    (set : List ℕ) (x : ℕ) (w : List ℕ) (e : ℕ) (mem : List ℕ)
    → has set x ≡ false
    → Every (λ b. (b ≢ 0) × (has set b ≡ false)) w
    → (has set e ≡ true) ⊎ (e ≡ 0)
    → span_from set x (w ++ (e ∷ mem)) ≡ some (x ∷ w, e ∷ mem)
unfolding span_from
span_from-text set x [] e [] h k stop = ground arith
span_from-text set x [] e (y ∷ mem) h k stop = ground arith
span_from-text set x (b ∷ w) e mem h k stop =
    ground (arith, k.0, span_from-text set b w e mem k.0.1 k.1 stop)

pub strpbrk-text :
    (set t : List ℕ) (e : ℕ) (mem : List ℕ)
    → Every (λ b. (b ≢ 0) × (has set b ≡ false)) t
    → has set e ≡ true
    → strpbrk set (t ++ (e ∷ mem)) ≡ some (t, e ∷ mem)
unfolding strpbrk
strpbrk-text set [] e [] k stop = ground arith
strpbrk-text set [] e (y ∷ mem) k stop = ground arith
strpbrk-text set (x ∷ w) e mem k stop = span_from-text set x w e mem k.0.1 k.1 (inl stop)

pub strpbrk-word :
    (set : List ℕ) (x : ℕ) (w : List ℕ) (e : ℕ) (mem : List ℕ)
    → has set x ≡ false
    → Every (λ b. (b ≢ 0) × (has set b ≡ false)) w
    → (has set e ≡ true) ⊎ (e ≡ 0)
    → strpbrk set (x ∷ (w ++ (e ∷ mem))) ≡ some (x ∷ w, e ∷ mem)
unfolding strpbrk
strpbrk-word set x w e mem h k stop = span_from-text set x w e mem h k stop
