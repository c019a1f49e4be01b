-- ===== src/Shell/LineEdit/Laws.antt =====
-- What the line editor of the shell reads.
use nano_vna_x.Base.{
  ℕ, zero, suc, ◌+◌, ◌-◌, ◌≤◌, ◌<◌, ◌≡◌, ◌≢◌, refl, ap, sym, subst, map, ◌∙◌, Bool, true, false,
  Option, some, List, [], ◌∷◌, ◌++◌, length, ◌==◌, ◌&&◌, if◌then◌else◌, arith, append-nil,
  append_assoc, length-append, Every, Bool-cases, inl, inr,
}
use mathlib.Core.Option.{some-injective}
use nano_vna_x.Shell.LineEdit.{
  ReadLine, newline, without_last, is_erase, is_dropped, edited, echo, ends_line, read_loop,
  vna_shell_read_line,
}

-- A byte that is put into the line where there is room.
abbrev pub IsShown : ℕ → Type 0
IsShown c = (32 ≤ c) × (c ≢ 127)

shown-step :
    (max_size : ℕ) (line : List ℕ) (c : ℕ)
    → IsShown c
    → length line + 1 < max_size
    → (ends_line false c ≡ false)
      × (edited max_size line c ≡ line ++ c ∷ [])
      × (echo max_size line c ≡ c ∷ [])
unfolding ends_line edited echo
shown-step max_size line c shown room = (ground arith, ground arith, ground arith)

read_loop-shown :
    (max_size : ℕ) (line written text input : List ℕ)
    → Every IsShown text
    → length line + length text < max_size
    → read_loop max_size false line written (text ++ input)
      ≡ read_loop max_size false (line ++ text) (written ++ text) input
unfolding read_loop
read_loop-shown max_size line written [] input shown room =
    let p = sym (append-nil line) in
    let q = sym (append-nil written) in λ i. read_loop max_size false (p i) (q i) input
read_loop-shown max_size line written (c ∷ text) input shown room =
    let (goes_on, adds, shows) = shown-step max_size line c shown.0 (omega arith) in
    rw (goes_on, adds, shows)
      (read_loop-shown max_size (line ++ c ∷ []) (written ++ c ∷ []) text input shown.1
          (omega (arith, length-append line (c ∷ [])))
        ∙ (λ i.
            read_loop max_size false (append_assoc line (c ∷ []) text i)
              (append_assoc written (c ∷ []) text i) input))

-- What is written does not change what is read.
read_loop-written :
    (max_size : ℕ) (skip : Bool) (line w w' input : List ℕ)
    → (read_loop max_size skip line w input).line ≡ (read_loop max_size skip line w' input).line
unfolding read_loop
read_loop-written max_size skip line w w' [] = refl
read_loop-written max_size skip line w w' (c ∷ input) = elim (Bool-cases (ends_line skip c)) [
  | inl e ↦ rw e refl
  | inr e ↦ rw e (read_loop-written max_size false _ _ _ input)
]

-- In the line and in the bytes of a line that is read there are only bytes that are shown, fewer
-- than the size of the buffer.
abbrev pub FitsLine : ℕ → List ℕ → Type 0
FitsLine max_size line = Every IsShown line × (length line < max_size)

without_last-FitsLine :
    (max_size : ℕ) (line : List ℕ) → FitsLine max_size line → FitsLine max_size (without_last line)
unfolding without_last
without_last-FitsLine max_size [] h = h
without_last-FitsLine max_size (c ∷ []) h = (tt, omega arith)
without_last-FitsLine max_size (c ∷ c' ∷ cs) h =
    let rest = without_last-FitsLine (max_size - 1) (c' ∷ cs) (h.0.1, omega arith) in
    ((h.0.0, rest.0), omega (arith, rest.1))

Every-snoc :
    (line : List ℕ) (c : ℕ) → Every IsShown line → IsShown c → Every IsShown (line ++ c ∷ [])
Every-snoc [] c h shown = (shown, tt)
Every-snoc (x ∷ line) c h shown = (h.0, Every-snoc line c h.1 shown)

edited-FitsLine :
    (max_size : ℕ) (line : List ℕ) (c : ℕ)
    → FitsLine max_size line
    → FitsLine max_size (edited max_size line c)
unfolding edited
edited-FitsLine max_size line c h = elim (Bool-cases (is_erase c)) [
  | inl e ↦ rw e (without_last-FitsLine max_size line h)
  | inr e ↦ rw e (elim (Bool-cases (is_dropped max_size line c)) [
    | inl d ↦ rw d h
    | inr d ↦ rw d (
      Every-snoc line c h.0 (ground arith),
      omega (
        arith,
        length-append line (c ∷ []),
        (let room : length line + 1 < max_size = ground arith in room),
      ),
    )
  ])
]

next-FitsLine :
    (max_size : ℕ) (skipped : Bool) (line : List ℕ) (c : ℕ)
    → FitsLine max_size line
    → FitsLine max_size (if skipped then line else edited max_size line c)
next-FitsLine max_size true line c h = h
next-FitsLine max_size false line c h = edited-FitsLine max_size line c h

-- The line that a result holds fits.
abbrev pub ReadsFitting : ℕ → ReadLine → Type 0
ReadsFitting max_size r = (l : List ℕ) → r.line ≡ some l → FitsLine max_size l

read_loop-FitsLine :
    (max_size : ℕ) (skip : Bool) (line written input : List ℕ)
    → FitsLine max_size line
    → ReadsFitting max_size (read_loop max_size skip line written input)
unfolding read_loop
read_loop-FitsLine max_size skip line written [] h l e = absurd (cc)
read_loop-FitsLine max_size skip line written (c ∷ input) h l e =
    elim (Bool-cases (ends_line skip c)) [
      | inl over ↦ subst (FitsLine max_size) (some-injective line l (rw over at e)) h
      | inr on ↦
          read_loop-FitsLine max_size false _ _ input
            (next-FitsLine max_size (skip && (c == 10)) line c h) l (rw on at e)
    ]

-- Whatever bytes come, a line that is read into a buffer of at least one byte has only bytes that are
-- shown, and leaves room for its NUL.
pub vna_shell_read_line-FitsLine :
    (max_size : ℕ) (skip : Bool) (input l : List ℕ)
    → 0 < max_size
    → (vna_shell_read_line max_size skip input).line ≡ some l
    → Every IsShown l × (length l < max_size)
unfolding vna_shell_read_line
vna_shell_read_line-FitsLine max_size skip input l some_room e =
    read_loop-FitsLine max_size skip [] [] input (tt, some_room) l e

without_last-snoc : (line : List ℕ) (c : ℕ) → without_last (line ++ c ∷ []) ≡ line
unfolding without_last
without_last-snoc [] c = refl
without_last-snoc (x ∷ []) c = refl
without_last-snoc (x ∷ y ∷ line) c = ap (λ l. x ∷ l) (without_last-snoc (y ∷ line) c)

erase-step :
    (max_size : ℕ) (line : List ℕ) (c : ℕ)
    → is_erase c ≡ true
    → (ends_line false c ≡ false) × (edited max_size line c ≡ without_last line)
unfolding ends_line edited
erase-step max_size line c e = (rw e refl, rw e refl)

read_loop-erase :
    (max_size erase : ℕ) (line written input : List ℕ)
    → is_erase erase ≡ true
    → (read_loop max_size false line written (erase ∷ input)).line
      ≡ (read_loop max_size false (without_last line) written input).line
unfolding read_loop
read_loop-erase max_size erase line written input erases =
    let (goes_on, shorter) = erase-step max_size line erase erases in
    rw (goes_on, shorter) (read_loop-written max_size false (without_last line) _ written input)

-- A byte that is typed and erased again, by 8 or 127, changes nothing of the line that is read.
pub vna_shell_read_line-erase :
    (max_size c erase : ℕ) (text input : List ℕ)
    → Every IsShown text
    → IsShown c
    → is_erase erase ≡ true
    → length text + 1 < max_size
    → (vna_shell_read_line max_size false (text ++ (c ∷ erase ∷ input))).line
      ≡ (vna_shell_read_line max_size false (text ++ input)).line
unfolding vna_shell_read_line
vna_shell_read_line-erase max_size c erase text input shown one erases room =
    ap (λ r. r.line)
      (read_loop-shown max_size [] [] text (c ∷ erase ∷ input) shown (omega arith)
        ∙ read_loop-shown max_size text text (c ∷ []) (erase ∷ input) (one, tt) (omega arith))
    ∙ read_loop-erase max_size erase (text ++ c ∷ []) (text ++ c ∷ []) input erases
    ∙ ap (λ l. (read_loop max_size false l (text ++ c ∷ []) input).line) (without_last-snoc text c)
    ∙ read_loop-written max_size false text (text ++ c ∷ []) text input
    ∙ ap (λ r. r.line) (sym (read_loop-shown max_size [] [] text input shown (omega arith)))

-- Lines that a host sends, each ended by CR LF.
abbrev pub render : List (List ℕ) → List ℕ
render [] = []
render (t ∷ ts) = t ++ (13 ∷ 10 ∷ render ts)

-- As many calls, one after another: the lines, the flag and the bytes not read.
unfoldable pub read_lines : ℕ → ℕ → Bool → List ℕ → List (Option (List ℕ)) × Bool × List ℕ
read_lines zero max_size skip input = ([], skip, input)
read_lines (suc n) max_size skip input =
    let r = vna_shell_read_line max_size skip input in
    let (lines, skip', rest) = read_lines n max_size r.skip_linefeed r.unread in
    (r.line ∷ lines, skip', rest)

abbrev pub FitsAll : ℕ → List (List ℕ) → Type 0
FitsAll max_size [] = Unit
FitsAll max_size (t ∷ ts) = FitsLine max_size t × FitsAll max_size ts

read_line-text :
    (max_size : ℕ) (text rest : List ℕ)
    → FitsLine max_size text
    → vna_shell_read_line max_size false (text ++ (13 ∷ rest))
      ≡ record { line = some text; skip_linefeed = true; unread = rest; written = text ++ newline }
unfolding vna_shell_read_line read_loop ends_line
read_line-text max_size text rest fits =
    read_loop-shown max_size [] [] text (13 ∷ rest) fits.0 (omega arith)

-- The line feed behind a carriage return is not a line of its own.
read_line-skips :
    (max_size : ℕ) (input : List ℕ)
    → vna_shell_read_line max_size true (10 ∷ input) ≡ vna_shell_read_line max_size false input
unfolding vna_shell_read_line read_loop ends_line
read_line-skips max_size input = refl

read_lines-from :
    (max_size : ℕ) (skip : Bool) (ts : List (List ℕ))
    → FitsAll max_size ts
    → (read_lines (length ts) max_size skip (if skip then 10 ∷ render ts else render ts)).0
      ≡ map some ts
unfolding read_lines
read_lines-from max_size skip [] fits = refl
read_lines-from max_size true (t ∷ ts) fits =
    ap (λ r. r.line ∷ (read_lines (length ts) max_size r.skip_linefeed r.unread).0)
      (read_line-skips max_size (render (t ∷ ts))
        ∙ read_line-text max_size t (10 ∷ render ts) fits.0)
    ∙ ap (λ l. some t ∷ l) (read_lines-from max_size true ts fits.1)
read_lines-from max_size false (t ∷ ts) fits =
    ap (λ r. r.line ∷ (read_lines (length ts) max_size r.skip_linefeed r.unread).0)
      (read_line-text max_size t (10 ∷ render ts) fits.0)
    ∙ ap (λ l. some t ∷ l) (read_lines-from max_size true ts fits.1)

-- A host sends texts of bytes that are shown, each shorter than the buffer and ended by CR LF: as
-- many calls read these texts, in order, and no empty line between them.
pub read_lines-render :
    (max_size : ℕ) (ts : List (List ℕ))
    → FitsAll max_size ts
    → (read_lines (length ts) max_size false (render ts)).0 ≡ map some ts
read_lines-render max_size ts fits = read_lines-from max_size false ts fits
