-- ===== src/Text/Line/Layout.antt =====
-- Command lines as a user writes them: words and quoted texts, each with the blanks behind it.
use nano_vna_x.Base.{ℕ, ◌≡◌, ◌≢◌, ◌⊎◌, List, [], ◌∷◌, ◌++◌, Every}

pub data Item : Type 0 where
  bare : ℕ → List ℕ → Item
  quoted : List ℕ → Item

-- What the command is to see of an item.
abbrev pub text_of : Item → List ℕ
text_of (bare c w) = c ∷ w
text_of (quoted t) = t

abbrev pub Entry : Type 0
Entry = Item × List ℕ

-- The line as it is typed.
abbrev pub render : List Entry → List ℕ
render [] = []
render ((bare c w, sp) ∷ es) = c ∷ (w ++ (sp ++ render es))
render ((quoted t, sp) ∷ es) = b'"' ∷ (t ++ (b'"' ∷ (sp ++ render es)))

abbrev pub texts : List Entry → List (List ℕ)
texts [] = []
texts ((it, sp) ∷ es) = text_of it ∷ texts es

abbrev pub IsBlank : ℕ → Type 0
IsBlank b = (b ≡ b' ') ⊎ (b ≡ 9)

-- A character of a word is no blank and no NUL; one of a quoted text is no quote and no NUL.
abbrev pub IsPlain : ℕ → Type 0
IsPlain b = (b ≢ 0) × (b ≢ b' ') × (b ≢ 9)

abbrev pub IsInner : ℕ → Type 0
IsInner b = (b ≢ 0) × (b ≢ b'"')

abbrev pub IsItem : Item → Type 0
IsItem (bare c w) = (c ≢ b'"') × IsPlain c × Every IsPlain w
IsItem (quoted t) = Every IsInner t

-- Every item has a blank behind it, but for a word that ends the line.
abbrev pub Apart : Item → List ℕ → List Entry → Type 0
Apart it (b ∷ sp) es = Unit
Apart (bare c w) [] [] = Unit
Apart (bare c w) [] (e ∷ es) = ⊥
Apart (quoted t) [] es = ⊥

abbrev pub IsLine : List Entry → Type 0
IsLine [] = Unit
IsLine ((it, sp) ∷ es) = IsItem it × Every IsBlank sp × Apart it sp es × IsLine es
