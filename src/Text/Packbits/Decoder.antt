-- ===== src/Text/Packbits/Decoder.antt =====
-- tests/unit/test_common.c: `unpack_packbits`, the decoder that the coder is tested against.
use nano_vna_x.Base.{
  append-nil, ap, subst, lt→ltb, take-length-append, drop-length-append, ℕ, zero, suc, ◌-◌, ◌≤◌,
  ◌<◌, ◌≡◌, refl, false, List, [], ◌∷◌, ◌++◌, length, take, drop, replicate, ltb, if◌then◌else◌,
  arith, length-append, append_assoc,
}

-- The byte that a run repeats.
repeat : ℕ → List ℕ → List ℕ
repeat n [] = []
repeat n (b ∷ p) = replicate n b

-- A header below 128 is followed by one literal byte more than it says; any other by one byte that
-- is repeated once more than its negation says.
unfoldable pub unpack : ℕ → List ℕ → List ℕ
unfolding repeat
unpack zero packed = []
unpack (suc fuel) [] = []
unpack (suc fuel) (header ∷ packed) =
    let literal = take (suc header) packed ++ unpack fuel (drop (suc header) packed) in
    let run = repeat (257 - header) packed ++ unpack fuel (drop 1 packed) in
    if ltb header 128 then literal else run

-- The coded form of a byte sequence, block by block.
pub data Decodes : List ℕ → List ℕ → Type 0 where
  done : Decodes [] []
  literal :
      {packed source : List ℕ} (n : ℕ) (bytes : List ℕ)
      → n < 128
      → length bytes ≡ suc n
      → Decodes packed source
      → Decodes (n ∷ (bytes ++ packed)) (bytes ++ source)
  run :
      {packed source : List ℕ} (n b : ℕ)
      → 0 < n
      → n < 128
      → Decodes packed source
      → Decodes ((256 - n) ∷ b ∷ packed) (replicate (suc n) b ++ source)

pub Decodes-append : {p q s t : List ℕ} → Decodes p s → Decodes q t → Decodes (p ++ q) (s ++ t)
Decodes-append done e = e
Decodes-append {q = q} {t = t} (literal {packed} {source} n bytes h l d) e =
    rw (append_assoc bytes packed q, append_assoc bytes source t)
      (literal n bytes h l (Decodes-append d e))
Decodes-append {q = q} {t = t} (run {packed} {source} n b h l d) e =
    rw (append_assoc (replicate n b) source t) (run n b h l (Decodes-append d e))

pub Decodes-literal :
    (n : ℕ) (bytes : List ℕ) → n < 128 → length bytes ≡ suc n → Decodes (n ∷ bytes) bytes
Decodes-literal n bytes h l =
    subst (λ x. Decodes (n ∷ x) x) (append-nil bytes) (literal n bytes h l done)

pub Decodes-run : (n b : ℕ) → 0 < n → n < 128 → Decodes ((256 - n) ∷ b ∷ []) (replicate (suc n) b)
Decodes-run n b h l =
    subst (λ x. Decodes ((256 - n) ∷ b ∷ []) x) (append-nil (replicate (suc n) b))
      (run n b h l done)

-- The decoder inverts every coded form.
pub unpack-Decodes : (fuel : ℕ) {p s : List ℕ} → Decodes p s → length p ≤ fuel → unpack fuel p ≡ s
unfolding unpack
unpack-Decodes zero done h = refl
unpack-Decodes (suc fuel) done h = refl
unpack-Decodes zero (literal n bytes k l d) h = absurd (omega arith)
unpack-Decodes zero (run n b k l d) h = absurd (omega arith)
unpack-Decodes (suc fuel) (literal {packed} {source} n bytes k l d) h =
    rw
      (
        lt→ltb n 128 k,
        take-length-append bytes packed (suc n) l,
        drop-length-append bytes packed (suc n) l,
      )
      (ap (λ x. bytes ++ x) (unpack-Decodes fuel d (omega (arith, length-append bytes packed))))
unpack-Decodes (suc fuel) (run {packed} {source} n b k l d) h =
    rw (big, count) (ap (λ x. replicate (suc n) b ++ x) (unpack-Decodes fuel d (omega arith)))
  where
    big : ltb (256 - n) 128 ≡ false
    big = ground arith

    count : 257 - (256 - n) ≡ suc n
    count = omega arith
