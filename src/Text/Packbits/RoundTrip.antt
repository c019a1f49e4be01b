-- ===== src/Text/Packbits/RoundTrip.antt =====
-- What `packbits` writes decodes to its source.
use nano_vna_x.Base.{
  ◌∙◌, lt→ltb, ℕ_discrete, ℕ, zero, suc, ◌-◌, ◌≤◌, ◌<◌, ◌≡◌, ◌≢◌, refl, ap, subst, sym, inl, inr,
  min, true, false, List, [], ◌∷◌, ◌++◌, length, drop, set, replicate, ltb, ◌==◌, arith,
  length-append, length-drop, append_assoc, append-nil, set-length-append, Bool-cases,
}
use nano_vna_x.Text.Packbits.{
  Packer, run_length, open_block, write_byte, usable_run, pack_step, pack_loop, packbits,
}
use nano_vna_x.Text.Packbits.Decoder.{
  Decodes, unpack, Decodes-append, Decodes-literal, Decodes-run, unpack-Decodes,
}

-- A literal block is open: its header stands at `sz`, behind coded blocks.
record Open (s : Packer) (source : List ℕ) : Type 0 where
  front : List ℕ
  count : ℕ
  bytes : List ℕ
  decoded : List ℕ
  at_header : length front ≡ s.sz
  written : s.out ≡ front ++ (count ∷ bytes)
  sized : length bytes ≡ suc count
  room : count < 127
  coded : Decodes front decoded
  read : source ≡ decoded ++ bytes

-- What the packer has written codes the part of the source that it has taken.
data Packed (s : Packer) (source : List ℕ) : Type 0 where
  closed : s.sz ≡ 0 → Decodes s.out source → Packed s source
  literal_open : s.sz ≢ 0 → Open s source → Packed s source

Open-Decodes : (s : Packer) (source : List ℕ) → Open s source → Decodes s.out source
Open-Decodes s source o =
    rw (o.written, o.read)
      (Decodes-append o.coded (Decodes-literal o.count o.bytes (omega arith) o.sized))

Packed-Decodes : (s : Packer) (source : List ℕ) → Packed s source → Decodes s.out source
Packed-Decodes s source (closed z d) = d
Packed-Decodes s source (literal_open z o) = Open-Decodes s source o

-- A byte into a fresh block.
fresh_block :
    (s : Packer) (source : List ℕ) (c rle : ℕ)
    → rle < 128
    → Decodes s.out source
    → Packed (write_byte (open_block s) c rle) (source ++ replicate (suc rle) c)
unfolding write_byte
fresh_block s source c zero small d =
    rw (size, put)
      (elim (ℕ_discrete (length s.out) 0) [
        | yes e ↦ closed e block
        | no n ↦ literal_open n (record {
          front = s.out;
          count = 0;
          bytes = c ∷ [];
          decoded = source;
          at_header = refl;
          written = refl;
          sized = refl;
          room = omega arith;
          coded = d;
          read = refl;
        })
      ])
  where
    size : length ((s.out ++ 0 ∷ []) ++ c ∷ []) - length s.out - 2 ≡ 0
    size = omega (arith, length-append (s.out ++ 0 ∷ []) (c ∷ []), length-append s.out (0 ∷ []))

    put : set ((s.out ++ 0 ∷ []) ++ c ∷ []) (length s.out) 0 ≡ s.out ++ 0 ∷ c ∷ []
    put =
        rw (append_assoc s.out (0 ∷ []) (c ∷ []))
          (set-length-append s.out 0 (c ∷ []) (length s.out) 0 refl)

    block : Decodes (s.out ++ 0 ∷ c ∷ []) (source ++ c ∷ [])
    block = Decodes-append d (Decodes-literal 0 (c ∷ []) (omega arith) refl)
fresh_block s source c (suc rle) small d =
    rw (lt→ltb 0 (suc rle) (omega arith), put)
      (closed refl (Decodes-append d (Decodes-run (suc rle) c (omega arith) small)))
  where
    put :
        set ((s.out ++ 0 ∷ []) ++ c ∷ []) (length s.out) (256 - suc rle)
        ≡ s.out ++ (256 - suc rle) ∷ c ∷ []
    put =
        rw (append_assoc s.out (0 ∷ []) (c ∷ []))
          (set-length-append s.out 0 (c ∷ []) (length s.out) (256 - suc rle) refl)

-- A byte into the open literal block.
more_literal :
    (s : Packer) (source : List ℕ) (c : ℕ)
    → s.sz ≢ 0
    → Open s source
    → Packed (write_byte s c 0) (source ++ c ∷ [])
unfolding write_byte
more_literal s source c nz o =
    rw (size, put)
      (elim (Bool-cases (ltb (suc o.count) 127)) [
        | inl e ↦ rw e (
            literal_open nz (record {
              front = o.front;
              count = suc o.count;
              bytes = o.bytes ++ c ∷ [];
              decoded = o.decoded;
              at_header = o.at_header;
              written = refl;
              sized = longer;
              room = ground arith;
              coded = o.coded;
              read = grown;
            }))
        | inr e ↦ rw e (
            closed refl (
              rw grown (
                Decodes-append o.coded
                  (Decodes-literal (suc o.count) (o.bytes ++ c ∷ []) (omega arith) longer))))
      ])
  where
    longer : length (o.bytes ++ c ∷ []) ≡ suc (suc o.count)
    longer = omega (arith, o.sized, length-append o.bytes (c ∷ []))

    grown : source ++ c ∷ [] ≡ o.decoded ++ (o.bytes ++ c ∷ [])
    grown = rw o.read (append_assoc o.decoded o.bytes (c ∷ []))

    size : length (s.out ++ c ∷ []) - s.sz - 2 ≡ suc o.count
    size = omega (
      arith,
      o.sized,
      o.at_header,
      length-append s.out (c ∷ []),
      ap length o.written,
      length-append o.front (o.count ∷ o.bytes),
    )

    put : set (s.out ++ c ∷ []) s.sz (suc o.count) ≡ o.front ++ suc o.count ∷ (o.bytes ++ c ∷ [])
    put =
        rw (o.written, append_assoc o.front (o.count ∷ o.bytes) (c ∷ []))
          (set-length-append o.front o.count (o.bytes ++ c ∷ []) s.sz (suc o.count) o.at_header)

-- A round takes the byte `c` and the bytes of a usable run.
pack_step-Packed :
    (s : Packer) (source : List ℕ) (c rle : ℕ)
    → rle < 128
    → Packed s source
    → Packed (pack_step s c rle) (source ++ replicate (suc (usable_run s rle)) c)
unfolding pack_step
pack_step-Packed s source c rle small (closed z d) =
    rw (none_open, z) (fresh_block s source c rle small d)
  where
    none_open : ltb 0 s.sz ≡ false
    none_open = ground arith
pack_step-Packed s source c rle small (literal_open nz o) = elim (Bool-cases (ltb rle 2)) [
  | inl e ↦ rw (one_open, e) (more_literal s source c nz o)
  | inr e ↦
      rw (one_open, e, not_none, some_run e)
        (rw (some_run e) at (fresh_block s source c rle small (Open-Decodes s source o)))
]
  where
    one_open : ltb 0 s.sz ≡ true
    one_open = ground arith

    not_none : (s.sz == 0) ≡ false
    not_none = ground arith

    some_run : ltb rle 2 ≡ false → ltb 0 rle ≡ true
    some_run e = ground arith

run_length-le : (m c : ℕ) (source : List ℕ) → run_length m c source ≤ m
unfolding run_length
run_length-le zero c source = omega arith
run_length-le (suc m) c [] = omega arith
run_length-le (suc m) c (b ∷ source) = ground (arith, run_length-le m c source)

-- The bytes that a run takes off the source all equal its first byte.
take_run :
    (m c n : ℕ) (source : List ℕ)
    → n ≤ run_length m c source
    → replicate n c ++ drop n source ≡ source
unfolding run_length
take_run m c zero source h = refl
take_run zero c (suc n) source h = absurd (omega arith)
take_run (suc m) c (suc n) [] h = absurd (omega arith)
take_run (suc m) c (suc n) (b ∷ source) h = elim (Bool-cases (b == c)) [
  | inl e ↦ ground (arith, take_run m c n source)
  | inr e ↦ absurd (ground arith)
]

usable_run-le : (s : Packer) (rle : ℕ) → usable_run s rle ≤ rle
usable_run-le s rle = ground arith

-- The rounds keep the invariant to the end of the source.
pack_loop-Packed :
    (fuel : ℕ) (s : Packer) (source rest : List ℕ)
    → length rest ≤ fuel
    → Packed s source
    → Packed (pack_loop fuel s rest) (source ++ rest)
unfolding pack_loop
pack_loop-Packed zero s source [] h p = subst (Packed s) (sym (append-nil source)) p
pack_loop-Packed zero s source (c ∷ rest) h p = absurd (omega arith)
pack_loop-Packed (suc fuel) s source [] h p = subst (Packed s) (sym (append-nil source)) p
pack_loop-Packed (suc fuel) s source (c ∷ rest) h p = subst (Packed _) whole (
    pack_loop-Packed fuel (pack_step s c rle) (source ++ replicate (suc used) c) (drop used rest)
      (omega (arith, length-drop used rest))
      (pack_step-Packed s source c rle (omega (arith, run_length-le longest c rest)) p))
  where
    longest : ℕ
    longest = min (suc (length rest)) 128 - 1

    rle : ℕ
    rle = run_length longest c rest

    used : ℕ
    used = usable_run s rle

    whole : (source ++ replicate (suc used) c) ++ drop used rest ≡ source ++ c ∷ rest
    whole =
        append_assoc source (replicate (suc used) c) (drop used rest)
        ∙ ap (λ r. source ++ c ∷ r) (take_run longest c used rest (usable_run-le s rle))

-- For every source, what `packbits` writes decodes to the source.
pub unpack-packbits :
    (source : List ℕ) → unpack (length (packbits source)) (packbits source) ≡ source
unfolding packbits
unpack-packbits source =
    unpack-Decodes _
      (Packed-Decodes _ _
        (pack_loop-Packed (length source) _ [] source (omega arith) (closed refl Decodes.done)))
      (omega arith)
