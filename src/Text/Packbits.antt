-- ===== src/Text/Packbits.antt =====
-- src/core/common.c: `packbits`, the run-length coder of the screenshots. `out` holds the bytes
-- dest[0] to dest[pk - 1]; the source is read from index `i` on.
pub mod Decoder
pub mod RoundTrip
use nano_vna_x.Base.{
  ℕ, zero, suc, ◌+◌, ◌-◌, ◌≤◌, ◌<◌, min, Bool, true, false, List, [], ◌∷◌, ◌++◌, length, set, drop,
  ltb, ◌==◌, ◌&&◌, if◌then◌else◌,
}

pub record Packer : Type 0 where
  pub out : List ℕ
  -- where the header of the open block stands; 0 also says that there is none
  pub sz : ℕ

-- The `for` loop: how many bytes from here on repeat `c`, at most `max_rle`.
pub run_length : ℕ → ℕ → List ℕ → ℕ
run_length zero c source = 0
run_length (suc max_rle) c [] = 0
run_length (suc max_rle) c (b ∷ source) = if b == c then suc (run_length max_rle c source) else 0

-- sz = pk++; the byte is written when the block's size is known.
abbrev pub open_block : Packer → Packer
open_block s = record { out = s.out ++ 0 ∷ []; sz = length s.out }

-- dest[pk++] = c, then the size of the run, or the size of the literal block so far.
pub write_byte : Packer → ℕ → ℕ → Packer
write_byte s c rle =
    let out = s.out ++ c ∷ [] in
    let count = length out - s.sz - 2 in
    if ltb 0 rle
    then record { out = set out s.sz (256 - rle); sz = 0 }
    else record { out = set out s.sz count; sz = if ltb count 127 then s.sz else 0 }

-- A run of fewer than three bytes inside a literal block is not coded as a run.
abbrev pub usable_run : Packer → ℕ → ℕ
usable_run s rle = if ltb 0 s.sz && ltb rle 2 then 0 else rle

-- One round of the `while` loop, for the byte `c` and the run behind it. A new block is opened if
-- none is open or the run is usable.
pub pack_step : Packer → ℕ → ℕ → Packer
unfolding write_byte
pack_step s c rle =
    if ltb 0 s.sz && ltb rle 2
    then write_byte s c 0
    else if s.sz == 0
    then write_byte (open_block s) c rle
    else if ltb 0 rle
    then write_byte (open_block s) c rle
    else write_byte s c rle

pub pack_loop : ℕ → Packer → List ℕ → Packer
unfolding run_length pack_step
pack_loop zero s source = s
pack_loop (suc fuel) s [] = s
pack_loop (suc fuel) s (c ∷ source) =
    let rle = run_length (min (suc (length source)) 128 - 1) c source in
    pack_loop fuel (pack_step s c rle) (drop (usable_run s rle) source)

-- Each round takes one byte at least, so the length of the source is fuel enough.
unfoldable pub packbits : List ℕ → List ℕ
unfolding pack_loop
packbits source = (pack_loop (length source) (record { out = []; sz = 0 }) source).out
