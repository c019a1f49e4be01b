-- ===== src/Storage/Checksum.antt =====
-- What the checksum of a block detects, and that a block that is sealed is valid.
use nano_vna_x.Base.{
  ℕ, ◌+◌, ◌%◌, ◌^◌, ◌<◌, ◌≡◌, ◌≢◌, refl, true, List, [], ◌∷◌, ◌++◌, ◌==◌, ==_iff, arith,
}
use nano_vna_x.Storage.Blocks.{
  ror31, checksum_from, checksum, Config, Properties, config_words, properties_words, config_valid,
  properties_valid, seal_config, seal_properties,
}

==_self : (n : ℕ) → (n == n) ≡ true
==_self n = (==_iff n n).1 refl

pub seal_properties_valid : (p : Properties) → properties_valid (seal_properties p) ≡ true
unfolding properties_valid seal_properties properties_words
seal_properties_valid p = ==_self _

pub seal_config_valid : (c : Config) → config_valid (seal_config c) ≡ true
unfolding config_valid seal_config config_words
seal_config_valid c = ==_self _

sum-cancel : (a b w : ℕ) → a < 2 ^ 32 → b < 2 ^ 32 → (a + w) % 2 ^ 32 ≡ (b + w) % 2 ^ 32 → a ≡ b
sum-cancel a b w ha hb e = omega arith

ror31-cancel : (a b : ℕ) → a < 2 ^ 32 → b < 2 ^ 32 → ror31 a ≡ ror31 b → a ≡ b
unfolding ror31
ror31-cancel a b ha hb e = omega arith

ror31-lt : (a : ℕ) → a < 2 ^ 32 → ror31 a < 2 ^ 32
unfolding ror31
ror31-lt a ha = omega arith

-- One round keeps a difference in the value, and one in the word.
round-value :
    (a b w : ℕ) → a < 2 ^ 32 → b < 2 ^ 32 → a ≢ b → (ror31 a + w) % 2 ^ 32 ≢ (ror31 b + w) % 2 ^ 32
round-value a b w ha hb ne e =
    ne (ror31-cancel a b ha hb (sum-cancel _ _ w (ror31-lt a ha) (ror31-lt b hb) e))

round-word :
    (v a b : ℕ) → a < 2 ^ 32 → b < 2 ^ 32 → a ≢ b → (ror31 v + a) % 2 ^ 32 ≢ (ror31 v + b) % 2 ^ 32
round-word v a b ha hb ne e = ne (omega arith)

checksum_from-value :
    (words : List ℕ) (a b : ℕ)
    → a < 2 ^ 32
    → b < 2 ^ 32
    → a ≢ b
    → checksum_from a words ≢ checksum_from b words
unfolding checksum_from
checksum_from-value [] a b ha hb ne e = ne e
checksum_from-value (w ∷ words) a b ha hb ne e =
    checksum_from-value words _ _ (omega arith) (omega arith) (round-value a b w ha hb ne) e

checksum_from-word :
    (before after : List ℕ) (v a b : ℕ)
    → a < 2 ^ 32
    → b < 2 ^ 32
    → a ≢ b
    → checksum_from v (before ++ a ∷ after) ≢ checksum_from v (before ++ b ∷ after)
unfolding checksum_from
checksum_from-word [] after v a b ha hb ne e =
    checksum_from-value after _ _ (omega arith) (omega arith) (round-word v a b ha hb ne) e
checksum_from-word (w ∷ before) after v a b ha hb ne e =
    checksum_from-word before after _ a b ha hb ne e

-- Two blocks that differ in exactly one 32-bit word have different checksums.
pub checksum-word :
    (before after : List ℕ) (a b : ℕ)
    → a < 2 ^ 32
    → b < 2 ^ 32
    → a ≢ b
    → checksum (before ++ a ∷ after) ≢ checksum (before ++ b ∷ after)
unfolding checksum
checksum-word before after a b ha hb ne = checksum_from-word before after 0 a b ha hb ne
