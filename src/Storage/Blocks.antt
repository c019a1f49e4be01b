-- ===== src/Storage/Blocks.antt =====
-- The blocks that src/sys/config_service.c keeps in the flash: the two structs of
-- include/core/data_types.h and their checksum.
use nano_vna_x.Base.{ℕ, ◌+◌, ◌*◌, ◌/◌, ◌%◌, ◌^◌, Bool, List, [], ◌∷◌, ◌==◌, ◌&&◌}

-- __ROR(value, 31), a rotation by one bit to the left.
unfoldable pub ror31 : ℕ → ℕ
ror31 value = value / 2 ^ 31 + value * 2 % 2 ^ 32

-- The loop of `checksum` over the words of a struct.
unfoldable pub checksum_from : ℕ → List ℕ → ℕ
checksum_from value [] = value
checksum_from value (w ∷ words) = checksum_from ((ror31 value + w) % 2 ^ 32) words

unfoldable pub checksum : List ℕ → ℕ
checksum words = checksum_from 0 words

abbrev pub config_magic : ℕ
config_magic = 0x434f4e56

abbrev pub properties_magic : ℕ
properties_magic = 0x434f4e54

-- config_t: the fields that the code of this library reads, and the words of the others.
pub record Config : Type 0 where
  pub magic : ℕ
  pub harmonic_freq_threshold : ℕ
  pub if_freq : ℕ
  pub vna_mode : ℕ
  pub bandwidth : ℕ
  pub lever_mode : ℕ
  pub brightness : ℕ
  pub others : List ℕ
  pub check : ℕ

-- properties_t, likewise.
pub record Properties : Type 0 where
  pub magic : ℕ
  pub frequency0 : ℕ
  pub frequency1 : ℕ
  pub var_freq : ℕ
  pub sweep_points : ℕ
  pub others : List ℕ
  pub check : ℕ

-- All words but the checksum; a field that is narrower than a word is taken as one.
unfoldable pub config_words : Config → List ℕ
config_words c =
    c.magic ∷ c.harmonic_freq_threshold ∷ c.if_freq ∷ c.vna_mode ∷ c.bandwidth ∷ c.lever_mode
    ∷ c.brightness ∷ c.others

unfoldable pub properties_words : Properties → List ℕ
properties_words p = p.magic ∷ p.frequency0 ∷ p.frequency1 ∷ p.var_freq ∷ p.sweep_points ∷ p.others

-- The tests of config_recall_impl and of get_properties.
unfoldable pub config_valid : Config → Bool
config_valid c = c.magic == config_magic && (checksum (config_words c) == c.check)

unfoldable pub properties_valid : Properties → Bool
properties_valid p = p.magic == properties_magic && (checksum (properties_words p) == p.check)

-- A block with its magic word and its checksum set.
unfoldable pub seal_config : Config → Config
seal_config c =
    let marked = record c { magic = config_magic } in
    record marked { check = checksum (config_words marked) }

unfoldable pub seal_properties : Properties → Properties
seal_properties p =
    let marked = record p { magic = properties_magic } in
    record marked { check = checksum (properties_words marked) }
