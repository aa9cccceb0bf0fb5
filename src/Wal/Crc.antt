-- ===== src/Wal/Crc.antt =====
-- `WalLog::crc32` of src/metadata/WalLog.cpp.
pub mod Laws
use cpp_data_protection_core.Base.{
  ℕ, zero, suc, ◌-◌, ◌/◌, ◌%◌, ◌^◌, bit_and, bit_xor, List, [], ◌∷◌, Bytes,
}

-- One round for one bit: `mask = -(crc & 1U)`, `crc = (crc >> 1U) ^ (0xedb88320U & mask)`.
unfoldable pub crc_bit : ℕ → ℕ
crc_bit crc = let mask = (2 ^ 32 - crc % 2) % 2 ^ 32 in bit_xor (crc / 2) (bit_and 0xedb88320 mask)

-- `for (int bit = 0; bit < 8; ++bit)`, with the rounds that are left.
unfoldable pub crc_rounds : ℕ → ℕ → ℕ
crc_rounds zero crc = crc
crc_rounds (suc n) crc = crc_rounds n (crc_bit crc)

unfoldable pub crc_loop : ℕ → Bytes → ℕ
crc_loop crc [] = crc
crc_loop crc (byte ∷ rest) = crc_loop (crc_rounds 8 (bit_xor crc byte)) rest

-- `~crc` at 32 bits is the distance from the largest word.
unfoldable pub crc32 : Bytes → ℕ
unfolding crc_bit crc_rounds crc_loop
crc32 data_bytes = 0xffffffff - crc_loop 0xffffffff data_bytes
