-- ===== src/Bridge/Strkey.antt =====
-- contracts/bridge-handler/src/lib.rs: the text of a contract's address, with its checksum.
pub mod Crc
pub mod Checksum
use Prim.Native.Nat.{bit_xor}
use helix_mongolian_spring.Common.{
  ℕ, zero, suc, ◌+◌, ◌-◌, ◌*◌, ◌/◌, ◌%◌, ◌^◌, List, [], ◌∷◌, ◌++◌, none, some, Bytes, get_elem?,
  ltb, if◌then◌else◌,
}
use helix_mongolian_spring.Bridge.Strkey.Crc.{crc16_table}

abbrev pub strkey_contract_version_byte : ℕ
strkey_contract_version_byte = 2 * 2 ^ 3

abbrev pub base32_alphabet : Bytes
base32_alphabet =
    65 ∷ 66 ∷ 67 ∷ 68 ∷ 69 ∷ 70 ∷ 71 ∷ 72 ∷ 73 ∷ 74 ∷ 75 ∷ 76 ∷ 77 ∷ 78 ∷ 79 ∷ 80 ∷ 81 ∷ 82 ∷ 83
    ∷ 84 ∷ 85 ∷ 86 ∷ 87 ∷ 88 ∷ 89 ∷ 90 ∷ 50 ∷ 51 ∷ 52 ∷ 53 ∷ 54 ∷ 55 ∷ []

-- An index into a table; every index is in range.
abbrev pub entry : Bytes → ℕ → ℕ
entry table i = elim (get_elem? table i) [ none ↦ 0 | some b ↦ b ]

-- One round of the loop of `crc16_xmodem`, on a u16 and a byte.
unfoldable pub crc16_round : ℕ → ℕ → ℕ
unfolding get_elem?
crc16_round crc byte =
    bit_xor (crc * 2 ^ 8 % 2 ^ 16) (entry crc16_table (bit_xor (crc / 2 ^ 8) byte))

unfoldable pub crc16_from : ℕ → Bytes → ℕ
crc16_from crc [] = crc
crc16_from crc (byte ∷ bytes) = crc16_from (crc16_round crc byte) bytes

unfoldable pub crc16_xmodem : Bytes → Bytes
unfolding crc16_from
crc16_xmodem bytes = crc16_from 0 bytes % 2 ^ 8 ∷ crc16_from 0 bytes / 2 ^ 8 ∷ []

-- The inner loop of `base32_encode_no_pad`: the symbols that it pushes, and the bits it leaves.
unfoldable pub push_groups : ℕ → (buffer : ℕ) → List ℕ × ℕ
push_groups (suc (suc (suc (suc (suc bits_left))))) buffer =
    let rest = push_groups bits_left buffer in (buffer / 2 ^ bits_left % 2 ^ 5 ∷ rest.0, rest.1)
push_groups bits_left buffer = ([], bits_left)

-- The loop of `base32_encode_no_pad` on a u32 buffer, and the symbol after it.
unfoldable pub encode_from : (buffer bits_left : ℕ) → Bytes → List ℕ
unfolding push_groups
encode_from buffer bits_left [] =
    if ltb 0 bits_left then buffer * 2 ^ (5 - bits_left) % 2 ^ 32 % 2 ^ 5 ∷ [] else []
encode_from buffer bits_left (byte ∷ bytes) =
    let buffer = buffer * 2 ^ 8 % 2 ^ 32 + byte in
    let pushed = push_groups (bits_left + 8) buffer in pushed.0 ++ encode_from buffer pushed.1 bytes

unfoldable pub letters : List ℕ → Bytes
unfolding get_elem?
letters [] = []
letters (index ∷ rest) = entry base32_alphabet index ∷ letters rest

unfoldable pub base32_encode_no_pad : Bytes → Bytes
base32_encode_no_pad bytes = letters (encode_from 0 0 bytes)

unfoldable pub contract_id_to_strkey : Bytes → Bytes
contract_id_to_strkey contract_id =
    let bytes = strkey_contract_version_byte ∷ contract_id in
    base32_encode_no_pad (bytes ++ crc16_xmodem bytes)
