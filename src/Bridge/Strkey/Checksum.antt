-- ===== src/Bridge/Strkey/Checksum.antt =====
-- contracts/bridge-handler/src/lib.rs: `crc16_xmodem` beside the shift register of the checksum.
use Prim.Native.Nat.{bit_xor}
use helix_mongolian_spring.Common.{
  get_elem?, length, Bool-cases, inl, inr, bit_xor_byte, bit_xor_below_byte, bit_xor_below_u16, sym,
  Bytes, All, ℕ, zero, suc, ◌+◌, ◌-◌, ◌*◌, ◌/◌, ◌%◌, ◌^◌, ◌<◌, ◌≡◌, refl, ap, ◌∙◌, true, Bool, ◌&&◌,
  List, [], ◌∷◌, ltb, ◌==◌, ==_iff, arith, if◌then◌else◌,
}
use helix_mongolian_spring.Bridge.Strkey.{entry, crc16_round, crc16_from, crc16_xmodem}
use helix_mongolian_spring.Bridge.Strkey.Crc.{crc16_table}

-- One step of the register: the polynomial is 0x1021.
unfoldable pub shift : ℕ → ℕ
shift crc = if ltb crc (2 ^ 15) then crc * 2 else bit_xor (crc * 2 - 2 ^ 16) 0x1021

unfoldable pub shift_8 : ℕ → ℕ
unfolding shift
shift_8 crc = shift (shift (shift (shift (shift (shift (shift (shift crc)))))))

abbrev row : ℕ → ℕ → ℕ → Bool
row high symbol zero = true
row high symbol (suc low) =
    (shift_8 (high * 2 ^ 8 + low) == bit_xor (low * 2 ^ 8) symbol) && row high symbol low

abbrev rows : ℕ → List ℕ → Bool
rows high [] = true
rows high (symbol ∷ rest) = row high symbol 256 && rows (high + 1) rest

-- Every entry of the table is what eight steps make of its index, whatever the low byte.
table_rows : rows 0 crc16_table ≡ true
unfolding shift_8
table_rows = refl

table_length : length crc16_table ≡ 256
unfolding length
table_length = refl

row_lem :
    (high symbol n low : ℕ)
    → row high symbol n ≡ true
    → low < n
    → shift_8 (high * 2 ^ 8 + low) ≡ bit_xor (low * 2 ^ 8) symbol
row_lem high symbol zero low h lt = absurd (omega arith)
row_lem high symbol (suc n) low h lt = elim (Bool-cases (low == n)) [
  | inl last ↦ let here : low ≡ n = (==_iff low n).0 last in rw here ((==_iff _ _).0 (ground arith))
  | inr earlier ↦ row_lem high symbol n low (ground arith) (ground (arith, ==_iff low n))
]

rows_lem :
    (high i low : ℕ) (l : List ℕ)
    → rows high l ≡ true
    → i < length l
    → low < 256
    → shift_8 ((high + i) * 2 ^ 8 + low) ≡ bit_xor (low * 2 ^ 8) (entry l i)
unfolding get_elem?
rows_lem high i low [] h lt k = absurd (unfold length in omega arith)
rows_lem high zero low (symbol ∷ l) h lt k =
    let same : high + 0 ≡ high = omega arith in
    rw same (row_lem high symbol 256 low (ground arith) k)
rows_lem high (suc i) low (symbol ∷ l) h lt k =
    let same : high + suc i ≡ high + 1 + i = omega arith in
    rw same (rows_lem (high + 1) i low l (ground arith) (unfold length in omega arith) k)

-- The register that the checksum is defined by: a byte is added at the top, and eight steps are made.
unfoldable pub register_round : ℕ → ℕ → ℕ
register_round crc byte = shift_8 (bit_xor crc (byte * 2 ^ 8))

unfoldable pub register_from : ℕ → List ℕ → ℕ
register_from crc [] = crc
register_from crc (byte ∷ bytes) = register_from (register_round crc byte) bytes

crc16_round-register_round :
    (crc byte : ℕ) → crc < 2 ^ 16 → byte < 2 ^ 8 → crc16_round crc byte ≡ register_round crc byte
unfolding crc16_round register_round
crc16_round-register_round crc byte h k =
    let high = crc / 256 in
    let low = crc % 256 in
    let parts : crc ≡ high * 256 + low = omega arith in
    let shifted : crc * 256 % 65536 ≡ low * 256 = omega arith in
    let index = bit_xor high byte in
    let below : index < 256 = bit_xor_below_byte high byte (omega arith) k in
    let joined : bit_xor crc (byte * 256) ≡ index * 256 + low =
      ap (λ c. bit_xor c (byte * 256)) parts ∙ bit_xor_byte high low byte (omega arith) in
    let table = rows_lem 0 index low crc16_table table_rows (rw table_length below) (omega arith) in
    let zero_first : 0 + index ≡ index = omega arith in
    rw (shifted, joined) (sym (rw zero_first at table))

shift_bound : (crc : ℕ) → crc < 65536 → shift crc < 65536
unfolding shift
shift_bound crc h = elim (Bool-cases (ltb crc (2 ^ 15))) [
  | inl small ↦ rw small (ground arith)
  | inr large ↦ rw large (bit_xor_below_u16 (crc * 2 - 65536) 0x1021 (omega arith) (omega arith))
]

register_round_bound : (crc byte : ℕ) → crc < 65536 → byte < 256 → register_round crc byte < 65536
unfolding register_round shift_8
register_round_bound crc byte h k =
    let start = bit_xor_below_u16 crc (byte * 256) h (omega arith) in
    shift_bound _ (
      shift_bound _ (
        shift_bound _
          (shift_bound _ (shift_bound _ (shift_bound _ (shift_bound _ (shift_bound _ start)))))))

crc16_from-register_from :
    (crc : ℕ) (bytes : Bytes)
    → crc < 65536
    → All (λ b. b < 256) bytes
    → crc16_from crc bytes ≡ register_from crc bytes
unfolding crc16_from register_from
crc16_from-register_from crc [] h k = refl
crc16_from-register_from crc (byte ∷ bytes) h k =
    let same = crc16_round-register_round crc byte h k.0 in
    rw same (
      crc16_from-register_from (register_round crc byte) bytes (register_round_bound crc byte h k.0)
        k.1)

-- The checksum of bytes, computed with the table, is what the shift register makes of them, from the
-- polynomial 0x1021 and a register of zero, the low byte first.
pub crc16_xmodem-register_from :
    (bytes : Bytes)
    → All (λ b. b < 256) bytes
    → crc16_xmodem bytes ≡ register_from 0 bytes % 2 ^ 8 ∷ register_from 0 bytes / 2 ^ 8 ∷ []
unfolding crc16_xmodem
crc16_xmodem-register_from bytes h = rw (crc16_from-register_from 0 bytes (omega arith) h) refl
