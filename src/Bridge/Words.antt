-- ===== src/Bridge/Words.antt =====
-- contracts/bridge-handler/src/lib.rs: conversions between 256-bit words and i128, and the nonce of a
-- withdrawal.
use helix_mongolian_spring.Common.{
  ℕ, ◌+◌, ◌-◌, ◌*◌, ◌/◌, ◌%◌, ◌^◌, not, Option, none, some, ℤ, pos, negsuc, pos_part, ltb, ltb_ℤ,
  ◌==◌, ◌||◌, if◌then◌else◌,
}

-- `i128::from_le_bytes` of sixteen bytes, given as the number they make
abbrev pub signed_128 : ℕ → ℤ
signed_128 w = if ltb w (2 ^ 127) then pos w else negsuc (2 ^ 128 - w - 1)

-- The low and the high sixteen bytes of the word; `none` stands for `InvalidAmount`.
unfoldable pub u256_to_i128 : ℕ → Option ℤ
u256_to_i128 value =
    if not (value / 2 ^ 128 == 0) || ltb_ℤ (signed_128 (value % 2 ^ 128)) (pos 0)
    then none
    else some (signed_128 (value % 2 ^ 128))

unfoldable pub i128_to_u256 : ℤ → Option ℕ
i128_to_u256 (pos n) = some n
i128_to_u256 (negsuc n) = none

-- `|` on operands that share no bit is `+`: the right one is a u64.
unfoldable pub withdrawal_nonce : ℕ → ℤ → ℕ
withdrawal_nonce sequence current_burns =
    sequence * 2 ^ 64
    + (if ltb (pos_part current_burns) (2 ^ 64) then pos_part current_burns else 2 ^ 64 - 1)
