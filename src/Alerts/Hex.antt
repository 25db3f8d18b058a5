-- ===== src/Alerts/Hex.antt =====
-- Go's encoding/hex and the little-endian integers of encoding/binary, over lists of bytes.
use native.Mathlib.Omega.{pow_step}
use chaos_test.Common.{
  ℕ, zero, suc, ◌+◌, ◌-◌, ◌*◌, ◌/◌, ◌%◌, ◌^◌, ◌<◌, ◌≡◌, refl, ap, ◌&&◌, Option, none, some, List,
  [], ◌∷◌, arith, ltb, leb, if◌then◌else◌, length, All,
}
use chaos_test.Alerts.{Bytes}

hex_value : ℕ → Option ℕ
hex_value c =
    if leb 48 c && leb c 57
    then some (c - 48)
    else if leb 97 c && leb c 102
    then some (c - 87)
    else if leb 65 c && leb c 70
    then some (c - 55)
    else none

join_byte : Option ℕ → Option ℕ → Option Bytes → Option Bytes
join_byte (some a) (some b) (some bs) = some ((a * 16 + b) ∷ bs)
join_byte _ _ _ = none

-- `hex.DecodeString`
unfoldable pub decode_hex : List ℕ → Option Bytes
unfolding hex_value join_byte
decode_hex [] = some []
decode_hex (a ∷ []) = none
decode_hex (a ∷ b ∷ s) = join_byte (hex_value a) (hex_value b) (decode_hex s)

hex_digit : ℕ → ℕ
hex_digit d = if ltb d 10 then 48 + d else 87 + d

-- `hex.EncodeToString`
unfoldable pub encode_hex : Bytes → List ℕ
unfolding hex_digit
encode_hex [] = []
encode_hex (b ∷ bs) = hex_digit (b / 16) ∷ hex_digit (b % 16) ∷ encode_hex bs

-- `k` bytes, the least one first, and back.
unfoldable pub put_le : ℕ → ℕ → Bytes
put_le zero n = []
put_le (suc k) n = n % 256 ∷ put_le k (n / 256)

unfoldable pub read_le : Bytes → ℕ
read_le [] = 0
read_le (b ∷ bs) = b + 256 * read_le bs

abbrev pub AreBytes : Bytes → Type 0
AreBytes bs = All (λ (b : ℕ). b < 256) bs

hex_value-hex_digit : (d : ℕ) → d < 16 → hex_value (hex_digit d) ≡ some d
unfolding hex_value hex_digit
hex_value-hex_digit d h = ground arith

pub decode_hex-encode_hex : (bs : Bytes) → AreBytes bs → decode_hex (encode_hex bs) ≡ some bs
unfolding decode_hex encode_hex
decode_hex-encode_hex [] h = refl
decode_hex-encode_hex (b ∷ bs) h =
    rw
      (
        hex_value-hex_digit (b / 16) (omega (arith, h.0)),
        hex_value-hex_digit (b % 16) (omega arith),
        decode_hex-encode_hex bs h.1,
      )
      (ap (λ c. some (c ∷ bs)) (omega arith))

pub read_le-put_le : (k n : ℕ) → n < 256 ^ k → read_le (put_le k n) ≡ n
unfolding read_le put_le
read_le-put_le zero n h = omega (arith, h)
read_le-put_le (suc k) n h =
    let p : 256 ^ suc k ≡ 256 * 256 ^ k = pow_step 256 k in
    omega (arith, read_le-put_le k (n / 256) (omega (arith, h, p)))

pub length-put_le : (k n : ℕ) → length (put_le k n) ≡ k
unfolding put_le
length-put_le zero n = refl
length-put_le (suc k) n = omega (arith, length-put_le k (n / 256))
