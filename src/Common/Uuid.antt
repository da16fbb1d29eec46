-- ===== src/Common/Uuid.antt =====
-- `uuid.UUID` as a 128-bit number: `.hex` and `str`.
pub mod RoundTrip
use Prim.Native.Nat.{ℕ, zero, suc, ◌+◌, ◌-◌, ◌*◌, ◌/◌, ◌%◌}
use mathlib.Core.Path.{◌≡◌, refl}
use mathlib.Core.List.{[], ◌∷◌, ◌++◌}
use mathlib.Core.Bool.{Bool, not, ◌&&◌}
use mathlib.Core.Option.{Option, none, some}
use true_nas_controller.Common.Tests.{ltb, leb, ◌==◌, if◌then◌else◌}
use true_nas_controller.Common.Lists.{take, drop, length, keep_if}
use true_nas_controller.Common.Texts.{Text, codes}

hex_digit : ℕ → ℕ
hex_digit d = if ltb d 10 then b'0' + d else 87 + d

-- The last `k` hexadecimal digits, before `rest`.
hex_from : ℕ → ℕ → Text → Text
unfolding hex_digit
hex_from zero n rest = rest
hex_from (suc k) n rest = hex_from k (n / 16) (hex_digit (n % 16) ∷ rest)

-- `uuid.hex`
unfoldable pub uuid_hex : ℕ → Text
unfolding hex_from
uuid_hex n = hex_from 32 n []

-- Groups of 8, 4, 4, 4 and 12 digits.
pub dashed : Text → Text
dashed h =
    take 8 h
    ++ b'-'
      ∷ (take 4 (drop 8 h)
          ++ b'-' ∷ (take 4 (drop 12 h) ++ b'-' ∷ (take 4 (drop 16 h) ++ b'-' ∷ drop 20 h)))

-- `str(uuid)`
unfoldable pub uuid_text : ℕ → Text
uuid_text n = dashed (uuid_hex n)

-- The value of a hexadecimal digit.
abbrev pub hex_value : ℕ → Option ℕ
hex_value c =
    if leb b'0' c && leb c b'9'
    then some (c - b'0')
    else if leb b'a' c && leb c b'f'
    then some (c - 87)
    else if leb b'A' c && leb c b'F'
    then some (c - 55)
    else none

abbrev add_digit : Option ℕ → ℕ → (ℕ → Option ℕ) → Option ℕ
add_digit none acc k = none
add_digit (some d) acc k = k (acc * 16 + d)

pub hex_number : Text → ℕ → Option ℕ
hex_number [] acc = some acc
hex_number (c ∷ s) acc = add_digit (hex_value c) acc (hex_number s)

abbrev pub not_dash : ℕ → Bool
not_dash c = not (c == b'-')

-- `UUID(text)` for the hexadecimal notation, whose dashes may stand anywhere. The other notations that
-- Python reads (`urn:uuid:`, braces, a prefix `0x`) are refused here.
unfoldable pub parse_uuid : Text → Option ℕ
parse_uuid s = let h = keep_if not_dash s in if length h == 32 then hex_number h 0 else none

uuid_text_test :
    uuid_text 0x123e4567e89b12d3a456426614174000 ≡ codes "123e4567-e89b-12d3-a456-426614174000"
unfolding uuid_text dashed uuid_hex
uuid_text_test = refl

parse_uuid_test :
    parse_uuid (codes "123E4567-e89b-12d3-a456-426614174000")
    ≡ some 0x123e4567e89b12d3a456426614174000
unfolding parse_uuid hex_number
parse_uuid_test = refl
