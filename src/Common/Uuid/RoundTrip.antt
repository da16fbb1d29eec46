-- ===== src/Common/Uuid/RoundTrip.antt =====
-- Reading a printed UUID gives it back.
use Prim.Native.Nat.{ℕ, zero, suc, ◌+◌, ◌*◌, ◌/◌, ◌%◌, ◌^◌, ◌<◌}
use mathlib.Core.Path.{◌≡◌, refl, sym, ap, ◌∙◌}
use mathlib.Core.Bool.{true}
use mathlib.Core.Option.{none, some}
use mathlib.Core.List.{[], ◌∷◌, ◌++◌}
use native.Mathlib.Omega.{arith}
use native.Mathlib.Nat.{pow-suc, pow-zero, zero-add, suc-add}
use true_nas_controller.Common.Tests.{◌==◌, if◌then◌else◌}
use true_nas_controller.Common.Lists.{take, drop, length, keep_if, All}
use true_nas_controller.Common.Texts.{Text}
use true_nas_controller.Common.Uuid.{
  hex_digit, hex_from, uuid_hex, uuid_text, hex_value, hex_number, not_dash, parse_uuid, dashed,
}

hex_value-hex_digit : (d : ℕ) → d < 16 → hex_value (hex_digit d) ≡ some d
unfolding hex_digit
hex_value-hex_digit d h = ground arith

not_dash-hex_digit : (d : ℕ) → d < 16 → not_dash (hex_digit d) ≡ true
unfolding hex_digit
not_dash-hex_digit d h = ground arith

-- Reading the digits of `n` from the left.
hex_number-hex_from :
    (k n acc : ℕ) (rest : Text)
    → n < 16 ^ k
    → hex_number (hex_from k n rest) acc ≡ hex_number rest (acc * 16 ^ k + n)
unfolding hex_number hex_from
hex_number-hex_from zero n acc rest h = ap (hex_number rest) (omega (arith, pow-zero 16))
hex_number-hex_from (suc k) n acc rest h =
    let small : n / 16 < 16 ^ k = omega (arith, pow-suc 16 k) in
    rw
      (
        hex_number-hex_from k (n / 16) acc (hex_digit (n % 16) ∷ rest) small,
        hex_value-hex_digit (n % 16) (omega arith),
      )
      (ap (hex_number rest) (omega (arith, ap (λ t. acc * t) (pow-suc 16 k))))

length-hex_from : (k n : ℕ) (rest : Text) → length (hex_from k n rest) ≡ k + length rest
unfolding hex_from
length-hex_from zero n rest = omega arith
length-hex_from (suc k) n rest =
    omega (arith, length-hex_from k (n / 16) (hex_digit (n % 16) ∷ rest))

abbrev AllDigits : Text → Type 0
AllDigits s = All (λ c. not_dash c ≡ true) s

hex_from-AllDigits : (k n : ℕ) (rest : Text) → AllDigits rest → AllDigits (hex_from k n rest)
unfolding hex_from
hex_from-AllDigits zero n rest h = h
hex_from-AllDigits (suc k) n rest h =
    hex_from-AllDigits k (n / 16) (hex_digit (n % 16) ∷ rest)
      (not_dash-hex_digit (n % 16) (omega arith), h)

keep-append :
    (xs ys : Text) → AllDigits xs → keep_if not_dash (xs ++ ys) ≡ xs ++ keep_if not_dash ys
keep-append [] ys h = refl
keep-append (x ∷ xs) ys h = rw h.0 (ap (λ t. x ∷ t) (keep-append xs ys h.1))

take-AllDigits : (k : ℕ) (s : Text) → AllDigits s → AllDigits (take k s)
take-AllDigits zero s h = tt
take-AllDigits (suc k) [] h = tt
take-AllDigits (suc k) (c ∷ s) h = (h.0, take-AllDigits k s h.1)

drop-AllDigits : (k : ℕ) (s : Text) → AllDigits s → AllDigits (drop k s)
drop-AllDigits zero s h = h
drop-AllDigits (suc k) [] h = tt
drop-AllDigits (suc k) (c ∷ s) h = drop-AllDigits k s h.1

take-append-drop : (k : ℕ) (s : Text) → take k s ++ drop k s ≡ s
take-append-drop zero s = refl
take-append-drop (suc k) [] = refl
take-append-drop (suc k) (c ∷ s) = ap (λ t. c ∷ t) (take-append-drop k s)

keep_all : (s : Text) → AllDigits s → keep_if not_dash s ≡ s
keep_all [] h = refl
keep_all (c ∷ s) h = rw h.0 (ap (λ t. c ∷ t) (keep_all s h.1))

-- One group of digits before a dash.
keep_group :
    (xs ys : Text) → AllDigits xs → keep_if not_dash (xs ++ b'-' ∷ ys) ≡ xs ++ keep_if not_dash ys
keep_group xs ys h = keep-append xs (b'-' ∷ ys) h

drop-nil : (k : ℕ) → drop {A = ℕ} k [] ≡ []
drop-nil zero = refl
drop-nil (suc k) = refl

drop-drop : (j k : ℕ) (s : Text) → drop k (drop j s) ≡ drop (j + k) s
drop-drop zero k s = ap (λ m. drop m s) (sym (zero-add k))
drop-drop (suc j) k [] = drop-nil k ∙ sym (drop-nil (suc j + k))
drop-drop (suc j) k (c ∷ s) = rw suc-add (drop-drop j k s)

groups :
    (h : Text)
    → take 8 h ++ (take 4 (drop 8 h) ++ (take 4 (drop 12 h) ++ (take 4 (drop 16 h) ++ drop 20 h)))
      ≡ h
groups h =
    rw
      (
        ← drop-drop 16 4 h,
        take-append-drop 4 (drop 16 h),
        ← drop-drop 12 4 h,
        take-append-drop 4 (drop 12 h),
        ← drop-drop 8 4 h,
        take-append-drop 4 (drop 8 h),
      )
      (take-append-drop 8 h)

-- Without the dashes the groups make up the digits again.
keep-dashed : (h : Text) → AllDigits h → keep_if not_dash (dashed h) ≡ h
unfolding dashed
keep-dashed h d =
    rw
      (
        keep_group (take 8 h) _ (take-AllDigits 8 h d),
        keep_group (take 4 (drop 8 h)) _ (take-AllDigits 4 (drop 8 h) (drop-AllDigits 8 h d)),
        keep_group (take 4 (drop 12 h)) _ (take-AllDigits 4 (drop 12 h) (drop-AllDigits 12 h d)),
        keep_group (take 4 (drop 16 h)) _ (take-AllDigits 4 (drop 16 h) (drop-AllDigits 16 h d)),
        keep_all (drop 20 h) (drop-AllDigits 20 h d),
      )
      (groups h)

uuid_hex_lem : (n : ℕ) → uuid_hex n ≡ hex_from 32 n []
unfolding uuid_hex
uuid_hex_lem n = refl

uuid_hex-AllDigits : (n : ℕ) → AllDigits (hex_from 32 n [])
uuid_hex-AllDigits n = hex_from-AllDigits 32 n [] tt

keep-uuid_text : (n : ℕ) → keep_if not_dash (uuid_text n) ≡ hex_from 32 n []
unfolding uuid_text
keep-uuid_text n = rw uuid_hex_lem (keep-dashed (hex_from 32 n []) (uuid_hex-AllDigits n))

hex_number-nil : (acc : ℕ) → hex_number [] acc ≡ some acc
unfolding hex_number
hex_number-nil acc = refl

read_digits :
    (h : Text) → length h ≡ 32 → (if length h == 32 then hex_number h 0 else none) ≡ hex_number h 0
read_digits h e = ground arith

-- A 128-bit number that is printed by `str` is read back.
pub parse_uuid-uuid_text : (n : ℕ) → n < 2 ^ 128 → parse_uuid (uuid_text n) ≡ some n
unfolding parse_uuid
parse_uuid-uuid_text n h = rw (keep-uuid_text n) (
    read_digits (hex_from 32 n []) (length-hex_from 32 n [])
    ∙ hex_number-hex_from 32 n 0 [] h
    ∙ hex_number-nil (0 * 16 ^ 32 + n)
    ∙ ap some (omega arith))
