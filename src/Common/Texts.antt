-- ===== src/Common/Texts.antt =====
-- Python strings as lists of code points: `==`, `strip`, `str(uuid)` and `uuid.hex`.
use Prim.Native.Nat.{ℕ, zero, suc, ◌+◌, ◌/◌, ◌%◌}
use Prim.Native.Char.{code}
use Prim.Native.String.{String}
use mathlib.Core.Path.{◌≡◌, refl}
use mathlib.Core.Bool.{Bool, true, false, ◌&&◌, ◌||◌}
use mathlib.Core.List.{List, [], ◌∷◌, reverse}
use native.Mathlib.Omega.{arith}
use true_nas_controller.Common.Tests.{leb, ltb, ◌==◌, if◌then◌else◌}

abbrev pub Text : Type 0
Text = List ℕ

-- A literal of the source as its code points.
abbrev pub codes : String → Text
codes String.[] = []
codes (String.◌∷◌ c s) = code c ∷ codes s

abbrev pub text_eq : Text → Text → Bool
text_eq [] [] = true
text_eq [] (_ ∷ _) = false
text_eq (_ ∷ _) [] = false
text_eq (a ∷ s) (b ∷ t) = a == b && text_eq s t

-- `s <= t`, by code points
abbrev pub text_leb : Text → Text → Bool
text_leb [] t = true
text_leb (_ ∷ _) [] = false
text_leb (a ∷ s) (b ∷ t) = ltb a b || (a == b && text_leb s t)

pub text_eq_sound : (s t : Text) → text_eq s t ≡ true → s ≡ t
text_eq_sound [] [] h = refl
text_eq_sound [] (b ∷ t) h = cc
text_eq_sound (a ∷ s) [] h = cc
text_eq_sound (a ∷ s) (b ∷ t) h = ground (arith, text_eq_sound s t)

pub text_eq_self : (s : Text) → text_eq s s ≡ true
text_eq_self [] = refl
text_eq_self (a ∷ s) = ground (arith, text_eq_self s)

-- `str.isspace` at one code point
abbrev pub is_space : ℕ → Bool
is_space c =
    (leb 9 c && leb c 13)
    || (leb 28 c && leb c 32)
    || c == 0x85
    || c == 0xa0
    || c == 0x1680
    || (leb 0x2000 c && leb c 0x200a)
    || c == 0x2028
    || c == 0x2029
    || c == 0x202f
    || c == 0x205f
    || c == 0x3000

pub lstrip : Text → Text
lstrip [] = []
lstrip (c ∷ s) = let rest = lstrip s in if is_space c then rest else c ∷ s

unfoldable pub strip : Text → Text
unfolding lstrip
strip s = reverse (lstrip (reverse (lstrip s)))

-- `not s.strip()`: every code point is white space
abbrev pub is_blank : Text → Bool
is_blank [] = true
is_blank (c ∷ s) = is_space c && is_blank s

-- `" ".join(s.split())`; `started` tells that a word stands before, `gap` that white space follows it.
abbrev join_from : Bool → Bool → Text → Text
join_from started gap [] = []
join_from started gap (c ∷ s) =
    let later = join_from started true s in
    let rest = join_from true false s in
    if is_space c then later else if started && gap then b' ' ∷ c ∷ rest else c ∷ rest

unfoldable pub join_words : Text → Text
join_words s = join_from false false s

-- `s.startswith(prefix)`
abbrev pub starts_with : Text → Text → Bool
starts_with [] prefix = text_eq prefix []
starts_with (c ∷ s) [] = true
starts_with (c ∷ s) (p ∷ prefix) = c == p && starts_with s prefix

abbrev drop_prefix : Text → Text → Text
drop_prefix s [] = s
drop_prefix [] (_ ∷ _) = []
drop_prefix (_ ∷ s) (_ ∷ prefix) = drop_prefix s prefix

-- `s.removeprefix(prefix)`
abbrev pub removeprefix : Text → Text → Text
removeprefix s prefix = if starts_with s prefix then drop_prefix s prefix else s

-- `str(n)`, with fuel for the digits; a number has fewer digits than units.
decimal_from : ℕ → ℕ → Text → Text
decimal_from zero n rest = rest
decimal_from (suc fuel) n rest =
    let more = decimal_from fuel (n / 10) ((b'0' + n % 10) ∷ rest) in
    if ltb n 10 then (b'0' + n) ∷ rest else more

unfoldable pub decimal : ℕ → Text
unfolding decimal_from
decimal n = decimal_from (suc n) n []

decimal_test : decimal 1024 ≡ codes "1024"
unfolding decimal
decimal_test = refl

join_words_test : join_words (codes "  no   route  ") ≡ codes "no route"
unfolding join_words
join_words_test = refl
