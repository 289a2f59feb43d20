-- ===== src/Base/Text.antt =====
-- Texts of the program as lists of code points (`String`, `&str`) or of bytes (`Vec<u8>`), with
-- what the source uses of `str` and of `format!`.
use Prim.Native.Nat.{ℕ, zero, suc, ◌+◌, ◌-◌, ◌/◌, ◌%◌}
use Prim.Native.Char.{code}
use Prim.Native.String.{String}
use mathlib.Core.Bool.{Bool, true, false, ◌&&◌, ◌||◌}
use mathlib.Core.List.{List, [], ◌∷◌, ◌++◌}
use pulpitum.Base.Tests.{ltb, leb, ◌==◌, if◌then◌else◌}
use pulpitum.Base.Lists.{length}
use pulpitum.Base.Ordered.{Order, list_order, nat_order, eqb}
use pulpitum.Base.Int.{ℤ, pos, negsuc}

abbrev pub Text : Type 0
Text = List ℕ

abbrev pub Bytes : Type 0
Bytes = List ℕ

-- The order of code points is that of the UTF-8 bytes which `String` compares.
abbrev pub text_order : Order Text
text_order = list_order nat_order

abbrev pub text_eq : Text → Text → Bool
text_eq = eqb text_order

abbrev pub codes : String → Text
codes String.[] = []
codes (String.◌∷◌ c s) = code c ∷ codes s

-- `char::is_whitespace`, the Unicode property White_Space.
pub is_whitespace : ℕ → Bool
is_whitespace c =
    (leb 9 c && leb c 13)
    || c == 32
    || c == 0x85
    || c == 0xa0
    || c == 0x1680
    || (leb 0x2000 c && leb c 0x200a)
    || c == 0x2028
    || c == 0x2029
    || c == 0x202f
    || c == 0x205f
    || c == 0x3000

-- `text.trim().is_empty()`.
unfoldable pub is_blank : Text → Bool
unfolding is_whitespace
is_blank [] = true
is_blank (c ∷ s) = if is_whitespace c then is_blank s else false

-- The decimal digits of a number, on fuel above it.
unfoldable pub decimal_from : ℕ → ℕ → Text → Text
decimal_from zero n out = out
decimal_from (suc fuel) n out =
    let rest = decimal_from fuel (n / 10) ((b'0' + n % 10) ∷ out) in
    if ltb n 10 then (b'0' + n) ∷ out else rest

unfoldable pub decimal : ℕ → Text
unfolding decimal_from
decimal n = decimal_from (n + 1) n []

unfoldable pub zeros : ℕ → Text
zeros zero = []
zeros (suc n) = b'0' ∷ zeros n

-- `format!("{:0w$}", n)`.
unfoldable pub pad : ℕ → Text → Text
unfolding zeros
pad w digits = zeros (w - length digits) ++ digits

-- `format!("{:0w$}", z)`: the sign counts as one place, and stands before the zeros.
unfoldable pub pad_int : ℕ → ℤ → Text
unfolding pad decimal
pad_int w (pos n) = pad w (decimal n)
pad_int w (negsuc n) = b'-' ∷ pad (w - 1) (decimal (n + 1))
