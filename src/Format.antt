-- ===== src/Format.antt =====
-- The verbs of Go's `fmt` that the source uses, over byte strings.
use Prim.Native.Char.{code}
use Prim.Native.String.{String}
use fido.Base.{ℕ, zero, suc, ◌+◌, ◌-◌, ◌/◌, ◌%◌, ltb, if◌then◌else◌, List, [], ◌∷◌, ◌++◌}
use fido.Errors.{Text}

-- A literal of ASCII characters, as its bytes.
abbrev pub text : String → Text
text String.[] = []
text (String.◌∷◌ c s) = code c ∷ text s

digit : ℕ → ℕ
digit d = if ltb d 10 then b'0' + d else b'a' + d - 10

decimal_fuel : ℕ → ℕ → Text
decimal_fuel zero n = []
decimal_fuel (suc fuel) n =
    let front = decimal_fuel fuel (n / 10) in
    if ltb n 10 then digit n ∷ [] else front ++ (digit (n % 10) ∷ [])

-- `%d`. A number has fewer digits than its value and one more.
unfoldable pub decimal : ℕ → Text
unfolding decimal_fuel digit
decimal n = decimal_fuel (n + 1) n

hex_digits : ℕ → ℕ → Text
hex_digits zero n = []
hex_digits (suc width) n = hex_digits width (n / 16) ++ (digit (n % 16) ∷ [])

-- `%#02x` of a byte, `%#08x` of a uint32, and `%x` of bytes.
unfoldable pub hex_u8 : ℕ → Text
unfolding hex_digits digit
hex_u8 n = text "0x" ++ hex_digits 2 n

unfoldable pub hex_u32 : ℕ → Text
unfolding hex_digits digit
hex_u32 n = text "0x" ++ hex_digits 8 n

unfoldable pub hex_bytes : List ℕ → Text
unfolding hex_digits digit
hex_bytes [] = []
hex_bytes (b ∷ bs) = hex_digits 2 b ++ hex_bytes bs

-- `strings.Join`
unfoldable pub join : List Text → Text → Text
join [] sep = []
join (s ∷ []) sep = s
join (s ∷ t ∷ ts) sep = s ++ sep ++ join (t ∷ ts) sep
