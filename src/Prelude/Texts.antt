-- ===== src/Prelude/Texts.antt =====
-- Texts as Rust has them: a `String` and its UTF-8 bytes, and decimal numbers.
use Prim.Native.Nat.{ℕ, zero, suc, ◌+◌, ◌/◌, ◌%◌}
use Prim.Native.String.{◌++◌, String}
use mathlib.Core.Bool.{Bool, true, false}
use mathlib.Core.List.{List, [], ◌∷◌, map}
use mochivm.Prelude.Tests.{ltb, ◌==◌, if◌then◌else◌}
use mochivm.Prelude.Lists.{codes, get_or, concat}

-- The bytes of a code point.
abbrev pub utf8 : ℕ → List ℕ
utf8 c =
    if ltb c 0x80
    then c ∷ []
    else if ltb c 0x800
    then (0xC0 + c / 64) ∷ (0x80 + c % 64) ∷ []
    else if ltb c 0x1_0000
    then (0xE0 + c / 4096) ∷ (0x80 + c / 64 % 64) ∷ (0x80 + c % 64) ∷ []
    else (0xF0 + c / 262144) ∷ (0x80 + c / 4096 % 64) ∷ (0x80 + c / 64 % 64) ∷ (0x80 + c % 64) ∷ []

-- `str::as_bytes`.
abbrev pub bytes : String → List ℕ
bytes s = concat (map utf8 (codes s))

-- Whether the first text begins with the second.
abbrev pub starts_with : List ℕ → List ℕ → Bool
starts_with s [] = true
starts_with [] (c ∷ cs) = false
starts_with (b ∷ s) (c ∷ cs) = let rest = starts_with s cs in if b == c then rest else false

-- `str::contains`.
abbrev pub contains : List ℕ → List ℕ → Bool
contains [] cs = starts_with [] cs
contains (b ∷ s) cs = let rest = contains s cs in if starts_with (b ∷ s) cs then true else rest

abbrev digit : ℕ → String
digit d = get_or ("0" ∷ "1" ∷ "2" ∷ "3" ∷ "4" ∷ "5" ∷ "6" ∷ "7" ∷ "8" ∷ "9" ∷ []) d ""

-- The decimal text of a number with at most `places` digits.
unfoldable pub decimal : (places n : ℕ) → String
decimal zero n = ""
decimal (suc places) n =
    let higher = decimal places (n / 10) ++ digit (n % 10) in if ltb n 10 then digit n else higher
