-- ===== src/Prelude/Strings.antt =====
-- Python's `str` as the native text: decimal numbers, joining and stripping.
use Prim.Native.Nat.{ℕ, zero, suc, ◌/◌, ◌%◌}
use Prim.Native.Char.{Char, code}
use Prim.Native.String.{String, ◌++◌}
use mathlib.Core.List.{List, reverse}
use langchain_langraph_app_l.Prelude.Tests.{ltb, if◌then◌else◌}
use langchain_langraph_app_l.Prelude.Text.{is_blank}

abbrev digit : ℕ → String
digit zero = "0"
digit (suc zero) = "1"
digit (suc (suc zero)) = "2"
digit (suc (suc (suc zero))) = "3"
digit (suc (suc (suc (suc zero)))) = "4"
digit (suc (suc (suc (suc (suc zero))))) = "5"
digit (suc (suc (suc (suc (suc (suc zero)))))) = "6"
digit (suc (suc (suc (suc (suc (suc (suc zero))))))) = "7"
digit (suc (suc (suc (suc (suc (suc (suc (suc zero)))))))) = "8"
digit _ = "9"

-- A number has fewer digits than one more than itself, which is the fuel.
decimal_from : ℕ → ℕ → String → String
decimal_from zero n acc = acc
decimal_from (suc fuel) n acc =
    let more = decimal_from fuel (n / 10) (digit (n % 10) ++ acc) in
    if ltb n 10 then digit n ++ acc else more

-- str(n)
unfoldable pub decimal : ℕ → String
unfolding decimal_from
decimal n = decimal_from (suc n) n ""

-- sep.join(parts)
unfoldable pub join : String → List String → String
join sep List.[] = ""
join sep (List.◌∷◌ s List.[]) = s
join sep (List.◌∷◌ s (List.◌∷◌ t parts)) = s ++ sep ++ join sep (List.◌∷◌ t parts)

abbrev chars : String → List Char
chars String.[] = List.[]
chars (String.◌∷◌ c s) = List.◌∷◌ c (chars s)

abbrev of_chars : List Char → String
of_chars List.[] = ""
of_chars (List.◌∷◌ c s) = String.◌∷◌ c (of_chars s)

drop_blanks : List Char → List Char
drop_blanks List.[] = List.[]
drop_blanks (List.◌∷◌ c s) =
    let rest = drop_blanks s in if is_blank (code c) then rest else List.◌∷◌ c s

-- s.strip()
unfoldable pub strip_blanks : String → String
unfolding drop_blanks
strip_blanks s = of_chars (reverse (drop_blanks (reverse (drop_blanks (chars s)))))
