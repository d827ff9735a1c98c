-- ===== src/Prelude/Text.antt =====
-- Python's `str.strip()`.
use Prim.Native.Nat.{ℕ}
use Prim.Native.Char.{code}
use Prim.Native.String.{String}
use mathlib.Core.Bool.{Bool, ◌||◌, ◌&&◌}
use skysolver.Prelude.Tests.{leb, nat_beq, if◌then◌else◌}

-- The characters that `str.isspace` knows.
is_space : ℕ → Bool
is_space c =
    (leb 9 c && leb c 13)
    || ((leb 28 c && leb c 32)
        || (nat_beq c 133
            || (nat_beq c 160
                || (nat_beq c 5760
                    || ((leb 8192 c && leb c 8202)
                        || (nat_beq c 8232
                            || (nat_beq c 8233
                                || (nat_beq c 8239 || (nat_beq c 8287 || nat_beq c 12288)))))))))

-- `str.lstrip()`
unfoldable pub left_strip : String → String
unfolding is_space
left_strip String.[] = String.[]
left_strip (String.◌∷◌ c s) =
    let rest = left_strip s in if is_space (code c) then rest else String.◌∷◌ c s

reversed_onto : String → String → String
reversed_onto String.[] acc = acc
reversed_onto (String.◌∷◌ c s) acc = reversed_onto s (String.◌∷◌ c acc)

unfoldable pub strip : String → String
unfolding left_strip reversed_onto
strip s = reversed_onto (left_strip (reversed_onto (left_strip s) "")) ""
