-- ===== src/Common/Strconv.antt =====
-- `strconv.Atoi`, which on 64-bit machines is `ParseInt s 10 64`.
use Prim.Native.Char.{code}
use Prim.Native.String.{[], ◌∷◌}
use flowix.Common.{ℕ, ◌+◌, ◌-◌, ◌*◌, String, Option, none, some, ◌&&◌, leb, eqb, if◌then◌else◌}
use flowix.Common.Int.{ℤ, pos, negsuc, max_int64}

-- The value of decimal digits behind those read so far.
unfoldable pub digits : ℕ → String → Option ℕ
digits acc [] = some acc
digits acc (c ∷ s) =
    let rest = digits (acc * 10 + (code c - 48)) s in
    if leb 48 (code c) && leb (code c) 57 then rest else none

abbrev unsigned : String → Option ℕ
unsigned [] = none
unsigned (c ∷ s) = digits 0 (c ∷ s)

abbrev positive : Option ℕ → Option ℤ
positive none = none
positive (some n) = if leb n max_int64 then some (pos n) else none

abbrev negative : Option ℕ → Option ℤ
negative none = none
negative (some n) =
    if eqb n 0 then some (pos 0) else if leb n (max_int64 + 1) then some (negsuc (n - 1)) else none

-- `none` where the text is no number or one out of range.
unfoldable pub atoi : String → Option ℤ
unfolding digits
atoi [] = none
atoi (c ∷ s) =
    if eqb (code c) b'-'
    then negative (unsigned s)
    else if eqb (code c) b'+'
    then positive (unsigned s)
    else positive (unsigned (c ∷ s))
