-- ===== src/Http/Names.antt =====
-- Texts up to the case of letters: bytes.EqualFold (IsWebSocket, context.go) and names of headers.
use Prim.Native.String.{String, [], ◌∷◌}
use Prim.Native.Char.{code}
use r.Common.{ℕ, ◌+◌, Bool, true, false, ◌&&◌, ◌||◌, not, leb, ◌==◌, if◌then◌else◌}

-- The code of a letter of ASCII in lower case.
abbrev pub lower_code : ℕ → ℕ
lower_code n = if leb 65 n && leb n 90 then n + 32 else n

-- Unicode's simple folding, as far as it touches the letters of ASCII: the Kelvin sign is a `k`, and
-- the long s is an `s`.
abbrev pub fold_code : ℕ → ℕ
fold_code n = if n == 8490 then 107 else if n == 383 then 115 else lower_code n

-- The texts have equal folded characters.
unfoldable pub same_fold : (ℕ → ℕ) → String → String → Bool
same_fold fold [] [] = true
same_fold fold [] (d ∷ t) = false
same_fold fold (c ∷ s) [] = false
same_fold fold (c ∷ s) (d ∷ t) =
    let rest = same_fold fold s t in (fold (code c) == fold (code d)) && rest

-- One header has both names.
unfoldable pub same_name : String → String → Bool
unfolding same_fold
same_name a b = same_fold lower_code a b

-- A header that fasthttp keeps as it was set: it has rules of its own for the others.
abbrev pub is_plain : String → Bool
is_plain name = not (
    same_name name "Content-Length"
    || same_name name "Transfer-Encoding"
    || same_name name "Connection"
    || same_name name "Set-Cookie"
    || same_name name "Date"
    || same_name name "Trailer")
