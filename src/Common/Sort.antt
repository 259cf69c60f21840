-- ===== src/Common/Sort.antt =====
-- `sort.Strings`: texts in the order of Go's `<`, which compares code points (bytes, for UTF-8).
use Prim.Native.Char.{code}
use Prim.Native.String.{String, [], ◌∷◌}
use mathlib.Core.Path.{◌≡◌, refl, ap, ◌∙◌}
use mathlib.Core.Bool.{Bool, true, false, cond}
use mathlib.Core.List.{List, Permᴰ}
use native.Mathlib.Omega.{arith}
use text.Mathlib.TextEquality.{codes_equal}
use r.Common.Tests.{ltb, ◌==◌}

unfoldable pub text_leb : String → String → Bool
text_leb [] t = true
text_leb (c ∷ s) [] = false
text_leb (c ∷ s) (d ∷ t) =
    cond (ltb (code c) (code d)) true (cond (code c == code d) (text_leb s t) false)

text_leb_total : (s t : String) → text_leb s t ≡ false → text_leb t s ≡ true
unfolding text_leb
text_leb_total [] t e = ground arith
text_leb_total (c ∷ s) [] e = refl
text_leb_total (c ∷ s) (d ∷ t) e = ground (arith, text_leb_total s t)

text_leb_trans : (s t u : String) → text_leb s t ≡ true → text_leb t u ≡ true → text_leb s u ≡ true
unfolding text_leb
text_leb_trans [] t u e f = refl
text_leb_trans (c ∷ s) [] u e f = ground arith
text_leb_trans (c ∷ s) (d ∷ t) [] e f = ground arith
text_leb_trans (c ∷ s) (d ∷ t) (g ∷ u) e f = ground (arith, text_leb_trans s t u)

text_leb_antisymm : (s t : String) → text_leb s t ≡ true → text_leb t s ≡ true → s ≡ t
unfolding text_leb
text_leb_antisymm [] [] e f = refl
text_leb_antisymm [] (d ∷ t) e f = ground arith
text_leb_antisymm (c ∷ s) [] e f = ground arith
text_leb_antisymm (c ∷ s) (d ∷ t) e f = ground (arith, text_leb_antisymm s t, codes_equal c d)

unfoldable pub insert_text : String → List String → List String
insert_text x List.[] = List.◌∷◌ x List.[]
insert_text x (List.◌∷◌ y ys) =
    cond (text_leb x y) (List.◌∷◌ x (List.◌∷◌ y ys)) (List.◌∷◌ y (insert_text x ys))

-- `sort.Strings`
unfoldable pub sort_texts : List String → List String
unfolding insert_text text_leb
sort_texts List.[] = List.[]
sort_texts (List.◌∷◌ x xs) = insert_text x (sort_texts xs)

insert_insert :
    (x y : String) (l : List String)
    → insert_text x (insert_text y l) ≡ insert_text y (insert_text x l)
unfolding insert_text
insert_insert x y List.[] = ground (arith, text_leb_total x y, text_leb_antisymm x y)
insert_insert x y (List.◌∷◌ z l) = ground (
  arith,
  insert_insert x y l,
  text_leb_total x y,
  text_leb_total x z,
  text_leb_total y z,
  text_leb_antisymm x y,
  text_leb_trans x y z,
  text_leb_trans y x z,
  text_leb_trans z x y,
  text_leb_trans z y x,
)

-- The order that the texts come in does not matter.
pub sort_texts-perm : {xs ys : List String} → Permᴰ xs ys → sort_texts xs ≡ sort_texts ys
unfolding sort_texts
sort_texts-perm Permᴰ.nil = refl
sort_texts-perm (Permᴰ.cons {b = y} {l₁ = xs} e p) =
    ap (λ x. insert_text x (sort_texts xs)) e ∙ ap (insert_text y) (sort_texts-perm p)
sort_texts-perm (Permᴰ.swap {a = x} {b = y} {a' = x'} {b' = y'} {l = l} e f) =
    insert_insert x y (sort_texts l)
    ∙ ap (λ u. insert_text u (insert_text x (sort_texts l))) f
    ∙ ap (λ u. insert_text x' (insert_text u (sort_texts l))) e
sort_texts-perm (Permᴰ.trans p q) = sort_texts-perm p ∙ sort_texts-perm q
