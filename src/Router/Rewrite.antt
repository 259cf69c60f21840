-- ===== src/Router/Rewrite.antt =====
-- The PathRewrite of staticHandler (router.go), on paths as bytes.
use r.Common.{
  ℕ, ◌≡◌, ◌≢◌, refl, sym, ap, ◌∙◌, Bool, true, false, Bool-cases, ◌&&◌, List, [], ◌∷◌, ◌++◌, length,
  take, drop, leb, ◌==◌, if◌then◌else◌, ◌⊎◌, inl, inr, arith,
}

abbrev pub PathBytes : Type 0
PathBytes = List ℕ

abbrev pub same_bytes : PathBytes → PathBytes → Bool
same_bytes [] [] = true
same_bytes [] (c ∷ q) = false
same_bytes (b ∷ p) [] = false
same_bytes (b ∷ p) (c ∷ q) = let rest = same_bytes p q in (b == c) && rest

-- `len(p) >= len(prefix) && string(p[:len(prefix)]) == prefix`
abbrev pub has_prefix : PathBytes → PathBytes → Bool
has_prefix prefix p = leb (length prefix) (length p) && same_bytes (take (length prefix) p) prefix

-- The closure PathRewrite of staticHandler
unfoldable pub path_rewrite : PathBytes → PathBytes → PathBytes
path_rewrite prefix p = if has_prefix prefix p then drop (length prefix) p else p

has_prefix-append : (prefix q : PathBytes) → has_prefix prefix (prefix ++ q) ≡ true
has_prefix-append [] q = ground arith
has_prefix-append (b ∷ prefix) q = ground (arith, has_prefix-append prefix q)

drop-append : (prefix q : PathBytes) → drop (length prefix) (prefix ++ q) ≡ q
drop-append [] q = refl
drop-append (b ∷ prefix) q = drop-append prefix q

has_prefix-split :
    (prefix p : PathBytes) → has_prefix prefix p ≡ true → p ≡ prefix ++ drop (length prefix) p
has_prefix-split [] p h = refl
has_prefix-split (b ∷ prefix) [] h = ground arith
has_prefix-split (b ∷ prefix) (c ∷ p) h = ground (arith, has_prefix-split prefix p)

-- A path under the prefix of a static route is looked up as what stands behind the prefix, byte for
-- byte, and every other path as it is.
pub path_rewrite_lem :
    (prefix p : PathBytes)
    → ((q : PathBytes) × (p ≡ prefix ++ q) × (path_rewrite prefix p ≡ q))
      ⊎ (((q : PathBytes) → p ≢ prefix ++ q) × (path_rewrite prefix p ≡ p))
unfolding path_rewrite
path_rewrite_lem prefix p = elim (Bool-cases (has_prefix prefix p)) [
  | inl yes' ↦ inl (drop (length prefix) p, has_prefix-split prefix p yes', rw yes' refl)
  | inr no' ↦ inr (
    λ q e. ground (arith, sym no' ∙ ap (has_prefix prefix) e ∙ has_prefix-append prefix q),
    rw no' refl,
  )
]
