-- ===== src/Common/Maps.antt =====
-- Go's maps with text keys, as association lists.
use Prim.Native.Nat.{◌+◌}
use Prim.Native.String.{String}
use mathlib.Core.Path.{◌≡◌, refl, sym, ap, ◌∙◌}
use mathlib.Core.Logic.{inl, inr}
use mathlib.Core.Bool.{cond}
use mathlib.Core.Option.{Option, none, some}
use mathlib.Core.List.{List, [], ◌∷◌}
use native.Mathlib.Omega.{arith}
use text.Mathlib.Text.{◌==◌}
use text.Mathlib.TextEquality.{eq_iff}
use text.Mathlib.TextPositions.{eq_refl}
use r.Common.Lists.{length}
use r.Common.Tests.{Bool-cases}

abbrev pub Map {ℓ} : Type ℓ → Type ℓ
Map V = List (String × V)

module _ {ℓ} {V : Type ℓ} where
  -- `value, ok := table[key]`
  unfoldable pub load : Map V → String → Option V
  load [] key = none
  load (entry ∷ table) key = cond (entry.0 == key) (some entry.1) (load table key)

  -- `table[key] = value`
  unfoldable pub store : Map V → String → V → Map V
  store [] key value = (key, value) ∷ []
  store (entry ∷ table) key value =
      cond (entry.0 == key) ((key, value) ∷ table) (entry ∷ store table key value)

  -- `delete(table, key)`
  unfoldable pub delete : Map V → String → Map V
  delete [] key = []
  delete (entry ∷ table) key =
      let kept = delete table key in cond (entry.0 == key) kept (entry ∷ kept)

  pub load-store :
      (table : Map V) (key other : String) (value : V)
      → load (store table key value) other ≡ cond (key == other) (some value) (load table other)
  unfolding load store
  load-store [] key other value = refl
  load-store (entry ∷ table) key other value = ground (
    arith,
    load-store table key other value,
    eq_iff entry.0 key,
    eq_iff entry.0 other,
    eq_iff key other,
  )

  pub load-store_self :
      (table : Map V) (key : String) (value : V) → load (store table key value) key ≡ some value
  load-store_self table key value = simp (load-store, eq_refl)

  -- A second store at a key takes the place of the first.
  pub store-store :
      (table : Map V) (key : String) (value value' : V)
      → store (store table key value) key value' ≡ store table key value'
  unfolding store
  store-store [] key value value' = ground (arith, eq_refl key)
  store-store (entry ∷ table) key value value' = elim (Bool-cases (entry.0 == key)) [
    | inl same ↦ rw (same, eq_refl key) refl
    | inr other ↦ rw (other, other) (ap (◌∷◌ entry) (store-store table key value value'))
  ]

  pub load-delete :
      (table : Map V) (key other : String)
      → load (delete table key) other ≡ cond (key == other) none (load table other)
  unfolding load delete
  load-delete [] key other = ground arith
  load-delete (entry ∷ table) key other = ground (
    arith,
    load-delete table key other,
    eq_iff entry.0 key,
    eq_iff entry.0 other,
    eq_iff key other,
  )

  pub length-store_new :
      (table : Map V) (key : String) (value : V)
      → load table key ≡ none
      → length (store table key value) ≡ length table + 1
  unfolding load store
  length-store_new [] key value e = omega arith
  length-store_new (entry ∷ table) key value e = ground (arith, length-store_new table key value)

  pub length-store_old :
      (table : Map V) (key : String) (value old : V)
      → load table key ≡ some old
      → length (store table key value) ≡ length table
  unfolding load store
  length-store_old [] key value old e = ground arith
  length-store_old (entry ∷ table) key value old e =
      ground (arith, length-store_old table key value old)

  pub delete-absent :
      (table : Map V) (key : String) → load table key ≡ none → delete table key ≡ table
  unfolding load delete
  delete-absent [] key e = refl
  delete-absent (entry ∷ table) key e = ground (arith, delete-absent table key)

  -- No key stands twice, as in a map.
  abbrev pub Distinct : Map V → Type ℓ
  Distinct [] = Unit
  Distinct (entry ∷ table) = (load table entry.0 ≡ none) × Distinct table

  pub store-Distinct :
      (table : Map V) (key : String) (value : V) → Distinct table → Distinct (store table key value)
  unfolding load store
  store-Distinct [] key value d = (refl, tt)
  store-Distinct (entry ∷ table) key value d = ground (
    arith,
    store-Distinct table key value d.1,
    load-store table key entry.0 value,
    eq_iff entry.0 key,
    eq_iff key entry.0,
  )

  pub delete-Distinct :
      (table : Map V) (key : String) → Distinct table → Distinct (delete table key)
  unfolding delete
  delete-Distinct [] key d = tt
  delete-Distinct (entry ∷ table) key d = ground (
    arith,
    delete-Distinct table key d.1,
    load-delete table key entry.0,
    eq_iff entry.0 key,
    eq_iff key entry.0,
  )

  pub length-delete :
      (table : Map V) (key : String) (value : V)
      → Distinct table
      → load table key ≡ some value
      → length (delete table key) + 1 ≡ length table
  unfolding load delete
  length-delete [] key value d e = ground arith
  length-delete (entry ∷ table) key value d e =
      ground (arith, length-delete table key value d.1, delete-absent table key, eq_iff entry.0 key)

-- The first of two that is there.
abbrev pub or_else {ℓ} : {A : Type ℓ} → Option A → Option A → Option A
or_else none o = o
or_else (some a) o = some a

pub or_else-none {ℓ} : {A : Type ℓ} (o : Option A) → or_else o none ≡ o
or_else-none none = refl
or_else-none (some a) = refl

module _ {ℓ} {V : Type ℓ} where
  -- `for k, v := range table { out[k] = v }`
  unfoldable pub copy_into : Map V → Map V → Map V
  copy_into [] out = out
  copy_into (entry ∷ table) out = copy_into table (store out entry.0 entry.1)

  pub load-copy_into :
      (table out : Map V) (key : String)
      → Distinct table
      → load (copy_into table out) key ≡ or_else (load table key) (load out key)
  unfolding copy_into load
  load-copy_into [] out key d = refl
  load-copy_into (entry ∷ table) out key d =
      load-copy_into table (store out entry.0 entry.1) key d.1
      ∙ ap (or_else (load table key)) (load-store out entry.0 key entry.1)
      ∙ (elim (Bool-cases (entry.0 == key)) [
        | inl own ↦ rw (own, ap (load table) (sym ((eq_iff entry.0 key).0 own)) ∙ d.0)
        | inr other ↦ rw other
      ])

  pub copy_into-Distinct : (table out : Map V) → Distinct out → Distinct (copy_into table out)
  unfolding copy_into
  copy_into-Distinct [] out d = d
  copy_into-Distinct (entry ∷ table) out d =
      copy_into-Distinct table (store out entry.0 entry.1) (store-Distinct out entry.0 entry.1 d)
