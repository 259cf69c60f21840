-- ===== src/Ws/Manager/Books.antt =====
-- The books of the ConnectionManager (ws.go, ws_connection_cleanup.go): its counter, its limit, and
-- what a clean-up leaves.
use text.Mathlib.Text.{◌==◌}
use r.Common.{
  ◌+◌, ◌≤◌, ◌<◌, ◌≡◌, refl, sym, ap, ◌∙◌, ◌↔◌, String, cond, Option, none, some, length, arith,
  eq_iff, Option-cases, inl, inr,
}
use r.Common.Int.{pos, negsuc, add_32, add_32-one, add_32-minus_one, pos_part, two_31}
use r.Common.Maps.{
  load, delete, Distinct, load-delete, store-Distinct, delete-Distinct, length-delete,
  length-store_new, load-store_self,
}
use r.Ws.Connection.{Connection}
use r.Ws.Manager.{Manager, add, remove}

-- The counter is the number of the connections, which the limit bounds.
pub record IsValid (cm : Manager) : Type 0 where
  pub distinct : Distinct cm.connections
  pub counted : cm.active_conns ≡ pos (length cm.connections)
  pub limited : length cm.connections ≤ pos_part cm.max_conns
  pub small : pos_part cm.max_conns + 1 < two_31

-- What Add leaves when it accepts.
abbrev pub Added : Connection → Manager → Manager → Type 0
Added conn cm cm' =
    IsValid cm'
    × (load cm'.connections conn.id ≡ some conn)
    × (length cm'.connections ≡ length cm.connections + 1)

module _ (conn : Connection) (cm : Manager) (v : IsValid cm)
    (fresh : load cm.connections conn.id ≡ none) where
  add-refused : (add conn cm ≡ none) ↔ (pos_part cm.max_conns ≤ length cm.connections)
  unfolding add
  add-refused = (λ e. ground (arith, v.counted), λ h. ground (arith, v.counted))

  add-Added : (cm' : Manager) → add conn cm ≡ some cm' → Added conn cm cm'
  unfolding add
  add-Added cm' e =
      let room : length cm.connections < pos_part cm.max_conns = ground (arith, v.counted) in
      let one : add_32 cm.active_conns (pos 1) ≡ pos (length cm.connections + 1) =
        ap (λ n. add_32 n (pos 1)) v.counted
        ∙ add_32-one (length cm.connections) (omega (arith, v.small)) in
      let grown = length-store_new cm.connections conn.id conn fresh in
      let apart = store-Distinct cm.connections conn.id conn v.distinct in
      let found = load-store_self cm.connections conn.id conn in
      (
        record {
          distinct = ground (arith, apart);
          counted = ground (arith, one, grown);
          limited = ground (arith, grown);
          small = ground (arith, v.small);
        },
        ground (arith, found),
        ground (arith, grown),
      )

-- Refused at the limit, and accepted below it.
abbrev pub AddOutcome : Connection → Manager → Option Manager → Type 0
AddOutcome conn cm none = pos_part cm.max_conns ≤ length cm.connections
AddOutcome conn cm (some cm') = (length cm.connections < pos_part cm.max_conns) × Added conn cm cm'

-- A new connection, under an id that is not in use, is refused exactly when the limit is reached;
-- if not, it is in the map, and counter and limit are still right.
pub add_lem :
    (conn : Connection) (cm : Manager)
    → IsValid cm
    → load cm.connections conn.id ≡ none
    → AddOutcome conn cm (add conn cm)
add_lem conn cm v fresh = outcome (add conn cm) refl
  where
    outcome : (o : Option Manager) → add conn cm ≡ o → AddOutcome conn cm o
    outcome none e = (add-refused conn cm v fresh).0 e
    outcome (some cm') e =
        (ground (arith, add-refused conn cm v fresh), add-Added conn cm v fresh cm' e)

module _ (id : String) (cm : Manager) (v : IsValid cm) where
  remove-IsValid : IsValid (remove id cm)
  unfolding remove
  remove-IsValid = elim (Option-cases (load cm.connections id)) [
    | inl absent ↦ ground (arith, v)
    | inr (conn, present) ↦
        let less = length-delete cm.connections id conn v.distinct present in
        let apart = delete-Distinct cm.connections id v.distinct in
        let one : add_32 cm.active_conns (negsuc 0) ≡ pos (length (delete cm.connections id)) =
          ap (λ n. add_32 n (negsuc 0)) (v.counted ∙ ap pos (sym less))
          ∙ add_32-minus_one (length (delete cm.connections id))
              (omega (arith, v.small, v.limited, less)) in
        record {
          distinct = ground (arith, apart);
          counted = ground (arith, one);
          limited = ground (arith, less, v.limited);
          small = ground (arith, v.small);
        }
  ]

  load-remove :
      (k : String) → load (remove id cm).connections k ≡ cond (id == k) none (load cm.connections k)
  unfolding remove
  load-remove k = elim (Option-cases (load cm.connections id)) [
    | inl absent ↦ ground (arith, eq_iff id k)
    | inr (conn, present) ↦ ground (arith, load-delete cm.connections id k)
  ]

-- Remove keeps the counter right and takes out its connection and no other.
pub remove_lem :
    (id : String) (cm : Manager)
    → IsValid cm
    → IsValid (remove id cm)
      × ((k : String)
          → load (remove id cm).connections k ≡ cond (id == k) none (load cm.connections k))
remove_lem id cm v = (remove-IsValid id cm v, load-remove id cm v)
