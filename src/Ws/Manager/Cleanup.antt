-- ===== src/Ws/Manager/Cleanup.antt =====
-- Closing a connection (ws.go) and the clean-up of stale ones (ws_connection_cleanup.go).
use mathlib.Core.Path.{subst}
use text.Mathlib.Text.{◌==◌}
use r.Common.{
  ℕ, suc, zero, ◌≡◌, refl, sym, ap, ◌∙◌, String, Bool, true, false, cond, Option, none, some, List,
  [], ◌∷◌, ◌++◌, length, arith, if◌then◌else◌, eq_iff, Bool-cases, inl, inr,
}
use r.Common.Maps.{Map, load, Distinct}
use r.Ws.Connection.{Connection, closed, on_close}
use r.Ws.Manager.{Manager, remove, close, is_stale, cleanup_entries, cleanup_stale_connections}
use r.Ws.Manager.Books.{IsValid, remove_lem}

unfoldable pub close_times : ℕ → Connection × Manager → Connection × Manager
close_times zero p = p
close_times (suc n) p = close_times n (close p)

-- What the first Close does.
record Shut (c : Connection) (cm : Manager) (p : Connection × Manager) : Type 0 where
  once_eq : p.0.once ≡ true
  state_eq : p.0.state ≡ closed
  close_ch_eq : p.0.close_ch ≡ true
  socket_eq : p.0.socket ≡ false
  notices_eq : p.0.notices ≡ (if c.handler then c.notices ++ (on_close ∷ []) else c.notices)
  manager_eq : p.1 ≡ remove c.id cm

close-Shut : (c : Connection) (cm : Manager) → c.once ≡ false → Shut c cm (close (c, cm))
unfolding close
close-Shut c cm h = ground arith

pub close-again : (p : Connection × Manager) → p.0.once ≡ true → close p ≡ p
unfolding close
close-again (c, cm) h = ground arith

close_times-again : (n : ℕ) (p : Connection × Manager) → p.0.once ≡ true → close_times n p ≡ p
unfolding close_times
close_times-again zero p h = refl
close_times-again (suc n) p h = ap (close_times n) (close-again p h) ∙ close_times-again n p h

-- However often a connection is closed, it is closed once: the handler is told one time, the channel
-- and the socket are closed, the state is closed, and the manager has removed it; the second and all
-- later calls change nothing.
pub close_times_lem :
    (n : ℕ) (c : Connection) (cm : Manager)
    → c.once ≡ false
    → let (d, cm') = close_times (suc n) (c, cm) in
      (d.state ≡ closed)
      × (d.close_ch ≡ true)
      × (d.socket ≡ false)
      × (d.notices ≡ (if c.handler then c.notices ++ (on_close ∷ []) else c.notices))
      × (cm' ≡ remove c.id cm)
unfolding close_times
close_times_lem n c cm h =
    let s = close-Shut c cm h in
    let same = close_times-again n (close (c, cm)) s.once_eq in
    (
      ap (λ (p : Connection × Manager). p.0.state) same ∙ s.state_eq,
      ap (λ (p : Connection × Manager). p.0.close_ch) same ∙ s.close_ch_eq,
      ap (λ (p : Connection × Manager). p.0.socket) same ∙ s.socket_eq,
      ap (λ (p : Connection × Manager). p.0.notices) same ∙ s.notices_eq,
      ap (λ (p : Connection × Manager). p.1) same ∙ s.manager_eq,
    )

-- The keys of the map are the ids of the connections.
abbrev pub Keyed : Map Connection → Type 0
Keyed [] = Unit {0}
Keyed (entry ∷ entries) = (entry.1.id ≡ entry.0) × Keyed entries

abbrev pub stale_at : ℕ → Option Connection → Bool
stale_at now none = false
stale_at now (some c) = is_stale now c

-- A manager that is `cm` without the connection of the given id.
abbrev Without : String → Manager → Manager → Type 0
Without id cm cm' =
    IsValid cm'
    × ((k : String) → load cm'.connections k ≡ cond (id == k) none (load cm.connections k))

close-id : (c : Connection) (cm : Manager) → (close (c, cm)).0.id ≡ c.id
unfolding close
close-id c cm = ground arith

close-manager :
    (c : Connection) (cm : Manager) → (close (c, cm)).1 ≡ (if c.once then cm else remove c.id cm)
unfolding close
close-manager c cm = elim (Bool-cases c.once) [ inl h ↦ rw h | inr h ↦ rw h ]

cond_twice : (b : Bool) (o : Option Connection) → cond b none (cond b none o) ≡ cond b none o
cond_twice true o = refl
cond_twice false o = refl

remove_twice-Without :
    (id : String) (cm : Manager) → IsValid cm → Without id cm (remove id (remove id cm))
remove_twice-Without id cm v =
    let (once, gone) = remove_lem id cm v in
    let (twice, still) = remove_lem id (remove id cm) once in
    (twice, λ k. still k ∙ ap (cond (id == k) none) (gone k) ∙ cond_twice (id == k) _)

close-remove-Without :
    (c : Connection) (cm : Manager)
    → IsValid cm
    → Without c.id cm (remove (close (c, cm)).0.id (close (c, cm)).1)
close-remove-Without c cm v =
    rw (close-id c cm, close-manager c cm)
      (elim (Bool-cases c.once) [
        | inl again ↦ rw again (remove_lem c.id cm v)
        | inr first ↦ rw first (remove_twice-Without c.id cm v)
      ])

-- The two cases of a key: the entry's own, which is stale, or another.
join_stale :
    (own other : Bool) (x : Option Connection)
    → cond other none (cond own none x) ≡ cond (cond own true other) none x
join_stale true true x = refl
join_stale true false x = refl
join_stale false other x = refl

stale_at-cond :
    (now : ℕ) (own : Bool) (c : Connection) (o : Option Connection)
    → stale_at now (cond own (some c) o) ≡ cond own (is_stale now c) (stale_at now o)
stale_at-cond now true c o = refl
stale_at-cond now false c o = refl

-- The stale connections, in the order of the map.
abbrev pub stale_of : ℕ → Map Connection → List Connection
stale_of now [] = []
stale_of now (entry ∷ entries) =
    let rest = stale_of now entries in if is_stale now entry.1 then entry.1 ∷ rest else rest

-- What Close leaves of a connection: one that was closed before is as it was; the socket and the
-- channel of any other are closed, its state is closed, and its handler has been told.
abbrev ClosedFrom : Bool → Connection → Connection → Type 0
ClosedFrom true c d = d ≡ c
ClosedFrom false c d =
    (d.id ≡ c.id)
    × (d.state ≡ closed)
    × (d.close_ch ≡ true)
    × (d.socket ≡ false)
    × (d.notices ≡ (if c.handler then c.notices ++ (on_close ∷ []) else c.notices))

abbrev pub IsClosed : Connection → Connection → Type 0
IsClosed c d = (d.once ≡ true) × ClosedFrom c.once c d

-- One by one.
abbrev pub AllClosed : List Connection → List Connection → Type 0
AllClosed [] [] = Unit {0}
AllClosed [] (d ∷ ds) = ⊥
AllClosed (c ∷ cs) [] = ⊥
AllClosed (c ∷ cs) (d ∷ ds) = IsClosed c d × AllClosed cs ds

close-IsClosed : (c : Connection) (cm : Manager) → IsClosed c (close (c, cm)).0
close-IsClosed c cm = elim (Bool-cases c.once) [
  | inl again ↦
      let same = ap (λ (p : Connection × Manager). p.0) (close-again (c, cm) again) in
      (
        ap (λ (d : Connection). d.once) same ∙ again,
        subst (λ b. ClosedFrom b c (close (c, cm)).0) (sym again) same,
      )
  | inr first ↦
      let s = close-Shut c cm first in
      (
        s.once_eq,
        subst (λ b. ClosedFrom b c (close (c, cm)).0) (sym first)
            (close-id c cm, s.state_eq, s.close_ch_eq, s.socket_eq, s.notices_eq),
      )
]

-- What the round over `entries` makes of the manager `cm`.
record Cleaned (now : ℕ) (entries : Map Connection) (cm : Manager)
    (p : List Connection × ℕ × Manager) : Type 0 where
  valid : IsValid p.2
  left :
      (k : String)
      → load p.2.connections k ≡ cond (stale_at now (load entries k)) none (load cm.connections k)
  counted : p.1 ≡ length p.0
  shut : AllClosed (stale_of now entries) p.0

cleanup_entries-Cleaned :
    (now : ℕ) (entries : Map Connection) (cm : Manager)
    → Distinct entries
    → Keyed entries
    → IsValid cm
    → Cleaned now entries cm (cleanup_entries now entries cm)
unfolding cleanup_entries load
cleanup_entries-Cleaned now [] cm d keyed v = record {
  valid = v;
  left = λ k. refl;
  counted = refl;
  shut = tt;
}
cleanup_entries-Cleaned now (entry ∷ entries) cm d keyed v =
    elim (Bool-cases (is_stale now entry.1)) [
      | inl stale ↦
          let (valid, without) = close-remove-Without entry.1 cm v in
          let ih = cleanup_entries-Cleaned now entries _ d.1 keyed.1 valid in
          rw stale (record {
            valid = ih.valid;
            left = λ k.
                ih.left k
                ∙ ap (cond (stale_at now (load entries k)) none)
                    (without k ∙ ap (λ id. cond (id == k) none (load cm.connections k)) keyed.0)
                ∙ join_stale (entry.0 == k) (stale_at now (load entries k)) (load cm.connections k)
                ∙ sym (
                    ap (λ b. cond b none (load cm.connections k))
                      (stale_at-cond now (entry.0 == k) entry.1 (load entries k)
                        ∙ ap (λ b. cond (entry.0 == k) b (stale_at now (load entries k))) stale));
            counted = ap suc ih.counted;
            shut = rw stale (close-IsClosed entry.1 cm, ih.shut);
          })
      | inr fresh ↦
          let ih = cleanup_entries-Cleaned now entries cm d.1 keyed.1 v in
          rw fresh (record {
            valid = ih.valid;
            left = λ k.
                ih.left k ∙ sym (ap (λ b. cond b none (load cm.connections k)) (own_key k fresh));
            counted = ih.counted;
            shut = rw fresh (ih.shut);
          })
    ]
  where
    own_key :
        (k : String)
        → is_stale now entry.1 ≡ false
        → stale_at now (cond (entry.0 == k) (some entry.1) (load entries k))
          ≡ stale_at now (load entries k)
    own_key k fresh = elim (Bool-cases (entry.0 == k)) [
      | inl hit ↦ rw hit (
          fresh
          ∙ sym (ap (stale_at now) d.0)
          ∙ ap (λ j. stale_at now (load entries j)) ((eq_iff entry.0 k).0 hit))
      | inr miss ↦ rw miss
    ]

-- After a clean-up the manager holds exactly the connections that were not stale, under their ids,
-- its counter is right, and the connections that are returned, with their number, are the stale ones
-- in the map's order, each as Close leaves it: one that was closed before as it was, the socket and
-- the channel of any other closed, its state closed and its handler told.
pub cleanup_stale_connections_lem :
    (now : ℕ) (cm : Manager)
    → IsValid cm
    → Keyed cm.connections
    → let (gone, count, end) = cleanup_stale_connections now cm in
      IsValid end
      × ((k : String)
          → load end.connections k
            ≡ cond (stale_at now (load cm.connections k)) none (load cm.connections k))
      × (count ≡ length gone)
      × AllClosed (stale_of now cm.connections) gone
unfolding cleanup_stale_connections
cleanup_stale_connections_lem now cm v keyed =
    let c = cleanup_entries-Cleaned now cm.connections cm v.distinct keyed v in
    (c.valid, c.left, c.counted, c.shut)
