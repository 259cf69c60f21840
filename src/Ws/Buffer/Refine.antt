-- ===== src/Ws/Buffer/Refine.antt =====
-- MessageBuffer (ws.go) keeps the contract of a bounded queue.
use native.Mathlib.Nat.{mod-add-mod, mod-eq_of_lt, mod-eq-sub-mod, mod-lt}
use native.Mathlib.Decide.{dec_lt, ℕ_discrete}
use r.Common.{
  ℕ, zero, suc, ◌+◌, ◌-◌, ◌%◌, ◌≤◌, ◌<◌, ◌≡◌, refl, sym, ap, ◌∙◌, ◌≢◌, none, some, List, [], ◌∷◌,
  ◌++◌, map, length, get_elem?, set, arith, length-append, length-set, get_elem?-set_self,
  get_elem?-set_ne,
}
use r.Ws.Buffer.{
  Bytes, MessageBuffer, accepted, buffer_full, nothing, message, write, read, after, notify,
}
use r.Ws.Buffer.Fifo.{Call, put, take, serve, run}

-- The slot of the i-th oldest message.
abbrev pub slot : MessageBuffer → ℕ → ℕ
slot b i = (b.head + i) % b.size

-- The buffer holds the messages of `q`, oldest first, in the slots from its head on.
pub record Holds (b : MessageBuffer) (q : List Bytes) : Type 0 where
  pub sized : length b.buffer ≡ b.size
  pub head_lt : b.head < b.size
  pub tail_eq : b.tail ≡ slot b b.count
  pub count_eq : b.count ≡ length q
  pub count_le : b.count ≤ b.size
  pub slots : (i : ℕ) → i < length q → get_elem? b.buffer (slot b i) ≡ get_elem? (map some q) i

-- One round past the end comes back to the start.
wrap-around : (size k : ℕ) → size ≤ k → k < size + size → k % size ≡ k - size
wrap-around size k p q = mod-eq-sub-mod p ∙ mod-eq_of_lt (omega arith)

-- Different places of less than one round are different slots.
place-ne : (size h i j : ℕ) → h < size → i < j → j < size → (h + i) % size ≢ (h + j) % size
place-ne size h i j hh hi hj = elim (dec_lt (h + j) size) [
  | yes p ↦ omega (
    arith,
    mod-eq_of_lt {n = h + j} {m = size} p,
    mod-eq_of_lt {n = h + i} {m = size} (omega arith),
  )
  | no p ↦ elim (dec_lt (h + i) size) [
    | yes q ↦ omega (
      arith,
      wrap-around size (h + j) (omega arith) (omega arith),
      mod-eq_of_lt {n = h + i} {m = size} q,
    )
    | no q ↦ omega (
      arith,
      wrap-around size (h + j) (omega arith) (omega arith),
      wrap-around size (h + i) (omega arith) (omega arith),
    )
  ]
]

module _ {ℓ} {A : Type ℓ} where
  get_elem?-append_left :
      (xs ys : List A) (i : ℕ) → i < length xs → get_elem? (xs ++ ys) i ≡ get_elem? xs i
  get_elem?-append_left [] ys i h = elim h [ ]
  get_elem?-append_left (x ∷ xs) ys zero h = refl
  get_elem?-append_left (x ∷ xs) ys (suc i) h = get_elem?-append_left xs ys i (omega arith)

  get_elem?-append_end : (xs : List A) (x : A) → get_elem? (xs ++ (x ∷ [])) (length xs) ≡ some x
  get_elem?-append_end [] x = refl
  get_elem?-append_end (y ∷ xs) x = get_elem?-append_end xs x

map-append_some :
    (q : List Bytes) (x : Bytes) → map some (q ++ (x ∷ [])) ≡ map some q ++ (some x ∷ [])
map-append_some [] x = refl
map-append_some (y ∷ q) x = ap (◌∷◌ (some y)) (map-append_some q x)

length-map-some : (q : List Bytes) → length (map some q) ≡ length q
length-map-some [] = refl
length-map-some (x ∷ q) = ap suc (length-map-some q)

-- What a write that is accepted leaves.
abbrev written : MessageBuffer → Bytes → MessageBuffer
written b x = record b {
  buffer = set b.buffer b.tail (some x);
  tail = after b.size b.tail;
  count = b.count + 1;
  not_empty = notify b.not_empty;
}

module _ (b : MessageBuffer) (q : List Bytes) (v : Holds b q) where
  tail_lt : b.tail < b.size
  tail_lt = rw v.tail_eq (mod-lt (b.head + b.count) (omega arith))

  written-slots :
      (x : Bytes) (i : ℕ)
      → b.count < b.size
      → i < length q + 1
      → get_elem? (set b.buffer b.tail (some x)) (slot b i) ≡ get_elem? (map some (q ++ (x ∷ []))) i
  written-slots x i room h = elim (dec_lt i b.count) [
    | yes old ↦
        get_elem?-set_ne b.buffer (some x)
          (λ e. place-ne b.size b.head i b.count v.head_lt old room (sym (sym v.tail_eq ∙ e)))
        ∙ v.slots i (omega (arith, v.count_eq))
        ∙ sym (
            get_elem?-append_left (map some q) (some x ∷ []) i
              (omega (arith, v.count_eq, length-map-some q)))
        ∙ ap (λ l. get_elem? l i) (sym (map-append_some q x))
    | no new ↦
        let last : i ≡ length (map some q) = omega (arith, v.count_eq, length-map-some q) in
        let at : slot b i ≡ b.tail =
          ap (slot b) (omega (arith, v.count_eq, length-map-some q)) ∙ sym v.tail_eq in
        ap (get_elem? (set b.buffer b.tail (some x))) at
        ∙ get_elem?-set_self b.buffer b.tail (some x) (omega (arith, tail_lt, v.sized))
        ∙ sym (get_elem?-append_end (map some q) (some x))
        ∙ ap (get_elem? (map some q ++ (some x ∷ []))) (sym last)
        ∙ ap (λ l. get_elem? l i) (sym (map-append_some q x))
  ]

  write-full : (x : Bytes) → length q ≡ b.size → write b x ≡ buffer_full
  unfolding write
  write-full x e = ground (arith, v.count_eq)

  write-accepted : (x : Bytes) → length q ≢ b.size → write b x ≡ accepted (written b x)
  unfolding write
  write-accepted x e = ground (arith, v.count_eq, v.count_le, tail_lt, v.sized)

  written-Holds : (x : Bytes) → length q ≢ b.size → Holds (written b x) (q ++ (x ∷ []))
  written-Holds x e =
      let room : b.count < b.size = omega arith in
      record {
        sized = length-set b.buffer b.tail (some x) ∙ v.sized;
        head_lt = v.head_lt;
        tail_eq =
            ap (after b.size) v.tail_eq
            ∙ mod-add-mod (b.head + b.count) b.size 1
            ∙ ap (λ k. k % b.size) (omega arith);
        count_eq = omega (arith, length-append q (x ∷ []));
        count_le = omega arith;
        slots = λ i h. written-slots x i room (omega (arith, length-append q (x ∷ [])));
      }

-- What a read leaves.
abbrev taken : MessageBuffer → MessageBuffer
taken b = record b {
  buffer = set b.buffer b.head none;
  head = after b.size b.head;
  count = b.count - 1;
  not_full = notify b.not_full;
}

module _ (b : MessageBuffer) where
  read-nothing : Holds b [] → read b ≡ nothing
  unfolding read
  read-nothing v = ground (arith, v.count_eq)

  module _ (x : Bytes) (q : List Bytes) (v : Holds b (x ∷ q)) where
    front : get_elem? b.buffer b.head ≡ some (some x)
    front =
        ap (get_elem? b.buffer) (sym (mod-eq_of_lt v.head_lt) ∙ ap (λ k. k % b.size) (omega arith))
        ∙ v.slots 0 (omega arith)

    read-message : read b ≡ message (some x) (taken b)
    unfolding read
    read-message = ground (arith, front, v.count_eq, v.head_lt)

    moved : (i : ℕ) → slot (taken b) i ≡ slot b (suc i)
    moved i = mod-add-mod (b.head + 1) b.size i ∙ ap (λ k. k % b.size) (omega arith)

    taken-Holds : Holds (taken b) q
    taken-Holds = record {
      sized = length-set b.buffer b.head none ∙ v.sized;
      head_lt = mod-lt (b.head + 1) (omega (arith, v.head_lt));
      tail_eq = v.tail_eq ∙ ap (slot b) (omega (arith, v.count_eq)) ∙ sym (moved (b.count - 1));
      count_eq = omega (arith, v.count_eq);
      count_le = omega (arith, v.count_le);
      slots = λ i h.
          ap (get_elem? (set b.buffer b.head none)) (moved i)
          ∙ get_elem?-set_ne b.buffer none (λ e.
            place-ne b.size b.head 0 (suc i) v.head_lt (omega arith)
              (omega (arith, v.count_le, v.count_eq))
              (ap (λ k. k % b.size) (omega arith) ∙ mod-eq_of_lt v.head_lt ∙ e))
          ∙ v.slots (suc i) (omega arith);
    }

-- No sequence of reads and writes tells the buffer from a first-in first-out queue of at most
-- `size` messages: a write is refused exactly when `size` messages are held, a read gives the
-- oldest message or finds nothing, and no call panics.
pub run_refines :
    (calls : List Call) (b : MessageBuffer) (q : List Bytes)
    → Holds b q
    → run b calls ≡ serve b.size q calls
unfolding run serve
run_refines [] b q v = refl
run_refines (put x ∷ calls) b q v = elim (ℕ_discrete (length q) b.size) [
  | yes full ↦ ground (arith, write-full b q v x full, run_refines calls b q v)
  | no room ↦ ground (
    arith,
    write-accepted b q v x room,
    run_refines calls (written b x) (q ++ (x ∷ [])) (written-Holds b q v x room),
  )
]
run_refines (take ∷ calls) b [] v = ground (arith, read-nothing b v, run_refines calls b [] v)
run_refines (take ∷ calls) b (x ∷ q) v =
    ground (arith, read-message b x q v, run_refines calls (taken b) q (taken-Holds b x q v))
