-- ===== src/Chain/Child.antt =====
-- Next on a context that WithTimeout (context.go) has made.
use r.Common.{
  [], suc, ◌≡◌, refl, ap, false, List, ◌∷◌, none, length, map, drop, arith, length-append,
  length-map,
}
use r.Common.Int.{pos}
use r.Chain.{Context, returned, advance, next_fuel}
use r.Chain.Onion.{Layer, layer_handler, leaf, onion, chain_of, loop-onion}

module _ {W : Type 0} where
  -- WithTimeout, as far as the chain is concerned: handlers and what they share are the parent's; the
  -- other fields are not set.
  abbrev pub with_timeout : Context W → Context W
  with_timeout c = record {
    handlers = c.handlers;
    handler_idx = pos 0;
    aborted = false;
    err = none;
    world = c.world;
  }

  -- Next on a context that WithTimeout has made of one with the chain of some layers: it runs every
  -- handler but the first from the start, wherever in the chain the parent is, and also if the
  -- parent is aborted; so a middleware that goes on through such a context runs itself again.
  with_timeout_restarts :
      (l : Layer W) (ls : List (Layer W)) (h : W → W) (c : Context W)
      → c.handlers ≡ chain_of (l ∷ ls) h
      → (d : Context W) × (next_fuel (suc (length c.handlers)) (with_timeout c) ≡ returned d)
        × (d.world ≡ onion ls h c.world)
  unfolding next_fuel
  with_timeout_restarts l ls h c e =
      let (d, o, v, _, _) =
        loop-onion ls h (suc (length c.handlers)) 1 (advance (with_timeout c)) (ap (drop 1) e) refl
          refl
          (omega (
            arith,
            ap length e,
            length-append (map layer_handler (l ∷ ls)) (leaf h ∷ []),
            length-map (l ∷ ls) layer_handler,
          )) in
      (d, o, v)
