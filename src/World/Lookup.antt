-- ===== src/World/Lookup.antt =====
-- What `hrd_world_view_raw` answers after a spawn and after a request for destruction.
use hwarangdo.Prelude.{
  ℕ, ◌<◌, ◌≡◌, ◌≢◌, refl, true, false, some, List, [], ◌∷◌, arith, length, get_elem?, set, contains,
  ap, sym, ◌∙◌, Option-cases, inl, inr, get_elem?-set, get_elem?-lt, get_elem?-append_left,
}
use hwarangdo.World.{
  two32, Slot, World, Runtime, ok, panic, view_invalid, already_pending, occupied, write_slot,
  fresh_slot, make_handle, handle_index, handle_generation, spawn_raw, destroy_entity_raw, view_raw,
}
use hwarangdo.World.Slots.{At, Inv, append-Inv, Spawned, reused, added, grown}
use hwarangdo.World.Calls.{requested, spawn-Spawned, destroy_entity-Requested}
use hwarangdo.World.Handles.{handle_parts}

-- The slot that a handle which can be viewed names.
pub record Views (w : World) (h p : ℕ) : Type 0 where
  pub slot : Slot
  pub at : At w (handle_index h) slot
  pub alive : slot.alive ≡ true
  pub not_pending : slot.destroy_pending ≡ false
  pub generation : slot.generation ≡ handle_generation h
  pub ptr : slot.ptr ≡ p

pub view-Views :
    (h p : ℕ) (r : Runtime) (w : World) → r.world ≡ some w → view_raw h r ≡ ok p → Views w h p
unfolding view_raw
view-Views h p r w f q = elim (Option-cases (get_elem? w.entities (handle_index h))) [
  | inl outside ↦ absurd (cc (rw (f, outside) at q))
  | inr (s, a) ↦ record {
    slot = s;
    at = a;
    alive = ground (arith, rw (f, a) at q);
    not_pending = ground (arith, rw (f, a) at q);
    generation = ground (arith, rw (f, a) at q);
    ptr = ground (arith, rw (f, a) at q);
  }
]

pub Views-view :
    (h p : ℕ) (r : Runtime) (w : World) → r.world ≡ some w → Views w h p → view_raw h r ≡ ok p
unfolding view_raw
Views-view h p r w f v = rw (f, v.at) (ground (arith, v.alive, v.not_pending, v.generation, v.ptr))

occupied-Views :
    (w : World) (i e d o : ℕ) (s : Slot)
    → At w i s
    → i < two32
    → s.generation < two32
    → Views (write_slot w i (occupied e d o s)) (make_handle i s.generation) e
occupied-Views w i e d o s a small gen =
    let (index, generation) = handle_parts i s.generation small gen in
    record {
      slot = occupied e d o s;
      at = rw index (ground (arith, get_elem?-set w.entities i i (occupied e d o s) s a));
      alive = refl;
      not_pending = refl;
      generation = sym generation;
      ptr = refl;
    }

-- A write elsewhere leaves what a handle views.
written-Views :
    (w : World) (i k p : ℕ) (s s' : Slot)
    → At w i s
    → Views w k p
    → handle_index k ≢ i
    → Views (write_slot w i s') k p
written-Views w i k p s s' a v other = record {
  slot = v.slot;
  at = ground (arith, get_elem?-set w.entities i (handle_index k) s' s a, v.at, other);
  alive = v.alive;
  not_pending = v.not_pending;
  generation = v.generation;
  ptr = v.ptr;
}

Spawned-Views :
    {c e d o h : ℕ} {w w' : World}
    → Inv c w
    → length w.entities < two32
    → Spawned e d o w h w'
    → Views w' h e
Spawned-Views {e = e} {d} {o} {w = w} v small (reused i rest s f a k q) =
    rw (k, q)
      (occupied-Views (record w { free_slots = rest }) i e d o s a
        (omega (arith, get_elem?-lt w.entities i s a, small)) (v.generation_lt i s a))
Spawned-Views {c} {e} {d} {o} {w = w} v small (added i s f j a k q) =
    rw (k, q)
      (occupied-Views (grown w) i e d o s a (omega (arith, j))
        ((append-Inv c w v f).generation_lt i s a))

append-Views : (w : World) (k p : ℕ) → Views w k p → Views (grown w) k p
append-Views w k p v = record {
  slot = v.slot;
  at = get_elem?-append_left w.entities (fresh_slot ∷ []) (handle_index k) v.slot v.at;
  alive = v.alive;
  not_pending = v.not_pending;
  generation = v.generation;
  ptr = v.ptr;
}

popped-Views :
    (w : World) (rest : List ℕ) (k p : ℕ) → Views w k p → Views (record w { free_slots = rest }) k p
popped-Views w rest k p v = record {
  slot = v.slot;
  at = v.at;
  alive = v.alive;
  not_pending = v.not_pending;
  generation = v.generation;
  ptr = v.ptr;
}

-- A spawn takes no slot that a handle views, and leaves what the handle views.
Spawned-Views_other :
    {c e d o h k p : ℕ} {w w' : World}
    → Inv c w
    → length w.entities < two32
    → Spawned e d o w h w'
    → Views w k p
    → (handle_index k ≢ handle_index h) × Views w' k p
Spawned-Views_other {e = e} {d} {o} {k = k} {p} {w} v small (reused i rest s f a m q) old =
    let bound = get_elem?-lt w.entities i s a in
    let index = handle_parts i s.generation (omega (arith, bound, small)) (v.generation_lt i s a) in
    let (x, b, dead) = v.free_dead i (ground (arith, ap (contains i) f)) in
    let other : handle_index k ≢ i = λ same. cc (same, b, dead, old.at, old.alive) in
    (
      rw (m, index.0) other,
      rw q (
          written-Views (record w { free_slots = rest }) i k p s (occupied e d o s) a
            (popped-Views w rest k p old) other),
    )
Spawned-Views_other {c} {e} {d} {o} {k = k} {p} {w} v small (added i s f j a m q) old =
    let index =
      handle_parts i s.generation (omega (arith, j)) ((append-Inv c w v f).generation_lt i s a) in
    let bound = get_elem?-lt w.entities (handle_index k) old.slot old.at in
    let other : handle_index k ≢ i = λ same. omega (arith, same, bound, j) in
    (
      rw (m, index.0) other,
      rw q (written-Views (grown w) i k p s (occupied e d o s) a (append-Views w k p old) other),
    )

-- In a well-formed world of fewer than 2^32 slots a spawn that succeeds returns a handle that
-- views the new entity. Every handle that viewed an entity before is another one, and views it
-- still.
pub view-spawn :
    (e d o c : ℕ) (r r' : Runtime) (w : World) (h : ℕ)
    → r.world ≡ some w
    → Inv c w
    → length w.entities < two32
    → spawn_raw e d o r ≡ ok (h, r')
    → (view_raw h r' ≡ ok e) × ((k p : ℕ) → view_raw k r ≡ ok p → (k ≢ h) × (view_raw k r' ≡ ok p))
view-spawn e d o c r r' w h f v small p =
    let (w', made, q, _, _) = spawn-Spawned e d o r w f p in
    let f' = ap (λ (x : Runtime). x.world) q in
    (
      Views-view h e r' w' f' (Spawned-Views v small made),
      λ k a old.
          let (other, kept) = Spawned-Views_other v small made (view-Views k a r w f old) in
          ((λ same. other (ap handle_index same)), Views-view k a r' w' f' kept),
    )

-- After a request for an entity's destruction its handle can neither be viewed nor be destroyed
-- again, and every handle of another slot views what it viewed.
pub view-destroy_entity :
    (h : ℕ) (r r' : Runtime) (w : World)
    → r.world ≡ some w
    → destroy_entity_raw h r ≡ ok r'
    → (view_raw h r' ≡ panic view_invalid)
      × (destroy_entity_raw h r' ≡ panic already_pending)
      × ((k p : ℕ) → handle_index k ≢ handle_index h → view_raw k r ≡ ok p → view_raw k r' ≡ ok p)
unfolding view_raw destroy_entity_raw
view-destroy_entity h r r' w f p =
    let (w', made, q) = destroy_entity-Requested h r w f p in
    let f' = ap (λ (x : Runtime). x.world) q ∙ ap some made.result in
    let i = handle_index h in
    let s' = record made.slot { destroy_pending = true } in
    let here : get_elem? (set w.entities i s') i ≡ some s' =
      ground (arith, get_elem?-set w.entities i i s' made.slot made.at) in
    (
      rw (f', here) (ground (arith, made.alive)),
      rw (f', here) (ground (arith, made.alive, made.generation)),
      λ k a other old.
          let v = view-Views k a r w f old in
          let kept = written-Views w i k a made.slot s' made.at v other in
          Views-view k a r' (requested w i made.slot) f' (record {
            slot = kept.slot;
            at = kept.at;
            alive = kept.alive;
            not_pending = kept.not_pending;
            generation = kept.generation;
            ptr = kept.ptr;
          }),
    )
