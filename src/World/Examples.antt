-- ===== src/World/Examples.antt =====
-- The theorems on the world at work: one entity is spawned, destroyed and flushed.
use hwarangdo.Prelude.{ℕ, ◌≡◌, ◌≢◌, refl, true, some, [], ◌∷◌, arith, sym, ap, subst, some-eq}
use hwarangdo.World.{
  World, Runtime, Outcome, ran_destroy, freed, ok, panic, view_invalid, already_pending, fresh_slot,
  occupied, make_handle, handle_index, handle_generation, empty_world, spawn_raw, view_raw,
  destroy_entity_raw, flush_destroy, flush_entity, flush_from, release_entity, occupy, take_slot,
  ok-injective,
}
use hwarangdo.World.Slots.{Inv}
use hwarangdo.World.Slots.{Spawned-Inv}
use hwarangdo.World.Calls.{
  Steps, Kept, spawns, requests, done, more, spawn-Spawned, destroy_entity-Requested, Requested-Inv,
  Steps-Kept,
}
use hwarangdo.World.Lookup.{view-spawn, view-destroy_entity}
use hwarangdo.World.Flush.{flush-Settled, Settled}
use hwarangdo.World.Stale.{History, start, calls, round, view-History, view-flush}
use hwarangdo.World.Terminates.{Requests, no_calls, flush_ends, count_idle, is_idle}

abbrev first_handle : ℕ
first_handle = 0x1_0000_0000

abbrev created : Runtime
created = record { world = some empty_world; trace = [] }

abbrev one_entity : World
one_entity = record {
  running = true;
  entities = occupied 7 8 0 fresh_slot ∷ [];
  free_slots = [];
  destroy_queue = [];
}

abbrev spawned : Runtime
spawned = record { world = some one_entity; trace = [] }

abbrev one_waiting : World
one_waiting = record {
  running = true;
  entities = record (occupied 7 8 0 fresh_slot) { destroy_pending = true } ∷ [];
  free_slots = [];
  destroy_queue = 0 ∷ [];
}

abbrev asked : Runtime
asked = record { world = some one_waiting; trace = [] }

-- Compiled code that does nothing.
abbrev idle : ℕ → ℕ → Runtime → Outcome Runtime
idle f p r = ok r

idle_calls : (f p : ℕ) (r r' : Runtime) → idle f p r ≡ ok r' → Steps r r'
idle_calls f p r r' e = rw (← ok-injective e) done

empty-Inv : Inv 0 empty_world
empty-Inv = record {
  free_dead = λ i h. absurd (cc h);
  free_distinct = refl;
  pending_alive = λ i s a. absurd (cc a);
  pending_queued = λ i s a. absurd (cc a);
  queue_lt = λ i h. absurd (cc h);
  cursor_le = omega arith;
  generation_lt = λ i s a. absurd (cc a);
}

spawns_one : spawn_raw 7 8 0 created ≡ ok (first_handle, spawned)
unfolding spawn_raw occupy take_slot make_handle
spawns_one = refl

asks_one : destroy_entity_raw first_handle spawned ≡ ok asked
unfolding destroy_entity_raw handle_index handle_generation
asks_one = refl

views_one : view_raw first_handle spawned ≡ ok 7
unfolding view_raw handle_index handle_generation
views_one = refl

one_entity-Inv : Inv 0 one_entity
one_entity-Inv =
    let (w', made, q, _, _) = spawn-Spawned 7 8 0 created empty_world refl spawns_one in
    let same : one_entity ≡ w' = some-eq (ap (λ (x : Runtime). x.world) q) in
    subst (Inv 0) (sym same) (Spawned-Inv made empty-Inv)

one_waiting-Inv : Inv 0 one_waiting
one_waiting-Inv =
    let (w', made, q) = destroy_entity-Requested first_handle spawned one_entity refl asks_one in
    let same : one_waiting ≡ w' = some-eq (ap (λ (x : Runtime). x.world) q) in
    subst (Inv 0) (sym same) (Requested-Inv made one_entity-Inv)

view-spawn_example :
    (view_raw first_handle spawned ≡ ok 7)
    × ((k p : ℕ) → view_raw k created ≡ ok p → (k ≢ first_handle) × (view_raw k spawned ≡ ok p))
view-spawn_example =
    view-spawn 7 8 0 0 created spawned empty_world first_handle refl empty-Inv (omega arith)
      spawns_one

view-destroy_entity_example :
    (view_raw first_handle asked ≡ panic view_invalid)
    × (destroy_entity_raw first_handle asked ≡ panic already_pending)
    × ((k p : ℕ)
        → handle_index k ≢ handle_index first_handle
        → view_raw k spawned ≡ ok p
        → view_raw k asked ≡ ok p)
view-destroy_entity_example =
    view-destroy_entity first_handle spawned asked one_entity refl asks_one

two_calls : Steps created asked
two_calls = more (more done (spawns 7 8 0 spawns_one)) (requests first_handle asks_one)

Steps-Kept_example : Kept 0 empty_world created asked
Steps-Kept_example = Steps-Kept empty_world refl empty-Inv two_calls

abbrev flushed_world : World
flushed_world = record {
  running = true;
  entities = record fresh_slot { generation = 2 } ∷ [];
  free_slots = 0 ∷ [];
  destroy_queue = [];
}

abbrev flushed : Runtime
flushed = record { world = some flushed_world; trace = ran_destroy 8 7 ∷ freed 7 ∷ [] }

flushes_one : flush_destroy idle 2 asked ≡ some (ok flushed)
unfolding flush_destroy flush_from flush_entity release_entity
flushes_one = refl

flush-Settled_example : (w' : World) × (flushed.world ≡ some w') × Settled w'
flush-Settled_example =
    flush-Settled idle idle_calls 2 one_waiting asked flushed refl one_waiting-Inv flushes_one

view-flush_example : view_raw first_handle flushed ≡ panic view_invalid
view-flush_example =
    view-flush idle idle_calls first_handle 2 spawned asked flushed one_entity refl one_entity-Inv
      asks_one (omega arith) flushes_one

abbrev round_over : Runtime
round_over = record {
  world = some (record flushed_world { destroy_queue = 0 ∷ [] });
  trace = ran_destroy 8 7 ∷ freed 7 ∷ [];
}

releases_one : flush_entity idle 0 asked ≡ ok round_over
unfolding flush_entity release_entity
releases_one = refl

one_round : History idle idle_calls (handle_index first_handle) spawned 1 1 round_over
unfolding handle_index
one_round =
    round 0 one_waiting (record (occupied 7 8 0 fresh_slot) { destroy_pending = true })
      (calls (start refl refl) (requests first_handle asks_one)) refl refl refl releases_one refl

view-History_example : view_raw first_handle round_over ≡ panic view_invalid
view-History_example =
    view-History idle idle_calls first_handle 7 1 1 spawned round_over one_entity refl
      one_entity-Inv views_one one_round (omega arith) (omega arith)

idle_returns : (f p : ℕ) (r : Runtime) → (r' : Runtime) × (idle f p r ≡ ok r') × Requests r r'
idle_returns f p r = (r, refl, no_calls)

flush_ends_example :
    (r' : Runtime) × (flush_destroy idle 2 asked ≡ some (ok r'))
    × ((w' : World) × (r'.world ≡ some w') × Settled w')
unfolding count_idle is_idle
flush_ends_example =
    flush_ends idle idle_returns 2 one_waiting asked refl one_waiting-Inv (omega arith)
