-- ===== src/World/Calls.antt =====
-- What the code that the flush calls back can do to the runtime: spawn entities, ask for
-- destructions and quit. What every sequence of such calls keeps.
use hwarangdo.Prelude.{
  ℕ, ◌≤◌, ◌≡◌, ◌≢◌, refl, true, false, some, [], ◌∷◌, ◌++◌, arith, length, get_elem?, contains,
  ◌==◌, ap, ◌∙◌, Option-cases, Bool-cases, inl, inr, ==_iff, get_elem?-set, length-set,
  length-append, get_elem?-append_left, contains-drop-append, contains-append_one,
}
use hwarangdo.World.{
  Slot, World, Runtime, ok, occupied, Outcome, panic, undefined, ◌>>=◌, ◌>>◌, panic_if, null_entity,
  null_destroy, write_slot, fresh_slot, take_slot, occupy, handle_index, handle_generation,
  spawn_raw, destroy_entity_raw, world_quit,
}
use hwarangdo.World.Slots.{
  At, Inv, write-Inv, Spawned, reused, added, occupy-Spawned, Spawned-Inv, grown,
}

abbrev pub requested : World → ℕ → Slot → World
requested w i s = record (write_slot w i (record s { destroy_pending = true })) {
  destroy_queue = w.destroy_queue ++ i ∷ [];
}

pub record Requested (h : ℕ) (w w' : World) : Type 0 where
  pub slot : Slot
  pub at : At w (handle_index h) slot
  pub alive : slot.alive ≡ true
  pub generation : slot.generation ≡ handle_generation h
  pub not_pending : slot.destroy_pending ≡ false
  pub result : w' ≡ requested w (handle_index h) slot

enqueue-Inv :
    (c : ℕ) (w : World) (i : ℕ) (s : Slot)
    → Inv c w
    → At w i s
    → Inv c (record w { destroy_queue = w.destroy_queue ++ i ∷ [] })
enqueue-Inv c w i s v a = record {
  free_dead = v.free_dead;
  free_distinct = v.free_distinct;
  pending_alive = v.pending_alive;
  pending_queued = λ j x b p.
      ground (arith, contains-drop-append c w.destroy_queue i j v.cursor_le, v.pending_queued j x);
  queue_lt = λ j h. elim (Bool-cases (i == j)) [
    | inl same ↦ (s, rw (← (==_iff i j).0 same) a)
    | inr other ↦ v.queue_lt j (ground (arith, contains-append_one w.destroy_queue i j))
  ];
  cursor_le = omega (arith, v.cursor_le, length-append w.destroy_queue (i ∷ []));
  generation_lt = v.generation_lt;
}

pub Requested-Inv : {c h : ℕ} {w w' : World} → Requested h w w' → Inv c w → Inv c w'
Requested-Inv {c} {h} {w} q v =
    let i = handle_index h in
    rw q.result (
      write-Inv c _ i q.slot (record q.slot { destroy_pending = true })
        (enqueue-Inv c w i q.slot v q.at) q.at
        (λ free. let (x, a, d) = v.free_dead i free in absurd (cc (q.at, a, d, q.alive)))
        (λ p. q.alive) (λ p. ground (arith, contains-drop-append c w.destroy_queue i i v.cursor_le))
        (v.generation_lt i q.slot q.at))

pub destroy_entity-Requested :
    (h : ℕ) (r : Runtime) (w : World) {r' : Runtime}
    → r.world ≡ some w
    → destroy_entity_raw h r ≡ ok r'
    → (w' : World) × Requested h w w' × (r' ≡ record r { world = some w' })
unfolding destroy_entity_raw
destroy_entity-Requested h r w found p =
    elim (Option-cases (get_elem? w.entities (handle_index h))) [
      | inl outside ↦ absurd (cc (rw (found, outside) at p))
      | inr (s, a) ↦ (
        requested w (handle_index h) s,
        record {
          slot = s;
          at = a;
          alive = ground (arith, rw (found, a) at p);
          generation = ground (arith, rw (found, a) at p);
          not_pending = ground (arith, rw (found, a) at p);
          result = refl;
        },
        ground (arith, rw (found, a) at p),
      )
    ]

spawn_tail :
    (r : Runtime) (out : Outcome (ℕ × World)) {h : ℕ} {r' : Runtime}
    → ◌>>=◌ {B = ℕ × Runtime} out (λ (k, w'). ok (k, record r { world = some w' })) ≡ ok (h, r')
    → (w' : World) × (out ≡ ok (h, w')) × (r' ≡ record r { world = some w' })
spawn_tail r (ok (k, w')) p = (w', ground arith, ground arith)
spawn_tail r (panic m) p = cc
spawn_tail r (undefined u) p = cc

spawn_guards :
    (e d : ℕ) {A : Type 0} (m : Outcome A) {a : A}
    → (panic_if (e == 0) null_entity >> (panic_if (d == 0) null_destroy >> m)) ≡ ok a
    → (e ≢ 0) × (d ≢ 0) × (m ≡ ok a)
spawn_guards e d m p = (ground arith, ground arith, ground arith)

pub spawn-Spawned :
    (e d o : ℕ) (r : Runtime) (w : World) {h : ℕ} {r' : Runtime}
    → r.world ≡ some w
    → spawn_raw e d o r ≡ ok (h, r')
    → (w' : World) × Spawned e d o w h w' × (r' ≡ record r { world = some w' }) × (e ≢ 0) × (d ≢ 0)
unfolding spawn_raw
spawn-Spawned e d o r w found p =
    let (entity, destroy, q) = spawn_guards e d _ (rw found at p) in
    let (w', placed, result) = spawn_tail r (occupy e d o (take_slot w)) q in
    (w', occupy-Spawned e d o w placed, result, entity, destroy)

-- What such calls leave alone. A dead slot that is not free, which is the state of an entity while
-- it is being destroyed, is not touched, unless the table grows.
pub record Frame (w w' : World) : Type 0 where
  pub grows : length w.entities ≤ length w'.entities
  pub dead_kept :
      length w'.entities ≡ length w.entities
      → (i : ℕ) (s : Slot) → At w i s
      → s.alive ≡ false
      → contains i w.free_slots ≡ false
      → At w' i s × (contains i w'.free_slots ≡ false)
  pub pending_kept :
      length w'.entities ≡ length w.entities
      → (i : ℕ) (s : Slot) → At w i s
      → s.alive ≡ true
      → s.destroy_pending ≡ true
      → At w' i s
  pub queue_kept :
      (k i : ℕ) → get_elem? w.destroy_queue k ≡ some i → get_elem? w'.destroy_queue k ≡ some i
  pub generation_kept :
      (i : ℕ) (s : Slot) → At w i s → (s' : Slot) × At w' i s' × (s'.generation ≡ s.generation)

pub Frame-refl : (w : World) → Frame w w
Frame-refl w = record {
  grows = omega arith;
  dead_kept = λ _ i s a d f. (a, f);
  pending_kept = λ _ i s a d p. a;
  queue_kept = λ k i h. h;
  generation_kept = λ i s a. (s, a, refl);
}

pub Frame-trans : {u v w : World} → Frame u v → Frame v w → Frame u w
Frame-trans f g = record {
  grows = omega arith;
  dead_kept = λ same i s a d free.
      let (b, free') = f.dead_kept (omega (arith, g.grows, f.grows)) i s a d free in
      g.dead_kept (omega (arith, g.grows, f.grows)) i s b d free';
  pending_kept = λ same i s a d p.
      g.pending_kept (omega (arith, g.grows, f.grows)) i s
        (f.pending_kept (omega (arith, g.grows, f.grows)) i s a d p) d p;
  queue_kept = λ k i h. g.queue_kept k i (f.queue_kept k i h);
  generation_kept = λ i s a.
      let (s₁, b, e₁) = f.generation_kept i s a in
      let (s₂, c, e₂) = g.generation_kept i s₁ b in (s₂, c, e₂ ∙ e₁);
}

Spawned-Frame : {e d o h c : ℕ} {w w' : World} → Inv c w → Spawned e d o w h w' → Frame w w'
Spawned-Frame {e} {d} {o} {w = w} v (reused i rest s f a _ q) =
    let s' = occupied e d o s in
    rw q (record {
      grows = omega (arith, length-set w.entities i s');
      dead_kept = λ _ j x b dead free.
          ground (arith, get_elem?-set w.entities i j s' s a, ap (contains j) f);
      pending_kept = λ _ j x b alive p.
          let (y, a', dead) = v.free_dead i (ground (arith, ap (contains i) f)) in
          ground (arith, get_elem?-set w.entities i j s' s a, a, a', b);
      queue_kept = λ k j h. h;
      generation_kept = λ j x b. elim (Bool-cases (i == j)) [
        | inl same ↦ (s', ground (arith, get_elem?-set w.entities i j s' s a), ground arith)
        | inr other ↦ (x, ground (arith, get_elem?-set w.entities i j s' s a), refl)
      ];
    })
Spawned-Frame {e} {d} {o} {w = w} v (added i s f _ a _ q) =
    let s' = occupied e d o s in
    let longer = length-append w.entities (fresh_slot ∷ []) in
    let set_length = length-set (grown w).entities i s' in
    rw q (record {
      grows = omega (arith, set_length, longer);
      dead_kept = λ same j x b dead free. absurd (omega (arith, same, set_length, longer));
      pending_kept = λ same j x b alive p. absurd (omega (arith, same, set_length, longer));
      queue_kept = λ k j h. h;
      generation_kept = λ j x b.
          let old = get_elem?-append_left w.entities (fresh_slot ∷ []) j x b in
          elim (Bool-cases (i == j)) [
            | inl same ↦
                (s', ground (arith, get_elem?-set (grown w).entities i j s' s a), ground arith)
            | inr other ↦ (x, ground (arith, get_elem?-set (grown w).entities i j s' s a), refl)
          ];
    })

Requested-Frame : {h : ℕ} {w w' : World} → Requested h w w' → Frame w w'
Requested-Frame {h} {w} q =
    let i = handle_index h in
    let s' = record q.slot { destroy_pending = true } in
    rw q.result (record {
      grows = omega (arith, length-set w.entities i s');
      dead_kept = λ _ j x b dead free.
          (ground (arith, get_elem?-set w.entities i j s' q.slot q.at, q.at, q.alive), free);
      pending_kept = λ _ j x b alive p.
          ground (arith, get_elem?-set w.entities i j s' q.slot q.at, q.at, q.not_pending);
      queue_kept = λ k j h. get_elem?-append_left w.destroy_queue (i ∷ []) k j h;
      generation_kept = λ j x b. elim (Bool-cases (i == j)) [
        | inl same ↦
            (s', ground (arith, get_elem?-set w.entities i j s' q.slot q.at), ground (arith, q.at))
        | inr other ↦ (x, ground (arith, get_elem?-set w.entities i j s' q.slot q.at), refl)
      ];
    })

-- One call of the runtime by compiled code. `view_raw` and `world_running` change nothing.
pub data Step (r r' : Runtime) : Type 0 where
  spawns : (e d o : ℕ) {h : ℕ} → spawn_raw e d o r ≡ ok (h, r') → Step r r'
  requests : (h : ℕ) → destroy_entity_raw h r ≡ ok r' → Step r r'
  quits : r' ≡ world_quit r → Step r r'

pub data Steps (r : Runtime) : Runtime → Type 0 where
  done : Steps r r
  more : {r₁ r₂ : Runtime} → Steps r r₁ → Step r₁ r₂ → Steps r r₂

-- What calls do to the world and to the record of what was freed.
pub record Kept (c : ℕ) (w : World) (r r' : Runtime) : Type 0 where
  pub world' : World
  pub found : r'.world ≡ some world'
  pub inv : Inv c world'
  pub frame : Frame w world'
  pub trace : r'.trace ≡ r.trace

pub stopped-Inv : {c : ℕ} {w : World} → Inv c w → Inv c (record w { running = false })
stopped-Inv v = record {
  free_dead = v.free_dead;
  free_distinct = v.free_distinct;
  pending_alive = v.pending_alive;
  pending_queued = v.pending_queued;
  queue_lt = v.queue_lt;
  cursor_le = v.cursor_le;
  generation_lt = v.generation_lt;
}

pub Step-Kept :
    {c : ℕ} {r r' : Runtime} (w : World) → r.world ≡ some w → Inv c w → Step r r' → Kept c w r r'
Step-Kept {r = r} w f v (spawns e d o p) =
    let (w', made, q, _, _) = spawn-Spawned e d o r w f p in
    record {
      world' = w';
      found = ap (λ (x : Runtime). x.world) q;
      inv = Spawned-Inv made v;
      frame = Spawned-Frame v made;
      trace = ap (λ (x : Runtime). x.trace) q;
    }
Step-Kept {r = r} w f v (requests h p) =
    let (w', made, q) = destroy_entity-Requested h r w f p in
    record {
      world' = w';
      found = ap (λ (x : Runtime). x.world) q;
      inv = Requested-Inv made v;
      frame = Requested-Frame made;
      trace = ap (λ (x : Runtime). x.trace) q;
    }
Step-Kept {r = r} w f v (quits p) = record {
  world' = record w { running = false };
  found = unfold world_quit in ground (arith, ap (λ (x : Runtime). x.world) p);
  inv = stopped-Inv v;
  frame = record {
    grows = omega arith;
    dead_kept = λ _ i s a d x. (a, x);
    pending_kept = λ _ i s a d p. a;
    queue_kept = λ k i h. h;
    generation_kept = λ i s a. (s, a, refl);
  };
  trace = unfold world_quit in ground (arith, ap (λ (x : Runtime). x.trace) p);
}

-- After any sequence of spawns, requests for destruction and requests to quit, none of which
-- panics, the world is well-formed if it was before, and no memory was freed. No slot is lost and no
-- generation changes; the queue only grows at its end; and if no slot was added, entities that wait
-- for their destruction and dead slots that are not free stay as they are.
pub Steps-Kept :
    {c : ℕ} {r r' : Runtime} (w : World) → r.world ≡ some w → Inv c w → Steps r r' → Kept c w r r'
Steps-Kept w f v done = record {
  world' = w;
  found = f;
  inv = v;
  frame = Frame-refl w;
  trace = refl;
}
Steps-Kept w f v (more before last) =
    let k = Steps-Kept w f v before in
    let l = Step-Kept k.world' k.found k.inv last in
    record {
      world' = l.world';
      found = l.found;
      inv = l.inv;
      frame = Frame-trans k.frame l.frame;
      trace = l.trace ∙ k.trace;
    }
