-- ===== src/World/Terminates.antt =====
-- A flush ends, and ends well, if the destructors only ask for further destructions or quit.
use hwarangdo.Prelude.{
  ℕ, zero, suc, ◌+◌, ◌-◌, ◌<◌, ◌≡◌, refl, Bool, true, false, not, ◌&&◌, some, List, [], ◌∷◌, arith,
  length, get_elem?, get_elem?-lt, set, length-set, length-append, contains_of_get, get_of_lt, ◌==◌,
  if◌then◌else◌, ap, subst, sym, ◌∙◌, Option-cases, some-eq, Bool-cases, inl, inr,
}
use hwarangdo.World.{
  Slot, World, Runtime, Outcome, Event, ok, ok-injective, cleared, retired, log, invoke, held_slot,
  release_entity, write_slot, flush_entity, flush_from, flush_destroy, ran_on_destroy, ran_destroy,
  freed, destroy_entity_raw, world_quit, handle_index,
}
use hwarangdo.World.Slots.{At, Inv, write-Inv}
use hwarangdo.World.Calls.{
  Steps, done, more, requests, quits, Requested, Requested-Inv, destroy_entity-Requested,
  stopped-Inv,
}
use hwarangdo.World.Flush.{
  flush_entity-Rounded, Rounded-Inv, Settled, flush_from_end, flush_from_round, flush_entity_lem,
  flush-Settled,
}

-- Calls of the runtime that spawn nothing.
pub data Requests (r : Runtime) : Runtime → Type 0 where
  no_calls : Requests r r
  asks : {r₁ r₂ : Runtime} (h : ℕ) → Requests r r₁ → destroy_entity_raw h r₁ ≡ ok r₂ → Requests r r₂
  stops : {r₁ r₂ : Runtime} → Requests r r₁ → r₂ ≡ world_quit r₁ → Requests r r₂

pub Requests-Steps : {r r' : Runtime} → Requests r r' → Steps r r'
Requests-Steps no_calls = done
Requests-Steps (asks h q p) = more (Requests-Steps q) (requests h p)
Requests-Steps (stops q p) = more (Requests-Steps q) (quits p)

-- The entities that could still be asked for.
unfoldable pub is_idle : Slot → ℕ
is_idle s = if s.alive && not s.destroy_pending then 1 else 0

unfoldable pub count_idle : List Slot → ℕ
count_idle [] = 0
count_idle (s ∷ ss) = is_idle s + count_idle ss

count_idle-set :
    (ss : List Slot) (i : ℕ) (s v : Slot)
    → get_elem? ss i ≡ some s
    → count_idle (set ss i v) + is_idle s ≡ count_idle ss + is_idle v
unfolding count_idle
count_idle-set [] i s v h = absurd (cc h)
count_idle-set (x ∷ ss) zero s v h = let e : x ≡ s = cc h in rw e (omega arith)
count_idle-set (x ∷ ss) (suc i) s v h = omega (arith, count_idle-set ss i s v h)

-- The rounds that a flush with this cursor can still make.
pub rounds_left : ℕ → World → ℕ
rounds_left c w = length w.destroy_queue - c + count_idle w.entities

rounds_left-Requested :
    (c h : ℕ) (w w' : World) → Inv c w → Requested h w w' → rounds_left c w' ≡ rounds_left c w
unfolding rounds_left is_idle
rounds_left-Requested c h w w' v made =
    let i = handle_index h in
    let s' = record made.slot { destroy_pending = true } in
    let counted = count_idle-set w.entities i made.slot s' made.at in
    let counted' : count_idle (set w.entities i s') + 1 ≡ count_idle w.entities =
      ground (arith, counted, made.alive, made.not_pending) in
    rw made.result (omega (arith, v.cursor_le, length-append w.destroy_queue (i ∷ []), counted'))

record Same (c : ℕ) (w : World) (r' : Runtime) : Type 0 where
  world' : World
  found : r'.world ≡ some world'
  inv : Inv c world'
  size : length world'.entities ≡ length w.entities
  left : rounds_left c world' ≡ rounds_left c w

Requests-Same :
    {r : Runtime} (c : ℕ) (w : World)
    → r.world ≡ some w
    → Inv c w
    → {r' : Runtime} → Requests r r'
    → Same c w r'
unfolding rounds_left world_quit
Requests-Same c w f v no_calls = record { world' = w; found = f; inv = v; size = refl; left = refl }
Requests-Same c w f v (stops q p) =
    let k = Requests-Same c w f v q in
    record {
      world' = record k.world' { running = false };
      found = ground (arith, ap (λ (x : Runtime). x.world) p, k.found);
      inv = stopped-Inv k.inv;
      size = k.size;
      left = k.left;
    }
Requests-Same c w f v (asks h q p) =
    let k = Requests-Same c w f v q in
    let (w', made, result) = destroy_entity-Requested h _ k.world' k.found p in
    let i = handle_index h in
    let s' = record made.slot { destroy_pending = true } in
    record {
      world' = w';
      found = ap (λ (x : Runtime). x.world) result;
      inv = Requested-Inv made k.inv;
      size =
          ap (λ (x : World). length x.entities) made.result
          ∙ length-set k.world'.entities i s'
          ∙ k.size;
      left = rounds_left-Requested c h k.world' w' k.inv made ∙ k.left;
    }

write_left :
    (c i : ℕ) (w : World) (s s' : Slot)
    → At w i s
    → is_idle s' ≡ is_idle s
    → rounds_left c (write_slot w i s') ≡ rounds_left c w
unfolding rounds_left
write_left c i w s s' a e = omega (arith, count_idle-set w.entities i s s' a, e)

-- The destructors return, and spawn nothing.
module _ (call : ℕ → ℕ → Runtime → Outcome Runtime)
    (returns : (f p : ℕ) (r : Runtime)
      → (r' : Runtime) × (call f p r ≡ ok r') × Requests r r') where
  by_calls : (f p : ℕ) (r r' : Runtime) → call f p r ≡ ok r' → Steps r r'
  by_calls f p r r' e =
      let (r₁, e₁, q) = returns f p r in
      subst (Steps r) (ok-injective (sym e₁ ∙ e)) (Requests-Steps q)

  invoke-Same :
      (c : ℕ) (event : ℕ → ℕ → Event) (f p : ℕ) (r : Runtime) (w : World)
      → r.world ≡ some w
      → Inv c w
      → (r' : Runtime) × (invoke call event f p r ≡ ok r') × Same c w r'
  unfolding invoke
  invoke-Same c event f p r w found v = elim (Bool-cases (f == 0)) [
    | inl null ↦
        (r, rw null, record { world' = w; found = found; inv = v; size = refl; left = refl })
    | inr code ↦
        let (r', e, q) = returns f p (log (event f p) r) in
        (r', rw code e, Requests-Same c w found v q)
  ]

  held_slot-ok :
      (size i : ℕ) (r : Runtime) (w : World)
      → r.world ≡ some w
      → length w.entities ≡ size
      → i < size
      → (s : Slot) × (held_slot size i r ≡ ok (w, s)) × At w i s
  unfolding held_slot
  held_slot-ok size i r w found l b =
      let (s, a) = get_of_lt w.entities i (omega (arith, l)) in (s, ground (arith, found, a, l), a)

  release-ok :
      (c i : ℕ) (w : World) (s : Slot) (r : Runtime)
      → r.world ≡ some w
      → Inv c w
      → At w i s
      → s.destroy_pending ≡ true
      → (r' : Runtime) × (release_entity call i w s r ≡ ok r')
        × ((w' : World) × (r'.world ≡ some w') × (rounds_left c w' ≡ rounds_left c w))
  unfolding release_entity is_idle
  release-ok c i w s r found v a pending =
      let s₀ = retired s in
      let w₀ = write_slot w i s₀ in
      let r₀ = record r { world = some w₀ } in
      let n = length w.entities in
      let b : i < n = get_elem?-lt w.entities i s a in
      let inv₀ : Inv c w₀ =
        write-Inv c w i s s₀ v a (λ _. refl) (λ h. absurd (cc h)) (λ h. absurd (cc h))
          (v.generation_lt i s a) in
      let l₀ = write_left c i w s s₀ a (ground (arith, pending)) in
      let (r₁, e₁, k₁) = invoke-Same c ran_on_destroy s.on_destroy s.ptr r₀ w₀ refl inv₀ in
      let n₁ = k₁.size ∙ length-set w.entities i s₀ in
      let (s₁, h₁, a₁) = held_slot-ok n i r₁ k₁.world' k₁.found n₁ b in
      let (r₂, e₂, k₂) = invoke-Same c ran_destroy s₁.destroy s₁.ptr r₁ k₁.world' k₁.found k₁.inv in
      let (s₂, h₂, a₂) = held_slot-ok n i r₂ k₂.world' k₂.found (k₂.size ∙ n₁) b in
      (
        log (freed s₂.ptr) (record r₂ {
          world = some (record (write_slot k₂.world' i (cleared s₂)) {
            free_slots = i ∷ k₂.world'.free_slots;
          });
        }),
        rw (e₁, h₁, e₂, h₂),
        (
          record (write_slot k₂.world' i (cleared s₂)) { free_slots = i ∷ k₂.world'.free_slots },
          refl,
          unfold rounds_left in
              write_left c i k₂.world' s₂ (cleared s₂) a₂ refl ∙ k₂.left ∙ k₁.left ∙ l₀,
        ),
      )

  -- A round goes well, and does not add to the rounds left before it.
  round-ok :
      (c i : ℕ) (w : World) (r : Runtime)
      → r.world ≡ some w
      → Inv c w
      → get_elem? w.destroy_queue c ≡ some i
      → (r' : Runtime) × (flush_entity call i r ≡ ok r')
        × ((w' : World) × (r'.world ≡ some w') × (rounds_left c w' ≡ rounds_left c w))
  round-ok c i w r found v q =
      let (s, a) = v.queue_lt i (contains_of_get w.destroy_queue c i q) in
      let step = flush_entity_lem call by_calls i w s r found a in
      elim (Bool-cases s.destroy_pending) [
        | inl pending ↦
            let (r', e, left) = release-ok c i w s r found v a pending in
            (
              r',
              step ∙ ap (λ (b : Bool). if b then release_entity call i w s r else ok r) pending ∙ e,
              left,
            )
        | inr idle ↦ (
          r,
          step ∙ ap (λ (b : Bool). if b then release_entity call i w s r else ok r) idle,
          (w, found, refl),
        )
      ]

  left_falls : (c : ℕ) (w : World) → Inv (suc c) w → rounds_left (suc c) w < rounds_left c w
  unfolding rounds_left
  left_falls c w v = omega (arith, v.cursor_le)

  flush_from-ok :
      (fuel c : ℕ) (w : World) (r : Runtime)
      → r.world ≡ some w
      → Inv c w
      → rounds_left c w < fuel
      → (r' : Runtime) × (flush_from call fuel c r ≡ some (ok r'))
  flush_from-ok zero c w r found v enough = absurd (omega arith)
  flush_from-ok (suc fuel) c w r found v enough =
      elim (Option-cases (get_elem? w.destroy_queue c)) [
        | inl over ↦ (
          record r { world = some (record w { destroy_queue = [] }) },
          flush_from_end call by_calls fuel c w r found over,
        )
        | inr (i, q) ↦
            let (r₁, e, (w₁, found₁, left)) = round-ok c i w r found v q in
            let (u, found_u, v_u) =
              Rounded-Inv call by_calls found
                (flush_entity-Rounded call by_calls c i w r r₁ found v q e) in
            let same : u ≡ w₁ = some-eq (sym found_u ∙ found₁) in
            let v₁ = rw same at v_u in
            let (r', ends) =
              flush_from-ok fuel (suc c) w₁ r₁ found₁ v₁
                (omega (arith, left, left_falls c w₁ v₁, enough)) in
            (r', flush_from_round call by_calls fuel c i w r r₁ found q e ∙ ends)
      ]

  -- Let the code that a flush calls back return always, and act on the runtime by requests for
  -- destruction and quits only. Then a flush of a well-formed world ends, without a panic and
  -- without undefined behaviour, and leaves nothing waiting: the length of the queue and the
  -- number of the entities that live and were not asked for, and one round more, are fuel enough.
  pub flush_ends :
      (fuel : ℕ) (w : World) (r : Runtime)
      → r.world ≡ some w
      → Inv 0 w
      → length w.destroy_queue + count_idle w.entities < fuel
      → (r' : Runtime) × (flush_destroy call fuel r ≡ some (ok r'))
        × ((w' : World) × (r'.world ≡ some w') × Settled w')
  flush_ends fuel w r found v enough =
      let (r', e) = flush_from-ok fuel 0 w r found v (unfold rounds_left in omega arith) in
      let ends : flush_destroy call fuel r ≡ some (ok r') =
        unfold flush_destroy in ground (arith, found, e) in
      (r', ends, flush-Settled call by_calls fuel w r r' found v ends)
