-- ===== src/World/Flush.antt =====
-- One round of `hrd_world_flush_destroy`, and the whole loop, for compiled code that touches the
-- runtime only by calling it.
use hwarangdo.Prelude.{
  ℕ, zero, suc, ◌≡◌, refl, Bool, true, false, none, some, [], arith, get_elem?, contains,
  if◌then◌else◌, ap, subst, sym, ◌∙◌, Option-cases, Bool-cases, inl, inr, contains_of_get,
  drop-eq-nil, length_of_none,
}
use hwarangdo.World.{
  Slot, World, Runtime, Outcome, Outcome-cases, ok, ok-injective, release_entity, flush_entity,
  flush_from, flush_destroy,
}
use hwarangdo.World.Slots.{At, Inv}
use hwarangdo.World.Calls.{Steps}
use hwarangdo.World.Release.{advance-Inv, Round, release-Round}

pub some_ok-injective {ℓ} : {A : Type ℓ} {a b : A} → some (ok a) ≡ some (ok b) → a ≡ b
some_ok-injective {a = a} {b} p = cc

-- A world where nothing waits for its destruction.
abbrev pub Settled : World → Type 0
Settled w =
    Inv 0 w × (w.destroy_queue ≡ []) × ((i : ℕ) (s : Slot) → At w i s → s.destroy_pending ≡ false)

pub settle :
    (c : ℕ) (w : World)
    → Inv c w
    → get_elem? w.destroy_queue c ≡ none
    → Settled (record w { destroy_queue = [] })
settle c w v e =
    let over = drop-eq-nil c w.destroy_queue (length_of_none w.destroy_queue c e) in
    let idle : (i : ℕ) (s : Slot) → At w i s → s.destroy_pending ≡ false = λ i s a.
      elim (Bool-cases s.destroy_pending) [
        | inl pending ↦ absurd (cc (v.pending_queued i s a pending, ap (contains i) over))
        | inr e ↦ e
      ] in
    (
      record {
        free_dead = v.free_dead;
        free_distinct = v.free_distinct;
        pending_alive = v.pending_alive;
        pending_queued = λ i s a p. absurd (cc (idle i s a, p));
        queue_lt = λ i h. absurd (cc h);
        cursor_le = omega arith;
        generation_lt = v.generation_lt;
      },
      refl,
      idle,
    )

-- The compiled code acts on the runtime by calls only.
module _ (call : ℕ → ℕ → Runtime → Outcome Runtime)
    (by_calls : (f p : ℕ) (r r' : Runtime) → call f p r ≡ ok r' → Steps r r') where
  -- What one round does, whether or not the entity still waits.
  pub data Rounded (c i : ℕ) (w : World) (r : Runtime) : Runtime → Type 0 where
    skipped : (s : Slot) → At w i s → s.destroy_pending ≡ false → Inv (suc c) w → Rounded c i w r r
    released :
        {r' : Runtime} (s : Slot)
        → At w i s
        → s.destroy_pending ≡ true
        → Round call by_calls c i s w r r'
        → Rounded c i w r r'

  pub flush_entity_lem :
      (i : ℕ) (w : World) (s : Slot) (r : Runtime)
      → r.world ≡ some w
      → At w i s
      → flush_entity call i r ≡ (if s.destroy_pending then release_entity call i w s r else ok r)
  unfolding flush_entity
  flush_entity_lem i w s r found a = ground (arith, found, a)

  pub flush_entity-Rounded :
      (c i : ℕ) (w : World) (r r' : Runtime)
      → r.world ≡ some w
      → Inv c w
      → get_elem? w.destroy_queue c ≡ some i
      → flush_entity call i r ≡ ok r'
      → Rounded c i w r r'
  flush_entity-Rounded c i w r r' found v q p =
      let (s, a) = v.queue_lt i (contains_of_get w.destroy_queue c i q) in
      let step = flush_entity_lem i w s r found a in
      elim (Bool-cases s.destroy_pending) [
        | inl pending ↦ released s a pending (
            release-Round call by_calls c i s w r r' found v q a pending (
              ap (λ (b : Bool). if b then release_entity call i w s r else ok r) (sym pending)
              ∙ sym step
              ∙ p))
        | inr idle ↦
            subst (Rounded c i w r)
              (ok-injective (
                ap (λ (b : Bool). if b then release_entity call i w s r else ok r) (sym idle)
                ∙ sym step
                ∙ p))
              (skipped s a idle (advance-Inv c i w s v q a idle))
      ]

  pub Rounded-Inv :
      {c i : ℕ} {w : World} {r r' : Runtime}
      → r.world ≡ some w
      → Rounded c i w r r'
      → (w' : World) × (r'.world ≡ some w') × Inv (suc c) w'
  Rounded-Inv {w = w} f (skipped s a idle v) = (w, f, v)
  Rounded-Inv f (released s a pending d) = (d.world', d.found, d.inv)

  pub flush_from_end :
      (fuel c : ℕ) (w : World) (r : Runtime)
      → r.world ≡ some w
      → get_elem? w.destroy_queue c ≡ none
      → flush_from call (suc fuel) c r
        ≡ some (ok (record r { world = some (record w { destroy_queue = [] }) }))
  unfolding flush_from
  flush_from_end fuel c w r found q = ground (arith, found, q)

  pub flush_from_round :
      (fuel c i : ℕ) (w : World) (r r' : Runtime)
      → r.world ≡ some w
      → get_elem? w.destroy_queue c ≡ some i
      → flush_entity call i r ≡ ok r'
      → flush_from call (suc fuel) c r ≡ flush_from call fuel (suc c) r'
  unfolding flush_from
  flush_from_round fuel c i w r r' found q p = ground (arith, found, q, p)

  pub flush_from_fails :
      (fuel c i : ℕ) (w : World) (r r' : Runtime)
      → r.world ≡ some w
      → get_elem? w.destroy_queue c ≡ some i
      → flush_from call (suc fuel) c r ≡ some (ok r')
      → (r₁ : Runtime) × (flush_entity call i r ≡ ok r₁)
  unfolding flush_from
  flush_from_fails fuel c i w r r' found q p = elim (Outcome-cases (flush_entity call i r)) [
    | inl e ↦ e
    | inr (inl (m, e)) ↦ absurd (ground (arith, found, q, e, p))
    | inr (inr (u, e)) ↦ absurd (ground (arith, found, q, e, p))
  ]

  flush_from-Settled :
      (fuel c : ℕ) (w : World) (r r' : Runtime)
      → r.world ≡ some w
      → Inv c w
      → flush_from call fuel c r ≡ some (ok r')
      → (w' : World) × (r'.world ≡ some w') × Settled w'
  flush_from-Settled zero c w r r' found v p = unfold flush_from in cc
  flush_from-Settled (suc fuel) c w r r' found v p =
      elim (Option-cases (get_elem? w.destroy_queue c)) [
        | inl over ↦ (
          record w { destroy_queue = [] },
          ap (λ (x : Runtime). x.world)
              (sym (some_ok-injective (sym (flush_from_end fuel c w r found over) ∙ p))),
          settle c w v over,
        )
        | inr (i, q) ↦
            let (r₁, e) = flush_from_fails fuel c i w r r' found q p in
            let (w₁, found₁, v₁) =
              Rounded-Inv found (flush_entity-Rounded c i w r r₁ found v q e) in
            flush_from-Settled fuel (suc c) w₁ r₁ r' found₁ v₁
              (sym (flush_from_round fuel c i w r r₁ found q e) ∙ p)
      ]

  -- Let the code that a flush calls back act on the runtime by spawns, requests for destruction
  -- and quits only. A flush of a well-formed world that ends leaves a well-formed world with an
  -- empty queue, in which no entity waits for its destruction.
  pub flush-Settled :
      (fuel : ℕ) (w : World) (r r' : Runtime)
      → r.world ≡ some w
      → Inv 0 w
      → flush_destroy call fuel r ≡ some (ok r')
      → (w' : World) × (r'.world ≡ some w') × Settled w'
  flush-Settled fuel w r r' found v p =
      flush_from-Settled fuel 0 w r r' found v (unfold flush_destroy in ground (arith, found, p))
