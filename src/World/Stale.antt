-- ===== src/World/Stale.antt =====
-- A handle of a destroyed entity: what becomes of it while the runtime goes on.
use hwarangdo.Prelude.{
  ℕ, zero, suc, ◌+◌, ◌%◌, ◌<◌, ◌≤◌, ◌≡◌, ◌≢◌, refl, true, ◌&&◌, none, some, [], arith, get_elem?,
  get_elem?-set, drop-eq-nil, length_of_none, contains, ◌==◌, contains_of_get, if◌then◌else◌, ap,
  sym, ◌∙◌, Option-cases, some-eq, Bool-cases, inl, inr, ==_iff,
}
use hwarangdo.World.{
  two32, Slot, World, Runtime, Outcome, ok, panic, view_invalid, cleared, retired, flush_entity,
  flush_from, flush_destroy, view_raw, destroy_entity_raw, handle_index, handle_generation,
}
use hwarangdo.World.Slots.{At, Inv}
use hwarangdo.World.Calls.{Step, Steps, Step-Kept, Requested-Inv, destroy_entity-Requested}
use hwarangdo.World.Flush.{
  Rounded, skipped, released, flush_entity-Rounded, Rounded-Inv, settle, flush_from_fails,
  flush_from_round, flush_from_end, some_ok-injective,
}
use hwarangdo.World.Lookup.{view-Views}

module _ (call : ℕ → ℕ → Runtime → Outcome Runtime)
    (by_calls : (f p : ℕ) (r r' : Runtime) → call f p r ≡ ok r' → Steps r r') where
  -- A history of the runtime from `r`, in which `n` entities of slot `i` are destroyed: calls of
  -- compiled code, rounds of flushes, and their ends. The cursor of the flush is `c`.
  pub data History (i : ℕ) (r : Runtime) : ℕ → ℕ → Runtime → Type 0 where
    start : {n c : ℕ} → n ≡ 0 → c ≡ 0 → History i r n c r
    calls : {n c : ℕ} {r₁ r₂ : Runtime} → History i r n c r₁ → Step r₁ r₂ → History i r n c r₂
    round :
        {n m c : ℕ} {r₁ r₂ : Runtime} (j : ℕ) (w : World) (s : Slot)
        → History i r n c r₁
        → r₁.world ≡ some w
        → get_elem? w.destroy_queue c ≡ some j
        → At w j s
        → flush_entity call j r₁ ≡ ok r₂
        → m ≡ (if j == i && s.destroy_pending then suc n else n)
        → History i r m (suc c) r₂
    ends :
        {n c c' : ℕ} {r₁ r₂ : Runtime} (w : World)
        → History i r n c r₁
        → r₁.world ≡ some w
        → get_elem? w.destroy_queue c ≡ none
        → c' ≡ 0
        → r₂ ≡ record r₁ { world = some (record w { destroy_queue = [] }) }
        → History i r n c' r₂

  -- The slot at the end of a history.
  record Reached (i g n c : ℕ) (r : Runtime) : Type 0 where
    world : World
    found : r.world ≡ some world
    inv : Inv c world
    slot : Slot
    at : At world i slot
    generation : slot.generation ≡ (g + n) % two32

  round-Reached :
      (i j g n c : ℕ) (w : World) (s x : Slot) (r r' : Runtime)
      → r.world ≡ some w
      → At w i s
      → s.generation ≡ (g + n) % two32
      → At w j x
      → Rounded call by_calls c j w r r'
      → Reached i g (if j == i && x.destroy_pending then suc n else n) (suc c) r'
  round-Reached i j g n c w s x r r' f a e b (skipped y b' idle v) = record {
    world = w;
    found = f;
    inv = v;
    slot = s;
    at = a;
    generation = ground (arith, b, b', idle, e);
  }
  round-Reached i j g n c w s x r r' f a e b (released y b' pending d) =
      elim (Bool-cases (j == i)) [
        | inl same ↦ record {
          world = d.world';
          found = d.found;
          inv = d.inv;
          slot = cleared (retired y);
          at = rw (← (==_iff j i).0 same) d.gone;
          generation = bumped ((==_iff j i).0 same) same;
        }
        | inr other ↦
            let (s', a', e') = d.generation_kept i s (λ h. cc ((==_iff j i).1 h, other)) a in
            record {
              world = d.world';
              found = d.found;
              inv = d.inv;
              slot = s';
              at = a';
              generation = ground (arith, other, e', e);
            }
      ]
    where
      bumped :
          j ≡ i
          → j == i ≡ true
          → (y.generation + 1) % two32
            ≡ (g + (if j == i && x.destroy_pending then suc n else n)) % two32
      bumped same test =
          let ys : y ≡ s = some-eq (sym b' ∙ ap (get_elem? w.entities) same ∙ a) in
          let yx : y ≡ x = some-eq (sym b' ∙ b) in
          rw (test, ← yx, pending) (omega (arith, ap (λ (z : Slot). z.generation) ys, e))

  History-Reached :
      {i : ℕ} {r : Runtime} (w : World) (s : Slot)
      → r.world ≡ some w
      → Inv 0 w
      → At w i s
      → {n c : ℕ} {r' : Runtime} → History i r n c r'
      → Reached i s.generation n c r'
  History-Reached w s f v a (start none_yet zero_cursor) = record {
    world = w;
    found = f;
    inv = rw zero_cursor v;
    slot = s;
    at = a;
    generation = rw none_yet (omega (arith, v.generation_lt _ s a));
  }
  History-Reached w s f v a (calls h step) =
      let k = History-Reached w s f v a h in
      let l = Step-Kept k.world k.found k.inv step in
      let (s', a', e) = l.frame.generation_kept _ k.slot k.at in
      record {
        world = l.world';
        found = l.found;
        inv = l.inv;
        slot = s';
        at = a';
        generation = e ∙ k.generation;
      }
  History-Reached w s f v a (round j u x h fu q b e m) =
      let k = History-Reached w s f v a h in
      let same : k.world ≡ u = some-eq (sym k.found ∙ fu) in
      rw m (
        round-Reached _ j s.generation _ _ u k.slot x _ _ fu (rw same at k.at) k.generation b
          (flush_entity-Rounded call by_calls _ j u _ _ fu (rw same at k.inv) q e))
  History-Reached w s f v a (ends u h fu q zero_cursor result) =
      let k = History-Reached w s f v a h in
      let same : k.world ≡ u = some-eq (sym k.found ∙ fu) in
      let (v', _, _) = settle _ u (rw same at k.inv) q in
      record {
        world = record u { destroy_queue = [] };
        found = ap (λ (x : Runtime). x.world) result;
        inv = rw zero_cursor v';
        slot = k.slot;
        at = rw same at k.at;
        generation = k.generation;
      }

  -- Let the code that a flush calls back act on the runtime by spawns, requests for destruction
  -- and quits only. A handle that views an entity of a well-formed world, with no flush under
  -- way, cannot be viewed any more once an entity of its slot has been destroyed, after any
  -- number below 2^32 of such destructions and whatever else happened: no later entity is reached
  -- through it.
  pub view-History :
      (h p n c : ℕ) (r r' : Runtime) (w : World)
      → r.world ≡ some w
      → Inv 0 w
      → view_raw h r ≡ ok p
      → History (handle_index h) r n c r'
      → 0 < n
      → n < two32
      → view_raw h r' ≡ panic view_invalid
  unfolding view_raw handle_generation
  view-History h p n c r r' w f v e hist n₀ n₁ =
      let o = view-Views h p r w f e in
      let k = History-Reached w o.slot f v o.at hist in
      rw (k.found, k.at) (ground (arith, k.generation, o.generation))

  -- A round at another slot leaves an entity that waits.
  round_waits :
      {i j c : ℕ} {w : World} {r r' : Runtime} (s : Slot) (w' : World)
      → r.world ≡ some w
      → Inv c w
      → Rounded call by_calls c j w r r'
      → r'.world ≡ some w'
      → At w i s
      → s.destroy_pending ≡ true
      → j ≢ i
      → At w' i s
  round_waits s w' f v (skipped x b idle _) f' a pending other = rw (← some-eq (sym f ∙ f')) a
  round_waits {i} s w' f v (released x b _ d) f' a pending other =
      rw (← some-eq (sym d.found ∙ f'))
        (d.pending_kept i s other a (v.pending_alive i s a pending) pending)

  -- Where a flush ends, with the number of destructions in slot `i` on the way.
  record Flushed (i n₀ fuel : ℕ) (r r' : Runtime) : Type 0 where
    count : ℕ
    history : History i r count 0 r'
    more : n₀ ≤ count
    bound : count ≤ n₀ + fuel

  -- An entity that waits is destroyed before the flush ends.
  flush_from-Flushed :
      (fuel i n c : ℕ) (w : World) (r₀ r r' : Runtime)
      → r.world ≡ some w
      → Inv c w
      → History i r₀ n c r
      → flush_from call fuel c r ≡ some (ok r')
      → (k : Flushed i n fuel r₀ r') × ((s : Slot)
          → At w i s
          → s.destroy_pending ≡ true
          → n < k.count)
  flush_from-Flushed zero i n c w r₀ r r' f v h p = unfold flush_from in absurd (cc p)
  flush_from-Flushed (suc fuel) i n c w r₀ r r' f v h p =
      elim (Option-cases (get_elem? w.destroy_queue c)) [
        | inl over ↦ (
          record {
            count = n;
            history = ends w h f over refl (
                sym (some_ok-injective (sym (flush_from_end call by_calls fuel c w r f over) ∙ p)));
            more = omega arith;
            bound = omega arith;
          },
          λ s a pending. absurd (
              cc (
                v.pending_queued i s a pending,
                ap (contains i)
                    (drop-eq-nil c w.destroy_queue (length_of_none w.destroy_queue c over)),
              )),
        )
        | inr (j, q) ↦
            let (r₁, e) = flush_from_fails call by_calls fuel c j w r r' f q p in
            let (x, b) = v.queue_lt j (contains_of_get w.destroy_queue c j q) in
            let d = flush_entity-Rounded call by_calls c j w r r₁ f v q e in
            let (w₁, f₁, v₁) = Rounded-Inv call by_calls f d in
            let m = if j == i && x.destroy_pending then suc n else n in
            let h₁ : History i r₀ m (suc c) r₁ = round j w x h f q b e refl in
            let (k, waits) =
              flush_from-Flushed fuel i m (suc c) w₁ r₀ r₁ r' f₁ v₁ h₁
                (sym (flush_from_round call by_calls fuel c j w r r₁ f q e) ∙ p) in
            (
              record {
                count = k.count;
                history = k.history;
                more = ground (arith, k.more);
                bound = ground (arith, k.bound);
              },
              λ s a pending. elim (Bool-cases (j == i)) [
                | inl same ↦
                    let jx : get_elem? w.entities i ≡ some x = rw (← (==_iff j i).0 same) b in
                    let xs = ap (λ (y : Slot). y.destroy_pending) (some-eq (sym jx ∙ a)) in
                    ground (arith, k.more, same, xs, pending)
                | inr other ↦
                    let kept =
                      round_waits s w₁ f v d f₁ a pending (λ h. cc ((==_iff j i).1 h, other)) in
                    ground (arith, waits s kept pending, other)
              ],
            )
      ]

  -- Let the code that a flush calls back act on the runtime by spawns, requests for destruction
  -- and quits only. Once a request for the destruction of a handle's entity has been accepted in
  -- a well-formed world, and a flush of less than 2^32 rounds has ended, the handle cannot be
  -- viewed any more: not even if its slot has a new entity by then.
  pub view-flush :
      (h fuel : ℕ) (r r₁ r₂ : Runtime) (w : World)
      → r.world ≡ some w
      → Inv 0 w
      → destroy_entity_raw h r ≡ ok r₁
      → fuel < two32
      → flush_destroy call fuel r₁ ≡ some (ok r₂)
      → view_raw h r₂ ≡ panic view_invalid
  unfolding flush_destroy view_raw handle_generation
  view-flush h fuel r r₁ r₂ w f v asked few p =
      let (w₁, q, result) = destroy_entity-Requested h r w f asked in
      let v₁ = Requested-Inv q v in
      let f₁ = ap (λ (x : Runtime). x.world) result in
      let i = handle_index h in
      let s₁ = record q.slot { destroy_pending = true } in
      let a₁ : At w₁ i s₁ =
        rw q.result (ground (arith, get_elem?-set w.entities i i s₁ q.slot q.at)) in
      let (k, waits) =
        flush_from-Flushed fuel i 0 0 w₁ r₁ r₁ r₂ f₁ v₁ (start refl refl) (ground (arith, f₁, p)) in
      let o = History-Reached w₁ s₁ f₁ v₁ a₁ k.history in
      rw (o.found, o.at) (ground (arith, o.generation, q.generation, k.bound, waits s₁ a₁ refl))
