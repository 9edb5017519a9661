-- ===== src/World/Slots.antt =====
-- The well-formedness of a world, and that spawning and asking for a destruction keep it.
use hwarangdo.Prelude.{
  ℕ, ◌%◌, ◌<◌, ◌≤◌, ◌≡◌, refl, true, false, some, List, [], ◌∷◌, ◌++◌, arith, length, get_elem?,
  drop, contains, distinct, ◌==◌, ap, Option-cases, Bool-cases, inl, inr, ==_iff, get_elem?-set,
  get_elem?-append_one, get_elem?-lt,
}
use hwarangdo.World.{
  two32, Slot, World, ok, occupied, write_slot, fresh_slot, take_slot, occupy, make_handle,
}

abbrev pub At : World → ℕ → Slot → Type 0
At w i s = get_elem? w.entities i ≡ some s

-- `cursor` entries of the queue have been worked off.
pub record Inv (cursor : ℕ) (w : World) : Type 0 where
  -- Free slots hold no entity, and none is listed twice.
  pub free_dead :
      (i : ℕ) → contains i w.free_slots ≡ true → (s : Slot) × At w i s × (s.alive ≡ false)
  pub free_distinct : distinct w.free_slots ≡ true
  -- What waits for its destruction lives, and stands in the rest of the queue.
  pub pending_alive : (i : ℕ) (s : Slot) → At w i s → s.destroy_pending ≡ true → s.alive ≡ true
  pub pending_queued :
      (i : ℕ) (s : Slot)
      → At w i s
      → s.destroy_pending ≡ true
      → contains i (drop cursor w.destroy_queue) ≡ true
  -- The queue names slots that exist.
  pub queue_lt : (i : ℕ) → contains i w.destroy_queue ≡ true → (s : Slot) × At w i s
  pub cursor_le : cursor ≤ length w.destroy_queue
  -- A generation is a `uint32_t`.
  pub generation_lt : (i : ℕ) (s : Slot) → At w i s → s.generation < two32

-- A slot that is written keeps the invariant if it stays dead while it is free, waits only if it
-- waited before and lives, and keeps its generation.
pub write-Inv :
    (c : ℕ) (w : World) (i : ℕ) (s s' : Slot)
    → Inv c w
    → At w i s
    → (contains i w.free_slots ≡ true → s'.alive ≡ false)
    → (s'.destroy_pending ≡ true → s'.alive ≡ true)
    → (s'.destroy_pending ≡ true → contains i (drop c w.destroy_queue) ≡ true)
    → s'.generation < two32
    → Inv c (write_slot w i s')
write-Inv c w i s s' v e dead alive queued gen = record {
  free_dead = λ j h.
      let (x, a, d) = v.free_dead j h in
      elim (Bool-cases (i == j)) [
        | inl same ↦ (
          s',
          ground (arith, get_elem?-set w.entities i j s' s e),
          dead (rw ((==_iff i j).0 same) h),
        )
        | inr other ↦ (x, ground (arith, get_elem?-set w.entities i j s' s e), d)
      ];
  free_distinct = v.free_distinct;
  pending_alive =
      λ j x a p. ground (arith, get_elem?-set w.entities i j s' s e, v.pending_alive j x);
  pending_queued =
      λ j x a p. ground (arith, get_elem?-set w.entities i j s' s e, v.pending_queued j x);
  queue_lt = λ j h.
      let (x, a) = v.queue_lt j h in
      elim (Bool-cases (i == j)) [
        | inl same ↦ (s', ground (arith, get_elem?-set w.entities i j s' s e))
        | inr other ↦ (x, ground (arith, get_elem?-set w.entities i j s' s e))
      ];
  generation_lt = λ j x a. ground (arith, get_elem?-set w.entities i j s' s e, v.generation_lt j x);
  cursor_le = v.cursor_le;
}

pub append-Inv :
    (c : ℕ) (w : World)
    → Inv c w
    → w.free_slots ≡ []
    → Inv c (record w { entities = w.entities ++ fresh_slot ∷ [] })
append-Inv c w v e = record {
  free_dead = λ j h. absurd (cc (ap (contains j) e));
  free_distinct = v.free_distinct;
  pending_alive =
      λ j x a p. ground (arith, get_elem?-append_one w.entities fresh_slot j, v.pending_alive j x);
  pending_queued =
      λ j x a p. ground (arith, get_elem?-append_one w.entities fresh_slot j, v.pending_queued j x);
  queue_lt = λ j h.
      let (x, a) = v.queue_lt j h in
      (
        x,
        ground (arith, get_elem?-append_one w.entities fresh_slot j, get_elem?-lt w.entities j x),
      );
  generation_lt =
      λ j x a. ground (arith, get_elem?-append_one w.entities fresh_slot j, v.generation_lt j x);
  cursor_le = v.cursor_le;
}

pop-Inv :
    (c : ℕ) (w : World) (i : ℕ) (rest : List ℕ)
    → Inv c w
    → w.free_slots ≡ i ∷ rest
    → Inv c (record w { free_slots = rest }) × (contains i rest ≡ false)
pop-Inv c w i rest v e = (
  record {
    free_dead = λ j h. v.free_dead j (ground (arith, ap (contains j) e));
    free_distinct = ground (arith, v.free_distinct, ap distinct e);
    pending_alive = v.pending_alive;
    pending_queued = v.pending_queued;
    queue_lt = v.queue_lt;
    generation_lt = v.generation_lt;
    cursor_le = v.cursor_le;
  },
  ground (arith, v.free_distinct, ap distinct e),
)

abbrev pub grown : World → World
grown w = record w { entities = w.entities ++ fresh_slot ∷ [] }

-- The two ways in which a spawn finds its slot.
pub data Spawned (e d o : ℕ) (w : World) : ℕ → World → Type 0 where
  reused :
      (i : ℕ) (rest : List ℕ) (s : Slot) {h : ℕ} {w' : World}
      → w.free_slots ≡ i ∷ rest
      → At w i s
      → h ≡ make_handle i s.generation
      → w' ≡ write_slot (record w { free_slots = rest }) i (occupied e d o s)
      → Spawned e d o w h w'
  added :
      (i : ℕ) (s : Slot) {h : ℕ} {w' : World}
      → w.free_slots ≡ []
      → i ≡ length w.entities % two32
      → At (grown w) i s
      → h ≡ make_handle i s.generation
      → w' ≡ write_slot (grown w) i (occupied e d o s)
      → Spawned e d o w h w'

occupy-ok :
    (e d o i : ℕ) (w : World) {h : ℕ} {w' : World}
    → occupy e d o (i, w) ≡ ok (h, w')
    → (s : Slot) × At w i s
      × (h ≡ make_handle i s.generation)
      × (w' ≡ write_slot w i (occupied e d o s))
unfolding occupy
occupy-ok e d o i w p = elim (Option-cases (get_elem? w.entities i)) [
  | inl missing ↦ absurd (cc (rw (missing) at p))
  | inr (s, a) ↦ (s, a, ground (arith, rw a at p), ground (arith, rw a at p))
]

spawn-Spawned_in :
    (e d o : ℕ) (w : World) (free : List ℕ) {h : ℕ} {w' : World}
    → w.free_slots ≡ free
    → occupy e d o (take_slot w) ≡ ok (h, w')
    → Spawned e d o w h w'
unfolding take_slot
spawn-Spawned_in e d o w [] f p =
    let (s, a, q, r) = occupy-ok e d o _ (grown w) (rw (f, take_slot) at p) in
    added _ s f refl a q r
spawn-Spawned_in e d o w (i ∷ rest) f p =
    let (s, a, q, r) =
      occupy-ok e d o i (record w { free_slots = rest }) (rw (f, take_slot) at p) in
    reused i rest s f a q r

pub occupy-Spawned :
    (e d o : ℕ) (w : World) {h : ℕ} {w' : World}
    → occupy e d o (take_slot w) ≡ ok (h, w')
    → Spawned e d o w h w'
occupy-Spawned e d o w p = spawn-Spawned_in e d o w w.free_slots refl p

pub Spawned-Inv : {e d o c h : ℕ} {w w' : World} → Spawned e d o w h w' → Inv c w → Inv c w'
Spawned-Inv {e} {d} {o} {c} {w = w} (reused i rest s f a _ q) v =
    let (v', gone) = pop-Inv c w i rest v f in
    rw q (
      write-Inv c _ i s (occupied e d o s) v' a (λ held. cc) (λ p. refl) (λ p. cc)
        (v.generation_lt i s a))
Spawned-Inv {e} {d} {o} {c} {w = w} (added i s f _ a _ q) v =
    let v' = append-Inv c w v f in
    rw q (
      write-Inv c _ i s (occupied e d o s) v' a (λ held. absurd (cc (ap (contains i) f)))
        (λ p. refl) (λ p. cc) (v'.generation_lt i s a))
