-- ===== src/World/Release.antt =====
-- The release of one entity by a flush: what `release_entity` does, for compiled code that touches the
-- runtime only by calling it.
use hwarangdo.Prelude.{
  ℕ, suc, ◌≡◌, ◌≢◌, refl, true, false, some, List, [], ◌∷◌, ◌++◌, arith, length, get_elem?,
  contains, ◌==◌, if◌then◌else◌, ap, sym, ◌∙◌, Option-cases, Bool-cases, inl, inr, ==_iff,
  get_elem?-set, get_elem?-lt, length-set, contains-drop_head,
}
use mathlib.Core.List.{append_assoc, append-nil}
use hwarangdo.World.{
  Slot, World, Runtime, Outcome, Event, ok, ok-injective, bind-eq-ok, ran_on_destroy, ran_destroy,
  freed, cleared, retired, log, invoke, held_slot, release_entity, write_slot,
}
use hwarangdo.World.Slots.{At, Inv, write-Inv}
use hwarangdo.World.Calls.{Steps, Steps-Kept, Frame, Frame-trans, Frame-refl}

-- What the runtime records for the destruction of the entity in `s`.
abbrev pub called : (ℕ → ℕ → Event) → ℕ → ℕ → List Event
called event f p = if f == 0 then [] else event f p ∷ []

abbrev pub events : Slot → List Event
events s =
    called ran_on_destroy s.on_destroy s.ptr
    ++ (called ran_destroy s.destroy s.ptr ++ freed s.ptr ∷ [])

pub advance-Inv :
    (c i : ℕ) (w : World) (s : Slot)
    → Inv c w
    → get_elem? w.destroy_queue c ≡ some i
    → At w i s
    → s.destroy_pending ≡ false
    → Inv (suc c) w
advance-Inv c i w s v q a idle = record {
  free_dead = v.free_dead;
  free_distinct = v.free_distinct;
  pending_alive = v.pending_alive;
  pending_queued = λ j x b p.
      ground (arith, contains-drop_head c w.destroy_queue i j q, v.pending_queued j x, a);
  queue_lt = v.queue_lt;
  cursor_le = get_elem?-lt w.destroy_queue c i q;
  generation_lt = v.generation_lt;
}

push-Inv :
    (c i : ℕ) (w : World) (s : Slot)
    → Inv c w
    → At w i s
    → s.alive ≡ false
    → contains i w.free_slots ≡ false
    → Inv c (record w { free_slots = i ∷ w.free_slots })
push-Inv c i w s v a dead free = record {
  free_dead = λ j h. elim (Bool-cases (i == j)) [
    | inl same ↦ (s, rw (← (==_iff i j).0 same) a, dead)
    | inr other ↦ v.free_dead j (ground arith)
  ];
  free_distinct = ground (arith, v.free_distinct);
  pending_alive = v.pending_alive;
  pending_queued = v.pending_queued;
  queue_lt = v.queue_lt;
  cursor_le = v.cursor_le;
  generation_lt = v.generation_lt;
}

alive_not_free :
    (c i : ℕ) (w : World) (s : Slot)
    → Inv c w
    → At w i s
    → s.alive ≡ true
    → contains i w.free_slots ≡ false
alive_not_free c i w s v a alive = elim (Bool-cases (contains i w.free_slots)) [
  | inl free ↦ let (x, b, dead) = v.free_dead i free in cc (a, b, dead, alive)
  | inr e ↦ e
]

held_slot-eq :
    (size i : ℕ) (r : Runtime) (w : World) {u : World} {s : Slot}
    → r.world ≡ some w
    → held_slot size i r ≡ ok (u, s)
    → (length w.entities ≡ size) × (u ≡ w) × At w i s
unfolding held_slot
held_slot-eq size i r w f p = elim (Option-cases (get_elem? w.entities i)) [
  | inl outside ↦ absurd (ground (arith, rw (f, outside) at p))
  | inr (s, a) ↦ (
    ground (arith, rw (f, a) at p),
    ground (arith, rw (f, a) at p),
    ground (arith, rw (f, a) at p),
  )
]

-- The compiled code acts on the runtime by calls only.
module _ (call : ℕ → ℕ → Runtime → Outcome Runtime)
    (by_calls : (f p : ℕ) (r r' : Runtime) → call f p r ≡ ok r' → Steps r r') where
  record Invoked (c : ℕ) (w : World) (r r' : Runtime) (more : List Event) : Type 0 where
    world' : World
    found : r'.world ≡ some world'
    inv : Inv c world'
    frame : Frame w world'
    trace : r'.trace ≡ r.trace ++ more

  invoke-Invoked :
      (c : ℕ) (event : ℕ → ℕ → Event) (f p : ℕ) (r r' : Runtime) (w : World)
      → r.world ≡ some w
      → Inv c w
      → invoke call event f p r ≡ ok r'
      → Invoked c w r r' (called event f p)
  unfolding invoke
  invoke-Invoked c event f p r r' w found v e = elim (Bool-cases (f == 0)) [
    | inl null ↦ rw null (record {
      world' = w;
      found = ground (arith, found);
      inv = v;
      frame = Frame-refl w;
      trace = ground (arith, append-nil r.trace);
    })
    | inr code ↦
        let k = Steps-Kept w found v (by_calls f p (log (event f p) r) r' (ground arith)) in
        rw code (record {
          world' = k.world';
          found = k.found;
          inv = k.inv;
          frame = k.frame;
          trace = k.trace;
        })
  ]

  -- A round that destroys the entity in slot `i`.
  pub record Round (c i : ℕ) (s : Slot) (w : World) (r r' : Runtime) : Type 0 where
    pub world' : World
    pub found : r'.world ≡ some world'
    pub inv : Inv (suc c) world'
    pub gone : At world' i (cleared (retired s))
    pub free : contains i world'.free_slots ≡ true
    pub same_size : length world'.entities ≡ length w.entities
    pub queue_kept :
        (k j : ℕ) → get_elem? w.destroy_queue k ≡ some j → get_elem? world'.destroy_queue k ≡ some j
    pub generation_kept :
        (j : ℕ) (x : Slot)
        → i ≢ j
        → At w j x
        → (x' : Slot) × At world' j x' × (x'.generation ≡ x.generation)
    pub pending_kept :
        (j : ℕ) (x : Slot)
        → i ≢ j
        → At w j x
        → x.alive ≡ true
        → x.destroy_pending ≡ true
        → At world' j x
    pub trace : r'.trace ≡ r.trace ++ events s

  -- The state in which the code of the entity in slot `i` runs: dead, not free, not waiting.
  record Detached (c i : ℕ) (s : Slot) (w : World) : Type 0 where
    inv : Inv c w
    at : At w i s
    dead : s.alive ≡ false
    idle : s.destroy_pending ≡ false
    not_free : contains i w.free_slots ≡ false

  invoke-Detached :
      (c i size : ℕ) (s : Slot) (event : ℕ → ℕ → Event) (f p : ℕ) (r r' : Runtime) (w : World)
      {u : World} {t : Slot}
      → size ≡ length w.entities
      → r.world ≡ some w
      → Detached c i s w
      → invoke call event f p r ≡ ok r'
      → held_slot size i r' ≡ ok (u, t)
      → (r'.world ≡ some u)
        × (t ≡ s)
        × Detached c i s u
        × Frame w u
        × (length u.entities ≡ size)
        × (r'.trace ≡ r.trace ++ called event f p)
  invoke-Detached c i size s event f p r r' w l found d e held =
      let k = invoke-Invoked c event f p r r' w found d.inv e in
      let (size', same, a) = held_slot-eq size i r' k.world' k.found held in
      let (b, free) = k.frame.dead_kept (size' ∙ l) i s d.at d.dead d.not_free in
      rw same (
        k.found,
        ground (arith, a, b),
        record { inv = k.inv; at = b; dead = d.dead; idle = d.idle; not_free = free },
        k.frame,
        size',
        k.trace,
      )

  finish-Round :
      (c i : ℕ) (s : Slot) (u : World)
      → Detached c i s u
      → get_elem? u.destroy_queue c ≡ some i
      → Inv (suc c) (record (write_slot u i (cleared s)) { free_slots = i ∷ u.free_slots })
  finish-Round c i s u d q =
      let cleared_at = get_elem?-set u.entities i i (cleared s) s d.at in
      let written =
        write-Inv c u i s (cleared s) d.inv d.at (λ _. d.dead) (λ p. cc (p, d.idle))
          (λ p. cc (p, d.idle)) (omega arith) in
      push-Inv (suc c) i (write_slot u i (cleared s)) (cleared s)
        (advance-Inv c i (write_slot u i (cleared s)) (cleared s) written q
          (ground (arith, cleared_at)) d.idle)
        (ground (arith, cleared_at)) d.dead d.not_free

  close-Round :
      (c i : ℕ) (s t₁ t₂ : Slot) (w u : World) (r r₂ r' : Runtime)
      → At w i s
      → get_elem? w.destroy_queue c ≡ some i
      → Detached c i (retired s) u
      → Frame (write_slot w i (retired s)) u
      → length u.entities ≡ length w.entities
      → t₁ ≡ retired s
      → t₂ ≡ retired s
      → r₂.trace
        ≡ (r.trace ++ called ran_on_destroy s.on_destroy s.ptr)
          ++ called ran_destroy t₁.destroy t₁.ptr
      → r'
        ≡ log (freed t₂.ptr) (record r₂ {
          world = some (record (write_slot u i (cleared t₂)) { free_slots = i ∷ u.free_slots });
        })
      → Round c i s w r r'
  close-Round c i s t₁ t₂ w u r r₂ r' a q d fr l e₁ e₂ tr result =
      let s' = cleared (retired s) in
      let kept = get_elem?-set u.entities i in
      rw (result, e₂)
        (record {
          world' = record (write_slot u i s') { free_slots = i ∷ u.free_slots };
          found = refl;
          inv = finish-Round c i (retired s) u d (fr.queue_kept c i q);
          gone = ground (arith, kept i s' (retired s) d.at);
          free = ground arith;
          same_size = length-set u.entities i s' ∙ l;
          queue_kept = fr.queue_kept;
          generation_kept = λ j x other b.
              let (x', b', g) =
                fr.generation_kept j x
                  (ground (arith, get_elem?-set w.entities i j (retired s) s a)) in
              (x', ground (arith, kept j s' (retired s) d.at), g);
          pending_kept = λ j x other b alive p.
              let b' =
                fr.pending_kept (l ∙ sym (length-set w.entities i (retired s))) j x
                  (ground (arith, get_elem?-set w.entities i j (retired s) s a)) alive p in
              ground (arith, kept j s' (retired s) d.at);
          trace = ground (
            arith,
            tr,
            e₁,
            append_assoc r.trace (called ran_on_destroy s.on_destroy s.ptr)
                (called ran_destroy s.destroy s.ptr),
            append_assoc r.trace
                (called ran_on_destroy s.on_destroy s.ptr ++ called ran_destroy s.destroy s.ptr)
                (freed s.ptr ∷ []),
            append_assoc (called ran_on_destroy s.on_destroy s.ptr)
                (called ran_destroy s.destroy s.ptr) (freed s.ptr ∷ []),
          );
        })

  pub release-Round :
      (c i : ℕ) (s : Slot) (w : World) (r r' : Runtime)
      → r.world ≡ some w
      → Inv c w
      → get_elem? w.destroy_queue c ≡ some i
      → At w i s
      → s.destroy_pending ≡ true
      → release_entity call i w s r ≡ ok r'
      → Round c i s w r r'
  unfolding release_entity
  release-Round c i s w r r' found v q a pending p =
      let s₀ = retired s in
      let w₀ = write_slot w i s₀ in
      let r₀ = record r { world = some w₀ } in
      let n = length w.entities in
      let size : n ≡ length w₀.entities = sym (length-set w.entities i s₀) in
      let inv₀ : Inv c w₀ =
        write-Inv c w i s s₀ v a (λ _. refl) (λ h. absurd (cc h)) (λ h. absurd (cc h))
          (v.generation_lt i s a) in
      let d₀ : Detached c i s₀ w₀ = record {
        inv = inv₀;
        at = ground (arith, get_elem?-set w.entities i i s₀ s a);
        dead = refl;
        idle = refl;
        not_free = alive_not_free c i w s v a (v.pending_alive i s a pending);
      } in
      let (r₁, e₁, p₁) = bind-eq-ok (invoke call ran_on_destroy s.on_destroy s.ptr r₀) _ p in
      let (x₁, h₁, p₂) = bind-eq-ok (held_slot n i r₁) _ p₁ in
      let (r₂, e₂, p₃) = bind-eq-ok (invoke call ran_destroy x₁.1.destroy x₁.1.ptr r₁) _ p₂ in
      let (x₂, h₂, p₄) = bind-eq-ok (held_slot n i r₂) _ p₃ in
      let (f₁, t₁, d₁, fr₁, l₁, tr₁) =
        invoke-Detached c i n s₀ ran_on_destroy s.on_destroy s.ptr r₀ r₁ w₀ size refl d₀ e₁ h₁ in
      let (f₂, t₂, d₂, fr₂, l₂, tr₂) =
        invoke-Detached c i n s₀ ran_destroy x₁.1.destroy x₁.1.ptr r₁ r₂ x₁.0 (sym l₁) f₁ d₁ e₂
          h₂ in
      close-Round c i s x₁.1 x₂.1 w x₂.0 r r₂ r' a q d₂ (Frame-trans fr₁ fr₂) l₂ t₁ t₂
        (tr₂ ∙ ap (λ (t : List Event). t ++ called ran_destroy x₁.1.destroy x₁.1.ptr) tr₁)
        (sym (ok-injective p₄))
