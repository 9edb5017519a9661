-- ===== src/World.antt =====
-- The entity world of the runtime: runtime/world/hrd_runtime_world.cpp and the records of
-- include/runtimes/hrd_runtime.h. Pointers and function pointers are numbers, 0 is the null pointer.
-- A call through a function pointer is the parameter `call`: the code it runs is compiled from a
-- game's sources. Panics and undefined behaviour are outcomes.
pub mod Handles
pub mod Slots
pub mod Calls
pub mod Lookup
pub mod Release
pub mod Flush
pub mod Stale
pub mod Terminates
mod Examples
use hwarangdo.Prelude.{
  ℕ, zero, suc, ◌+◌, ◌*◌, ◌/◌, ◌%◌, Bool, true, false, not, ◌||◌, Option, none, some, List, [], ◌∷◌,
  ◌++◌, ◌≡◌, ◌⊎◌, inl, inr, refl, length, get_elem?, set, ltb, ◌==◌, if◌then◌else◌,
}

abbrev pub two32 : ℕ
two32 = 0x1_0000_0000

-- The messages of `hrd_runtime_panic`.
pub data Panic : Type 0 where
  null_world null_entity null_destroy invalid_index view_invalid destroy_invalid : Panic
  already_pending : Panic

-- What the code does not check: a null `world`, an index outside `entities`, and a reference to a
-- slot after the vector has grown.
pub data Undefined : Type 0 where
  null_deref out_of_bounds dangling : Undefined

pub data Outcome {ℓ} (A : Type ℓ) : Type ℓ where
  ok : A → Outcome A
  panic : Panic → Outcome A
  undefined : Undefined → Outcome A

infixl 5 ◌>>=◌ ◌>>◌
abbrev pub ◌>>=◌ {ℓ κ} : {A : Type ℓ} {B : Type κ} → Outcome A → (A → Outcome B) → Outcome B
ok a >>= f = f a
panic m >>= f = panic m
undefined u >>= f = undefined u

abbrev pub ◌>>◌ {ℓ} : {B : Type ℓ} → Outcome (Unit {0}) → Outcome B → Outcome B
m >> k = m >>= λ _. k

-- `if (test) hrd_runtime_panic(m);`
abbrev pub panic_if : Bool → Panic → Outcome (Unit {0})
panic_if true m = panic m
panic_if false m = ok tt

abbrev pub or_undefined {ℓ} : {A : Type ℓ} → Option A → Undefined → Outcome A
or_undefined none u = undefined u
or_undefined (some a) u = ok a

abbrev pub or_panic {ℓ} : {A : Type ℓ} → Option A → Panic → Outcome A
or_panic none m = panic m
or_panic (some a) m = ok a

pub bind-eq-ok {ℓ κ} :
    {A : Type ℓ} {B : Type κ} (m : Outcome A) (f : A → Outcome B) {b : B}
    → (m >>= f) ≡ ok b
    → (a : A) × (m ≡ ok a) × (f a ≡ ok b)
bind-eq-ok (ok a) f h = (a, refl, h)
bind-eq-ok (panic m) f h = cc
bind-eq-ok (undefined u) f h = cc

pub or_panic-eq-ok {ℓ} :
    {A : Type ℓ} (o : Option A) (m : Panic) {a : A} → or_panic o m ≡ ok a → o ≡ some a
or_panic-eq-ok none m h = cc
or_panic-eq-ok (some a) m h = cc

pub or_undefined-eq-ok {ℓ} :
    {A : Type ℓ} (o : Option A) (u : Undefined) {a : A} → or_undefined o u ≡ ok a → o ≡ some a
or_undefined-eq-ok none u h = cc
or_undefined-eq-ok (some a) u h = cc

pub ok-injective {ℓ} : {A : Type ℓ} {a b : A} → ok a ≡ ok b → a ≡ b
ok-injective {a = a} {b} p = cc

pub Outcome-cases {ℓ} :
    {A : Type ℓ} (o : Outcome A)
    → ((a : A) × (o ≡ ok a))
      ⊎ (((m : Panic) × (o ≡ panic m)) ⊎ ((u : Undefined) × (o ≡ undefined u)))
Outcome-cases (ok a) = inl (a, refl)
Outcome-cases (panic m) = inr (inl (m, refl))
Outcome-cases (undefined u) = inr (inr (u, refl))

pub record Slot : Type 0 where
  pub ptr : ℕ
  pub on_destroy : ℕ
  pub destroy : ℕ
  pub alive : Bool
  pub destroy_pending : Bool
  pub generation : ℕ

-- The head of `free_slots` is the back of the vector.
pub record World : Type 0 where
  pub running : Bool
  pub entities : List Slot
  pub free_slots : List ℕ
  pub destroy_queue : List ℕ

-- What the runtime does to an entity's memory, in order.
pub data Event : Type 0 where
  ran_on_destroy : ℕ → ℕ → Event
  ran_destroy : ℕ → ℕ → Event
  freed : ℕ → Event

pub record Runtime : Type 0 where
  pub world : Option World
  pub trace : List Event

-- `index` and `generation` of a handle, which is a `uint64_t`.
pub handle_index : ℕ → ℕ
handle_index h = h % two32

pub handle_generation : ℕ → ℕ
handle_generation h = h / two32 % two32

-- `(generation << 32) | index` of two `uint32_t`: the bits do not overlap.
pub make_handle : ℕ → ℕ → ℕ
make_handle index generation = generation * two32 + index

abbrev pub empty_world : World
empty_world = record { running = true; entities = []; free_slots = []; destroy_queue = [] }

pub world_create : Runtime → Runtime
world_create r = record r { world = some empty_world }

pub world_running : Runtime → Bool
world_running r = elim r.world [ none ↦ false | some w ↦ w.running ]

pub world_quit : Runtime → Runtime
world_quit r = elim r.world [
  | none ↦ r
  | some w ↦ record r { world = some (record w { running = false }) }
]

pub world_destroy : Runtime → Runtime
world_destroy r = record r { world = none }

abbrev pub fresh_slot : Slot
fresh_slot = record {
  ptr = 0;
  on_destroy = 0;
  destroy = 0;
  alive = false;
  destroy_pending = false;
  generation = 1;
}

-- The slot that an entity goes to: the free slot released last, or a new one. The index is cut to
-- 32 bits.
pub take_slot : World → ℕ × World
take_slot w = elim w.free_slots [
  | i ∷ rest ↦ (i, record w { free_slots = rest })
  | [] ↦ (length w.entities % two32, record w { entities = w.entities ++ fresh_slot ∷ [] })
]

abbrev pub occupied : ℕ → ℕ → ℕ → Slot → Slot
occupied entity destroy on_destroy s = record s {
  ptr = entity;
  destroy = destroy;
  on_destroy = on_destroy;
  alive = true;
  destroy_pending = false;
}

abbrev pub write_slot : World → ℕ → Slot → World
write_slot w i s = record w { entities = set w.entities i s }

pub occupy : ℕ → ℕ → ℕ → ℕ × World → Outcome (ℕ × World)
occupy entity destroy on_destroy (i, w) = do
  s ← or_undefined (get_elem? w.entities i) out_of_bounds
  ok (make_handle i s.generation, write_slot w i (occupied entity destroy on_destroy s))

pub spawn_raw : ℕ → ℕ → ℕ → Runtime → Outcome (ℕ × Runtime)
spawn_raw entity destroy on_destroy r = do
  w ← or_panic r.world null_world
  panic_if (entity == 0) null_entity
  panic_if (destroy == 0) null_destroy
  (h, w') ← occupy entity destroy on_destroy (take_slot w)
  ok (h, record r { world = some w' })

pub view_raw : ℕ → Runtime → Outcome ℕ
view_raw h r = do
  w ← or_undefined r.world null_deref
  s ← or_panic (get_elem? w.entities (handle_index h)) invalid_index
  panic_if (not s.alive || s.destroy_pending || not (s.generation == handle_generation h))
      view_invalid
  ok s.ptr

-- The index is not compared with the size of the vector here.
pub destroy_entity_raw : ℕ → Runtime → Outcome Runtime
destroy_entity_raw h r = do
  w ← or_undefined r.world null_deref
  s ← or_undefined (get_elem? w.entities (handle_index h)) out_of_bounds
  panic_if (not s.alive || not (s.generation == handle_generation h)) destroy_invalid
  panic_if s.destroy_pending already_pending
  ok (record r {
    world = some (record (write_slot w (handle_index h) (record s { destroy_pending = true })) {
      destroy_queue = w.destroy_queue ++ handle_index h ∷ [];
    });
  })

abbrev pub log : Event → Runtime → Runtime
log e r = record r { trace = r.trace ++ e ∷ [] }

-- What the reference `slot` names: the entry at its index, as long as the vector has the size that
-- it had when the reference was taken.
pub held_slot : ℕ → ℕ → Runtime → Outcome (World × Slot)
held_slot size i r = do
  w ← or_undefined r.world null_deref
  if length w.entities == size
      then (do s ← or_undefined (get_elem? w.entities i) out_of_bounds; ok (w, s))
      else undefined dangling

-- `++slot.generation` on a `uint32_t`.
abbrev pub cleared : Slot → Slot
cleared s = record s {
  ptr = 0;
  destroy = 0;
  on_destroy = 0;
  generation = (s.generation + 1) % two32;
}

abbrev pub retired : Slot → Slot
retired s = record s { destroy_pending = false; alive = false }

module _ (call : ℕ → ℕ → Runtime → Outcome Runtime) where
  -- A call through a function pointer, if it is not null.
  pub invoke : (ℕ → ℕ → Event) → ℕ → ℕ → Runtime → Outcome Runtime
  invoke event f p r = if f == 0 then ok r else call f p (log (event f p) r)

  -- The part of the loop's body behind `if (!slot.destroyPending) continue;`.
  pub release_entity : ℕ → World → Slot → Runtime → Outcome Runtime
  unfolding invoke held_slot
  release_entity i w s r = do
    let size = length w.entities
    r₁ ←
        invoke ran_on_destroy s.on_destroy s.ptr
          (record r { world = some (write_slot w i (retired s)) })
    (w₁, s₁) ← held_slot size i r₁
    r₂ ← invoke ran_destroy s₁.destroy s₁.ptr r₁
    (w₂, s₂) ← held_slot size i r₂
    ok (
        log (freed s₂.ptr) (record r₂ {
          world = some (record (write_slot w₂ i (cleared s₂)) { free_slots = i ∷ w₂.free_slots });
        }))

  -- One round of the loop, for the entry `i` of the queue.
  pub flush_entity : ℕ → Runtime → Outcome Runtime
  flush_entity i r = do
    w ← or_undefined r.world null_deref
    s ← or_undefined (get_elem? w.entities i) out_of_bounds
    if s.destroy_pending then release_entity i w s r else ok r

  -- `while (cursor < destroyQueue.size())`, and the `clear` behind it; `none` means that the fuel
  -- ran out.
  pub flush_from : ℕ → ℕ → Runtime → Option (Outcome Runtime)
  flush_from zero cursor r = none
  flush_from (suc fuel) cursor r = elim r.world [
    | none ↦ some (undefined null_deref)
    | some w ↦ elim (get_elem? w.destroy_queue cursor) [
      | none ↦ some (ok (record r { world = some (record w { destroy_queue = [] }) }))
      | some i ↦ elim (flush_entity i r) [
        | ok r' ↦ flush_from fuel (suc cursor) r'
        | panic m ↦ some (panic m)
        | undefined u ↦ some (undefined u)
      ]
    ]
  ]

  pub flush_destroy : ℕ → Runtime → Option (Outcome Runtime)
  flush_destroy fuel r = elim r.world [ none ↦ some (ok r) | some w ↦ flush_from fuel 0 r ]
