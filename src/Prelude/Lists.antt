-- ===== src/Prelude/Lists.antt =====
-- Lists measured and indexed by native numbers, under the library's names.
use Prim.Native.Nat.{ℕ, zero, suc, ◌+◌, ◌-◌, ◌<◌, ◌≤◌, min}
use mathlib.Core.Path.{◌≡◌, refl, ap, sym, ◌∙◌}
use mathlib.Core.Logic.{◌≢◌, ◌⊎◌, inl, inr}
use mathlib.Core.Bool.{Bool, true, false, not, ◌&&◌, ◌||◌}
use mathlib.Core.List.{List, [], ◌∷◌, ◌++◌, map}
use mathlib.Core.Option.{Option, none, some}
use native.Mathlib.Omega.{arith}
use hwarangdo.Prelude.Tests.{◌==◌, if◌then◌else◌, Bool-cases, some-eq}

module _ {ℓ} {A : Type ℓ} where
  abbrev pub length : List A → ℕ
  length [] = 0
  length (x ∷ xs) = suc (length xs)

  abbrev pub get_elem? : List A → ℕ → Option A
  get_elem? [] i = none
  get_elem? (x ∷ xs) zero = some x
  get_elem? (x ∷ xs) (suc i) = get_elem? xs i

  -- A write out of bounds changes nothing.
  abbrev pub set : List A → ℕ → A → List A
  set [] i v = []
  set (x ∷ xs) zero v = v ∷ xs
  set (x ∷ xs) (suc i) v = x ∷ set xs i v

  pub length-append : (xs ys : List A) → length (xs ++ ys) ≡ length xs + length ys
  length-append [] ys = omega arith
  length-append (x ∷ xs) ys = omega (arith, length-append xs ys)

module _ {ℓ} {A : Type ℓ} where
  pub length-set : (xs : List A) (i : ℕ) (v : A) → length (set xs i v) ≡ length xs
  length-set [] i v = refl
  length-set (x ∷ xs) zero v = refl
  length-set (x ∷ xs) (suc i) v = ap suc (length-set xs i v)

  pub get_elem?-set_self :
      (xs : List A) (i : ℕ) (v : A) → i < length xs → get_elem? (set xs i v) i ≡ some v
  get_elem?-set_self [] i v h = elim h [ ]
  get_elem?-set_self (x ∷ xs) zero v h = refl
  get_elem?-set_self (x ∷ xs) (suc i) v h = get_elem?-set_self xs i v (omega arith)

  pub get_elem?-set_ne :
      (xs : List A) {i j : ℕ} (v : A) → i ≢ j → get_elem? (set xs i v) j ≡ get_elem? xs j
  get_elem?-set_ne [] v h = refl
  get_elem?-set_ne (x ∷ xs) {i = zero} {j = zero} v h = absurd (h refl)
  get_elem?-set_ne (x ∷ xs) {i = zero} {j = suc j} v h = refl
  get_elem?-set_ne (x ∷ xs) {i = suc i} {j = zero} v h = refl
  get_elem?-set_ne (x ∷ xs) {i = suc i} {j = suc j} v h = get_elem?-set_ne xs v (λ e. h (ap suc e))

module _ {ℓ} {A : Type ℓ} where
  abbrev pub get_or : List A → ℕ → A → A
  get_or [] i d = d
  get_or (x ∷ xs) zero d = x
  get_or (x ∷ xs) (suc i) d = get_or xs i d

  abbrev pub take : ℕ → List A → List A
  take zero xs = []
  take (suc n) [] = []
  take (suc n) (x ∷ xs) = x ∷ take n xs

  abbrev pub drop : ℕ → List A → List A
  drop zero xs = xs
  drop (suc n) [] = []
  drop (suc n) (x ∷ xs) = drop n xs

  abbrev pub replicate : ℕ → A → List A
  replicate zero a = []
  replicate (suc n) a = a ∷ replicate n a

  pub take-append-drop : (n : ℕ) (xs : List A) → take n xs ++ drop n xs ≡ xs
  take-append-drop zero xs = refl
  take-append-drop (suc n) [] = refl
  take-append-drop (suc n) (x ∷ xs) = rw (take-append-drop n xs)

  pub length-take : (n : ℕ) (xs : List A) → length (take n xs) ≡ min n (length xs)
  length-take zero xs = omega arith
  length-take (suc n) [] = omega arith
  length-take (suc n) (x ∷ xs) = omega (arith, length-take n xs)

  pub length-drop : (n : ℕ) (xs : List A) → length (drop n xs) ≡ length xs - n
  length-drop zero xs = omega arith
  length-drop (suc n) [] = omega arith
  length-drop (suc n) (x ∷ xs) = omega (arith, length-drop n xs)

  pub length-replicate : (n : ℕ) (a : A) → length (replicate n a) ≡ n
  length-replicate zero a = refl
  length-replicate (suc n) a = ap suc (length-replicate n a)

  pub length-map {κ} : {B : Type κ} (xs : List A) (f : A → B) → length (map f xs) ≡ length xs
  length-map [] f = refl
  length-map (x ∷ xs) f = ap suc (length-map xs f)

module _ {ℓ} {A : Type ℓ} where
  pub get_elem?-set :
      (xs : List A) (i j : ℕ) (v s : A)
      → get_elem? xs i ≡ some s
      → get_elem? (set xs i v) j ≡ (if i == j then some v else get_elem? xs j)
  get_elem?-set [] i j v s h = cc
  get_elem?-set (x ∷ xs) zero zero v s h = refl
  get_elem?-set (x ∷ xs) zero (suc j) v s h = ground arith
  get_elem?-set (x ∷ xs) (suc i) zero v s h = ground arith
  get_elem?-set (x ∷ xs) (suc i) (suc j) v s h = ground (arith, get_elem?-set xs i j v s h)

  pub get_elem?-append_one :
      (xs : List A) (v : A) (j : ℕ)
      → get_elem? (xs ++ v ∷ []) j ≡ (if length xs == j then some v else get_elem? xs j)
  get_elem?-append_one [] v zero = ground arith
  get_elem?-append_one [] v (suc j) = ground arith
  get_elem?-append_one (x ∷ xs) v zero = ground arith
  get_elem?-append_one (x ∷ xs) v (suc j) = ground (arith, get_elem?-append_one xs v j)

  pub get_elem?-lt : (xs : List A) (j : ℕ) (s : A) → get_elem? xs j ≡ some s → j < length xs
  get_elem?-lt [] j s h = cc
  get_elem?-lt (x ∷ xs) zero s h = omega arith
  get_elem?-lt (x ∷ xs) (suc j) s h = omega (arith, get_elem?-lt xs j s h)

abbrev pub contains : ℕ → List ℕ → Bool
contains i [] = false
contains i (x ∷ xs) = x == i || contains i xs

abbrev pub distinct : List ℕ → Bool
distinct [] = true
distinct (x ∷ xs) = not (contains x xs) && distinct xs

pub contains-drop-append :
    (c : ℕ) (xs : List ℕ) (i j : ℕ)
    → c ≤ length xs
    → contains j (drop c (xs ++ i ∷ [])) ≡ (contains j (drop c xs) || i == j)
contains-drop-append zero [] i j h = ground arith
contains-drop-append zero (x ∷ xs) i j h = ground (arith, contains-drop-append zero xs i j)
contains-drop-append (suc c) [] i j h = absurd (omega arith)
contains-drop-append (suc c) (x ∷ xs) i j h = contains-drop-append c xs i j (omega arith)

pub contains-append_one :
    (xs : List ℕ) (i j : ℕ) → contains j (xs ++ i ∷ []) ≡ (contains j xs || i == j)
contains-append_one xs i j = contains-drop-append 0 xs i j (omega arith)

pub contains-drop_head :
    (c : ℕ) (xs : List ℕ) (i j : ℕ)
    → get_elem? xs c ≡ some i
    → contains j (drop c xs) ≡ (i == j || contains j (drop (suc c) xs))
contains-drop_head c [] i j h = cc
contains-drop_head zero (x ∷ xs) i j h = ground arith
contains-drop_head (suc c) (x ∷ xs) i j h = contains-drop_head c xs i j h

pub contains_of_get : (xs : List ℕ) (k i : ℕ) → get_elem? xs k ≡ some i → contains i xs ≡ true
contains_of_get [] k i h = cc
contains_of_get (x ∷ xs) zero i h = ground arith
contains_of_get (x ∷ xs) (suc k) i h = ground (arith, contains_of_get xs k i h)

pub get_elem?-append_left {ℓ} :
    {A : Type ℓ} (xs ys : List A) (k : ℕ) (a : A)
    → get_elem? xs k ≡ some a
    → get_elem? (xs ++ ys) k ≡ some a
get_elem?-append_left [] ys k a h = cc
get_elem?-append_left (x ∷ xs) ys zero a h = h
get_elem?-append_left (x ∷ xs) ys (suc k) a h = get_elem?-append_left xs ys k a h

pub length_of_none {ℓ} : {A : Type ℓ} (xs : List A) (k : ℕ) → get_elem? xs k ≡ none → length xs ≤ k
length_of_none [] k h = omega arith
length_of_none (x ∷ xs) zero h = cc
length_of_none (x ∷ xs) (suc k) h = omega (arith, length_of_none xs k h)

pub get_of_lt {ℓ} :
    {A : Type ℓ} (xs : List A) (k : ℕ) → k < length xs → (a : A) × (get_elem? xs k ≡ some a)
get_of_lt [] k h = absurd (omega arith)
get_of_lt (x ∷ xs) zero h = (x, refl)
get_of_lt (x ∷ xs) (suc k) h = get_of_lt xs k (omega arith)

pub drop-eq-nil {ℓ} : {A : Type ℓ} (n : ℕ) (xs : List A) → length xs ≤ n → drop n xs ≡ []
drop-eq-nil zero [] h = refl
drop-eq-nil zero (x ∷ xs) h = absurd (omega arith)
drop-eq-nil (suc n) [] h = refl
drop-eq-nil (suc n) (x ∷ xs) h = drop-eq-nil n xs (omega arith)

-- What is found after a write.
pub set-inv {ℓ} :
    {A : Type ℓ} (xs : List A) (i j : ℕ) (v s t : A)
    → get_elem? xs i ≡ some s
    → get_elem? (set xs i v) j ≡ some t
    → ((i ≡ j) × (v ≡ t)) ⊎ (((i == j) ≡ false) × (get_elem? xs j ≡ some t))
set-inv xs i j v s t g h =
    let look = sym (get_elem?-set xs i j v s g) ∙ h in
    elim (Bool-cases (i == j)) [
      | inl e ↦ inl (ground (arith, e), some-eq (ground (arith, look, e)))
      | inr e ↦ inr (e, ground (arith, look, e))
    ]
