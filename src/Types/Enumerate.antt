-- ===== src/Types/Enumerate.antt =====
-- A test that holds of each builtin type, one after the other, holds of every builtin type.
use hwarangdo.Prelude.{
  ℕ, zero, suc, ◌≡◌, refl, Bool, true, ◌&&◌, some, List, [], ◌∷◌, arith, get_elem?, some-eq, sym,
  ap, ◌∙◌,
}
use hwarangdo.Types.{
  BuiltInType, i8, i16, i32, i64, i128, u8, u16, u32, u64, u128, f16, f32, f64, f128, c8, c16, c32,
  s8, s16, s32, b, fi, void, code,
}

all {ℓ} : {A : Type ℓ} → (A → Bool) → List A → Bool
all p [] = true
all p (x ∷ xs) = p x && all p xs

all_sound {ℓ} :
    {A : Type ℓ} (p : A → Bool) (xs : List A) (i : ℕ) (a : A)
    → all p xs ≡ true
    → get_elem? xs i ≡ some a
    → p a ≡ true
unfolding all
all_sound p [] i a h e = absurd (cc e)
all_sound p (x ∷ xs) zero a h e = let s : x ≡ a = cc in rw (← s) (ground arith)
all_sound p (x ∷ xs) (suc i) a h e = all_sound p xs i a (ground arith) e

abbrev builtins : List BuiltInType
builtins =
    i8 ∷ i16 ∷ i32 ∷ i64 ∷ i128 ∷ u8 ∷ u16 ∷ u32 ∷ u64 ∷ u128 ∷ f16 ∷ f32 ∷ f64 ∷ f128 ∷ c8 ∷ c16
    ∷ c32 ∷ s8 ∷ s16 ∷ s32 ∷ b ∷ fi ∷ void ∷ []

listed : (t : BuiltInType) → get_elem? builtins (code t) ≡ some t
unfolding code
listed i8 = refl
listed _ = refl

unfoldable pub for_all : (BuiltInType → Bool) → Bool
unfolding all
for_all p = all p builtins

pub for_all_sound : (p : BuiltInType → Bool) (t : BuiltInType) → for_all p ≡ true → p t ≡ true
unfolding for_all
for_all_sound p t h = all_sound p builtins (code t) t h (listed t)

pub for_all₂ :
    (p : BuiltInType → BuiltInType → Bool) (s t : BuiltInType)
    → for_all (λ x. for_all (p x)) ≡ true
    → p s t ≡ true
for_all₂ p s t h = for_all_sound (p s) t (for_all_sound (λ x. for_all (p x)) s h)

pub for_all₃ :
    (p : BuiltInType → BuiltInType → BuiltInType → Bool) (s t u : BuiltInType)
    → for_all (λ x. for_all (λ y. for_all (p x y))) ≡ true
    → p s t u ≡ true
for_all₃ p s t u h = for_all₂ (p s) t u (for_all_sound (λ x. for_all (λ y. for_all (p x y))) s h)

pub code-injective : (s t : BuiltInType) → code s ≡ code t → s ≡ t
code-injective s t e = some-eq (sym (listed s) ∙ ap (get_elem? builtins) e ∙ listed t)
