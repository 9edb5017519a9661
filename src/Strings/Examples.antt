-- ===== src/Strings/Examples.antt =====
-- Strings at concrete memories.
use hwarangdo.Prelude.{
  ℕ, zero, suc, ◌^◌, ◌≡◌, refl, ap, ◌∙◌, subst, ◌↔◌, Bool, true, some, [], ◌∷◌, ◌++◌, ltb→lt,
  some-eq, get_elem?,
}
use hwarangdo.Strings.{
  HrdString8, Memory, ran, empty_s8, string_eq_s8, s8_from_literal, copy_s8, add_s8, move_s8,
}
use hwarangdo.Strings.Valid.{Owns, is_empty, Valid, contents}
use hwarangdo.Strings.Contents.{holding, holding-Valid}
use hwarangdo.Strings.Compare.{string_eq_s8-decides}
use hwarangdo.Strings.Operations.{Written, copy_s8-Written, add_s8-Written}

abbrev blanks : Memory
blanks = record { strings = empty_s8 ∷ empty_s8 ∷ empty_s8 ∷ []; buffers = [] }

blanks-empty : (p : ℕ) (s : HrdString8) → get_elem? blanks.strings p ≡ some s → empty_s8 ≡ s
blanks-empty zero s g = some-eq g
blanks-empty (suc zero) s g = some-eq g
blanks-empty (suc (suc zero)) s g = some-eq g
blanks-empty (suc (suc (suc p))) s g = absurd (cc g)

blanks-Valid : Valid blanks
blanks-Valid = record {
  owned = λ p s g. subst (Owns blanks) (blanks-empty p s g) (is_empty refl refl);
  apart = λ p q s t d g h a b. absurd (cc (ap (λ x. x.data_at) (blanks-empty p s g) ∙ a));
}

-- "Hi" and "!"
abbrev greeting : Memory
greeting = holding 1 (33 ∷ []) (holding 0 (72 ∷ 105 ∷ []) blanks)

greeting-Valid : Valid greeting
greeting-Valid =
    holding-Valid 1 (33 ∷ []) (holding 0 (72 ∷ 105 ∷ []) blanks)
      (holding-Valid 0 (72 ∷ 105 ∷ []) blanks blanks-Valid (empty_s8, refl, refl))
      (empty_s8, refl, refl)

abbrev hi : HrdString8
hi = record { data_at = some 0; len = 2; cap = 2 }

abbrev mark : HrdString8
mark = record { data_at = some 1; len = 1; cap = 1 }

abbrev always : Memory → ℕ → Bool
always m n = true

string_eq_s8-decides_example :
    (r : Bool) × (string_eq_s8 (some 0) (some 1) greeting ≡ ran r)
    × ((r ≡ true) ↔ (contents 0 greeting ≡ contents 1 greeting))
string_eq_s8-decides_example = string_eq_s8-decides 0 1 hi mark greeting greeting-Valid refl refl

copy_s8-Written_example :
    (m' : Memory) × (copy_s8 always (some 2) (some 0) greeting ≡ ran m')
    × Written 2 (contents 0 greeting) greeting m'
copy_s8-Written_example =
    copy_s8-Written always 2 0 hi greeting greeting-Valid (empty_s8, refl, refl) refl refl

add_s8-Written_example :
    (m' : Memory) × (add_s8 always (some 2) (some 0) (some 1) greeting ≡ ran m')
    × Written 2 (contents 0 greeting ++ contents 1 greeting) greeting m'
add_s8-Written_example =
    add_s8-Written always 2 0 1 hi mark greeting greeting-Valid (empty_s8, refl, refl) refl refl
      (ltb→lt 3 (2 ^ 64) refl) refl

-- A string that is moved onto itself is lost, with its allocation.
moved_onto_itself :
    move_s8 (some 0) (some 0) greeting
    ≡ ran (record {
      strings = empty_s8 ∷ mark ∷ empty_s8 ∷ [];
      buffers = some (72 ∷ 105 ∷ []) ∷ some (33 ∷ []) ∷ [];
    })
unfolding move_s8
moved_onto_itself = refl

literal_written :
    s8_from_literal always (some 2) (111 ∷ 107 ∷ []) 2 blanks
    ≡ ran (holding 2 (111 ∷ 107 ∷ []) blanks)
unfolding s8_from_literal
literal_written = refl
