-- ===== src/Strings/Valid.antt =====
-- The strings own their bytes: each that is not empty has a live allocation of its own.
use hwarangdo.Prelude.{
  set-inv, ℕ, ◌<◌, ◌≡◌, refl, sym, ap, ◌∙◌, subst, inl, inr, false, Option, none, some, List, [],
  ◌∷◌, ◌++◌, arith, ◌==◌, some-eq, length, get_elem?, set, get_elem?-lt, get_elem?-append_left,
}
use hwarangdo.Strings.{HrdString8, Memory, empty_s8}

-- An empty string has no allocation; another has one of just its bytes.
pub data Owns (m : Memory) (s : HrdString8) : Type 0 where
  is_empty : s.len ≡ 0 → s.data_at ≡ none → Owns m s
  has_bytes :
      (d : ℕ) (bytes : List ℕ)
      → s.data_at ≡ some d
      → get_elem? m.buffers d ≡ some (some bytes)
      → s.len ≡ length bytes
      → 0 < s.len
      → Owns m s

pub record Valid (m : Memory) : Type 0 where
  pub owned : (p : ℕ) (s : HrdString8) → get_elem? m.strings p ≡ some s → Owns m s
  pub apart :
      (p q : ℕ) (s t : HrdString8) (d : ℕ)
      → get_elem? m.strings p ≡ some s
      → get_elem? m.strings q ≡ some t
      → s.data_at ≡ some d
      → t.data_at ≡ some d
      → p ≡ q

-- The bytes of a string.
abbrev pub bytes_at : Option (Option (List ℕ)) → List ℕ
bytes_at (some (some bytes)) = bytes
bytes_at _ = []

abbrev pub data_bytes : Option ℕ → List (Option (List ℕ)) → List ℕ
data_bytes none bs = []
data_bytes (some d) bs = bytes_at (get_elem? bs d)

abbrev pub string_bytes : Option HrdString8 → List (Option (List ℕ)) → List ℕ
string_bytes none bs = []
string_bytes (some s) bs = data_bytes s.data_at bs

unfoldable pub contents : ℕ → Memory → List ℕ
contents p m = string_bytes (get_elem? m.strings p) m.buffers

-- A string with new bytes in place of one that owns none.
abbrev pub filled : ℕ → List ℕ → Memory → Memory
filled i bytes m = record {
  strings =
      set m.strings i
        (record { data_at = some (length m.buffers); len = length bytes; cap = length bytes });
  buffers = m.buffers ++ some bytes ∷ [];
}

Owns-lt :
    {m : Memory} {s : HrdString8} (d : ℕ) → Owns m s → s.data_at ≡ some d → d < length m.buffers
Owns-lt d (is_empty e n) h = absurd (cc (sym n ∙ h))
Owns-lt {m = m} d (has_bytes e bytes n g l p) h =
    subst (λ x. x < length m.buffers) (some-eq (sym n ∙ h))
      (get_elem?-lt m.buffers e (some bytes) g)

abbrev pub Blank : ℕ → Memory → Type 0
Blank i m = (s : HrdString8) × (get_elem? m.strings i ≡ some s) × (s.data_at ≡ none)

Owns-grow :
    {m : Memory} {s : HrdString8} (i : ℕ) (bytes : List ℕ) → Owns m s → Owns (filled i bytes m) s
Owns-grow i bytes (is_empty e n) = is_empty e n
Owns-grow {m = m} i bytes (has_bytes d old n g l p) =
    has_bytes d old n (get_elem?-append_left m.buffers (some bytes ∷ []) d (some old) g) l p

pub last-get : {A : Type 0} (xs : List A) (a : A) → get_elem? (xs ++ a ∷ []) (length xs) ≡ some a
last-get [] a = refl
last-get (x ∷ xs) a = last-get xs a

abbrev new_string : List ℕ → Memory → HrdString8
new_string bytes m = record {
  data_at = some (length m.buffers);
  len = length bytes;
  cap = length bytes;
}

filled-owned :
    (i : ℕ) (bytes : List ℕ) (m : Memory)
    → Valid m
    → Blank i m
    → 0 < length bytes
    → (p : ℕ) (s : HrdString8) → get_elem? (filled i bytes m).strings p ≡ some s
    → Owns (filled i bytes m) s
filled-owned i bytes m v (s0, g0, n0) l p s g =
    elim (set-inv m.strings i p (new_string bytes m) s0 s g0 g) [
      | inl (e, new-s) ↦
          subst (Owns (filled i bytes m)) new-s
            (has_bytes (length m.buffers) bytes refl (last-get m.buffers (some bytes)) refl l)
      | inr (e, old) ↦ Owns-grow i bytes (v.owned p s old)
    ]

filled-apart :
    (i : ℕ) (bytes : List ℕ) (m : Memory)
    → Valid m
    → Blank i m
    → (p q : ℕ) (s t : HrdString8) (d : ℕ) → get_elem? (filled i bytes m).strings p ≡ some s
    → get_elem? (filled i bytes m).strings q ≡ some t
    → s.data_at ≡ some d
    → t.data_at ≡ some d
    → p ≡ q
filled-apart i bytes m v (s0, g0, n0) p q s t d g h a b =
    elim (set-inv m.strings i p (new_string bytes m) s0 s g0 g) [
      | inl (e, new-s) ↦ elim (set-inv m.strings i q (new_string bytes m) s0 t g0 h) [
        | inl (f, new-t) ↦ sym e ∙ f
        | inr (f, old) ↦
            let fresh : length m.buffers ≡ d = some-eq (ap (λ x. x.data_at) new-s ∙ a) in
            let l = Owns-lt d (v.owned q t old) b in absurd (omega (arith, fresh, l))
      ]
      | inr (e, old) ↦ elim (set-inv m.strings i q (new_string bytes m) s0 t g0 h) [
        | inl (f, new-t) ↦
            let fresh : length m.buffers ≡ d = some-eq (ap (λ x. x.data_at) new-t ∙ b) in
            let l = Owns-lt d (v.owned p s old) a in absurd (omega (arith, fresh, l))
        | inr (f, old') ↦ v.apart p q s t d old old' a b
      ]
    ]

pub filled-Valid :
    (i : ℕ) (bytes : List ℕ) (m : Memory)
    → Valid m
    → Blank i m
    → 0 < length bytes
    → Valid (filled i bytes m)
filled-Valid i bytes m v b l = record {
  owned = filled-owned i bytes m v b l;
  apart = filled-apart i bytes m v b;
}

-- A string made empty, after its allocation is freed or given away.
abbrev pub emptied : ℕ → List (Option (List ℕ)) → Memory → Memory
emptied i bs m = record { strings = set m.strings i empty_s8; buffers = bs }

pub emptied-Valid :
    (i : ℕ) (bs : List (Option (List ℕ))) (m : Memory) (s0 : HrdString8)
    → Valid m
    → get_elem? m.strings i ≡ some s0
    → ((p d : ℕ) (s : HrdString8)
        → (i == p) ≡ false
        → get_elem? m.strings p ≡ some s
        → s.data_at ≡ some d
        → get_elem? bs d ≡ get_elem? m.buffers d)
    → Valid (emptied i bs m)
emptied-Valid i bs m s0 v g0 same = record {
  owned = λ p s g. elim (set-inv m.strings i p empty_s8 s0 s g0 g) [
    | inl (e, made) ↦ is_empty (ap (λ x. x.len) (sym made)) (ap (λ x. x.data_at) (sym made))
    | inr (e, old) ↦ elim (v.owned p s old) [
      | is_empty z n ↦ is_empty z n
      | has_bytes d bytes n b l k ↦ has_bytes d bytes n (same p d s e old n ∙ b) l k
    ]
  ];
  apart = λ p q s t d g h a b. elim (set-inv m.strings i p empty_s8 s0 s g0 g) [
    | inl (e, made) ↦ absurd (cc (ap (λ x. x.data_at) made ∙ a))
    | inr (e, old) ↦ elim (set-inv m.strings i q empty_s8 s0 t g0 h) [
      | inl (f, made) ↦ absurd (cc (ap (λ x. x.data_at) made ∙ b))
      | inr (f, old') ↦ v.apart p q s t d old old' a b
    ]
  ];
}
