-- ===== src/Strings/Contents.antt =====
-- What the operations on strings make of the bytes that the strings hold.
use hwarangdo.Prelude.{
  ℕ, ◌<◌, ◌≡◌, refl, sym, ap, ◌∙◌, inl, inr, Bool, true, false, Option, none, some, List, [], ◌∷◌,
  ◌++◌, arith, ◌==◌, if◌then◌else◌, Option-cases, some-eq, length, get_elem?, set,
  get_elem?-set_self, take, get_elem?-set, get_elem?-lt, get_elem?-append_left,
}
use hwarangdo.Strings.{
  HrdString8, Memory, Ran, aborts, ran, ◌>>=◌, deref, empty_s8, string_at, put, read_bytes, put_new,
}
use hwarangdo.Strings.Valid.{
  Owns, is_empty, has_bytes, Valid, bytes_at, data_bytes, string_bytes, contents, filled, Blank,
  last-get, filled-Valid, emptied, emptied-Valid,
}

take_all : {A : Type 0} (xs : List A) → take (length xs) xs ≡ xs
take_all [] = refl
take_all (x ∷ xs) = ap (λ l. x ∷ l) (take_all xs)

-- Reading the whole of a live allocation.
pub read_bytes-live :
    (d n : ℕ) (bytes : List ℕ) (m : Memory)
    → get_elem? m.buffers d ≡ some (some bytes)
    → n ≡ length bytes
    → read_bytes d n m ≡ ran bytes
unfolding read_bytes
read_bytes-live d n bytes m g e =
    let all : take n bytes ≡ bytes = ap (λ k. take k bytes) e ∙ take_all bytes in
    ground (arith, g, e, all)

pub string_at-get :
    (p : ℕ) (s : HrdString8) (m : Memory)
    → get_elem? m.strings p ≡ some s
    → string_at (some p) m ≡ ran s
unfolding string_at
string_at-get p s m g = ap deref g

pub put-done :
    (i : ℕ) (s t : HrdString8) (m : Memory)
    → get_elem? m.strings i ≡ some t
    → put i s m ≡ ran (record m { strings = set m.strings i s })
unfolding put
put-done i s t m g = ground (arith, get_elem?-lt m.strings i t g)

pub put_new-done :
    (allocates : Memory → ℕ → Bool) (i : ℕ) (bytes : List ℕ) (m : Memory)
    → allocates m (length bytes) ≡ true
    → Blank i m
    → put_new allocates i bytes m ≡ ran (filled i bytes m)
unfolding put_new
put_new-done allocates i bytes m a (s, g, n) =
    ap
      (λ t.
        if t
        then put i
            (record { data_at = some (length m.buffers); len = length bytes; cap = length bytes })
            (record m { buffers = m.buffers ++ some bytes ∷ [] })
        else aborts)
      a
    ∙ put-done i _ s (record m { buffers = m.buffers ++ some bytes ∷ [] }) g

-- Bytes put into a blank string, if there are any.
abbrev pub holding : ℕ → List ℕ → Memory → Memory
holding i [] m = emptied i m.buffers m
holding i (x ∷ xs) m = filled i (x ∷ xs) m

pub holding-Valid :
    (i : ℕ) (bytes : List ℕ) (m : Memory) → Valid m → Blank i m → Valid (holding i bytes m)
holding-Valid i [] m v (s, g, n) = emptied-Valid i m.buffers m s v g (λ p d t e h a. refl)
holding-Valid i (x ∷ xs) m v b = filled-Valid i (x ∷ xs) m v b (omega arith)

-- The new bytes are found in the string, and the other strings keep theirs.
pub holding-contents :
    (i : ℕ) (bytes : List ℕ) (m : Memory) → Blank i m → contents i (holding i bytes m) ≡ bytes
unfolding contents
holding-contents i [] m (s, g, n) =
    ap (λ x. string_bytes x m.buffers)
      (get_elem?-set_self m.strings i empty_s8 (get_elem?-lt m.strings i s g))
holding-contents i (x ∷ xs) m (s, g, n) =
    ap (λ y. string_bytes y (m.buffers ++ some (x ∷ xs) ∷ []))
      (get_elem?-set_self m.strings i _ (get_elem?-lt m.strings i s g))
    ∙ ap bytes_at (last-get m.buffers (some (x ∷ xs)))

pub holding-filled :
    (i : ℕ) (bytes : List ℕ) (m : Memory) → 0 < length bytes → holding i bytes m ≡ filled i bytes m
holding-filled i [] m h = absurd (omega arith)
holding-filled i (x ∷ xs) m h = refl

pub get_elem?-set_other :
    {A : Type 0} (xs : List A) (i j : ℕ) (v s : A)
    → get_elem? xs i ≡ some s
    → (i == j) ≡ false
    → get_elem? (set xs i v) j ≡ get_elem? xs j
get_elem?-set_other xs i j v s g h = get_elem?-set xs i j v s g ∙ ground (arith, h)

data_bytes-append :
    (o : Option ℕ) (m : Memory) (s : HrdString8) (b : Option (List ℕ))
    → Owns m s
    → o ≡ s.data_at
    → data_bytes o (m.buffers ++ b ∷ []) ≡ data_bytes o m.buffers
data_bytes-append none m s b w e = refl
data_bytes-append (some d) m s b (is_empty z k) e = absurd (cc (e ∙ k))
data_bytes-append (some d) m s b (has_bytes c bytes k g l z) e =
    let d-c : d ≡ c = some-eq (e ∙ k) in
    let old : get_elem? m.buffers d ≡ some (some bytes) = ap (get_elem? m.buffers) d-c ∙ g in
    ap bytes_at (get_elem?-append_left m.buffers (b ∷ []) d (some bytes) old ∙ sym old)

pub holding-others :
    (i : ℕ) (bytes : List ℕ) (m : Memory) (q : ℕ)
    → Valid m
    → Blank i m
    → (i == q) ≡ false
    → contents q (holding i bytes m) ≡ contents q m
unfolding contents
holding-others i [] m q v (s, g, n) e =
    ap (λ x. string_bytes x m.buffers) (get_elem?-set_other m.strings i q empty_s8 s g e)
holding-others i (x ∷ xs) m q v (s, g, n) e =
    let new = m.buffers ++ some (x ∷ xs) ∷ [] in
    ap (λ y. string_bytes y new) (get_elem?-set_other m.strings i q _ s g e)
    ∙ elim (Option-cases (get_elem? m.strings q)) [
      | inl none_there ↦
          ap (λ y. string_bytes y new) none_there
          ∙ sym (ap (λ y. string_bytes y m.buffers) none_there)
      | inr (t, there) ↦
          ap (λ y. string_bytes y new) there
          ∙ data_bytes-append t.data_at m t (some (x ∷ xs)) (v.owned q t there) refl
          ∙ sym (ap (λ y. string_bytes y m.buffers) there)
    ]

-- What a string of valid memory holds.
pub contents-empty :
    (p : ℕ) (s : HrdString8) (m : Memory)
    → get_elem? m.strings p ≡ some s
    → s.data_at ≡ none
    → contents p m ≡ []
unfolding contents
contents-empty p s m g n = ap (λ x. string_bytes x m.buffers) g ∙ ap (λ d. data_bytes d m.buffers) n

pub contents-bytes :
    (p : ℕ) (s : HrdString8) (m : Memory) (d : ℕ) (bytes : List ℕ)
    → get_elem? m.strings p ≡ some s
    → s.data_at ≡ some d
    → get_elem? m.buffers d ≡ some (some bytes)
    → contents p m ≡ bytes
unfolding contents
contents-bytes p s m d bytes g n b =
    ap (λ x. string_bytes x m.buffers) g ∙ ap (λ d. data_bytes d m.buffers) n ∙ ap bytes_at b

pub ran-then : {A B : Type 0} {r : Ran A} {a : A} (f : A → Ran B) → r ≡ ran a → (r >>= f) ≡ f a
ran-then f e = ap (λ r. r >>= f) e

-- The length is that of the bytes.
pub len-contents :
    (p : ℕ) (s : HrdString8) (m : Memory)
    → Owns m s
    → get_elem? m.strings p ≡ some s
    → s.len ≡ length (contents p m)
len-contents p s m (is_empty z n) g = z ∙ sym (ap length (contents-empty p s m g n))
len-contents p s m (has_bytes d bytes n b l k) g =
    l ∙ sym (ap length (contents-bytes p s m d bytes g n b))

pub nil_of_length : (xs : List ℕ) → length xs ≡ 0 → xs ≡ []
nil_of_length [] h = refl
nil_of_length (x ∷ xs) h = absurd (omega (arith, h))
