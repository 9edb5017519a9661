-- ===== src/Strings.antt =====
-- The strings of the runtime: runtime/string/hrd_runtime_string.cpp and `HrdString8` of
-- include/runtimes/hrd_runtime.h. A pointer to a string is its number among the strings, a pointer to
-- bytes the number of an allocation, and `none` is the null pointer; a freed allocation stays as
-- `none`. Whether `malloc` succeeds is a parameter; a new allocation is filled at once.
pub mod Valid
pub mod Contents
pub mod Compare
pub mod Operations
pub mod Destroy
mod Examples
use hwarangdo.Prelude.{
  ℕ, zero, suc, ◌+◌, ◌-◌, ◌*◌, ◌/◌, ◌%◌, ◌^◌, ◌≤◌, ◌<◌, ◌≡◌, refl, sym, ap, ◌∙◌, subst, ◌≢◌, ◌↔◌,
  ◌⊎◌, inl, inr, Bool, true, false, not, ◌&&◌, ◌||◌, Option, none, some, List, [], ◌∷◌, ◌++◌, map,
  arith, ltb, leb, ◌==◌, if◌then◌else◌, ltb→lt, lt→ltb, leb→le, ==_iff, tests, Bool-cases,
  Option-cases, some-eq, of_either, length, get_elem?, set, length-append, length-set,
  get_elem?-set_self, get_elem?-set_ne, get_or, take, drop, replicate, take-append-drop,
  length-take, length-drop, length-replicate, length-map, get_elem?-set, get_elem?-append_one,
  get_elem?-lt, contains, distinct, contains-drop-append, contains-append_one, contains-drop_head,
  contains_of_get, get_elem?-append_left, length_of_none, get_of_lt, drop-eq-nil,
}

pub record HrdString8 : Type 0 where
  pub data_at : Option ℕ
  pub len : ℕ
  pub cap : ℕ

pub record Memory : Type 0 where
  pub strings : List HrdString8
  pub buffers : List (Option (List ℕ))

-- `undefined` is a null, foreign or freed pointer that is dereferenced or freed.
pub data Ran (A : Type 0) : Type 0 where
  aborts undefined : Ran A
  ran : A → Ran A

infixl 5 ◌>>=◌
abbrev pub ◌>>=◌ : {A B : Type 0} → Ran A → (A → Ran B) → Ran B
ran a >>= f = f a
aborts >>= f = aborts
undefined >>= f = undefined

-- A null `out` aborts.
abbrev pub or_abort : {A : Type 0} → Option A → Ran A
or_abort none = aborts
or_abort (some a) = ran a

abbrev pub deref : {A : Type 0} → Option A → Ran A
deref none = undefined
deref (some a) = ran a

abbrev pub empty_s8 : HrdString8
empty_s8 = record { data_at = none; len = 0; cap = 0 }

unfoldable pub string_at : Option ℕ → Memory → Ran HrdString8
string_at p m = do i ← deref p; deref (get_elem? m.strings i)

-- `*out = s`
unfoldable pub put : ℕ → HrdString8 → Memory → Ran Memory
put i s m =
    if ltb i (length m.strings) then ran (record m { strings = set m.strings i s }) else undefined

-- The first `n` bytes of an allocation.
unfoldable pub read_bytes : ℕ → ℕ → Memory → Ran (List ℕ)
read_bytes d n m = do
  freed_or_live ← deref (get_elem? m.buffers d)
  bytes ← deref freed_or_live
  if leb n (length bytes) then ran (take n bytes) else undefined

abbrev pub same_bytes : List ℕ → List ℕ → Bool
same_bytes [] [] = true
same_bytes [] (y ∷ ys) = false
same_bytes (x ∷ xs) [] = false
same_bytes (x ∷ xs) (y ∷ ys) = x == y && same_bytes xs ys

-- The comparison of two strings of one length that is not 0.
unfoldable pub compare_data : ℕ → Option ℕ → Option ℕ → Memory → Ran Bool
unfolding read_bytes
compare_data n (some d) (some e) m = do
  xs ← read_bytes d n m
  ys ← read_bytes e n m
  ran (same_bytes xs ys)
compare_data n _ _ m = ran false

unfoldable pub string_eq_s8 : Option ℕ → Option ℕ → Memory → Ran Bool
unfolding string_at compare_data
string_eq_s8 none none m = ran true
string_eq_s8 none (some q) m = ran false
string_eq_s8 (some p) none m = ran false
string_eq_s8 (some p) (some q) m = if p == q then ran true else do
  a ← string_at (some p) m
  b ← string_at (some q) m
  if not (a.len == b.len)
      then ran false
      else if a.len == 0
      then ran true
      else compare_data a.len a.data_at b.data_at m

unfoldable pub string_ne_s8 : Option ℕ → Option ℕ → Memory → Ran Bool
unfolding string_eq_s8
string_ne_s8 a b m = do t ← string_eq_s8 a b m; ran (not t)

module _ (allocates : Memory → ℕ → Bool) where
  -- `malloc`, the copies into the new allocation, and `*out = HrdString8{buf, len, len}`.
  unfoldable pub put_new : ℕ → List ℕ → Memory → Ran Memory
  unfolding put
  put_new out bytes m =
      if allocates m (length bytes)
      then put out
          (record { data_at = some (length m.buffers); len = length bytes; cap = length bytes })
          (record m { buffers = m.buffers ++ some bytes ∷ [] })
      else aborts

  unfoldable pub s8_from_literal : Option ℕ → List ℕ → ℕ → Memory → Ran Memory
  unfolding put put_new
  s8_from_literal out bytes n m = do
    i ← or_abort out
    if n == 0
        then put i empty_s8 m
        else if leb n (length bytes)
        then put_new i (take n bytes) m
        else undefined

  unfoldable pub copy_s8 : Option ℕ → Option ℕ → Memory → Ran Memory
  unfolding string_at put read_bytes put_new
  copy_s8 out src m = do
    i ← or_abort out
    s ← string_at src m
    if s.len == 0
        then put i empty_s8 m
        else do d ← or_abort s.data_at; bytes ← read_bytes d s.len m; put_new i bytes m

  -- The sum of the lengths is tested against 2 ^ 64.
  unfoldable pub add_s8 : Option ℕ → Option ℕ → Option ℕ → Memory → Ran Memory
  unfolding string_at copy_s8 read_bytes put_new
  add_s8 out p q m = do
    i ← or_abort out
    a ← string_at p m
    if a.len == 0 then copy_s8 out q m else do
      b ← string_at q m
      if b.len == 0 then copy_s8 out p m else do
        d ← or_abort a.data_at
        e ← or_abort b.data_at
        if ltb (2 ^ 64 - 1 - a.len) b.len
            then aborts
            else do xs ← read_bytes d a.len m; ys ← read_bytes e b.len m; put_new i (xs ++ ys) m

unfoldable pub move_s8 : Option ℕ → Option ℕ → Memory → Ran Memory
unfolding string_at put
move_s8 out src m = do
  i ← or_abort out
  j ← or_abort src
  s ← string_at (some j) m
  n ← put i s m
  put j empty_s8 n

-- `free`, which takes the null pointer too.
unfoldable pub free : Option ℕ → Memory → Ran Memory
free none m = ran m
free (some d) m = do
  freed_or_live ← deref (get_elem? m.buffers d)
  bytes ← deref freed_or_live
  ran (record m { buffers = set m.buffers d none })

unfoldable pub destroy_s8 : Option ℕ → Memory → Ran Memory
unfolding string_at put free
destroy_s8 none m = ran m
destroy_s8 (some i) m = do s ← string_at (some i) m; n ← free s.data_at m; put i empty_s8 n
