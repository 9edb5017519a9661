-- ===== src/Strings/Operations.antt =====
-- The copy and the concatenation of strings against lists of bytes.
use mathlib.Core.List.{append-nil}
use hwarangdo.Prelude.{
  ℕ, ◌+◌, ◌-◌, ◌^◌, ◌<◌, ◌≡◌, sym, ap, ◌∙◌, Bool, true, false, some, List, ◌++◌, arith, ltb, ◌==◌,
  ltb→lt, of_either, length, get_elem?, length-append,
}
use hwarangdo.Strings.{HrdString8, Memory, ran, or_abort, empty_s8, copy_s8, add_s8}
use hwarangdo.Strings.Valid.{Owns, is_empty, has_bytes, Valid, contents, Blank}
use hwarangdo.Strings.Contents.{
  nil_of_length, read_bytes-live, string_at-get, put-done, put_new-done, holding, holding-Valid,
  holding-contents, holding-filled, holding-others, contents-empty, contents-bytes, ran-then,
  len-contents,
}

-- What a call that writes `bytes` to the string `i` leaves.
pub record Written (i : ℕ) (bytes : List ℕ) (m m' : Memory) : Type 0 where
  pub still_valid : Valid m'
  pub holds : contents i m' ≡ bytes
  pub others : (q : ℕ) → (i == q) ≡ false → contents q m' ≡ contents q m

pub holding-Written :
    (i : ℕ) (bytes : List ℕ) (m : Memory)
    → Valid m
    → Blank i m
    → Written i bytes m (holding i bytes m)
holding-Written i bytes m v b = record {
  still_valid = holding-Valid i bytes m v b;
  holds = holding-contents i bytes m b;
  others = λ q e. holding-others i bytes m q v b e;
}

Owns-live :
    {m : Memory} {s : HrdString8}
    → Owns m s
    → (s.len == 0) ≡ false
    → (d : ℕ) × (bytes : List ℕ) × (s.data_at ≡ some d)
      × (get_elem? m.buffers d ≡ some (some bytes))
      × (s.len ≡ length bytes)
Owns-live (is_empty z n) h = absurd (ground (arith, z, h))
Owns-live (has_bytes d bytes n b l k) h = (d, bytes, n, b, l)

module _ (allocates : Memory → ℕ → Bool) where
  copy_s8-done :
      (i p : ℕ) (s : HrdString8) (m : Memory)
      → Valid m
      → Blank i m
      → get_elem? m.strings p ≡ some s
      → allocates m (length (contents p m)) ≡ true
      → copy_s8 allocates (some i) (some p) m ≡ ran (holding i (contents p m) m)
  unfolding copy_s8
  copy_s8-done i p s m v b g a =
      let (s0, g0, n0) = b in
      ran-then _ (string_at-get p s m g)
      ∙ of_either (λ r. r ≡ ran (holding i (contents p m) m)) (s.len == 0) _ _
          (λ z. elim (v.owned p s g) [
            | is_empty e n ↦
                put-done i empty_s8 s0 m g0
                ∙ ap (λ bs. ran (holding i bs m)) (sym (contents-empty p s m g n))
            | has_bytes d bytes n gb l k ↦ absurd (ground (arith, z, k))
          ])
          (λ z. elim (v.owned p s g) [
            | is_empty e n ↦ absurd (ground (arith, z, e))
            | has_bytes d bytes n gb l k ↦
                let same = contents-bytes p s m d bytes g n gb in
                ran-then _ (ap or_abort n)
                ∙ ran-then _ (read_bytes-live d s.len bytes m gb l)
                ∙ put_new-done allocates i bytes m
                    (sym (ap (λ bs. allocates m (length bs)) same) ∙ a) b
                ∙ ap ran (sym (holding-filled i bytes m (omega (arith, l, k))))
                ∙ ap (λ bs. ran (holding i bs m)) (sym same)
          ])

  -- A copy into a string that owns no bytes returns when the allocation succeeds: the string holds the
  -- source's bytes in an allocation of its own, and every other string holds what it did.
  pub copy_s8-Written :
      (i p : ℕ) (s : HrdString8) (m : Memory)
      → Valid m
      → Blank i m
      → get_elem? m.strings p ≡ some s
      → allocates m (length (contents p m)) ≡ true
      → (m' : Memory) × (copy_s8 allocates (some i) (some p) m ≡ ran m')
        × Written i (contents p m) m m'
  copy_s8-Written i p s m v b g a = (
    holding i (contents p m) m,
    copy_s8-done i p s m v b g a,
    holding-Written i (contents p m) m v b,
  )

  add_s8-done :
      (i p q : ℕ) (s t : HrdString8) (m : Memory)
      → Valid m
      → Blank i m
      → get_elem? m.strings p ≡ some s
      → get_elem? m.strings q ≡ some t
      → s.len + t.len < 2 ^ 64
      → allocates m (length (contents p m ++ contents q m)) ≡ true
      → add_s8 allocates (some i) (some p) (some q) m
        ≡ ran (holding i (contents p m ++ contents q m) m)
  unfolding add_s8
  add_s8-done i p q s t m v b g h small a =
      let xs = contents p m in
      let ys = contents q m in
      let ls = len-contents p s m (v.owned p s g) g in
      let lt = len-contents q t m (v.owned q t h) h in
      ran-then _ (string_at-get p s m g)
      ∙ of_either (λ r. r ≡ ran (holding i (xs ++ ys) m)) (s.len == 0) _ _
          (λ z.
            let xs-nil = nil_of_length xs (ground (arith, z, ls)) in
            let joined : xs ++ ys ≡ ys = ap (λ l. l ++ ys) xs-nil in
            copy_s8-done i q t m v b h (sym (ap (λ l. allocates m (length l)) joined) ∙ a)
            ∙ ap (λ l. ran (holding i l m)) (sym joined))
          (λ nz.
            ran-then _ (string_at-get q t m h)
            ∙ of_either (λ r. r ≡ ran (holding i (xs ++ ys) m)) (t.len == 0) _ _
                (λ z.
                  let ys-nil = nil_of_length ys (ground (arith, z, lt)) in
                  let joined : xs ++ ys ≡ xs = ap (λ l. xs ++ l) ys-nil ∙ append-nil xs in
                  copy_s8-done i p s m v b g (sym (ap (λ l. allocates m (length l)) joined) ∙ a)
                  ∙ ap (λ l. ran (holding i l m)) (sym joined))
                (λ nz'.
                  let (d, bs, n, gb, l) = Owns-live (v.owned p s g) nz in
                  let (e, cs, n', gc, l') = Owns-live (v.owned q t h) nz' in
                  let joined : bs ++ cs ≡ xs ++ ys =
                    ap (λ k. k ++ cs) (sym (contents-bytes p s m d bs g n gb))
                    ∙ ap (λ k. xs ++ k) (sym (contents-bytes q t m e cs h n' gc)) in
                  ran-then _ (ap or_abort n)
                  ∙ ran-then _ (ap or_abort n')
                  ∙ of_either (λ r. r ≡ ran (holding i (xs ++ ys) m))
                      (ltb (2 ^ 64 - 1 - s.len) t.len) _ _
                      (λ over.
                        absurd (omega (arith, small, ltb→lt (2 ^ 64 - 1 - s.len) t.len over)))
                      (λ fits.
                        ran-then _ (read_bytes-live d s.len bs m gb l)
                        ∙ ran-then _ (read_bytes-live e t.len cs m gc l')
                        ∙ put_new-done allocates i (bs ++ cs) m
                            (ap (λ k. allocates m (length k)) joined ∙ a) b
                        ∙ ap ran (
                            sym (
                              holding-filled i (bs ++ cs) m
                                (ground (arith, length-append bs cs, l, nz))))
                        ∙ ap (λ k. ran (holding i k m)) joined)))

  -- The sum of two strings, whose lengths together are below 2 ^ 64, is written to a string that owns
  -- no bytes when the allocation succeeds: it holds the bytes of the one and then those of the other,
  -- and every other string, the two among them, holds what it did.
  pub add_s8-Written :
      (i p q : ℕ) (s t : HrdString8) (m : Memory)
      → Valid m
      → Blank i m
      → get_elem? m.strings p ≡ some s
      → get_elem? m.strings q ≡ some t
      → s.len + t.len < 2 ^ 64
      → allocates m (length (contents p m ++ contents q m)) ≡ true
      → (m' : Memory) × (add_s8 allocates (some i) (some p) (some q) m ≡ ran m')
        × Written i (contents p m ++ contents q m) m m'
  add_s8-Written i p q s t m v b g h small a = (
    holding i (contents p m ++ contents q m) m,
    add_s8-done i p q s t m v b g h small a,
    holding-Written i (contents p m ++ contents q m) m v b,
  )
