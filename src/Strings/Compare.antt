-- ===== src/Strings/Compare.antt =====
-- The comparison of strings against lists of bytes.
use hwarangdo.Prelude.{
  ℕ, ◌<◌, ◌≡◌, refl, sym, ap, ◌∙◌, ◌↔◌, inl, inr, Bool, true, not, some, List, [], ◌∷◌, arith, ◌==◌,
  Bool-cases, of_either, length, get_elem?,
}
use hwarangdo.Strings.{HrdString8, Memory, ran, same_bytes, compare_data, string_eq_s8}
use hwarangdo.Strings.Valid.{is_empty, has_bytes, Valid, contents}
use hwarangdo.Strings.Contents.{
  nil_of_length, read_bytes-live, string_at-get, contents-bytes, ran-then, len-contents,
}

same_bytes_refl : (xs : List ℕ) → same_bytes xs xs ≡ true
same_bytes_refl [] = refl
same_bytes_refl (x ∷ xs) = ground (arith, same_bytes_refl xs)

same_bytes-eq : (xs ys : List ℕ) → same_bytes xs ys ≡ true → xs ≡ ys
same_bytes-eq [] [] h = refl
same_bytes-eq [] (y ∷ ys) h = absurd (cc h)
same_bytes-eq (x ∷ xs) [] h = absurd (cc h)
same_bytes-eq (x ∷ xs) (y ∷ ys) h =
    let head : x ≡ y = ground (arith, h) in
    let tail : same_bytes xs ys ≡ true = ground (arith, h) in
    ap (λ z. z ∷ xs) head ∙ ap (λ l. y ∷ l) (same_bytes-eq xs ys tail)

compare_data-done :
    (p q : ℕ) (s t : HrdString8) (m : Memory)
    → Valid m
    → get_elem? m.strings p ≡ some s
    → get_elem? m.strings q ≡ some t
    → s.len ≡ t.len
    → 0 < s.len
    → compare_data s.len s.data_at t.data_at m ≡ ran (same_bytes (contents p m) (contents q m))
unfolding compare_data
compare_data-done p q s t m v g h e l = elim (v.owned p s g) [
  | is_empty z n ↦ absurd (omega (arith, z, l))
  | has_bytes d bytes n b k pos ↦ elim (v.owned q t h) [
    | is_empty z n' ↦ absurd (omega (arith, z, e, l))
    | has_bytes d' bytes' n' b' k' pos' ↦
        ap (λ x. compare_data s.len x t.data_at m) n
        ∙ ap (λ x. compare_data s.len (some d) x m) n'
        ∙ ran-then _ (read_bytes-live d s.len bytes m b k)
        ∙ ran-then _ (read_bytes-live d' s.len bytes' m b' (e ∙ k'))
        ∙ ap (λ x. ran (same_bytes x bytes')) (sym (contents-bytes p s m d bytes g n b))
        ∙ ap (λ x. ran (same_bytes (contents p m) x)) (sym (contents-bytes q t m d' bytes' h n' b'))
  ]
]

string_eq_s8-done :
    (p q : ℕ) (s t : HrdString8) (m : Memory)
    → Valid m
    → get_elem? m.strings p ≡ some s
    → get_elem? m.strings q ≡ some t
    → string_eq_s8 (some p) (some q) m ≡ ran (same_bytes (contents p m) (contents q m))
unfolding string_eq_s8
string_eq_s8-done p q s t m v g h =
    let xs = contents p m in
    let ys = contents q m in
    let ls = len-contents p s m (v.owned p s g) g in
    let lt = len-contents q t m (v.owned q t h) h in
    of_either (λ r. r ≡ ran (same_bytes xs ys)) (p == q) _ _
      (λ e.
        let p-q : p ≡ q = ground (arith, e) in
        ap ran (sym (same_bytes_refl xs)) ∙ ap (λ i. ran (same_bytes xs (contents i m))) p-q)
      (λ ne.
        ran-then _ (string_at-get p s m g)
        ∙ ran-then _ (string_at-get q t m h)
        ∙ of_either (λ r. r ≡ ran (same_bytes xs ys)) (not (s.len == t.len)) _ _
            (λ differ. elim (Bool-cases (same_bytes xs ys)) [
              | inl same ↦
                  let lengths : length xs ≡ length ys = ap length (same_bytes-eq xs ys same) in
                  absurd (ground (arith, differ, ls, lt, lengths))
              | inr other ↦ ap ran (sym other)
            ])
            (λ agree.
              let eq_len : s.len ≡ t.len = ground (arith, agree) in
              of_either (λ r. r ≡ ran (same_bytes xs ys)) (s.len == 0) _ _
                (λ z.
                  let xs-nil = nil_of_length xs (ground (arith, z, ls)) in
                  let ys-nil = nil_of_length ys (ground (arith, z, lt, eq_len)) in
                  ap (λ l. ran (same_bytes l [])) (sym xs-nil)
                  ∙ ap (λ l. ran (same_bytes xs l)) (sym ys-nil))
                (λ nz. compare_data-done p q s t m v g h eq_len (ground (arith, nz)))))

-- In valid memory the comparison of two strings returns, and it says whether they hold the same bytes.
pub string_eq_s8-decides :
    (p q : ℕ) (s t : HrdString8) (m : Memory)
    → Valid m
    → get_elem? m.strings p ≡ some s
    → get_elem? m.strings q ≡ some t
    → (r : Bool) × (string_eq_s8 (some p) (some q) m ≡ ran r)
      × ((r ≡ true) ↔ (contents p m ≡ contents q m))
string_eq_s8-decides p q s t m v g h = (
  same_bytes (contents p m) (contents q m),
  string_eq_s8-done p q s t m v g h,
  (
    same_bytes-eq (contents p m) (contents q m),
    λ e. ap (same_bytes (contents p m)) (sym e) ∙ same_bytes_refl (contents p m),
  ),
)
