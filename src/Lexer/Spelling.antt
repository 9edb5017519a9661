-- ===== src/Lexer/Spelling.antt =====
-- The text of a token against the part of the source that was read for it.
use hwarangdo.Prelude.{
  ℕ, ◌<◌, ◌≡◌, ◌≢◌, ◌⊎◌, inl, refl, arith, Bool, true, false, List, [], ◌∷◌, ◌++◌, ◌==◌,
  if◌then◌else◌, length, length-append, ==_iff, of_either,
}
use hwarangdo.Lexer.{
  TKind, lit_character, lit_string, empty, Token, Lexer, Lexed, got, diagnostic, runs_on,
}
use hwarangdo.Lexer.Cursor.{advance, peek}
use hwarangdo.Lexer.Progress.{Reads, Reads-trans, Reads-advance}
use hwarangdo.Lexer.Comments.{Behind}
use hwarangdo.Lexer.Scan.{Scanned, make, scan_pair, scan_either, scan_doubled, comment_end}

-- The kinds whose text is what was read.
abbrev pub is_plain : TKind → Bool
is_plain lit_string = false
is_plain lit_character = false
is_plain empty = false
is_plain _ = true

-- `raw` is read for a token of this kind and text.
pub data Spells (kind : TKind) (text raw : List ℕ) : Type 0 where
  plainly : is_plain kind ≡ true → raw ≡ text → Spells kind text raw
  in_quotes : kind ≡ lit_string → raw ≡ 34 ∷ text ++ 34 ∷ [] → Spells kind text raw
  in_ticks : kind ≡ lit_character → raw ≡ 39 ∷ text ++ 39 ∷ [] → Spells kind text raw
  as_comment : (body : List ℕ) → kind ≡ empty → raw ≡ text ++ body → Spells kind text raw

-- A token that is read from `start` on, and the state behind it.
pub record Read (start : Lexer) (t : Token) (l : Lexer) : Type 0 where
  pub raw : List ℕ
  pub reads : Reads raw start l
  pub spells : Spells t.kind t.text raw
  pub moves : (0 < length raw) ⊎ (peek start ≡ 0)
  pub span :
      t.span ≡ record { line = start.line; col = start.col; end_line = l.line; end_col = l.col }

abbrev pub Good : Lexer → Scanned → Type 0
Good start (got (t, l)) = Read start t l
Good start (diagnostic e) = Unit
Good start runs_on = Unit

pub make-Good :
    (kind : TKind) (text raw : List ℕ) (start l : Lexer)
    → Reads raw start l
    → Spells kind text raw
    → 0 < length raw
    → Good start (make kind text start l)
make-Good kind text raw start l r s m = record {
  raw = raw;
  reads = r;
  spells = s;
  moves = inl m;
  span = refl;
}

pub byte : (c d : ℕ) → (c == d) ≡ true → c ≡ d
byte c d h = (==_iff c d).0 h

-- A byte that is seen and read.
pub seen : (l : Lexer) (c : ℕ) → (peek l == c) ≡ true → c ≢ 0 → Reads (c ∷ []) l (advance l)
seen l c h n = Reads-advance l c (byte (peek l) c h) n

pub pair-Good :
    (c d : ℕ) (one two : TKind) (start : Lexer)
    → (peek start == c) ≡ true
    → c ≢ 0
    → d ≢ 0
    → is_plain one ≡ true
    → is_plain two ≡ true
    → Good start (scan_pair c d one two start)
unfolding scan_pair
pair-Good c d one two start h n m p q =
    let l = advance start in
    let a = seen start c h n in
    of_either (Good start) (peek l == d) (make two (c ∷ d ∷ []) start (advance l))
      (make one (c ∷ []) start l)
      (λ g.
        make-Good two (c ∷ d ∷ []) (c ∷ d ∷ []) start (advance l) (Reads-trans a (seen l d g m))
          (plainly q refl) (omega arith))
      (λ g. make-Good one (c ∷ []) (c ∷ []) start l a (plainly p refl) (omega arith))

pub either-Good :
    (c d e : ℕ) (one two other : TKind) (start : Lexer)
    → (peek start == c) ≡ true
    → c ≢ 0
    → d ≢ 0
    → e ≢ 0
    → is_plain one ≡ true
    → is_plain two ≡ true
    → is_plain other ≡ true
    → Good start (scan_either c d e one two other start)
unfolding scan_either
either-Good c d e one two other start h n m o p q r =
    let l = advance start in
    let a = seen start c h n in
    of_either (Good start) (peek l == d) (make two (c ∷ d ∷ []) start (advance l))
      (if peek l == e then make other (c ∷ e ∷ []) start (advance l) else make one (c ∷ []) start l)
      (λ g.
        make-Good two (c ∷ d ∷ []) (c ∷ d ∷ []) start (advance l) (Reads-trans a (seen l d g m))
          (plainly q refl) (omega arith))
      (λ _.
        of_either (Good start) (peek l == e) (make other (c ∷ e ∷ []) start (advance l))
          (make one (c ∷ []) start l)
          (λ g.
            make-Good other (c ∷ e ∷ []) (c ∷ e ∷ []) start (advance l)
              (Reads-trans a (seen l e g o)) (plainly r refl) (omega arith))
          (λ g. make-Good one (c ∷ []) (c ∷ []) start l a (plainly p refl) (omega arith)))

pub doubled-Good :
    (c : ℕ) (one with_equal two both : TKind) (start : Lexer)
    → (peek start == c) ≡ true
    → c ≢ 0
    → is_plain one ≡ true
    → is_plain with_equal ≡ true
    → is_plain two ≡ true
    → is_plain both ≡ true
    → Good start (scan_doubled c one with_equal two both start)
unfolding scan_doubled
doubled-Good c one with_equal two both start h n p q r s =
    let l = advance start in
    let m = advance l in
    let a = seen start c h n in
    of_either (Good start) (peek l == 61) (make with_equal (c ∷ 61 ∷ []) start m)
      (if peek l == c
        then (if peek m == 61
            then make both (c ∷ c ∷ 61 ∷ []) start (advance m)
            else make two (c ∷ c ∷ []) start m)
        else make one (c ∷ []) start l)
      (λ g.
        make-Good with_equal (c ∷ 61 ∷ []) (c ∷ 61 ∷ []) start m
          (Reads-trans a (seen l 61 g (λ z. omega (arith, z)))) (plainly q refl) (omega arith))
      (λ _.
        of_either (Good start) (peek l == c)
          (if peek m == 61
            then make both (c ∷ c ∷ 61 ∷ []) start (advance m)
            else make two (c ∷ c ∷ []) start m)
          (make one (c ∷ []) start l)
          (λ g.
            let b = Reads-trans a (seen l c g n) in
            of_either (Good start) (peek m == 61) (make both (c ∷ c ∷ 61 ∷ []) start (advance m))
              (make two (c ∷ c ∷ []) start m)
              (λ k.
                make-Good both (c ∷ c ∷ 61 ∷ []) (c ∷ c ∷ 61 ∷ []) start (advance m)
                  (Reads-trans b (seen m 61 k (λ z. omega (arith, z)))) (plainly s refl)
                  (omega arith))
              (λ _.
                make-Good two (c ∷ c ∷ []) (c ∷ c ∷ []) start m b (plainly r refl) (omega arith)))
          (λ _. make-Good one (c ∷ []) (c ∷ []) start l a (plainly p refl) (omega arith)))

pub comment-Good :
    (text raw : List ℕ) (start l : Lexer) (r : Lexed Lexer)
    → Reads raw start l
    → Behind l r
    → ((body : List ℕ) → (rest : List ℕ) × (raw ++ body ≡ text ++ rest))
    → 0 < length raw
    → Good start (comment_end text start r)
unfolding comment_end
comment-Good text raw start l (got l') a (body, b) spelled m =
    let (rest, e) = spelled body in
    make-Good empty text (raw ++ body) start l' (Reads-trans a b) (as_comment rest refl e)
      (omega (arith, length-append raw body))
comment-Good text raw start l (diagnostic e) a b spelled m = tt
comment-Good text raw start l runs_on a b spelled m = tt
