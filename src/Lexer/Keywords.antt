-- ===== src/Lexer/Keywords.antt =====
-- `keyword_map` of include/hrd/Lexer.h. A word is the list of its bytes.
use hwarangdo.Prelude.{
  ℕ, Bool, true, false, ◌&&◌, Option, none, some, List, [], ◌∷◌, ◌==◌, if◌then◌else◌,
}
use hwarangdo.Lexer.{
  TKind, arena, async, bool_word, break, by, case_word, cast, catch, char_word, class, const,
  continue, default, else_word, empty, enum, error, extends, fixed_word, float_word, for_word,
  frame, func, handle, if_word, impl, init, int_word, internal, match, new, nul, on_destroy,
  override, private, protected, public, return, root, self, size, string_word, struct, super,
  switch, this, throw, trait, try, void_word, while, world,
}

unfoldable pub same_text : List ℕ → List ℕ → Bool
same_text [] [] = true
same_text (x ∷ xs) (y ∷ ys) = x == y && same_text xs ys
same_text _ _ = false

-- The rows of the map; no word has two.
abbrev pub keyword_map : List (List ℕ × TKind)
keyword_map =
    (105 ∷ 110 ∷ 116 ∷ [], int_word)
    ∷ (102 ∷ 108 ∷ 111 ∷ 97 ∷ 116 ∷ [], float_word)
    ∷ (102 ∷ 105 ∷ 120 ∷ 101 ∷ 100 ∷ [], fixed_word)
    ∷ (99 ∷ 104 ∷ 97 ∷ 114 ∷ [], char_word)
    ∷ (115 ∷ 116 ∷ 114 ∷ 105 ∷ 110 ∷ 103 ∷ [], string_word)
    ∷ (98 ∷ 111 ∷ 111 ∷ 108 ∷ [], bool_word)
    ∷ (110 ∷ 117 ∷ 108 ∷ 108 ∷ [], nul)
    ∷ (105 ∷ 102 ∷ [], if_word)
    ∷ (101 ∷ 108 ∷ 115 ∷ 101 ∷ [], else_word)
    ∷ (115 ∷ 119 ∷ 105 ∷ 116 ∷ 99 ∷ 104 ∷ [], switch)
    ∷ (99 ∷ 97 ∷ 115 ∷ 101 ∷ [], case_word)
    ∷ (102 ∷ 111 ∷ 114 ∷ [], for_word)
    ∷ (119 ∷ 104 ∷ 105 ∷ 108 ∷ 101 ∷ [], while)
    ∷ (98 ∷ 114 ∷ 101 ∷ 97 ∷ 107 ∷ [], break)
    ∷ (99 ∷ 111 ∷ 110 ∷ 116 ∷ 105 ∷ 110 ∷ 117 ∷ 101 ∷ [], continue)
    ∷ (114 ∷ 101 ∷ 116 ∷ 117 ∷ 114 ∷ 110 ∷ [], return)
    ∷ (102 ∷ 117 ∷ 110 ∷ 99 ∷ [], func)
    ∷ (118 ∷ 111 ∷ 105 ∷ 100 ∷ [], void_word)
    ∷ (99 ∷ 108 ∷ 97 ∷ 115 ∷ 115 ∷ [], class)
    ∷ (115 ∷ 116 ∷ 114 ∷ 117 ∷ 99 ∷ 116 ∷ [], struct)
    ∷ (112 ∷ 117 ∷ 98 ∷ 108 ∷ 105 ∷ 99 ∷ [], public)
    ∷ (112 ∷ 114 ∷ 111 ∷ 116 ∷ 101 ∷ 99 ∷ 116 ∷ 101 ∷ 100 ∷ [], protected)
    ∷ (112 ∷ 114 ∷ 105 ∷ 118 ∷ 97 ∷ 116 ∷ 101 ∷ [], private)
    ∷ (105 ∷ 110 ∷ 116 ∷ 101 ∷ 114 ∷ 110 ∷ 97 ∷ 108 ∷ [], internal)
    ∷ (105 ∷ 109 ∷ 112 ∷ 108 ∷ [], impl)
    ∷ (116 ∷ 114 ∷ 97 ∷ 105 ∷ 116 ∷ [], trait)
    ∷ (101 ∷ 120 ∷ 116 ∷ 101 ∷ 110 ∷ 100 ∷ 115 ∷ [], extends)
    ∷ (101 ∷ 110 ∷ 117 ∷ 109 ∷ [], enum)
    ∷ (116 ∷ 114 ∷ 121 ∷ [], try)
    ∷ (99 ∷ 97 ∷ 116 ∷ 99 ∷ 104 ∷ [], catch)
    ∷ (110 ∷ 101 ∷ 119 ∷ [], new)
    ∷ (114 ∷ 111 ∷ 111 ∷ 116 ∷ [], root)
    ∷ (99 ∷ 111 ∷ 110 ∷ 115 ∷ 116 ∷ [], const)
    ∷ ([], empty)
    ∷ (100 ∷ 101 ∷ 102 ∷ 97 ∷ 117 ∷ 108 ∷ 116 ∷ [], default)
    ∷ (109 ∷ 97 ∷ 116 ∷ 99 ∷ 104 ∷ [], match)
    ∷ (116 ∷ 104 ∷ 114 ∷ 111 ∷ 119 ∷ [], throw)
    ∷ (115 ∷ 117 ∷ 112 ∷ 101 ∷ 114 ∷ [], super)
    ∷ (116 ∷ 104 ∷ 105 ∷ 115 ∷ [], this)
    ∷ (105 ∷ 56 ∷ [], size)
    ∷ (105 ∷ 49 ∷ 54 ∷ [], size)
    ∷ (105 ∷ 51 ∷ 50 ∷ [], size)
    ∷ (105 ∷ 54 ∷ 52 ∷ [], size)
    ∷ (105 ∷ 49 ∷ 50 ∷ 56 ∷ [], size)
    ∷ (102 ∷ 49 ∷ 54 ∷ [], size)
    ∷ (102 ∷ 51 ∷ 50 ∷ [], size)
    ∷ (102 ∷ 54 ∷ 52 ∷ [], size)
    ∷ (102 ∷ 49 ∷ 50 ∷ 56 ∷ [], size)
    ∷ (117 ∷ 56 ∷ [], size)
    ∷ (117 ∷ 49 ∷ 54 ∷ [], size)
    ∷ (117 ∷ 51 ∷ 50 ∷ [], size)
    ∷ (117 ∷ 54 ∷ 52 ∷ [], size)
    ∷ (117 ∷ 49 ∷ 50 ∷ 56 ∷ [], size)
    ∷ (99 ∷ 56 ∷ [], size)
    ∷ (99 ∷ 49 ∷ 54 ∷ [], size)
    ∷ (99 ∷ 51 ∷ 50 ∷ [], size)
    ∷ (97 ∷ 115 ∷ [], cast)
    ∷ (102 ∷ 114 ∷ 97 ∷ 109 ∷ 101 ∷ [], frame)
    ∷ (111 ∷ 118 ∷ 101 ∷ 114 ∷ 114 ∷ 105 ∷ 100 ∷ 101 ∷ [], override)
    ∷ (97 ∷ 115 ∷ 121 ∷ 110 ∷ 99 ∷ [], async)
    ∷ (119 ∷ 111 ∷ 114 ∷ 108 ∷ 100 ∷ [], world)
    ∷ (97 ∷ 114 ∷ 101 ∷ 110 ∷ 97 ∷ [], arena)
    ∷ (72 ∷ 97 ∷ 110 ∷ 100 ∷ 108 ∷ 101 ∷ [], handle)
    ∷ (69 ∷ 114 ∷ 114 ∷ 111 ∷ 114 ∷ [], error)
    ∷ (105 ∷ 110 ∷ 105 ∷ 116 ∷ [], init)
    ∷ (115 ∷ 101 ∷ 108 ∷ 102 ∷ [], self)
    ∷ (98 ∷ 121 ∷ [], by)
    ∷ (111 ∷ 110 ∷ 68 ∷ 101 ∷ 115 ∷ 116 ∷ 114 ∷ 111 ∷ 121 ∷ [], on_destroy)
    ∷ []

unfoldable pub find : List ℕ → List (List ℕ × TKind) → Option TKind
unfolding same_text
find word [] = none
find word (row ∷ rows) = if same_text word row.0 then some row.1 else find word rows

unfoldable pub keyword : List ℕ → Option TKind
unfolding find
keyword word = find word keyword_map

-- `true` and `false`.
unfoldable pub is_lit_bool : List ℕ → Bool
unfolding same_text
is_lit_bool word =
    if same_text word (116 ∷ 114 ∷ 117 ∷ 101 ∷ [])
    then true
    else same_text word (102 ∷ 97 ∷ 108 ∷ 115 ∷ 101 ∷ [])
