-- ===== src/Mir/Scopes.antt =====
-- The steps on scopes, loops and matches, and what an action must keep.
use hwarangdo.Prelude.{
  ℕ, zero, suc, ◌-◌, ◌≤◌, ◌<◌, ◌≡◌, refl, sym, ap, ◌∙◌, subst, Bool, false, List, [], ◌∷◌, arith,
  ◌==◌, if◌then◌else◌, of_either, length, drop, length-drop,
}
use hwarangdo.Mir.{ValueSymbol, cleanup}
use hwarangdo.Mir.State.{
  Builder, Lowered, undefined, done, Lower, set_scope, enter_scope, push_scope, exit_scope, push_at,
  add_local, locals_at, emit_cleanup, cleanup_from, emit_cleanup_until,
}
use hwarangdo.Mir.Wf.{Context, Wf, Post, returns, Post-bind}
use hwarangdo.Mir.Rules.{Post-emit}

abbrev pub deepen : ℕ → Context → Context
deepen n c = record c { height = n }

-- A state with other scopes.
Wf-scopes :
    {c : Context} {x : ℕ} {p : ℕ → Bool} {b : Builder} (s : List (List ValueSymbol)) (n : ℕ)
    → Wf c x p b
    → length s ≡ n
    → Wf (deepen n c) x p (record b { scopes = s })
Wf-scopes s n w e = record {
  at_block = w.at_block;
  exists = w.exists;
  grown = w.grown;
  below = w.below;
  covered = w.covered;
  outside = record {
    deep = e;
    loops_kept = w.outside.loops_kept;
    matches_kept = w.outside.matches_kept;
    method_kept = w.outside.method_kept;
  };
}

pub Post-set_scope :
    {c : Context} {x : ℕ} {p : ℕ → Bool} {b : Builder} (n : ℕ)
    → Wf c x p b
    → n ≤ c.height
    → Post (λ _. Wf (deepen n c) x p) (set_scope n b)
unfolding set_scope
Post-set_scope {b = b} n w h = returns (
    Wf-scopes (drop (length b.scopes - n) b.scopes) n w
      (omega (arith, length-drop (length b.scopes - n) b.scopes, w.outside.deep)))

pub Post-enter_scope :
    {c : Context} {x : ℕ} {p : ℕ → Bool} {b : Builder}
    → Wf c x p b
    → Post (λ s b'. (s ≡ suc c.height) × Wf (deepen (suc c.height) c) x p b') (enter_scope b)
unfolding enter_scope
Post-enter_scope {b = b} w =
    returns (ap suc w.outside.deep, Wf-scopes ([] ∷ b.scopes) _ w (ap suc w.outside.deep))

-- A split on a list that is not empty.
pub Post-cons :
    {A B : Type 0} {Q : A → Builder → Type 0} (s : List B) (u : Lowered A)
    (f : B → List B → Lowered A)
    → 0 < length s
    → ((a : B) (t : List B) → s ≡ a ∷ t → Post Q (f a t))
    → Post Q (elim s [ [] ↦ u | a ∷ t ↦ f a t ])
Post-cons [] u f h g = absurd (omega arith)
Post-cons (a ∷ t) u f h g = g a t refl

pub Post-push_scope :
    {c : Context} {x : ℕ} {p : ℕ → Bool} {b : Builder}
    → Wf c x p b
    → 0 < c.height
    → Post (λ s b'. (s ≡ suc c.height) × Wf (deepen (suc c.height) c) x p b') (push_scope b)
unfolding push_scope
Post-push_scope {b = b} w h =
    Post-cons b.scopes undefined (λ _ _. enter_scope b) (omega (arith, h, w.outside.deep))
      (λ _ _ _. Post-enter_scope w)

pub Post-exit_scope :
    {c : Context} {x : ℕ} {p : ℕ → Bool} {b : Builder} (n : ℕ)
    → Wf c x p b
    → c.height ≡ suc n
    → Post (λ _. Wf (deepen n c) x p) (exit_scope b)
unfolding exit_scope
Post-exit_scope {b = b} n w h =
    Post-cons b.scopes undefined (λ _ outer. done (record b { scopes = outer }) tt)
      (omega (arith, h, w.outside.deep))
      (λ _ outer e. returns (Wf-scopes outer n w (omega (arith, h, ap length e, w.outside.deep))))

length-push_at :
    (n : ℕ) (s : ValueSymbol) (ls : List (List ValueSymbol)) → length (push_at n s ls) ≡ length ls
length-push_at n s [] = refl
length-push_at n s (l ∷ ls) = ground (arith, length-push_at n s ls)

pub Post-add_local :
    {c : Context} {x : ℕ} {p : ℕ → Bool} {b : Builder} (n : ℕ) (s : ValueSymbol)
    → Wf c x p b
    → 0 < n
    → Post (λ _. Wf c x p) (add_local n s b)
unfolding add_local
Post-add_local {c = c} {x} {p} {b} n s w h =
    let other : (n == 0) ≡ false = ground arith in
    subst
      (λ t.
        Post (λ _. Wf c x p)
          (if t then undefined else done (record b { scopes = push_at n s b.scopes }) tt))
      (sym other)
      (returns (
        Wf-scopes (push_at n s b.scopes) c.height w (length-push_at n s b.scopes ∙ w.outside.deep)))

pub Post-emit_cleanup :
    {c : Context} {x : ℕ} {p : ℕ → Bool} {b : Builder} (n : ℕ)
    → Wf c x p b
    → Post (λ _. Wf c x p) (emit_cleanup n b)
unfolding emit_cleanup
Post-emit_cleanup zero w = returns w
Post-emit_cleanup {b = b} (suc n) w = Post-emit (cleanup (locals_at (suc n) b.scopes)) w

Post-cleanup_from :
    {c : Context} {x : ℕ} {p : ℕ → Bool} {b : Builder} (n : ℕ) (s : List (List ValueSymbol))
    → Wf c x p b
    → n ≤ length s
    → Post (λ _. Wf c x p) (cleanup_from n s b)
unfolding cleanup_from
Post-cleanup_from zero [] w h = returns w
Post-cleanup_from (suc n) [] w h = absurd (omega arith)
Post-cleanup_from {c = c} {x} {p} {b} n (l ∷ s) w h =
    of_either {A = Lower (Unit {0})} (λ m. Post (λ _. Wf c x p) (m b)) (n == suc (length s)) _ _
      (λ e. returns w)
      (λ e.
        Post-bind (Post-emit (cleanup l) w)
          (λ _ b' w'. Post-cleanup_from n s w' (ground (arith, h, e))))

pub Post-emit_cleanup_until :
    {c : Context} {x : ℕ} {p : ℕ → Bool} {b : Builder} (n : ℕ)
    → Wf c x p b
    → n ≤ c.height
    → Post (λ _. Wf c x p) (emit_cleanup_until n b)
unfolding emit_cleanup_until
Post-emit_cleanup_until {b = b} n w h =
    Post-cleanup_from n b.scopes w (omega (arith, h, w.outside.deep))
