-- ===== src/Mir/Cases.antt =====
-- Switches and matches: `makeSwitch` and its callers, at any cases that are safe to lower.
use hwarangdo.Prelude.{
  ℕ, suc, ◌≤◌, ◌<◌, ◌≡◌, refl, sym, subst, Bool, true, none, some, List, [], ◌∷◌, ◌++◌, arith,
  if◌then◌else◌, of_either, length,
}
use hwarangdo.Types.{TypeSymbol}
use hwarangdo.Mir.{ValueSymbol, symbol_type, Value, local_decl, Case, goto, switch}
use hwarangdo.Mir.Hir.{
  DefaultKind, Selector, literal_selector, unit_selector, payload_selector, wildcard_selector,
}
use hwarangdo.Mir.State.{MatchContext, Builder, Lower, pure, ◌>>=◌, make_block, load_local}
use hwarangdo.Mir.Branches.{
  SwitchData, is_default, lower_selectors, make_case, make_switch, make_switch_stmt, make_match,
}
use hwarangdo.Mir.Wf.{
  cases_below, also, Context, Wf, Post, returns, Post-bind, Post-map, cases_below_mono,
  cases_below-append,
}
use hwarangdo.Mir.Rules.{
  raise, Wf-set_current, Wf-weaken, Wf-lower, Wf-all, Post-make_block, Post-goto,
  Post-terminate_open, Post-terminate_current, Post-terminate_here, Post-emit, Post-make_temp,
}
use hwarangdo.Mir.Scopes.{Post-set_scope, Post-push_scope, Post-add_local, Post-emit_cleanup}
use hwarangdo.Mir.Contexts.{
  Fitting, inside, Fitting-inside, matching, Fitting-match, Wf-match, Post-pop_match, Open-of, Safe,
  Quiet, Post-Quiet,
}

-- The blocks of a switch stand below the floor, and its scope is the current one.
pub record Placed (d : SwitchData) (c : Context) : Type 0 where
  pub default_placed : d.default_target < c.floor
  pub cleanup_placed : d.cleanup_target < c.floor
  pub at_scope : d.scope ≡ c.height

-- The default block and the cleanup block are left open for the cases.
abbrev pub pending : SwitchData → (ℕ → Bool) → ℕ → Bool
pending d q = also d.default_target (also d.cleanup_target q)

-- What the lowering of cases leaves: their targets exist, and no other block is left open.
abbrev pub LoweredCases : SwitchData → Context → (ℕ → Bool) → List Case → Builder → Type 0
LoweredCases d c q cs b =
    Wf c b.current_block (pending d q) b × (cases_below (length b.blocks) cs ≡ true)

abbrev pub SafeCases : Bool → Bool → SwitchData → Lower (List Case) → Type 0
SafeCases lo ma d m =
    (c : Context)
    → Fitting lo ma c
    → Placed d c
    → (q : ℕ → Bool) (x : ℕ) (b : Builder) → Wf c x (pending d q) b
    → Post (LoweredCases d c q) (m b)

Post-lower_selectors :
    {c : Context} {x : ℕ} {p : ℕ → Bool} {b : Builder} (temp : ValueSymbol) (s id : ℕ)
    (ss : List Selector)
    → Wf c x p b
    → 0 < s
    → id < c.floor
    → Post (λ cs b'. Wf c x p b' × (cases_below c.floor cs ≡ true)) (lower_selectors temp s id ss b)
unfolding lower_selectors
Post-lower_selectors temp s id [] w h l = returns (w, refl)
Post-lower_selectors temp s id (literal_selector n ∷ ss) w h l =
    Post-bind (Post-lower_selectors temp s id ss w h l)
      λ cs b1 (w1, k). returns (w1, ground (arith, l, k))
Post-lower_selectors temp s id (unit_selector n ∷ ss) w h l =
    Post-bind (Post-lower_selectors temp s id ss w h l)
      λ cs b1 (w1, k). returns (w1, ground (arith, l, k))
Post-lower_selectors temp s id (payload_selector n v ∷ ss) w h l =
    Post-bind (Post-add_local s v w h) λ _ b1 w1. Post-bind (Post-emit _ w1) λ _ b2 w2.
      Post-bind (Post-lower_selectors temp s id ss w2 h l)
        λ cs b3 (w3, k). returns (w3, ground (arith, l, k))
Post-lower_selectors temp s id (wildcard_selector ∷ ss) w h l =
    Post-lower_selectors temp s id ss w h l

-- The block of a case: the default block, or a new one.
Post-case_block :
    {c : Context} {x : ℕ} {b : Builder} (q : ℕ → Bool) (d : SwitchData) (kind : DefaultKind)
    → Wf c x (pending d q) b
    → Placed d c
    → Post
        (λ id b'. (n : ℕ) × (c.floor ≤ n) × (id < n) × Wf (raise n c) x (also id (pending d q)) b')
        ((if is_default kind then pure d.default_target else make_block) b)
Post-case_block {c = c} {x} {b} q d kind w h =
    of_either {A = Lower ℕ}
      (λ m.
        Post
          (λ id b'.
            (n : ℕ) × (c.floor ≤ n) × (id < n) × Wf (raise n c) x (also id (pending d q)) b')
          (m b))
      (is_default kind) (pure d.default_target) make_block
      (λ _. returns (c.floor, omega arith, h.default_placed, Wf-weaken w (λ j k. ground arith)))
      (λ _.
        Post-map (Post-make_block w)
          λ id b1 (l, k, w1). (suc id, omega (arith, l), omega arith, w1))

module _ {lo ma : Bool} where
  pub make_case-Safe :
      (d : SwitchData) (temp : ValueSymbol) (kind : DefaultKind) (ss : List Selector)
      {m : Lower (Unit {0})}
      → Safe lo ma m
      → SafeCases lo ma d (make_case d temp kind ss m)
  unfolding make_case
  make_case-Safe d temp kind ss hm c f h q x b w =
      Post-bind (Post-case_block q d kind w h) λ id b1 (n, l1, l2, w1).
        Post-bind (Post-push_scope (Wf-set_current id w1 l2) f.in_scope) λ s b2 (e, w2).
          Post-bind (Post-lower_selectors temp s id ss w2 (omega (arith, e)) l2) λ cs b3 (w3, k).
            let f' = Fitting-inside n (suc c.height) f l1 (omega arith) in
            Post-bind (hm _ f' (pending d q) b3 (Open-of (pending d q) w3)) λ _ b4 w4.
              Post-bind (Post-emit_cleanup s w4) λ _ b5 w5.
                Post-bind
                  (Post-terminate_current (goto d.cleanup_target) w5 refl
                    (ground (arith, h.cleanup_placed, l1)))
                  λ _ b6 w6.
                    Post-bind (Post-set_scope d.scope w6 (omega (arith, h.at_scope))) λ _ b7 w7.
                      let w8 =
                        subst (λ y. Wf (inside n y c) b4.current_block (pending d q) b7) h.at_scope
                          w7 in
                      returns (
                        subst (λ y. Wf c y (pending d q) b7) (sym w8.at_block)
                            (Wf-lower c.floor w8 l1),
                        cases_below_mono n (length b7.blocks) cs w8.grown k,
                      )

  pub no_cases-Safe : (d : SwitchData) → SafeCases lo ma d (pure [])
  no_cases-Safe d c f h q x b w =
      returns (subst (λ y. Wf c y (pending d q) b) (sym w.at_block) w, refl)

  pub more_cases-Safe :
      (d : SwitchData) {m n : Lower (List Case)}
      → SafeCases lo ma d m
      → SafeCases lo ma d n
      → SafeCases lo ma d (do cs ← m; ds ← n; pure (cs ++ ds))
  more_cases-Safe d hm hn c f h q x b w = Post-bind (hm c f h q x b w) λ cs b1 (w1, k1).
      let n = length b1.blocks in
      let placed : Placed d (raise n c) = record {
        default_placed = omega (arith, h.default_placed, w1.grown);
        cleanup_placed = omega (arith, h.cleanup_placed, w1.grown);
        at_scope = h.at_scope;
      } in
      Post-bind
        (hn (raise n c) (Fitting-inside n c.height f w1.grown (omega arith)) placed q _ b1
          (Wf-all w1))
        λ ds b2 (w2, k2). returns (
          Wf-lower c.floor w2 w1.grown,
          cases_below-append (length b2.blocks) cs ds
              (cases_below_mono n (length b2.blocks) cs w2.grown k1) k2,
        )

  -- A switch over a straight condition, with a default: everything but the join block is closed.
  pub Post-make_switch :
      {c : Context} {x : ℕ} {b : Builder} (q : ℕ → Bool) (d : SwitchData) {l : Lower Value}
      {m : ValueSymbol → Lower (List Case)}
      → Quiet l
      → ((temp : ValueSymbol) → SafeCases lo ma d (m temp))
      → Fitting lo ma c
      → Placed d c
      → d.cond < c.floor
      → d.join_target < c.floor
      → Wf c x (also d.cond (pending d (also d.join_target q))) b
      → Post (λ _ b'. Wf c d.cleanup_target (also d.join_target q) b') (make_switch d l true m b)
  unfolding make_switch
  Post-make_switch {c = c} {x} q d hl hm f h hc hj w =
      let rest = also d.cond (also d.join_target q) in
      let w0 = Wf-weaken {q = pending d rest} w (λ j k. ground arith) in
      Post-bind (Post-Quiet hl w0) λ v b1 w1. Post-bind (Post-make_temp d.type w1) λ temp b2 w2.
        Post-bind
          (Post-add_local (length b2.scopes) temp w2 (omega (arith, w2.outside.deep, f.in_scope)))
          λ _ b3 w3.
            Post-bind (Post-emit (local_decl (symbol_type temp) temp (some v)) w3) λ _ b4 w4.
              Post-bind (hm temp c f h rest x b4 w4) λ cs b5 (w5, k).
                let n = length b5.blocks in
                Post-bind
                  (Post-terminate_open d.default_target (goto d.cleanup_target) (Wf-all w5)
                    (omega (arith, h.default_placed, w5.grown)) refl
                    (ground (arith, h.cleanup_placed, w5.grown)))
                  λ _ b6 w6.
                    let w6' =
                      Wf-weaken {q = also d.cond (also d.cleanup_target (also d.join_target q))} w6
                        (λ j k. ground arith) in
                    let t = switch (load_local temp (symbol_type temp)) cs d.default_target in
                    Post-bind
                      (Post-goto d.cond t w6' (omega (arith, hc, w5.grown, w6.grown)) refl
                        (ground (arith, k, h.default_placed, w5.grown)))
                      λ _ b7 w7.
                        let w8 =
                          Wf-set_current d.cleanup_target w7
                            (omega (arith, h.cleanup_placed, w5.grown)) in
                        Post-bind (Post-emit_cleanup d.scope w8) λ _ b9 w9.
                          Post-map
                            (Post-terminate_here (goto d.join_target) w9 refl
                              (ground (arith, hj, w5.grown)))
                            (λ _ b10 w10. Wf-lower c.floor w10 w5.grown)

  pub make_switch_stmt-Safe :
      (t : TypeSymbol) {l : Lower Value} {m : SwitchData → ValueSymbol → Lower (List Case)}
      → Quiet l
      → ((d : SwitchData) (temp : ValueSymbol) → SafeCases lo ma d (m d temp))
      → Safe lo ma (make_switch_stmt t l true m)
  unfolding make_switch_stmt
  make_switch_stmt-Safe t hl hm c f q b w = Post-bind (Post-push_scope w f.in_scope) λ s b1 (e, w1).
      Post-bind (Post-make_block w1) λ default b2 (l2, k2, w2).
        Post-bind (Post-make_block w2) λ cleanup_id b3 (l3, k3, w3).
          Post-bind (Post-make_block w3) λ join b4 (l4, k4, w4).
            let above : c.floor ≤ suc join = omega (arith, l2, l3, l4) in
            let f' = Fitting-inside (suc join) (suc c.height) f above (omega arith) in
            let d : SwitchData = record {
              cond = b4.current_block;
              default_target = default;
              cleanup_target = cleanup_id;
              join_target = join;
              scope = s;
              type = t;
            } in
            let placed : Placed d (inside (suc join) (suc c.height) c) = record {
              default_placed = omega (arith, l3, l4);
              cleanup_placed = omega (arith, l4);
              at_scope = e;
            } in
            let w4' =
              Wf-weaken {q = also d.cond (pending d (also join q))} w4
                (λ j h. ground (arith, w4.at_block)) in
            Post-bind
              (Post-make_switch q d hl (hm d) f' placed (omega (arith, w4.at_block, k4))
                (omega arith) w4')
              λ _ b5 w5.
                Post-bind (Post-set_scope (length b.scopes) w5 (omega (arith, w.outside.deep)))
                  λ _ b6 w6.
                    let w6' =
                      subst (λ n. Wf (inside (suc join) n c) cleanup_id (also join q) b6)
                        w.outside.deep w6 in
                    returns (Wf-lower c.floor (Wf-set_current join w6' (omega arith)) above)

module _ {lo ma : Bool} where
  pub make_match-Safe :
      (r t : TypeSymbol) {l : Lower Value} {m : SwitchData → ValueSymbol → Lower (List Case)}
      → Quiet l
      → ((d : SwitchData) (temp : ValueSymbol) → SafeCases lo true d (m d temp))
      → Safe lo ma (make_match r t l true m)
  unfolding make_match
  make_match-Safe r t hl hm c f q b w = Post-bind (Post-push_scope w f.in_scope) λ s b1 (e, w1).
      Post-bind (Post-make_block w1) λ cond b2 (l2, k2, w2).
        Post-bind (Post-make_block w2) λ default b3 (l3, k3, w3).
          Post-bind (Post-make_block w3) λ cleanup_id b4 (l4, k4, w4).
            Post-bind (Post-make_block w4) λ join b5 (l5, k5, w5).
              let x = b.current_block in
              let above : c.floor ≤ suc join = omega (arith, l2, l3, l4, l5) in
              let w6 = Wf-set_current x w5 (omega (arith, k5)) in
              Post-bind (Post-make_temp r w6) λ result b7 w7.
                Post-bind
                  (Post-add_local (length b.scopes) result w7
                    (omega (arith, w.outside.deep, f.in_scope)))
                  λ _ b8 w8.
                    Post-bind (Post-emit (local_decl (symbol_type result) result none) w8)
                      λ _ b9 w9.
                        let d : SwitchData = record {
                          cond = cond;
                          default_target = default;
                          cleanup_target = cleanup_id;
                          join_target = join;
                          scope = s;
                          type = t;
                        } in
                        let w9' =
                          Wf-weaken {q = also x (also cond (pending d (also join q)))} w9
                            (λ j h. ground arith) in
                        Post-bind
                          (Post-goto x (goto cond) w9' w9.exists refl (ground (arith, l3, l4, l5)))
                          λ _ b10 w10.
                            let m : MatchContext = record { result = result; join = cleanup_id } in
                            let f' =
                              Fitting-match m
                                (Fitting-inside (suc join) (suc c.height) f above (omega arith))
                                (omega (arith, l5)) in
                            let placed : Placed d
                                (matching m (inside (suc join) (suc c.height) c)) =
                              record {
                                default_placed = omega (arith, l4, l5);
                                cleanup_placed = omega (arith, l5);
                                at_scope = e;
                              } in
                            let w11 =
                              Wf-set_current cond (Wf-match m w10) (omega (arith, l3, l4, l5)) in
                            Post-bind
                              (Post-make_switch q d hl (hm d) f' placed (omega (arith, l3, l4, l5))
                                (omega arith) w11)
                              λ _ b12 w12.
                                let w12' =
                                  Wf-weaken {q = also cleanup_id (also join q)} w12
                                    (λ j h. ground arith) in
                                Post-bind
                                  (Post-terminate_open cleanup_id (goto join) w12'
                                    (omega (arith, l5, w12.grown)) refl (ground arith))
                                  λ _ b13 w13.
                                    Post-bind
                                      (Post-set_scope (length b.scopes) w13
                                        (omega (arith, w.outside.deep)))
                                      λ _ b14 w14.
                                        let w14' =
                                          subst
                                            (λ n.
                                              Wf (matching m (inside (suc join) n c)) cleanup_id
                                                (also join q) b14)
                                            w.outside.deep w14 in
                                        Post-bind
                                          (Post-pop_match _ m
                                            (Wf-set_current join w14' (omega arith)))
                                          λ _ b15 w15.
                                            returns (Open-of q (Wf-lower c.floor w15 above))
