-- ===== src/Mir/Handlers.antt =====
-- The statements and the ternary that branch, at any parts that are safe to lower.
use hwarangdo.Prelude.{suc, ◌-◌, ◌≤◌, refl, Bool, true, none, arith, length}
use hwarangdo.Types.{TypeSymbol}
use hwarangdo.Types.Operators.{ls, add}
use hwarangdo.Mir.{
  ValueSymbol, Value, binary, local_at, make_value, assign, local_decl, goto, branch,
}
use hwarangdo.Mir.State.{LoopContext, Lower, load_local}
use hwarangdo.Mir.Branches.{make_if, make_while, make_for, make_ternary}
use hwarangdo.Mir.Wf.{also, returns, Post-bind, Post-map}
use hwarangdo.Mir.Rules.{
  Wf-set_current, Wf-weaken, Wf-lower, Post-make_block, Post-goto, Post-terminate_current,
  Post-emit, Post-make_temp,
}
use hwarangdo.Mir.Scopes.{Post-enter_scope, Post-exit_scope, Post-add_local, Post-emit_cleanup}
use hwarangdo.Mir.Contexts.{
  Fitting-inside, Fitting-loop, Wf-loop, Post-pop_loop, Open-of, Safe, Quiet, Post-Quiet,
}

module _ {lo ma : Bool} where
  pub make_if-Safe :
      {l : Lower Value} {m n : Lower (Unit {0})}
      → Safe lo ma l
      → Safe lo ma m
      → Safe lo ma n
      → Safe lo ma (make_if l m n)
  unfolding make_if
  make_if-Safe hl hm hn c f q b w = Post-bind (hl c f q b w) λ v b1 w1.
      Post-bind (Post-make_block w1) λ t b2 (l2, k2, w2).
        Post-bind (Post-make_block w2) λ e b3 (l3, k3, w3).
          Post-bind (Post-make_block w3) λ j b4 (l4, k4, w4).
            let above : c.floor ≤ suc j = omega (arith, l2, l3, l4) in
            let f' = Fitting-inside (suc j) c.height f above (omega arith) in
            let w4' =
              Wf-weaken {q = also b1.current_block (also t (also e (also j q)))} w4
                (λ i h. ground arith) in
            Post-bind
              (Post-goto b1.current_block (branch v t e) w4' w4.exists refl
                (ground (arith, l3, l4)))
              λ _ b5 w5.
                Post-bind
                  (hm _ f' (also e (also j q)) _ (Wf-set_current t w5 (omega (arith, l3, l4))))
                  λ _ b6 w6.
                    Post-bind (Post-terminate_current (goto j) w6 refl (ground arith)) λ _ b7 w7.
                      Post-bind (hn _ f' (also j q) _ (Wf-set_current e w7 (omega (arith, l4))))
                        λ _ b8 w8.
                          Post-bind (Post-terminate_current (goto j) w8 refl (ground arith))
                            λ _ b9 w9.
                              returns (Wf-lower c.floor (Wf-set_current j w9 (omega arith)) above)

  pub make_while-Safe :
      {l : Lower Value} {m : Lower (Unit {0})}
      → Safe lo ma l
      → Safe true ma m
      → Safe lo ma (make_while l m)
  unfolding make_while
  make_while-Safe hl hm c f q b w = Post-bind (hl c f q b w) λ v b1 w1.
      Post-bind (Post-make_block w1) λ t b2 (l2, k2, w2).
        Post-bind (Post-make_block w2) λ e b3 (l3, k3, w3).
          Post-bind (Post-make_block w3) λ j b4 (l4, k4, w4).
            let x = b1.current_block in
            let outer = length b4.scopes in
            let above : c.floor ≤ suc j = omega (arith, l2, l3, l4) in
            let l : LoopContext = record {
              continue_target = x;
              break_target = j;
              break_scope = outer;
              continue_scope = outer;
            } in
            let f' =
              Fitting-loop l (Fitting-inside (suc j) c.height f above (omega arith))
                (omega (arith, k4)) (omega arith) (omega (arith, w4.outside.deep))
                (omega (arith, w4.outside.deep)) in
            let w4' =
              Wf-weaken {q = also x (also t (also e (also j q)))} w4 (λ i h. ground arith) in
            Post-bind (Post-goto x (branch v t e) w4' w4.exists refl (ground (arith, l3, l4)))
              λ _ b5 w5.
                Post-bind
                  (hm _ f' (also e (also j q)) _
                    (Wf-loop l (Wf-set_current t w5 (omega (arith, l3, l4)))))
                  λ _ b6 w6. Post-bind (Post-pop_loop _ l w6) λ _ b7 w7.
                    Post-bind (Post-terminate_current (goto x) w7 refl (ground (arith, k4)))
                      λ _ b8 w8.
                        Post-bind
                          (Post-goto e (goto j) w8 (omega (arith, l4, w8.grown)) refl
                            (ground arith))
                          λ _ b9 w9.
                            returns (Wf-lower c.floor (Wf-set_current j w9 (omega arith)) above)

  pub make_ternary-Safe :
      (t : TypeSymbol) {l m n : Lower Value}
      → Quiet l
      → Quiet m
      → Quiet n
      → Safe lo ma (make_ternary t l m n)
  unfolding make_ternary
  make_ternary-Safe type hl hm hn c f q b w = Post-bind (Post-make_temp type w) λ temp b0 w0.
      Post-bind (Post-make_block (Open-of q w0)) λ cond b1 (l1, k1, w1).
        Post-bind (Post-make_block w1) λ t b2 (l2, k2, w2).
          Post-bind (Post-make_block w2) λ e b3 (l3, k3, w3).
            Post-bind (Post-make_block w3) λ j b4 (l4, k4, w4).
              let x = b0.current_block in
              let above : c.floor ≤ suc j = omega (arith, l1, l2, l3, l4) in
              let w4' =
                Wf-weaken {q = also x (also cond (also t (also e (also j q))))} w4
                  (λ i h. ground arith) in
              Post-bind (Post-emit (local_decl type temp none) w4') λ _ b5 w5.
                Post-bind (Post-goto x (goto cond) w5 w5.exists refl (ground (arith, l2, l3, l4)))
                  λ _ b6 w6.
                    let w7 = Wf-set_current cond w6 (omega (arith, l2, l3, l4)) in
                    Post-bind (Post-Quiet hl w7) λ v w7b w7'.
                      Post-bind
                        (Post-goto cond (branch v t e) w7' w7'.exists refl (ground (arith, l3, l4)))
                        λ _ b8 w8.
                          let w9 = Wf-set_current t w8 (omega (arith, l3, l4)) in
                          Post-bind (Post-Quiet hm w9) λ left w9b w9'.
                            Post-bind (Post-emit (assign (local_at temp) left) w9') λ _ b10 w10.
                              Post-bind (Post-goto t (goto j) w10 w10.exists refl (ground arith))
                                λ _ b11 w11.
                                  let w12 = Wf-set_current e w11 (omega (arith, l4)) in
                                  Post-bind (Post-Quiet hn w12) λ right w12b w12'.
                                    Post-bind (Post-emit (assign (local_at temp) right) w12')
                                      λ _ b13 w13.
                                        Post-bind
                                          (Post-goto e (goto j) w13 w13.exists refl (ground arith))
                                          λ _ b14 w14. returns (
                                            Wf-lower c.floor (Wf-set_current j w14 (omega arith))
                                              above)

  pub make_for-Safe :
      (i : ValueSymbol) (t : TypeSymbol) {l m n : Lower Value} {o : Lower (Unit {0})}
      → Quiet l
      → Quiet m
      → Quiet n
      → Safe true ma o
      → Safe lo ma (make_for i t l m n o)
  unfolding make_for
  make_for-Safe i type hl hm hn ho c f q b w = Post-bind (Post-enter_scope w) λ s b0 (es, w0).
      Post-bind (Post-make_block (Open-of q w0)) λ cond b1 (l1, k1, w1).
        Post-bind (Post-make_block w1) λ t b2 (l2, k2, w2).
          Post-bind (Post-make_block w2) λ e b3 (l3, k3, w3).
            Post-bind (Post-make_block w3) λ j b4 (l4, k4, w4).
              let x = b0.current_block in
              let above : c.floor ≤ suc j = omega (arith, l1, l2, l3, l4) in
              let w4' =
                Wf-weaken {q = also x (also cond (also t (also e (also j q))))} w4
                  (λ i h. ground arith) in
              let w5 = Wf-set_current x w4' (omega (arith, k4)) in
              Post-bind (Post-add_local (length b4.scopes) i w5 (omega (arith, w4.outside.deep)))
                λ _ b6 w6. Post-bind (Post-emit (local_decl type i none) w6) λ _ b7 w7.
                  Post-bind (Post-Quiet hl w7) λ start w7b w7'.
                    Post-bind (Post-emit (assign (local_at i) start) w7') λ _ b8 w8.
                      Post-bind
                        (Post-goto x (goto cond) w8 w8.exists refl (ground (arith, l2, l3, l4)))
                        λ _ b9 w9.
                          let w10 = Wf-set_current cond w9 (omega (arith, l2, l3, l4)) in
                          Post-bind (Post-Quiet hm w10) λ end w10b w10'.
                            Post-bind
                              (Post-goto cond
                                (branch (make_value (binary (load_local i type) end ls type) type) t
                                  j)
                                w10' w10'.exists refl (ground (arith, l3, l4)))
                              λ _ b11 w11.
                                let l : LoopContext = record {
                                  continue_target = e;
                                  break_target = j;
                                  break_scope = s - 1;
                                  continue_scope = s;
                                } in
                                let f' =
                                  Fitting-loop l
                                    (Fitting-inside (suc j) (suc c.height) f above (omega arith))
                                    (omega (arith, l4)) (omega arith) (omega (arith, es))
                                    (omega (arith, es)) in
                                Post-bind
                                  (ho _ f' (also e (also j q)) _
                                    (Wf-loop l (Wf-set_current t w11 (omega (arith, l3, l4)))))
                                  λ _ b12 w12.
                                    Post-bind
                                      (Post-terminate_current (goto e) w12 refl
                                        (ground (arith, l4)))
                                      λ _ b13 w13. Post-bind (Post-pop_loop _ l w13) λ _ b14 w14.
                                        let w15 = Wf-set_current e w14 (omega (arith, l4)) in
                                        Post-bind (Post-Quiet hn w15) λ amount w15b w15'.
                                          Post-bind
                                            (Post-emit
                                              (assign (local_at i) (
                                                make_value
                                                  (binary (load_local i type) amount add type)
                                                  type))
                                              w15')
                                            λ _ b16 w16.
                                              Post-bind
                                                (Post-goto e (goto cond) w16 w16.exists refl
                                                  (ground (arith, l2, l3, l4)))
                                                λ _ b17 w17.
                                                  Post-bind
                                                    (Post-emit_cleanup s
                                                      (Wf-set_current j w17 (omega arith)))
                                                    λ _ b18 w18.
                                                      Post-map (Post-exit_scope c.height w18 refl)
                                                        λ _ b19 w19.
                                                          Open-of q (Wf-lower c.floor w19 above)
