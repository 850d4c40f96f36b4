-- ===== src/Cfg/Methods.antt =====
-- Every method of the builder that takes no syntax apart keeps the graph linked.
use ubel_stratum.Common.{
  ℕ, ◌≤◌, ◌<◌, Bool, true, false, List, [], ◌∷◌, ◌++◌, ◌≡◌, refl, inl, inr, arith, Option, none,
  some, contains, nat_eq, contains-cons, contains-nil, contains-append, subst,
}
use mathlib.Core.Option.{some_inj}
use ubel_stratum.Ast.{Stmt}
use ubel_stratum.Cfg.Types.{goto, branch, return_term, unreachable, block_successors}
use ubel_stratum.Cfg.Builder.{Builder, M, set_terminator}
use ubel_stratum.Cfg.Build.{
  Branches, point_of, goto_all, converge, wire, build_conditional_loop, build_unconditional_loop,
  build_catch, build_try, build_match, finish_if, jump, exit_of, header_of, build_break,
  build_continue, build_return, build_straight,
}
use ubel_stratum.Cfg.Hoare.{
  size, InLoop, Valid, Post, Post-bind, Post-seq, Post-pure, Post-stop, Post-attempt, Done,
  new_block-Post, set_terminator-Post, push_stmt-Post, push_loop-Post, pop_loop-Post,
  last_loop-Post,
}

abbrev pub InRange : ℕ → ℕ → Type 0
InRange n a = a < n

abbrev pub AllInRange : ℕ → List ℕ → Type 0
AllInRange n ts = (t : ℕ) → contains ts t ≡ true → t < n

-- The branches of a statement: their entries are blocks.
abbrev pub Entries : ℕ → Branches → Type 0
Entries n bs = AllInRange n bs.targets

abbrev pub Body : (ℕ → M ℕ) → Type 0
Body body =
    (current : ℕ) (b : Builder) → Valid b → current < size b → Post InRange b (body current b)

set_goto-Post :
    (b : Builder)
    → Valid b
    → (id target : ℕ) → target < size b
    → Post Done b (set_terminator id (goto target) b)
unfolding block_successors
set_goto-Post b v id target h = set_terminator-Post b v id (goto target) (λ t k.
    elim ((contains-cons target [] t).0 k) [
      | inl same ↦ subst (λ x. x < size b) same h
      | inr never ↦ absurd (cc (contains-nil t))
    ])

set_branch-Post :
    (b : Builder)
    → Valid b
    → (id : ℕ) (ts : List ℕ) → AllInRange (size b) ts
    → Post Done b (set_terminator id (branch ts) b)
unfolding block_successors
set_branch-Post b v id ts h = set_terminator-Post b v id (branch ts) h

pub set_return-Post :
    (b : Builder) → Valid b → (id : ℕ) → Post Done b (set_terminator id return_term b)
unfolding block_successors
set_return-Post b v id =
    set_terminator-Post b v id return_term (λ t k. absurd (cc (contains-nil t)))

set_unreachable-Post :
    (b : Builder) → Valid b → (id : ℕ) → Post Done b (set_terminator id unreachable b)
unfolding block_successors
set_unreachable-Post b v id =
    set_terminator-Post b v id unreachable (λ t k. absurd (cc (contains-nil t)))

two_in_range : {n x y : ℕ} → x < n → y < n → AllInRange n (x ∷ y ∷ [])
two_in_range {n} {x} {y} hx hy t k = elim ((contains-cons x (y ∷ []) t).0 k) [
  | inl same ↦ subst (λ z. z < n) same hx
  | inr rest ↦ elim ((contains-cons y [] t).0 rest) [
    | inl same ↦ subst (λ z. z < n) same hy
    | inr never ↦ absurd (cc (contains-nil t))
  ]
]

goto_all-Post :
    (after : ℕ) (ps : List ℕ) (b : Builder)
    → Valid b
    → after < size b
    → Post Done b (goto_all after ps b)
unfolding goto_all
goto_all-Post after [] b v h = Post-pure tt b v tt
goto_all-Post after (p ∷ ps) b v h =
    Post-seq _ _ b (set_goto-Post b v p after h)
      (λ b1 v1 g1. goto_all-Post after ps b1 v1 (omega arith))

converge-Post : (ps : List ℕ) (b : Builder) → Valid b → Post InRange b (converge ps b)
unfolding converge
converge-Post [] b v = Post-stop b v
converge-Post (p ∷ ps) b v = Post-bind _ _ b (new_block-Post b v) λ after b1 v1 g1 h1.
    Post-seq _ _ b1 (goto_all-Post after (p ∷ ps) b1 v1 h1)
      λ b2 v2 g2. Post-pure after b2 v2 (omega arith)

wire-Post :
    (tail : Option ℕ) (target : ℕ) (b : Builder)
    → Valid b
    → target < size b
    → Post Done b (wire tail target b)
unfolding wire
wire-Post none target b v h = Post-pure tt b v tt
wire-Post (some t) target b v h = set_goto-Post b v t target h

pub build_conditional_loop_post :
    (stmt : Stmt) (body : ℕ → M ℕ) → Body body → Body (build_conditional_loop stmt body)
unfolding build_conditional_loop
build_conditional_loop_post stmt body hb current b v h =
    Post-seq _ _ b (push_stmt-Post b v current stmt) λ b1 v1 g1.
      Post-bind _ _ b1 (new_block-Post b1 v1) λ header b2 v2 g2 h2.
        Post-seq _ _ b2 (set_goto-Post b2 v2 current header h2) λ b3 v3 g3.
          Post-bind _ _ b3 (new_block-Post b3 v3) λ body_entry b4 v4 g4 h4.
            Post-bind _ _ b4 (new_block-Post b4 v4) λ exit b5 v5 g5 h5.
              Post-seq _ _ b5 (set_branch-Post b5 v5 header _ (two_in_range (omega arith) h5))
                λ b6 v6 g6.
                  Post-seq _ _ b6 (push_loop-Post b6 v6 header exit (omega arith) (omega arith))
                    λ b7 v7 g7.
                      Post-bind _ _ b7 (Post-attempt _ b7 (hb body_entry b7 v7 (omega arith)))
                        λ tail b8 v8 g8 h8.
                          Post-seq _ _ b8 (wire-Post tail header b8 v8 (omega arith)) λ b9 v9 g9.
                            Post-seq _ _ b9 (pop_loop-Post b9 v9)
                              λ b10 v10 g10. Post-pure exit b10 v10 (omega arith)

pub build_unconditional_loop_post :
    (stmt : Stmt) (body : ℕ → M ℕ) → Body body → Body (build_unconditional_loop stmt body)
unfolding build_unconditional_loop
build_unconditional_loop_post stmt body hb current b v h =
    Post-seq _ _ b (push_stmt-Post b v current stmt) λ b1 v1 g1.
      Post-bind _ _ b1 (new_block-Post b1 v1) λ header b2 v2 g2 h2.
        Post-seq _ _ b2 (set_goto-Post b2 v2 current header h2) λ b3 v3 g3.
          Post-bind _ _ b3 (new_block-Post b3 v3) λ exit b4 v4 g4 h4.
            Post-seq _ _ b4 (push_loop-Post b4 v4 header exit (omega arith) (omega arith))
              λ b5 v5 g5.
                Post-bind _ _ b5 (Post-attempt _ b5 (hb header b5 v5 (omega arith)))
                  λ tail b6 v6 g6 h6.
                    Post-seq _ _ b6 (wire-Post tail header b6 v6 (omega arith)) λ b7 v7 g7.
                      Post-seq _ _ b7 (pop_loop-Post b7 v7)
                        λ b8 v8 g8. Post-pure exit b8 v8 (omega arith)

unfoldable pub CatchBody : Option (ℕ → M ℕ) → Type 0
CatchBody none = Unit {0}
CatchBody (some body) = Body body

abbrev pub Any : ℕ → List ℕ → Type 0
Any n ts = Unit {0}

build_catch-Post :
    (c : Option (ℕ → M ℕ))
    → CatchBody c
    → (entry : ℕ) (b : Builder) → Valid b
    → entry < size b
    → Post Any b (build_catch c entry b)
unfolding build_catch CatchBody
build_catch-Post none hc entry b v h =
    Post-seq _ _ b (set_return-Post b v entry) λ b1 v1 g1. Post-pure [] b1 v1 tt
build_catch-Post (some body) hc entry b v h =
    Post-bind _ _ b (Post-attempt _ b (hc entry b v h))
      λ t b1 v1 g1 h1. Post-pure (point_of t) b1 v1 tt

pub build_try_post :
    (stmt : Stmt) (body : ℕ → M ℕ) (c : Option (ℕ → M ℕ))
    → Body body
    → CatchBody c
    → Body (build_try stmt body c)
unfolding build_try
build_try_post stmt body c hb hc current b v h =
    Post-seq _ _ b (push_stmt-Post b v current stmt) λ b1 v1 g1.
      Post-bind _ _ b1 (new_block-Post b1 v1) λ try_entry b2 v2 g2 h2.
        Post-bind _ _ b2 (new_block-Post b2 v2) λ catch_entry b3 v3 g3 h3.
          Post-seq _ _ b3 (set_branch-Post b3 v3 current _ (two_in_range (omega arith) h3))
            λ b4 v4 g4.
              Post-bind _ _ b4 (Post-attempt _ b4 (hb try_entry b4 v4 (omega arith)))
                λ t b5 v5 g5 h5.
                  Post-bind _ _ b5 (build_catch-Post c hc catch_entry b5 v5 (omega arith))
                    λ caught b6 v6 g6 h6. converge-Post (point_of t ++ caught) b6 v6

pub build_match-Post :
    (stmt : Stmt) (arms : M Branches)
    → ((b : Builder) → Valid b → Post Entries b (arms b))
    → Body (build_match stmt arms)
unfolding build_match
build_match-Post stmt arms ha current b v h =
    Post-seq _ _ b (push_stmt-Post b v current stmt) λ b1 v1 g1.
      Post-bind _ _ b1 (ha b1 v1) λ bs b2 v2 g2 h2.
        Post-seq _ _ b2 (set_branch-Post b2 v2 current bs.targets h2)
          λ b3 v3 g3. converge-Post bs.points b3 v3

pub AllInRange-append :
    {n : ℕ} (xs ys : List ℕ) → AllInRange n xs → AllInRange n ys → AllInRange n (xs ++ ys)
AllInRange-append xs ys hx hy t k = elim ((contains-append xs ys t).0 k) [
  | inl l ↦ hx t l
  | inr r ↦ hy t r
]

pub AllInRange-cons : {n x : ℕ} (xs : List ℕ) → x < n → AllInRange n xs → AllInRange n (x ∷ xs)
AllInRange-cons {n} {x} xs h hs t k = elim ((contains-cons x xs t).0 k) [
  | inl same ↦ subst (λ z. z < n) same h
  | inr rest ↦ hs t rest
]

pub AllInRange-nil : {n : ℕ} → AllInRange n []
AllInRange-nil t k = cc (contains-nil t)

pub AllInRange-mono : {n m : ℕ} (xs : List ℕ) → n ≤ m → AllInRange n xs → AllInRange m xs
AllInRange-mono xs le h t k = omega (arith, h t k)

pub finish_if-Post :
    (current : ℕ) (e : Bool) (bs : Branches) (b : Builder)
    → Valid b
    → Entries (size b) bs
    → Post InRange b (finish_if current e bs b)
unfolding finish_if
finish_if-Post current true bs b v h =
    Post-seq _ _ b (set_branch-Post b v current bs.targets h)
      λ b1 v1 g1. converge-Post bs.points b1 v1
finish_if-Post current false bs b v h = Post-bind _ _ b (new_block-Post b v) λ skip b1 v1 g1 h1.
    Post-seq _ _ b1
      (set_branch-Post b1 v1 current (bs.targets ++ skip ∷ []) (
        AllInRange-append bs.targets (skip ∷ []) (AllInRange-mono bs.targets g1 h)
          (AllInRange-cons [] h1 AllInRange-nil)))
      λ b2 v2 g2. converge-Post (bs.points ++ skip ∷ []) b2 v2

jump-Post :
    (o : Option ℕ) (current : ℕ) (b : Builder)
    → Valid b
    → ((t : ℕ) → o ≡ some t → t < size b)
    → Post Done b (jump o current b)
unfolding jump
jump-Post none current b v h = set_unreachable-Post b v current
jump-Post (some t) current b v h = set_goto-Post b v current t (h t refl)

pub build_break_post : (stmt : Stmt) → Body (build_break stmt)
unfolding build_break
build_break_post stmt current b v h = Post-seq _ _ b (push_stmt-Post b v current stmt) λ b1 v1 g1.
    Post-bind _ _ b1 (last_loop-Post b1 v1) λ l b2 v2 g2 h2.
      Post-seq _ _ b2 (jump-Post (exit_of l) current b2 v2 (exits l h2)) λ b3 v3 g3. Post-stop b3 v3
  where
    exits :
        {n : ℕ} (l : Option (ℕ × ℕ))
        → ((x : ℕ × ℕ) → l ≡ some x → InLoop n x)
        → (t : ℕ) → exit_of l ≡ some t
        → t < n
    exits none hl t e = absurd (cc e)
    exits {n} (some x) hl t e = subst (λ z. z < n) (some_inj.0 e) (hl x refl).1

pub build_continue_post : (stmt : Stmt) → Body (build_continue stmt)
unfolding build_continue
build_continue_post stmt current b v h =
    Post-seq _ _ b (push_stmt-Post b v current stmt) λ b1 v1 g1.
      Post-bind _ _ b1 (last_loop-Post b1 v1) λ l b2 v2 g2 h2.
        Post-seq _ _ b2 (jump-Post (header_of l) current b2 v2 (headers l h2))
          λ b3 v3 g3. Post-stop b3 v3
  where
    headers :
        {n : ℕ} (l : Option (ℕ × ℕ))
        → ((x : ℕ × ℕ) → l ≡ some x → InLoop n x)
        → (t : ℕ) → header_of l ≡ some t
        → t < n
    headers none hl t e = absurd (cc e)
    headers {n} (some x) hl t e = subst (λ z. z < n) (some_inj.0 e) (hl x refl).0

pub build_return_post : (stmt : Stmt) → Body (build_return stmt)
unfolding build_return
build_return_post stmt current b v h =
    Post-seq _ _ b (push_stmt-Post b v current stmt)
      λ b1 v1 g1. Post-seq _ _ b1 (set_return-Post b1 v1 current) λ b2 v2 g2. Post-stop b2 v2

pub build_straight_post : (stmt : Stmt) → Body (build_straight stmt)
unfolding build_straight
build_straight_post stmt current b v h =
    Post-seq _ _ b (push_stmt-Post b v current stmt)
      λ b1 v1 g1. Post-pure current b1 v1 (omega arith)
