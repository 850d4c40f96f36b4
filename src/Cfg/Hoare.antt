-- ===== src/Cfg/Hoare.antt =====
-- Preservation rules for the builder's monad: a method keeps the blocks linked and never drops one.
use ubel_stratum.Common.{
  ℕ, zero, suc, ◌≤◌, ◌<◌, true, List, [], ◌∷◌, ◌++◌, ◌≡◌, refl, ◌⊎◌, inl, inr, arith, Option, none,
  some, length, length-append, length-modify, modify, get_or, contains, nat_eq, contains-nil,
  Option-cases, Bool-cases, nat_beq, if◌then◌else◌, subst, ◌∙◌, Among,
}
use mathlib.Core.Option.{some_inj}
use ubel_stratum.Ast.{Stmt}
use ubel_stratum.Cfg.Types.{
  Terminator, return_term, BasicBlock, block, block_successors, dead_block,
}
use ubel_stratum.Cfg.Builder.{
  Builder, M, ◌>>=◌, ◌>>◌, pure, stop, attempt, new_block, set_terminator, push_stmt, push_loop,
  pop_loop, last_loop,
}

abbrev pub size : Builder → ℕ
size b = length b.blocks

abbrev pub InLoop : ℕ → ℕ × ℕ → Type 0
InLoop n l = (l.0 < n) × (l.1 < n)

pub record Valid (b : Builder) : Type 0 where
  pub ids : (i : ℕ) → i < size b → (block b.blocks i).id ≡ i
  pub targets : (i t : ℕ) → contains (block_successors (block b.blocks i)) t ≡ true → t < size b
  pub loops : (l : ℕ × ℕ) → Among l b.loop_stack → InLoop (size b) l

-- After a method: the result, if there is one, satisfies `P` at the number of blocks.
pub record Post {A : Type 0} (P : ℕ → A → Type 0) (b : Builder) (r : Option A × Builder)
    : Type 0 where
  pub valid : Valid r.1
  pub grows : size b ≤ size r.1
  pub result : (a : A) → r.0 ≡ some a → P (size r.1) a

module _ {A B : Type 0} {P : ℕ → A → Type 0} {Q : ℕ → B → Type 0} where
  pub Post-bind :
      (m : M A) (f : A → M B) (b : Builder)
      → Post P b (m b)
      → ((a : A) (b' : Builder) → Valid b' → size b ≤ size b' → P (size b') a → Post Q b' (f a b'))
      → Post Q b ((m >>= f) b)
  unfolding ◌>>=◌
  Post-bind m f b p k = elim (Option-cases (m b).0) [
    | inl stopped ↦
        rw (stopped, ◌>>=◌)
          (record { valid = p.valid; grows = p.grows; result = λ a e. absurd (cc e) })
    | inr (a, e) ↦
        let q = k a (m b).1 p.valid p.grows (p.result a e) in
        rw (e, ◌>>=◌)
          (record { valid = q.valid; grows = omega (arith, p.grows, q.grows); result = q.result })
  ]

  pub Post-seq :
      (m : M A) (k : M B) (b : Builder)
      → Post P b (m b)
      → ((b' : Builder) → Valid b' → size b ≤ size b' → Post Q b' (k b'))
      → Post Q b ((m >> k) b)
  unfolding ◌>>◌
  Post-seq m k b p h = Post-bind m (λ _. k) b p (λ a b' v g _. h b' v g)

module _ {A : Type 0} {P : ℕ → A → Type 0} where
  pub Post-pure : (a : A) (b : Builder) → Valid b → P (size b) a → Post P b (pure a b)
  unfolding pure
  Post-pure a b v h = record {
    valid = v;
    grows = omega arith;
    result = λ x e. subst (P (size b)) (some_inj.0 e) h;
  }

  pub Post-stop : (b : Builder) → Valid b → Post P b (stop b)
  unfolding stop
  Post-stop b v = record { valid = v; grows = omega arith; result = λ x e. absurd (cc e) }

  pub Post-attempt :
      (m : M A) (b : Builder)
      → Post P b (m b)
      → Post (λ n o. (a : A) → o ≡ some a → P n a) b (attempt m b)
  unfolding attempt
  Post-attempt m b p = record {
    valid = p.valid;
    grows = p.grows;
    result = λ o e a e'. p.result a (some_inj.0 e ∙ e');
  }

-- Any result.
abbrev pub Done : ℕ → Unit {0} → Type 0
Done n u = Unit {0}

get_or-append :
    (bs : List BasicBlock) (x : BasicBlock) (i : ℕ)
    → get_or (bs ++ x ∷ []) i dead_block
      ≡ (if nat_beq i (length bs) then x else get_or bs i dead_block)
get_or-append [] x zero = refl
get_or-append [] x (suc i) = ground arith
get_or-append (b ∷ bs) x zero = ground arith
get_or-append (b ∷ bs) x (suc i) = ground (arith, get_or-append bs x i)

get_or-modify :
    (bs : List BasicBlock) (i j : ℕ) (f : BasicBlock → BasicBlock)
    → (get_or (modify bs i f) j dead_block ≡ get_or bs j dead_block)
      ⊎ (get_or (modify bs i f) j dead_block ≡ f (get_or bs j dead_block)) × (i ≡ j)
get_or-modify [] i j f = inl refl
get_or-modify (b ∷ bs) zero zero f = inr (refl, refl)
get_or-modify (b ∷ bs) zero (suc j) f = inl refl
get_or-modify (b ∷ bs) (suc i) zero f = inl refl
get_or-modify (b ∷ bs) (suc i) (suc j) f = ground (arith, get_or-modify bs i j f)

module _ (b : Builder) (v : Valid b) where
  fresh_targets :
      (fresh : BasicBlock)
      → fresh.terminator ≡ return_term
      → (i t : ℕ)
      → contains (block_successors (get_or (b.blocks ++ fresh ∷ []) i dead_block)) t ≡ true
      → contains (block_successors (get_or b.blocks i dead_block)) t ≡ true
  unfolding block_successors
  fresh_targets fresh e i t k = elim (Bool-cases (nat_beq i (length b.blocks))) [
    | inl last ↦ absurd (cc (contains-nil t, rw (get_or-append b.blocks fresh i, last, e) at k))
    | inr other ↦ rw (get_or-append b.blocks fresh i, other) at k
  ]

  pub new_block-Post : Post (λ n a. a < n) b (new_block b)
  unfolding new_block block block_successors
  new_block-Post =
      let fresh : BasicBlock = record { id = size b; stmts = []; terminator = return_term } in
      let count = length-append b.blocks (fresh ∷ []) in
      record {
        valid = record {
          ids = λ i h. ground (arith, get_or-append b.blocks fresh i, v.ids i, count);
          targets = λ i t k.
              let old = fresh_targets fresh refl i t k in omega (arith, v.targets i t old, count);
          loops = λ l m. let (h, e) = v.loops l m in (omega (arith, count), omega (arith, count));
        };
        grows = omega (arith, count);
        result = λ a e. ground (arith, count);
      }

  -- A change of one block keeps the rest, if its own successors stay in the graph.
  modified :
      (id : ℕ) (f : BasicBlock → BasicBlock)
      → ((x : BasicBlock) → (f x).id ≡ x.id)
      → ((i t : ℕ) → contains (block_successors (f (block b.blocks i))) t ≡ true → t < size b)
      → Valid (record b { blocks = modify b.blocks id f })
  unfolding block
  modified id f same ts =
      let count = length-modify b.blocks id f in
      record {
        ids = λ i h. elim (get_or-modify b.blocks id i f) [
          | inl old ↦ rw old (v.ids i (omega (arith, count)))
          | inr (new, at) ↦
              rw new (same (get_or b.blocks i dead_block) ∙ v.ids i (omega (arith, count)))
        ];
        targets = λ i t k. elim (get_or-modify b.blocks id i f) [
          | inl old ↦ omega (arith, count, v.targets i t (rw old at k))
          | inr (new, at) ↦ omega (arith, count, ts i t (rw new at k))
        ];
        loops = λ l m. let (h, e) = v.loops l m in (omega (arith, count), omega (arith, count));
      }

  pub set_terminator-Post :
      (id : ℕ) (term : Terminator)
      → ((t : ℕ)
          → contains (block_successors (record { id = 0; stmts = []; terminator = term })) t ≡ true
          → t < size b)
      → Post Done b (set_terminator id term b)
  unfolding set_terminator block_successors
  set_terminator-Post id term ts =
      let f = λ (x : BasicBlock). record x { terminator = term } in
      record {
        valid = modified id f (λ x. refl) (λ i t k. ts t k);
        grows = omega (arith, length-modify b.blocks id f);
        result = λ a e. tt;
      }

  pub push_stmt-Post : (id : ℕ) (stmt : Stmt) → Post Done b (push_stmt id stmt b)
  unfolding push_stmt block_successors
  push_stmt-Post id stmt =
      let f = λ (x : BasicBlock). record x { stmts = x.stmts ++ stmt ∷ [] } in
      record {
        valid = modified id f (λ x. refl) (λ i t k. v.targets i t k);
        grows = omega (arith, length-modify b.blocks id f);
        result = λ a e. tt;
      }

  pub push_loop-Post :
      (header exit : ℕ) → header < size b → exit < size b → Post Done b (push_loop header exit b)
  unfolding push_loop
  push_loop-Post header exit h e = record {
    valid = record {
      ids = v.ids;
      targets = v.targets;
      loops = λ l m. elim m [
        | inl same ↦ subst (InLoop (size b)) same (h, e)
        | inr rest ↦ v.loops l rest
      ];
    };
    grows = omega arith;
    result = λ a e. tt;
  }

  pub pop_loop-Post : Post Done b (pop_loop b)
  unfolding pop_loop
  pop_loop-Post = record {
    valid = record {
      ids = v.ids;
      targets = v.targets;
      loops = λ l m. v.loops l (popped b.loop_stack l m);
    };
    grows = omega arith;
    result = λ a e. tt;
  }
    where
      popped :
          (ls : List (ℕ × ℕ)) (l : ℕ × ℕ) → Among l (elim ls [ [] ↦ [] | _ ∷ r ↦ r ]) → Among l ls
      popped [] l m = m
      popped (x ∷ ls) l m = inr m

  pub last_loop-Post : Post (λ n o. (l : ℕ × ℕ) → o ≡ some l → InLoop n l) b (last_loop b)
  unfolding last_loop
  last_loop-Post = record {
    valid = v;
    grows = omega arith;
    result = λ o e l e'. v.loops l (top b.loop_stack l (some_inj.0 e ∙ e'));
  }
    where
      top :
          (ls : List (ℕ × ℕ)) (l : ℕ × ℕ)
          → Path (Option (ℕ × ℕ)) (elim ls [ [] ↦ none | x ∷ _ ↦ some x ]) (some l)
          → Among l ls
      top [] l e = absurd (cc e)
      top (x ∷ ls) l e = inl (some_inj.0 e)
