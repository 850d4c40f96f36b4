-- ===== src/Cfg/Branching.antt =====
-- Which of the branches collected so far falls through, and what that gives for the methods that
-- join them.
use ubel_stratum.Common.{
  ℕ, Bool, true, false, not, ◌&&◌, ◌||◌, List, [], ◌∷◌, ◌++◌, ◌≡◌, refl, arith, Option, none, some,
  is_empty, ◌∙◌,
}
use ubel_stratum.Ast.{Stmt, ElseBody, no_else, else_body}
use ubel_stratum.Cfg.Totals.{
  is_some, Gives, Yields, Gives-bind, Yields-bind, Gives-attempt, Gives-seq, Yields-seq,
  Yields-pure, Total-new_block, Total-set_terminator, Total-push_stmt, Total-last_loop, Gives-pure,
  Gives-stop, Total-jump, Gives-converge,
}
use ubel_stratum.Cfg.Builder.{M}
use ubel_stratum.Cfg.Build.{
  Branches, point_of, add_branch, converge, build_catch, build_try, build_match, finish_if,
  has_else, exit_of, header_of, build_break, build_continue, build_return, build_straight,
}
use ubel_stratum.Cfg.Passes.{else_passes}

module _ (current : ℕ) where
  pub Gives-build_straight : (s : Stmt) → Gives true (build_straight s current)
  unfolding build_straight
  Gives-build_straight s = Gives-seq true _ _ (Total-push_stmt current s) (Gives-pure current)

  pub Gives-build_return : (s : Stmt) → Gives false (build_return s current)
  unfolding build_return
  Gives-build_return s =
      Gives-seq false _ _ (Total-push_stmt current s)
        (Gives-seq false _ _ (Total-set_terminator current _) Gives-stop)

  pub Gives-build_break : (s : Stmt) → Gives false (build_break s current)
  unfolding build_break
  Gives-build_break s = Gives-seq false _ _ (Total-push_stmt current s) (
      Gives-bind false _ _ Total-last_loop
        λ l _. Gives-seq false _ _ (Total-jump (exit_of l) current) Gives-stop)

  pub Gives-build_continue : (s : Stmt) → Gives false (build_continue s current)
  unfolding build_continue
  Gives-build_continue s = Gives-seq false _ _ (Total-push_stmt current s) (
      Gives-bind false _ _ Total-last_loop
        λ l _. Gives-seq false _ _ (Total-jump (header_of l) current) Gives-stop)

-- What the branches built so far say of whether one passes.
abbrev pub Passing : Bool → Branches → Type 0
Passing x bs = not (is_empty bs.points) ≡ x

pub Passing-cons :
    (r : ℕ × Option ℕ) (bs : Branches) (x y : Bool)
    → is_some r.1 ≡ x
    → Passing y bs
    → Passing (x || y) (add_branch r bs)
unfolding add_branch
Passing-cons (e, none) bs x y h k = ground arith
Passing-cons (e, some t) bs x y h k = ground arith

pub Gives-converge_of : (x : Bool) (bs : Branches) → Passing x bs → Gives x (converge bs.points)
Gives-converge_of x bs h b = Gives-converge bs.points b ∙ h

pub nonempty : (ps : List ℕ) (p : ℕ) → not (is_empty (ps ++ p ∷ [])) ≡ true
nonempty [] p = refl
nonempty (x ∷ ps) p = refl

pub Gives-finish_if :
    (current : ℕ) (closed x : Bool) (bs : Branches)
    → Passing x bs
    → Gives (not closed || x) (finish_if current closed bs)
unfolding finish_if
Gives-finish_if current true x bs h =
    Gives-seq x _ _ (Total-set_terminator current _) (Gives-converge_of x bs h)
Gives-finish_if current false x bs h = Gives-bind true _ _ Total-new_block λ skip _.
    Gives-seq true _ _ (Total-set_terminator current _)
      (λ b. Gives-converge (bs.points ++ skip ∷ []) b ∙ nonempty bs.points skip)

pub Gives-build_match :
    (s : Stmt) (arms : M Branches) (current : ℕ) (x : Bool)
    → Yields (Passing x) arms
    → Gives x (build_match s arms current)
unfolding build_match
Gives-build_match s arms current x h = Gives-seq x _ _ (Total-push_stmt current s) (
    Gives-bind x _ _ h
      λ bs k. Gives-seq x _ _ (Total-set_terminator current _) (Gives-converge_of x bs k))

-- The blocks that a `catch` falls through from.
abbrev pub Caught : Bool → List ℕ → Type 0
Caught y ps = not (is_empty ps) ≡ y

pub not_empty-append :
    (o : Option ℕ) (ps : List ℕ) (x y : Bool)
    → is_some o ≡ x
    → Caught y ps
    → not (is_empty (point_of o ++ ps)) ≡ x || y
not_empty-append none ps x y h k = ground arith
not_empty-append (some t) ps x y h k = ground arith

pub point_of-Caught : (o : Option ℕ) (y : Bool) → is_some o ≡ y → Caught y (point_of o)
point_of-Caught none y h = h
point_of-Caught (some t) y h = h

pub Gives-build_try :
    (s : Stmt) (body : ℕ → M ℕ) (catch_body : Option (ℕ → M ℕ)) (current : ℕ) (x y : Bool)
    → ((c : ℕ) → Gives x (body c))
    → ((c : ℕ) → Yields (Caught y) (build_catch catch_body c))
    → Gives (x || y) (build_try s body catch_body current)
unfolding build_try
Gives-build_try s body catch_body current x y h k =
    Gives-seq (x || y) _ _ (Total-push_stmt current s) (
      Gives-bind (x || y) _ _ Total-new_block λ try_entry _.
        Gives-bind (x || y) _ _ Total-new_block λ catch_entry _.
          Gives-seq (x || y) _ _ (Total-set_terminator current _) (
            Gives-bind (x || y) _ _ (Gives-attempt x _ (h try_entry)) λ t e.
              Gives-bind (x || y) _ _ (k catch_entry) λ caught l b.
                Gives-converge (point_of t ++ caught) b ∙ not_empty-append t caught x y e l))

pub no_catch : (c : ℕ) → Yields (Caught false) (build_catch none c)
unfolding build_catch
no_catch c = Yields-seq _ _ (Total-set_terminator c _) (Yields-pure [] refl)

pub with_catch :
    (body : ℕ → M ℕ) (y : Bool)
    → ((c : ℕ) → Gives y (body c))
    → (c : ℕ) → Yields (Caught y) (build_catch (some body) c)
unfolding build_catch
with_catch body y h c =
    Yields-bind _ _ (Gives-attempt y _ (h c))
      λ t e. Yields-pure (point_of t) (point_of-Caught t y e)

pub or_false : (x : Bool) → x || false ≡ x
or_false x = ground arith

pub Passing-nil : Passing false (record { targets = []; points = [] })
Passing-nil = refl

pub Passing-last :
    (r : ℕ × Option ℕ) (x : Bool)
    → is_some r.1 ≡ x
    → Passing x (add_branch r (record { targets = []; points = [] }))
Passing-last r x h = Passing-cons r _ x false h Passing-nil ∙ or_false x

pub not_empty-lists :
    (ps qs : List ℕ) → not (is_empty (ps ++ qs)) ≡ not (is_empty ps) || not (is_empty qs)
not_empty-lists [] qs = refl
not_empty-lists (p ∷ ps) qs = refl

abbrev pub joined : Branches → Branches → Branches
joined bs last = record { targets = bs.targets ++ last.targets; points = bs.points ++ last.points }

pub Passing-append :
    (bs last : Branches) (y z : Bool)
    → Passing y bs
    → Passing z last
    → Passing (y || z) (joined bs last)
Passing-append bs last y z k l = ground (arith, not_empty-lists bs.points last.points)

-- Without an `else` the statement always passes.
pub closing :
    (x y : Bool) (els : ElseBody)
    → not (has_else els) || (x || (y || (has_else els && else_passes els)))
      ≡ x || (y || else_passes els)
unfolding else_passes
closing x y no_else = ground arith
closing x y (else_body b) = refl
