-- ===== src/Cfg/Totals.antt =====
-- Which methods of the builder always return a block, and the rules for `?` and for calls whose
-- result is looked at.
use ubel_stratum.Common.{
  ℕ, Bool, true, false, not, ◌&&◌, List, [], ◌∷◌, ◌≡◌, refl, inl, inr, arith, Option, none, some,
  is_empty, Option-cases,
}
use ubel_stratum.Ast.{Stmt}
use ubel_stratum.Cfg.Builder.{
  Builder, M, ◌>>=◌, ◌>>◌, pure, stop, attempt, new_block, set_terminator, push_stmt, push_loop,
  pop_loop, last_loop,
}
use ubel_stratum.Cfg.Build.{
  goto_all, converge, wire, build_conditional_loop, build_unconditional_loop, jump,
}

abbrev pub is_some : {A : Type 0} → Option A → Bool
is_some none = false
is_some (some a) = true

abbrev pub Gives : {A : Type 0} → Bool → M A → Type 0
Gives x m = (b : Builder) → is_some (m b).0 ≡ x

abbrev pub Yields : {A : Type 0} → (A → Type 0) → M A → Type 0
Yields {A = A} P m = (b : Builder) → (a : A) × ((m b).0 ≡ some a) × P a

module _ {A B : Type 0} {P : A → Type 0} where
  pub Gives-bind :
      (x : Bool) (m : M A) (f : A → M B)
      → Yields P m
      → ((a : A) → P a → Gives x (f a))
      → Gives x (m >>= f)
  unfolding ◌>>=◌
  Gives-bind x m f y k b = let (a, e, p) = y b in rw (e, ◌>>=◌) (k a p (m b).1)

  pub Yields-bind :
      {Q : B → Type 0} (m : M A) (f : A → M B)
      → Yields P m
      → ((a : A) → P a → Yields Q (f a))
      → Yields Q (m >>= f)
  unfolding ◌>>=◌
  Yields-bind m f y k b = let (a, e, p) = y b in rw (e, ◌>>=◌) (k a p (m b).1)

pub Gives-attempt :
    {A : Type 0} (x : Bool) (m : M A) → Gives x m → Yields (λ o. is_some o ≡ x) (attempt m)
unfolding attempt
Gives-attempt x m g b = ((m b).0, refl, g b)

pub Gives-and :
    {A B : Type 0} (x y : Bool) (m : M A) (f : A → M B)
    → Gives x m
    → ((a : A) → Gives y (f a))
    → Gives (x && y) (m >>= f)
unfolding ◌>>=◌
Gives-and x y m f g k b = elim (Option-cases (m b).0) [
  | inl stopped ↦ let e = g b in rw (stopped, ◌>>=◌) (ground (arith, rw stopped at e))
  | inr (a, e) ↦ let h = g b in let l = k a (m b).1 in rw (e, ◌>>=◌) (ground (arith, rw e at h))
]

-- Methods that always return.
abbrev pub Total : {A : Type 0} → M A → Type 0
Total = Yields (λ _. Unit {0})

module _ {A B : Type 0} where
  pub Gives-seq : (x : Bool) (m : M A) (k : M B) → Total m → Gives x k → Gives x (m >> k)
  unfolding ◌>>◌
  Gives-seq x m k y h = Gives-bind x m (λ _. k) y λ a u. h

  pub Yields-seq : {Q : B → Type 0} (m : M A) (k : M B) → Total m → Yields Q k → Yields Q (m >> k)
  unfolding ◌>>◌
  Yields-seq m k y h = Yields-bind m (λ _. k) y λ a u. h

pub Yields-pure : {A : Type 0} {P : A → Type 0} (a : A) → P a → Yields P (pure a)
unfolding pure
Yields-pure a p b = (a, refl, p)

pub Total-attempt : {A : Type 0} (m : M A) → Total (attempt m)
unfolding attempt
Total-attempt m b = ((m b).0, refl, tt)

pub Total-new_block : Total new_block
unfolding new_block
Total-new_block b = (_, refl, tt)

pub Total-set_terminator : (id : ℕ) (t : _) → Total (set_terminator id t)
unfolding set_terminator
Total-set_terminator id t b = (_, refl, tt)

pub Total-push_stmt : (id : ℕ) (s : Stmt) → Total (push_stmt id s)
unfolding push_stmt
Total-push_stmt id s b = (_, refl, tt)

pub Total-push_loop : (header exit : ℕ) → Total (push_loop header exit)
unfolding push_loop
Total-push_loop header exit b = (_, refl, tt)

pub Total-pop_loop : Total pop_loop
unfolding pop_loop
Total-pop_loop b = (_, refl, tt)

pub Total-last_loop : Total last_loop
unfolding last_loop
Total-last_loop b = (_, refl, tt)

pub Gives-pure : {A : Type 0} (a : A) → Gives true (pure a)
unfolding pure
Gives-pure a b = refl

pub Gives-stop : Gives {A = ℕ} false stop
unfolding stop
Gives-stop b = refl

pub Total-goto_all : (after : ℕ) (ps : List ℕ) → Total (goto_all after ps)
unfolding goto_all
Total-goto_all after [] = Yields-pure tt tt
Total-goto_all after (p ∷ ps) = Yields-seq _ _ (Total-set_terminator p _) (Total-goto_all after ps)

pub Total-wire : (tail : Option ℕ) (target : ℕ) → Total (wire tail target)
unfolding wire
Total-wire none target = Yields-pure tt tt
Total-wire (some t) target = Total-set_terminator t _

pub Total-jump : (target : Option ℕ) (current : ℕ) → Total (jump target current)
unfolding jump
Total-jump none current = Total-set_terminator current _
Total-jump (some t) current = Total-set_terminator current _

pub Gives-converge : (ps : List ℕ) → Gives (not (is_empty ps)) (converge ps)
unfolding converge
Gives-converge [] = Gives-stop
Gives-converge (p ∷ ps) =
    Gives-bind true _ _ Total-new_block
      λ after u. Gives-seq true _ _ (Total-goto_all after (p ∷ ps)) (Gives-pure after)

pub Gives-build_conditional_loop :
    (s : Stmt) (body : ℕ → M ℕ) (current : ℕ) → Gives true (build_conditional_loop s body current)
unfolding build_conditional_loop
Gives-build_conditional_loop s body current = Gives-seq true _ _ (Total-push_stmt current s) (
    Gives-bind true _ _ Total-new_block λ header _.
      Gives-seq true _ _ (Total-set_terminator current _) (
        Gives-bind true _ _ Total-new_block λ entry _. Gives-bind true _ _ Total-new_block λ exit _.
          Gives-seq true _ _ (Total-set_terminator header _) (
            Gives-seq true _ _ (Total-push_loop header exit) (
              Gives-bind true _ _ (Total-attempt (body entry)) λ tail _.
                Gives-seq true _ _ (Total-wire tail header)
                  (Gives-seq true _ _ Total-pop_loop (Gives-pure exit))))))

pub Gives-build_unconditional_loop :
    (s : Stmt) (body : ℕ → M ℕ) (current : ℕ) → Gives true (build_unconditional_loop s body current)
unfolding build_unconditional_loop
Gives-build_unconditional_loop s body current = Gives-seq true _ _ (Total-push_stmt current s) (
    Gives-bind true _ _ Total-new_block λ header _.
      Gives-seq true _ _ (Total-set_terminator current _) (
        Gives-bind true _ _ Total-new_block λ exit _.
          Gives-seq true _ _ (Total-push_loop header exit) (
            Gives-bind true _ _ (Total-attempt (body header)) λ tail _.
              Gives-seq true _ _ (Total-wire tail header)
                (Gives-seq true _ _ Total-pop_loop (Gives-pure exit)))))
