-- ===== src/Analysis/Passes.antt =====
-- `analyse` of crates/core/src/sema/mod.rs: seven passes, each run only if those before report nothing.
-- Passes 1, 3 and 4 (name resolution, type inference, tiers) are not modelled; of each only whether it
-- reports errors on the program counts here, and that is a parameter.
use ubel_stratum.Common.{
  Bool, true, false, List, [], ◌∷◌, ◌≡◌, ◌≢◌, refl, ◌↔◌, Among, String, string_eq, find, some,
  is_empty, if◌then◌else◌, Bool-cases, inl, inr,
}
use ubel_stratum.Ast.{Item, Program, FunctionDecl, Args}
use ubel_stratum.Points.{Point}
use ubel_stratum.Lifetimes
use ubel_stratum.Lifetimes.Check.{LifetimeError}
use ubel_stratum.Lifetimes.Accepts.{ItemIsWellFormed}
use ubel_stratum.Outlives
use ubel_stratum.Outlives.{function_table, call_pairs, caller_of, resolve_boundary_value}
use ubel_stratum.Outlives.Accepts.{LastsAreSound}
use ubel_stratum.Outlives.Safety.{CallsAt, calls-LastsAreSound}
use ubel_stratum.Analysis.{Outcome, accepted, borrow_errors, move_errors, check_low_tier}
use ubel_stratum.Analysis.Accepts.{BorrowConflict, MovedUse, check_low_tier-accepted}

-- Whether the passes that are not modelled report errors.
pub record OtherPasses : Type 0 where
  pub resolution_fails : Program → Bool
  pub inference_fails : Program → Bool
  pub tiers_fail : Program → Bool

pub data Report : Type 0 where
  all_accepted resolution_errors inference_errors tier_errors : Report
  lifetime_errors : List LifetimeError → Report
  low_tier_errors : Outcome → Report
  outlives_errors : List Outlives.Violation → Report

unfoldable pub after_outlives : List Outlives.Violation → Report
after_outlives [] = all_accepted
after_outlives (v ∷ vs) = outlives_errors (v ∷ vs)

unfoldable pub after_low_tier : Outcome → Report → Report
after_low_tier accepted next = next
after_low_tier (borrow_errors vs) next = low_tier_errors (borrow_errors vs)
after_low_tier (move_errors vs) next = low_tier_errors (move_errors vs)

unfoldable pub after_lifetimes : List LifetimeError → Report → Report
after_lifetimes [] next = next
after_lifetimes (e ∷ es) next = lifetime_errors (e ∷ es)

unfoldable pub analyse : OtherPasses → Program → Report
unfolding after_lifetimes after_low_tier after_outlives
analyse other program =
    if other.resolution_fails program
    then resolution_errors
    else after_lifetimes (Lifetimes.Check.check program) (
        if other.inference_fails program
        then inference_errors
        else if other.tiers_fail program
        then tier_errors
        else after_low_tier (check_low_tier program)
            (after_outlives (Outlives.check_program program)))

module _ (other : OtherPasses) (program : Program) where
  abbrev pub AllWellFormed : Type 0
  AllWellFormed = (item : Item) → Among item program → ItemIsWellFormed item

  abbrev pub NothingInTheWay : Type 0
  NothingInTheWay = (BorrowConflict program → ⊥) × (MovedUse program → ⊥)

  -- At every call of a function that declares lifetimes, the last values bound to them are sound.
  abbrev pub CallsAreSound : Type 0
  CallsAreSound =
      (f g : FunctionDecl) (point : Point) (name : String) (args : Args)
      → CallsAt program f point name args
      → find name (function_table program []) ≡ some g
      → is_empty g.lifetime_params ≡ false
      → LastsAreSound g.lifetime_params (call_pairs g.lifetime_params g.params args)
          (resolve_boundary_value (caller_of f) point)

  -- What a program keeps to where the first four passes report nothing.
  pub record PassesFour : Type 0 where
    pub resolves : other.resolution_fails program ≡ false
    pub well_formed : AllWellFormed
    pub infers : other.inference_fails program ≡ false
    pub tiers : other.tiers_fail program ≡ false

  -- What each report says: which rules the program keeps to and which it breaks.
  pub data Explains : Report → Type 0 where
    unresolved : other.resolution_fails program ≡ true → Explains resolution_errors
    ill_formed :
        (es : List LifetimeError)
        → other.resolution_fails program ≡ false
        → (AllWellFormed → ⊥)
        → Explains (lifetime_errors es)
    ill_typed :
        other.resolution_fails program ≡ false
        → AllWellFormed
        → other.inference_fails program ≡ true
        → Explains inference_errors
    ill_tiered :
        other.resolution_fails program ≡ false
        → AllWellFormed
        → other.inference_fails program ≡ false
        → other.tiers_fail program ≡ true
        → Explains tier_errors
    conflicting : (o : Outcome) → PassesFour → (NothingInTheWay → ⊥) → Explains (low_tier_errors o)
    unsound :
        (vs : List Outlives.Violation)
        → PassesFour
        → NothingInTheWay
        → vs ≢ []
        → Explains (outlives_errors vs)
    sound : PassesFour → NothingInTheWay → CallsAreSound → Explains all_accepted

  last_pass :
      (vs : List Outlives.Violation)
      → PassesFour
      → NothingInTheWay
      → (vs ≡ [] → CallsAreSound)
      → Explains (after_outlives vs)
  unfolding after_outlives
  last_pass [] four clear calls = sound four clear (calls refl)
  last_pass (v ∷ vs) four clear calls = unsound (v ∷ vs) four clear (λ e. cc)

  low_tier_pass :
      (o : Outcome) (next : Report)
      → PassesFour
      → ((o ≡ accepted) ↔ NothingInTheWay)
      → (NothingInTheWay → Explains next)
      → Explains (after_low_tier o next)
  unfolding after_low_tier
  low_tier_pass accepted next four clear rest = rest (clear.0 refl)
  low_tier_pass (borrow_errors vs) next four clear rest =
      conflicting (borrow_errors vs) four (λ h. cc (clear.1 h))
  low_tier_pass (move_errors vs) next four clear rest =
      conflicting (move_errors vs) four (λ h. cc (clear.1 h))

  lifetime_pass :
      (es : List LifetimeError) (next : Report)
      → other.resolution_fails program ≡ false
      → ((es ≡ []) ↔ AllWellFormed)
      → (AllWellFormed → Explains next)
      → Explains (after_lifetimes es next)
  unfolding after_lifetimes
  lifetime_pass [] next resolves formed rest = rest (formed.0 refl)
  lifetime_pass (e ∷ es) next resolves formed rest =
      ill_formed (e ∷ es) resolves (λ h. cc (formed.1 h))

  pub analyse-Explains : Explains (analyse other program)
  unfolding analyse
  analyse-Explains = elim (Bool-cases (other.resolution_fails program)) [
    | inl r ↦ rw r (unresolved r)
    | inr r ↦ rw r (
        lifetime_pass (Lifetimes.Check.check program) _ r (Lifetimes.Accepts.check-eq-nil program)
          (λ formed. later r formed))
  ]
    where
      later :
          other.resolution_fails program ≡ false
          → AllWellFormed
          → Explains (
              if other.inference_fails program
              then inference_errors
              else if other.tiers_fail program
              then tier_errors
              else after_low_tier
                  (check_low_tier program)
                  (after_outlives (Outlives.check_program program)))
      later r formed = elim (Bool-cases (other.inference_fails program)) [
        | inl i ↦ rw i (ill_typed r formed i)
        | inr i ↦ elim (Bool-cases (other.tiers_fail program)) [
          | inl t ↦ rw (i, t) (ill_tiered r formed i t)
          | inr t ↦
              let four : PassesFour = record {
                resolves = r;
                well_formed = formed;
                infers = i;
                tiers = t;
              } in
              rw (i, t)
                (low_tier_pass (check_low_tier program) _ four (check_low_tier-accepted program)
                  (λ clear.
                    last_pass (Outlives.check_program program) four clear
                      (λ k f g point name args. calls-LastsAreSound program f g point name args k)))
        ]
      ]
