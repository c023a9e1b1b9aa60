-- ===== src/Errors/Exec/Moves.antt =====
-- A method moves an object along a preorder: one rule for each way to build a method.
use axor_wrap.Errors.{Error, Result, ok, err}
use axor_wrap.Errors.Exec.{Exec, pure, raise, modify, continue, ◌>>=◌}

-- `R` relates the state before a call to the state after it, whether the call returns or raises.
pub record Moves {ℓ κ} {S : Type ℓ} {A : Type κ} (R : S → S → Type ℓ) (m : Exec S A)
    : Type (ℓ ⊔ κ) where
  pub at : (s : S) → R s (m s).1

module _ {ℓ} {S : Type ℓ} {R : S → S → Type ℓ} (R_refl : (s : S) → R s s) where
  pub Moves-pure {κ} : {A : Type κ} (a : A) → Moves R (pure a)
  unfolding pure
  Moves-pure a = record { at = R_refl }

  pub Moves-raise {κ} : {A : Type κ} (e : Error) → Moves R (raise {A = A} e)
  unfolding raise
  Moves-raise e = record { at = R_refl }

  continue-moves {κ μ} :
      {A : Type κ} {B : Type μ} (r : Result A) (f : A → Exec S B) (t : S)
      → ((a : A) → Moves R (f a))
      → R t (continue r f t).1
  continue-moves (ok a) f t k = (k a).at t
  continue-moves (err e) f t k = R_refl t

pub Moves-modify {ℓ} :
    {S : Type ℓ} {R : S → S → Type ℓ} (f : S → S) → ((s : S) → R s (f s)) → Moves R (modify f)
unfolding modify
Moves-modify f h = record { at = h }

module _ {ℓ} {S : Type ℓ} {R : S → S → Type ℓ} (R_refl : (s : S) → R s s)
    (R_trans : (s t u : S) → R s t → R t u → R s u) where
  pub Moves-bind {κ μ} :
      {A : Type κ} {B : Type μ} (m : Exec S A) (f : A → Exec S B)
      → Moves R m
      → ((a : A) → Moves R (f a))
      → Moves R (m >>= f)
  unfolding ◌>>=◌
  Moves-bind m f h k = record {
    at = λ s.
        let (r, t) = m s in R_trans s t (continue r f t).1 (h.at s) (continue-moves R_refl r f t k);
  }
