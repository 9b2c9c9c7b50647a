-- ===== src/Base/Rows.antt =====
-- Membership of a row in a table, and two tables row by row.
use mathlib.Core.Path.{◌≡◌, refl}
use mathlib.Core.Logic.{◌↔◌, inl, inr}
use mathlib.Core.Bool.{Bool, true}
use mathlib.Core.List.{List, [], ◌∷◌}
use mathlib.Core.Option.{some}
use native.Mathlib.Omega.{arith}
use rmvpn.Base.Tests.{if◌then◌else◌, Bool-cases}
use rmvpn.Base.Lists.{any, find, change}
pub use mathlib.Core.List.{Memᴰ, Forall₂}

module _ {ℓ} {A : Type ℓ} (p : A → Bool) where
  pub find-Memᴰ : (xs : List A) (x : A) → find p xs ≡ some x → Memᴰ x xs × (p x ≡ true)
  find-Memᴰ [] x e = cc
  find-Memᴰ (y ∷ ys) x e = elim (Bool-cases (p y)) [
    | inl t ↦ (Memᴰ.head (ground (arith, t, e)), ground (arith, t, e))
    | inr f ↦ (let r = find-Memᴰ ys x (ground (arith, f, e)) in (Memᴰ.tail r.0, r.1))
  ]

  pub any-eq-true : (xs : List A) → any p xs ≡ true → (x : A) × Memᴰ x xs × (p x ≡ true)
  any-eq-true [] e = cc
  any-eq-true (y ∷ ys) e = elim (Bool-cases (p y)) [
    | inl t ↦ (y, Memᴰ.head refl, t)
    | inr f ↦ (let (x, m, t) = any-eq-true ys (ground (arith, f, e)) in (x, Memᴰ.tail m, t))
  ]

  pub any-Memᴰ : (xs : List A) (x : A) → Memᴰ x xs → p x ≡ true → any p xs ≡ true
  any-Memᴰ [] x m t = elim m [ ]
  any-Memᴰ (y ∷ ys) x (Memᴰ.head e) t = ground (arith, t, e)
  any-Memᴰ (y ∷ ys) x (Memᴰ.tail m) t = ground (arith, any-Memᴰ ys x m t)

pub any_iff {ℓ κ} :
    {A : Type ℓ} (p : A → Bool) (P : A → Type κ)
    → ((x : A) → (p x ≡ true) ↔ P x)
    → (xs : List A) → (any p xs ≡ true) ↔ ((x : A) × Memᴰ x xs × P x)
any_iff p P h xs = (
  λ e. (let (x, m, t) = any-eq-true p xs e in (x, m, (h x).0 t)),
  λ (x, m, t). any-Memᴰ p xs x m ((h x).1 t),
)

pub change-Forall₂ {ℓ κ} :
    {A : Type ℓ} (R : A → A → Type κ) (p : A → Bool) (f : A → A)
    → ((x : A) → R x (if p x then f x else x))
    → (xs : List A) → Forall₂ R xs (change p f xs)
change-Forall₂ R p f r [] = Forall₂.nil
change-Forall₂ R p f r (x ∷ xs) = Forall₂.cons (r x) (change-Forall₂ R p f r xs)
