-- ===== src/Prelude/Table/Rows.antt =====
-- The statements, and how the number of rows that meet a condition moves under them.
use Prim.Native.Nat.{ℕ, ◌+◌, ◌≤◌}
use mathlib.Core.Path.{◌≡◌, refl, ap, subst}
use mathlib.Core.List.{List, [], ◌∷◌, ◌++◌}
use mathlib.Core.Logic.{inl, inr}
use mathlib.Core.Bool.{Bool, true, false, ◌&&◌}
use mathlib.Core.Option.{Option, none, some}
use native.Mathlib.Omega.{arith}
use persistent_harness.Prelude.Tests.{if◌then◌else◌, Bool-cases, is_some}
use persistent_harness.Prelude.Lists.{All}

module _ {ℓ} {A : Type ℓ} where
  unfoldable pub select : (A → Bool) → List A → List A
  select p [] = []
  select p (x ∷ xs) = let rest = select p xs in if p x then x ∷ rest else rest

  unfoldable pub first : (A → Bool) → List A → Option A
  first p [] = none
  first p (x ∷ xs) = if p x then some x else first p xs

  unfoldable pub count : (A → Bool) → List A → ℕ
  count p [] = 0
  count p (x ∷ xs) = (if p x then 1 else 0) + count p xs

  unfoldable pub update : (A → Bool) → (A → A) → List A → List A
  update p f [] = []
  update p f (x ∷ xs) = (if p x then f x else x) ∷ update p f xs

pub some_inj {ℓ} : {A : Type ℓ} {a b : A} → some a ≡ some b → a ≡ b
some_inj h = cc

module _ {ℓ} {A : Type ℓ} where
  pub count-append : (p : A → Bool) (xs ys : List A) → count p (xs ++ ys) ≡ count p xs + count p ys
  unfolding count
  count-append p [] ys = omega arith
  count-append p (x ∷ xs) ys = omega (arith, count-append p xs ys)

  pub count-none : (p : A → Bool) (xs : List A) → first p xs ≡ none → count p xs ≡ 0
  unfolding count first
  count-none p [] h = refl
  count-none p (x ∷ xs) h = ground (arith, count-none p xs)

  pub first-none : (p : A → Bool) (xs : List A) → count p xs ≡ 0 → first p xs ≡ none
  unfolding count first
  first-none p [] h = refl
  first-none p (x ∷ xs) h = ground (arith, first-none p xs)

  pub first-sat : (p : A → Bool) (xs : List A) (x : A) → first p xs ≡ some x → p x ≡ true
  unfolding first
  first-sat p [] x h = cc
  first-sat p (y ∷ xs) x h = ground (arith, first-sat p xs x)

  pub first-All {κ} :
      (P : A → Type κ) (p : A → Bool) (xs : List A) (x : A) → All P xs → first p xs ≡ some x → P x
  unfolding first
  first-All P p [] x a h = absurd (cc)
  first-All P p (y ∷ xs) x a h = elim (Bool-cases (p y)) [
    | inl e ↦ subst P (some_inj (rw e at h)) a.0
    | inr e ↦ first-All P p xs x a.1 (rw e at h)
  ]

  pub All-append {κ} : (P : A → Type κ) (xs ys : List A) → All P xs → All P ys → All P (xs ++ ys)
  All-append P [] ys hx hy = hy
  All-append P (x ∷ xs) ys hx hy = (hx.0, All-append P xs ys hx.1 hy)

  pub All-select {κ} :
      (P : A → Type κ) (p : A → Bool) (xs : List A) → All P xs → All P (select p xs)
  unfolding select
  All-select P p [] a = tt
  All-select P p (x ∷ xs) a = elim (Bool-cases (p x)) [
    | inl e ↦ rw e (a.0, All-select P p xs a.1)
    | inr e ↦ rw e (All-select P p xs a.1)
  ]

  pub All-update {κ} :
      (P : A → Type κ) (p : A → Bool) (f : A → A) (xs : List A)
      → ((x : A) → p x ≡ true → P x → P (f x))
      → All P xs
      → All P (update p f xs)
  unfolding update
  All-update P p f [] h a = tt
  All-update P p f (x ∷ xs) h a = elim (Bool-cases (p x)) [
    | inl e ↦ (rw e (h x e a.0), All-update P p f xs h a.1)
    | inr e ↦ (rw e a.0, All-update P p f xs h a.1)
  ]

  pub All-mono {κ μ} :
      (P : A → Type κ) (Q : A → Type μ) (xs : List A) → ((x : A) → P x → Q x) → All P xs → All Q xs
  All-mono P Q [] h a = tt
  All-mono P Q (x ∷ xs) h a = (h x a.0, All-mono P Q xs h a.1)

  -- A count does not grow where the new row meets the condition only if the old one did.
  pub count-update-le :
      (q p : A → Bool) (f : A → A) (xs : List A)
      → ((x : A) → p x ≡ true → q (f x) ≡ true → q x ≡ true)
      → count q (update p f xs) ≤ count q xs
  unfolding count update
  count-update-le q p f [] h = omega arith
  count-update-le q p f (x ∷ xs) h = ground (arith, h x, count-update-le q p f xs h)

  pub count-update-eq :
      (q p : A → Bool) (f : A → A) (xs : List A)
      → ((x : A) → p x ≡ true → q (f x) ≡ q x)
      → count q (update p f xs) ≡ count q xs
  unfolding count update
  count-update-eq q p f [] h = refl
  count-update-eq q p f (x ∷ xs) h = ground (arith, h x, count-update-eq q p f xs h)

  pub count-select-le : (q p : A → Bool) (xs : List A) → count q (select p xs) ≤ count q xs
  unfolding count select
  count-select-le q p [] = omega arith
  count-select-le q p (x ∷ xs) = ground (arith, count-select-le q p xs)

  -- One more row keeps a bound of 1 where it only meets the condition if no row did.
  pub count-append_le_one :
      (q : A → Bool) (x : A) (xs : List A)
      → (q x ≡ true → count q xs ≡ 0)
      → count q xs ≤ 1
      → count q (xs ++ x ∷ []) ≤ 1
  unfolding count
  count-append_le_one q x xs fresh h = ground (arith, count-append q xs (x ∷ []))

  -- The first row that meets a condition meets it after an update that keeps the condition.
  pub first-update-is_some :
      (q p : A → Bool) (f : A → A) (xs : List A)
      → ((x : A) → q (f x) ≡ q x)
      → is_some (first q (update p f xs)) ≡ is_some (first q xs)
  unfolding first update
  first-update-is_some q p f [] h = refl
  first-update-is_some q p f (x ∷ xs) h = ground (arith, h x, first-update-is_some q p f xs h)

  pub first-append-is_some :
      (q : A → Bool) (xs ys : List A)
      → is_some (first q xs) ≡ true
      → is_some (first q (xs ++ ys)) ≡ true
  unfolding first
  first-append-is_some q [] ys h = cc
  first-append-is_some q (x ∷ xs) ys h = ground (arith, first-append-is_some q xs ys)

  abbrev pub changed : (A → A) → Option A → Option A
  changed f none = none
  changed f (some x) = some (f x)

  -- The updated row is the first one still, where the update keeps the condition.
  pub first-update_self :
      (q : A → Bool) (f : A → A) (xs : List A)
      → ((x : A) → q x ≡ true → q (f x) ≡ true)
      → first q (update q f xs) ≡ changed f (first q xs)
  unfolding first update
  first-update_self q f [] h = refl
  first-update_self q f (x ∷ xs) h = elim (Bool-cases (q x)) [
    | inl e ↦ rw e (rw (h x e))
    | inr e ↦ rw e (rw e (first-update_self q f xs h))
  ]

  -- The first row that meets a condition, after an update that keeps the condition both ways.
  pub first-update :
      (q p : A → Bool) (f : A → A) (xs : List A)
      → ((x : A) → q (f x) ≡ q x)
      → first q (update p f xs) ≡ changed (λ x. if p x then f x else x) (first q xs)
  unfolding first update
  first-update q p f [] h = refl
  first-update q p f (x ∷ xs) h = elim (Bool-cases (p x)) [
    | inl e ↦
        rw (e, h x)
          (elim (Bool-cases (q x)) [
            | inl hit ↦ rw (hit, e)
            | inr miss ↦ rw miss (first-update q p f xs h)
          ])
    | inr e ↦ rw e (elim (Bool-cases (q x)) [
      | inl hit ↦ rw (hit, e)
      | inr miss ↦ rw miss (first-update q p f xs h)
    ])
  ]

  pub first-append :
      (q : A → Bool) (xs ys : List A) (x : A) → first q xs ≡ some x → first q (xs ++ ys) ≡ some x
  unfolding first
  first-append q [] ys x h = cc
  first-append q (y ∷ xs) ys x h = elim (Bool-cases (q y)) [
    | inl e ↦ rw e (rw e at h)
    | inr e ↦ rw e (first-append q xs ys x (rw e at h))
  ]

  none_hit :
      (q : A → Bool) (y : A) (xs : List A) → q y ≡ true → count q (y ∷ xs) ≤ 1 → count q xs ≡ 0
  unfolding count
  none_hit q y xs e u = ground arith

  none_missed :
      (q : A → Bool) (y : A) (xs : List A) → q y ≡ false → count q (y ∷ xs) ≤ 1 → count q xs ≤ 1
  unfolding count
  none_missed q y xs e u = ground arith

  first-and_none :
      (q p : A → Bool) (xs : List A) → count q xs ≡ 0 → first (λ y. q y && p y) xs ≡ none
  unfolding first count
  first-and_none q p [] u = refl
  first-and_none q p (y ∷ xs) u = ground (arith, first-and_none q p xs)

  -- Where a condition picks one row, a stronger one picks that row or none.
  pub first_unique :
      (q p : A → Bool) (xs : List A) (x : A)
      → count q xs ≤ 1
      → first q xs ≡ some x
      → first (λ y. q y && p y) xs ≡ (if p x then some x else none)
  unfolding first count
  first_unique q p [] x u h = cc
  first_unique q p (y ∷ xs) x u h = elim (Bool-cases (q y)) [
    | inl e ↦
        rw (e, first-and_none q p xs (none_hit q y xs e u))
          (ap (λ z. if p z then some z else none) (some_inj (rw e at h)))
    | inr e ↦ rw e (first_unique q p xs x (none_missed q y xs e u) (rw e at h))
  ]

  pub first-select :
      (q p : A → Bool) (xs : List A) (x : A)
      → count q xs ≤ 1
      → first q xs ≡ some x
      → first q (select p xs) ≡ (if p x then some x else none)
  unfolding first count select
  first-select q p [] x u h = cc
  first-select q p (y ∷ xs) x u h = elim (Bool-cases (q y)) [
    | inl e ↦ elim (Bool-cases (p y)) [
      | inl kept ↦ rw kept (rw e (rw (← some_inj (rw e at h)) (rw kept)))
      | inr cut ↦ rw cut (rw (← some_inj (rw e at h)) (rw cut (gone (none_hit q y xs e u))))
    ]
    | inr e ↦ elim (Bool-cases (p y)) [
      | inl kept ↦ rw kept (rw e (first-select q p xs x (none_missed q y xs e u) (rw e at h)))
      | inr cut ↦ rw cut (first-select q p xs x (none_missed q y xs e u) (rw e at h))
    ]
  ]
    where
      gone : count q xs ≡ 0 → first q (select p xs) ≡ none
      gone c = first-none q (select p xs) (omega (arith, count-select-le q p xs))
