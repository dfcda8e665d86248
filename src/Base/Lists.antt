-- ===== src/Base/Lists.antt =====
-- Lists measured by native numbers, Boolean searches in them, and predicates by recursion.
use Prim.Native.Nat.{ℕ, zero, suc, ◌+◌, min}
use mathlib.Core.Path.{◌≡◌, refl, sym, ap, subst}
use mathlib.Core.Bool.{Bool, true, false, ◌&&◌, ◌||◌}
use mathlib.Core.List.{List, [], ◌∷◌, ◌++◌, map}
use mathlib.Core.Logic.{◌⊎◌, inl, inr}
use mathlib.Core.Option.{Option, none, some}
use native.Mathlib.Omega.{arith}
use systemd2mqtt.Base.Tests.{if◌then◌else◌, Bool-cases}

module _ {ℓ} {A : Type ℓ} where
  abbrev pub length : List A → ℕ
  length [] = 0
  length (x ∷ xs) = suc (length xs)

  pub length-append : (xs ys : List A) → length (xs ++ ys) ≡ length xs + length ys
  length-append [] ys = omega arith
  length-append (x ∷ xs) ys = omega (arith, length-append xs ys)

  -- The elements that pass a test, in order: a Go loop that appends under an `if`.
  abbrev pub keep : (A → Bool) → List A → List A
  keep p [] = []
  keep p (x ∷ xs) = if p x then x ∷ keep p xs else keep p xs

  -- The first element that passes a test: a Go loop that returns under an `if`.
  abbrev pub find : (A → Bool) → List A → Option A
  find p [] = none
  find p (x ∷ xs) = if p x then some x else find p xs

  abbrev pub any : (A → Bool) → List A → Bool
  any p [] = false
  any p (x ∷ xs) = p x || any p xs

  abbrev pub all : (A → Bool) → List A → Bool
  all p [] = true
  all p (x ∷ xs) = p x && all p xs

module _ {ℓ κ} {A : Type ℓ} (P : A → Type κ) where
  abbrev pub All : List A → Type κ
  All [] = Unit
  All (x ∷ xs) = P x × All xs

  pub All-append : (xs ys : List A) → All xs → All ys → All (xs ++ ys)
  All-append [] ys h k = k
  All-append (x ∷ xs) ys (p, h) k = (p, All-append xs ys h k)

  pub All-append_right : (xs ys : List A) → All (xs ++ ys) → All ys
  All-append_right [] ys h = h
  All-append_right (x ∷ xs) ys (p, h) = All-append_right xs ys h

  pub All-append_left : (xs ys : List A) → All (xs ++ ys) → All xs
  All-append_left [] ys h = tt
  All-append_left (x ∷ xs) ys (p, h) = (p, All-append_left xs ys h)

-- Membership as a sum, which can be taken apart into data.
module _ {ℓ} {A : Type ℓ} where
  pub data In (a : A) : List A → Type ℓ where
    here : {x : A} {xs : List A} → a ≡ x → In a (x ∷ xs)
    there : {x : A} {xs : List A} → In a xs → In a (x ∷ xs)

  pub All-In {κ} : (P : A → Type κ) {a : A} (xs : List A) → All P xs → In a xs → P a
  All-In P [] h m = elim m [ ]
  All-In P (x ∷ xs) h (here e) = subst P (sym e) h.0
  All-In P (x ∷ xs) h (there m) = All-In P xs h.1 m

  pub In-append_left : {a : A} (xs ys : List A) → In a xs → In a (xs ++ ys)
  In-append_left [] ys m = elim m [ ]
  In-append_left (x ∷ xs) ys (here e) = here e
  In-append_left (x ∷ xs) ys (there m) = there (In-append_left xs ys m)

  pub In-append_right : {a : A} (xs ys : List A) → In a ys → In a (xs ++ ys)
  In-append_right [] ys m = m
  In-append_right (x ∷ xs) ys m = there (In-append_right xs ys m)

module _ {ℓ} {A : Type ℓ} where
  abbrev pub take : ℕ → List A → List A
  take zero xs = []
  take (suc n) [] = []
  take (suc n) (x ∷ xs) = x ∷ take n xs

  pub length-take : (n : ℕ) (xs : List A) → length (take n xs) ≡ min n (length xs)
  length-take zero xs = omega arith
  length-take (suc n) [] = omega arith
  length-take (suc n) (x ∷ xs) = omega (arith, length-take n xs)

module _ {ℓ} {A : Type ℓ} where
  pub append-nil_parts : (xs ys : List A) → xs ++ ys ≡ [] → (xs ≡ []) × (ys ≡ [])
  append-nil_parts [] ys h = (refl, h)
  append-nil_parts (x ∷ xs) ys h = cc

module _ {ℓ κ λ'} {A : Type ℓ} {P : A → Type κ} {Q : A → Type λ'} where
  pub All-mono : ((a : A) → P a → Q a) → (xs : List A) → All P xs → All Q xs
  All-mono f [] h = tt
  All-mono f (x ∷ xs) h = (f x h.0, All-mono f xs h.1)

-- No element equals a later one.
abbrev pub Distinct {ℓ} : {A : Type ℓ} → List A → Type ℓ
Distinct [] = Unit
Distinct (x ∷ xs) = All (λ y. x ≡ y → ⊥) xs × Distinct xs

pub In-map {ℓ κ} :
    {A : Type ℓ} {B : Type κ} (f : A → B) {a : A} (xs : List A) → In a xs → In (f a) (map f xs)
In-map f [] m = elim m [ ]
In-map f (x ∷ xs) (here e) = here (ap f e)
In-map f (x ∷ xs) (there m) = there (In-map f xs m)

module _ {ℓ} {A : Type ℓ} where
  pub All-ne_of : {a : A} (xs : List A) → (In a xs → ⊥) → All (λ y. a ≡ y → ⊥) xs
  All-ne_of [] h = tt
  All-ne_of (x ∷ xs) h = ((λ e. h (here e)), All-ne_of xs (λ m. h (there m)))

  pub Distinct-append :
      (xs ys : List A)
      → Distinct xs
      → Distinct ys
      → ((a : A) → In a xs → In a ys → ⊥)
      → Distinct (xs ++ ys)
  Distinct-append [] ys h k d = k
  Distinct-append (x ∷ xs) ys h k d = (
    All-append (λ y. x ≡ y → ⊥) xs ys h.0 (All-ne_of ys (d x (here refl))),
    Distinct-append xs ys h.1 k (λ a m n. d a (there m) n),
  )

  -- Lists are disjoint where a predicate tells their elements apart.
  pub apart_by {κ} :
      (P : A → Type κ) {a : A} (xs ys : List A)
      → All P xs
      → All (λ y. P y → ⊥) ys
      → In a xs
      → In a ys
      → ⊥
  apart_by P xs ys h k m n = All-In (λ y. P y → ⊥) ys k n (All-In P xs h m)

pub Distinct-map {ℓ κ} :
    {A : Type ℓ} {B : Type κ} (f : A → B)
    → ((a b : A) → f a ≡ f b → a ≡ b)
    → (xs : List A) → Distinct xs
    → Distinct (map f xs)
Distinct-map f i [] h = tt
Distinct-map f i (x ∷ xs) h = (go xs h.0, Distinct-map f i xs h.1)
  where
    go : (ys : List _) → All (λ y. x ≡ y → ⊥) ys → All (λ y. f x ≡ y → ⊥) (map f ys)
    go [] k = tt
    go (y ∷ ys) k = ((λ e. k.0 (i x y e)), go ys k.1)

pub In-append_cases {ℓ} :
    {A : Type ℓ} {a : A} (xs ys : List A) → In a (xs ++ ys) → In a xs ⊎ In a ys
In-append_cases [] ys m = inr m
In-append_cases (x ∷ xs) ys (here e) = inl (here e)
In-append_cases (x ∷ xs) ys (there m) = elim (In-append_cases xs ys m) [
  | inl n ↦ inl (there n)
  | inr n ↦ inr n
]

module _ {ℓ} {A : Type ℓ} where
  -- What holds of each element, with its membership.
  pub All-with_In {κ} : (P : A → Type κ) (xs : List A) → All P xs → All (λ x. In x xs × P x) xs
  All-with_In P [] h = tt
  All-with_In P (x ∷ xs) h =
      ((here refl, h.0), All-mono (λ y p. (there p.0, p.1)) xs (All-with_In P xs h.1))

  pub All-self : (xs : List A) → All (λ x. In x xs) xs
  All-self [] = tt
  All-self (x ∷ xs) = (here refl, All-mono (λ y m. there m) xs (All-self xs))

module _ {ℓ} {A : Type ℓ} where
  pub In-keep : (p : A → Bool) {a : A} (xs : List A) → p a ≡ true → In a xs → In a (keep p xs)
  In-keep p [] h m = elim m [ ]
  In-keep p (x ∷ xs) h (here e) = rw (subst (λ v. p v ≡ true) e h) (here e)
  In-keep p (x ∷ xs) h (there m) = elim (Bool-cases (p x)) [
    | inl yes' ↦ rw yes' (there (In-keep p xs h m))
    | inr no' ↦ rw no' (In-keep p xs h m)
  ]

  pub any-In : (p : A → Bool) {a : A} (xs : List A) → p a ≡ true → In a xs → any p xs ≡ true
  any-In p [] h m = elim m [ ]
  any-In p (x ∷ xs) h (here e) = rw (subst (λ v. p v ≡ true) e h) refl
  any-In p (x ∷ xs) h (there m) = ground (arith, any-In p xs h m)
