-- ===== src/Common/Grown.antt =====
-- A list that changes over time: every element moves on by `R` at its place, and elements that
-- satisfy `N` are added behind.
use gitrank.Common.Lists.{All}
use mathlib.Core.List.{List, [], ◌∷◌, ◌++◌, map}

module _ {ℓ} {A : Type ℓ} where
  abbrev pub Grown : (A → A → Type 0) → (A → Type 0) → List A → List A → Type 0
  Grown R N [] ys = All N ys
  Grown R N (x ∷ xs) [] = ⊥
  Grown R N (x ∷ xs) (y ∷ ys) = R x y × Grown R N xs ys

  pub All-append : (P : A → Type 0) (xs ys : List A) → All P xs → All P ys → All P (xs ++ ys)
  All-append P [] ys p q = q
  All-append P (x ∷ xs) ys p q = (p.0, All-append P xs ys p.1 q)

  pub All-map : (P Q : A → Type 0) → ((x : A) → P x → Q x) → (xs : List A) → All P xs → All Q xs
  All-map P Q f [] p = tt
  All-map P Q f (x ∷ xs) p = (f x p.0, All-map P Q f xs p.1)

  module _ (R : A → A → Type 0) (N : A → Type 0) where
    pub Grown-refl : ((x : A) → R x x) → (xs : List A) → Grown R N xs xs
    Grown-refl r [] = tt
    Grown-refl r (x ∷ xs) = (r x, Grown-refl r xs)

    pub Grown-map : (f : A → A) → ((x : A) → R x (f x)) → (xs : List A) → Grown R N xs (map f xs)
    Grown-map f r [] = tt
    Grown-map f r (x ∷ xs) = (r x, Grown-map f r xs)

    pub Grown-append : (xs ys zs : List A) → Grown R N xs ys → All N zs → Grown R N xs (ys ++ zs)
    Grown-append [] ys zs g n = All-append N ys zs g n
    Grown-append (x ∷ xs) [] zs g n = elim g [ ]
    Grown-append (x ∷ xs) (y ∷ ys) zs g n = (g.0, Grown-append xs ys zs g.1 n)

    pub Grown-All :
        (P : A → Type 0)
        → ((x y : A) → R x y → P x → P y)
        → ((y : A) → N y → P y)
        → (xs ys : List A) → Grown R N xs ys
        → All P xs
        → All P ys
    Grown-All P kept new [] ys g p = All-map N P new ys g
    Grown-All P kept new (x ∷ xs) [] g p = elim g [ ]
    Grown-All P kept new (x ∷ xs) (y ∷ ys) g p =
        (kept x y g.0 p.0, Grown-All P kept new xs ys g.1 p.1)

    pub Grown-trans :
        ((x y z : A) → R x y → R y z → R x z)
        → ((x y : A) → R x y → N x → N y)
        → (xs ys zs : List A) → Grown R N xs ys
        → Grown R N ys zs
        → Grown R N xs zs
    Grown-trans t n [] ys zs g h = Grown-All N n (λ y m. m) ys zs h g
    Grown-trans t n (x ∷ xs) [] zs g h = elim g [ ]
    Grown-trans t n (x ∷ xs) (y ∷ ys) [] g h = elim h [ ]
    Grown-trans t n (x ∷ xs) (y ∷ ys) (z ∷ zs) g h =
        (t x y z g.0 h.0, Grown-trans t n xs ys zs g.1 h.1)
