-- ===== src/Prelude/Lists.antt =====
-- Lists measured and indexed by native numbers, under the library's names, and counting.
use Prim.Native.Nat.{ℕ, zero, suc, ◌+◌, ◌≤◌}
use mathlib.Core.Path.{◌≡◌, refl, ap, subst}
use mathlib.Core.Bool.{Bool, true, false, ◌&&◌}
use mathlib.Core.List.{List, [], ◌∷◌, ◌++◌, map}
use mathlib.Core.Option.{Option, none, some, none-ne-some, some-injective}
use native.Mathlib.Omega.{arith}
use extend_game_telemetry_co.Prelude.Tests.{if◌then◌else◌}

module _ {ℓ} {A : Type ℓ} where
  abbrev pub length : List A → ℕ
  length [] = 0
  length (x ∷ xs) = suc (length xs)

  abbrev pub is_empty : List A → Bool
  is_empty [] = true
  is_empty (x ∷ xs) = false

  abbrev pub get_elem? : List A → ℕ → Option A
  get_elem? [] i = none
  get_elem? (x ∷ xs) zero = some x
  get_elem? (x ∷ xs) (suc i) = get_elem? xs i

  -- A write out of bounds changes nothing.
  abbrev pub set : List A → ℕ → A → List A
  set [] i v = []
  set (x ∷ xs) zero v = v ∷ xs
  set (x ∷ xs) (suc i) v = x ∷ set xs i v

  abbrev pub replicate : ℕ → A → List A
  replicate zero a = []
  replicate (suc n) a = a ∷ replicate n a

  -- The items that pass a test, in order.
  abbrev pub keep : (A → Bool) → List A → List A
  keep p [] = []
  keep p (x ∷ xs) = let rest = keep p xs in if p x then x ∷ rest else rest

  -- How many items pass a test.
  abbrev pub count : (A → Bool) → List A → ℕ
  count p [] = 0
  count p (x ∷ xs) = let rest = count p xs in if p x then suc rest else rest

  -- Every item has a property.
  abbrev pub All {κ} : (A → Type κ) → List A → Type κ
  All P [] = Unit
  All P (x ∷ xs) = P x × All P xs

  -- The sum of a weight over a list.
  abbrev pub total : (A → ℕ) → List A → ℕ
  total w [] = 0
  total w (x ∷ xs) = w x + total w xs

  pub length-append : (xs ys : List A) → length (xs ++ ys) ≡ length xs + length ys
  length-append [] ys = omega arith
  length-append (x ∷ xs) ys = omega (arith, length-append xs ys)

  pub count-append : (p : A → Bool) (xs ys : List A) → count p (xs ++ ys) ≡ count p xs + count p ys
  count-append p [] ys = omega arith
  count-append p (x ∷ xs) ys = ground (arith, count-append p xs ys)

  pub count-true : (xs : List A) → count (λ _. true) xs ≡ length xs
  count-true [] = refl
  count-true (x ∷ xs) = ap suc (count-true xs)

  pub length-keep-le : (p : A → Bool) (xs : List A) → length (keep p xs) ≤ length xs
  length-keep-le p [] = omega arith
  length-keep-le p (x ∷ xs) = ground (arith, length-keep-le p xs)

  -- Replacing one item changes a sum by the two items' weights.
  pub total-set :
      (w : A → ℕ) (xs : List A) (i : ℕ) (a b : A)
      → get_elem? xs i ≡ some a
      → total w (set xs i b) + w a ≡ total w xs + w b
  total-set w [] i a b h = ground arith
  total-set w (x ∷ xs) zero a b h = ground arith
  total-set w (x ∷ xs) (suc i) a b h = omega (arith, total-set w xs i a b h)

  pub length-set : (xs : List A) (i : ℕ) (v : A) → length (set xs i v) ≡ length xs
  length-set [] i v = refl
  length-set (x ∷ xs) zero v = refl
  length-set (x ∷ xs) (suc i) v = ap suc (length-set xs i v)

pub length-map {ℓ κ} :
    {A : Type ℓ} {B : Type κ} (xs : List A) (f : A → B) → length (map f xs) ≡ length xs
length-map [] f = refl
length-map (x ∷ xs) f = ap suc (length-map xs f)

pub All-append {ℓ κ} :
    {A : Type ℓ} (P : A → Type κ) (xs ys : List A) → All P xs → All P ys → All P (xs ++ ys)
All-append P [] ys hx hy = hy
All-append P (x ∷ xs) ys hx hy = (hx.0, All-append P xs ys hx.1 hy)

pub All-mono {ℓ κ μ} :
    {A : Type ℓ} (P : A → Type κ) (Q : A → Type μ) (xs : List A)
    → ((x : A) → P x → Q x)
    → All P xs
    → All Q xs
All-mono P Q [] f h = tt
All-mono P Q (x ∷ xs) f h = (f x h.0, All-mono P Q xs f h.1)

pub All-set {ℓ κ} :
    {A : Type ℓ} (P : A → Type κ) (xs : List A) (i : ℕ) (v : A)
    → P v
    → All P xs
    → All P (set xs i v)
All-set P [] i v k h = tt
All-set P (x ∷ xs) zero v k h = (k, h.1)
All-set P (x ∷ xs) (suc i) v k h = (h.0, All-set P xs i v k h.1)

-- What every item has, the item at an index has.
pub All-get_elem? {ℓ κ} :
    {A : Type ℓ} (P : A → Type κ) (xs : List A) (i : ℕ) (a : A)
    → All P xs
    → get_elem? xs i ≡ some a
    → P a
All-get_elem? P [] i a h e = absurd (none-ne-some a e)
All-get_elem? P (x ∷ xs) zero a h e = subst P (some-injective x a e) h.0
All-get_elem? P (x ∷ xs) (suc i) a h e = All-get_elem? P xs i a h.1 e

pub All-replicate {ℓ κ} :
    {A : Type ℓ} (P : A → Type κ) (n : ℕ) (a : A) → P a → All P (replicate n a)
All-replicate P zero a h = tt
All-replicate P (suc n) a h = (h, All-replicate P n a h)

pub length-replicate {ℓ} : {A : Type ℓ} (n : ℕ) (a : A) → length (replicate n a) ≡ n
length-replicate zero a = refl
length-replicate (suc n) a = ap suc (length-replicate n a)

pub total-eq-zero {ℓ} :
    {A : Type ℓ} (w : A → ℕ) (xs : List A) → All (λ a. w a ≡ 0) xs → total w xs ≡ 0
total-eq-zero w [] h = refl
total-eq-zero w (x ∷ xs) h = omega (arith, h.0, total-eq-zero w xs h.1)

pub total-replicate_zero {ℓ} :
    {A : Type ℓ} (w : A → ℕ) (n : ℕ) (a : A) → w a ≡ 0 → total w (replicate n a) ≡ 0
total-replicate_zero w n a h = total-eq-zero w (replicate n a) (All-replicate (λ b. w b ≡ 0) n a h)

pub keep-append {ℓ} :
    {A : Type ℓ} (p : A → Bool) (xs ys : List A) → keep p (xs ++ ys) ≡ keep p xs ++ keep p ys
keep-append p [] ys = refl
keep-append p (x ∷ xs) ys = ground (arith, keep-append p xs ys)

-- An item passes two tests exactly if it passes the second among those that pass the first.
pub count-keep {ℓ} :
    {A : Type ℓ} (p q : A → Bool) (xs : List A) → count q (keep p xs) ≡ count (λ x. p x && q x) xs
count-keep p q [] = refl
count-keep p q (x ∷ xs) = ground (arith, count-keep p q xs)

pub get_elem?-map {ℓ κ} :
    {A : Type ℓ} {B : Type κ} (g : A → B) (xs : List A) (i : ℕ) {a : A}
    → get_elem? xs i ≡ some a
    → get_elem? (map g xs) i ≡ some (g a)
get_elem?-map g [] i {a} h = absurd (none-ne-some a h)
get_elem?-map g (x ∷ xs) zero {a} h = ap (λ y. some (g y)) (some-injective x a h)
get_elem?-map g (x ∷ xs) (suc i) h = get_elem?-map g xs i h

-- The images of the items that have one.
abbrev pub images {ℓ κ} : {A : Type ℓ} {B : Type κ} → (A → Option B) → List A → List B
images image [] = []
images image (x ∷ xs) =
    let rest = images image xs in elim (image x) [ none ↦ rest | some y ↦ y ∷ rest ]

pub images-append {ℓ κ} :
    {A : Type ℓ} {B : Type κ} (image : A → Option B) (xs ys : List A)
    → images image (xs ++ ys) ≡ images image xs ++ images image ys
images-append image [] ys = refl
images-append image (x ∷ xs) ys = ground (arith, images-append image xs ys)

-- Whether an item has an image that passes a test.
abbrev pub yields {ℓ κ} : {A : Type ℓ} {B : Type κ} → (B → Bool) → (A → Option B) → A → Bool
yields f image x = elim (image x) [ none ↦ false | some y ↦ f y ]

pub count-images {ℓ κ} :
    {A : Type ℓ} {B : Type κ} (f : B → Bool) (image : A → Option B) (xs : List A)
    → count f (images image xs) ≡ count (yields f image) xs
count-images f image [] = refl
count-images f image (x ∷ xs) = ground (arith, count-images f image xs)

pub images-some {ℓ} : {A : Type ℓ} (xs : List A) → images (λ x. some x) xs ≡ xs
images-some [] = refl
images-some (x ∷ xs) = ap (λ ys. x ∷ ys) (images-some xs)
