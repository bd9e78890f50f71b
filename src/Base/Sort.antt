-- ===== src/Base/Sort.antt =====
-- Insertion sort by a strict Boolean order. `sort.Slice` returns a sorted permutation, and on the
-- keys that the program sorts (numbers, distinct names) there is one such list.
use Prim.Native.Nat.{ℕ, suc, ◌≤◌}
use mathlib.Core.Path.{◌≡◌, refl, ◌∙◌}
use mathlib.Core.Bool.{Bool, false}
use mathlib.Core.Logic.{inl, inr}
use mathlib.Core.List.{List, [], ◌∷◌, Permᴰ}
use native.Mathlib.Omega.{arith}
use aegis_protocol.Base.Tests.{if◌then◌else◌, ltb, ltb→ge, Bool-cases}
use aegis_protocol.Base.Lists.{length, count_if, All}

module _ {A : Type 0} (lt : A → A → Bool) where
  pub insert_by : A → List A → List A
  insert_by x [] = x ∷ []
  insert_by x (y ∷ ys) = if lt y x then y ∷ insert_by x ys else x ∷ y ∷ ys

  pub sort_by : List A → List A
  unfolding insert_by
  sort_by [] = []
  sort_by (x ∷ xs) = insert_by x (sort_by xs)

  -- Each member is not above the next ones.
  abbrev pub IsSortedBy : List A → Type 0
  IsSortedBy [] = Unit
  IsSortedBy (x ∷ xs) = All (λ y. lt y x ≡ false) xs × IsSortedBy xs

  pub count_if-insert_by :
      (p : A → Bool) (x : A) (ys : List A) → count_if p (insert_by x ys) ≡ count_if p (x ∷ ys)
  unfolding insert_by
  count_if-insert_by p x [] = refl
  count_if-insert_by p x (y ∷ ys) = ground (arith, count_if-insert_by p x ys)

  pub count_if-sort_by : (p : A → Bool) (xs : List A) → count_if p (sort_by xs) ≡ count_if p xs
  unfolding sort_by
  count_if-sort_by p [] = refl
  count_if-sort_by p (x ∷ xs) =
      ground (arith, count_if-insert_by p x (sort_by xs), count_if-sort_by p xs)

  pub length-insert_by : (x : A) (ys : List A) → length (insert_by x ys) ≡ suc (length ys)
  unfolding insert_by
  length-insert_by x [] = refl
  length-insert_by x (y ∷ ys) = ground (arith, length-insert_by x ys)

  pub length-sort_by : (xs : List A) → length (sort_by xs) ≡ length xs
  unfolding sort_by
  length-sort_by [] = refl
  length-sort_by (x ∷ xs) = omega (arith, length-insert_by x (sort_by xs), length-sort_by xs)

  pub All-insert_by {κ} :
      (P : A → Type κ) (x : A) (ys : List A) → P x → All P ys → All P (insert_by x ys)
  unfolding insert_by
  All-insert_by P x [] h k = (h, tt)
  All-insert_by P x (y ∷ ys) h k = elim (Bool-cases (lt y x)) [
    | inl e ↦ rw e (k.0, All-insert_by P x ys h k.1)
    | inr e ↦ rw e (h, k)
  ]

  pub All-sort_by {κ} : (P : A → Type κ) (xs : List A) → All P xs → All P (sort_by xs)
  unfolding sort_by
  All-sort_by P [] k = tt
  All-sort_by P (x ∷ xs) k = All-insert_by P x (sort_by xs) k.0 (All-sort_by P xs k.1)

-- The order of numbers.
unfoldable pub sort_ℕ : List ℕ → List ℕ
unfolding sort_by
sort_ℕ xs = sort_by ltb xs

insert_ℕ_swap :
    (x y : ℕ) (l : List ℕ)
    → insert_by ltb x (insert_by ltb y l) ≡ insert_by ltb y (insert_by ltb x l)
unfolding insert_by
insert_ℕ_swap x y [] = ground arith
insert_ℕ_swap x y (z ∷ l) = ground (arith, insert_ℕ_swap x y l)

-- The sorted list does not depend on the order of the input.
pub sort_ℕ-Permᴰ : {xs ys : List ℕ} → Permᴰ xs ys → sort_ℕ xs ≡ sort_ℕ ys
unfolding sort_ℕ
sort_ℕ-Permᴰ Permᴰ.nil = refl
sort_ℕ-Permᴰ (Permᴰ.cons {l₁ = l} e p) = rw (e, sort_ℕ-Permᴰ p)
sort_ℕ-Permᴰ (Permᴰ.swap {a} {b} {l = l} e e') = rw (← e, ← e') (insert_ℕ_swap a b (sort_by ltb l))
sort_ℕ-Permᴰ (Permᴰ.trans p q) = sort_ℕ-Permᴰ p ∙ sort_ℕ-Permᴰ q

below_head :
    (n m : ℕ) (l : List ℕ) → n ≤ m → All (λ y. ltb y m ≡ false) l → All (λ y. ltb y n ≡ false) l
below_head n m [] h k = tt
below_head n m (y ∷ l) h k = (ground (arith, k.0), below_head n m l h k.1)

insert_ℕ-IsSortedBy : (x : ℕ) (l : List ℕ) → IsSortedBy ltb l → IsSortedBy ltb (insert_by ltb x l)
unfolding insert_by
insert_ℕ-IsSortedBy x [] h = (tt, tt)
insert_ℕ-IsSortedBy x (y ∷ l) h = elim (Bool-cases (ltb y x)) [
  | inl e ↦
      rw e (
        All-insert_by ltb (λ z. ltb z y ≡ false) x l (ground arith) h.0,
        insert_ℕ-IsSortedBy x l h.1,
      )
  | inr e ↦ rw e ((e, below_head x y l (ltb→ge y x e) h.0), h)
]

pub sort_ℕ-IsSortedBy : (xs : List ℕ) → IsSortedBy ltb (sort_ℕ xs)
unfolding sort_ℕ
sort_ℕ-IsSortedBy [] = tt
sort_ℕ-IsSortedBy (x ∷ xs) = insert_ℕ-IsSortedBy x (sort_by ltb xs) (sort_ℕ-IsSortedBy xs)
