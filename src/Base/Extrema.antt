-- ===== src/Base/Extrema.antt =====
-- What `max`, `min` and a sort from the highest down return.
use Prim.Native.Nat.{ℕ, zero, suc, ◌≤◌, ◌<◌}
use mathlib.Core.Path.{◌≡◌, refl, sym, ap, ◌∙◌}
use mathlib.Core.Logic.{inl, inr}
use mathlib.Core.Bool.{Bool, true}
use mathlib.Core.Option.{Option, none, some}
use mathlib.Core.List.{List, [], ◌∷◌}
use native.Mathlib.Omega.{arith}
use spanner_paxos.Base.Tests.{leb, Bool-cases, tests}
use spanner_paxos.Base.Lists.{
  All, Member, here, there, max?, min?, insert_desc, sort_desc, count_if, take, length, get_elem?,
}

All-le_trans : (a b : ℕ) (xs : List ℕ) → a ≤ b → All (λ x. x ≤ a) xs → All (λ x. x ≤ b) xs
All-le_trans a b [] h k = tt
All-le_trans a b (x ∷ xs) h k = (omega arith, All-le_trans a b xs h k.1)

All-ge_trans : (a b : ℕ) (xs : List ℕ) → b ≤ a → All (λ x. a ≤ x) xs → All (λ x. b ≤ x) xs
All-ge_trans a b [] h k = tt
All-ge_trans a b (x ∷ xs) h k = (omega arith, All-ge_trans a b xs h k.1)

abbrev pub IsMaximum : List ℕ → Option ℕ → Type 0
IsMaximum xs none = xs ≡ []
IsMaximum xs (some y) = Member y xs × All (λ x. x ≤ y) xs

abbrev pub IsMinimum : List ℕ → Option ℕ → Type 0
IsMinimum xs none = xs ≡ []
IsMinimum xs (some y) = Member y xs × All (λ x. y ≤ x) xs

max?_alone : (x : ℕ) (xs : List ℕ) → max? xs ≡ none → max? (x ∷ xs) ≡ some x
unfolding max?
max?_alone x xs e = ground arith

max?_above : (x y : ℕ) (xs : List ℕ) → max? xs ≡ some y → x ≤ y → max? (x ∷ xs) ≡ some y
unfolding max?
max?_above x y xs e h = ground arith

max?_below : (x y : ℕ) (xs : List ℕ) → max? xs ≡ some y → y < x → max? (x ∷ xs) ≡ some x
unfolding max?
max?_below x y xs e h = ground arith

max?_cons :
    (x : ℕ) (xs : List ℕ) (o : Option ℕ)
    → max? xs ≡ o
    → IsMaximum xs o
    → IsMaximum (x ∷ xs) (max? (x ∷ xs))
max?_cons x xs none e h = rw (max?_alone x xs e, h) (here, (omega arith, tt))
max?_cons x xs (some y) e h = elim (Bool-cases (leb x y)) [
  | inl le ↦ rw (max?_above x y xs e (omega tests)) (there h.0, (omega tests, h.1))
  | inr gt ↦
      rw (max?_below x y xs e (omega tests))
        (here, (omega arith, All-le_trans y x xs (omega tests) h.1))
]

-- A maximum is a member that none exceeds; there is none only of the empty list.
pub max?-IsMaximum : (xs : List ℕ) → IsMaximum xs (max? xs)
max?-IsMaximum [] = unfold max? in refl
max?-IsMaximum (x ∷ xs) = max?_cons x xs (max? xs) refl (max?-IsMaximum xs)

min?_alone : (x : ℕ) (xs : List ℕ) → min? xs ≡ none → min? (x ∷ xs) ≡ some x
unfolding min?
min?_alone x xs e = ground arith

min?_above : (x y : ℕ) (xs : List ℕ) → min? xs ≡ some y → y < x → min? (x ∷ xs) ≡ some y
unfolding min?
min?_above x y xs e h = ground arith

min?_below : (x y : ℕ) (xs : List ℕ) → min? xs ≡ some y → x ≤ y → min? (x ∷ xs) ≡ some x
unfolding min?
min?_below x y xs e h = ground arith

min?_cons :
    (x : ℕ) (xs : List ℕ) (o : Option ℕ)
    → min? xs ≡ o
    → IsMinimum xs o
    → IsMinimum (x ∷ xs) (min? (x ∷ xs))
min?_cons x xs none e h = rw (min?_alone x xs e, h) (here, (omega arith, tt))
min?_cons x xs (some y) e h = elim (Bool-cases (leb x y)) [
  | inl le ↦
      rw (min?_below x y xs e (omega tests))
        (here, (omega arith, All-ge_trans y x xs (omega tests) h.1))
  | inr gt ↦ rw (min?_above x y xs e (omega tests)) (there h.0, (omega tests, h.1))
]

pub min?-IsMinimum : (xs : List ℕ) → IsMinimum xs (min? xs)
min?-IsMinimum [] = unfold min? in refl
min?-IsMinimum (x ∷ xs) = min?_cons x xs (min? xs) refl (min?-IsMinimum xs)

-- Falling, the head the highest.
abbrev pub Falls : List ℕ → Type 0
Falls [] = Unit {0}
Falls (x ∷ xs) = All (λ y. y ≤ x) xs × Falls xs

insert_desc-All :
    (x b : ℕ) (xs : List ℕ) → x ≤ b → All (λ y. y ≤ b) xs → All (λ y. y ≤ b) (insert_desc x xs)
unfolding insert_desc
insert_desc-All x b [] h a = (h, tt)
insert_desc-All x b (y ∷ ys) h a = ground (arith, insert_desc-All x b ys)

insert_desc-Falls : (x : ℕ) (xs : List ℕ) → Falls xs → Falls (insert_desc x xs)
unfolding insert_desc
insert_desc-Falls x [] f = (tt, tt)
insert_desc-Falls x (y ∷ ys) f =
    ground (arith, insert_desc-All x y ys, insert_desc-Falls x ys, All-le_trans y x ys)

pub sort_desc-Falls : (xs : List ℕ) → Falls (sort_desc xs)
unfolding sort_desc
sort_desc-Falls [] = tt
sort_desc-Falls (x ∷ xs) = insert_desc-Falls x (sort_desc xs) (sort_desc-Falls xs)

count_if-insert_desc :
    (p : ℕ → Bool) (x : ℕ) (xs : List ℕ) → count_if p (insert_desc x xs) ≡ count_if p (x ∷ xs)
unfolding insert_desc
count_if-insert_desc p x [] = refl
count_if-insert_desc p x (y ∷ ys) = ground (arith, count_if-insert_desc p x ys)

-- Sorting neither loses nor adds a member.
pub count_if-sort_desc : (p : ℕ → Bool) (xs : List ℕ) → count_if p (sort_desc xs) ≡ count_if p xs
unfolding sort_desc
count_if-sort_desc p [] = refl
count_if-sort_desc p (x ∷ xs) =
    ground (arith, count_if-insert_desc p x (sort_desc xs), count_if-sort_desc p xs)

get_elem?_le : (xs : List ℕ) (i b x : ℕ) → All (λ y. y ≤ x) xs → get_elem? xs i ≡ some b → b ≤ x
get_elem?_le [] i b x a e = cc
get_elem?_le (y ∷ ys) zero b x a e = ground arith
get_elem?_le (y ∷ ys) (suc i) b x a e = get_elem?_le ys i b x a.1 e

-- In a falling list, what stands at place `i` is reached by more than `i` members.
pub count_if-get_elem? :
    (xs : List ℕ) (i b : ℕ) → Falls xs → get_elem? xs i ≡ some b → i < count_if (λ y. leb b y) xs
count_if-get_elem? [] i b f e = cc
count_if-get_elem? (x ∷ xs) zero b f e = ground arith
count_if-get_elem? (x ∷ xs) (suc i) b f e =
    ground (arith, count_if-get_elem? xs i b f.1 e, get_elem?_le xs i b x f.0 e)

-- If the first `k` members reach `b`, then `k` members do; in a falling list the converse holds.
pub count_if-take :
    (k b : ℕ) (xs : List ℕ)
    → k ≤ length xs
    → All (λ x. b ≤ x) (take k xs)
    → k ≤ count_if (λ y. leb b y) xs
count_if-take zero b xs h a = omega arith
count_if-take (suc k) b [] h a = absurd (omega arith)
count_if-take (suc k) b (x ∷ xs) h a = ground (arith, count_if-take k b xs (omega arith) a.1)

count_if_low :
    (x b : ℕ) (xs : List ℕ) → x < b → All (λ y. y ≤ x) xs → count_if (λ y. leb b y) xs ≡ 0
count_if_low x b [] h a = refl
count_if_low x b (y ∷ ys) h a = ground (arith, count_if_low x b ys h a.1)

pub take-count_if :
    (k b : ℕ) (xs : List ℕ)
    → Falls xs
    → k ≤ count_if (λ y. leb b y) xs
    → All (λ x. b ≤ x) (take k xs)
take-count_if zero b xs f h = tt
take-count_if (suc k) b [] f h = absurd (omega arith)
take-count_if (suc k) b (x ∷ xs) f h = elim (Bool-cases (leb b x)) [
  | inl reached ↦ (omega tests, take-count_if k b xs f.1 (ground (arith, reached)))
  | inr low ↦ absurd (ground (arith, low, count_if_low x b xs (omega tests) f.0))
]

count_if_all : (xs : List ℕ) → length xs ≡ count_if (λ y. true) xs
count_if_all [] = refl
count_if_all (x ∷ xs) = ap suc (count_if_all xs)

pub length-sort_desc : (xs : List ℕ) → length (sort_desc xs) ≡ length xs
length-sort_desc xs =
    count_if_all (sort_desc xs) ∙ count_if-sort_desc (λ y. true) xs ∙ sym (count_if_all xs)
