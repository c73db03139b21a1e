-- ===== src/Common/Lists.antt =====
-- Lists searched and filtered by Boolean tests, and measured by native numbers.
use Prim.Native.Nat.{ℕ, suc, ◌≤◌}
use mathlib.Core.Path.{◌≡◌, refl, subst, ap, ◌∙◌}
use mathlib.Core.Bool.{Bool, true, false, ◌&&◌, ◌||◌, not}
use mathlib.Core.Option.{Option, none, some}
use mathlib.Core.List.{List, [], ◌∷◌, ◌++◌, map}
use native.Mathlib.Omega.{arith}
use mathlib.Core.Logic.{inl, inr, ◌↔◌}
use ki_use_case_radar.Common.Tests.{if◌then◌else◌, Bool-cases, or_else, is_none}

module _ {ℓ} {A : Type ℓ} where
  abbrev pub length : List A → ℕ
  length [] = 0
  length (x ∷ xs) = suc (length xs)

  -- `bool(xs)` of a list
  abbrev pub is_empty : List A → Bool
  is_empty [] = true
  is_empty (x ∷ xs) = false

  abbrev pub any : (A → Bool) → List A → Bool
  any p [] = false
  any p (x ∷ xs) = p x || any p xs

  abbrev pub all : (A → Bool) → List A → Bool
  all p [] = true
  all p (x ∷ xs) = p x && all p xs

  abbrev pub filter : (A → Bool) → List A → List A
  filter p [] = []
  filter p (x ∷ xs) = if p x then x ∷ filter p xs else filter p xs

  -- `next((x for x in xs if p(x)), None)`
  abbrev pub find : (A → Bool) → List A → Option A
  find p [] = none
  find p (x ∷ xs) = if p x then some x else find p xs

  -- The value at a key of a dictionary that is filled in order: the last match stays.
  abbrev pub find_last : (A → Bool) → List A → Option A
  find_last p [] = none
  find_last p (x ∷ xs) = or_else (find_last p xs) (if p x then some x else none)

  -- `if c: xs.append(x)`
  abbrev pub when : Bool → A → List A
  when true x = x ∷ []
  when false x = []

  -- `qs.order_by(…).first()`: `before x y` says that `x` stands before `y` in the order; among
  -- rows that the order does not tell apart the earlier one of the list is taken.
  abbrev pub pick : (A → A → Bool) → A → Option A → A
  pick before x none = x
  pick before x (some y) = if before y x then y else x

  abbrev pub first_by : (A → A → Bool) → List A → Option A
  first_by before [] = none
  first_by before (x ∷ xs) = some (pick before x (first_by before xs))

-- A predicate that holds of each element.
abbrev pub All {κ ℓ} : {X : Type ℓ} → (X → Type κ) → List X → Type κ
All holds_of [] = Unit
All holds_of (first ∷ rest) = holds_of first × All holds_of rest

module _ {ℓ} {A : Type ℓ} where
  pub any-append : (p : A → Bool) (xs ys : List A) → any p (xs ++ ys) ≡ (any p xs || any p ys)
  any-append p [] ys = refl
  any-append p (x ∷ xs) ys = ground (arith, any-append p xs ys)

  pub is_empty-append : (xs ys : List A) → is_empty (xs ++ ys) ≡ (is_empty xs && is_empty ys)
  is_empty-append [] ys = refl
  is_empty-append (x ∷ xs) ys = refl

  pub is_empty-when : (c : Bool) (x : A) → is_empty (when c x) ≡ not c
  is_empty-when true x = refl
  is_empty-when false x = refl

  pub is_empty-map {κ} : {B : Type κ} (f : A → B) (xs : List A) → is_empty (map f xs) ≡ is_empty xs
  is_empty-map f [] = refl
  is_empty-map f (x ∷ xs) = refl

  pub eq_nil_of_is_empty : (xs : List A) → is_empty xs ≡ true → xs ≡ []
  eq_nil_of_is_empty [] h = refl
  eq_nil_of_is_empty (x ∷ xs) h = cc

pub is_empty-filter {ℓ} :
    {A : Type ℓ} (p : A → Bool) (xs : List A) → is_empty (filter p xs) ≡ all (λ x. not (p x)) xs
is_empty-filter p [] = refl
is_empty-filter p (x ∷ xs) = elim (Bool-cases (p x)) [
  | inl hit ↦ rw hit refl
  | inr missed ↦ rw missed (is_empty-filter p xs)
]

pub ruleset emptiness = (is_empty-append, is_empty-when, is_empty-map)

module _ {ℓ} {A : Type ℓ} where
  -- An element of a filtered list that passes a test.
  pub any-filter :
      (p q : A → Bool) (xs : List A)
      → any p (filter q xs) ≡ true
      → (x : A) × (p x ≡ true) × (q x ≡ true)
  any-filter p q [] h = cc
  any-filter p q (x ∷ xs) h = elim (Bool-cases (q x)) [
    | inl kept ↦ elim (Bool-cases (p x)) [
      | inl passes ↦ (x, passes, kept)
      | inr fails ↦ any-filter p q xs (ground (arith, h, kept, fails))
    ]
    | inr dropped ↦ any-filter p q xs (ground (arith, h, dropped))
  ]

  pub any-map_mono {κ} :
      {B : Type κ} (p : B → Bool) (q : A → Bool) (f : A → B) (xs : List A)
      → ((x : A) → q x ≡ true → p (f x) ≡ true)
      → any q xs ≡ true
      → any p (map f xs) ≡ true
  any-map_mono p q f [] keeps h = cc
  any-map_mono p q f (x ∷ xs) keeps h = elim (Bool-cases (q x)) [
    | inl hit ↦ ground (arith, keeps x hit)
    | inr missed ↦ ground (arith, any-map_mono p q f xs keeps (ground (arith, h, missed)))
  ]

  -- A map under which no element begins to pass a test leaves no more that pass it.
  pub length-filter-map {κ} :
      {B : Type κ} (p : B → Bool) (q : A → Bool) (f : A → B) (xs : List A)
      → ((x : A) → p (f x) ≡ true → q x ≡ true)
      → length (filter p (map f xs)) ≤ length (filter q xs)
  length-filter-map p q f [] keeps = omega arith
  length-filter-map p q f (x ∷ xs) keeps = elim (Bool-cases (p (f x))) [
    | inl hit ↦ rw (hit, keeps x hit) (omega (arith, length-filter-map p q f xs keeps))
    | inr missed ↦ elim (Bool-cases (q x)) [
      | inl hit ↦ rw (hit, missed) (omega (arith, length-filter-map p q f xs keeps))
      | inr n ↦ rw (n, missed) (length-filter-map p q f xs keeps)
    ]
  ]

  pub length-filter_none :
      (p : A → Bool) (xs : List A) → any p xs ≡ false → length (filter p xs) ≡ 0
  length-filter_none p [] h = refl
  length-filter_none p (x ∷ xs) h = ground (arith, length-filter_none p xs)

pub All_mono {ℓ κ μ} :
    {A : Type ℓ} {P : A → Type κ} {Q : A → Type μ} (xs : List A)
    → ((x : A) → P x → Q x)
    → All P xs
    → All Q xs
All_mono [] f h = tt
All_mono (x ∷ xs) f (p, h) = (f x p, All_mono xs f h)

if-All {ℓ κ} :
    {A : Type ℓ} (P : A → Type κ) (c : Bool) {x y : A} → P x → P y → P (if c then x else y)
if-All P true p q = p
if-All P false p q = q

pick-All {ℓ κ} :
    {A : Type ℓ} (P : A → Type κ) (before : A → A → Bool) (x : A) (o : Option A)
    → P x
    → ((y : A) → o ≡ some y → P y)
    → P (pick before x o)
pick-All P before x none p h = p
pick-All P before x (some y) p h = if-All P (before y x) (h y refl) p

pub first_by-All {ℓ κ} :
    {A : Type ℓ} (P : A → Type κ) (before : A → A → Bool) (xs : List A) (y : A)
    → All P xs
    → first_by before xs ≡ some y
    → P y
first_by-All P before [] y h e = absurd cc
first_by-All P before (x ∷ xs) y (p, h) e =
    let q : pick before x (first_by before xs) ≡ y = cc in
    subst P q (pick-All P before x (first_by before xs) p (λ z f. first_by-All P before xs z h f))

pick_absent {ℓ} :
    {A : Type ℓ} (before : A → A → Bool) (x : A) (o : Option A)
    → ((y : A) → o ≡ some y → before y x ≡ false)
    → pick before x o ≡ x
pick_absent before x none h = refl
pick_absent before x (some y) h = rw (h y refl) refl

-- An element before which no element of the list stands comes first.
pub pick_first {ℓ} :
    {A : Type ℓ} (before : A → A → Bool) (x : A) (xs : List A)
    → All (λ y. before y x ≡ false) xs
    → pick before x (first_by before xs) ≡ x
pick_first before x xs h =
    pick_absent before x (first_by before xs)
      (λ y e. first_by-All (λ y. before y x ≡ false) before xs y h e)

pub filter_none {ℓ} :
    {A : Type ℓ} (p : A → Bool) (xs : List A) → All (λ x. p x ≡ false) xs → filter p xs ≡ []
filter_none p [] h = refl
filter_none p (x ∷ xs) (e, h) = rw e (filter_none p xs h)

pub filter_none_iff {ℓ} :
    {A : Type ℓ} (p : A → Bool) (xs : List A) → (filter p xs ≡ []) ↔ (any p xs ≡ false)
filter_none_iff p [] = ((λ h. refl), λ h. refl)
filter_none_iff p (x ∷ xs) = elim (Bool-cases (p x)) [
  | inl hit ↦ rw hit ((λ h. cc), λ h. cc)
  | inr missed ↦ rw missed (filter_none_iff p xs)
]

pick_cong {ℓ} :
    {A : Type ℓ} (before after : A → A → Bool) (x : A) (o : Option A)
    → ((y : A) → o ≡ some y → before y x ≡ after y x)
    → pick before x o ≡ pick after x o
pick_cong before after x none h = refl
pick_cong before after x (some y) h = rw (h y refl) refl

-- Each element is told apart from the later ones by a relation.
abbrev pub Pairwise {κ ℓ} : {X : Type ℓ} → (X → X → Type κ) → List X → Type κ
Pairwise R [] = Unit
Pairwise R (first ∷ rest) = All (λ later. R later first) rest × Pairwise R rest

-- Two orders that agree on a list have the same first element.
pub first_by_cong {ℓ} :
    {A : Type ℓ} (before after : A → A → Bool) (xs : List A)
    → Pairwise (λ y x. before y x ≡ after y x) xs
    → first_by before xs ≡ first_by after xs
first_by_cong before after [] h = refl
first_by_cong before after (x ∷ xs) (h, later) =
    let agree = first_by_cong before after xs later in
    ap some (
      pick_cong before after x (first_by before xs)
        (λ y e. first_by-All (λ y. before y x ≡ after y x) before xs y h e)
      ∙ ap (pick after x) agree)

pub Pairwise-mono {ℓ κ μ} :
    {A : Type ℓ} {R : A → A → Type κ} {S : A → A → Type μ} (xs : List A)
    → ((y x : A) → R y x → S y x)
    → Pairwise R xs
    → Pairwise S xs
Pairwise-mono [] f h = tt
Pairwise-mono (x ∷ xs) f (h, later) = (All_mono xs (λ y. f y x) h, Pairwise-mono xs f later)

pub is_none-find_last {ℓ} :
    {A : Type ℓ} (p : A → Bool) (xs : List A) → is_none (find_last p xs) ≡ not (any p xs)
is_none-find_last p [] = refl
is_none-find_last p (x ∷ xs) = ground (arith, is_none-find_last p xs)
