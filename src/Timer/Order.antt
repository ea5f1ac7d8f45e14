-- ===== src/Timer/Order.antt =====
-- The order of the timers of src/pic/timer.c: the circle of the timers by the tick at which they are
-- due, and an alarm that is not late.
use unagi_os.Common.{
  ℕ, ◌≤◌, ◌<◌, ◌≡◌, refl, inl, inr, true, Bool-cases, List, [], ◌∷◌, ◌++◌, ==_cases, ==_refl, ne→==,
  ltb, leb, if◌then◌else◌, arith, ap, sym, subst,
}
use unagi_os.Dlist.Chain.{has, Circle, first_of_chain}
use unagi_os.Timer.{TimerPtr, TimerCtl, uint32_max}

-- when the timer is due
abbrev pub due_at : TimerCtl → TimerPtr → ℕ
due_at c t = (c.timer t).target_tick

-- every timer of the list is due at the tick `b` or later, or before it
abbrev pub From : (TimerPtr → ℕ) → ℕ → List TimerPtr → Type 0
From f b [] = Unit
From f b (x ∷ xs) = (b ≤ f x) × From f b xs

abbrev pub Before : (TimerPtr → ℕ) → ℕ → List TimerPtr → Type 0
Before f b [] = Unit
Before f b (x ∷ xs) = (f x < b) × Before f b xs

abbrev pub Sorted : (TimerPtr → ℕ) → List TimerPtr → Type 0
Sorted f [] = Unit
Sorted f (x ∷ xs) = From f (f x) xs × Sorted f xs

-- The timers `ts` are in the circle, behind the guard node, in the order in which they are due, and
-- the next alarm is not behind the first; ticks have 32 bits.
pub record IsTimers (c : TimerCtl) (ts : List TimerPtr) : Type 0 where
  pub circle : Circle c.links c.listtail ts
  pub sorted : Sorted (due_at c) ts
  pub alarm : c.next_alarm_on_tick ≤ due_at c (first_of_chain ts c.listtail)
  pub guard : due_at c c.listtail ≡ uint32_max
  pub fits : (y : TimerPtr) → due_at c y ≤ uint32_max

-- the timers that are due at a tick, at the start of the list, and the others
abbrev pub due : (TimerPtr → ℕ) → ℕ → List TimerPtr → List TimerPtr
due f tick [] = []
due f tick (x ∷ xs) = let rest = due f tick xs in if ltb tick (f x) then [] else x ∷ rest

abbrev pub later : (TimerPtr → ℕ) → ℕ → List TimerPtr → List TimerPtr
later f tick [] = []
later f tick (x ∷ xs) = let rest = later f tick xs in if ltb tick (f x) then x ∷ xs else rest

pub From-le : (f : TimerPtr → ℕ) (a b : ℕ) (xs : List TimerPtr) → a ≤ b → From f b xs → From f a xs
From-le f a b [] h k = tt
From-le f a b (x ∷ xs) h k = (omega (arith, h, k.0), From-le f a b xs h k.1)

pub From-has :
    (f : TimerPtr → ℕ) (b : ℕ) (xs : List TimerPtr) (y : TimerPtr)
    → From f b xs
    → has y xs ≡ true
    → b ≤ f y
From-has f b (x ∷ xs) y k h = elim (==_cases y x) [
  | inl e ↦ rw e (k.0)
  | inr n ↦ From-has f b xs y k.1 (ground (arith, ne→== y x n, h))
]
From-has f b [] y k h = absurd (cc h)

pub due-append-later :
    (f : TimerPtr → ℕ) (tick : ℕ) (xs : List TimerPtr) → due f tick xs ++ later f tick xs ≡ xs
due-append-later f tick [] = refl
due-append-later f tick (x ∷ xs) = elim (Bool-cases (ltb tick (f x))) [
  | inl t ↦ rw t refl
  | inr t ↦ rw t (ap (λ l. x ∷ l) (due-append-later f tick xs))
]

pub Sorted-later :
    (f : TimerPtr → ℕ) (tick : ℕ) (xs : List TimerPtr) → Sorted f xs → Sorted f (later f tick xs)
Sorted-later f tick [] s = tt
Sorted-later f tick (x ∷ xs) s = elim (Bool-cases (ltb tick (f x))) [
  | inl t ↦ rw t s
  | inr t ↦ rw t (Sorted-later f tick xs s.1)
]

-- Of timers in order, those at the start are exactly those that are due.
pub has-due :
    (f : TimerPtr → ℕ) (tick : ℕ) (xs : List TimerPtr) (y : TimerPtr)
    → Sorted f xs
    → has y xs ≡ true
    → has y (due f tick xs) ≡ leb (f y) tick
has-due f tick [] y s h = absurd (cc h)
has-due f tick (x ∷ xs) y s h = elim (Bool-cases (ltb tick (f x))) [
  | inl t ↦ elim (==_cases y x) [
    | inl e ↦ rw (t, e) (ground (arith, t))
    | inr n ↦
        let le : f x ≤ f y = From-has f (f x) xs y s.0 (ground (arith, ne→== y x n, h)) in
        rw t (ground (arith, t, le))
  ]
  | inr t ↦ elim (==_cases y x) [
    | inl e ↦ rw (t, e) (ground (arith, t, ==_refl x))
    | inr n ↦
        let there : has y xs ≡ true = ground (arith, ne→== y x n, h) in
        rw (t, ne→== y x n) (has-due f tick xs y s.1 there)
  ]
]

-- the order needs only the ticks of the timers in the list
pub From-same :
    (f g : TimerPtr → ℕ) (b : ℕ) (xs : List TimerPtr)
    → ((y : TimerPtr) → has y xs ≡ true → g y ≡ f y)
    → From f b xs
    → From g b xs
From-same f g b [] e k = tt
From-same f g b (x ∷ xs) e k = (
  subst (λ n. b ≤ n) (sym (e x (ground (arith, ==_refl x)))) k.0,
  From-same f g b xs (λ y h. e y (ground (arith, h))) k.1,
)

pub Sorted-same :
    (f g : TimerPtr → ℕ) (xs : List TimerPtr)
    → ((y : TimerPtr) → has y xs ≡ true → g y ≡ f y)
    → Sorted f xs
    → Sorted g xs
Sorted-same f g [] e k = tt
Sorted-same f g (x ∷ xs) e k = (
  subst (λ b. From g b xs) (sym (e x (ground (arith, ==_refl x))))
      (From-same f g (f x) xs (λ y h. e y (ground (arith, h))) k.0),
  Sorted-same f g xs (λ y h. e y (ground (arith, h))) k.1,
)
