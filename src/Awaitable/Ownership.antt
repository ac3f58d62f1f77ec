-- ===== src/Awaitable/Ownership.antt =====
-- The objects of the class `Task` of include/tinvest/awaitable.hpp and the frames that they own: its
-- constructors, its assignment and its destructor.
use tinkoff_invest_sdkv.Prelude.{
  ◌≡◌, refl, ap, arith, ◌⊎◌, inl, inr, ℕ, zero, suc, ◌+◌, ◌<◌, ◌≤◌, false, if◌then◌else◌, ltb, ◌==◌,
  List, [], ◌∷◌, ◌++◌, Option, none, some, length, length-set, set, Bool-cases,
}

-- An object holds a handle or none; an object that is gone holds none. `frames` counts the frames that
-- were made, `destroyed` lists the handles that were destroyed.
pub record Tasks : Type 0 where
  pub objects : List (Option ℕ)
  pub frames : ℕ
  pub destroyed : List ℕ

unfoldable pub handle_at : List (Option ℕ) → ℕ → Option ℕ
handle_at [] i = none
handle_at (x ∷ xs) zero = x
handle_at (x ∷ xs) (suc i) = handle_at xs i

-- `if (handle_) handle_.destroy()`.
unfoldable pub destroyed_with : Option ℕ → List ℕ → List ℕ
destroyed_with none destroyed = destroyed
destroyed_with (some h) destroyed = h ∷ destroyed

-- `get_return_object`: a new frame with its object.
unfoldable pub created : Tasks → Tasks
created s = record s { objects = s.objects ++ some s.frames ∷ []; frames = s.frames + 1 }

-- `Task(Task&& other)`.
unfoldable pub move_constructed : Tasks → ℕ → Tasks
move_constructed s other = record s {
  objects = set s.objects other none ++ handle_at s.objects other ∷ [];
}

-- `operator=(Task&& other)`.
unfoldable pub move_assigned : Tasks → ℕ → ℕ → Tasks
move_assigned s this other = if this == other then s else record s {
  objects = set (set s.objects this (handle_at s.objects other)) other none;
  destroyed = destroyed_with (handle_at s.objects this) s.destroyed;
}

-- `~Task()`.
unfoldable pub destructed : Tasks → ℕ → Tasks
destructed s this = record s {
  objects = set s.objects this none;
  destroyed = destroyed_with (handle_at s.objects this) s.destroyed;
}

pub data Step : Tasks → Tasks → Type 0 where
  creates : (s : Tasks) → Step s (created s)
  moves : (s : Tasks) (other : ℕ) → other < length s.objects → Step s (move_constructed s other)
  assigns :
      (s : Tasks) (this other : ℕ)
      → this < length s.objects
      → other < length s.objects
      → Step s (move_assigned s this other)
  destructs : (s : Tasks) (this : ℕ) → this < length s.objects → Step s (destructed s this)

pub data Reach (v : Tasks) : Tasks → Type 0 where
  here : Reach v v
  next : {s t : Tasks} → Reach v s → Step s t → Reach v t

-- How many hold a handle, and how often it was destroyed.
unfoldable pub holds : ℕ → Option ℕ → ℕ
holds h none = 0
holds h (some k) = if k == h then 1 else 0

unfoldable pub owners : ℕ → List (Option ℕ) → ℕ
owners h [] = 0
owners h (x ∷ xs) = holds h x + owners h xs

unfoldable pub destructions : ℕ → List ℕ → ℕ
destructions h [] = 0
destructions h (k ∷ ks) = holds h (some k) + destructions h ks

owners-append : (h : ℕ) (xs ys : List (Option ℕ)) → owners h (xs ++ ys) ≡ owners h xs + owners h ys
unfolding owners
owners-append h [] ys = omega arith
owners-append h (x ∷ xs) ys = omega (arith, owners-append h xs ys)

owners-set :
    (h : ℕ) (xs : List (Option ℕ)) (i : ℕ) (x : Option ℕ)
    → i < length xs
    → owners h (set xs i x) + holds h (handle_at xs i) ≡ owners h xs + holds h x
unfolding owners handle_at
owners-set h [] i x l = ground (arith, l)
owners-set h (y ∷ ys) zero x l = omega arith
owners-set h (y ∷ ys) (suc i) x l = omega (arith, owners-set h ys i x (omega (arith, l)))

handle_at-set :
    (xs : List (Option ℕ)) (i j : ℕ) (x : Option ℕ)
    → (i == j) ≡ false
    → handle_at (set xs i x) j ≡ handle_at xs j
unfolding handle_at
handle_at-set [] i j x e = refl
handle_at-set (y ∷ ys) zero zero x e = ground (arith, e)
handle_at-set (y ∷ ys) zero (suc j) x e = refl
handle_at-set (y ∷ ys) (suc i) zero x e = refl
handle_at-set (y ∷ ys) (suc i) (suc j) x e = handle_at-set ys i j x (ground (arith, e))

destructions-destroyed_with :
    (h : ℕ) (x : Option ℕ) (ks : List ℕ)
    → destructions h (destroyed_with x ks) ≡ holds h x + destructions h ks
unfolding destructions destroyed_with holds
destructions-destroyed_with h none ks = omega arith
destructions-destroyed_with h (some k) ks = refl

-- Each frame that was made is counted once.
abbrev pub Inv : Tasks → Type 0
Inv s =
    (h : ℕ) → owners h s.objects + destructions h s.destroyed ≡ (if ltb h s.frames then 1 else 0)

create-Inv : (s : Tasks) → Inv s → Inv (created s)
unfolding created owners holds
create-Inv s i h = ground (arith, i h, owners-append h s.objects (some s.frames ∷ []))

move-Inv : (s : Tasks) (j : ℕ) → j < length s.objects → Inv s → Inv (move_constructed s j)
unfolding move_constructed owners holds
move-Inv s j l i h = omega (
  arith,
  i h,
  owners-append h (set s.objects j none) (handle_at s.objects j ∷ []),
  owners-set h s.objects j none l,
)

destruct-Inv : (s : Tasks) (j : ℕ) → j < length s.objects → Inv s → Inv (destructed s j)
unfolding destructed holds
destruct-Inv s j l i h = omega (
  arith,
  i h,
  destructions-destroyed_with h (handle_at s.objects j) s.destroyed,
  owners-set h s.objects j none l,
)

take_over :
    (s : Tasks) (j k h : ℕ)
    → j < length s.objects
    → k < length s.objects
    → (j == k) ≡ false
    → owners h (set (set s.objects j (handle_at s.objects k)) k none)
        + holds h (handle_at s.objects j)
      ≡ owners h s.objects
unfolding holds
take_over s j k h a b e =
    let x = handle_at s.objects k in
    let ts = set s.objects j x in
    let n : length ts ≡ length s.objects = length-set s.objects j x in
    let same : holds h (handle_at ts k) ≡ holds h x =
      ap (holds h) (handle_at-set s.objects j k x e) in
    omega (arith, owners-set h s.objects j x a, owners-set h ts k none (omega (arith, n)), same)

assign-Inv :
    (s : Tasks) (j k : ℕ)
    → j < length s.objects
    → k < length s.objects
    → Inv s
    → Inv (move_assigned s j k)
unfolding move_assigned
assign-Inv s j k a b i h = elim (Bool-cases (j == k)) [
  | inl e ↦ rw e (i h)
  | inr e ↦ rw e (
      omega (
        arith,
        i h,
        take_over s j k h a b e,
        destructions-destroyed_with h (handle_at s.objects j) s.destroyed,
      ))
]

Reach-Inv : {v s : Tasks} → Reach v s → Inv v → Inv s
Reach-Inv here i = i
Reach-Inv (next r (creates s)) i = create-Inv s (Reach-Inv r i)
Reach-Inv (next r (moves s j l)) i = move-Inv s j l (Reach-Inv r i)
Reach-Inv (next r (assigns s j k a b)) i = assign-Inv s j k a b (Reach-Inv r i)
Reach-Inv (next r (destructs s j l)) i = destruct-Inv s j l (Reach-Inv r i)

abbrev pub no_tasks : Tasks
no_tasks = record { objects = []; frames = 0; destroyed = [] }

-- However tasks are made, moved, assigned, also to themselves, and destructed: each frame that was made
-- is owned by one object and was not destroyed, or it is owned by none and was destroyed once; and no
-- object holds the handle of a frame that was not made.
pub Reach-owners :
    (s : Tasks) (h : ℕ)
    → Reach no_tasks s
    → ((owners h s.objects ≡ 1) × (destructions h s.destroyed ≡ 0) × (h < s.frames))
      ⊎ ((owners h s.objects ≡ 0) × (destructions h s.destroyed ≡ 1) × (h < s.frames))
      ⊎ ((owners h s.objects ≡ 0) × (destructions h s.destroyed ≡ 0) × (s.frames ≤ h))
unfolding owners destructions
Reach-owners s h r = let i = Reach-Inv r (λ k. ground arith) h in ground arith
