-- ===== src/Concurrency/Locks/Progress.antt =====
-- src/concurrency/ScopedAccountLock.h: what a set of workers can do next.
use bank_managment_system.Prelude.{
  ℕ, zero, suc, ◌+◌, ◌≤◌, ◌<◌, ◌≡◌, ◌≢◌, ◌==◌, refl, sym, ap, subst, ◌⊎◌, inl, inr, Bool-cases,
  List, [], ◌∷◌, ◌++◌, All, arith,
}
use bank_managment_system.Domain.Types.{AccountId}
use bank_managment_system.Concurrency.Locks.{
  Worker, Holder, Step, Reaches, Unlocked, start_all, locks, unlocks,
}
use bank_managment_system.Concurrency.Locks.Order.{InOrder, All-middle, Reaches-InOrder}

-- A worker among the others.
record Among (P : Worker → Type 0) (l : List Worker) : Type 0 where
  before : List Worker
  after : List Worker
  worker : Worker
  here : l ≡ before ++ worker ∷ after
  has : P worker

behind : {P : Worker → Type 0} (w : Worker) (l : List Worker) → Among P l → Among P (w ∷ l)
behind w l m = record {
  before = w ∷ m.before;
  after = m.after;
  worker = m.worker;
  here = ap (λ k. w ∷ k) m.here;
  has = m.has;
}

-- An id is not held, or the list splits at it.
record HeldIn (x : AccountId) (held : List AccountId) : Type 0 where
  these : List AccountId
  those : List AccountId
  split : held ≡ these ++ x ∷ those

held_or_not :
    (x : AccountId) (held : List AccountId) → All (λ (y : AccountId). y ≢ x) held ⊎ HeldIn x held
held_or_not x [] = inl tt
held_or_not x (y ∷ held) = elim (Bool-cases (y == x)) [
  | inl same ↦
      let e : y ≡ x = ground arith in
      inr (record { these = []; those = held; split = ap (λ z. z ∷ held) e })
  | inr other ↦ elim (held_or_not x held) [
    | inl free ↦ inl ((λ e. ground arith), free)
    | inr h ↦ inr (record { these = y ∷ h.these; those = h.those; split = ap (λ k. y ∷ k) h.split })
  ]
]

holder : (x : AccountId) (l : List Worker) → Unlocked x l ⊎ Among (λ w. HeldIn x w.held) l
holder x [] = inl tt
holder x (w ∷ l) = elim (held_or_not x w.held) [
  | inr h ↦ inr (record { before = []; after = l; worker = w; here = refl; has = h })
  | inl free ↦ elim (holder x l) [ inl others ↦ inl (free, others) | inr m ↦ inr (behind w l m) ]
]

All-split :
    (P : ℕ → Type 0) (these : List ℕ) (x : ℕ) (those : List ℕ) → All P (these ++ x ∷ those) → P x
All-split P [] x those h = h.0
All-split P (y ∷ these) x those h = All-split P these x those h.1

-- There is a next step.
abbrev pub CanStep : List Worker → Type 0
CanStep l = (l' : List Worker) × Step l l'

-- A worker waits for the mutex of an account.
record WaitsFor (x : AccountId) (w : Worker) : Type 0 where
  rest : List AccountId
  next : w.wanted ≡ x ∷ rest

-- The worker that holds the mutex unlocks it, or waits for a higher id.
holder_step :
    (l : List Worker) (x : AccountId)
    → All InOrder l
    → (h : Among (λ w. HeldIn x w.held) l) (wanted : List AccountId) → h.worker.wanted ≡ wanted
    → CanStep l ⊎ ((y : AccountId) × (x < y) × Among (WaitsFor y) l)
holder_step l x order h [] e = inl (
    subst CanStep (sym h.here)
      (_, unlocks h.before h.after h.worker x h.has.these h.has.those e h.has.split))
holder_step l x order h (y ∷ rest) e =
    let its_order =
      All-middle InOrder h.before h.worker h.after (subst (All InOrder) h.here order) in
    let above_x =
      All-split (λ k. All (λ (z : ℕ). k < z) h.worker.wanted) h.has.these x h.has.those
        (subst (All (λ (k : ℕ). All (λ (z : ℕ). k < z) h.worker.wanted)) h.has.split
          its_order.above) in
    inr (
      y,
      (subst (All (λ (z : ℕ). x < z)) e above_x).0,
      record {
        before = h.before;
        after = h.after;
        worker = h.worker;
        here = h.here;
        has = record { rest = rest; next = e };
      },
    )

-- The worker that waits goes on, or a worker waits for a higher id, or one unlocks.
waiting_step :
    (l : List Worker) (x : AccountId)
    → All InOrder l
    → Among (WaitsFor x) l
    → CanStep l ⊎ ((y : AccountId) × (x < y) × Among (WaitsFor y) l)
waiting_step l x order m = elim (holder x l) [
  | inl free ↦ inl (
      subst CanStep (sym m.here) (
        _,
        locks m.before m.after m.worker x m.has.rest m.has.next (subst (Unlocked x) m.here free),
      ))
  | inr h ↦ holder_step l x order h h.worker.wanted refl
]

-- A bound on all that is wanted.
abbrev sums : List ℕ → ℕ
sums [] = 0
sums (x ∷ xs) = suc x + sums xs

below_sums : (xs : List ℕ) (b : ℕ) → sums xs ≤ b → All (λ (x : ℕ). x < b) xs
below_sums [] b h = tt
below_sums (x ∷ xs) b h = (omega arith, below_sums xs b (omega arith))

abbrev bound : List Worker → ℕ
bound [] = 0
bound (w ∷ l) = sums w.wanted + bound l

below_bound :
    (l : List Worker) (b : ℕ)
    → bound l ≤ b
    → All (λ (w : Worker). All (λ (x : ℕ). x < b) w.wanted) l
below_bound [] b h = tt
below_bound (w ∷ l) b h = (below_sums w.wanted b (omega arith), below_bound l b (omega arith))

-- Going from a worker that waits to one that waits for a higher id ends at one that goes on.
climb :
    (n b : ℕ) (l : List Worker) (x : AccountId)
    → All InOrder l
    → All (λ (w : Worker). All (λ (y : ℕ). y < b) w.wanted) l
    → b ≤ x + n
    → Among (WaitsFor x) l
    → CanStep l
climb zero b l x order below near m =
    let wanted_below =
      All-middle (λ w. All (λ (y : ℕ). y < b) w.wanted) m.before m.worker m.after
        (subst (All (λ (w : Worker). All (λ (y : ℕ). y < b) w.wanted)) m.here below) in
    let x_below = (subst (All (λ (y : ℕ). y < b)) m.has.next wanted_below).0 in
    absurd (omega (arith, x_below))
climb (suc n) b l x order below near m = elim (waiting_step l x order m) [
  | inl step ↦ step
  | inr (y, higher, m') ↦ climb n b l y order below (omega arith) m'
]

-- A worker that has locked and unlocked all.
abbrev pub IsDone : Worker → Type 0
IsDone w = (w.held ≡ []) × (w.wanted ≡ [])

-- What a worker does next.
record CanUnlock (w : Worker) : Type 0 where
  mutex : AccountId
  rest : List AccountId
  held_now : w.held ≡ mutex ∷ rest
  nothing_wanted : w.wanted ≡ []

abbrev Waits : Worker → Type 0
Waits w = (x : AccountId) × WaitsFor x w

status :
    (w : Worker) (held wanted : List AccountId)
    → w.held ≡ held
    → w.wanted ≡ wanted
    → IsDone w ⊎ (CanUnlock w ⊎ Waits w)
status w [] [] e f = inl (e, f)
status w (x ∷ rest) [] e f =
    inr (inl (record { mutex = x; rest = rest; held_now = e; nothing_wanted = f }))
status w held (x ∷ rest) e f = inr (inr (x, record { rest = rest; next = f }))

abbrev at_front : (P : Worker → Type 0) (w : Worker) (l : List Worker) → P w → Among P (w ∷ l)
at_front P w l h = record { before = []; after = l; worker = w; here = refl; has = h }

statuses : (l : List Worker) → All IsDone l ⊎ (Among CanUnlock l ⊎ Among Waits l)
statuses [] = inl tt
statuses (w ∷ l) = elim (status w w.held w.wanted refl refl) [
  | inr (inl u) ↦ inr (inl (at_front CanUnlock w l u))
  | inr (inr x) ↦ inr (inr (at_front Waits w l x))
  | inl done ↦ elim (statuses l) [
    | inl others ↦ inl (done, others)
    | inr (inl m) ↦ inr (inl (behind w l m))
    | inr (inr m) ↦ inr (inr (behind w l m))
  ]
]

ordered_step : (l : List Worker) → All InOrder l → All IsDone l ⊎ CanStep l
ordered_step l order = elim (statuses l) [
  | inl done ↦ inl done
  | inr (inl m) ↦ inr (
      subst CanStep (sym m.here) (
        _,
        unlocks m.before m.after m.worker m.has.mutex [] m.has.rest m.has.nothing_wanted
            m.has.held_now,
      ))
  | inr (inr m) ↦
      let waiting : Among (WaitsFor m.has.0) l = record {
        before = m.before;
        after = m.after;
        worker = m.worker;
        here = m.here;
        has = m.has.1;
      } in
      inr (
        climb (bound l) (bound l) l m.has.0 order (below_bound l (bound l) (omega arith))
          (omega arith) waiting)
]

-- However the workers of any transactions, and of any ScopedAccountLocks of two accounts, have taken
-- turns at locking and unlocking, they never wait for each other: all have unlocked what they had
-- locked, or one of them can take a step.
pub start_all-Progress :
    (lockers : List Holder) (now : List Worker)
    → Reaches (start_all lockers) now
    → All IsDone now ⊎ CanStep now
start_all-Progress lockers now reached = ordered_step now (Reaches-InOrder lockers now reached)
