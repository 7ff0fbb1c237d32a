-- ===== src/Services/Audit/Laws.antt =====
-- src/services/AuditService.cpp over the in-memory repository: what a query returns after an append.
use bank_managment_system.Prelude.{
  ℕ, ◌≤◌, ◌≡◌, refl, ap, sym, subst, false, not, Bool-cases, inl, inr, Option, none, some, List, [],
  ◌∷◌, ◌++◌, arith,
}
use bank_managment_system.Prelude.Int.{ℤ, pos, negsuc, ltb_ℤ}
use bank_managment_system.Prelude.Text.{Bytes, text_eq, text_eq_sound, text_eq_refl}
use bank_managment_system.Prelude.Exec.{ok}
use bank_managment_system.Core.{success, void_success}
use bank_managment_system.Domain.Types.{CustomerId}
use bank_managment_system.Domain.AuditEntry.{AuditEntry, AuditFilter}
use bank_managment_system.Persistence.InMemory.{
  in_memory_audit, find_entries, passed_over, other_text, other_actor, before,
}
use bank_managment_system.Services.Audit.{Trail, append, find}

-- What is asked for, if anything is.
abbrev pub Asks {ℓ} : {A : Type 0} → (A → Type ℓ) → Option A → Type ℓ
Asks P none = Unit
Asks P (some a) = P a

-- The order of times.
abbrev pub NotAfter : ℤ → ℤ → Type 0
NotAfter (pos m) (pos n) = m ≤ n
NotAfter (negsuc m) (negsuc n) = n ≤ m
NotAfter (negsuc m) (pos n) = Unit
NotAfter (pos m) (negsuc n) = ⊥

-- The entries that a filter is for: those of its action and of its actor, not before its time.
pub record Matches (f : AuditFilter) (e : AuditEntry) : Type 0 where
  pub same_action : Asks (λ (t : Bytes). e.action ≡ t) f.action
  pub same_actor : Asks (λ (i : CustomerId). e.actor_id ≡ i) f.actor
  pub in_time : Asks (λ (since : ℤ). NotAfter since e.timestamp) f.since

-- The elements of a list that have a property, in their order.
pub data Selects {A : Type 0} (P : A → Type 0) : List A → List A → Type 0 where
  done : Selects P [] []
  kept : (a : A) (l k : List A) → P a → Selects P l k → Selects P (a ∷ l) (a ∷ k)
  left_out : (a : A) (l k : List A) → ¬ (P a) → Selects P l k → Selects P (a ∷ l) k

before-NotAfter : (since t : ℤ) → ltb_ℤ t since ≡ false → NotAfter since t
before-NotAfter (pos m) (pos n) h = ground (arith, h)
before-NotAfter (negsuc m) (negsuc n) h = ground (arith, h)
before-NotAfter (negsuc m) (pos n) h = tt
before-NotAfter (pos m) (negsuc n) h = ground (arith, h)

NotAfter-before : (since t : ℤ) → NotAfter since t → ltb_ℤ t since ≡ false
NotAfter-before (pos m) (pos n) h = ground (arith, h)
NotAfter-before (negsuc m) (negsuc n) h = ground (arith, h)
NotAfter-before (negsuc m) (pos n) h = ground arith
NotAfter-before (pos m) (negsuc n) h = ground (arith, h)

other_text-Asks :
    (o : Option Bytes) (s : Bytes) → other_text o s ≡ false → Asks (λ (t : Bytes). s ≡ t) o
other_text-Asks none s h = tt
other_text-Asks (some t) s h = elim (Bool-cases (text_eq t s)) [
  | inl same ↦ sym (text_eq_sound t s same)
  | inr other ↦ absurd cc
]

Asks-other_text :
    (o : Option Bytes) (s : Bytes) → Asks (λ (t : Bytes). s ≡ t) o → other_text o s ≡ false
Asks-other_text none s h = refl
Asks-other_text (some t) s h = subst (λ u. not (text_eq u s) ≡ false) h (ap not (text_eq_refl s))

other_actor-Asks :
    (o : Option CustomerId) (i : CustomerId)
    → other_actor o i ≡ false
    → Asks (λ (j : CustomerId). i ≡ j) o
other_actor-Asks none i h = tt
other_actor-Asks (some j) i h = ground (arith, h)

Asks-other_actor :
    (o : Option CustomerId) (i : CustomerId)
    → Asks (λ (j : CustomerId). i ≡ j) o
    → other_actor o i ≡ false
Asks-other_actor none i h = refl
Asks-other_actor (some j) i h = ground (arith, h)

before-Asks : (o : Option ℤ) (t : ℤ) → before t o ≡ false → Asks (λ (since : ℤ). NotAfter since t) o
before-Asks none t h = tt
before-Asks (some since) t h = before-NotAfter since t h

Asks-before : (o : Option ℤ) (t : ℤ) → Asks (λ (since : ℤ). NotAfter since t) o → before t o ≡ false
Asks-before none t h = refl
Asks-before (some since) t h = NotAfter-before since t h

passed_over-Matches : (f : AuditFilter) (e : AuditEntry) → passed_over f e ≡ false → Matches f e
passed_over-Matches f e h = record {
  same_action = other_text-Asks f.action e.action (ground (arith, h));
  same_actor = other_actor-Asks f.actor e.actor_id (ground (arith, h));
  in_time = before-Asks f.since e.timestamp (ground (arith, h));
}

Matches-passed_over : (f : AuditFilter) (e : AuditEntry) → Matches f e → passed_over f e ≡ false
Matches-passed_over f e h =
    rw
      (
        Asks-other_text f.action e.action h.same_action,
        Asks-other_actor f.actor e.actor_id h.same_actor,
        Asks-before f.since e.timestamp h.in_time,
      )
      refl

find_entries-Selects :
    (f : AuditFilter) (l : List AuditEntry) → Selects (Matches f) l (find_entries f l)
unfolding find_entries
find_entries-Selects f [] = Selects.done
find_entries-Selects f (e ∷ l) = elim (Bool-cases (passed_over f e)) [
  | inl passed ↦ rw passed (
      Selects.left_out e l (find_entries f l) (λ m. let taken = Matches-passed_over f e m in cc)
        (find_entries-Selects f l))
  | inr taken ↦ rw taken (
      Selects.kept e l (find_entries f l) (passed_over-Matches f e taken)
        (find_entries-Selects f l))
]

-- Over the in-memory repository append succeeds and puts its entry, with the next id and the time
-- of the call, behind the others; every query, whatever its filter, then returns exactly those
-- entries, old and new and in their order, that have the action and the actor that the filter asks
-- for and are not before the time that it asks for.
pub find-append :
    (time_at : ℕ → ℤ) (actor : CustomerId) (action details : Bytes) (f : AuditFilter)
    (t : Trail in_memory_audit)
    → let (v, t') = append in_memory_audit time_at actor action details t in
      let e : AuditEntry = record {
        id = t.next_audit_id;
        timestamp = time_at t.clock_calls;
        actor_id = actor;
        action = action;
        details = details;
      } in
      (v ≡ ok void_success)
      × ((out : List AuditEntry) × ((find in_memory_audit time_at f t').0 ≡ ok (success out))
          × Selects (Matches f) (t.entries ++ e ∷ []) out)
unfolding append find
find-append time_at actor action details f t = (
  refl,
  (find_entries f (t.entries ++ _ ∷ []), refl, find_entries-Selects f (t.entries ++ _ ∷ [])),
)
