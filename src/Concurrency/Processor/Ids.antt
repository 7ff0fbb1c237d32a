-- ===== src/Concurrency/Processor/Ids.antt =====
-- src/concurrency/TransactionProcessor.cpp: the ids in the journal and those reserved by submit, below
-- the next id, all different.
use bank_managment_system.Prelude.{
  ℕ, ◌+◌, ◌<◌, ◌≡◌, ◌≢◌, refl, sym, List, [], ◌∷◌, ◌++◌, All, All-append, All-map, All-map₂,
  Distinct, Distinct-snoc, arith,
}
use bank_managment_system.Domain.Types.{TransactionId}
use bank_managment_system.Persistence.Wal.{Entry}
use bank_managment_system.Persistence.Wal.Laws.{Lacks}

abbrev pub entry_ids : List Entry → List TransactionId
entry_ids [] = []
entry_ids (e ∷ es) = e.id ∷ entry_ids es

pub record Ids (n : ℕ) (entries : List Entry) (reserved : List TransactionId) : Type 0 where
  pub journal_below : All (λ (i : ℕ). i < n) (entry_ids entries)
  pub journal_distinct : Distinct (entry_ids entries)
  pub reserved_below : All (λ (i : ℕ). i < n) reserved
  pub reserved_distinct : Distinct reserved
  pub apart : All (λ (i : ℕ). Lacks i entries) reserved

entry_ids-snoc :
    (es : List Entry) (e : Entry) → entry_ids (es ++ e ∷ []) ≡ entry_ids es ++ e.id ∷ []
entry_ids-snoc [] e = refl
entry_ids-snoc (x ∷ es) e = rw (entry_ids-snoc es e)

Lacks-ids : (i : ℕ) (es : List Entry) → Lacks i es → All (λ (j : ℕ). j ≢ i) (entry_ids es)
Lacks-ids i [] h = tt
Lacks-ids i (e ∷ es) h = (h.0, Lacks-ids i es h.1)

-- The next id stands nowhere in the journal.
pub Lacks-next : (n : ℕ) (es : List Entry) → All (λ (i : ℕ). i < n) (entry_ids es) → Lacks n es
Lacks-next n [] h = tt
Lacks-next n (e ∷ es) h = (λ same. omega arith, Lacks-next n es h.1)

module _ {n : ℕ} {es : List Entry} {reserved : List TransactionId} where
  pub Ids-grow :
      (e : Entry)
      → Ids n es reserved
      → e.id < n
      → Lacks e.id es
      → All (λ (i : ℕ). e.id ≢ i) reserved
      → Ids n (es ++ e ∷ []) reserved
  Ids-grow e h below fresh other = record {
    journal_below =
        rw (entry_ids-snoc es e)
          (All-append (λ (i : ℕ). i < n) (entry_ids es) (e.id ∷ []) h.journal_below (below, tt));
    journal_distinct =
        rw (entry_ids-snoc es e)
          (Distinct-snoc (entry_ids es) e.id (Lacks-ids e.id es fresh) h.journal_distinct);
    reserved_below = h.reserved_below;
    reserved_distinct = h.reserved_distinct;
    apart =
        All-map₂ (λ (i : ℕ). Lacks i es) (λ (i : ℕ). e.id ≢ i) (λ (i : ℕ). Lacks i (es ++ e ∷ []))
          reserved (λ i lacks ne. All-append (λ (x : Entry). x.id ≢ i) es (e ∷ []) lacks (ne, tt))
          h.apart other;
  }

  -- fetch_add leaves room for one more id.
  pub Ids-next : Ids n es reserved → Ids (n + 1) es reserved
  Ids-next h = record {
    journal_below =
        All-map (λ (i : ℕ). i < n) (λ (i : ℕ). i < n + 1) (entry_ids es) (λ i lt. omega arith)
          h.journal_below;
    journal_distinct = h.journal_distinct;
    reserved_below =
        All-map (λ (i : ℕ). i < n) (λ (i : ℕ). i < n + 1) reserved (λ i lt. omega arith)
          h.reserved_below;
    reserved_distinct = h.reserved_distinct;
    apart = h.apart;
  }

  pub next-fresh : Ids n es reserved → Lacks n es
  next-fresh h = Lacks-next n es h.journal_below

  pub next-apart : Ids n es reserved → All (λ (i : ℕ). n ≢ i) reserved
  next-apart h =
      All-map (λ (i : ℕ). i < n) (λ (i : ℕ). n ≢ i) reserved (λ i lt e. omega arith)
        h.reserved_below

  -- submit reserves the id that it has fetched.
  pub Ids-reserve : Ids n es reserved → Ids (n + 1) es (reserved ++ n ∷ [])
  Ids-reserve h = record {
    journal_below = (Ids-next h).journal_below;
    journal_distinct = h.journal_distinct;
    reserved_below =
        All-append (λ (i : ℕ). i < n + 1) reserved (n ∷ []) (Ids-next h).reserved_below
          (omega arith, tt);
    reserved_distinct =
        Distinct-snoc reserved n
          (All-map (λ (i : ℕ). n ≢ i) (λ (i : ℕ). i ≢ n) reserved (λ i ne e. ne (sym e))
            (next-apart h))
          h.reserved_distinct;
    apart = All-append (λ (i : ℕ). Lacks i es) reserved (n ∷ []) h.apart (next-fresh h, tt);
  }

pub Ids-pop :
    {n : ℕ} {es : List Entry} {i : TransactionId} {reserved : List TransactionId}
    → Ids n es (i ∷ reserved)
    → Ids n es reserved
Ids-pop h = record {
  journal_below = h.journal_below;
  journal_distinct = h.journal_distinct;
  reserved_below = h.reserved_below.1;
  reserved_distinct = h.reserved_distinct.1;
  apart = h.apart.1;
}
