-- ===== src/Persistence/Snapshot/Atomic.antt =====
-- src/persistence/SnapshotStore.cpp: a snapshot is stored whole or not at all, and read back.
use bank_managment_system.Prelude.{
  ℕ, ◌==◌, ◌≡◌, true, false, refl, ap, ◌∙◌, ◌⊎◌, inl, inr, Bool-cases, Option, none, some, [], ◌∷◌,
  ◌++◌,
}
use bank_managment_system.Prelude.Text.{Bytes}
use bank_managment_system.Prelude.Exec.{ok, throw, Exception}
use bank_managment_system.Persistence.Json.{dump}
use bank_managment_system.Persistence.Parser.Words.{skip_whitespace}
use bank_managment_system.Persistence.Parser.{parse}
use bank_managment_system.Persistence.Parser.RoundTrip.{parse-dump_spaced}
use bank_managment_system.Persistence.Deserializer.{given}
use bank_managment_system.Persistence.Snapshot.{
  Snapshot, Files, FileSystem, snapshot_to_json, snapshot_from_json, commit_rename, store, load,
}
use bank_managment_system.Persistence.Snapshot.RoundTrip.{
  IsStorable, snapshot_to_json-IsReadable, snapshot_from-to,
}

-- A rename replaces the target at once, or changes nothing.
abbrev pub IsAtomic : FileSystem → Type 0
IsAtomic fs =
    (f : Files)
    → (fs.rename f ≡ (0, record f { target = f.temporary; temporary = none }))
      ⊎ ((code : ℕ) × ((code == 0) ≡ false) × (fs.rename f ≡ (code, f)))

-- A write after which the stream is good has written the text, and a file is opened and read whole,
-- or not opened.
pub record IsFaithful (fs : FileSystem) : Type 0 where
  pub writes :
      (old : Option Bytes) (content : Bytes)
      → (fs.write_truncated old content).0 ≡ true
      → (fs.write_truncated old content).1 ≡ some content
  pub reads :
      (content : Bytes)
      → (fs.open_for_reading (some content) ≡ some content)
        ⊎ (fs.open_for_reading (some content) ≡ none)
  pub renames : IsAtomic fs

-- No call fails.
pub record IsReliable (fs : FileSystem) : Type 0 where
  pub writes :
      (old : Option Bytes) (content : Bytes) → fs.write_truncated old content ≡ (true, some content)
  pub reads : (content : Bytes) → fs.open_for_reading (some content) ≡ some content
  pub renames : (f : Files) → fs.rename f ≡ (0, record f { target = f.temporary; temporary = none })

abbrev pub text_of : Snapshot → Bytes
text_of s = dump (snapshot_to_json s) ++ 10 ∷ []

rename_cases :
    (fs : FileSystem) (f : Files)
    → IsAtomic fs
    → (((commit_rename fs f).0 ≡ ok tt) × ((commit_rename fs f).1.target ≡ f.temporary))
      ⊎ ((ex : Exception) × ((commit_rename fs f).0 ≡ throw ex)
          × ((commit_rename fs f).1.target ≡ f.target))
unfolding commit_rename
rename_cases fs f atomic = elim (atomic f) [
  | inl done ↦ rw done (inl (refl, refl))
  | inr (code, failed, same) ↦ rw same (rw failed (inr (_, refl, refl)))
]

rename_reliable :
    (fs : FileSystem) (f : Files)
    → IsReliable fs
    → commit_rename fs f ≡ (ok tt, record f { target = f.temporary; temporary = none })
unfolding commit_rename
rename_reliable fs f reliable = rw (reliable.renames f) refl

store_cases :
    (fs : FileSystem) (s : Snapshot) (f : Files)
    → IsFaithful fs
    → (((store fs s f).0 ≡ ok tt) × ((store fs s f).1.target ≡ some (text_of s)))
      ⊎ ((ex : Exception) × ((store fs s f).0 ≡ throw ex) × ((store fs s f).1.target ≡ f.target))
unfolding store
store_cases fs s f faithful =
    let written = fs.write_truncated f.temporary (text_of s) in
    let cases = rename_cases fs (record f { temporary = written.1 }) faithful.renames in
    elim (Bool-cases written.0) [
      | inl good ↦ rw good (elim cases [
        | inl (done, there) ↦ inl (done, there ∙ faithful.writes f.temporary (text_of s) good)
        | inr failed ↦ inr failed
      ])
      | inr bad ↦ rw bad (inr (_, refl, refl))
    ]

load_text :
    (fs : FileSystem) (s : Snapshot) (f : Files)
    → IsStorable s
    → fs.open_for_reading f.target ≡ some (text_of s)
    → load fs f ≡ some s
unfolding load skip_whitespace
load_text fs s f h opened =
    ap (λ o. given o (λ content. given (parse content) snapshot_from_json)) opened
    ∙ ap (λ o. given o snapshot_from_json)
        (parse-dump_spaced (snapshot_to_json s) (10 ∷ []) (snapshot_to_json-IsReadable s h) refl
          refl)
    ∙ snapshot_from-to s h

same_target : (fs : FileSystem) (f f' : Files) → f'.target ≡ f.target → load fs f' ≡ load fs f
unfolding load
same_target fs f f' e =
    ap (λ o. given (fs.open_for_reading o) (λ content. given (parse content) snapshot_from_json)) e

-- An opening that fails gives no snapshot.
load_unopened :
    (fs : FileSystem) (f : Files) → fs.open_for_reading f.target ≡ none → load fs f ≡ none
unfolding load
load_unopened fs f e = rw e refl

-- Whatever call of the file system fails, store either returns, and load then gives the snapshot
-- that was stored, or nothing if the file cannot be opened, or it throws, and load then gives what it
-- gave before: if a write after which the stream is good has written the text, a file that is opened
-- is read whole, a rename replaces the target at once or changes nothing, and the LSN and the
-- numbers of the accounts are below 2^63.
pub load-store :
    (fs : FileSystem) (s : Snapshot) (f : Files)
    → IsFaithful fs
    → IsStorable s
    → let (result, f') = store fs s f in
      ((result ≡ ok tt)
        × ((load fs f' ≡ some s) ⊎ ((fs.open_for_reading f'.target ≡ none) × (load fs f' ≡ none))))
      ⊎ ((ex : Exception) × (result ≡ throw ex) × (load fs f' ≡ load fs f))
load-store fs s f faithful storable = elim (store_cases fs s f faithful) [
  | inl (returned, there) ↦ inl (
    returned,
    elim (faithful.reads (text_of s)) [
      | inl opened ↦
          inl (load_text fs s (store fs s f).1 storable (ap fs.open_for_reading there ∙ opened))
      | inr unopened ↦
          let e = ap fs.open_for_reading there ∙ unopened in
          inr (e, load_unopened fs (store fs s f).1 e)
    ],
  )
  | inr (ex, failed, kept) ↦ inr (ex, failed, same_target fs f (store fs s f).1 kept)
]

abbrev stored_files : Snapshot → Files
stored_files s = record { target = some (text_of s); temporary = none }

store_reliable :
    (fs : FileSystem) (s : Snapshot) (f : Files)
    → IsReliable fs
    → store fs s f ≡ (ok tt, stored_files s)
unfolding store
store_reliable fs s f reliable =
    let written : Files = record f { temporary = some (text_of s) } in
    rw (reliable.writes f.temporary (text_of s)) (rename_reliable fs written reliable)

-- On a file system whose calls succeed, a snapshot whose LSN and account numbers are below 2^63 is
-- stored, nothing is left at the temporary path, and load gives the snapshot.
pub load-store_reliable :
    (fs : FileSystem) (s : Snapshot) (f : Files)
    → IsReliable fs
    → IsStorable s
    → let (result, f') = store fs s f in
      (result ≡ ok tt) × (f'.temporary ≡ none) × (load fs f' ≡ some s)
load-store_reliable fs s f reliable storable =
    rw (store_reliable fs s f reliable)
      (refl, refl, load_text fs s (stored_files s) storable (reliable.reads (text_of s)))
