-- ===== src/Persistence/Snapshot/RoundTrip.antt =====
-- src/persistence/SnapshotStore.cpp: the object of a snapshot is read back.
use bank_managment_system.Prelude.{
  ◌^◌, ◌<◌, ◌≡◌, refl, ap, sym, ◌∙◌, Option, none, some, List, [], ◌∷◌, ◌++◌, All, append-nil,
  append_assoc,
}
use bank_managment_system.Prelude.Text.{text, text_eq}
use bank_managment_system.Domain.Account.{Account}
use bank_managment_system.Persistence.Json.{
  Value, Items, Members, as_integer, find, set_member, push_item,
}
use bank_managment_system.Persistence.Parser.Readable.{IsReadable, HasReadableItems}
use bank_managment_system.Persistence.Parser.Sound.{set_member-HasReadable, push_item-HasReadable}
use bank_managment_system.Persistence.Serializer.{to_int64, to_uint64, account_to_json}
use bank_managment_system.Persistence.Deserializer.Lines.{
  account_to_json-IsReadable, to_int64_small,
}
use bank_managment_system.Persistence.Deserializer.RoundTrip.{
  account_from_json-account_to_json, to_int64-small,
}
use bank_managment_system.Persistence.Deserializer.{given, account_from_json}
use bank_managment_system.Persistence.Snapshot.{
  Snapshot, push_accounts, snapshot_to_json, read_accounts, snapshot_from_json,
}

-- The accounts that are read back.
pub record IsStorableAccount (a : Account) : Type 0 where
  pub id_small : a.id < 2 ^ 63
  pub owner_small : a.owner_id < 2 ^ 63
  pub balance_fits : a.balance.cents < 2 ^ 63
  pub version_small : a.version < 2 ^ 63

abbrev pub IsStorable : Snapshot → Type 0
IsStorable s = (s.lsn < 2 ^ 63) × All IsStorableAccount s.accounts

snoc_given :
    (o : Option Account) (p : Option (List Account)) (last : List Account)
    → given o (λ b. given (given p (λ bs. some (bs ++ last))) (λ bs. some (b ∷ bs)))
      ≡ given (given o (λ b. given p (λ bs. some (b ∷ bs)))) (λ bs. some (bs ++ last))
snoc_given none p last = refl
snoc_given (some b) none last = refl
snoc_given (some b) (some bs) last = refl

read_accounts-push :
    (v : Value) (a : Account) (xs : Items)
    → account_from_json v ≡ some a
    → read_accounts (push_item v xs) ≡ given (read_accounts xs) (λ found. some (found ++ a ∷ []))
unfolding read_accounts push_item
read_accounts-push v a Items.nil e = rw e refl
read_accounts-push v a (Items.item w xs) e =
    rw (read_accounts-push v a xs e) (snoc_given (account_from_json w) (read_accounts xs) (a ∷ []))

storable-Readable : (a : Account) → IsStorableAccount a → IsReadable (account_to_json a)
storable-Readable a h =
    account_to_json-IsReadable a h.id_small h.owner_small h.balance_fits h.version_small

push_accounts-Readable :
    (xs : Items) (accounts : List Account)
    → HasReadableItems xs
    → All IsStorableAccount accounts
    → HasReadableItems (push_accounts xs accounts)
unfolding push_accounts
push_accounts-Readable xs [] h storable = h
push_accounts-Readable xs (a ∷ accounts) h storable =
    push_accounts-Readable (push_item (account_to_json a) xs) accounts
      (push_item-HasReadable (account_to_json a) xs (storable-Readable a storable.0) h) storable.1

read_accounts-push_accounts :
    (xs : Items) (found accounts : List Account)
    → read_accounts xs ≡ some found
    → All IsStorableAccount accounts
    → read_accounts (push_accounts xs accounts) ≡ some (found ++ accounts)
unfolding push_accounts
read_accounts-push_accounts xs found [] h storable = h ∙ ap some (sym (append-nil found))
read_accounts-push_accounts xs found (a ∷ accounts) h storable =
    let k = storable.0 in
    read_accounts-push_accounts (push_item (account_to_json a) xs) (found ++ a ∷ []) accounts
      (read_accounts-push (account_to_json a) a xs
          (account_from_json-account_to_json a k.id_small k.owner_small k.version_small)
        ∙ ap (λ o. given o (λ bs. some (bs ++ a ∷ []))) h)
      storable.1
    ∙ ap some (append_assoc found (a ∷ []) accounts)

pub snapshot_to_json-IsReadable : (s : Snapshot) → IsStorable s → IsReadable (snapshot_to_json s)
unfolding snapshot_to_json
snapshot_to_json-IsReadable s h =
    set_member-HasReadable (text "accounts") (Value.array (push_accounts Items.nil s.accounts))
      (set_member (text "lsn") (Value.integer (to_int64 s.lsn)) Members.end)
      (push_accounts-Readable Items.nil s.accounts tt h.1)
      (set_member-HasReadable (text "lsn") (Value.integer (to_int64 s.lsn)) Members.end
        (to_int64_small s.lsn h.0) tt)

module _ (s : Snapshot) where
  found_lsn : find (text "lsn") (snapshot_to_json s) ≡ some (Value.integer (to_int64 s.lsn))
  unfolding snapshot_to_json find text text_eq
  found_lsn = refl

  found_accounts :
      find (text "accounts") (snapshot_to_json s)
      ≡ some (Value.array (push_accounts Items.nil s.accounts))
  unfolding snapshot_to_json find text text_eq
  found_accounts = refl

read_nil : read_accounts Items.nil ≡ some []
unfolding read_accounts
read_nil = refl

pub snapshot_from-to :
    (s : Snapshot) → IsStorable s → snapshot_from_json (snapshot_to_json s) ≡ some s
unfolding snapshot_from_json as_integer to_uint64
snapshot_from-to s h =
    rw
      (
        found_lsn s,
        found_accounts s,
        read_accounts-push_accounts Items.nil [] s.accounts read_nil h.1,
        to_int64-small s.lsn h.0,
      )
      refl
