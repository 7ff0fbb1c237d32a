-- ===== src/Persistence/InMemory.antt =====
-- src/persistence/InMemory*Repository.h: the container-backed repositories.
pub mod Laws
use bank_managment_system.Prelude.{
  ℕ, ◌==◌, Bool, true, false, not, ◌&&◌, ◌||◌, if◌then◌else◌, Option, none, some, List, [], ◌∷◌,
  ◌++◌,
}
use bank_managment_system.Prelude.Int.{ℤ, ltb_ℤ}
use bank_managment_system.Prelude.Text.{Bytes, text_eq}
use bank_managment_system.Prelude.Exec.{Exec, gets, modify}
use bank_managment_system.Prelude.OrderedMap.{OrderedMap, lookup, insert_or_assign, erase, values}
use bank_managment_system.Domain.Types.{AccountId, CustomerId}
use bank_managment_system.Domain.Account.{Account}
use bank_managment_system.Domain.Customer.{Customer}
use bank_managment_system.Domain.Transaction.{TransactionRecord}
use bank_managment_system.Domain.AuditEntry.{AuditEntry, AuditFilter}
use bank_managment_system.Persistence.Repository.{
  AccountRepository, TransactionRepository, AuditRepository, CustomerRepository,
}

-- InMemoryAccountRepository: std::map<uint64_t, Account>.
abbrev pub Accounts : Type 0
Accounts = OrderedMap Account

abbrev pub find_by_id : AccountId → Exec Accounts (Option Account)
find_by_id id = gets (lookup id)

abbrev pub all_accounts : Exec Accounts (List Account)
all_accounts = gets values

abbrev pub save : Account → Exec Accounts (Unit {0})
save a = modify (insert_or_assign a.id a)

abbrev pub remove : AccountId → Exec Accounts (Unit {0})
remove id = modify (erase id)

abbrev pub in_memory_accounts : AccountRepository
in_memory_accounts = record {
  State = Accounts;
  find_by_id = find_by_id;
  all = all_accounts;
  save = save;
  remove = remove;
}

-- InMemoryTransactionRepository: std::vector<TransactionRecord>.
abbrev pub is_id : Option AccountId → AccountId → Bool
is_id none id = false
is_id (some i) id = i == id

abbrev pub involves : AccountId → TransactionRecord → Bool
involves id r = is_id r.from id || is_id r.to id

unfoldable pub records_for : AccountId → List TransactionRecord → List TransactionRecord
records_for id [] = []
records_for id (r ∷ rest) =
    let later = records_for id rest in if involves id r then r ∷ later else later

abbrev pub append_record : TransactionRecord → Exec (List TransactionRecord) (Unit {0})
append_record r = modify (λ records. records ++ r ∷ [])

abbrev pub for_account : AccountId → Exec (List TransactionRecord) (List TransactionRecord)
for_account id = gets (records_for id)

abbrev pub in_memory_transactions : TransactionRepository
in_memory_transactions = record {
  State = List TransactionRecord;
  append = append_record;
  for_account = for_account;
  all = gets (λ records. records);
}

-- InMemoryAuditRepository: std::vector<AuditEntry>. The tests by which an entry is passed over.
abbrev pub other_text : Option Bytes → Bytes → Bool
other_text none s = false
other_text (some t) s = not (text_eq t s)

abbrev pub other_actor : Option CustomerId → CustomerId → Bool
other_actor none id = false
other_actor (some i) id = not (i == id)

abbrev pub before : ℤ → Option ℤ → Bool
before t none = false
before t (some since) = ltb_ℤ t since

abbrev pub passed_over : AuditFilter → AuditEntry → Bool
passed_over f e =
    other_text f.action e.action || other_actor f.actor e.actor_id || before e.timestamp f.since

unfoldable pub find_entries : AuditFilter → List AuditEntry → List AuditEntry
find_entries f [] = []
find_entries f (e ∷ rest) =
    let later = find_entries f rest in if passed_over f e then later else e ∷ later

abbrev pub append_entry : AuditEntry → Exec (List AuditEntry) (Unit {0})
append_entry e = modify (λ entries. entries ++ e ∷ [])

abbrev pub in_memory_audit : AuditRepository
in_memory_audit = record {
  State = List AuditEntry;
  append = append_entry;
  find = λ f. gets (find_entries f);
}

-- InMemoryCustomerRepository: std::map<uint64_t, Customer>.
abbrev pub find_customer : CustomerId → Exec (OrderedMap Customer) (Option Customer)
find_customer id = gets (lookup id)

abbrev pub save_customer : Customer → Exec (OrderedMap Customer) (Unit {0})
save_customer c = modify (insert_or_assign c.id c)

abbrev pub in_memory_customers : CustomerRepository
in_memory_customers = record {
  State = OrderedMap Customer;
  find_by_id = find_customer;
  save = save_customer;
}
