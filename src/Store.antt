-- ===== src/Store.antt =====
-- The PostgreSQL tables of migrations/000001_initial_schema.up.sql and the connection to them. A row
-- is a record, a table a list of rows in order of insertion, an SQL statement of the source a
-- function on the tables. What the outside decides (whether a call fails, the clock, new UUIDs, how
-- a UUID is written) is the interface `Env`.
pub mod Frame
pub mod Reading
pub mod Success
use double_entry_ledger_engi.Base.{
  ℕ, suc, ⊤, Bool, true, false, String, Option, none, some, List, Result, ok, err, Action, map_err,
  ◌>>=◌, ◌>>◌, pure, raise, lift, ◌∷◌,
}
use double_entry_ledger_engi.Domain.{
  AccountType, EntryType, TransactionState, Transaction, Metadata,
}
use double_entry_ledger_engi.Domain.Errors.{ValidationError}

-- uuid.UUID is an array of 16 bytes: a number.
abbrev pub Uuid : Type 0
Uuid = ℕ

pub record AccountRow : Type 0 where
  pub account_id : Uuid
  pub account_type : AccountType
  pub created_at : ℕ
  pub updated_at : ℕ
  pub metadata : Metadata

pub record CurrencyRow : Type 0 where
  pub account_id : Uuid
  pub currency_code : String
  pub allow_negative : Bool
  pub created_at : ℕ

pub record TransactionRow : Type 0 where
  pub transaction_id : Uuid
  pub idempotency_key : Option String
  pub state : TransactionState
  pub posted_at : ℕ
  pub settled_at : Option ℕ
  pub reversed_by : Option Uuid
  pub reverses : Option Uuid
  pub metadata : Metadata

pub record EntryRow (D : Type 0) : Type 0 where
  pub entry_id : Uuid
  pub transaction_id : Uuid
  pub account_id : Uuid
  pub currency_code : String
  pub amount : D
  pub entry_type : EntryType
  pub description : String
  pub created_at : ℕ

pub record KeyRow : Type 0 where
  pub key : String
  pub transaction_id : Uuid
  pub created_at : ℕ
  pub expires_at : ℕ

pub record SnapshotRow (D : Type 0) : Type 0 where
  pub account_id : Uuid
  pub currency_code : String
  pub settled_balance : D
  pub pending_debits : D
  pub pending_credits : D
  pub entry_count : ℕ
  pub snapshot_at : ℕ

pub record Db (D : Type 0) : Type 0 where
  pub accounts : List AccountRow
  pub account_currencies : List CurrencyRow
  pub transactions : List TransactionRow
  pub entries : List (EntryRow D)
  pub idempotency_keys : List KeyRow
  pub balance_snapshots : List (SnapshotRow D)

-- What the driver or the publisher reports: an SQLSTATE code, or another failure.
pub data Fault : Type 0 where
  pg_error : String → Fault
  other : String → Fault

-- A Go error. `wrapped` is fmt.Errorf with %w, `message` is fmt.Errorf without it.
pub data Error (D : Type 0) : Type 0 where
  validation : ValidationError D → Error D
  insufficient_balance : String → String → D → D → Error D
  driver : Fault → Error D
  wrapped : String → Error D → Error D
  message : String → String → Error D
  optimistic_lock : ℕ → ℕ → Error D
  context_done : Error D
  -- pgx.ErrNoRows, the driver's word for an empty result
  no_rows : Error D

-- The calls that leave the process.
pub data Call : Type 0 where
  begin_tx commit_tx publish : Call
  lock_account select_account select_currencies insert_account insert_currency : Call
  update_account select_version : Call
  insert_transaction insert_entry select_transaction select_entries update_transaction : Call
  select_key delete_key insert_key : Call
  select_snapshot : Call
  -- the paged reads: the count of the matching rows, a page, the currencies of an account
  select_count select_page select_codes : Call
  -- whether the query asks for row locks, and whether it starts from a snapshot
  sum_settled : Bool → Bool → Call
  sum_pending : Bool → Call

-- The answers are indexed by the number of calls made before. `parse` stands both for uuid.Parse and
-- for the reading of a UUID by PostgreSQL, which accept different spellings.
pub record Env : Type 0 where
  pub fault : ℕ → Call → Option Fault
  pub now : ℕ → ℕ
  pub new_uuid : ℕ → Uuid
  pub is_done : ℕ → Bool
  pub parse : String → Option Uuid
  pub to_string : Uuid → String

pub data Event (D : Type 0) : Type 0 where
  posted settled_event cancelled_event reversed : Transaction D → Event D

-- The committed tables, the tables as the open transaction sees them, the calls made so far and the
-- events published. No other session writes between a begin and its commit: under SERIALIZABLE a
-- conflict shows as a fault of a call.
pub record World (D : Type 0) : Type 0 where
  pub db : Db D
  pub tx : Db D
  pub tick : ℕ
  pub events : List (Event D)

-- Reads go through the pool or through the open transaction.
pub data Runner : Type 0 where
  pool in_tx : Runner

abbrev pub M : Type 0 → Type 0 → Type 0
M D A = Action (World D) (Error D) A

module _ {D : Type 0} where
  abbrev pub tables : Runner → World D → Db D
  tables pool w = w.db
  tables in_tx w = w.tx

  unfoldable pub reads : {A : Type 0} → Runner → (Db D → A) → M D A
  reads r f w = (ok (f (tables r w)), w)

  unfoldable pub write_tx : (Db D → Db D) → M D ⊤
  write_tx f w = (ok tt, record w { tx = f w.tx })

  unfoldable pub write_pool : (Db D → Db D) → M D ⊤
  write_pool f w = (ok tt, record w { db = f w.db })

  abbrev outcome : Option Fault → Result (Error D) ⊤
  outcome none = ok tt
  outcome (some e) = err (driver e)

  module _ (env : Env) where
    unfoldable pub call : Call → M D ⊤
    call c w = (outcome (env.fault w.tick c), record w { tick = suc w.tick })

    -- time.Now()
    unfoldable pub now : M D ℕ
    now w = (ok (env.now w.tick), record w { tick = suc w.tick })

    -- uuid.New()
    unfoldable pub new_uuid : M D Uuid
    new_uuid w = (ok (env.new_uuid w.tick), record w { tick = suc w.tick })

    unfoldable pub begin : M D ⊤
    begin w = (outcome (env.fault w.tick begin_tx), record w { tx = w.db; tick = suc w.tick })

    unfoldable pub commit : M D ⊤
    commit w = elim (env.fault w.tick commit_tx) [
      | none ↦ (ok tt, record w { db = w.tx; tick = suc w.tick })
      | some e ↦ (err (driver e), record w { tick = suc w.tick })
    ]

    -- The publisher is told before the commit; what it has taken stays.
    unfoldable pub emit : Event D → M D ⊤
    emit e w = elim (env.fault w.tick publish) [
      | none ↦ (ok tt, record w { events = e ∷ w.events; tick = suc w.tick })
      | some x ↦ (err (driver x), record w { tick = suc w.tick })
    ]

  unfoldable pub wrap : {A : Type 0} → String → M D A → M D A
  unfolding map_err
  wrap text = map_err (wrapped text)

  -- Running a call: what unfolds this name computes through every step.
  unfoldable pub run : {A : Type 0} → M D A → World D → Result (Error D) A × World D
  unfolding ◌>>=◌ map_err pure raise lift reads write_tx write_pool call now new_uuid begin commit
      emit wrap
  run m w = m w
