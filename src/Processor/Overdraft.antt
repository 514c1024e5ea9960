-- ===== src/Processor/Overdraft.antt =====
-- What validateAccountsForPost guarantees of the accounts of a request.
use double_entry_ledger_engi.Processor.{EntryRequest}
use double_entry_ledger_engi.Processor.Net.{eq_of_same}
use double_entry_ledger_engi.Processor.Keys.{Known, account_ids-AllKnown}
use double_entry_ledger_engi.Processor.Frames.{
  current_balance-OnlyReads, check_policy-OnlyReads, find_account-OnlyReads, check_parsed-OnlyReads,
  lock_multiple-OnlyReads,
}
use double_entry_ledger_engi.Store.Reading.{
  bind_ok, wrap-OnlyReads, wrap_ok, if-OnlyReads, pure-OnlyReads,
}
use double_entry_ledger_engi.Accounts.{scan_currency, get_account, Account}
use double_entry_ledger_engi.Balance.{latest_snapshot, get_current_balance_in_tx}
use double_entry_ledger_engi.Processor.Validate.{
  check_balance, check_policy, policy, check_impacts, check_parsed, find_account, check_accounts,
  validate_accounts_for_post,
}
use double_entry_ledger_engi.Balance.Current.{AgreesWith, live_balance, current_balance_agrees}
use double_entry_ledger_engi.Domain.{AccountCurrency, Balance}
use double_entry_ledger_engi.Processor.Impacts.{Impact, balance_impacts, account_ids}
use double_entry_ledger_engi.Store.{Db, Uuid, Env, World, run, CurrencyRow, M, in_tx}
use double_entry_ledger_engi.Decimal.{Decimal, DecimalLaws}
use double_entry_ledger_engi.Base.{
  All-map, All-apply, All-of_each, List, String, Bool, map, same, ◌≡◌, ◌⊎◌, some, true, Option,
  false, filter, ok, Bool-cases, inl, ◌==◌, arith, inr, none, subst, refl, ◌∙◌, ap, if◌then◌else◌,
  ◌∷◌, [], not, sym, ◌&&◌, All,
}

known_or :
    {C : Type 0} (b c : Bool) → (b ≡ true → C) → (c ≡ true → C) → (if b then true else c) ≡ true → C
known_or true c f g h = f refl
known_or false c f g h = g h

module _ {D : Type 0} where
  abbrev pub currencies_of : Db D → Uuid → List AccountCurrency
  currencies_of db id =
      map scan_currency (filter (λ (c : CurrencyRow). c.account_id == id) db.account_currencies)

module _ {D : Type 0} ⦃dec : Decimal D⦄ (laws : DecimalLaws D dec) where
  open laws use {Number, value, plus, value-add, Nonneg, nonneg_iff}

  -- An account that must not become negative is not taken below zero by the impact.
  abbrev pub NoOverdraft : Db D → Uuid → Impact D → Type 0
  NoOverdraft db id i =
      Nonneg (value i.amount) ⊎ Nonneg (plus (live_balance laws db id i.currency) (value i.amount))

  -- The account has the currency, and either allows a negative balance or is not overdrawn.
  abbrev pub IsAllowed : Db D → Uuid → Impact D → Type 0
  IsAllowed db id i =
      (allow : Bool) × (policy i.currency (currencies_of db id) ≡ some allow)
      × ((allow ≡ true) ⊎ NoOverdraft db id i)

  abbrev pub IsCovered : Env → Db D → Impact D → Type 0
  IsCovered env db i = (id : Uuid) × (env.parse i.account_id ≡ some id) × IsAllowed db id i

  -- The newest snapshot of every account and currency agrees with the entries.
  abbrev pub SnapshotsAgree : Db D → Type 0
  SnapshotsAgree db =
      (id : Uuid) (currency : String)
      → AgreesWith laws db id currency (latest_snapshot db id currency)

  module _ (env : Env) where
    check_balance_ok :
        (account : String) (i : Impact D) (b : Balance D) (w : World D) (x : Number)
        → (check_balance env account i b w).0 ≡ ok tt
        → value b.available_balance ≡ x
        → Nonneg (plus x (value i.amount))
    unfolding check_balance run
    check_balance_ok account i b w x h e =
        elim (Bool-cases (dec.is_negative (dec.add b.available_balance i.amount))) [
          | inl n ↦ absurd (ground arith)
          | inr n ↦
              subst Nonneg (value-add _ _ ∙ ap (λ y. plus y (value i.amount)) e)
                ((nonneg_iff _).0 n)
        ]

    then_ok :
        {A : Type 0} (b : Bool) (m k : M D A) (w : World D) (a : A)
        → b ≡ true
        → ((if not false && b then m else k) w).0 ≡ ok a
        → (m w).0 ≡ ok a
    then_ok true m k w a e h = h
    then_ok false m k w a e h = absurd cc

    strict_ok :
        (id : Uuid) (account : String) (i : Impact D) (w : World D)
        → SnapshotsAgree w.tx
        → (check_policy env id account i (some false) w).0 ≡ ok tt
        → NoOverdraft w.tx id i
    unfolding check_policy get_current_balance_in_tx
    strict_ok id account i w agree h = elim (Bool-cases (dec.is_negative i.amount)) [
      | inr n ↦ inl ((nonneg_iff i.amount).0 n)
      | inl n ↦
          let (b, v, found_b, _, checked) =
            bind_ok _ (check_balance env account i) w tt
              (wrap-OnlyReads _ _ (current_balance-OnlyReads env in_tx true id i.currency))
              (then_ok _ _ _ w tt n h) in
          inr (
            check_balance_ok account i b v _ checked (
              (current_balance_agrees laws env in_tx true id i.currency w b (agree id i.currency)
                (wrap_ok _ _ w b found_b)).0))
    ]

    check_policy_ok :
        (id : Uuid) (account : String) (i : Impact D) (o : Option Bool) (w : World D)
        → SnapshotsAgree w.tx
        → policy i.currency (currencies_of w.tx id) ≡ o
        → (check_policy env id account i o w).0 ≡ ok tt
        → IsAllowed w.tx id i
    unfolding check_policy run
    check_policy_ok id account i none w agree e h = absurd cc
    check_policy_ok id account i (some true) w agree e h = (true, e, inl refl)
    check_policy_ok id account i (some false) w agree e h =
        (false, e, inr (strict_ok id account i w agree h))

    if_ok :
        {A : Type 0} (b : Bool) (m k : M D A) (w : World D) (a : A)
        → b ≡ true
        → ((if b then m else k) w).0 ≡ ok a
        → (m w).0 ≡ ok a
    if_ok true m k w a e h = h
    if_ok false m k w a e h = absurd cc

    -- What a success says of the impacts of one account.
    check_impacts_ok :
        (db : Db D) (id : Uuid) (account : String) (is : List (Impact D)) (w : World D)
        → SnapshotsAgree db
        → w.tx ≡ db
        → (check_impacts env id account (currencies_of db id) is w).0 ≡ ok tt
        → All (λ (i : Impact D). same i.account_id account ≡ true → IsAllowed db id i) is
    unfolding check_impacts
    check_impacts_ok db id account [] w agree e h = tt
    check_impacts_ok db id account (i ∷ is) w agree e h =
        let (u, v, first, stays, rest) =
          bind_ok _ (λ _. check_impacts env id account (currencies_of db id) is) w tt
            (if-OnlyReads _ _ _ (check_policy-OnlyReads env id account i _) (pure-OnlyReads tt))
            h in
        (
          λ k.
              subst (λ d. IsAllowed d id i) e
                (check_policy_ok id account i _ w (subst SnapshotsAgree (sym e) agree)
                  (ap (λ d. policy i.currency (currencies_of d id)) e) (if_ok _ _ _ w tt k first)),
          check_impacts_ok db id account is v agree (stays ∙ e) rest,
        )

    find_account_ok :
        (account : String) (id : Uuid) (w : World D) (a : Account)
        → (find_account env account id w).0 ≡ ok a
        → a.currencies ≡ currencies_of w.tx id
    unfolding find_account get_account run
    find_account_ok account id w a h = ground arith

    check_parsed_ok :
        (db : Db D) (is : List (Impact D)) (account : String) (o : Option Uuid) (w : World D)
        → SnapshotsAgree db
        → w.tx ≡ db
        → env.parse account ≡ o
        → (check_parsed env is account o w).0 ≡ ok tt
        → All (λ (i : Impact D). same i.account_id account ≡ true → IsCovered env db i) is
    unfolding check_parsed run
    check_parsed_ok db is account none w agree e p h = absurd cc
    check_parsed_ok db is account (some id) w agree e p h =
        let (a, v, found, stays, rest) =
          bind_ok _ (λ (a : Account). check_impacts env id account a.currencies is) w tt
            (find_account-OnlyReads env account id) h in
        All-map (λ i allowed k. (id, ap env.parse (eq_of_same _ _ k) ∙ p, allowed k)) is
          (check_impacts_ok db id account is v agree (stays ∙ e) (
            subst (λ cs. (check_impacts env id account cs is v).0 ≡ ok tt)
              (find_account_ok account id w a found ∙ ap (λ d. currencies_of d id) e) rest))

    either_account :
        (db : Db D) (account : String) (rest : List String) (is : List (Impact D))
        → All (λ (i : Impact D). same i.account_id account ≡ true → IsCovered env db i) is
        → All (λ (i : Impact D). Known rest i.account_id → IsCovered env db i) is
        → All (λ (i : Impact D). Known (account ∷ rest) i.account_id → IsCovered env db i) is
    either_account db account rest [] h k = tt
    either_account db account rest (i ∷ is) h k =
        (known_or (same i.account_id account) _ h.0 k.0, either_account db account rest is h.1 k.1)

    check_accounts_ok :
        (db : Db D) (is : List (Impact D)) (accounts : List String) (w : World D)
        → SnapshotsAgree db
        → w.tx ≡ db
        → (check_accounts env is accounts w).0 ≡ ok tt
        → All (λ (i : Impact D). Known accounts i.account_id → IsCovered env db i) is
    unfolding check_accounts
    check_accounts_ok db is [] w agree e h = All-of_each (λ i k. absurd cc) is
    check_accounts_ok db is (account ∷ rest) w agree e h =
        let (u, v, first, stays, others) =
          bind_ok _ (λ _. check_accounts env is rest) w tt (check_parsed-OnlyReads env is account _)
            h in
        either_account db account rest is (check_parsed_ok db is account _ w agree e refl first)
          (check_accounts_ok db is rest v agree (stays ∙ e) others)

    -- When the check succeeds and the newest snapshots agree with the entries, every impact of the
    -- request is on an account whose identifier is a UUID and which has the currency, and it either
    -- allows negative balances, is not decreased, or stays at zero or above.
    pub validate_accounts_for_post-IsCovered :
        (with_locks : Bool) (es : List (EntryRequest D)) (w : World D)
        → SnapshotsAgree w.tx
        → (validate_accounts_for_post env with_locks es w).0 ≡ ok tt
        → All (IsCovered env w.tx) (balance_impacts es)
    unfolding validate_accounts_for_post
    validate_accounts_for_post-IsCovered with_locks es w agree h =
        let (u, v, _, stays, checked) =
          bind_ok _ (λ _. check_accounts env (balance_impacts es) (account_ids es)) w tt
            (if-OnlyReads _ _ _ (lock_multiple-OnlyReads env (account_ids es)) (pure-OnlyReads tt))
            h in
        All-apply _ _ (balance_impacts es)
          (check_accounts_ok w.tx (balance_impacts es) (account_ids es) v agree stays checked)
          (account_ids-AllKnown es)
