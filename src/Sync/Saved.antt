-- ===== src/Sync/Saved.antt =====
-- What `save_transactions_to_db` leaves in the table.
use contract_abstract.Prelude.{
  ℕ, ◌+◌, ◌≡◌, refl, sym, ap, subst, ◌∙◌, Text, codes, Bool, true, false, Option, none, some, List,
  [], ◌∷◌, ◌++◌, length, length-append, append_assoc, append-nil, arith, Bool-cases, inl, inr,
}
use mathlib.Core.Option.{some-injective}
use contract_abstract.Layout.Types.{chain}
use contract_abstract.Sync.Save.{
  TxRow, Tx, Table, has_hash, int_field, to_row, put, commit, insert, insert_all,
  save_transactions_to_db,
}
use contract_abstract.Sync.Keys.{
  IsKeyed, has_hash-append, has_hash-before, has_hash-key, IsKeyed-append,
}

module _ (int : Text → Option ℕ) (accepts : TxRow → Bool) where
  to_row-hash :
      (tx : Tx) (row : TxRow) → to_row int accepts tx ≡ some row → row.hash ≡ tx (codes "hash")
  unfolding to_row
  to_row-hash tx row e =
      chain (int_field int accepts (tx (codes "blockNumber")))
        (λ _ _. chain (int_field int accepts (tx (codes "timeStamp"))) (λ _ _.
          chain (int_field int accepts (tx (codes "nonce"))) (λ _ _.
            chain (int_field int accepts (tx (codes "transactionIndex"))) (λ _ _.
              chain (int_field int accepts (tx (codes "gas"))) (λ _ _.
                chain (int_field int accepts (tx (codes "gasPrice"))) (λ _ _.
                  chain (int_field int accepts (tx (codes "cumulativeGasUsed"))) (λ _ _.
                    chain (int_field int accepts (tx (codes "txreceipt_status"))) (λ _ _.
                      chain (int_field int accepts (tx (codes "gasUsed"))) (λ _ _.
                        chain (int_field int accepts (tx (codes "confirmations"))) (λ _ _.
                          chain (int_field int accepts (tx (codes "isError"))) (λ _ _.
                            λ f. sym (ap (λ r. r.hash) (some-injective (_) row f)))))))))))))
        e

  -- The transaction's row is one that the database takes, and the table has its key.
  pub record Stored (tx : Tx) (table : Table) : Type 0 where
    pub row : TxRow
    pub key : Text
    pub converts : to_row int accepts tx ≡ some row
    pub accepted : accepts row ≡ true
    pub tx_key : tx (codes "hash") ≡ some key
    pub present : has_hash key table ≡ true

  abbrev pub AllStored : List Tx → Table → Type 0
  AllStored [] table = Unit
  AllStored (tx ∷ txs) table = Stored tx table × AllStored txs table

  pub AllStored-before :
      (txs : List Tx) (t new : Table) → AllStored txs t → AllStored txs (t ++ new)
  AllStored-before [] t new h = tt
  AllStored-before (tx ∷ txs) t new (s, h) = (
    record {
      row = s.row;
      key = s.key;
      converts = s.converts;
      accepted = s.accepted;
      tx_key = s.tx_key;
      present = has_hash-before s.key t new s.present;
    },
    AllStored-before txs t new h,
  )

  -- What one statement does to a table.
  record Inserts (row : TxRow) (table : Table) (r : ℕ × Table) : Type 0 where
    key : Text
    row_key : row.hash ≡ some key
    accepted : accepts row ≡ true
    present : has_hash key r.1 ≡ true
    new : Table
    after : r.1 ≡ table ++ new
    counted : length new ≡ r.0
    keyed : IsKeyed table → IsKeyed r.1

  put-Inserts :
      (k : Option Text) (allowed : Bool) (row : TxRow) (table : Table) (r : ℕ × Table)
      → row.hash ≡ k
      → accepts row ≡ allowed
      → put k allowed row table ≡ some r
      → Inserts row table r
  unfolding put
  put-Inserts none allowed row table r e a p = cc p
  put-Inserts (some h) false row table r e a p = cc p
  put-Inserts (some h) true row table r e a p = elim (Bool-cases (has_hash h table)) [
    | inl there ↦
        let q : some (0, table) ≡ some r = rw there at p in
        subst (Inserts row table) (some-injective (0, table) r q) (record {
          key = h;
          row_key = e;
          accepted = a;
          present = there;
          new = [];
          after = sym (append-nil table);
          counted = refl;
          keyed = λ k. k;
        })
    | inr fresh ↦
        let q : some (1, table ++ row ∷ []) ≡ some r = rw fresh at p in
        subst (Inserts row table) (some-injective (1, table ++ row ∷ []) r q) (record {
          key = h;
          row_key = e;
          accepted = a;
          present = rw (has_hash-append h table (row ∷ []), fresh) (has_hash-key h row e);
          new = row ∷ [];
          after = refl;
          counted = refl;
          keyed = λ k. IsKeyed-append h row table e fresh k;
        })
  ]

  -- The rows in front, the count of what is added, the transactions' keys, and the key of the table.
  pub record Saves (txs : List Tx) (count : ℕ) (table after : Table) : Type 0 where
    pub new : Table
    pub appended : after ≡ table ++ new
    pub counted : length new ≡ count
    pub stored : AllStored txs after
    pub keyed : IsKeyed table → IsKeyed after

  Saves-cons :
      (tx : Tx) (txs : List Tx) (row : TxRow) (n : ℕ) (table after : Table) (r : ℕ × Table)
      → to_row int accepts tx ≡ some row
      → Inserts row table r
      → Saves txs n r.1 after
      → Saves (tx ∷ txs) (r.0 + n) table after
  Saves-cons tx txs row n table after r conv one rest =
      let grown : after ≡ r.1 ++ rest.new = rest.appended in
      record {
        new = one.new ++ rest.new;
        appended =
            grown ∙ (ap (λ t. t ++ rest.new) one.after ∙ append_assoc table one.new rest.new);
        counted = omega (arith, length-append one.new rest.new, one.counted, rest.counted);
        stored = (
          record {
            row = row;
            key = one.key;
            converts = conv;
            accepted = one.accepted;
            tx_key = sym (to_row-hash tx row conv) ∙ one.row_key;
            present =
                subst (λ t. has_hash one.key t ≡ true) (sym grown)
                  (has_hash-before one.key r.1 rest.new one.present);
          },
          rest.stored,
        );
        keyed = λ k. rest.keyed (one.keyed k);
      }

  insert_all-Saves :
      (txs : List Tx) (c : ℕ) (table : Table) (r : ℕ × Table)
      → insert_all int accepts txs c table ≡ some r
      → (n : ℕ) × ((r.0 ≡ c + n) × Saves txs n table r.1)
  unfolding insert_all insert
  insert_all-Saves [] c table r e =
      let q = some-injective (c, table) r e in
      subst (λ r. (n : ℕ) × ((r.0 ≡ c + n) × Saves [] n table r.1)) q
        (
          0,
          (
            omega arith,
            record {
              new = [];
              appended = sym (append-nil table);
              counted = refl;
              stored = tt;
              keyed = λ k. k;
            },
          ),
        )
  insert_all-Saves (tx ∷ txs) c table r e =
      chain (to_row int accepts tx)
        (λ row conv more.
          chain (put row.hash (accepts row) row table)
            (λ s did others.
              let one = put-Inserts row.hash (accepts row) row table s refl refl did in
              let (n, (count, rest)) = insert_all-Saves txs (c + s.0) s.1 r others in
              (s.0 + n, (omega (arith, count), Saves-cons tx txs row n table r.1 s conv one rest)))
            more)
        e

  abbrev pub Outcome : List Tx → Table → Option ℕ × Table → Type 0
  Outcome txs table (none, after) = after ≡ table
  Outcome txs table (some count, after) = Saves txs count table after

  commit-Outcome :
      (txs : List Tx) (table : Table) (o : Option (ℕ × Table))
      → insert_all int accepts txs 0 table ≡ o
      → Outcome txs table (commit table o)
  unfolding commit
  commit-Outcome txs table none e = refl
  commit-Outcome txs table (some (count, after)) e =
      let (n, (c, saves)) = insert_all-Saves txs 0 table (count, after) e in
      let same : n ≡ count = omega (arith, c) in subst (λ n. Saves txs n table after) same saves

  -- A call that raises leaves the table as it was. One that returns leaves the old rows where they
  -- were, has appended as many as it returns, keeps every key unique, and has each transaction's
  -- hash in the table.
  pub save_transactions_to_db_lem :
      (txs : List Tx) (table : Table)
      → Outcome txs table (save_transactions_to_db int accepts txs table)
  unfolding save_transactions_to_db
  save_transactions_to_db_lem txs table =
      commit-Outcome txs table (insert_all int accepts txs 0 table) refl

  insert_all-AllStored :
      (txs : List Tx) (c : ℕ) (table : Table)
      → AllStored txs table
      → insert_all int accepts txs c table ≡ some (c, table)
  unfolding insert_all insert put
  insert_all-AllStored [] c table h = refl
  insert_all-AllStored (tx ∷ txs) c table (s, h) =
      let key : s.row.hash ≡ some s.key = to_row-hash tx s.row s.converts ∙ s.tx_key in
      let still : put s.row.hash (accepts s.row) s.row table ≡ some (0, table) =
        ap (λ k. put k (accepts s.row) s.row table) key
        ∙ (ap (λ b. put (some s.key) b s.row table) s.accepted ∙ rw s.present refl) in
      let same : c + 0 ≡ c = omega arith in
      rw s.converts (rw still (rw same (insert_all-AllStored txs c table h)))

  -- What has been saved once is saved for good: the same transactions again add nothing.
  pub save_transactions_to_db-again :
      (txs : List Tx) (count : ℕ) (table after : Table)
      → save_transactions_to_db int accepts txs table ≡ (some count, after)
      → save_transactions_to_db int accepts txs after ≡ (some 0, after)
  unfolding save_transactions_to_db
  save_transactions_to_db-again txs count table after e =
      let saves : Saves txs count table after =
        subst (Outcome txs table) e (save_transactions_to_db_lem txs table) in
      ap (commit after) (insert_all-AllStored txs 0 after saves.stored)
