-- ===== src/Sync/Followed.antt =====
-- What the loop for new blocks keeps up.
use contract_abstract.Prelude.{
  ℕ, suc, ◌+◌, ◌≡◌, ◌≤◌, ◌<◌, ◌⊎◌, inl, inr, refl, sym, ap, subst, length, leb→le, Text, Bool, true,
  false, Option, none, some, List, [], ◌∷◌, ltb, leb, if◌then◌else◌, arith, append-nil, Bool-cases,
  ltb→lt,
}
use contract_abstract.Sync.Etherscan.{get_transactions_from_etherscan}
use contract_abstract.Sync.Save.{TxRow, Table}
use contract_abstract.Sync.Service.{Ending, done, error, pending, out_of_fuel, save_fetched}
use contract_abstract.Sync.CaughtUp.{
  IsKept, IsKept-trans, Covered, Covered-kept, Window, save_fetched-Window,
}
use contract_abstract.Sync.Monitor.{
  Round, Phase, running, exited, hanging, Watch, max_consecutive_errors, after_sync, on_latest,
  in_phase, monitor, watching,
}

module _ (int : Text → Option ℕ) (accepts : TxRow → Bool) where
  -- one of the rounds has covered the block
  abbrev pub SomeCovered : List Round → ℕ → Table → Type 0
  SomeCovered [] b table = ⊥
  SomeCovered (round ∷ rounds) b table =
      Covered int accepts round.txlist round.txlistinternal b table ⊎ SomeCovered rounds b table

  abbrev pub Follows : List Round → Watch → Watch → Type 0
  Follows rounds w after =
      (w.end_block ≤ after.end_block)
      × (IsKept w.table after.table
          × ((b : ℕ) → w.end_block < b → b ≤ after.end_block → SomeCovered rounds b after.table))

  same-Follows : (rounds : List Round) (w : Watch) → Follows rounds w w
  same-Follows rounds w =
      (omega arith, (([], sym (append-nil w.table)), λ b low high. absurd (omega arith)))

  after_sync-Follows :
      (round : Round) (w : Watch) (latest : ℕ) (r : Ending × Table)
      → w.end_block < latest
      → Window int accepts round.txlist round.txlistinternal
          (get_transactions_from_etherscan
            (round.txlist w.end_block latest)
            (round.txlistinternal w.end_block latest))
          w.table
          r
      → Follows (round ∷ []) w (after_sync w.end_block latest r)
  after_sync-Follows round w latest (done, t) lt (kept, (txs, (l, s))) = (
    omega arith,
    (
      kept,
      λ b low high. inl (record {
        first = w.end_block;
        last = latest;
        after_first = omega arith;
        before_last = high;
        txs = txs;
        listing = l;
        stored = s;
      }),
    ),
  )
  after_sync-Follows round w latest (error, t) lt kept =
      (omega arith, (kept, λ b low high. absurd (omega arith)))
  after_sync-Follows round w latest (pending, t) lt kept =
      (omega arith, (kept, λ b low high. absurd (omega arith)))
  after_sync-Follows round w latest (out_of_fuel, t) lt kept = elim kept [ ]

  on_latest-Follows :
      (latest : Option ℕ) (round : Round) (w : Watch)
      → Follows (round ∷ []) w (on_latest int accepts latest round w)
  unfolding on_latest
  on_latest-Follows none round w = same-Follows (round ∷ []) w
  on_latest-Follows (some latest) round w = elim (Bool-cases (ltb w.end_block latest)) [
    | inl e ↦
        let listing =
          get_transactions_from_etherscan (round.txlist w.end_block latest)
            (round.txlistinternal w.end_block latest) in
        let synced =
          after_sync-Follows round w latest
            (save_fetched int accepts round.txlist round.txlistinternal listing w.table)
            (ltb→lt w.end_block latest e)
            (save_fetched-Window int accepts round.txlist round.txlistinternal listing w.table) in
        rw e synced
    | inr e ↦ rw e (same-Follows (round ∷ []) w)
  ]

  Follows-trans :
      (round : Round) (rounds : List Round) (u v w : Watch)
      → Follows (round ∷ []) u v
      → Follows rounds v w
      → Follows (round ∷ rounds) u w
  Follows-trans round rounds u v w (a, (k, c)) (a₂, (k₂, c₂)) = (
    omega (arith, a, a₂),
    (
      IsKept-trans u.table v.table w.table k k₂,
      λ b low high. elim (Bool-cases (leb b v.end_block)) [
        | inl e ↦ elim (c b low (leb→le b v.end_block e)) [
          | inl once ↦
              inl (
                Covered-kept int accepts round.txlist round.txlistinternal b v.table w.table k₂
                  once)
          | inr never ↦ elim never [ ]
        ]
        | inr e ↦ inr (c₂ b (ground (arith, e)) high)
      ],
    ),
  )

  in_phase-Follows :
      (rounds : List Round) (phase : Phase) (w next : Watch)
      → Follows rounds w next
      → Follows rounds w (in_phase int accepts phase w next)
  in_phase-Follows rounds running w next h = h
  in_phase-Follows rounds exited w next h = same-Follows rounds w
  in_phase-Follows rounds hanging w next h = same-Follows rounds w

  -- Whatever the rounds bring, the block that has been reached never goes back, no row is lost, and every
  -- block behind the one reached at the start, up to the one reached at the end, has been covered by a round.
  pub monitor-Follows :
      (rounds : List Round) (w : Watch) → Follows rounds w (monitor int accepts rounds w)
  unfolding monitor
  monitor-Follows [] w = same-Follows [] w
  monitor-Follows (round ∷ rounds) w =
      let next = on_latest int accepts round.latest round w in
      in_phase-Follows (round ∷ rounds) w.phase w (monitor int accepts rounds next) (
        Follows-trans round rounds w next (monitor int accepts rounds next)
          (on_latest-Follows round.latest round w) (monitor-Follows rounds next))

  abbrev pub AllSilent : List Round → Type 0
  AllSilent [] = Unit
  AllSilent (round ∷ rounds) = (round.latest ≡ none) × AllSilent rounds

  exited-stays :
      (rounds : List Round) (w : Watch) → w.phase ≡ exited → monitor int accepts rounds w ≡ w
  unfolding monitor
  exited-stays [] w e = refl
  exited-stays (round ∷ rounds) w e =
      ap
        (λ p.
          in_phase int accepts p w
            (monitor int accepts rounds (on_latest int accepts round.latest round w)))
        e

  abbrev pub Silent : ℕ → ℕ → Table → Watch → Type 0
  Silent errors end_block table after =
      (after.end_block ≡ end_block)
      × ((after.table ≡ table)
          × (after.phase ≡ (if leb max_consecutive_errors errors then exited else running)))

  next-Silent :
      (rounds : List Round) (errors end_block : ℕ) (table : Table) (full : Bool)
      → leb max_consecutive_errors (errors + 1) ≡ full
      → (errors + 1 < max_consecutive_errors
          → Silent
              (errors + 1 + length rounds)
              end_block
              table
              (monitor int accepts rounds (watching (errors + 1) end_block table running)))
      → Silent (errors + suc (length rounds)) end_block table (
          monitor int accepts rounds
            (watching (errors + 1) end_block table (if full then exited else running)))
  next-Silent rounds errors end_block table true e more =
      let stays = exited-stays rounds (watching (errors + 1) end_block table exited) refl in
      let ends : exited ≡ (
          if leb max_consecutive_errors (errors + suc (length rounds)) then exited else running) =
        ground (arith, e) in
      subst (Silent (errors + suc (length rounds)) end_block table) (sym stays) (refl, (refl, ends))
  next-Silent rounds errors end_block table false e more =
      let same : errors + 1 + length rounds ≡ errors + suc (length rounds) = omega arith in
      subst
        (λ n.
          Silent n end_block table
            (monitor int accepts rounds (watching (errors + 1) end_block table running)))
        same (more (ground (arith, e)))

  -- Rounds without a latest block change nothing but the count, and end the loop exactly when they make
  -- five in a row, `errors` earlier ones included.
  pub monitor-AllSilent :
      (rounds : List Round) (errors end_block : ℕ) (table : Table)
      → AllSilent rounds
      → errors < max_consecutive_errors
      → Silent
          (errors + length rounds)
          end_block
          table
          (monitor int accepts rounds (watching errors end_block table running))
  unfolding monitor on_latest
  monitor-AllSilent [] errors end_block table h lt = (refl, (refl, ground arith))
  monitor-AllSilent (round ∷ rounds) errors end_block table (e, h) lt =
      let phase = if leb max_consecutive_errors (errors + 1) then exited else running in
      let next = watching (errors + 1) end_block table phase in
      let step : on_latest int accepts round.latest round (watching errors end_block table running)
          ≡ next =
        ap (λ l. on_latest int accepts l round (watching errors end_block table running)) e in
      let goal =
        next-Silent rounds errors end_block table (leb max_consecutive_errors (errors + 1)) refl
          (λ room. monitor-AllSilent rounds (errors + 1) end_block table h room) in
      subst
        (λ n. Silent (errors + suc (length rounds)) end_block table (monitor int accepts rounds n))
        (sym step) goal
