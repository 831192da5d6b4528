-- ===== src/Store/Claim/Lease.antt =====
-- Leases exclude one another.
use Prim.Native.Nat.{min}
use xrelease.Base.{
  ℕ, suc, ◌+◌, ◌-◌, ◌≤◌, ◌<◌, ◌≡◌, refl, true, false, ◌&&◌, List, [], ◌∷◌, map, arith, ltb,
  Bool-cases, inl, inr, contains, select, take, zero, ap, sym, ◌∙◌,
}
use xrelease.Store.Tables.{OutboxRow, OutboxRecord, Tables}
use xrelease.Store.Rows.{find_where, has_id, claimable, lock, record_of, i64_max}
use xrelease.Store.Rows.Index.{Ascending, IsIndexed}
use xrelease.Store.Claim.{claim_rows, claim_batch}

abbrev pub claimed_ids : List OutboxRecord → List ℕ
claimed_ids records = map (λ (r : OutboxRecord). r.id) records

-- What is claimed has ids in the range of the rows.
claimed-above :
    (now until limit id lo : ℕ) (rows : List OutboxRow) (hi : ℕ)
    → id < lo
    → Ascending lo rows hi
    → contains (claimed_ids (claim_rows now until limit rows).1) id ≡ false
unfolding claim_rows record_of
claimed-above now until limit id lo [] hi b h = refl
claimed-above now until limit id lo (r ∷ rows) hi b h =
    elim (Bool-cases (claimable r now && ltb 0 limit)) [
      | inl t ↦ rw t (
          ground
            (arith, claimed-above now until (limit - 1) id (suc r.id) rows hi (omega arith) h.1))
      | inr t ↦ rw t (claimed-above now until limit id (suc r.id) rows hi (omega arith) h.1)
    ]

Ascending-claim_rows :
    (now until limit lo : ℕ) (rows : List OutboxRow) (hi : ℕ)
    → Ascending lo rows hi
    → Ascending lo (claim_rows now until limit rows).0 hi
unfolding claim_rows
Ascending-claim_rows now until limit lo [] hi h = h
Ascending-claim_rows now until limit lo (r ∷ rows) hi h =
    elim (Bool-cases (claimable r now && ltb 0 limit)) [
      | inl t ↦ rw t (h.0, Ascending-claim_rows now until (limit - 1) (suc r.id) rows hi h.1)
      | inr t ↦ rw t (h.0, Ascending-claim_rows now until limit (suc r.id) rows hi h.1)
    ]

-- A row that is locked beyond the time of a claim is passed over by it.
locked_unclaimable :
    (until later : ℕ) (r : OutboxRow) → later ≤ until → claimable (lock until r) later ≡ false
locked_unclaimable until later r h = ground arith

rows_exclusive :
    (now until later until' limit limit' lo : ℕ) (rows : List OutboxRow) (hi id : ℕ)
    → Ascending lo rows hi
    → later ≤ until
    → contains (claimed_ids (claim_rows now until limit rows).1) id ≡ true
    → contains
        (claimed_ids (claim_rows later until' limit' (claim_rows now until limit rows).0).1)
        id
      ≡ false
unfolding claim_rows record_of
rows_exclusive now until later until' limit limit' lo [] hi id h b c = refl
rows_exclusive now until later until' limit limit' lo (r ∷ rows) hi id h b c =
    elim (Bool-cases (claimable r now && ltb 0 limit)) [
      | inl t ↦
          rw (t, locked_unclaimable until later r b)
            (ground (
              arith,
              rw t at c,
              rows_exclusive now until later until' (limit - 1) limit' (suc r.id) rows hi id h.1 b,
              claimed-above later until' limit' id (suc r.id)
                  (claim_rows now until (limit - 1) rows).0 hi,
              Ascending-claim_rows now until (limit - 1) (suc r.id) rows hi h.1,
            ))
      | inr t ↦ rw t (elim (Bool-cases (claimable r later && ltb 0 limit')) [
        | inl u ↦ rw u (
            ground (
              arith,
              rw t at c,
              rows_exclusive now until later until' limit (limit' - 1) (suc r.id) rows hi id h.1 b,
              claimed-above now until limit id (suc r.id) rows hi,
            ))
        | inr u ↦ rw u (
            rows_exclusive now until later until' limit limit' (suc r.id) rows hi id h.1 b
              (rw t at c))
      ])
    ]

-- No row is leased twice at a time: if ids ascend in the table, a row that a claim returns is not
-- returned by a second claim before the lease of the first has run out, whatever the limits and the
-- length of the second lease.
pub claim_batch-exclusive :
    (t : Tables) (now later lease lease' limit limit' id : ℕ)
    → IsIndexed t
    → later ≤ now + lease
    → contains (claimed_ids (claim_batch limit lease now t).1) id ≡ true
    → contains
        (claimed_ids (claim_batch limit' lease' later (claim_batch limit lease now t).0).1)
        id
      ≡ false
unfolding claim_batch
claim_batch-exclusive t now later lease lease' limit limit' id h b c =
    rows_exclusive now (now + lease) later (later + lease') (min limit i64_max) (min limit' i64_max)
      0 t.outbox t.next_id id h b c

taken_suc :
    (limit : ℕ) (r : OutboxRow) (rows : List OutboxRow)
    → ltb 0 limit ≡ true
    → take limit (r ∷ rows) ≡ r ∷ take (limit - 1) rows
taken_suc zero r rows h = cc
taken_suc (suc n) r rows h = let e : suc n - 1 ≡ n = omega arith in rw e

taken_none : (limit : ℕ) (rows : List OutboxRow) → ltb 0 limit ≡ false → take limit rows ≡ []
taken_none zero rows h = refl
taken_none (suc n) rows h = absurd (ground arith)

rows_claimed :
    (now until limit : ℕ) (rows : List OutboxRow)
    → (claim_rows now until limit rows).1
      ≡ map record_of (take limit (select (λ r. claimable r now) rows))
unfolding claim_rows
rows_claimed now until zero [] = refl
rows_claimed now until (suc limit) [] = refl
rows_claimed now until limit (r ∷ rows) = elim (Bool-cases (claimable r now)) [
  | inl c ↦ elim (Bool-cases (ltb 0 limit)) [
    | inl l ↦
        rw (c, l, taken_suc limit r (select (λ r. claimable r now) rows) l)
          (ap (λ xs. record_of r ∷ xs) (rows_claimed now until (limit - 1) rows))
    | inr l ↦
        rw (c, l)
          (rows_claimed now until limit rows
            ∙ ap (map record_of) (taken_none limit _ l ∙ sym (taken_none limit _ l)))
  ]
  | inr c ↦ rw c (rows_claimed now until limit rows)
]

-- A row that the claim does not return is as it was.
rows_unclaimed :
    (now until limit lo : ℕ) (rows : List OutboxRow) (hi id : ℕ)
    → Ascending lo rows hi
    → contains (claimed_ids (claim_rows now until limit rows).1) id ≡ false
    → find_where (has_id id) (claim_rows now until limit rows).0 ≡ find_where (has_id id) rows
unfolding claim_rows record_of find_where
rows_unclaimed now until limit lo [] hi id h c = refl
rows_unclaimed now until limit lo (r ∷ rows) hi id h c =
    elim (Bool-cases (claimable r now && ltb 0 limit)) [
      | inl t ↦ rw t (
          ground (arith, rw t at c, rows_unclaimed now until (limit - 1) (suc r.id) rows hi id h.1))
      | inr t ↦
          rw t (ground (arith, rw t at c, rows_unclaimed now until limit (suc r.id) rows hi id h.1))
    ]

-- If ids ascend in the table and the limit fits an `i64`, a claim returns the first rows, up to the
-- limit, that are retryable, below the attempt cap, due, and not leased; and every row that it does
-- not return is as it was.
pub claim_batch_lem :
    (t : Tables) (now lease limit : ℕ)
    → IsIndexed t
    → limit ≤ i64_max
    → let (t', claimed) = claim_batch limit lease now t in
      (claimed ≡ map record_of (take limit (select (λ r. claimable r now) t.outbox)))
      × ((id : ℕ)
          → contains (claimed_ids claimed) id ≡ false
          → find_where (has_id id) t'.outbox ≡ find_where (has_id id) t.outbox)
unfolding claim_batch
claim_batch_lem t now lease limit h b =
    let e : min limit i64_max ≡ limit = omega arith in
    rw e (
      rows_claimed now (now + lease) limit t.outbox,
      λ id. rows_unclaimed now (now + lease) limit 0 t.outbox t.next_id id h,
    )
