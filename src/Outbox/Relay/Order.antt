-- ===== src/Outbox/Relay/Order.antt =====
-- Which rows a claim takes, and in what order.
use lojinextv.Prelude.{
  ℕ, suc, zero, ◌≤◌, ◌<◌, ◌≡◌, ◌≢◌, ◌⊎◌, inl, inr, Bool, true, false, not, ◌&&◌, some, List, [],
  ◌∷◌, arith, Bool-cases, any, filter, length, All, leb,
}
use lojinextv.Outbox.{pending, publishing, failed, is_live}
use lojinextv.Outbox.Relay.{
  Row, Relay, blocks, eligible, insert_by_time, order_by_time, limit, select_batch,
}

-- keeping a property of rows through the parts of the query
All-filter :
    (P : Row → Type 0) (p : Row → Bool) (rs : List Row)
    → ((r : Row) → p r ≡ true → P r)
    → All P (filter p rs)
All-filter P p [] h = tt
All-filter P p (r ∷ rs) h = ground (arith, h r, All-filter P p rs h)

All-insert :
    (P : Row → Type 0) (r : Row) (rs : List Row) → P r → All P rs → All P (insert_by_time r rs)
unfolding insert_by_time
All-insert P r [] p ps = (p, tt)
All-insert P r (q ∷ qs) p ps = ground (arith, All-insert P r qs p ps.1)

All-order : (P : Row → Type 0) (rs : List Row) → All P rs → All P (order_by_time rs)
unfolding order_by_time
All-order P [] ps = tt
All-order P (r ∷ rs) ps = All-insert P r (order_by_time rs) ps.0 (All-order P rs ps.1)

All-limit : (P : Row → Type 0) (n : ℕ) (rs : List Row) → All P rs → All P (limit n rs)
unfolding limit
All-limit P zero rs ps = tt
All-limit P (suc n) [] ps = tt
All-limit P (suc n) (r ∷ rs) ps = (ps.0, All-limit P n rs ps.1)

length-limit : (n : ℕ) (rs : List Row) → length (limit n rs) ≤ n
unfolding limit
length-limit zero rs = omega arith
length-limit (suc n) [] = omega arith
length-limit (suc n) (r ∷ rs) = omega (arith, length-limit n rs)

-- nothing that blocks a row is in the table
not_blocked :
    (r : Row) (table : List Row)
    → any (blocks r) table ≡ false
    → All
        (λ q.
          q.partition_key ≡ r.partition_key
          → is_live q.publish_status ≡ true
          → r.created_at_utc ≤ q.created_at_utc)
        table
unfolding blocks
not_blocked r [] h = tt
not_blocked r (q ∷ table) h = (λ e l. ground arith, not_blocked r table (ground arith))

-- What each row of a batch satisfies: no earlier row of its partition is unsettled, it is due, it
-- waits or its claim has run out, and no other transaction holds it.
pub record Claimable (locked : Row → Bool) (now : ℕ) (table : List Row) (r : Row) : Type 0 where
  pub first :
      All
        (λ q.
          q.partition_key ≡ r.partition_key
          → is_live q.publish_status ≡ true
          → r.created_at_utc ≤ q.created_at_utc)
        table
  pub due : (t : ℕ) → r.next_attempt_at_utc ≡ some t → t ≤ now
  pub status :
      (r.publish_status ≡ pending)
      ⊎ (r.publish_status ≡ failed)
      ⊎ ((r.publish_status ≡ publishing)
          × ((t : ℕ) × (r.claim_expires_at_utc ≡ some t) × (t < now)))
  pub free : locked r ≡ false

eligible→Claimable :
    (locked : Row → Bool) (now : ℕ) (table : List Row) (r : Row)
    → (eligible now table r && not (locked r)) ≡ true
    → Claimable locked now table r
unfolding eligible
eligible→Claimable locked now table r h = record {
  first = not_blocked r table (ground arith);
  due = λ t e. ground arith;
  status = ground arith;
  free = ground arith;
}

-- Every row of a batch is due, waiting or with a claim that has run out, free, and has no
-- unsettled row of its partition that is older; and the batch has at most batch_size rows.
pub select_batch-Claimable :
    (relay : Relay) (locked : Row → Bool) (now : ℕ) (table : List Row)
    → All (Claimable locked now table) (select_batch relay locked now table)
      × (length (select_batch relay locked now table) ≤ relay.batch_size)
unfolding select_batch
select_batch-Claimable relay locked now table = (
  All-limit _ relay.batch_size _
      (All-order _ _ (All-filter _ _ table (eligible→Claimable locked now table))),
  length-limit relay.batch_size _,
)

-- later rows of a list were created no earlier
abbrev pub IsOrdered : List Row → Type 0
IsOrdered [] = Unit
IsOrdered (r ∷ rs) = All (λ q. r.created_at_utc ≤ q.created_at_utc) rs × IsOrdered rs

All-le :
    (a b : ℕ) (rs : List Row)
    → a ≤ b
    → All (λ q. b ≤ q.created_at_utc) rs
    → All (λ q. a ≤ q.created_at_utc) rs
All-le a b [] h ps = tt
All-le a b (r ∷ rs) h ps = (omega arith, All-le a b rs h ps.1)

insert-IsOrdered : (r : Row) (rs : List Row) → IsOrdered rs → IsOrdered (insert_by_time r rs)
unfolding insert_by_time
insert-IsOrdered r [] o = (tt, tt)
insert-IsOrdered r (q ∷ qs) o = elim (Bool-cases (leb r.created_at_utc q.created_at_utc)) [
  | inl e ↦ rw e ((ground arith, All-le r.created_at_utc q.created_at_utc qs (ground arith) o.0), o)
  | inr e ↦ rw e (
    All-insert (λ k. q.created_at_utc ≤ k.created_at_utc) r qs (ground arith) o.0,
    insert-IsOrdered r qs o.1,
  )
]

order-IsOrdered : (rs : List Row) → IsOrdered (order_by_time rs)
unfolding order_by_time
order-IsOrdered [] = tt
order-IsOrdered (r ∷ rs) = insert-IsOrdered r (order_by_time rs) (order-IsOrdered rs)

limit-IsOrdered : (n : ℕ) (rs : List Row) → IsOrdered rs → IsOrdered (limit n rs)
unfolding limit
limit-IsOrdered zero rs o = tt
limit-IsOrdered (suc n) [] o = tt
limit-IsOrdered (suc n) (r ∷ rs) o = (All-limit _ n rs o.0, limit-IsOrdered n rs o.1)

-- A batch is in the order of creation.
pub select_batch-IsOrdered :
    (relay : Relay) (locked : Row → Bool) (now : ℕ) (table : List Row)
    → IsOrdered (select_batch relay locked now table)
unfolding select_batch
select_batch-IsOrdered relay locked now table =
    limit-IsOrdered relay.batch_size _
      (order-IsOrdered (filter (λ r. eligible now table r && not (locked r)) table))

insert-ne-nil : (r : Row) (rs : List Row) → insert_by_time r rs ≢ []
unfolding insert_by_time
insert-ne-nil r [] e = cc
insert-ne-nil r (q ∷ qs) e = ground arith

order-ne-nil : (rs : List Row) → rs ≢ [] → order_by_time rs ≢ []
unfolding order_by_time
order-ne-nil [] h = h
order-ne-nil (r ∷ rs) h = insert-ne-nil r (order_by_time rs)

limit-ne-nil : (n : ℕ) (rs : List Row) → rs ≢ [] → limit (suc n) rs ≢ []
unfolding limit
limit-ne-nil n [] h e = h e
limit-ne-nil n (r ∷ rs) h e = cc

filter-ne-nil : (p : Row → Bool) (rs : List Row) → any p rs ≡ true → filter p rs ≢ []
filter-ne-nil p [] h e = cc
filter-ne-nil p (r ∷ rs) h e = ground (arith, filter-ne-nil p rs)

-- If the batch size is positive and an eligible row is free, the batch is not empty.
pub select_batch_progress :
    (relay : Relay) (locked : Row → Bool) (now n : ℕ) (table : List Row)
    → relay.batch_size ≡ suc n
    → any (λ r. eligible now table r && not (locked r)) table ≡ true
    → select_batch relay locked now table ≢ []
unfolding select_batch
select_batch_progress relay locked now n table b h =
    rw b (limit-ne-nil n _ (order-ne-nil _ (filter-ne-nil _ table h)))
