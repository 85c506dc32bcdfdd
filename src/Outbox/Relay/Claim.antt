-- ===== src/Outbox/Relay/Claim.antt =====
-- What a claim writes, and which rows a publish may touch.
use lojinextv.Prelude.{
  ℕ, ◌≡◌, ◌≢◌, refl, Bool, true, false, Option, none, some, List, [], ◌∷◌, map, arith, find,
  update_where, elem,
}
use lojinextv.Outbox.Relay.{
  Row, Relay, OutboxMessage, map_row_to_message, select_batch, claim_row, claim_batch, ids_of,
  is_mine, finalize, mark_published, mark_failed, succeeded, publish_single,
}

update_where-elem :
    (reaches : Row → Bool) (ids : List ℕ) (f : Row → Row) (rs : List Row)
    → ((r : Row) → reaches r ≡ elem r.outbox_id ids)
    → update_where reaches f rs ≡ update_where (λ r. elem r.outbox_id ids) f rs
update_where-elem reaches ids f [] h = refl
update_where-elem reaches ids f (r ∷ rs) h = rw (h r, update_where-elem reaches ids f rs h) refl

update_where_all :
    (reaches : Row → Bool) (f : Row → Row) (rs : List Row)
    → ((r : Row) → reaches r ≡ true)
    → update_where reaches f rs ≡ map f rs
update_where_all reaches f [] h = refl
update_where_all reaches f (r ∷ rs) h = rw (h r, update_where_all reaches f rs h) refl

module _ (reaches : List ℕ → Row → Bool) (relay : Relay) (locked : Row → Bool) (now token : ℕ)
    (table : List Row) where
  -- If the UPDATE reaches exactly the rows with the ids that were selected, a claim changes those
  -- and no other.
  pub claim_batch_exact :
      ((ids : List ℕ) (r : Row) → reaches ids r ≡ elem r.outbox_id ids)
      → ids_of (select_batch relay locked now table) ≢ []
      → claim_batch reaches relay locked now token table ≡ (
        ids_of (select_batch relay locked now table),
        update_where
            (λ r. elem r.outbox_id (ids_of (select_batch relay locked now table)))
            (claim_row relay now token)
            table,
      )
  unfolding claim_batch
  claim_batch_exact h n = ground (
    arith,
    update_where-elem (reaches (ids_of (select_batch relay locked now table)))
        (ids_of (select_batch relay locked now table)) (claim_row relay now token) table
        (h (ids_of (select_batch relay locked now table))),
  )

  -- If the UPDATE of a claim reaches every row, a claim that selects anything marks the whole
  -- table as being published, settled rows included.
  pub claim_batch_all :
      ((ids : List ℕ) (r : Row) → reaches ids r ≡ true)
      → ids_of (select_batch relay locked now table) ≢ []
      → (claim_batch reaches relay locked now token table).1 ≡ map (claim_row relay now token) table
  unfolding claim_batch
  claim_batch_all h n = ground (
    arith,
    update_where_all (reaches (ids_of (select_batch relay locked now table)))
        (claim_row relay now token) table (h (ids_of (select_batch relay locked now table))),
  )

-- a finalized row carries no token
finalized_not_mine :
    (relay : Relay) (jitter : ℕ → ℕ) (now id token : ℕ) (answer : Option (List ℕ)) (r : Row)
    → is_mine id token (finalize relay jitter now answer r) ≡ false
unfolding is_mine mark_published mark_failed
finalized_not_mine relay jitter now id token none r = ground arith
finalized_not_mine relay jitter now id token (some error) r = ground arith

find_finalized :
    (relay : Relay) (jitter : ℕ → ℕ) (now id token : ℕ) (answer : Option (List ℕ)) (rs : List Row)
    → find
        (is_mine id token)
        (update_where (is_mine id token) (finalize relay jitter now answer) rs)
      ≡ none
find_finalized relay jitter now id token answer [] = refl
find_finalized relay jitter now id token answer (r ∷ rs) = ground (
  arith,
  finalized_not_mine relay jitter now id token answer r,
  find_finalized relay jitter now id token answer rs,
)

update_where-none :
    (p : Row → Bool) (f : Row → Row) (rs : List Row) → find p rs ≡ none → update_where p f rs ≡ rs
update_where-none p f [] h = refl
update_where-none p f (r ∷ rs) h = ground (arith, update_where-none p f rs)

module _ (relay : Relay) (jitter : ℕ → ℕ) (now : ℕ) (broker : OutboxMessage → Option (List ℕ))
    (meanwhile : List Row → List Row) (id token : ℕ) (table : List Row) where
  -- When a claimed row has been published or failed once under a token, a second call with that
  -- token sends nothing and writes nothing.
  pub publish_once :
      (later : ℕ) (broker' : OutboxMessage → Option (List ℕ)) (r : Row)
      → find (is_mine id token) table ≡ some r
      → publish_single relay jitter later broker'
          (λ t. t)
          id
          token
          (publish_single relay jitter now broker meanwhile id token table).2
        ≡ (false, none, (publish_single relay jitter now broker meanwhile id token table).2)
  unfolding publish_single
  publish_once later broker' r e = ground (
    arith,
    e,
    find_finalized relay jitter now id token (broker (map_row_to_message r)) (meanwhile table),
  )

  -- A claim that is lost while the broker is asked writes nothing: the table is as the others left it,
  -- though the message has been sent and its success is reported.
  pub publish_lost :
      (r : Row)
      → find (is_mine id token) table ≡ some r
      → find (is_mine id token) (meanwhile table) ≡ none
      → publish_single relay jitter now broker meanwhile id token table
        ≡ (succeeded (broker (map_row_to_message r)), some (map_row_to_message r), meanwhile table)
  unfolding publish_single
  publish_lost r e lost = ground (
    arith,
    e,
    update_where-none (is_mine id token) (finalize relay jitter now (broker (map_row_to_message r)))
        (meanwhile table) lost,
  )
