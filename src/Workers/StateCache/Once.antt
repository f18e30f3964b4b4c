-- ===== src/Workers/StateCache/Once.antt =====
-- Workers that lease rows of one lane are given different pools.
use funi.Common.{
  ℕ, ◌+◌, ◌≤◌, ◌≡◌, refl, inl, inr, true, false, List, [], ◌∷◌, ◌++◌, arith, Text, text_eq_iff,
  lower, same_text, ◌==◌, All, All-imp, All-append, All-update_to, count_zero, count-imp_le,
  count-update_le, count-update_key, unique_covers, Bool-cases, count_where, update_where,
  select_where, take,
}
use funi.Workers.StateCache.Lease.{
  QueueLane, Refresh, is_unleased, is_runnable, has_key, leasable, leased, ordered, lease_rows,
  lease_state_refresh_by_lane,
}

-- A lease by a worker: the arguments besides the lane.
pub record Request : Type 0 where
  pub limit : ℕ
  pub lease : ℕ
  pub owner : Text
  pub now : ℕ

-- The rows that the requests are given, one after another.
unfoldable pub given : QueueLane → List Refresh → List Request → List Refresh
given lane queue [] = []
given lane queue (c ∷ cs) =
    let l = lease_state_refresh_by_lane queue lane c.limit c.lease c.owner c.now in
    l.1 ++ given lane l.0 cs

-- No row of the key is free, up to an instant.
Held : QueueLane → Text → ℕ → List Refresh → Type 0
Held lane pool end queue = count_where (leasable lane pool end) queue ≡ 0

unleased_later :
    (now end : ℕ) (r : Refresh) → now ≤ end → is_unleased now r ≡ true → is_unleased end r ≡ true
unleased_later now end r le h = ground arith

update-Held :
    (lane : QueueLane) (pool x owner : Text) (now until end : ℕ) (queue : List Refresh)
    → now ≤ end
    → Held lane pool end queue
    → Held lane pool end (update_where (leasable lane x now) (leased owner until now) queue)
unfolding Held
update-Held lane pool x owner now until end queue le h = omega (
  arith,
  count-update_le (leasable lane pool end) (leasable lane x now) (leased owner until now) queue
      (λ r p q. ground (arith, unleased_later now end r)),
  h,
)

rows-Held :
    (lane : QueueLane) (pool owner : Text) (now until end : ℕ) (rows queue : List Refresh)
    → now ≤ end
    → Held lane pool end queue
    → Held lane pool end (lease_rows lane owner until now rows queue).0
unfolding lease_rows
rows-Held lane pool owner now until end [] queue le h = h
rows-Held lane pool owner now until end (r ∷ rs) queue le h =
    rows-Held lane pool owner now until end rs _ le
      (update-Held lane pool r.pool_id owner now until end queue le h)

-- A row that is leased now and has the key would be free at the end.
lease_skips_key :
    (lane : QueueLane) (pool x : Text) (now end : ℕ) (queue : List Refresh)
    → now ≤ end
    → Held lane pool end queue
    → (count_where (leasable lane x now) queue == 1) ≡ true
    → same_text x pool ≡ false
unfolding Held
lease_skips_key lane pool x now end queue le h e = elim (Bool-cases (same_text x pool)) [
  | inl s ↦ absurd (
      ground (
        arith,
        count-imp_le (leasable lane x now) (leasable lane pool end) queue
            (λ r p. ground (arith, text_eq_iff (lower x) (lower pool), unleased_later now end r)),
      ))
  | inr s ↦ s
]

lease_skips_pool :
    (lane : QueueLane) (pool owner : Text) (now until end : ℕ) (rows queue : List Refresh)
    → now ≤ end
    → Held lane pool end queue
    → All (λ b. same_text b.pool_id pool ≡ false) (lease_rows lane owner until now rows queue).1
unfolding lease_rows
lease_skips_pool lane pool owner now until end [] queue le h = tt
lease_skips_pool lane pool owner now until end (r ∷ rs) queue le h =
    let rest =
      lease_skips_pool lane pool owner now until end rs _ le
        (update-Held lane pool r.pool_id owner now until end queue le h) in
    elim (Bool-cases (count_where (leasable lane r.pool_id now) queue == 1)) [
      | inl e ↦ rw e (lease_skips_key lane pool r.pool_id now end queue le h e, rest)
      | inr e ↦ rw e rest
    ]

given_avoids :
    (lane : QueueLane) (pool : Text) (end : ℕ) (cs : List Request) (queue : List Refresh)
    → All (λ c. c.now ≤ end) cs
    → Held lane pool end queue
    → All (λ b. same_text b.pool_id pool ≡ false) (given lane queue cs)
unfolding given lease_state_refresh_by_lane
given_avoids lane pool end [] queue before h = tt
given_avoids lane pool end (c ∷ cs) queue before h =
    let rows = take c.limit (ordered (select_where (is_runnable lane c.now) queue)) in
    All-append (λ (b : Refresh). same_text b.pool_id pool ≡ false) _ _
      (lease_skips_pool lane pool c.owner c.now (c.now + c.lease) end rows queue before.0 h)
      (given_avoids lane pool end cs _ before.1
        (rows-Held lane pool c.owner c.now (c.now + c.lease) end rows queue before.0 h))

-- A lease of the one row of a key holds the key.
leased-Held :
    (lane : QueueLane) (pool owner : Text) (now end : ℕ) (queue : List Refresh)
    → count_where (has_key lane pool) queue ≤ 1
    → (count_where (leasable lane pool now) queue == 1) ≡ true
    → Held lane pool end (update_where (leasable lane pool now) (leased owner end now) queue)
unfolding Held
leased-Held lane pool owner now end queue u e = count_zero (leasable lane pool end) _ (
    All-update_to (λ r. has_key lane pool r ≡ true → leasable lane pool now r ≡ true)
      (λ r. leasable lane pool end r ≡ false) (leasable lane pool now) (leased owner end now) queue
      (λ r p k. ground arith) (λ r p k. ground (arith, k))
      (unique_covers (leasable lane pool now) (has_key lane pool) queue (λ r p. ground arith) u
        (ground arith)))

-- Each row that is given is held from then on.
given-Held :
    (lane : QueueLane) (owner : Text) (now end : ℕ) (rows queue : List Refresh)
    → ((pool : Text) → count_where (has_key lane pool) queue ≤ 1)
    → now ≤ end
    → All
        (λ a. Held lane a.pool_id end (lease_rows lane owner end now rows queue).0)
        (lease_rows lane owner end now rows queue).1
unfolding lease_rows
given-Held lane owner now end [] queue u le = tt
given-Held lane owner now end (r ∷ rs) queue u le =
    let rest =
      given-Held lane owner now end rs _
        (λ pool. omega (
          arith,
          u pool,
          count-update_key (has_key lane pool) (leasable lane r.pool_id now) (leased owner end now)
              queue (λ x. refl),
        ))
        le in
    elim (Bool-cases (count_where (leasable lane r.pool_id now) queue == 1)) [
      | inl e ↦ rw e (
        rows-Held lane r.pool_id owner now end end rs _ le
            (leased-Held lane r.pool_id owner now end queue (u r.pool_id) e),
        rest,
      )
      | inr e ↦ rw e rest
    ]

-- Where the queue holds a pool at most once in a lane, as its primary key demands, the rows that a
-- worker is given are given to no later request for the lane until the lease ends, whatever other
-- requests come in between; pools are compared without case.
pub leased_once :
    (lane : QueueLane) (queue : List Refresh) (limit lease now : ℕ) (owner : Text)
    (cs : List Request)
    → ((pool : Text) → count_where (has_key lane pool) queue ≤ 1)
    → All (λ c. c.now ≤ now + lease) cs
    → All
        (λ a.
          All
            (λ b. same_text b.pool_id a.pool_id ≡ false)
            (given lane (lease_state_refresh_by_lane queue lane limit lease owner now).0 cs))
        (lease_state_refresh_by_lane queue lane limit lease owner now).1
unfolding lease_state_refresh_by_lane
leased_once lane queue limit lease now owner cs u before =
    All-imp _ _ _ (λ a h. given_avoids lane a.pool_id (now + lease) cs _ before h)
      (given-Held lane owner now (now + lease) _ queue u (omega arith))
