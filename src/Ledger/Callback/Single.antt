-- ===== src/Ledger/Callback/Single.antt =====
-- When an authorization is consumed.
use funi.Common.{
  ℕ, ◌≤◌, ◌<◌, ◌≡◌, ◌⊎◌, refl, ap, sym, ◌∙◌, inl, inr, Bool, true, false, ◌&&◌, Option, none, some,
  [], coalesce, lower, set_if, text_eq, text_eq_iff, Option-cases, first-update, arith, Text, ok,
  err, Bool-cases, ltb, if◌then◌else◌, is_none, count_where, first_where, update_where,
  count-imp_le, count_of_first, first_where-true, count_unique_false,
}
use funi.Ledger.Callback.Defs.{
  Claim, binding_of, binding_eq, Authorization, Authorizations, has_id, usable, consumed,
  consume_chain_callback, invalid_stale_or_replayed,
}

abbrev pub IsKeyed : Authorizations → Type 0
IsKeyed db = (id : Text) → count_where (has_id id) db ≤ 1

-- A consumption by the test of its WHERE clause on the one row of the id.
consume_by_test :
    (db : Authorizations) (id : Text) (c : Claim) (now : ℕ) (a : Authorization)
    → IsKeyed db
    → first_where (has_id id) db ≡ some a
    → consume_chain_callback db id c now ≡ (
        if binding_eq a.bound (binding_of c)
          && (is_none a.consumed_at_ms && ltb now a.expires_at_ms)
        then ok (update_where (usable id c now) (consumed now) db)
        else err invalid_stale_or_replayed)
unfolding consume_chain_callback
consume_by_test db id c now a v found =
    elim (Bool-cases (
      binding_eq a.bound (binding_of c) && (is_none a.consumed_at_ms && ltb now a.expires_at_ms))) [
        | inl e ↦ ground (
          arith,
          v id,
          first_where-true (has_id id) db {x = a} found,
          count_of_first (has_id id) (usable id c now) db {x = a} found,
          count-imp_le (usable id c now) (has_id id) db (λ x h. ground arith),
        )
        | inr e ↦ ground (
          arith,
          first_where-true (has_id id) db {x = a} found,
          count_unique_false (usable id c now) (has_id id) db {x = a} (λ x h. ground arith) (v id)
              found,
        )
      ]

-- The wallet of a claim as it is stored.
abbrev pub wallet_key : Option Text → Text
wallet_key none = []
wallet_key (some w) = lower w

-- The claim names what the authorization was given for, and it stands.
pub record MayConsume (c : Claim) (now : ℕ) (a : Authorization) : Type 0 where
  pub user : a.bound.user_id ≡ c.user_id
  pub chat : a.bound.chat_id ≡ c.chat_id
  pub chain : a.bound.chain_id ≡ c.chain_id
  pub protocol : a.bound.protocol ≡ c.protocol
  pub workflow : a.bound.workflow_or_position_id ≡ c.workflow_or_position_id
  pub action : a.bound.action ≡ c.action
  pub preview : a.bound.preview_revision ≡ c.preview_revision
  pub deployment : a.bound.deployment_version ≡ coalesce c.deployment_version 1
  pub wallet : a.bound.wallet_address ≡ wallet_key c.wallet_address
  pub exposure : a.bound.exposure_revision ≡ coalesce c.exposure_revision []
  pub fee_evidence : a.bound.fee_evidence_revision ≡ coalesce c.fee_evidence_revision []
  pub is_unconsumed : a.consumed_at_ms ≡ none
  pub is_current : now < a.expires_at_ms

abbrev test : Claim → ℕ → Authorization → Bool
test c now a =
    binding_eq a.bound (binding_of c) && (is_none a.consumed_at_ms && ltb now a.expires_at_ms)

wallet_bound : (c : Claim) → (binding_of c).wallet_address ≡ wallet_key c.wallet_address
unfolding binding_of
wallet_bound c = elim (Option-cases c.wallet_address) [
  | inl e ↦ ground (arith, e)
  | inr (w, e) ↦ ground (arith, e)
]

test_admits : (c : Claim) (now : ℕ) (a : Authorization) → test c now a ≡ true → MayConsume c now a
unfolding binding_eq binding_of
test_admits c now a h = record {
  user = ground (arith, text_eq_iff a.bound.user_id c.user_id);
  chat = ground (arith, text_eq_iff a.bound.chat_id c.chat_id);
  chain = ground arith;
  protocol = ground (arith, text_eq_iff a.bound.protocol c.protocol);
  workflow = ground (arith, text_eq_iff a.bound.workflow_or_position_id c.workflow_or_position_id);
  action = ground (arith, text_eq_iff a.bound.action c.action);
  preview = ground arith;
  deployment = ground arith;
  wallet =
      ground
        (arith, text_eq_iff a.bound.wallet_address (binding_of c).wallet_address, wallet_bound c);
  exposure =
      ground (arith, text_eq_iff a.bound.exposure_revision (coalesce c.exposure_revision []));
  fee_evidence =
      ground
        (arith, text_eq_iff a.bound.fee_evidence_revision (coalesce c.fee_evidence_revision []));
  is_unconsumed = ground arith;
  is_current = ground arith;
}

admitted_tests :
    (c : Claim) (now : ℕ) (a : Authorization) → MayConsume c now a → test c now a ≡ true
unfolding binding_eq binding_of
admitted_tests c now a m = ground (
  arith,
  (text_eq_iff a.bound.user_id c.user_id).1 m.user,
  (text_eq_iff a.bound.chat_id c.chat_id).1 m.chat,
  (text_eq_iff a.bound.protocol c.protocol).1 m.protocol,
  (text_eq_iff a.bound.workflow_or_position_id c.workflow_or_position_id).1 m.workflow,
  (text_eq_iff a.bound.action c.action).1 m.action,
  (text_eq_iff a.bound.wallet_address (binding_of c).wallet_address).1
      (m.wallet ∙ sym (wallet_bound c)),
  (text_eq_iff a.bound.exposure_revision (coalesce c.exposure_revision [])).1 m.exposure,
  (text_eq_iff a.bound.fee_evidence_revision (coalesce c.fee_evidence_revision [])).1
      m.fee_evidence,
  m.chain,
  m.preview,
  m.deployment,
  m.is_unconsumed,
  m.is_current,
)

-- A consumption leaves the authorizations of other ids.
others_stay :
    (db : Authorizations) (id other : Text) (c : Claim) (now : ℕ)
    → text_eq other id ≡ false
    → first_where (has_id other) (update_where (usable id c now) (consumed now) db)
      ≡ first_where (has_id other) db
others_stay db id other c now apart =
    first-update (has_id other) (usable id c now) (consumed now) db (λ a. refl)
    ∙ (elim (Option-cases (first_where (has_id other) db)) [
      | inl e ↦ rw e refl
      | inr (a, e) ↦ rw e (ap some (missed a (first_where-true (has_id other) db {x = a} e)))
    ])
  where
    missed :
        (a : Authorization) → has_id other a ≡ true → set_if (usable id c now) (consumed now) a ≡ a
    missed a own = ground (
      arith,
      text_eq_iff a.authorization_id other,
      text_eq_iff a.authorization_id id,
      text_eq_iff other id,
    )

-- Where ids are unique, a claim on an authorization that is stored either names the user, chat, chain,
-- protocol, workflow, action, preview, deployment, wallet and evidence that it was given for, before
-- its end and unconsumed, and is accepted, which marks that authorization consumed at that instant and
-- leaves that of any other id; or it does not, and is refused.
pub consume_decides :
    (db : Authorizations) (id other : Text) (c : Claim) (now : ℕ) (a : Authorization)
    → IsKeyed db
    → first_where (has_id id) db ≡ some a
    → text_eq other id ≡ false
    → (MayConsume c now a
        × (db' : Authorizations) × (consume_chain_callback db id c now ≡ ok db')
        × (first_where (has_id id) db' ≡ some (record a { consumed_at_ms = some now }))
        × (first_where (has_id other) db' ≡ first_where (has_id other) db))
      ⊎ (¬ MayConsume c now a
          × (consume_chain_callback db id c now ≡ err invalid_stale_or_replayed))
consume_decides db id other c now a v found apart = elim (Bool-cases (test c now a)) [
  | inl e ↦ inl (
    test_admits c now a e,
    update_where (usable id c now) (consumed now) db,
    rw e at (consume_by_test db id c now a v found),
    first-update (has_id id) (usable id c now) (consumed now) db (λ x. refl)
        ∙ rw found (ap some (hit e)),
    others_stay db id other c now apart,
  )
  | inr e ↦ inr (
    λ m. absurd (ground (arith, admitted_tests c now a m)),
    rw e at (consume_by_test db id c now a v found),
  )
]
  where
    hit : test c now a ≡ true → set_if (usable id c now) (consumed now) a ≡ consumed now a
    hit e = ground (arith, first_where-true (has_id id) db {x = a} found)
