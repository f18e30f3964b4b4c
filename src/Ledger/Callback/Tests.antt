-- ===== src/Ledger/Callback/Tests.antt =====
-- The theorems on authorizations, applied to one that is consumed and then replayed.
use funi.Common.{
  ◌≤◌, ◌⊎◌, first_where, ◌≡◌, refl, none, some, [], ◌∷◌, List, text, text_eq, lower, ok, err, arith,
}
use funi.Ledger.Callback.Defs.{
  authorize_chain_callback, Claim, Authorization, Authorizations, has_id, binding_of, binding_eq,
  consume_chain_callback, invalid_stale_or_replayed,
}
use funi.Ledger.Callback.Single.{IsKeyed, MayConsume, consume_decides}
use funi.Ledger.Callback.Once.{Call, authorizes, consumes, consumptions, consumed_once}

abbrev claim : Claim
claim = record {
  user_id = text "u";
  chat_id = text "c";
  chain_id = 1;
  protocol = text "v4";
  workflow_or_position_id = text "p";
  action = text "mint";
  preview_revision = 3;
  deployment_version = none;
  wallet_address = some (text "0xAB");
  exposure_revision = none;
  fee_evidence_revision = none;
}

abbrev stored : Authorization
stored = record {
  authorization_id = text "a";
  bound = binding_of claim;
  expires_at_ms = 100;
  consumed_at_ms = none;
  idempotency_key = text "k";
  created_at_ms = 0;
}

abbrev calls : List Call
calls =
    authorizes (text "a") claim 100 (text "k") 0
    ∷ consumes (text "a") claim 50
    ∷ consumes (text "a") claim 51
    ∷ []

one_row-IsKeyed : IsKeyed (stored ∷ [])
one_row-IsKeyed id = ground arith

consume_decides_example :
    (MayConsume claim 50 stored
      × (db' : Authorizations) × (consume_chain_callback (stored ∷ []) (text "a") claim 50 ≡ ok db')
      × (first_where (has_id (text "a")) db' ≡ some (record stored { consumed_at_ms = some 50 }))
      × (first_where (has_id (text "b")) db' ≡ first_where (has_id (text "b")) (stored ∷ [])))
    ⊎ (¬ MayConsume claim 50 stored
        × (consume_chain_callback (stored ∷ []) (text "a") claim 50
            ≡ err invalid_stale_or_replayed))
unfolding text_eq
consume_decides_example =
    consume_decides (stored ∷ []) (text "a") (text "b") claim 50 stored one_row-IsKeyed refl refl

consumed_once_example : consumptions (text "a") [] calls ≤ 1
consumed_once_example = consumed_once (text "a") calls

-- The first of the two consumptions is the one that succeeds.
one_consumption : consumptions (text "a") [] calls ≡ 1
unfolding consumptions text_eq consume_chain_callback authorize_chain_callback binding_eq binding_of
    lower
one_consumption = refl
