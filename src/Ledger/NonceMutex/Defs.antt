-- ===== src/Ledger/NonceMutex/Defs.antt =====
-- `acquireChainNonceMutex` and `releaseChainNonceMutex`.
use funi.Common.{
  ℕ, ◌+◌, ◌*◌, Bool, true, false, not, ◌&&◌, ◌||◌, List, [], ◌∷◌, ◌++◌, Text, lower, normalized,
  same_text, text_eq, ltb, ◌==◌, if◌then◌else◌, Result, ok, err, count_where, any_where,
  delete_where,
}

pub record Holder : Type 0 where
  pub chain_id : ℕ
  pub wallet_address : Text
  pub nonce : ℕ
  pub acquired_at : ℕ
  pub expires_at : ℕ

pub data Error : Type 0 where
  chain_id_invalid : Error

abbrev pub holds : ℕ → Text → Holder → Bool
holds chain key h = h.chain_id == chain && text_eq (lower h.wallet_address) key

abbrev pub is_over : ℕ → Holder → Bool
is_over now h = ltb h.expires_at now

-- INSERT OR IGNORE on the primary key of chain and wallet (`COLLATE NOCASE`), with whether it wrote.
abbrev pub insert_holder : List Holder → Holder → List Holder × Bool
insert_holder db h =
    if any_where (λ x. x.chain_id == h.chain_id && same_text x.wallet_address h.wallet_address) db
    then (db, false)
    else (db ++ h ∷ [], true)

-- `!Number.isSafeInteger(chainId)||chainId<=0`, on a natural number.
abbrev pub chain_invalid : ℕ → Bool
chain_invalid chain = chain == 0 || not (ltb chain 9007199254740992)

-- The transaction: overdue holders go, and a wallet that is held is refused.
unfoldable pub acquire_chain_nonce_mutex :
    List Holder → ℕ → Text → ℕ → ℕ → ℕ → Result Error (List Holder × Bool)
acquire_chain_nonce_mutex db chain wallet nonce ttl_seconds now =
    if chain_invalid chain
    then err chain_id_invalid
    else (let live = delete_where (is_over now) db in
        if any_where (holds chain (normalized wallet)) live
        then ok (live, false)
        else ok (
            insert_holder live (record {
              chain_id = chain;
              wallet_address = normalized wallet;
              nonce = nonce;
              acquired_at = now;
              expires_at = now + ttl_seconds * 1000;
            })))

unfoldable pub release_chain_nonce_mutex : List Holder → ℕ → Text → List Holder × Bool
release_chain_nonce_mutex db chain wallet = (
  delete_where (holds chain (normalized wallet)) db,
  ltb 0 (count_where (holds chain (normalized wallet)) db),
)
