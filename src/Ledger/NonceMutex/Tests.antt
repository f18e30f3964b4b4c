-- ===== src/Ledger/NonceMutex/Tests.antt =====
-- The theorem on the mutex, applied to a wallet that is asked for again in another case.
use funi.Common.{
  ◌≡◌, ◌+◌, ◌*◌, List, All, true, text_eq, ◌∷◌, [], refl, false, text, arith, ok, delete_where,
  normalized, lower,
}
use funi.Ledger.NonceMutex.Defs.{Holder, is_over, acquire_chain_nonce_mutex}
use funi.Ledger.NonceMutex.Exclusion.{Call, acquires, releases, run, leaves_held, acquired_excludes}

abbrev held : Holder
held = record {
  chain_id = 8;
  wallet_address = text "0xab";
  nonce = 5;
  acquired_at = 1000;
  expires_at = 301000;
}

abbrev others : List Call
others =
    acquires 8 (text "0xab") 6 300 1500 ∷ releases 8 (text "0xcd") ∷ releases 9 (text "0xab") ∷ []

others_leave_it :
    All (λ c. leaves_held 8 (normalized (text " 0xAB ")) (1000 + 300 * 1000) c ≡ true) others
unfolding normalized lower text_eq
others_leave_it = (refl, (refl, (refl, tt)))

acquired_excludes_example :
    acquire_chain_nonce_mutex (run (held ∷ []) others) 8 (text "0xaB") 6 300 2000
    ≡ ok (delete_where (is_over 2000) (run (held ∷ []) others), false)
unfolding acquire_chain_nonce_mutex normalized lower
acquired_excludes_example =
    acquired_excludes [] (held ∷ []) others 8 (text " 0xAB ") (text "0xaB") 5 300 1000 6 300 2000
      refl others_leave_it refl (omega arith)
