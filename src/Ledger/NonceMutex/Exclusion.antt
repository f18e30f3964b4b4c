-- ===== src/Ledger/NonceMutex/Exclusion.antt =====
-- One holder at a time.
use funi.Common.{
  ℕ, ◌+◌, ◌*◌, ◌≤◌, ◌≡◌, refl, inl, inr, Bool, true, ◌&&◌, List, [], ◌∷◌, ◌++◌, arith, Text,
  trim_start, trim_end, lower, lower_idem, normalized, text_eq_refl, text_eq, text_eq_iff,
  same_text, leb, leb→le, All, after, not, false, ◌==◌, ok, Bool-cases, any_where, delete_where,
}
use funi.Ledger.NonceMutex.Defs.{
  Holder, holds, is_over, insert_holder, chain_invalid, acquire_chain_nonce_mutex,
  release_chain_nonce_mutex,
}

-- A live holder of a wallet, which an acquisition before its end leaves.
abbrev held_until : ℕ → Text → ℕ → Holder → Bool
held_until chain key end h = holds chain key h && h.expires_at == end

any-append_old :
    (q : Holder → Bool) (db : List Holder) (h : Holder)
    → any_where q db ≡ true
    → any_where q (db ++ h ∷ []) ≡ true
any-append_old q [] h e = cc
any-append_old q (x ∷ db) h e = ground (arith, any-append_old q db h)

any-append :
    (q : Holder → Bool) (db : List Holder) (h : Holder)
    → q h ≡ true
    → any_where q (db ++ h ∷ []) ≡ true
any-append q [] h e = ground arith
any-append q (x ∷ db) h e = ground (arith, any-append q db h e)

survives :
    (chain : ℕ) (key : Text) (end now : ℕ) (db : List Holder)
    → now ≤ end
    → any_where (held_until chain key end) db ≡ true
    → any_where (holds chain key) (delete_where (is_over now) db) ≡ true
survives chain key end now [] le h = cc
survives chain key end now (x ∷ db) le h = ground (arith, survives chain key end now db le)

is_held :
    (h : Holder) (key : Text)
    → h.wallet_address ≡ key
    → lower key ≡ key
    → held_until h.chain_id key h.expires_at h ≡ true
is_held h key own fixed = ground (arith, text_eq_refl key)

insert-holds :
    (db db' : List Holder) (h : Holder) (key : Text)
    → insert_holder db h ≡ (db', true)
    → held_until h.chain_id key h.expires_at h ≡ true
    → any_where (held_until h.chain_id key h.expires_at) db' ≡ true
insert-holds db db' h key won held =
    ground (arith, any-append (held_until h.chain_id key h.expires_at) db h held)

key_idem : (wallet : Text) → lower (normalized wallet) ≡ normalized wallet
unfolding normalized
key_idem wallet = lower_idem (trim_end (trim_start wallet))

acquired_holds :
    (db db' : List Holder) (chain : ℕ) (wallet : Text) (nonce ttl now : ℕ)
    → acquire_chain_nonce_mutex db chain wallet nonce ttl now ≡ ok (db', true)
    → chain_invalid chain ≡ false
      × any_where (held_until chain (normalized wallet) (now + ttl * 1000)) db' ≡ true
unfolding acquire_chain_nonce_mutex
acquired_holds db db' chain wallet nonce ttl now won = do
  let h : Holder = record {
    chain_id = chain;
    wallet_address = normalized wallet;
    nonce = nonce;
    acquired_at = now;
    expires_at = now + ttl * 1000;
  }
  let held = is_held h (normalized wallet) refl (key_idem wallet)
  let placed = λ (w : insert_holder (delete_where (is_over now) db) h ≡ (db', true)).
      insert-holds (delete_where (is_over now) db) db' h (normalized wallet) w held
  let live = delete_where (is_over now) db
  elim (Bool-cases (chain_invalid chain)) [
    | inl e ↦ absurd (ground arith)
    | inr e ↦ elim (Bool-cases (any_where (holds chain (normalized wallet)) live)) [
      | inl o ↦ absurd (ground arith)
      | inr o ↦ (e, placed (ground arith))
    ]
  ]

-- The calls on the mutexes, each at its instant; one that throws leaves them as they were.
pub data Call : Type 0 where
  acquires : (chain : ℕ) → (wallet : Text) → (nonce ttl now : ℕ) → Call
  releases : (chain : ℕ) → (wallet : Text) → Call

unfoldable pub step : List Holder → Call → List Holder
step db (acquires chain wallet nonce ttl now) =
    after db (acquire_chain_nonce_mutex db chain wallet nonce ttl now)
step db (releases chain wallet) = (release_chain_nonce_mutex db chain wallet).0

unfoldable pub run : List Holder → List Call → List Holder
run db [] = db
run db (c ∷ cs) = run (step db c) cs

-- An acquisition of any wallet up to an instant, or a release of another chain or wallet.
abbrev pub leaves_held : ℕ → Text → ℕ → Call → Bool
leaves_held chain key end (acquires c w nonce ttl now) = leb now end
leaves_held chain key end (releases c w) = not (c == chain && text_eq key (normalized w))

overdue_leaves :
    (chain : ℕ) (key : Text) (end now : ℕ) (db : List Holder)
    → now ≤ end
    → any_where (held_until chain key end) db ≡ true
    → any_where (held_until chain key end) (delete_where (is_over now) db) ≡ true
overdue_leaves chain key end now [] le h = cc
overdue_leaves chain key end now (x ∷ db) le h =
    ground (arith, overdue_leaves chain key end now db le)

insert_leaves :
    (q : Holder → Bool) (db : List Holder) (h : Holder)
    → any_where q db ≡ true
    → any_where q (insert_holder db h).0 ≡ true
insert_leaves q db h e =
    elim (Bool-cases (
      any_where (λ x. x.chain_id == h.chain_id && same_text x.wallet_address h.wallet_address)
        db)) [ inl t ↦ rw t e | inr t ↦ rw t (any-append_old q db h e) ]

acquire_leaves :
    (db : List Holder) (chain c : ℕ) (key w : Text) (end nonce ttl now : ℕ)
    → now ≤ end
    → any_where (held_until chain key end) db ≡ true
    → any_where
        (held_until chain key end)
        (after db (acquire_chain_nonce_mutex db c w nonce ttl now))
      ≡ true
unfolding acquire_chain_nonce_mutex
acquire_leaves db chain c key w end nonce ttl now le h =
    let live = delete_where (is_over now) db in
    let kept = overdue_leaves chain key end now db le h in
    elim (Bool-cases (chain_invalid c)) [
      | inl e ↦ rw e h
      | inr e ↦ elim (Bool-cases (any_where (holds c (normalized w)) live)) [
        | inl o ↦ rw (e, o) kept
        | inr o ↦ rw (e, o) (insert_leaves (held_until chain key end) live _ kept)
      ]
    ]

release_leaves :
    (chain c : ℕ) (key w : Text) (end : ℕ) (db : List Holder)
    → (c == chain && text_eq key (normalized w)) ≡ false
    → any_where (held_until chain key end) db ≡ true
    → any_where (held_until chain key end) (delete_where (holds c (normalized w)) db) ≡ true
release_leaves chain c key w end [] other h = cc
release_leaves chain c key w end (x ∷ db) other h = ground (
  arith,
  release_leaves chain c key w end db other,
  text_eq_iff (lower x.wallet_address) key,
  text_eq_iff (lower x.wallet_address) (normalized w),
  text_eq_iff key (normalized w),
)

run_leaves :
    (chain : ℕ) (key : Text) (end : ℕ) (cs : List Call) (db : List Holder)
    → All (λ c. leaves_held chain key end c ≡ true) cs
    → any_where (held_until chain key end) db ≡ true
    → any_where (held_until chain key end) (run db cs) ≡ true
unfolding run step release_chain_nonce_mutex
run_leaves chain key end [] db quiet h = h
run_leaves chain key end (acquires c w nonce ttl now ∷ cs) db quiet h =
    run_leaves chain key end cs _ quiet.1
      (acquire_leaves db chain c key w end nonce ttl now (leb→le _ _ quiet.0) h)
run_leaves chain key end (releases c w ∷ cs) db quiet h =
    run_leaves chain key end cs _ quiet.1
      (release_leaves chain c key w end db (ground (arith, quiet.0)) h)

-- Once an acquisition has succeeded, every sequence of further acquisitions of any wallet up to its
-- end, and of releases of other chains or wallets, leaves it in force: an acquisition of the same
-- chain and wallet up to its end is refused, whatever the case of the wallet and the blanks around it.
pub acquired_excludes :
    (db db' : List Holder) (cs : List Call) (chain : ℕ) (wallet other : Text)
    (nonce ttl now nonce' ttl' later : ℕ)
    → acquire_chain_nonce_mutex db chain wallet nonce ttl now ≡ ok (db', true)
    → All (λ c. leaves_held chain (normalized wallet) (now + ttl * 1000) c ≡ true) cs
    → normalized other ≡ normalized wallet
    → later ≤ now + ttl * 1000
    → acquire_chain_nonce_mutex (run db' cs) chain other nonce' ttl' later
      ≡ ok (delete_where (is_over later) (run db' cs), false)
unfolding acquire_chain_nonce_mutex
acquired_excludes db db' cs chain wallet other nonce ttl now nonce' ttl' later won quiet same
      early =
    do
      let got = acquired_holds db db' chain wallet nonce ttl now won
      let still = run_leaves chain (normalized wallet) (now + ttl * 1000) cs db' quiet got.1
      let kept =
          survives chain (normalized wallet) (now + ttl * 1000) later (run db' cs) early still
      ground (arith, same, kept, got.0)
