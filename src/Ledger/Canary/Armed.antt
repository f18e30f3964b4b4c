-- ===== src/Ledger/Canary/Armed.antt =====
-- An operator has at most one armed canary, and an arm is consumed at most once.
use funi.Common.{
  ℕ, ◌+◌, ◌≤◌, ◌≡◌, refl, sym, ap, ◌∙◌, inl, inr, Bool, true, false, ◌&&◌, List, [], ◌∷◌, ◌++◌,
  arith, Text, text_eq, text_eq_iff, text_eq_refl, Bool-cases, any_where, count_where, update_where,
  Result, ok, err, count-update_le, count-update_zero, count-append, count-imp_le,
  count_of_any_false,
}
use funi.Ledger.Canary.Arms.{
  Arm, armed, pending, Error, is_armed, has_arm_id, is_operator, armed_for, pending_for, is_overdue,
  becomes, new_arm, insert_arm, expire_armed, disarm_operator, arm_canary, request_canary_arm,
  inserted_or, may_confirm, armed_until, confirm_canary_arm, disarm_canary, active_canary_arm,
  may_consume, consumed_now, consume_canary_arm, disarmed, expired,
}

pub data Call : Type 0 where
  arms : (id user chat : Text) → (now ttl : ℕ) → Call
  requests : (id user chat : Text) → (now ttl : ℕ) → Call
  confirms : (id user chat : Text) → (now ttl : ℕ) → Call
  disarms : (user chat : Text) → Call
  looks_up : (user chat : Text) → ℕ → Call
  consumes : (user chat id : Text) → ℕ → Call

abbrev pub rows_after : List Arm → Result Error (List Arm) → List Arm
rows_after rows (ok rows') = rows'
rows_after rows (err e) = rows

unfoldable pub step : List Arm → Call → List Arm
step rows (arms id user chat now ttl) = rows_after rows (arm_canary rows id user chat now ttl)
step rows (requests id user chat now ttl) = (request_canary_arm rows id user chat now ttl).0
step rows (confirms id user chat now ttl) = (confirm_canary_arm rows id user chat now ttl).0
step rows (disarms user chat) = (disarm_canary rows user chat).0
step rows (looks_up user chat now) = (active_canary_arm rows user chat now).0
step rows (consumes user chat id now) = (consume_canary_arm rows user chat id now).0

unfoldable pub run : List Arm → List Call → List Arm
run rows [] = rows
run rows (c ∷ cs) = run (step rows c) cs

-- Ids are unique, and so is the armed row of an operator.
pub record IsSingle (rows : List Arm) : Type 0 where
  pub ids : (id : Text) → count_where (has_arm_id id) rows ≤ 1
  pub operators : (user chat : Text) → count_where (armed_for user chat) rows ≤ 1

count-update_add :
    (q p : Arm → Bool) (f : Arm → Arm) (xs : List Arm)
    → count_where q (update_where p f xs) ≤ count_where q xs + count_where p xs
count-update_add q p f [] = omega arith
count-update_add q p f (x ∷ xs) = ground (arith, count-update_add q p f xs)

-- An UPDATE that keeps ids and arms nothing.
module _ (p : Arm → Bool) (f : Arm → Arm) (own : (a : Arm) → (f a).id ≡ a.id)
    (calm : (a : Arm) → is_armed (f a) ≡ false) where
  update-IsSingle : (xs : List Arm) → IsSingle xs → IsSingle (update_where p f xs)
  update-IsSingle xs h = record {
    ids = λ id.
        omega (
          arith,
          h.ids id,
          count-update_le (has_arm_id id) p f xs (λ x e g. ground (arith, own x)),
        );
    operators = λ user chat. omega (
      arith,
      h.operators user chat,
      count-update_le (armed_for user chat) p f xs (λ x e g. absurd (ground (arith, calm x))),
    );
  }

insert-IsSingle :
    (xs : List Arm) (a : Arm)
    → IsSingle xs
    → (is_armed a ≡ true → count_where (armed_for a.user_id a.chat_id) xs ≡ 0)
    → any_where (has_arm_id a.id) xs ≡ false
    → IsSingle (xs ++ a ∷ [])
insert-IsSingle xs a h room new = record {
  ids = λ id. elim (Bool-cases (has_arm_id id a)) [
    | inl e ↦ ground (
      arith,
      count-append (has_arm_id id) xs (a ∷ []),
      (text_eq_iff a.id id).0 e,
      count_of_any_false (has_arm_id a.id) (has_arm_id a.id) xs new (λ x g. g),
    )
    | inr e ↦ ground (arith, count-append (has_arm_id id) xs (a ∷ []), h.ids id)
  ];
  operators = λ user chat. elim (Bool-cases (armed_for user chat a)) [
    | inl e ↦
        let is_user : a.user_id ≡ user = (text_eq_iff a.user_id user).0 (ground arith) in
        let is_chat : a.chat_id ≡ chat = (text_eq_iff a.chat_id chat).0 (ground arith) in
        let none_yet : count_where (armed_for a.user_id a.chat_id) xs ≡ 0 = room (ground arith) in
        let same : count_where (armed_for user chat) xs ≡ 0 =
          ap (λ (u : Text). count_where (armed_for u chat) xs) (sym is_user)
          ∙ ap (λ (c : Text). count_where (armed_for a.user_id c) xs) (sym is_chat)
          ∙ none_yet in
        ground (arith, count-append (armed_for user chat) xs (a ∷ []), same)
    | inr e ↦ ground (arith, count-append (armed_for user chat) xs (a ∷ []), h.operators user chat)
  ];
}

expire-IsSingle : (now : ℕ) (xs : List Arm) → IsSingle xs → IsSingle (expire_armed now xs)
expire-IsSingle now xs h =
    update-IsSingle (is_overdue now) (becomes expired) (λ a. refl) (λ a. refl) xs h

disarm-IsSingle :
    (user chat : Text) (xs : List Arm) → IsSingle xs → IsSingle (disarm_operator user chat xs)
disarm-IsSingle user chat xs h =
    update-IsSingle (armed_for user chat) (becomes disarmed) (λ a. refl) (λ a. refl) xs h

disarm_none :
    (user chat : Text) (xs : List Arm)
    → count_where (armed_for user chat) (disarm_operator user chat xs) ≡ 0
disarm_none user chat xs =
    count-update_zero (armed_for user chat) (armed_for user chat) (becomes disarmed) xs (λ x e. e)
      (λ x e. ground arith)

insert_arm-IsSingle :
    (xs : List Arm) (a : Arm)
    → IsSingle xs
    → (is_armed a ≡ true → count_where (armed_for a.user_id a.chat_id) xs ≡ 0)
    → (ys : List Arm) → IsSingle ys
    → IsSingle (rows_after ys (insert_arm xs a))
insert_arm-IsSingle xs a h room ys k = elim (Bool-cases (any_where (has_arm_id a.id) xs)) [
  | inl e ↦ rw e k
  | inr e ↦ rw e (insert-IsSingle xs a h room e)
]

one_operator :
    (user chat u c : Text) (x : Arm)
    → is_operator user chat x ≡ true
    → is_operator u c x ≡ true
    → (user ≡ u) × (chat ≡ c)
one_operator user chat u c x p q = (
  sym ((text_eq_iff x.user_id user).0 (ground arith)) ∙ (text_eq_iff x.user_id u).0 (ground arith),
  sym ((text_eq_iff x.chat_id chat).0 (ground arith)) ∙ (text_eq_iff x.chat_id c).0 (ground arith),
)

confirm-IsSingle :
    (id user chat : Text) (now until : ℕ) (xs : List Arm)
    → IsSingle xs
    → count_where (armed_for user chat) xs ≡ 0
    → IsSingle (update_where (may_confirm id user chat now) (armed_until until) xs)
confirm-IsSingle id user chat now until xs h free = record {
  ids = λ k. omega (
    arith,
    h.ids k,
    count-update_le (has_arm_id k) (may_confirm id user chat now) (armed_until until) xs
        (λ x e g. g),
  );
  operators = λ u c. elim (Bool-cases (text_eq user u && text_eq chat c)) [
    | inl e ↦
        let is_user : user ≡ u = (text_eq_iff user u).0 (ground arith) in
        let is_chat : chat ≡ c = (text_eq_iff chat c).0 (ground arith) in
        let none_armed : count_where (armed_for u c) xs ≡ 0 =
          ap (λ (t : Text). count_where (armed_for t c) xs) (sym is_user)
          ∙ ap (λ (t : Text). count_where (armed_for user t) xs) (sym is_chat)
          ∙ free in
        omega (
          arith,
          none_armed,
          count-update_add (armed_for u c) (may_confirm id user chat now) (armed_until until) xs,
          count-imp_le (may_confirm id user chat now) (has_arm_id id) xs (λ x g. ground arith),
          h.ids id,
        )
    | inr e ↦ omega (
      arith,
      h.operators u c,
      count-update_le (armed_for u c) (may_confirm id user chat now) (armed_until until) xs
          (λ x g k. absurd (
            ground (
              arith,
              one_operator user chat u c x (ground arith) (ground arith),
              text_eq_refl u,
              text_eq_refl c,
            ))),
    )
  ];
}

inserted_after :
    (rows : List Arm) (r : Result Error (List Arm)) → (inserted_or rows r).0 ≡ rows_after rows r
inserted_after rows (ok rows') = refl
inserted_after rows (err e) = refl

step-IsSingle : (rows : List Arm) (c : Call) → IsSingle rows → IsSingle (step rows c)
unfolding step arm_canary request_canary_arm confirm_canary_arm disarm_canary active_canary_arm
    consume_canary_arm
step-IsSingle rows (arms id user chat now ttl) h =
    insert_arm-IsSingle (disarm_operator user chat (expire_armed now rows))
      (new_arm id user chat armed (now + ttl))
      (disarm-IsSingle user chat (expire_armed now rows) (expire-IsSingle now rows h))
      (λ e. disarm_none user chat (expire_armed now rows)) rows h
step-IsSingle rows (requests id user chat now ttl) h =
    let kept =
      update-IsSingle (pending_for user chat) (becomes expired) (λ a. refl) (λ a. refl) rows h in
    rw (inserted_after (update_where (pending_for user chat) (becomes expired) rows) _) (
      insert_arm-IsSingle (update_where (pending_for user chat) (becomes expired) rows)
        (new_arm id user chat pending (now + ttl)) kept (λ e. absurd (cc))
        (update_where (pending_for user chat) (becomes expired) rows) kept)
step-IsSingle rows (confirms id user chat now ttl) h =
    confirm-IsSingle id user chat now (now + ttl) (disarm_operator user chat rows)
      (disarm-IsSingle user chat rows h) (disarm_none user chat rows)
step-IsSingle rows (disarms user chat) h = disarm-IsSingle user chat rows h
step-IsSingle rows (looks_up user chat now) h = expire-IsSingle now rows h
step-IsSingle rows (consumes user chat id now) h =
    update-IsSingle (may_consume id user chat now) (consumed_now now) (λ a. refl) (λ a. refl) rows h

-- Through every sequence of calls on a table in which ids are unique and no operator has two armed
-- rows, both stay so: the unique index on armed rows never refuses one.
pub run-IsSingle : (rows : List Arm) (cs : List Call) → IsSingle rows → IsSingle (run rows cs)
unfolding run
run-IsSingle rows [] h = h
run-IsSingle rows (c ∷ cs) h = run-IsSingle (step rows c) cs (step-IsSingle rows c h)
