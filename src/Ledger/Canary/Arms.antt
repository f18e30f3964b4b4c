-- ===== src/Ledger/Canary/Arms.antt =====
-- The rows of `canary_arms`: an operator, a user in a chat, arms the canary for a while. `created_at`
-- orders the rows as their insertion does.
use funi.Common.{
  ℕ, ◌+◌, Bool, true, false, ◌&&◌, Option, none, some, List, [], ◌∷◌, ◌++◌, Text, text_eq, ltb, leb,
  ◌==◌, if◌then◌else◌, any_where, select_where, count_where, update_where, Result, ok, err,
}

pub data ArmStatus : Type 0 where
  pending : ArmStatus
  armed : ArmStatus
  consumed : ArmStatus
  disarmed : ArmStatus
  expired : ArmStatus

pub record Arm : Type 0 where
  pub id : Text
  pub user_id : Text
  pub chat_id : Text
  pub status : ArmStatus
  pub expires_at_ms : ℕ
  pub consumed_at : Option ℕ

pub data Error : Type 0 where
  constraint_failed : Error

abbrev pub is_armed : Arm → Bool
is_armed a = elim a.status [ armed ↦ true | _ ↦ false ]

abbrev pub is_pending : Arm → Bool
is_pending a = elim a.status [ pending ↦ true | _ ↦ false ]

abbrev pub is_operator : Text → Text → Arm → Bool
is_operator user chat a = text_eq a.user_id user && text_eq a.chat_id chat

abbrev pub has_arm_id : Text → Arm → Bool
has_arm_id id a = text_eq a.id id

abbrev pub armed_for : Text → Text → Arm → Bool
armed_for user chat a = is_operator user chat a && is_armed a

abbrev pub pending_for : Text → Text → Arm → Bool
pending_for user chat a = is_operator user chat a && is_pending a

abbrev pub is_overdue : ℕ → Arm → Bool
is_overdue now a = is_armed a && leb a.expires_at_ms now

abbrev pub becomes : ArmStatus → Arm → Arm
becomes st a = record a { status = st }

abbrev pub new_arm : Text → Text → Text → ArmStatus → ℕ → Arm
new_arm id user chat st expires = record {
  id = id;
  user_id = user;
  chat_id = chat;
  status = st;
  expires_at_ms = expires;
  consumed_at = none;
}

abbrev pub insert_arm : List Arm → Arm → Result Error (List Arm)
insert_arm rows a =
    if any_where (has_arm_id a.id) rows then err constraint_failed else ok (rows ++ a ∷ [])

abbrev pub expire_armed : ℕ → List Arm → List Arm
expire_armed now rows = update_where (is_overdue now) (becomes expired) rows

abbrev pub disarm_operator : Text → Text → List Arm → List Arm
disarm_operator user chat rows = update_where (armed_for user chat) (becomes disarmed) rows

unfoldable pub arm_canary : List Arm → Text → Text → Text → ℕ → ℕ → Result Error (List Arm)
arm_canary rows id user chat now ttl =
    insert_arm (disarm_operator user chat (expire_armed now rows))
      (new_arm id user chat armed (now + ttl))

abbrev pub inserted_or : List Arm → Result Error (List Arm) → List Arm × Result Error (Unit {0})
inserted_or rows (ok rows') = (rows', ok tt)
inserted_or rows (err e) = (rows, err e)

-- Two statements without a transaction: where the INSERT throws, the UPDATE stays.
unfoldable pub request_canary_arm :
    List Arm → Text → Text → Text → ℕ → ℕ → List Arm × Result Error (Unit {0})
request_canary_arm rows id user chat now ttl =
    let rows' = update_where (pending_for user chat) (becomes expired) rows in
    inserted_or rows' (insert_arm rows' (new_arm id user chat pending (now + ttl)))

abbrev pub may_confirm : Text → Text → Text → ℕ → Arm → Bool
may_confirm id user chat now a =
    has_arm_id id a && (pending_for user chat a && ltb now a.expires_at_ms)

abbrev pub armed_until : ℕ → Arm → Arm
armed_until expires a = record a { status = armed; expires_at_ms = expires }

-- The transaction commits also where no pending arm was found.
unfoldable pub confirm_canary_arm : List Arm → Text → Text → Text → ℕ → ℕ → List Arm × Bool
confirm_canary_arm rows id user chat now ttl =
    let rows' = disarm_operator user chat rows in
    (
      update_where (may_confirm id user chat now) (armed_until (now + ttl)) rows',
      count_where (may_confirm id user chat now) rows' == 1,
    )

unfoldable pub disarm_canary : List Arm → Text → Text → List Arm × Bool
disarm_canary rows user chat =
    (disarm_operator user chat rows, ltb 0 (count_where (armed_for user chat) rows))

abbrev pub last_of : List Arm → Option Arm
last_of [] = none
last_of (a ∷ []) = some a
last_of (a ∷ b ∷ rest) = last_of (b ∷ rest)

unfoldable pub active_canary_arm : List Arm → Text → Text → ℕ → List Arm × Option Arm
active_canary_arm rows user chat now =
    let rows' = expire_armed now rows in
    (rows', last_of (select_where (λ a. armed_for user chat a && ltb now a.expires_at_ms) rows'))

abbrev pub may_consume : Text → Text → Text → ℕ → Arm → Bool
may_consume id user chat now a =
    has_arm_id id a && (armed_for user chat a && ltb now a.expires_at_ms)

abbrev pub consumed_now : ℕ → Arm → Arm
consumed_now now a = record a { status = consumed; consumed_at = some now }

unfoldable pub consume_canary_arm : List Arm → Text → Text → Text → ℕ → List Arm × Bool
consume_canary_arm rows user chat id now = (
  update_where (may_consume id user chat now) (consumed_now now) rows,
  count_where (may_consume id user chat now) rows == 1,
)
