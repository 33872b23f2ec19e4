-- ===== src/SessionManager/Pending.antt =====
-- The messages of a session that wait for a response.
use auction_manager.Prelude.{
  ℕ, ◌≡◌, refl, Option, none, some, ◌==◌, if◌then◌else◌, arith, Result, ok, err, ==_iff,
}
use auction_manager.Prelude.Dict.{Dict, lookup, insert, nat_key, lookup-insert, lookup-erase}
use auction_manager.SessionManager.{Error, pending_exists, confirm_message, add_pending_message}

-- What adding a message comes to, by what waits under its number.
abbrev pub IsPending :
    {Message : Type 0}
    → ℕ
    → Message
    → Dict ℕ Message
    → Option Message
    → Result Error (Dict ℕ Message)
    → Type 0
IsPending {Message} mid mes pending (some other) r = r ≡ err pending_exists
IsPending {Message} mid mes pending none r =
    (pending' : Dict ℕ Message) × (r ≡ ok pending')
    × (lookup mid pending' ≡ some mes)
    × ((n : ℕ) → lookup n (confirm_message mid pending') ≡ lookup n pending)

lookup-confirm_message :
    {Message : Type 0} (mid n : ℕ) (pending : Dict ℕ Message)
    → lookup n (confirm_message mid pending) ≡ (if mid == n then none else lookup n pending)
unfolding confirm_message
lookup-confirm_message {Message} mid n pending = go (lookup mid pending) refl
  where
    go :
        (r : Option Message)
        → lookup mid pending ≡ r
        → lookup n (confirm_message mid pending) ≡ (if mid == n then none else lookup n pending)
    go none e = ground (arith, e, ==_iff mid n)
    go (some mes) e = ground (arith, e, lookup-erase mid n pending)

-- A message cannot be added while one with its number waits. Otherwise it is added and waits under
-- its number, and confirming the number leaves just the messages that waited before.
pub add_pending_message-IsPending :
    {Message : Type 0} (get_seqno : Message → ℕ) (mes : Message) (pending : Dict ℕ Message)
    → IsPending
        (get_seqno mes)
        mes
        pending
        (lookup (get_seqno mes) pending)
        (add_pending_message get_seqno mes pending)
unfolding add_pending_message
add_pending_message-IsPending {Message} get_seqno mes pending =
    go (lookup (get_seqno mes) pending) refl
  where
    go :
        (r : Option Message)
        → lookup (get_seqno mes) pending ≡ r
        → IsPending (get_seqno mes) mes pending r (add_pending_message get_seqno mes pending)
    go (some other) e = rw (add_pending_message, e) refl
    go none e =
        let mid = get_seqno mes in
        let pending' = insert mid mes pending in
        (
          pending',
          rw (add_pending_message, e) refl,
          ground (arith, lookup-insert mid mid mes pending, ==_iff mid mid),
          λ n. ground (
            arith,
            lookup-confirm_message mid n pending',
            lookup-insert mid n mes pending,
            ==_iff mid n,
            e,
          ),
        )
