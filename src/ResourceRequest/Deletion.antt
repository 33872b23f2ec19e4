-- ===== src/ResourceRequest/Deletion.antt =====
-- What deleting a resource request by its names leaves of the registry and of the queue.
use mathlib.Core.Path.{fun_ext}
use Prim.Native.String.{String}
use text.Mathlib.Text.{◌==◌ as str_eq}
use auction_manager.Prelude.{
  ℕ, ◌≤◌, ◌≡◌, ◌≢◌, refl, sym, ap, ◌∙◌, Bool-cases, inl, inr, false, List, [], ◌∷◌, Option, none,
  some, ◌==◌, ◌&&◌, if◌then◌else◌, arith, Result, ok, err, ==_iff, All-map,
}
use auction_manager.Event.{
  Payload, request_interval, resource_requests, delete_status, payload_delete_resource_request,
}
use auction_manager.Event.Removal.{count, count-erase_first_self, count-erase_first_ne, only_uid}
use auction_manager.EventScheduler.{EventList}
use auction_manager.EventScheduler.Removal.{
  sum_over, sum_over-del_events, sum_over-zero, left, NamesOnce,
}
use auction_manager.EventSchedulerAgent.{del_resource_request_events}
use auction_manager.ObjectManager.{Object, Error, no_such_object, get_named, delete_object}
use auction_manager.ObjectManager.Index.{same}
use auction_manager.ObjectManager.Laws.{IsWellFormed}
use auction_manager.ObjectManager.Removing.{delete_object-named}
use auction_manager.ResourceRequest.{Requests, delete_request, delete_request_named}

-- The requests that an event refers to.
abbrev pub request_uids : Payload → List ℕ
request_uids (request_interval (some r) t) = r ∷ []
request_uids (resource_requests xs) = xs
request_uids _ = []

-- How often the events of the queue refer to a request.
abbrev pub request_count : ℕ → EventList → ℕ
request_count v = sum_over (λ p. count v (request_uids p))

request_gone :
    (uid : ℕ) (p : Payload)
    → count uid (request_uids p) ≤ 1
    → left (payload_delete_resource_request uid) (λ p. count uid (request_uids p)) p ≡ 0
unfolding payload_delete_resource_request
request_gone uid (request_interval none t) h = refl
request_gone uid (request_interval (some r) t) h = elim (Bool-cases (r == uid)) [
  | inl here ↦ rw here refl
  | inr other ↦ rw other (ground (arith, other))
]
request_gone uid (resource_requests xs) h = ground (arith, count-erase_first_self uid xs h)
request_gone uid _ h = refl

request_kept :
    (uid v : ℕ) (h : v ≢ uid) (p : Payload)
    → left (payload_delete_resource_request uid) (λ p. count v (request_uids p)) p
      ≡ count v (request_uids p)
unfolding payload_delete_resource_request
request_kept uid v h (request_interval none t) = refl
request_kept uid v h (request_interval (some r) t) = elim (Bool-cases (r == uid)) [
  | inl here ↦ rw here (ground (arith, here, h, ==_iff r uid, ==_iff r v))
  | inr other ↦ rw other refl
]
request_kept uid v h (resource_requests xs) = elim (Bool-cases (delete_status uid xs == 2)) [
  | inl gone ↦ rw gone (sym (only_uid uid v xs gone h))
  | inr kept ↦ rw kept (count-erase_first_ne uid v xs h)
]
request_kept uid v h _ = refl

-- The queue `q'` refers to the request no more, and to every other as often as `q`.
abbrev pub Forgets : ℕ → EventList → EventList → Type 0
Forgets uid q q' =
    (request_count uid q' ≡ 0) × ((v : ℕ) → v ≢ uid → request_count v q' ≡ request_count v q)

del_resource_request_events-Forgets :
    (uid : ℕ) (q : EventList)
    → NamesOnce request_uids uid q
    → Forgets uid q (del_resource_request_events uid q)
unfolding del_resource_request_events
del_resource_request_events-Forgets uid q once = (
  sum_over-del_events _ _ q
      ∙ sum_over-zero _ q (All-map (λ p. request_gone uid p.1.payload) q once),
  λ v h. sum_over-del_events _ _ q ∙ ap (λ m. sum_over m q) (fun_ext (request_kept uid v h)),
)

-- What the deletion comes to, `o` being what the registry holds under the names.
abbrev pub IsDeleted :
    Requests × EventList
    → String
    → String
    → Option Object
    → Result Error (Requests × EventList)
    → Type 0
IsDeleted (manager, q) s n none r = r ≡ err no_such_object
IsDeleted (manager, q) s n (some o) r =
    (manager' : Requests) × (q' : EventList) × (r ≡ ok (manager', q'))
    × IsWellFormed manager'.registry
    × ((s' n' : String)
        → get_named manager'.registry s' n'
          ≡ (if same s n s' n' then none else get_named manager.registry s' n'))
    × Forgets o.uid q q'

-- No event refers to the request twice.
abbrev pub NamedOnce : Option Object → EventList → Type 0
NamedOnce none q = Unit {0}
NamedOnce (some o) q = NamesOnce request_uids o.uid q

-- On a well-formed registry, deleting a request by its names, not both of them empty, fails with the
-- error for a missing object when there is none. Otherwise, if no event refers to the request twice,
-- it leaves a well-formed registry in which just these names are gone, and a queue that refers to
-- the request no more and to every other one as often as before.
pub delete_request_named-IsDeleted :
    (s n : String) (manager : Requests) (q : EventList)
    → IsWellFormed manager.registry
    → str_eq s "" && str_eq n "" ≡ false
    → NamedOnce (get_named manager.registry s n) q
    → IsDeleted
        (manager, q)
        s
        n
        (get_named manager.registry s n)
        (delete_request_named (manager, q) s n)
unfolding delete_request_named delete_request
delete_request_named-IsDeleted s n manager q w full once =
    go (get_named manager.registry s n) refl once
  where
    go :
        (r : Option Object)
        → get_named manager.registry s n ≡ r
        → NamedOnce r q
        → IsDeleted (manager, q) s n r (delete_request_named (manager, q) s n)
    go none e once = rw (delete_request_named, full, e) refl
    go (some a) e once =
        let (w', len, names) = delete_object-named manager.registry a s n w e in
        (
          record manager { registry = delete_object manager.registry a },
          del_resource_request_events a.uid q,
          rw (delete_request_named, full, e) refl,
          w',
          names,
          del_resource_request_events-Forgets a.uid q once,
        )
