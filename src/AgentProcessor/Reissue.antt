-- ===== src/AgentProcessor/Reissue.antt =====
-- That a request can take the place of another one that is still running.
use Prim.Native.String.{String}
use auction_manager.Prelude.{ℕ, ◌≡◌, refl, false, List, [], ◌∷◌, Result, ok, err}
use auction_manager.Prelude.Dict.{lookup, insert, erase, nat_key}
use auction_manager.IdSource.{IdSource, new_id, free_id, skip_reserved, is_reserved}
use auction_manager.Auction.{Auction}
use auction_manager.BiddingObject.{Fields}
use auction_manager.AgentProcessor.{
  Error, UserProcedure, RequestProcess, AgentProcessor, new_processor, user_module, add_request,
  del_request, session_of,
}

-- A user's calls: a request is added for a session, or removed by its index.
pub data Call : Type 0 where
  add : String → Call
  remove : ℕ → Call

-- What a request for an auction needs.
pub record Setting : Type 0 where
  pub load : String → Result Error UserProcedure
  pub parameters : Fields
  pub auction : Auction
  pub start : ℕ
  pub stop : ℕ

-- The indices that the calls return, in order, and the processor that they leave.
unfoldable pub run_calls :
    Setting → List Call → AgentProcessor → Result Error (List ℕ × AgentProcessor)
run_calls c [] p = ok ([], p)
run_calls c (remove index ∷ calls) p = run_calls c calls (del_request index p)
run_calls c (add session ∷ calls) p =
    elim (add_request 1 c.load session c.parameters c.auction c.start c.stop p) [
      | err e ↦ err e
      | ok (index, p') ↦ elim (run_calls c calls p') [
        | err e ↦ err e
        | ok (indices, p'') ↦ ok (index ∷ indices, p'')
      ]
    ]

-- The request of a session.
abbrev request : Setting → UserProcedure → String → RequestProcess
request c run session = record {
  session = session;
  module_name = user_module c.auction;
  start = c.start;
  stop = c.stop;
  parameters = c.parameters;
  procedure = run;
  auctions = c.auction ∷ [];
}

abbrev ids : ℕ → List ℕ → IdSource
ids num free_ids = record { num = num; unique = false; free_ids = free_ids; id_reserved = [] }

-- Three requests get the indices 0, 1 and 2. When the first one is deleted, the next request gets
-- its index, and the one after that gets the index 2, although the third request is still there:
-- the session of the index 2 is then the last one, and the third request is lost. This holds
-- whenever the module for the auction can be loaded.
pub add_request_replaces_running :
    (c : Setting) (run : UserProcedure) (s1 s2 s3 s4 s5 : String)
    → c.load (user_module c.auction) ≡ ok run
    → (p p' : AgentProcessor) × (run_calls c
          (add s1 ∷ add s2 ∷ add s3 ∷ remove 0 ∷ [])
          new_processor
        ≡ ok (0 ∷ 1 ∷ 2 ∷ [], p))
      × (session_of 2 p ≡ ok s3)
      × (run_calls c (add s4 ∷ add s5 ∷ []) p ≡ ok (0 ∷ 2 ∷ [], p'))
      × (session_of 2 p' ≡ ok s5)
unfolding run_calls add_request del_request session_of new_id free_id skip_reserved is_reserved
    lookup insert erase
add_request_replaces_running c run s1 s2 s3 s4 s5 h = (
  record {
    requests = (1, request c run s2) ∷ (2, request c run s3) ∷ [];
    id_source = ids 1 (0 ∷ []);
  },
  record {
    requests = (0, request c run s4) ∷ (1, request c run s2) ∷ (2, request c run s5) ∷ [];
    id_source = ids 2 [];
  },
  rw (run_calls, h) (rw (run_calls, h) (rw (run_calls, h) refl)),
  refl,
  rw (run_calls, h) (rw (run_calls, h) refl),
  refl,
)
