-- ===== src/Agent/Intervals.antt =====
-- The times of auctions and of requests that user_agent/src/Agent.cpp computes.
use native.Mathlib.Nat.{mod-lt, div-add-mod, mul-div_right}
use auction_manager.Prelude.{
  ℕ, zero, suc, ◌+◌, ◌-◌, ◌*◌, ◌/◌, ◌%◌, ◌≤◌, ◌<◌, ◌≡◌, arith, ltb, leb, Bool-cases, inl, inr,
  if◌then◌else◌,
}

-- `intersectInterval`.
unfoldable pub intersect_interval : ℕ → ℕ → ℕ → ℕ → ℕ × ℕ
intersect_interval start_auc stop_auc start_req stop_req = (
  if leb start_auc start_req
      then start_req
      else (if leb stop_req start_auc then start_req else start_auc),
  if leb stop_auc stop_req
      then (if leb stop_auc start_req then stop_req else stop_auc)
      else stop_req,
)

-- The stop of an auction that is new, as `createAuctions` moves it: a part of an interval at the end
-- becomes a whole one.
unfoldable pub whole_stop : ℕ → ℕ → ℕ → ℕ
whole_stop interval start stop =
    if ltb 0 interval
    then (if ltb 0 ((stop - start) % interval)
        then start + interval * ((stop - start) / interval + 1)
        else stop)
    else stop

-- The end of a request, as `createProcessRequests` moves it for a group of auctions.
unfoldable pub next_end : ℕ → ℕ → ℕ → ℕ
next_end max_interval req_start req_end =
    if ltb 0 max_interval
    then req_start + max_interval * ((req_end - req_start) / max_interval + 1)
    else req_end

abbrev max_ℕ : ℕ → ℕ → ℕ
max_ℕ a b = if leb a b then b else a

abbrev min_ℕ : ℕ → ℕ → ℕ
min_ℕ a b = if leb a b then a else b

-- The time that two intervals share, from the later start to the earlier stop, if there is any, and
-- the second of them otherwise.
abbrev pub shared_or_second : ℕ → ℕ → ℕ → ℕ → ℕ × ℕ
shared_or_second start_1 stop_1 start_2 stop_2 =
    if ltb (max_ℕ start_1 start_2) (min_ℕ stop_1 stop_2)
    then (max_ℕ start_1 start_2, min_ℕ stop_1 stop_2)
    else (start_2, stop_2)

pub intersect_interval-shared :
    (start_auc stop_auc start_req stop_req : ℕ)
    → start_auc < stop_auc
    → start_req < stop_req
    → intersect_interval start_auc stop_auc start_req stop_req
      ≡ shared_or_second start_auc stop_auc start_req stop_req
unfolding intersect_interval
intersect_interval-shared start_auc stop_auc start_req stop_req ha hr = ground arith

pub shared_or_second-lasts :
    (start_auc stop_auc start_req stop_req : ℕ)
    → start_req < stop_req
    → (shared_or_second start_auc stop_auc start_req stop_req).0
      ≤ (shared_or_second start_auc stop_auc start_req stop_req).1
shared_or_second-lasts start_auc stop_auc start_req stop_req hr = ground arith

-- The new stop is not before the old one, less than an interval after it, and a whole number of
-- intervals after the start.
pub record IsWholeStop (interval start stop new_stop : ℕ) : Type 0 where
  pub not_before : stop ≤ new_stop
  pub is_near : new_stop < stop + interval
  pub multiple : ℕ
  pub is_whole : new_stop ≡ start + interval * multiple

pub whole_stop-IsWholeStop :
    (interval start stop : ℕ)
    → 0 < interval
    → start ≤ stop
    → IsWholeStop interval start stop (whole_stop interval start stop)
unfolding whole_stop
whole_stop-IsWholeStop interval start stop hi hs =
    let d = stop - start in
    let parts = div-add-mod d interval in
    let small = mod-lt d hi in
    elim (Bool-cases (ltb 0 (d % interval))) [
      | inl y ↦ record {
        not_before = ground (arith, y, hi, hs, parts, small);
        is_near = ground (arith, y, hi, hs, parts, small);
        multiple = d / interval + 1;
        is_whole = ground (arith, y, hi);
      }
      | inr n ↦ record {
        not_before = ground (arith, n, hi);
        is_near = ground (arith, n, hi);
        multiple = d / interval;
        is_whole = ground (arith, n, hi, hs, parts);
      }
    ]

-- The end after so many groups.
unfoldable pub end_after : ℕ → ℕ → ℕ → ℕ → ℕ
end_after zero max_interval req_start req_end = req_end
end_after (suc n) max_interval req_start req_end =
    end_after n max_interval req_start (next_end max_interval req_start req_end)

next_end-next_end :
    (max_interval req_start req_end : ℕ)
    → 0 < max_interval
    → next_end max_interval req_start (next_end max_interval req_start req_end)
      ≡ next_end max_interval req_start req_end + max_interval
unfolding next_end
next_end-next_end max_interval req_start req_end h =
    let q = (req_end - req_start) / max_interval in ground (arith, h, mul-div_right (q + 1) h)

end_after-next_end :
    (n max_interval req_start req_end : ℕ)
    → 0 < max_interval
    → end_after n max_interval req_start (next_end max_interval req_start req_end)
      ≡ next_end max_interval req_start req_end + max_interval * n
unfolding end_after
end_after-next_end zero m s e h = omega arith
end_after-next_end (suc n) m s e h =
    ground (arith, end_after-next_end n m s (next_end m s e) h, next_end-next_end m s e h)

pub end_after-accumulates :
    (n max_interval req_start req_end : ℕ)
    → 0 < max_interval
    → req_start ≤ req_end
    → (req_end + max_interval * n < end_after (suc n) max_interval req_start req_end)
      × (end_after (suc n) max_interval req_start req_end ≤ req_end + max_interval * (n + 1))
      × ((k : ℕ) × (end_after (suc n) max_interval req_start req_end
            ≡ req_start + max_interval * k))
unfolding end_after next_end
end_after-accumulates n m s e h hs =
    let q = (e - s) / m in
    let closed = end_after-next_end n m s e h in
    let parts = div-add-mod (e - s) m in
    let small = mod-lt (e - s) h in
    (
      ground (arith, closed, parts, small, h, hs),
      ground (arith, closed, parts, small, h, hs),
      (q + 1 + n, ground (arith, closed, h)),
    )
