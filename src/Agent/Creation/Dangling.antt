-- ===== src/Agent/Creation/Dangling.antt =====
-- What the loop of `createAuctions` does to a vector in which the manager has an auction.
use Prim.Native.String.{String}
use auction_manager.Prelude.{
  ℕ, zero, suc, ◌+◌, ◌≤◌, ◌<◌, ◌≡◌, refl, Bool, List, [], ◌∷◌, ◌++◌, Option, none, some, arith, ltb,
  length, get_elem?, set, sym, ap, ◌∙◌, subst, inl, inr, ◌⊎◌, true, false, length-append,
  Bool-cases, ◌==◌, ==_iff, Result, ok, err, if◌then◌else◌,
}
use auction_manager.Prelude.Dict.{lookup, insert, nat_key, lookup-insert}
use auction_manager.Auction.{Auction}
use auction_manager.Auctioner.{interval_of}
use auction_manager.EventScheduler.{EventList}
use auction_manager.ObjectManager.{Manager, Object, get_named}
use auction_manager.AuctionManager.{AuctionManager}
use auction_manager.Agent.Creation.{
  Given, fresh, known, Stuck, deletes_held, keeps_moving, no_details, Creating, set_known,
  fit_known, erase_at, take_known, create_known, create_one, create_held, create_listed, create_at,
  create_from, all_fresh, create_auctions,
}

module _ {ℓ} {A : Type ℓ} where
  length-set : (xs : List A) (i : ℕ) (v : A) → length (set xs i v) ≡ length xs
  length-set [] i v = refl
  length-set (x ∷ xs) zero v = refl
  length-set (x ∷ xs) (suc i) v = ap suc (length-set xs i v)

  get_elem?-set :
      (xs : List A) (i j : ℕ) (v : A) → i < j → get_elem? (set xs i v) j ≡ get_elem? xs j
  get_elem?-set [] i j v h = refl
  get_elem?-set (x ∷ xs) i zero v h = ground (arith, h)
  get_elem?-set (x ∷ xs) zero (suc j) v h = refl
  get_elem?-set (x ∷ xs) (suc i) (suc j) v h = get_elem?-set xs i j v (omega (arith, h))

  length-erase_at :
      (i : ℕ) (xs : List A) (v : A) → i < length xs → length (erase_at i xs ++ (v ∷ [])) ≡ length xs
  unfolding erase_at
  length-erase_at i [] v h = ground (arith, h)
  length-erase_at zero (x ∷ xs) v h = omega (arith, length-append xs (v ∷ []))
  length-erase_at (suc i) (x ∷ xs) v h = ap suc (length-erase_at i xs v (omega (arith, h)))

  get_elem?-last : (xs : List A) (v : A) → get_elem? (xs ++ (v ∷ [])) (length xs) ≡ some v
  get_elem?-last [] v = refl
  get_elem?-last (x ∷ xs) v = get_elem?-last xs v

-- The registry has an object of the uid.
abbrev pub IsHeld : Manager → ℕ → Type 0
IsHeld r uid = (s n : String) × (o : Object) × (get_named r s n ≡ some o) × (o.uid ≡ uid)

-- Each object of the registry is an auction, of its names.
abbrev pub IsDetailed : AuctionManager → Type 0
IsDetailed m =
    (s n : String) (o : Object)
    → get_named m.registry s n ≡ some o
    → (a : Auction) × (lookup o.uid m.details ≡ some a) × (a.set_name ≡ s) × (a.name ≡ n)

-- No auction of the manager stops before then.
abbrev pub AllLast : ℕ → AuctionManager → Type 0
AllLast stop m = (uid : ℕ) (a : Auction) → lookup uid m.details ≡ some a → ltb a.stop stop ≡ false

-- The auctions of the manager in the vector are there.
abbrev AllHeld : Manager → List Given → Type 0
AllHeld r [] = Unit
AllHeld r (fresh a ∷ v) = AllHeld r v
AllHeld r (known uid ∷ v) = IsHeld r uid × AllHeld r v

AllHeld-all_fresh : (r : Manager) (auctions : List Auction) → AllHeld r (all_fresh auctions)
AllHeld-all_fresh r [] = tt
AllHeld-all_fresh r (a ∷ rest) = AllHeld-all_fresh r rest

AllHeld-set :
    (r : Manager) (v : List Given) (i : ℕ) (a : Auction)
    → AllHeld r v
    → AllHeld r (set v i (fresh a))
AllHeld-set r [] i a h = tt
AllHeld-set r (fresh x ∷ v) zero a h = h
AllHeld-set r (known uid ∷ v) zero a h = h.1
AllHeld-set r (fresh x ∷ v) (suc i) a h = AllHeld-set r v i a h
AllHeld-set r (known uid ∷ v) (suc i) a h = (h.0, AllHeld-set r v i a h.1)

AllHeld-last :
    (r : Manager) (v : List Given) (uid : ℕ)
    → AllHeld r v
    → IsHeld r uid
    → AllHeld r (v ++ (known uid ∷ []))
AllHeld-last r [] uid h k = (k, tt)
AllHeld-last r (fresh a ∷ v) uid h k = AllHeld-last r v uid h k
AllHeld-last r (known u ∷ v) uid h k = (h.0, AllHeld-last r v uid h.1 k)

AllHeld-erase_at : (r : Manager) (v : List Given) (i : ℕ) → AllHeld r v → AllHeld r (erase_at i v)
unfolding erase_at
AllHeld-erase_at r [] i h = tt
AllHeld-erase_at r (fresh x ∷ v) zero h = h
AllHeld-erase_at r (known uid ∷ v) zero h = h.1
AllHeld-erase_at r (fresh x ∷ v) (suc i) h = AllHeld-erase_at r v i h
AllHeld-erase_at r (known uid ∷ v) (suc i) h = (h.0, AllHeld-erase_at r v i h.1)

AllHeld-get :
    (r : Manager) (v : List Given) (i uid : ℕ)
    → AllHeld r v
    → get_elem? v i ≡ some (known uid)
    → IsHeld r uid
AllHeld-get r [] i uid h e = (let bad : ⊥ = ground (arith, e) in elim bad [ ])
AllHeld-get r (fresh x ∷ v) zero uid h e = (let bad : ⊥ = ground (arith, e) in elim bad [ ])
AllHeld-get r (known u ∷ v) zero uid h e =
    let same : u ≡ uid = ground (arith, e) in subst (IsHeld r) same h.0
AllHeld-get r (fresh x ∷ v) (suc i) uid h e = AllHeld-get r v i uid h e
AllHeld-get r (known u ∷ v) (suc i) uid h e = AllHeld-get r v i uid h.1 e

-- What the loop keeps.
abbrev IsSound : ℕ → Creating → Type 0
IsSound stop c =
    IsDetailed c.manager × AllLast stop c.manager × AllHeld c.manager.registry c.auctions

-- The loop deletes an auction of the manager, which it had from the beginning.
abbrev Deletes : Manager → Stuck → Type 0
Deletes r (deletes_held uid) = IsHeld r uid
Deletes r keeps_moving = ⊥
Deletes r (no_details uid) = ⊥

-- The last auction of the vector is one of the manager.
abbrev EndsKnown : List Given → Type 0
EndsKnown v = (uid k : ℕ) × (length v ≡ suc k) × (get_elem? v k ≡ some (known uid))

-- A step keeps the size and what the manager knows; the vector is as it was behind the place, or
-- ends with an auction of the manager.
abbrev IsStep : ℕ → ℕ → Creating → Result Stuck Creating → Type 0
IsStep stop i c (err e) = Deletes c.manager.registry e
IsStep stop i c (ok c') =
    (length c'.auctions ≡ length c.auctions)
    × (c'.manager.registry ≡ c.manager.registry)
    × IsSound stop c'
    × (((j : ℕ) → i < j → get_elem? c'.auctions j ≡ get_elem? c.auctions j) ⊎ EndsKnown c'.auctions)

-- A start that is moved leaves the names and the stop.
abbrev moved : ℕ → Auction → AuctionManager → ℕ → AuctionManager
moved uid a m start = record m { details = insert uid (record a { start = start }) m.details }

moved-IsDetailed :
    (uid : ℕ) (a : Auction) (m : AuctionManager) (start : ℕ)
    → lookup uid m.details ≡ some a
    → IsDetailed m
    → IsDetailed (moved uid a m start)
moved-IsDetailed uid a m start at detailed s n o there =
    let (b, look, set_same, name_same) = detailed s n o there in
    let after = lookup-insert uid o.uid (record a { start = start }) m.details in
    elim (Bool-cases (uid == o.uid)) [
      | inl y ↦
          let same : uid ≡ o.uid = (==_iff uid o.uid).0 y in
          let here : some a ≡ some b = sym at ∙ ap (λ u. lookup u m.details) same ∙ look in
          (
            record a { start = start },
            ground (arith, after, y),
            ground (arith, here, set_same),
            ground (arith, here, name_same),
          )
      | inr differ ↦ (b, ground (arith, after, differ, look), set_same, name_same)
    ]

moved-AllLast :
    (stop uid : ℕ) (a : Auction) (m : AuctionManager) (start : ℕ)
    → lookup uid m.details ≡ some a
    → AllLast stop m
    → AllLast stop (moved uid a m start)
moved-AllLast stop uid a m start at last j b there =
    let after = lookup-insert uid j (record a { start = start }) m.details in
    elim (Bool-cases (uid == j)) [
      | inl y ↦ ground (arith, after, y, there, last uid a at)
      | inr differ ↦ last j b (ground (arith, after, differ, there))
    ]

fit_known-moved :
    (start stop uid : ℕ) (a : Auction) (m : AuctionManager) (q : EventList)
    → ltb a.stop stop ≡ false
    → fit_known start stop uid a (m, q)
      ≡ ok (moved uid a m (if ltb start a.start then start else a.start), q)
unfolding fit_known set_known
fit_known-moved start stop uid a m q h = rw (fit_known, h) refl

create_known-IsStep :
    (unset : ℕ × Bool) (start stop i uid : ℕ) (c : Creating) (a : Auction)
    → i < length c.auctions
    → IsSound stop c
    → IsHeld c.manager.registry uid
    → lookup uid c.manager.details ≡ some a
    → (c' : Creating) × (create_known unset start stop i uid c (some a) ≡ ok c')
      × (length c'.auctions ≡ length c.auctions)
      × (c'.manager.registry ≡ c.manager.registry)
      × IsSound stop c'
      × EndsKnown c'.auctions
unfolding create_known take_known
create_known-IsStep unset start stop i uid c a h (detailed, last, held) here at =
    let start' = (if ltb start a.start then start else a.start) in
    (
      record {
        manager = moved uid a c.manager start';
        queue = c.queue;
        auctions = erase_at i c.auctions ++ (known uid ∷ []);
        inserted = c.inserted;
        max_interval = _;
      },
      ap (take_known i uid (interval_of unset a).0 c)
          (fit_known-moved start stop uid a c.manager c.queue (last uid a at)),
      length-erase_at i c.auctions (known uid) h,
      refl,
      (
        moved-IsDetailed uid a c.manager start' at detailed,
        moved-AllLast stop uid a c.manager start' at last,
        AllHeld-last c.manager.registry (erase_at i c.auctions) uid
            (AllHeld-erase_at c.manager.registry c.auctions i held) here,
      ),
      (
        uid,
        length (erase_at i c.auctions),
        (length-append (erase_at i c.auctions) (known uid ∷ []) ∙ omega arith),
        get_elem?-last (erase_at i c.auctions) (known uid),
      ),
    )

-- The auction of the message that the manager has comes to its end of the vector.
create_found-IsStep :
    (unset : ℕ × Bool) (start stop i : ℕ) (a : Auction) (c : Creating) (o : Object)
    → i < length c.auctions
    → IsSound stop c
    → get_named c.manager.registry a.set_name a.name ≡ some o
    → (c' : Creating) × (create_one unset start stop i a c (some o) ≡ ok c')
      × (length c'.auctions ≡ length c.auctions)
      × (c'.manager.registry ≡ c.manager.registry)
      × IsSound stop c'
      × EndsKnown c'.auctions
unfolding create_one
create_found-IsStep unset start stop i a c o h sound there =
    let (b, look, set_same, name_same) = sound.0 a.set_name a.name o there in
    let (c', runs, len, kept, sound', ends) =
      create_known-IsStep unset start stop i o.uid c b h sound (a.set_name, a.name, o, there, refl)
        look in
    (c', ap (create_known unset start stop i o.uid c) look ∙ runs, len, kept, sound', ends)

create_one-IsStep :
    (unset : ℕ × Bool) (start stop i : ℕ) (a : Auction) (c : Creating) (o : Option Object)
    → i < length c.auctions
    → IsSound stop c
    → get_named c.manager.registry a.set_name a.name ≡ o
    → IsStep stop i c (create_one unset start stop i a c o)
unfolding create_one
create_one-IsStep unset start stop i a c none h (detailed, last, held) there = (
  length-set c.auctions i _,
  refl,
  (detailed, last, AllHeld-set c.manager.registry c.auctions i _ held),
  inl (λ j. get_elem?-set c.auctions i j _),
)
create_one-IsStep unset start stop i a c (some o) h sound there =
    let (c', runs, len, kept, sound', ends) =
      create_found-IsStep unset start stop i a c o h sound there in
    subst (IsStep stop i c) (sym runs) (len, kept, sound', inr ends)

create_listed-deletes :
    (unset : ℕ × Bool) (start stop i uid : ℕ) (c : Creating) (a : Auction) (o : Object)
    → get_named c.manager.registry a.set_name a.name ≡ some o
    → o.uid ≡ uid
    → create_listed unset start stop i uid c (some a) ≡ err (deletes_held uid)
unfolding create_listed create_held
create_listed-deletes unset start stop i uid c a o found same =
    let y : (o.uid == uid) ≡ true = (==_iff o.uid uid).1 same in
    ap (create_held unset start stop i uid a c) found ∙ rw y refl

-- An auction of the manager is found under its names, and deleted.
create_at-known :
    (unset : ℕ × Bool) (start stop i uid : ℕ) (c : Creating)
    → IsDetailed c.manager
    → IsHeld c.manager.registry uid
    → create_at unset start stop i c (some (known uid)) ≡ err (deletes_held uid)
unfolding create_at
create_at-known unset start stop i uid c detailed (s, n, o, there, same) =
    let (a, look, set_same, name_same) = detailed s n o there in
    let look' : lookup uid c.manager.details ≡ some a =
      ap (λ u. lookup u c.manager.details) (sym same) ∙ look in
    let found : get_named c.manager.registry a.set_name a.name ≡ some o =
      ap (λ t. get_named c.manager.registry t a.name) set_same
      ∙ ap (λ t. get_named c.manager.registry s t) name_same
      ∙ there in
    ap (create_listed unset start stop i uid c) look'
    ∙ create_listed-deletes unset start stop i uid c a o found same

create_at-IsStep :
    (unset : ℕ × Bool) (start stop i : ℕ) (c : Creating) (g : Option Given)
    → i < length c.auctions
    → IsSound stop c
    → get_elem? c.auctions i ≡ g
    → IsStep stop i c (create_at unset start stop i c g)
unfolding create_at
create_at-IsStep unset start stop i c none h sound e = (refl, refl, sound, inl (λ j hj. refl))
create_at-IsStep unset start stop i c (some (known uid)) h sound e =
    let here = AllHeld-get c.manager.registry c.auctions i uid sound.2 e in
    subst (IsStep stop i c) (sym (create_at-known unset start stop i uid c sound.0 here)) here
create_at-IsStep unset start stop i c (some (fresh a)) h sound e =
    create_one-IsStep unset start stop i a c _ h sound refl

-- The loop is stuck at an auction that the registry has: the source deletes it.
abbrev pub Dangles {ℓ} : {A : Type ℓ} → Manager → Result Stuck A → Type ℓ
Dangles r x = (uid : ℕ) × (x ≡ err (deletes_held uid)) × IsHeld r uid

Deletes-Dangles : (r : Manager) (e : Stuck) → Deletes r e → Dangles {A = Creating} r (err e)
Deletes-Dangles r (deletes_held uid) h = (uid, refl, h)
Deletes-Dangles r keeps_moving h = elim h [ ]
Deletes-Dangles r (no_details uid) h = elim h [ ]

and_then-Dangles :
    (stop i : ℕ) (c : Creating) (x : Result Stuck Creating) (f : Creating → Result Stuck Creating)
    → IsStep stop i c x
    → ((c' : Creating) → x ≡ ok c' → IsStep stop i c (ok c') → Dangles c.manager.registry (f c'))
    → Dangles c.manager.registry (elim x [ err e ↦ err e | ok c' ↦ f c' ])
and_then-Dangles stop i c (err e) f step h = Deletes-Dangles c.manager.registry e step
and_then-Dangles stop i c (ok c') f step h = h c' refl step

module _ (unset : ℕ × Bool) (start stop : ℕ) where
  create_from-suc :
      (n i : ℕ) (c c' : Creating)
      → create_at unset start stop i c (get_elem? c.auctions i) ≡ ok c'
      → create_from unset start stop (suc n) i c ≡ create_from unset start stop n (suc i) c'
  unfolding create_from
  create_from-suc n i c c' e = rw (create_from, e) refl

  create_from-stuck :
      (n i : ℕ) (c : Creating) (e : Stuck)
      → create_at unset start stop i c (get_elem? c.auctions i) ≡ err e
      → create_from unset start stop (suc n) i c ≡ err e
  unfolding create_from
  create_from-stuck n i c e h = rw (create_from, h) refl

  -- The loop comes to the auction of the manager at the end.
  create_from-EndsKnown :
      (n i : ℕ) (c : Creating)
      → length c.auctions ≡ i + suc n
      → IsSound stop c
      → EndsKnown c.auctions
      → Dangles c.manager.registry (create_from unset start stop (suc n) i c)
  unfolding create_from
  create_from-EndsKnown zero i c size sound (uid, k, last, at) =
      let here : get_elem? c.auctions i ≡ some (known uid) =
        subst (λ j. get_elem? c.auctions j ≡ some (known uid)) (omega (arith, size, last)) at in
      let held = AllHeld-get c.manager.registry c.auctions i uid sound.2 here in
      let stuck : create_at unset start stop i c (get_elem? c.auctions i) ≡ err (deletes_held uid) =
        ap (create_at unset start stop i c) here
        ∙ create_at-known unset start stop i uid c sound.0 held in
      (uid, create_from-stuck zero i c (deletes_held uid) stuck, held)
  create_from-EndsKnown (suc n) i c size sound (uid, k, last, at) =
      and_then-Dangles stop i c (create_at unset start stop i c (get_elem? c.auctions i)) _
        (create_at-IsStep unset start stop i c _ (omega (arith, size)) sound refl)
        (λ c' e (len, kept, sound', behind).
          subst (λ r. Dangles r (create_from unset start stop (suc n) (suc i) c')) kept
            (create_from-EndsKnown n (suc i) c' (omega (arith, len, size)) sound' (elim behind [
              | inl same ↦ (uid, k, len ∙ last, same k (omega (arith, size, last)) ∙ at)
              | inr ends ↦ ends
            ])))

  -- An auction that the manager has, before the last place.
  create_from-found :
      (n i k : ℕ) (c : Creating) (a : Auction) (o : Object)
      → length c.auctions ≡ i + suc n
      → i ≤ k
      → k < i + n
      → IsSound stop c
      → get_elem? c.auctions k ≡ some (fresh a)
      → get_named c.manager.registry a.set_name a.name ≡ some o
      → Dangles c.manager.registry (create_from unset start stop (suc n) i c)
  unfolding create_from create_at
  create_from-found zero i k c a o size lo hi sound at there =
      let bad : ⊥ = omega (arith, lo, hi) in elim bad [ ]
  create_from-found (suc n) i k c a o size lo hi sound at there = elim (Bool-cases (ltb i k)) [
    | inl y ↦
        and_then-Dangles stop i c (create_at unset start stop i c (get_elem? c.auctions i)) _
          (create_at-IsStep unset start stop i c _ (omega (arith, size)) sound refl)
          (λ c' e (len, kept, sound', behind).
            subst (λ r. Dangles r (create_from unset start stop (suc n) (suc i) c')) kept
              (elim behind [
                | inl same ↦
                    create_from-found n (suc i) k c' a o (omega (arith, len, size))
                      (ground (arith, y, lo)) (omega (arith, hi)) sound'
                      (same k (ground (arith, y)) ∙ at)
                      (subst (λ r. get_named r a.set_name a.name ≡ some o) (sym kept) there)
                | inr ends ↦
                    create_from-EndsKnown n (suc i) c' (omega (arith, len, size)) sound' ends
              ]))
    | inr n' ↦
        let here : get_elem? c.auctions i ≡ some (fresh a) =
          subst (λ j. get_elem? c.auctions j ≡ some (fresh a)) (ground (arith, n', lo)) at in
        let (c', runs, len, kept, sound', ends) =
          create_found-IsStep unset start stop i a c o (omega (arith, size)) sound there in
        let step : create_at unset start stop i c (get_elem? c.auctions i) ≡ ok c' =
          ap (create_at unset start stop i c) here
          ∙ ap (create_one unset start stop i a c) there
          ∙ runs in
        let (uid, stuck, held) =
          create_from-EndsKnown n (suc i) c' (omega (arith, len, size)) sound' ends in
        (uid, create_from-suc (suc n) i c c' step ∙ stuck, subst (λ r. IsHeld r uid) kept held)
  ]

length-all_fresh : (auctions : List Auction) → length (all_fresh auctions) ≡ length auctions
length-all_fresh [] = refl
length-all_fresh (a ∷ rest) = ap suc (length-all_fresh rest)

get_elem?-all_fresh :
    (auctions : List Auction) (k : ℕ) (a : Auction)
    → get_elem? auctions k ≡ some a
    → get_elem? (all_fresh auctions) k ≡ some (fresh a)
get_elem?-all_fresh [] k a h = ground (arith, h)
get_elem?-all_fresh (x ∷ rest) zero a h = ground (arith, h)
get_elem?-all_fresh (x ∷ rest) (suc k) a h = get_elem?-all_fresh rest k a h

abbrev begun : List Auction → AuctionManager → EventList → Creating
begun auctions m q = record {
  manager = m;
  queue = q;
  auctions = all_fresh auctions;
  inserted = [];
  max_interval = 0;
}

create_auctions-stuck :
    (fuel now now_usec : ℕ) (unset : ℕ × Bool) (start stop : ℕ) (auctions : List Auction)
    (m : AuctionManager) (q : EventList) (e : Stuck)
    → create_from unset start stop (length auctions) 0 (begun auctions m q) ≡ err e
    → create_auctions fuel now now_usec unset start stop auctions m q ≡ err e
unfolding create_auctions
create_auctions-stuck fuel now now_usec unset start stop auctions m q e h =
    rw (create_auctions, h) refl

-- Where each object of the registry is an auction of its names, and none stops before the interval, so
-- that no removal has to be moved: when the manager has an auction of the message by its set and name,
-- and it is not the last one of the message, `createAuctions` gets stuck, as it deletes an auction that
-- the registry has.
pub create_auctions-dangles :
    (fuel now now_usec : ℕ) (unset : ℕ × Bool) (start stop : ℕ) (auctions : List Auction)
    (m : AuctionManager) (q : EventList) (k : ℕ) (a : Auction) (o : Object)
    → IsDetailed m
    → AllLast stop m
    → get_elem? auctions k ≡ some a
    → suc k < length auctions
    → get_named m.registry a.set_name a.name ≡ some o
    → (uid : ℕ) × (create_auctions fuel now now_usec unset start stop auctions m q
        ≡ err (deletes_held uid))
      × IsHeld m.registry uid
create_auctions-dangles fuel now now_usec unset start stop [] m q k a o detailed last at small
      there =
    let bad : ⊥ = ground (arith, at) in elim bad [ ]
create_auctions-dangles fuel now now_usec unset start stop (x ∷ rest) m q k a o detailed last at
      small there =
    let (uid, stuck, held) =
      create_from-found unset start stop (length rest) 0 k (begun (x ∷ rest) m q) a o
        (omega (arith, length-all_fresh rest)) (omega arith) (omega (arith, small))
        (detailed, last, AllHeld-all_fresh m.registry (x ∷ rest))
        (get_elem?-all_fresh (x ∷ rest) k a at) there in
    (
      uid,
      create_auctions-stuck fuel now now_usec unset start stop (x ∷ rest) m q (deletes_held uid)
          stuck,
      held,
    )
