-- ===== src/AuctionManager/Registration.antt =====
-- What the loop over a list of auctions collects: which of them the registry takes, with which
-- uids, and when they start and stop.
use mathlib.Core.List.Perm
use mathlib.Core.List.{Perm, perm_middle}
use auction_manager.Prelude.{
  ℕ, suc, ◌+◌, ◌≤◌, ◌≡◌, refl, ap, ◌∙◌, subst, Bool, true, false, List, [], ◌∷◌, ◌++◌, Option, none,
  some, ltb, if◌then◌else◌, arith, ok, err, length, All, ◌&&◌, ◌<◌,
}
use auction_manager.Auction.{Auction}
use auction_manager.ObjectManager.{Manager, Object, already_installed, valid, get_named, add_object}
use Prim.Native.String.{String}
use text.Mathlib.Text.{◌==◌ as str_eq}
use text.Mathlib.TextPositions.{eq_refl}
use text.Mathlib.TextEquality.{eq_iff}
use auction_manager.Prelude.Dict.{lookup, insert, nat_key, lookup-insert_self, lookup-insert_ne}
use auction_manager.ObjectManager.Laws.{IsWellFormed}
use auction_manager.ObjectManager.Adding.{IsAdded, add_object-IsAdded}
use auction_manager.ObjectManager.History.{Names, write, Holds}
use auction_manager.AuctionManager.{
  AuctionManager, Collected, TimeIndex, push_back, object_of, uid_of, start_key, note_added,
  collect,
}
use auction_manager.AuctionManager.Schedule.{flat, flat-push_back, perm_append}

-- The auctions that are taken, each with its uid: those whose names are not held when their turn
-- comes; the uids go on from `n`.
abbrev pub accepted : Names → ℕ → List Auction → List (ℕ × Auction)
accepted held n [] = []
accepted held n (a ∷ rest) =
    if held a.set_name a.name
    then accepted held n rest
    else (n, a) ∷ accepted (write a.set_name a.name true held) (suc n) rest

-- The times at which they start and stop, with their uids; a stop of 0 is none.
abbrev pub starts : ℕ → Bool → List (ℕ × Auction) → List (ℕ × ℕ)
starts now immediate [] = []
starts now immediate ((uid, a) ∷ rest) =
    (start_key now immediate a, uid) ∷ starts now immediate rest

abbrev pub stops : List (ℕ × Auction) → List (ℕ × ℕ)
stops [] = []
stops ((uid, a) ∷ rest) = if ltb 0 a.stop then (a.stop, uid) ∷ stops rest else stops rest

-- The names that are held once these auctions are taken.
abbrev pub names_after : Names → List (ℕ × Auction) → Names
names_after held [] = held
names_after held ((uid, a) ∷ rest) = names_after (write a.set_name a.name true held) rest

-- The auction is found by its names, as a valid object with the uid, under which it stands.
abbrev pub IsFound : AuctionManager → ℕ × Auction → Type 0
IsFound m (uid, a) =
    (get_named m.registry a.set_name a.name
      ≡ some (record { set_name = a.set_name; name = a.name; uid = uid; state = valid }))
    × (lookup uid m.details ≡ some a)

-- The manager has taken these auctions, with uids from `n` on, and nothing else; what it had is found
-- as before.
pub record IsRegistered (n : ℕ) (held : Names) (taken : List (ℕ × Auction)) (m m' : AuctionManager)
    : Type 0 where
  pub formed : IsWellFormed m'.registry
  pub size : length m'.registry.db ≡ n + length taken
  pub holds : Holds m'.registry (names_after held taken)
  pub found : All (IsFound m') taken
  pub kept :
      (s name : String) (o : Object)
      → get_named m.registry s name ≡ some o
      → get_named m'.registry s name ≡ some o
  pub older : (uid : ℕ) → uid < n → lookup uid m'.details ≡ lookup uid m.details

-- What the loop owes from `c` on.
pub record IsCollected (now n : ℕ) (held : Names) (taken : List (ℕ × Auction)) (c c' : Collected)
    : Type 0 where
  pub registered : IsRegistered n held taken c.manager c'.manager
  pub immediate : c'.manager.immediate_start ≡ c.manager.immediate_start
  pub start : Perm (flat c'.start) (starts now c.manager.immediate_start taken ++ flat c.start)
  pub stop : Perm (flat c'.stop) (stops taken ++ flat c.stop)

collect-ok :
    (fuel now : ℕ) (a : Auction) (rest : List Auction) (c : Collected) (m : Manager)
    → add_object fuel c.manager.registry (object_of a) ≡ ok m
    → collect fuel now (a ∷ rest) c ≡ collect fuel now rest (note_added now a m c)
unfolding collect
collect-ok fuel now a rest c m e = rw (collect, e) refl

collect-taken :
    (fuel now : ℕ) (a : Auction) (rest : List Auction) (c : Collected)
    → add_object fuel c.manager.registry (object_of a) ≡ err already_installed
    → collect fuel now (a ∷ rest) c ≡ collect fuel now rest c
unfolding collect
collect-taken fuel now a rest c e = rw (collect, e) refl

stop_added :
    (a : Auction) (uid : ℕ) (taken : List (ℕ × Auction)) (index : TimeIndex) (xs : List (ℕ × ℕ))
    → Perm xs (stops taken ++ flat (if ltb 0 a.stop then push_back a.stop uid index else index))
    → Perm xs (stops ((uid, a) ∷ taken) ++ flat index)
stop_added a uid taken index xs p = go (ltb 0 a.stop) refl p
  where
    go :
        (b : Bool)
        → ltb 0 a.stop ≡ b
        → Perm xs (stops taken ++ flat (if b then push_back a.stop uid index else index))
        → Perm xs (stops ((uid, a) ∷ taken) ++ flat index)
    go true e p = rw e (
        Perm.trans p (
          Perm.trans (perm_append (stops taken) (flat-push_back a.stop uid index))
            (perm_middle (stops taken) (flat index))))
    go false e p = rw e p

-- After one auction was taken, with the uid `n`, as the registry says.
IsRegistered-taken :
    (n : ℕ) (held : Names) (a : Auction) (r : Manager) (m m' : AuctionManager)
    (taken : List (ℕ × Auction))
    → get_named m.registry a.set_name a.name ≡ none
    → ((s name : String)
        → get_named r s name ≡ (
            if str_eq a.set_name s && str_eq a.name name
            then some (record { set_name = a.set_name; name = a.name; uid = n; state = valid })
            else get_named m.registry s name))
    → IsRegistered
        (suc n)
        (write a.set_name a.name true held)
        taken
        (record m { registry = r; details = insert n a m.details })
        m'
    → IsRegistered n held ((n, a) ∷ taken) m m'
IsRegistered-taken n held a r m m' taken absent names j = record {
  formed = j.formed;
  size = omega (arith, j.size);
  holds = j.holds;
  found = (
    (
      j.kept a.set_name a.name _
          (ground (arith, names a.set_name a.name, eq_refl a.set_name, eq_refl a.name)),
      j.older n (omega arith) ∙ lookup-insert_self n a m.details,
    ),
    j.found,
  );
  kept = λ s name o there.
      j.kept s name o
        (ground (arith, names s name, there, absent, eq_iff a.set_name s, eq_iff a.name name));
  older = λ uid below.
      j.older uid (omega (arith, below))
      ∙ lookup-insert_ne n uid a m.details (λ (e : n ≡ uid). omega (arith, e, below));
}

-- After one auction was taken, with the uid `n`.
IsCollected-taken :
    (now n : ℕ) (held : Names) (a : Auction) (m : Manager) (c c' : Collected)
    (taken : List (ℕ × Auction))
    → uid_of (get_named m a.set_name a.name) ≡ n
    → get_named c.manager.registry a.set_name a.name ≡ none
    → ((s name : String)
        → get_named m s name ≡ (
            if str_eq a.set_name s && str_eq a.name name
            then some (record { set_name = a.set_name; name = a.name; uid = n; state = valid })
            else get_named c.manager.registry s name))
    → IsCollected now (suc n) (write a.set_name a.name true held) taken (note_added now a m c) c'
    → IsCollected now n held ((n, a) ∷ taken) c c'
unfolding note_added
IsCollected-taken now n held a m c c' taken u absent names j =
    let key = start_key now c.manager.immediate_start a in
    let starts' = starts now c.manager.immediate_start taken in
    record {
      registered = IsRegistered-taken n held a m c.manager c'.manager taken absent names (
          subst
            (λ (i : ℕ).
              IsRegistered (suc n) (write a.set_name a.name true held) taken
                (record c.manager { registry = m; details = insert i a c.manager.details })
                c'.manager)
            u j.registered);
      immediate = j.immediate;
      start =
          Perm.trans
            (subst (λ (i : ℕ). Perm (flat c'.start) (starts' ++ flat (push_back key i c.start))) u
              j.start)
            (Perm.trans (perm_append starts' (flat-push_back key n c.start))
              (perm_middle starts' (flat c.start)));
      stop = stop_added a n taken c.stop (flat c'.stop) (
          subst
            (λ (i : ℕ).
              Perm (flat c'.stop)
                (stops taken ++ flat (if ltb 0 a.stop then push_back a.stop i c.stop else c.stop)))
            u j.stop);
    }

-- What the loop owes for a list, from wherever it stands.
abbrev pub Collects : ℕ → ℕ → List Auction → Type 0
Collects f now given =
    (c : Collected) (held : Names) (n : ℕ)
    → IsWellFormed c.manager.registry
    → Holds c.manager.registry held
    → length c.manager.registry.db ≡ n
    → n + length given ≤ 65536
    → (c' : Collected) × (collect (suc f) now given c ≡ ok c')
      × IsCollected now n held (accepted held n given) c c'

collect-step :
    (f now : ℕ) (a : Auction) (rest : List Auction)
    → Collects f now rest
    → Collects f now (a ∷ rest)
unfolding note_added
collect-step f now a rest later c held n w h hn small =
    go (get_named m a.set_name a.name) refl (add_object-IsAdded f m (object_of a) w (omega arith))
  where
    m : Manager
    m = c.manager.registry

    go :
        (r : Option Object)
        → get_named m a.set_name a.name ≡ r
        → IsAdded m (object_of a) r (add_object (suc f) m (object_of a))
        → (c' : Collected) × (collect (suc f) now (a ∷ rest) c ≡ ok c')
          × IsCollected now n held (accepted held n (a ∷ rest)) c c'
    go (some o) e taken =
        let has : held a.set_name a.name ≡ true = ground (arith, h a.set_name a.name, e) in
        let (c', runs, j) = later c held n w h hn (omega arith) in
        (c', collect-taken (suc f) now a rest c taken ∙ runs, rw has j)
    go none e (m', runs, w', len, names) =
        let hasnt : held a.set_name a.name ≡ false = ground (arith, h a.set_name a.name, e) in
        let o : Object = record {
          set_name = a.set_name;
          name = a.name;
          uid = length m.db;
          state = valid;
        } in
        let found : get_named m' a.set_name a.name ≡ some o =
          ground (arith, names a.set_name a.name, eq_refl a.set_name, eq_refl a.name) in
        let names' : (s' n' : String)
            → get_named m' s' n' ≡ (
                if str_eq a.set_name s' && str_eq a.name n'
                then some (record { set_name = a.set_name; name = a.name; uid = n; state = valid })
                else get_named m s' n') =
          λ s' n'. ground (arith, names s' n', hn) in
        let (c', runs', j) =
          later (note_added now a m' c) (write a.set_name a.name true held) (suc n) w'
            (λ s' n'. ground (arith, names s' n', h s' n')) (omega (arith, len, hn))
            (omega arith) in
        (
          c',
          collect-ok (suc f) now a rest c m' runs ∙ runs',
          rw hasnt (IsCollected-taken now n held a m' c c' _ (ap uid_of found ∙ hn) e names' j),
        )

pub collect-IsCollected : (f now : ℕ) (given : List Auction) → Collects f now given
unfolding collect
collect-IsCollected f now [] c held n w h hn small = (
  c,
  refl,
  record {
    registered = record {
      formed = w;
      size = omega (arith, hn);
      holds = h;
      found = tt;
      kept = λ s name o there. there;
      older = λ uid below. refl;
    };
    immediate = refl;
    start = Perm.refl _;
    stop = Perm.refl _;
  },
)
collect-IsCollected f now (a ∷ rest) c held n w h hn small =
    collect-step f now a rest (collect-IsCollected f now rest) c held n w h hn small
