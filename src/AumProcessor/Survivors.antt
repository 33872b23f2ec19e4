-- ===== src/AumProcessor/Survivors.antt =====
-- Which processes a deletion leaves, and lists of processes without one of them.
use auction_manager.Prelude.{
  ℕ, ◌≡◌, ◌≢◌, refl, Bool, List, [], ◌∷◌, ◌++◌, none, some, if◌then◌else◌, arith, All, length,
  get_elem?,
}
use auction_manager.Prelude.Dict.{erase, nat_key}
use auction_manager.EventScheduler.{EventList, del_process_execution_events}
use auction_manager.Auction.{Auction}
use auction_manager.AumProcessor.{Process, Processes, is_target}

-- No process of the list has the index.
abbrev pub Lacks : ℕ → Processes → Type 0
Lacks i ps = All (λ (e : ℕ × Process). e.0 ≢ i) ps

-- No two processes have one index.
abbrev pub DistinctIndices : Processes → Type 0
DistinctIndices [] = Unit {0}
DistinctIndices ((i, p) ∷ ps) = Lacks i ps × DistinctIndices ps

abbrev pub targeted : List Auction → ℕ × Process → Bool
targeted targets e = is_target targets e.1.auction

-- The processes that are not to be deleted, and the indices of the others.
abbrev pub kept : List Auction → Processes → Processes
kept targets [] = []
kept targets (e ∷ ps) = if targeted targets e then kept targets ps else e ∷ kept targets ps

abbrev pub dropped : List Auction → Processes → List ℕ
dropped targets [] = []
dropped targets (e ∷ ps) =
    if targeted targets e then e.0 ∷ dropped targets ps else dropped targets ps

-- Past the first process; when it was deleted, the one behind it is passed over.
abbrev pub after_first : Processes → (Processes → Processes) → Processes
after_first [] f = []
after_first (e ∷ ps) f = e ∷ f ps

abbrev pub behind_first : Processes → (Processes → List ℕ) → List ℕ
behind_first [] f = []
behind_first (e ∷ ps) f = f ps

abbrev pub survivors : List Auction → Processes → Processes
survivors targets [] = []
survivors targets (e ∷ ps) =
    if targeted targets e then after_first ps (kept targets) else e ∷ kept targets ps

abbrev pub deleted : List Auction → Processes → List ℕ
deleted targets [] = []
deleted targets (e ∷ ps) =
    if targeted targets e then e.0 ∷ behind_first ps (dropped targets) else dropped targets ps

-- The queue without the executions of the processes.
abbrev pub without_executions : List ℕ → EventList → EventList
without_executions [] q = q
without_executions (i ∷ is) q = without_executions is (del_process_execution_events i q)

pub erase-Lacks : (i : ℕ) (ps : Processes) → Lacks i ps → erase i ps ≡ ps
unfolding erase
erase-Lacks i [] h = refl
erase-Lacks i ((j, p) ∷ ps) h = ground (arith, erase-Lacks i ps, h.0, h.1)

pub Lacks-middle :
    (i : ℕ) (pre : Processes) (e : ℕ × Process) (rest : Processes)
    → Lacks i (pre ++ (e ∷ rest))
    → (e.0 ≢ i) × Lacks i (pre ++ rest)
Lacks-middle i [] e rest h = h
Lacks-middle i (x ∷ pre) e rest h =
    let (one, others) = Lacks-middle i pre e rest h.1 in (one, (h.0, others))

-- Without one process of the list.
pub erase-middle :
    (pre : Processes) (e : ℕ × Process) (rest : Processes)
    → DistinctIndices (pre ++ (e ∷ rest))
    → (erase e.0 (pre ++ (e ∷ rest)) ≡ pre ++ rest) × DistinctIndices (pre ++ rest)
unfolding erase
erase-middle [] e rest d = (ground (arith, erase-Lacks e.0 rest d.0), d.1)
erase-middle (x ∷ pre) e rest d =
    let (gone, distinct) = erase-middle pre e rest d.1 in
    let (other, lacks) = Lacks-middle x.0 pre e rest d.0 in
    (ground (arith, gone, other), (lacks, distinct))

pub get_elem-middle :
    (pre : Processes) (e : ℕ × Process) (rest : Processes)
    → get_elem? (pre ++ (e ∷ rest)) (length pre) ≡ some e
get_elem-middle [] e rest = refl
get_elem-middle (x ∷ pre) e rest = get_elem-middle pre e rest

pub get_elem-end : (pre : Processes) → get_elem? (pre ++ []) (length pre) ≡ none
get_elem-end [] = refl
get_elem-end (e ∷ pre) = get_elem-end pre
