-- ===== src/Disk/Manager/Capacity.antt =====
-- The capacity of the manager of bip_disk/src/disk/manager.rs, over all interleavings of its sinks, its
-- tasks and its stream. A task that panics, and so never answers, is left out.
use rust_bt.Base.{
  ℕ, zero, suc, ◌+◌, ◌≤◌, ◌<◌, ◌≡◌, refl, ap, List, [], ◌∷◌, ◌++◌, Bool, true, false, Bytes, subst,
  length, length-append, ltb, if◌then◌else◌, Bool-cases, inl, inr, arith,
}
use rust_bt.Disk.Tasks.{
  IDiskMessage, ODiskMessage, torrent_added, torrent_removed, torrent_synced, block_loaded,
  block_processed, found_good_piece, found_bad_piece, torrent_error, load_block_error,
  process_block_error, remove_torrent,
}
use rust_bt.Disk.FileSystem.{info_hash_not_found}
use rust_bt.Disk.Manager.{
  DiskManager, try_submit_work, give_back, push_task, complete_work, completes, poll_from, poll,
  run_task,
}

-- The messages that answer a request.
abbrev pub is_answer : ODiskMessage → Bool
is_answer (torrent_added _) = true
is_answer (torrent_removed _) = true
is_answer (torrent_synced _) = true
is_answer (found_good_piece _ _) = false
is_answer (found_bad_piece _ _) = false
is_answer (block_loaded _) = true
is_answer (block_processed _) = true
is_answer (torrent_error _ _) = true
is_answer (load_block_error _ _) = true
is_answer (process_block_error _ _) = true

abbrev pub one_if : Bool → ℕ
one_if b = if b then 1 else 0

abbrev pub answers : List ODiskMessage → ℕ
answers [] = 0
answers (m ∷ ms) = one_if (is_answer m) + answers ms

-- How many errors stand at the front of what is polled.
abbrev pub is_error : ODiskMessage → Bool
is_error (torrent_added _) = false
is_error (torrent_removed _) = false
is_error (torrent_synced _) = false
is_error (found_good_piece _ _) = false
is_error (found_bad_piece _ _) = false
is_error (block_loaded _) = false
is_error (block_processed _) = false
is_error (torrent_error _ _) = true
is_error (load_block_error _ _) = true
is_error (process_block_error _ _) = true

abbrev pub polled_error : List ODiskMessage → ℕ
polled_error [] = 0
polled_error (m ∷ ms) = one_if (is_error m)

-- The manager, and how many errors its stream has given to the client.
pub record World : Type 0 where
  pub manager : DiskManager
  pub errors : ℕ

-- The steps of the sinks, of the tasks and of the stream.
pub data Step (w : World) : World → Type 0 where
  submit :
      (item : IDiskMessage) → Step w (record w { manager = (try_submit_work item w.manager).0 })
  undo : 0 < w.manager.undoing → Step w (record w { manager = give_back w.manager })
  park : Step w (record w { manager = push_task w.manager })
  run :
      (item : IDiskMessage) (before behind : List IDiskMessage) (sent : List ODiskMessage)
      → w.manager.pool ≡ before ++ item ∷ behind
      → answers sent ≡ 1
      → Step w (record w { manager = run_task (before ++ behind) sent w.manager })
  receive :
      Step w
        (record { manager = (poll w.manager).0; errors = w.errors + polled_error w.manager.recv })

pub data Reach (s : World) : World → Type 0 where
  here : Reach s s
  next : {t u : World} → Reach s t → Step t u → Reach s u

abbrev pub start : ℕ → World
start max_capacity = record {
  manager = record {
    cur_capacity = 0;
    max_capacity = max_capacity;
    pool = [];
    recv = [];
    task_queue = 0;
    undoing = 0;
  };
  errors = 0;
}

-- The counter counts the messages that are in the pool, answered but not yet polled, or were answered
-- by an error, and the sinks that are about to give back; without the latter it is within the bound.
pub record IsCounted (w : World) : Type 0 where
  pub counted :
      w.manager.cur_capacity
      ≡ length w.manager.pool + answers w.manager.recv + w.errors + w.manager.undoing
  pub bounded : length w.manager.pool + answers w.manager.recv + w.errors ≤ w.manager.max_capacity

answers-append : (ms ns : List ODiskMessage) → answers (ms ++ ns) ≡ answers ms + answers ns
answers-append [] ns = omega arith
answers-append (m ∷ ms) ns = omega (arith, answers-append ms ns)

completes-is_error :
    (m : ODiskMessage) → one_if (is_answer m) ≡ one_if (completes m) + one_if (is_error m)
unfolding completes
completes-is_error (torrent_added _) = refl
completes-is_error (torrent_removed _) = refl
completes-is_error (torrent_synced _) = refl
completes-is_error (found_good_piece _ _) = refl
completes-is_error (found_bad_piece _ _) = refl
completes-is_error (block_loaded _) = refl
completes-is_error (block_processed _) = refl
completes-is_error (torrent_error _ _) = refl
completes-is_error (load_block_error _ _) = refl
completes-is_error (process_block_error _ _) = refl

polled-IsCounted :
    (m : DiskManager) (errors : ℕ) (recv : List ODiskMessage)
    → m.cur_capacity ≡ length m.pool + answers recv + errors + m.undoing
    → length m.pool + answers recv + errors ≤ m.max_capacity
    → m.recv ≡ recv
    → IsCounted (record { manager = (poll_from recv m).0; errors = errors + polled_error recv })
unfolding poll_from complete_work
polled-IsCounted m errors [] c b e = record {
  counted = omega (arith, ap answers e);
  bounded = omega (arith, ap answers e);
}
polled-IsCounted m errors (x ∷ ms) c b e = elim (Bool-cases (completes x)) [
  | inl done ↦
      let split = completes-is_error x in
      let one = ap one_if done in
      rw done (record { counted = omega (arith, split, one); bounded = omega (arith, split, one) })
  | inr other ↦
      let split = completes-is_error x in
      let none_back = ap one_if other in
      rw other (record {
        counted = omega (arith, split, none_back);
        bounded = omega (arith, split, none_back);
      })
]

Step-IsCounted : {w u : World} → Step w u → IsCounted w → IsCounted u
unfolding try_submit_work give_back push_task run_task poll
Step-IsCounted {w} (submit item) v = ground (arith, length-append w.manager.pool (item ∷ []))
Step-IsCounted (undo h) v = record { counted = omega (arith, v.counted); bounded = v.bounded }
Step-IsCounted park v = record { counted = v.counted; bounded = v.bounded }
Step-IsCounted {w} (run item before behind sent e one) v = ground (
  arith,
  ap length e,
  length-append before (item ∷ behind),
  length-append before behind,
  answers-append w.manager.recv sent,
)
Step-IsCounted {w} receive v =
    polled-IsCounted w.manager w.errors w.manager.recv v.counted v.bounded refl

pub Reach-IsCounted : (n : ℕ) {w : World} → Reach (start n) w → IsCounted w
Reach-IsCounted n here = record { counted = refl; bounded = omega arith }
Reach-IsCounted n (next r s) = Step-IsCounted s (Reach-IsCounted n r)

-- Where no message is in the pool, every answer was polled and no sink is about to give back, the next
-- message is taken exactly if fewer errors than the capacity were ever given to the client: an answer
-- that is no error gives its capacity back, an error never does.
pub try_submit_work_iff :
    (n : ℕ) (w : World) (item : IDiskMessage)
    → Reach (start n) w
    → (w.manager.pool ≡ []) × (w.manager.recv ≡ []) × (w.manager.undoing ≡ 0)
    → (try_submit_work item w.manager).1 ≡ ltb w.errors w.manager.max_capacity
unfolding try_submit_work
try_submit_work_iff n w item r idle =
    let v = Reach-IsCounted n r in
    let e : w.manager.cur_capacity ≡ w.errors =
      omega (arith, v.counted, ap length idle.0, ap answers idle.1, idle.2) in
    ground (arith, e)

-- However the sinks, the tasks and the stream take turns, the messages that were taken and whose
-- answers were not yet polled, together with the errors, never exceed the capacity.
pub taken-le-max_capacity :
    (n : ℕ) (w : World)
    → Reach (start n) w
    → length w.manager.pool + answers w.manager.recv + w.errors ≤ w.manager.max_capacity
taken-le-max_capacity n w r = (Reach-IsCounted n r).bounded

module _ (n : ℕ) (hash : Bytes) where
  abbrev manager_at : ℕ → List IDiskMessage → List ODiskMessage → DiskManager
  manager_at cur pool recv = record {
    cur_capacity = cur;
    max_capacity = n;
    pool = pool;
    recv = recv;
    task_queue = 0;
    undoing = 0;
  }

  abbrev idle_at : ℕ → World
  idle_at k = record { manager = manager_at k [] []; errors = k }

  abbrev failure : ODiskMessage
  failure = torrent_error hash (info_hash_not_found hash)

  submitted :
      (k : ℕ)
      → k < n
      → (try_submit_work (remove_torrent hash) (manager_at k [] [])).0
        ≡ manager_at (k + 1) (remove_torrent hash ∷ []) []
  unfolding try_submit_work
  submitted k h = let fits : ltb k n ≡ true = ground arith in rw fits refl

  -- One more request that is answered by an error.
  fail_once : (k : ℕ) → k < n → Reach (start n) (idle_at k) → Reach (start n) (idle_at (k + 1))
  unfolding run_task poll poll_from
  fail_once k h r =
      let taken : Step (idle_at k)
          (record { manager = manager_at (k + 1) (remove_torrent hash ∷ []) []; errors = k }) =
        subst (λ m. Step (idle_at k) (record { manager = m; errors = k })) (submitted k h)
          (submit (remove_torrent hash)) in
      next (next (next r taken) (run (remove_torrent hash) [] [] (failure ∷ []) refl refl)) receive

  fail_often : (k : ℕ) → k ≤ n → Reach (start n) (idle_at k)
  fail_often zero h = here
  fail_often (suc k) h =
      let e : k + 1 ≡ suc k = omega arith in
      subst (λ x. Reach (start n) (idle_at x)) e
        (fail_once k (omega arith) (fail_often k (omega arith)))

-- After as many requests as the capacity that were answered by an error, all of them done and polled,
-- the manager takes no message any more.
pub capacity_lost :
    (n : ℕ)
    → (w : World) × Reach (start n) w
      × (w.manager.pool ≡ [])
      × (w.manager.recv ≡ [])
      × (w.manager.undoing ≡ 0)
      × ((item : IDiskMessage) → (try_submit_work item w.manager).1 ≡ false)
unfolding try_submit_work
capacity_lost n =
    (idle_at n [] n, fail_often n [] n (omega arith), refl, refl, refl, λ item. ground arith)
