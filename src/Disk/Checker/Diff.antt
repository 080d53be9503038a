-- ===== src/Disk/Checker/Diff.antt =====
-- What bip_disk/src/disk/tasks/helpers/piece_checker.rs reports once, and then remembers.
use rust_bt.Base.{
  ◌≡◌, refl, sym, ◌∙◌, List, [], ◌∷◌, ◌++◌, append_assoc, true, ◌||◌, Bool-cases, inl, inr,
  append-nil, arith,
}
use rust_bt.Disk.Checker.{
  PieceState, good, bad, PieceCheckerState, state_eq, contains, insert, drain_states, run_with_diff,
}

state_eq→eq : (s t : PieceState) → state_eq s t ≡ true → s ≡ t
unfolding state_eq
state_eq→eq (good i) (good j) h = ground arith
state_eq→eq (good i) (bad j) h = cc
state_eq→eq (bad i) (good j) h = cc
state_eq→eq (bad i) (bad j) h = ground arith

state_eq_refl : (s : PieceState) → state_eq s s ≡ true
unfolding state_eq
state_eq_refl (good i) = ground arith
state_eq_refl (bad i) = ground arith

contains-insert :
    (s t : PieceState) (states : List PieceState)
    → contains (insert s states) t ≡ (state_eq s t || contains states t)
unfolding insert contains
contains-insert s t states = elim (Bool-cases (contains states s)) [
  | inr new ↦ rw new refl
  | inl old ↦ rw old (elim (Bool-cases (state_eq s t)) [
    | inl same ↦ rw same (rw (← state_eq→eq s t same) old)
    | inr other ↦ rw other refl
  ])
]

-- A callback that notes what it is called with.
abbrev pub note : PieceState → List PieceState → List PieceState
note state log = log ++ state ∷ []

drain-note :
    (states old log : List PieceState) → (drain_states note states old log).1 ≡ log ++ states
unfolding drain_states
drain-note [] old log = sym (append-nil log)
drain-note (t ∷ states) old log =
    drain-note states (insert t old) (note t log) ∙ append_assoc log (t ∷ []) states

drain-contains :
    {S : Type 0} (callback : PieceState → S → S) (states old : List PieceState) (s : S)
    (t : PieceState)
    → contains (drain_states callback states old s).0 t ≡ (contains states t || contains old t)
unfolding drain_states contains
drain-contains callback [] old s t = refl
drain-contains callback (u ∷ states) old s t =
    drain-contains callback states (insert u old) (callback u s) t
    ∙ rw (contains-insert u t old) (ground arith)

-- The callback is called once for each new state, in the order in which they were found; after that
-- no state is new, and the known ones are those that were known or new.
pub run_with_diff_once :
    (state : PieceCheckerState) (log : List PieceState)
    → ((run_with_diff note state log).1 ≡ log ++ state.new_states)
      × ((run_with_diff note state log).0.new_states ≡ [])
      × ((t : PieceState)
          → contains (run_with_diff note state log).0.old_states t
            ≡ (contains state.new_states t || contains state.old_states t))
unfolding run_with_diff
run_with_diff_once state log = (
  drain-note state.new_states state.old_states log,
  refl,
  drain-contains note state.new_states state.old_states log,
)
