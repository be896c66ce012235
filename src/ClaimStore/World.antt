-- ===== src/ClaimStore/World.antt =====
-- A file system shared by any number of stores (and processes), the calls that are under way, and one
-- step of them. A handle is known by the index of the call of `claim` that returned it.
use swisstokint_open_risk_in.Prelude.{
  ℕ, String, Bool, true, false, Option, none, some, List, [], ◌∷◌, ◌++◌, Result, ok, err, ◌==◌,
  if◌then◌else◌, get_elem?, set,
}
use swisstokint_open_risk_in.Data.{Data}
use swisstokint_open_risk_in.Platform.{Platform}
use swisstokint_open_risk_in.Value.{Value}
use swisstokint_open_risk_in.ClaimStore.Records.{
  ClaimError, ClaimRecord, Terminal, consumed_success, consumed_error, durable_stale,
  durable_invalid, make_terminal_record, TerminalRecord,
}
use swisstokint_open_risk_in.ClaimStore.Io.{Op, await_root, Reply, root, Io, ret, raise, call}
use swisstokint_open_risk_in.ClaimStore.Durable.{RootFacts, check_root}
use swisstokint_open_risk_in.ClaimStore.Programs.{claim, finalize, inspect, Inspection}
use swisstokint_open_risk_in.ClaimStore.Files.{Files, no_files, Luck, Effect, attempted}

pub data HandleState : Type 0 where
  handle_open finalizing failed_closed : HandleState
  terminal : Terminal → HandleState

pub data Progress : Type 0 where
  claiming : Io ClaimRecord → Progress
  -- a handle, with its state
  claimed : ClaimRecord → HandleState → Progress
  completing : ℕ → Terminal → Io Inspection → Progress
  inspecting : Io Inspection → Progress
  answered : Inspection → Progress
  failed : ClaimError → Progress

pub record Call : Type 0 where
  pub store : ℕ
  pub progress : Progress

pub record World : Type 0 where
  pub files : Files
  pub calls : List Call
  -- the settled promise of each store's root
  pub roots : List (ℕ × Result ClaimError Unit)

abbrev pub empty_world : World
empty_world = record { files = no_files; calls = []; roots = [] }

unfoldable pub settled : ℕ → List (ℕ × Result ClaimError Unit) → Option (Result ClaimError Unit)
settled s [] = none
settled s ((t, r) ∷ rs) = if s == t then some r else settled s rs

pub data Event : Type 0 where
  start_claim : ℕ → Value → ℕ → Event
  start_inspect : ℕ → Value → Event
  -- a store, a handle, an outcome (`none` for one that is neither success nor error) and a nonce
  start_complete : ℕ → ℕ → Option Bool → ℕ → Event
  -- the awaited operation of a call settles
  resume : ℕ → Luck → RootFacts → Event

abbrev pub add_call : World → Call → World
add_call w c = record w { calls = w.calls ++ c ∷ [] }

abbrev pub put_progress : World → ℕ → Call → Progress → World
put_progress w i c q = record w { calls = set w.calls i (record c { progress = q }) }

abbrev pub terminal_of : Bool → Terminal
terminal_of true = consumed_success
terminal_of false = consumed_error

-- The state of the handle, if the call returned one.
unfoldable pub set_state : World → ℕ → HandleState → Call → Progress → World
set_state w h s c (claimed r old) = put_progress w h c (claimed r s)
set_state w h s c _ = w

unfoldable pub set_handle : World → ℕ → HandleState → Option Call → World
unfolding set_state
set_handle w h s none = w
set_handle w h s (some c) = set_state w h s c c.progress

abbrev pub after_claim : Io ClaimRecord → Progress
after_claim (ret r) = claimed r handle_open
after_claim (raise e) = failed e
after_claim (call o k) = claiming (call o k)

abbrev pub after_inspect : Io Inspection → Progress
after_inspect (ret v) = answered v
after_inspect (raise e) = failed e
after_inspect (call o k) = inspecting (call o k)

abbrev pub after_complete : ℕ → Terminal → Io Inspection → Progress
after_complete h t (ret v) = answered v
after_complete h t (raise e) = failed e
after_complete h t (call o k) = completing h t (call o k)

-- `state.state = terminalState`, `state.state = 'FAILED_CLOSED'`
abbrev pub close_handle : World → ℕ → Terminal → Io Inspection → World
close_handle w h t (ret v) = set_handle w h (terminal t) (get_elem? w.calls h)
close_handle w h t (raise e) = set_handle w h failed_closed (get_elem? w.calls h)
close_handle w h t (call o k) = w

abbrev pub new_call : ℕ → Progress → Call
new_call s q = record { store = s; progress = q }

-- The first wait for a store's root settles its promise; every later one sees the same.
unfoldable pub root_reply : World → ℕ → RootFacts → Option (Result ClaimError Unit) → World × Reply
root_reply w s facts (some r) = (w, root r)
root_reply w s facts none =
    (record w { roots = (s, check_root facts) ∷ w.roots }, root (check_root facts))

abbrev files_reply : World → Effect → World × Reply
files_reply w e = (record w { files = e.files }, e.reply)

unfoldable pub answer : World → ℕ → ℕ → Luck → RootFacts → Op → World × Reply
unfolding root_reply
answer w s i luck facts await_root = root_reply w s facts (settled s w.roots)
answer w s i luck facts o = files_reply w (attempted luck i o w.files)

unfoldable pub resume_claim : World × Reply → ℕ → Call → (Reply → Io ClaimRecord) → World
resume_claim (w, r) i c k = put_progress w i c (after_claim (k r))

unfoldable pub resume_inspect : World × Reply → ℕ → Call → (Reply → Io Inspection) → World
resume_inspect (w, r) i c k = put_progress w i c (after_inspect (k r))

unfoldable pub resume_complete :
    World × Reply → ℕ → Call → ℕ → Terminal → (Reply → Io Inspection) → World
resume_complete (w, r) i c h t k =
    close_handle (put_progress w i c (after_complete h t (k r))) h t (k r)

unfoldable pub resume_call : World → ℕ → Luck → RootFacts → Call → Progress → World
unfolding answer resume_claim resume_inspect resume_complete
resume_call w i luck facts c (claiming (call o k)) =
    resume_claim (answer w c.store i luck facts o) i c k
resume_call w i luck facts c (inspecting (call o k)) =
    resume_inspect (answer w c.store i luck facts o) i c k
resume_call w i luck facts c (completing h t (call o k)) =
    resume_complete (answer w c.store i luck facts o) i c h t k
resume_call w i luck facts c q = w

unfoldable pub resume_some : World → ℕ → Luck → RootFacts → Option Call → World
unfolding resume_call
resume_some w i luck facts none = w
resume_some w i luck facts (some c) = resume_call w i luck facts c c.progress

module _ (p : Platform) (parse_json : String → Option Data) where
  -- `complete` after its guards: the state is FINALIZING before anything is awaited.
  unfoldable pub complete_with :
      World → ℕ → ℕ → ℕ → ClaimRecord → Bool → Result ClaimError TerminalRecord → World
  complete_with w s h nonce r b (err e) =
      add_call (set_handle w h finalizing (get_elem? w.calls h)) (new_call s (failed e))
  complete_with w s h nonce r b (ok t) =
      let m = finalize p parse_json r t nonce in
      let finalized = set_handle w h finalizing (get_elem? w.calls h) in
      add_call (close_handle finalized h (terminal_of b) m)
        (new_call s (after_complete h (terminal_of b) m))

  -- The handle is this store's and open.
  unfoldable pub complete_outcome : World → ℕ → ℕ → ℕ → ClaimRecord → Option Bool → World
  unfolding complete_with
  complete_outcome w s h nonce r none = add_call w (new_call s (failed durable_invalid))
  complete_outcome w s h nonce r (some b) =
      complete_with w s h nonce r b (make_terminal_record p r (terminal_of b))

  unfoldable pub complete_handle : World → ℕ → ℕ → ℕ → Option Bool → Progress → Bool → World
  unfolding complete_outcome
  complete_handle w s h nonce outcome (claimed r handle_open) true =
      complete_outcome w s h nonce r outcome
  complete_handle w s h nonce outcome _ _ = add_call w (new_call s (failed durable_stale))

  -- `handleState.get(handle)`
  unfoldable pub complete : World → ℕ → ℕ → ℕ → Option Bool → Option Call → World
  unfolding complete_handle
  complete w s h nonce outcome none = add_call w (new_call s (failed durable_stale))
  complete w s h nonce outcome (some c) =
      complete_handle w s h nonce outcome c.progress (c.store == s)

  unfoldable pub step : World → Event → World
  unfolding complete resume_some
  step w (start_claim s input nonce) =
      add_call w (new_call s (after_claim (claim p parse_json input nonce)))
  step w (start_inspect s input) =
      add_call w (new_call s (after_inspect (inspect p parse_json input)))
  step w (start_complete s h outcome nonce) = complete w s h nonce outcome (get_elem? w.calls h)
  step w (resume i luck facts) = resume_some w i luck facts (get_elem? w.calls i)

  unfoldable pub run : World → List Event → World
  unfolding step
  run w [] = w
  run w (e ∷ es) = run (step w e) es
