-- ===== src/Grippers/Link/Health.antt =====
-- The connection state of src/gripper_state.cpp: faulted after three failures in a row, and one log
-- line for each change.
use tactile_sensors.Base.{
  ℕ, List, [], arith, if◌then◌else◌, leb, none, some, ◌+◌, ◌∷◌, ◌≡◌, ◌≤◌, ◌⊎◌, Option, Option-cases,
  inl, inr, refl, subst, sym, ◌++◌, ◌∙◌,
}
use tactile_sensors.Grippers.Log.{Line, link_faulted, link_recovered}
use tactile_sensors.Grippers.Image.{set_command}
use tactile_sensors.Grippers.Blocks.{GripperCommand, GripperStatus}
use tactile_sensors.Grippers.Link.{
  operational, faulted, Cycle, GripperState, exchange_failed, fault_threshold, set_commands,
  ConnectionState, exchange_once, exchange_succeeded, is_faulted, exchanges,
}

-- How many exchanges have failed since the last good one, `n` of them before these.
pub failing : ℕ → List Cycle → ℕ
failing n [] = n
failing n (k ∷ ks) = elim k.answer [ none ↦ failing (n + 1) ks | some s ↦ failing 0 ks ]

-- The counter of the code, which wraps, agrees with the true number until the link is faulted.
pub record IsHealth (g : GripperState) (n : ℕ) : Type 0 where
  pub state : g.connection ≡ (if leb fault_threshold n then faulted else operational)
  pub counter : (fault_threshold ≤ n) ⊎ (g.consecutive_failures ≡ n)

set_commands-IsHealth :
    (g : GripperState) (cs : List GripperCommand) (n : ℕ)
    → IsHealth g n
    → IsHealth (set_commands g cs) n
unfolding set_commands
set_commands-IsHealth g [] n v = v
set_commands-IsHealth g (c ∷ cs) n v =
    set_commands-IsHealth (record g { image = set_command g.image c }) cs n
      (record { state = v.state; counter = v.counter })

exchange_failed-IsHealth :
    (g : GripperState) (n : ℕ) → IsHealth g n → IsHealth (exchange_failed g).0 (n + 1)
unfolding exchange_failed
exchange_failed-IsHealth g n v = ground arith

-- The count after one more exchange.
abbrev step_failing : ℕ → Option GripperStatus → ℕ
step_failing n none = n + 1
step_failing n (some s) = 0

exchange_once-IsHealth :
    (g : GripperState) (n : ℕ) (k : Cycle)
    → IsHealth g n
    → IsHealth (exchange_once g k).0 (step_failing n k.answer)
unfolding exchange_once exchange_succeeded
exchange_once-IsHealth g n k v = elim (Option-cases k.answer) [
  | inl e ↦
      rw (e, exchange_once)
        (exchange_failed-IsHealth (set_commands (set_commands g k.before) k.during) n (
          set_commands-IsHealth (set_commands g k.before) k.during n
            (set_commands-IsHealth g k.before n v)))
  | inr (s, e) ↦ rw (e, exchange_once) (record { state = refl; counter = inr refl })
]

failing-step :
    (n : ℕ) (k : Cycle) (ks : List Cycle)
    → failing n (k ∷ ks) ≡ failing (step_failing n k.answer) ks
unfolding failing
failing-step n k ks = ground arith

exchanges-IsHealth :
    (g : GripperState) (n : ℕ) (ks : List Cycle)
    → IsHealth g n
    → IsHealth (exchanges g ks).0 (failing n ks)
unfolding exchanges failing
exchanges-IsHealth g n [] v = v
exchanges-IsHealth g n (k ∷ ks) v = rw (failing-step n k ks) (
    exchanges-IsHealth (exchange_once g k).0 (step_failing n k.answer) ks
      (exchange_once-IsHealth g n k v))

-- A link that starts operational is faulted exactly when its last three exchanges, or more, have
-- all failed, and is operational otherwise, for any number of exchanges and whatever commands are
-- set meanwhile.
pub connection-exchanges :
    (g : GripperState) (ks : List Cycle)
    → g.connection ≡ operational
    → g.consecutive_failures ≡ 0
    → (exchanges g ks).0.connection
      ≡ (if leb fault_threshold (failing 0 ks) then faulted else operational)
connection-exchanges g ks up zero_failures =
    (exchanges-IsHealth g 0 ks (record { state = up; counter = inr zero_failures })).state

-- Reading a log of link changes: each line must fit the state that it leaves.
pub replay : ConnectionState → List Line → Option ConnectionState
replay s [] = some s
replay s (l ∷ ls) = elim l.message [
  | link_faulted ↦ if is_faulted s then none else replay faulted ls
  | link_recovered ↦ if is_faulted s then replay operational ls else none
  | _ ↦ none
]

abbrev replay_then : Option ConnectionState → List Line → Option ConnectionState
replay_then none ls = none
replay_then (some s) ls = replay s ls

replay-append :
    (s : ConnectionState) (ls ms : List Line) → replay s (ls ++ ms) ≡ replay_then (replay s ls) ms
unfolding replay
replay-append s [] ms = refl
replay-append s (l ∷ ls) ms =
    ground (arith, replay-append faulted ls ms, replay-append operational ls ms)

connection-set_commands :
    (g : GripperState) (cs : List GripperCommand) → (set_commands g cs).connection ≡ g.connection
unfolding set_commands
connection-set_commands g [] = refl
connection-set_commands g (c ∷ cs) =
    connection-set_commands (record g { image = set_command g.image c }) cs

-- The states of a link that has been connected.
abbrev pub IsLive : ConnectionState → Type 0
IsLive s = (s ≡ operational) ⊎ (s ≡ faulted)

-- The log fits the state before it, and reading it gives the state after.
abbrev Logged : ConnectionState → GripperState × List Line → Type 0
Logged s r = (replay s r.1 ≡ some r.0.connection) × IsLive r.0.connection

exchange_failed-Logged :
    (g : GripperState) → IsLive g.connection → Logged g.connection (exchange_failed g)
unfolding exchange_failed replay is_faulted
exchange_failed-Logged g v = ground arith

exchange_succeeded-Logged :
    (g : GripperState) (c : GripperCommand) (s : GripperStatus) (at : ℕ)
    → IsLive g.connection
    → Logged g.connection (exchange_succeeded g c s at)
unfolding exchange_succeeded replay is_faulted
exchange_succeeded-Logged g c s at v = ground arith

exchange_once-Logged :
    (g : GripperState) (k : Cycle) → IsLive g.connection → Logged g.connection (exchange_once g k)
unfolding exchange_once
exchange_once-Logged g k v =
    let copying = set_commands g k.before in
    let answered = set_commands copying k.during in
    let same_state : answered.connection ≡ g.connection =
      connection-set_commands copying k.during ∙ connection-set_commands g k.before in
    let v' : IsLive answered.connection = subst IsLive (sym same_state) v in
    elim (Option-cases k.answer) [
      | inl e ↦
          rw (e, exchange_once)
            (subst (λ s. Logged s (exchange_failed answered)) same_state
              (exchange_failed-Logged answered v'))
      | inr (s, e) ↦
          rw (e, exchange_once)
            (subst
              (λ t. Logged t (exchange_succeeded answered copying.image.command s k.completed_at))
              same_state
              (exchange_succeeded-Logged answered copying.image.command s k.completed_at v'))
    ]

-- What the exchanges log tells the state of the link: the lines say "faulted" and "recovered" in
-- turn, each one at a change of the state and none missing, from the state before the exchanges to
-- the state after them.
pub replay-exchanges :
    (g : GripperState) (ks : List Cycle)
    → IsLive g.connection
    → replay g.connection (exchanges g ks).1 ≡ some (exchanges g ks).0.connection
unfolding exchanges replay
replay-exchanges g [] v = refl
replay-exchanges g (k ∷ ks) v =
    let one = exchange_once-Logged g k v in
    rw
      (
        replay-append g.connection (exchange_once g k).1 (exchanges (exchange_once g k).0 ks).1,
        one.0,
      )
      (replay-exchanges (exchange_once g k).0 ks one.1)
