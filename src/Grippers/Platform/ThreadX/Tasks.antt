-- ===== src/Grippers/Platform/ThreadX/Tasks.antt =====
-- ThreadXThread and the sleeps of ThreadXPlatform, ports/threadx/threadx_platform.hpp, by the calls that
-- they make of the kernel. What the kernel says of a task, each time that it is asked, is an element of
-- a list; `none` if it is asked once more.
use tactile_sensors.Base.{
  Bool, List, Option, [], false, if◌then◌else◌, none, refl, some, true, ◌*◌, ◌++◌, ◌-◌, ◌==◌, ◌∷◌,
  ◌≡◌, ℕ, suc, zero, length, ap, ◌∙◌, append_assoc, append-nil, sym,
}
use tactile_sensors.Grippers.Ticks.{blocking_ticks}

pub data TaskState : Type 0 where
  ready suspended completed terminated : TaskState

abbrev pub is_over : TaskState → Bool
is_over completed = true
is_over terminated = true
is_over ready = false
is_over suspended = false

pub data KernelCall : Type 0 where
  create terminate delete : KernelCall
  sleep : ℕ → KernelCall

-- The thread, with the calls that it has made.
pub record Thread : Type 0 where
  pub joined : Bool
  pub calls : List KernelCall

-- The constructor; `none` is the exception if the task is not created.
unfoldable pub new_thread : Bool → Option Thread
new_thread success = if success then some (record { joined = false; calls = create ∷ [] }) else none

-- `join`, which asks for the state of the task.
unfoldable pub join : List TaskState → Thread → Option Thread
join [] t = none
join (s ∷ states) t =
    let later = join states (record t { calls = t.calls ++ sleep 1 ∷ [] }) in
    if is_over s then some (record t { joined = true }) else later

-- The destructor.
unfoldable pub destroy : Thread → List KernelCall
destroy t = t.calls ++ (if t.joined then delete ∷ [] else terminate ∷ delete ∷ [])

-- The sleeps, with the tick rate and TX_WAIT_FOREVER of the kernel.
unfoldable pub sleep_ticks : ℕ → ℕ → ℕ → List KernelCall
sleep_ticks per_second wait_forever duration =
    let ticks = blocking_ticks per_second wait_forever duration in
    if ticks == 0 then [] else sleep ticks ∷ []

unfoldable pub sleep_until : ℕ → ℕ → ℕ → ℕ → List KernelCall
unfolding sleep_ticks
sleep_until per_second wait_forever time_point now =
    sleep_ticks per_second wait_forever (time_point - now)

unfoldable pub sleep_for : ℕ → ℕ → ℕ → List KernelCall
unfolding sleep_ticks
sleep_for per_second wait_forever milliseconds =
    sleep_ticks per_second wait_forever (milliseconds * 1000000)

-- The states of a task that is over at the end and not before.
pub AreBefore : List TaskState → Type 0
AreBefore [] = Unit
AreBefore (s ∷ states) = (is_over s ≡ false) × AreBefore states

pub naps : ℕ → List KernelCall
naps zero = []
naps (suc n) = sleep 1 ∷ naps n

-- A join of a task asks for its state until it is over, with a sleep of one tick in between.
join-over :
    (before after : List TaskState) (last : TaskState) (t : Thread)
    → AreBefore before
    → is_over last ≡ true
    → join (before ++ last ∷ after) t
      ≡ some (record { joined = true; calls = t.calls ++ naps (length before) })
unfolding join AreBefore naps
join-over [] after last t h over =
    rw over (ap (λ cs. some (record { joined = true; calls = cs })) (sym (append-nil t.calls)))
join-over (s ∷ before) after last t h over = rw h.0 (
    join-over before after last (record t { calls = t.calls ++ sleep 1 ∷ [] }) h.1 over
    ∙ ap (λ cs. some (record { joined = true; calls = cs }))
        (append_assoc t.calls (sleep 1 ∷ []) (naps (length before))))

-- A task that is joined is only deleted afterwards: it is never terminated, however long it runs.
pub destroy-join :
    (before after : List TaskState) (last : TaskState)
    → AreBefore before
    → is_over last ≡ true
    → (t : Thread) × (join (before ++ last ∷ after) (record { joined = false; calls = create ∷ [] })
        ≡ some t)
      × (destroy t ≡ create ∷ (naps (length before) ++ delete ∷ []))
unfolding destroy
destroy-join before after last h over = (
  record { joined = true; calls = create ∷ naps (length before) },
  join-over before after last (record { joined = false; calls = create ∷ [] }) h over,
  refl,
)
