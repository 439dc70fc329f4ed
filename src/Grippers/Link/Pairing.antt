-- ===== src/Grippers/Link/Pairing.antt =====
-- The records that the exchanges of src/gripper_state.cpp publish, against the traffic on the wire:
-- a record pairs the command that an exchange wrote with the status that the same exchange read.
use tactile_sensors.Base.{
  ℕ, List, [], arith, length, none, refl, some, ◌%◌, ◌+◌, ◌<◌, ◌^◌, ◌∷◌, ◌≡◌, Option-cases, ap, ap₂,
  inl, inr, ◌∙◌, sym,
}
use tactile_sensors.Grippers.Image.{StampedExchange, count_of, set_command, publish, ProcessImage}
use tactile_sensors.Grippers.Blocks.{GripperCommand, GripperStatus}
use tactile_sensors.Grippers.Link.{
  Cycle, GripperState, exchange_failed, exchange_once, exchange_succeeded, set_commands, exchanges,
}

-- The last of the commands set, starting from `c`.
pub latest : GripperCommand → List GripperCommand → GripperCommand
latest c [] = c
latest c (d ∷ ds) = latest d ds

pub record Transfer : Type 0 where
  pub written : GripperCommand
  pub read_back : GripperStatus
  pub at : ℕ

-- The exchanges that went through, oldest first: each writes the last command set before it began.
-- What is set while it is on the wire waits for the next one.
pub wire : GripperCommand → List Cycle → List Transfer
wire c [] = []
wire c (k ∷ ks) =
    let sent = latest c k.before in
    let later = wire (latest sent k.during) ks in
    elim k.answer [
      | none ↦ later
      | some s ↦ record { written = sent; read_back = s; at = k.completed_at } ∷ later
    ]

-- The command that the next exchange would write.
pub pending : GripperCommand → List Cycle → GripperCommand
pending c [] = c
pending c (k ∷ ks) = pending (latest (latest c k.before) k.during) ks

-- The record of the last transfer, numbered from the record before.
pub recorded : StampedExchange → List Transfer → StampedExchange
recorded e [] = e
recorded e (t ∷ ts) =
    recorded
      (record {
        metadata = record { exchange_count = (count_of e + 1) % 2 ^ 64; timestamp = t.at };
        command = t.written;
        status = t.read_back;
      })
      ts

pub count-recorded :
    (e : StampedExchange) (ts : List Transfer)
    → count_of e < 2 ^ 64
    → count_of (recorded e ts) ≡ (count_of e + length ts) % 2 ^ 64
unfolding recorded
count-recorded e [] h = omega arith
count-recorded e (t ∷ ts) h =
    let e' : StampedExchange = record {
      metadata = record { exchange_count = (count_of e + 1) % 2 ^ 64; timestamp = t.at };
      command = t.written;
      status = t.read_back;
    } in
    omega (arith, count-recorded e' ts (omega arith))

set_commands-image :
    (g : GripperState) (cs : List GripperCommand)
    → (set_commands g cs).image ≡ record g.image { command = latest g.image.command cs }
unfolding set_commands latest set_command
set_commands-image g [] = refl
set_commands-image g (c ∷ cs) = set_commands-image (record g { image = set_command g.image c }) cs

abbrev pub image_after : ProcessImage → List Cycle → ProcessImage
image_after i ks = record i {
  command = pending i.command ks;
  stamped = recorded i.stamped (wire i.command ks);
}

-- The image with the commands of one exchange set.
abbrev commanded : ProcessImage → Cycle → ProcessImage
commanded i k = record i { command = latest (latest i.command k.before) k.during }

answered-image :
    (g : GripperState) (k : Cycle)
    → (set_commands (set_commands g k.before) k.during).image ≡ commanded g.image k
answered-image g k =
    set_commands-image (set_commands g k.before) k.during
    ∙ ap (λ (i : ProcessImage). record i { command = latest i.command k.during })
        (set_commands-image g k.before)

exchange_failed-image : (g : GripperState) → (exchange_failed g).0.image ≡ g.image
unfolding exchange_failed
exchange_failed-image g = ground arith

exchange_once-image_none :
    (g : GripperState) (k : Cycle)
    → k.answer ≡ none
    → (exchange_once g k).0.image ≡ commanded g.image k
unfolding exchange_once
exchange_once-image_none g k e =
    rw (e, exchange_once)
      (exchange_failed-image (set_commands (set_commands g k.before) k.during) ∙ answered-image g k)

exchange_once-image_some :
    (g : GripperState) (k : Cycle) (s : GripperStatus)
    → k.answer ≡ some s
    → (exchange_once g k).0.image
      ≡ publish (commanded g.image k) (latest g.image.command k.before) s k.completed_at
unfolding exchange_once exchange_succeeded
exchange_once-image_some g k s e =
    rw (e, exchange_once)
      (ap₂ (λ (i : ProcessImage) (c : GripperCommand). publish i c s k.completed_at)
        (answered-image g k) (ap (λ (i : ProcessImage). i.command) (set_commands-image g k.before)))

wire-none :
    (c : GripperCommand) (k : Cycle) (ks : List Cycle)
    → k.answer ≡ none
    → wire c (k ∷ ks) ≡ wire (latest (latest c k.before) k.during) ks
unfolding wire
wire-none c k ks e = rw (e, wire)

wire-some :
    (c : GripperCommand) (k : Cycle) (ks : List Cycle) (s : GripperStatus)
    → k.answer ≡ some s
    → wire c (k ∷ ks)
      ≡ record { written = latest c k.before; read_back = s; at = k.completed_at }
        ∷ wire (latest (latest c k.before) k.during) ks
unfolding wire
wire-some c k ks s e = rw (e, wire)

abbrev with_wire : ProcessImage → GripperCommand → List Transfer → ProcessImage
with_wire i c ts = record i { command = c; stamped = recorded i.stamped ts }

-- After any exchanges the image holds the record of the last transfer on the wire, with the command
-- that this transfer wrote, its status, its time, and the old count plus the number of transfers
-- (as a uint64_t); and it holds the last command set, which the next exchange writes. Failed
-- exchanges and commands set while one is on the wire change no record.
pub image-exchanges :
    (g : GripperState) (ks : List Cycle) → (exchanges g ks).0.image ≡ image_after g.image ks
unfolding exchanges pending recorded publish wire
image-exchanges g [] = refl
image-exchanges g (k ∷ ks) =
    let rest = image-exchanges (exchange_once g k).0 ks in
    let last = pending g.image.command (k ∷ ks) in
    elim (Option-cases k.answer) [
      | inl e ↦
          rest
          ∙ ap (λ (i : ProcessImage). image_after i ks) (exchange_once-image_none g k e)
          ∙ ap (with_wire g.image last) (sym (wire-none g.image.command k ks e))
      | inr (s, e) ↦
          rest
          ∙ ap (λ (i : ProcessImage). image_after i ks) (exchange_once-image_some g k s e)
          ∙ ap (with_wire g.image last) (sym (wire-some g.image.command k ks s e))
    ]
