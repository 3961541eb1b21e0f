-- ===== src/Schedule/Events/Safety.antt =====
-- No null block is dereferenced while the tables of the schedules hold the blocks of an event.
use client.Base.{
  ◌≡◌, refl, ◌∙◌, Option, some, List, [], ◌∷◌, arith, All, All-mono, Bool-cases, inl, inr,
}
use client.LinkedList.{Ptr}
use client.Schedule.{
  Status, ResponseType, Client, event_status, device_response, start_block, poll_resource,
  activate_block, Stub, active_poll_rate, set_stub,
}
use client.Schedule.Events.{
  is_waiting, same_status, get_block, activate_if_waiting, activate_all, activate_blocks,
  unlink_block, remove_block, remove_found, remove_all, remove_blocks, retry_event, event_update_as,
  event_update,
}

-- The mRIDs of the stubs and the tables of the schedules are the same.
pub record SameTables (c d : Client) : Type 0 where
  pub mrids : (e : Ptr) → (d.stub e).mrid ≡ (c.stub e).mrid
  pub tables : (s : Ptr) → (d.schedule s).blocks ≡ (c.schedule s).blocks

SameTables-trans : {c d e : Client} → SameTables c d → SameTables d e → SameTables c e
SameTables-trans a b = record {
  mrids = λ p. b.mrids p ∙ a.mrids p;
  tables = λ p. b.tables p ∙ a.tables p;
}

device_response-same :
    (device event : Ptr) (t : ResponseType) (c : Client)
    → SameTables c (device_response device event t c)
unfolding device_response
device_response-same device event t c = record {
  mrids = λ e. ground arith;
  tables = λ s. ground arith;
}

poll_resource-same : (e : Ptr) (c : Client) → SameTables c (poll_resource e c)
unfolding poll_resource
poll_resource-same e c = record { mrids = λ p. ground arith; tables = λ s. ground arith }

start_block-same : (s eb : Ptr) (c : Client) → SameTables c (start_block s eb c)
unfolding start_block
start_block-same s eb c = record { mrids = λ p. ground arith; tables = λ t. ground arith }

set_stub-same :
    (e : Ptr) (r : Stub) (c : Client) → r.mrid ≡ (c.stub e).mrid → SameTables c (set_stub e r c)
set_stub-same e r c h = record { mrids = λ p. ground (arith, h); tables = λ t. refl }

activate_block-same : (s eb : Ptr) (c : Client) → SameTables c (activate_block s eb c)
unfolding activate_block
activate_block-same s eb c =
    let event = (c.block eb).event in
    let d = start_block s eb c in
    let r = record (d.stub event) { poll_rate = active_poll_rate } in
    SameTables-trans (start_block-same s eb c) (
      SameTables-trans (set_stub-same event r d refl)
        (poll_resource-same event (set_stub event r d)))

unlink_block-same : (st : Status) (s eb : Ptr) (c : Client) → SameTables c (unlink_block st s eb c)
unfolding unlink_block
unlink_block-same Status.scheduled s eb c = record { mrids = λ e. refl; tables = λ t. ground arith }
unlink_block-same _ s eb c = record { mrids = λ e. refl; tables = λ t. ground arith }

retry_event-same : (event : Ptr) (c : Client) → SameTables c (retry_event event c)
unfolding retry_event
retry_event-same event c = record { mrids = λ e. ground arith; tables = λ s. ground arith }

-- The event's block is in the table of the schedule.
abbrev pub IsKnown : Ptr → Client → Ptr → Type 0
IsKnown event c s = (eb : Ptr) × (get_block s event c ≡ some eb)

IsKnown-same :
    (event : Ptr) (c d : Client) (s : Ptr) → SameTables c d → IsKnown event c s → IsKnown event d s
IsKnown-same event c d s same (eb, k) = (eb, cc (same.mrids event, same.tables s, k))

abbrev Runs : Client → Option Client → Type 0
Runs c r = (d : Client) × (r ≡ some d) × SameTables c d

activate_if_waiting-Runs : (s eb : Ptr) (c : Client) → Runs c (activate_if_waiting s (some eb) c)
unfolding activate_if_waiting
activate_if_waiting-Runs s eb c = elim (Bool-cases (is_waiting (c.block eb).status)) [
  | inl w ↦ rw w (activate_block s eb c, refl, activate_block-same s eb c)
  | inr w ↦ rw w (c, refl, record { mrids = λ e. refl; tables = λ t. refl })
]

remove_block-same : (s eb : Ptr) (c : Client) → SameTables c (remove_block s eb c)
unfolding remove_block
remove_block-same s eb c = unlink_block-same (c.block eb).status s eb c

remove_found-Runs :
    (s event : Ptr) (t : ResponseType) (st : Status) (eb : Ptr) (c : Client)
    → Runs c (remove_found s event t st (some eb) c)
unfolding remove_found
remove_found-Runs s event t st eb c =
    let d = remove_block s eb c in
    let answered = device_response-same (d.schedule s).device event t d in
    let first = remove_block-same s eb c in
    elim (Bool-cases (same_status (d.block eb).status st)) [
      | inl e ↦ rw e (_, refl, record { mrids = first.mrids; tables = first.tables })
      | inr e ↦ rw e (
        _,
        refl,
        record {
          mrids = λ p. answered.mrids p ∙ first.mrids p;
          tables = λ p. answered.tables p ∙ first.tables p;
        },
      )
    ]

module _ (event : Ptr) where
  -- A loop over the schedules of the event, with a round that succeeds where the block is known.
  loop-Runs :
      (round : Ptr → Option Ptr → Client → Option Client) (loop : List Ptr → Client → Option Client)
      → ((c : Client) → loop [] c ≡ some c)
      → ((s : Ptr) (l : List Ptr) (c d : Client)
          → round s (get_block s event c) c ≡ some d
          → loop (s ∷ l) c ≡ loop l d)
      → ((s eb : Ptr) (c : Client) → Runs c (round s (some eb) c))
      → (l : List Ptr) (c : Client) → All (IsKnown event c) l
      → Runs c (loop l c)
  loop-Runs round loop nil cons step [] c k =
      (c, nil c, record { mrids = λ e. refl; tables = λ t. refl })
  loop-Runs round loop nil cons step (s ∷ l) c k =
      let (eb, known) = k.0 in
      let (d, ran, same) = step s eb c in
      let (e, rest, same') =
        loop-Runs round loop nil cons step l d
          (All-mono l (λ t. IsKnown-same event c d t same) k.1) in
      (e, cons s l c d (rw known ran) ∙ rest, SameTables-trans same same')

  activate_blocks-Runs :
      (c : Client)
      → All (IsKnown event c) (c.stub event).schedules
      → Runs c (activate_blocks event c)
  unfolding activate_blocks activate_all
  activate_blocks-Runs c =
      loop-Runs activate_if_waiting (activate_all event) (λ d. refl)
        (λ s l d e r. rw (r, activate_all)) activate_if_waiting-Runs (c.stub event).schedules c

  remove_blocks-Runs :
      (t : ResponseType) (c : Client)
      → All (IsKnown event c) (c.stub event).schedules
      → Runs c (remove_blocks event t c)
  unfolding remove_blocks remove_all
  remove_blocks-Runs t c =
      let st = event_status event c in
      loop-Runs (λ s. remove_found s event t st) (remove_all event t st) (λ d. refl)
        (λ s l d e r. rw (r, remove_all)) (λ s. remove_found-Runs s event t st)
        (c.stub event).schedules c

  update-Runs :
      (st : Status) (c : Client)
      → All (IsKnown event c) (c.stub event).schedules
      → Runs c (event_update_as st event c)
  unfolding event_update_as
  update-Runs Status.scheduled c k = (retry_event event c, refl, retry_event-same event c)
  update-Runs Status.active c k = activate_blocks-Runs c k
  update-Runs Status.canceled c k = remove_blocks-Runs ResponseType.event_canceled c k
  update-Runs Status.canceled_random c k = remove_blocks-Runs ResponseType.event_canceled c k
  update-Runs Status.superseded c k = remove_blocks-Runs ResponseType.event_superseded c k
  update-Runs _ c k = (c, refl, record { mrids = λ e. refl; tables = λ t. refl })

-- Where every schedule that an event is in has its block in the table, `event_update` runs to its
-- end, whatever the event's status, and the tables and mRIDs stay as they are.
pub event_update-Runs :
    (event : Ptr) (c : Client)
    → All (IsKnown event c) (c.stub event).schedules
    → (d : Client) × (event_update event c ≡ some d) × SameTables c d
unfolding event_update
event_update-Runs event c k = update-Runs event (event_status event c) c k
