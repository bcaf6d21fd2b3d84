-- ===== src/Relay/Memory/Tests.antt =====
-- Runs of the memory store (internal/relay/memory.go), and its theorems at concrete inputs.
use burndrop.Common.{
  ℕ, ◌+◌, ◌<◌, Bytes, codes, lookup, insert, delete, bytes_eq, ◌≡◌, ◌≢◌, ◌⊎◌, ◌↔◌, refl, true,
  false, some, List, [], ◌∷◌, arith,
}
use burndrop.Relay.Slot.{
  drop, reveal, created, uploaded, expired, fetched, Drop, ok, state_error, wrong_kind, is_drop,
  is_uploaded, is_terminal, state_eq, tombstone,
}
use burndrop.Relay.Memory.{Memory, StoreOptions, new_memory, create}
use burndrop.Relay.Memory.Methods.{upload, fetch, open_reveal, revoke, status}
use burndrop.Relay.Memory.LongPoll.{wait_begin, waiting}
use burndrop.Relay.Memory.Sweep.{sweep}
use burndrop.Relay.Memory.History.{Call, creates, uploads, fetches, sweeps, statuses, run, run-Inv}
use burndrop.Relay.Memory.Moves.{IsNew}
use burndrop.Relay.Memory.Invariant.{Inv, new_memory-Inv}
use burndrop.Relay.Memory.Once.{Unreadable, fetch_once, open_once, revoke_final}
use burndrop.Relay.Memory.Delivery.{fetch-upload}
use burndrop.Relay.Memory.Expiry.{Refuses, fetch_succeeds}
use burndrop.Relay.Memory.Expiry.Swept.{expired_drop}
use burndrop.Relay.Memory.Sweeping.{sweep_complete, status-sweep}
use burndrop.Relay.Memory.Wakeup.{woken, polls}
use burndrop.Relay.Memory.Wakeup.Attended.{no_lost_wakeup}

abbrev small : StoreOptions
small = record { max_live = 2; max_bytes = 1000; tombstone_grace = 100 }

abbrev request : Drop
request = record {
  id = codes "a";
  kind = drop;
  state = created;
  ciphertext = [];
  commitment = codes "key";
  token_a = 1 ∷ [];
  token_b = 2 ∷ [];
  agent_key_id = [];
  created_at = 10;
  expires_at = 50;
  uploaded_at = 0;
  fetched_at = 0;
  revoked_at = 0;
}

abbrev message : Drop
message = record request { id = codes "b"; kind = reveal; ciphertext = 7 ∷ 8 ∷ [] }

abbrev setup : List Call
setup =
    creates request
    ∷ creates message
    ∷ uploads 12 12 (codes "a") (1 ∷ []) (codes "key") (5 ∷ 6 ∷ [])
    ∷ []

ready : Memory
unfolding run new_memory lookup upload create insert bytes_eq is_terminal delete
ready = run setup (new_memory small)

abbrev held : Drop
held = record request { state = uploaded; ciphertext = 5 ∷ 6 ∷ []; uploaded_at = 12 }

held_here : lookup (codes "a") ready.drops ≡ some held
unfolding ready
held_here = refl

request-IsNew : IsNew request
request-IsNew = record { state = refl; unfilled = λ k. refl }

message-IsNew : IsNew message
unfolding is_drop
message-IsNew = record { state = refl; unfilled = λ k. cc }

ready-Inv : Inv ready
unfolding ready
ready-Inv =
    run-Inv setup (new_memory small) (request-IsNew, (message-IsNew, (tt, tt)))
      (new_memory-Inv small)

run-Inv_example : Inv (run setup (new_memory small))
run-Inv_example =
    run-Inv setup (new_memory small) (request-IsNew, (message-IsNew, (tt, tt)))
      (new_memory-Inv small)

fetch_runs : (fetch 20 20 (codes "a") (2 ∷ []) ready).0 ≡ ok (5 ∷ 6 ∷ [], 12)
unfolding ready fetch
fetch_runs = refl

abbrev later : List Call
later = sweeps 60 ∷ statuses 61 (codes "a") ∷ []

fetch_once_example : Unreadable (codes "a") (run later (fetch 20 20 (codes "a") (2 ∷ []) ready).1)
fetch_once_example =
    fetch_once 20 20 (codes "a") (2 ∷ []) ready (5 ∷ 6 ∷ [], 12) later fetch_runs (tt, (tt, tt))

opened_runs : (open_reveal 20 20 (codes "b") (1 ∷ []) ready).0 ≡ ok (7 ∷ 8 ∷ [], 10)
unfolding ready open_reveal
opened_runs = refl

open_once_example :
    Unreadable (codes "b") (run later (open_reveal 20 20 (codes "b") (1 ∷ []) ready).1)
open_once_example =
    open_once 20 20 (codes "b") (1 ∷ []) ready (7 ∷ 8 ∷ [], 10) later opened_runs (tt, (tt, tt))

revoke_runs : (revoke 20 20 (codes "a") (1 ∷ []) ready).0 ≡ ok tt
unfolding ready revoke
revoke_runs = refl

revoke_final_example :
    Unreadable (codes "a") (run later (revoke 20 20 (codes "a") (1 ∷ []) ready).1)
revoke_final_example =
    revoke_final 20 20 (codes "a") (1 ∷ []) ready later revoke_runs (tt, (tt, tt))

fresh : Memory
unfolding ready create
fresh = (create request (new_memory small)).1

upload_runs : (upload 12 12 (codes "a") (1 ∷ []) (codes "key") (5 ∷ 6 ∷ []) fresh).0 ≡ ok tt
unfolding fresh
upload_runs = refl

delivered_runs :
    (fetch 20 20 (codes "a") (2 ∷ []) (
      run
        (statuses 13 (codes "a") ∷ [])
        (upload 12 12 (codes "a") (1 ∷ []) (codes "key") (5 ∷ 6 ∷ []) fresh).1)).0
    ≡ ok (5 ∷ 6 ∷ [], 12)
unfolding fresh fetch status
delivered_runs = refl

fetch-upload_example : ◌≡◌ {A = Bytes × ℕ} (5 ∷ 6 ∷ [], 12) (5 ∷ 6 ∷ [], 12)
fetch-upload_example =
    fetch-upload 12 12 20 20 (codes "a") (1 ∷ []) (2 ∷ []) (codes "key") (5 ∷ 6 ∷ []) fresh
      (statuses 13 (codes "a") ∷ []) (5 ∷ 6 ∷ [], 12) upload_runs (tt, tt) delivered_runs

fetch_succeeds_example :
    ((fetch 20 20 (codes "a") (2 ∷ []) ready).0 ≡ ok (held.ciphertext, held.uploaded_at)) ↔ (
      (is_drop held.kind ≡ true)
      × (is_uploaded held.state ≡ true)
      × (20 < held.expires_at)
      × (held.token_b ≡ 2 ∷ []))
fetch_succeeds_example = fetch_succeeds 20 20 (codes "a") (2 ∷ []) ready held held_here

held-live : (is_terminal held.state ≡ false) × (is_drop held.kind ≡ true)
unfolding is_terminal is_drop
held-live = (refl, refl)

expired_drop_example :
    Refuses 70 70 (codes "a") (2 ∷ []) (codes "key") [] ready (state_error expired 50) wrong_kind
    × Refuses 70 70
        (codes "a")
        (2 ∷ [])
        (codes "key")
        []
        (sweep 60 ready).0
        (state_error expired 50)
        wrong_kind
unfolding ready
expired_drop_example =
    expired_drop 70 70 60 (codes "a") (2 ∷ []) (codes "key") [] ready held ready-Inv held_here
      held-live.0 (omega arith) held-live.1

swept_here : lookup (codes "a") (sweep 70 ready).0.drops ≡ some (tombstone expired 50 held)
unfolding ready sweep
swept_here = refl

sweep_complete_example :
    (70 < (tombstone expired 50 held).expires_at + 100)
    × ((is_terminal (tombstone expired 50 held).state ≡ true)
        ⊎ (70 < (tombstone expired 50 held).expires_at))
unfolding ready
sweep_complete_example =
    sweep_complete 70 ready (codes "a") (tombstone expired 50 held) ready-Inv swept_here

status-sweep_example :
    (status 70 (codes "a") (sweep 70 ready).0).0 ≡ (status 70 (codes "a") ready).0
unfolding ready
status-sweep_example = status-sweep 70 (codes "a") ready held ready-Inv held_here (omega arith)

blocked_runs : (wait_begin 20 (codes "a") uploaded true 1 ready).0 ≡ waiting
unfolding ready wait_begin state_eq
blocked_runs = refl

abbrev pickup : List Call
pickup = fetches 30 30 (codes "a") (2 ∷ []) ∷ []

picked_up : Drop
unfolding tombstone
picked_up = tombstone fetched 30 held

picked_up_here :
    lookup (codes "a") (run pickup (wait_begin 20 (codes "a") uploaded true 1 ready).1).drops
    ≡ some picked_up
unfolding ready wait_begin state_eq fetch picked_up
picked_up_here = refl

picked_up_changed : picked_up.state ≢ uploaded
unfolding picked_up
picked_up_changed e = cc

no_lost_wakeup_example :
    woken 1
      (polls (codes "a") (run pickup (wait_begin 20 (codes "a") uploaded true 1 ready).1).waiters)
    ≡ true
no_lost_wakeup_example =
    no_lost_wakeup 20 (codes "a") uploaded true 1 ready pickup picked_up blocked_runs (tt, tt)
      picked_up_here picked_up_changed
