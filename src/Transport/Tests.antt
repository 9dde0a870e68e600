-- ===== src/Transport/Tests.antt =====
-- A transport with two buffers of four bytes on a ring of four entries, and the theorems there.
use mathlib.Core.Path.{subst}
use native.Mathlib.Nat.{le_refl}
use feng_shui.Prelude.{
  ℕ, zero, suc, ap, ◌∙◌, length-replicate, ◌≤◌, ◌≡◌, ◌≢◌, ◌↔◌, refl, arith, true, Option, none,
  some, List, [], ◌∷◌, ◌++◌, get_elem?, length, replicate, ltb,
}
use feng_shui.Prelude.Int.{pos, negsuc}
use feng_shui.Uring.{posted, write_fixed}
use feng_shui.Uring.Bounded.{Bounded, bounded}
use feng_shui.EventMap.{Event, Lies}
use feng_shui.EventMap.Slots.{table, empty}
use feng_shui.Executor.{Executor, idle, executor_submit, executor_need_submit}
use feng_shui.Transport.{Transport, Message, tag, expired, unsigned, is_infinite, cancellation}
use feng_shui.Transport.Requests.{transport_write}
use feng_shui.Transport.Ready.{IsReady, AreHeaders, IsHeader}
use feng_shui.Transport.Starting.{Operation, writes, Runs, perform}
use feng_shui.Transport.Performing.{perform-Runs}
use feng_shui.Transport.Endings.{
  transport_cancel_by_fd, transport_check_event_timeouts, cancel_slots, expire_slots, delete_slots,
}
use feng_shui.Transport.Sweeping.{Sweep}
use feng_shui.Transport.Cancelling.{due, cancellations}
use feng_shui.Transport.Timing.{check_event_timeouts-Sweep}
use feng_shui.Transport.Removing.{Holds, add_then_remove, remove-add_Holds}

abbrev runner : Executor bounded
runner = record {
  address = 1000;
  callback_port = pos 0;
  scheduler = 9;
  ring = record { spare = 3; waiting = []; given = [] };
  ring_size = 4;
  descriptor = 10;
  id = 0;
  state = idle;
}

abbrev header : ℕ → Message
header size = record {
  name = replicate size 0;
  name_length = size;
  control = 0;
  control_length = 0;
  part = 0;
  parts = 0;
  message_flags = 0;
}

abbrev start : Transport bounded table
start = record {
  buffers = record { base = 4096; size = 4 } ∷ record { base = 8192; size = 4 } ∷ [];
  executor = runner;
  inet_messages = header 16 ∷ header 16 ∷ [];
  unix_messages = header 110 ∷ header 110 ∷ [];
  events = empty;
}

-- A length that no test here reads.
abbrev no_path : List ℕ → ℕ
no_path address = 2

two_headers :
    (size least : ℕ) → least ≤ size → AreHeaders size least 2 (header size ∷ header size ∷ [])
two_headers size least h = record { counted = refl; each = each }
  where
    good : IsHeader size least (header size)
    good = (length-replicate size 0, le_refl size, h)

    same : (m : Message) → some (header size) ≡ some m → header size ≡ m
    same m l = cc

    one : (m : Message) → some (header size) ≡ some m → IsHeader size least m
    one m l = subst (IsHeader size least) (same m l) good

    each :
        (i : ℕ) (m : Message)
        → get_elem? (header size ∷ header size ∷ []) i ≡ some m
        → IsHeader size least m
    each zero m l = one m l
    each (suc zero) m l = one m l
    each (suc (suc i)) m l = absurd cc

start-IsReady : IsReady bounded table 2 start
start-IsReady = record {
  buffered = refl;
  for_inet = two_headers 16 16 (omega arith);
  for_unix = two_headers 110 0 (omega arith);
}

abbrev one_write : Operation
one_write = writes 5 1 0 (pos 30) 2 0

perform-Runs_example :
    Runs bounded table no_path start 100 2 one_write
      (perform bounded table no_path start 100 one_write)
perform-Runs_example =
    perform-Runs bounded table no_path start 100 2 one_write start-IsReady (omega arith)

-- A write is under way.
abbrev writing : Transport bounded table
writing = record start {
  executor = record runner { ring = record { spare = 3; waiting = []; given = [] } };
  events = table.put empty (record { user_data = 77; timeout = pos 30; timestamp = 100; fd = 5 });
}

write_runs :
    transport_write bounded table no_path start 5 1 0 (pos 30) 2 0 100
    ≡ some (
      pos 0,
      record start {
        executor = record runner {
          ring = record {
            spare = 3;
            waiting =
                record { request = write_fixed 5 8192 4 0 1; user_data = tag 5 1 2; flags = 0 }
                ∷ [];
            given = [];
          };
        };
        events =
            table.put empty
              (record { user_data = tag 5 1 2; timeout = pos 30; timestamp = 100; fd = 5 });
      },
    )
unfolding transport_write tag
write_runs = refl

cancels :
    (transport_cancel_by_fd bounded table writing 5).1.executor.ring.given ≡ cancellation 77 ∷ []
unfolding transport_cancel_by_fd cancel_slots executor_submit executor_need_submit
cancels = refl

check_event_timeouts-Sweep_example :
    (ds ks : List ℕ) × (q : Bounded) × Sweep
      (due 200)
      (ltb q.spare (length q.waiting) ≡ true)
      0
      writing.events.cells
      ds
      (transport_check_event_timeouts bounded table writing 200).events.cells
      ks
    × (posted bounded q ≡ posted bounded writing.executor.ring ++ cancellations ks)
    × ((transport_check_event_timeouts bounded table writing 200).executor
        ≡ executor_submit bounded (record writing.executor { ring = q }))
check_event_timeouts-Sweep_example = check_event_timeouts-Sweep bounded table writing 200

times_out : (transport_check_event_timeouts bounded table writing 131).events.cells ≡ none ∷ []
unfolding transport_check_event_timeouts expire_slots delete_slots is_infinite expired unsigned
times_out = refl

waits : (transport_check_event_timeouts bounded table writing 130).executor.ring.given ≡ []
unfolding transport_check_event_timeouts expire_slots is_infinite expired unsigned executor_submit
    executor_need_submit
waits = refl

other_key : (i : ℕ) (d : Event) → Lies writing.events.cells i d → d.user_data ≢ 78
other_key zero d l h = clash (ap (λ (e : Event). e.user_data) (same d l) ∙ h)
  where
    same :
        (d : Event)
        → ◌≡◌ {A = Option (Option Event)}
            (some (some (record { user_data = 77; timeout = pos 30; timestamp = 100; fd = 5 })))
            (some (some d))
        → record { user_data = 77; timeout = pos 30; timestamp = 100; fd = 5 } ≡ d
    same d l = cc

    clash : ◌≡◌ {A = ℕ} 77 78 → ⊥
    clash p = omega arith
other_key (suc i) d l h = cc

remove-add_Holds_example :
    Holds
      (add_then_remove bounded table writing 6 78 (negsuc 0) 101).events.cells
      (record { user_data = 77; timeout = pos 30; timestamp = 100; fd = 5 })
    ↔ Holds writing.events.cells
        (record { user_data = 77; timeout = pos 30; timestamp = 100; fd = 5 })
remove-add_Holds_example =
    remove-add_Holds bounded table writing 6 78 101 (negsuc 0)
      (record { user_data = 77; timeout = pos 30; timestamp = 100; fd = 5 }) other_key
