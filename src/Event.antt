-- ===== src/Event.antt =====
-- src/qtl_event.h: events, their reference counts, and ticks.
pub mod Refs
use libqtl.Base.{ℕ, ◌+◌, Bool, Option, none, some, ◌==◌, if◌then◌else◌, u16, sub16}
use libqtl.Datetime.{min_date_time}

-- `EventType`
pub data EventType : Type 0 where
  ask bid trade on_queue_open on_queue_closed on_simulator_start on_simulator_stop : EventType

-- `event_t`. Its `type` is a `uint16_t`, which holds every value of the enumeration.
pub record Event : Type 0 where
  pub timestamp : ℕ
  pub type : EventType
  pub ref : ℕ

unfoldable pub event_init : Event → EventType → Event
event_init e type = record e { type = type; ref = 1 }

unfoldable pub event_get_time : Event → ℕ
event_get_time e = e.timestamp

unfoldable pub event_set_time : Event → ℕ → Event
event_set_time e time = record e { timestamp = time }

unfoldable pub event_get_type : Event → EventType
event_get_type e = e.type

-- `atomic_fetch_add` returns the old count.
unfoldable pub event_ref : Event → Event × ℕ
event_ref e = (record e { ref = u16 (e.ref + 1) }, e.ref)

-- `none` is a freed event.
unfoldable pub event_unref : Event → Option Event × ℕ
event_unref e =
    let count : ℕ = e.ref in
    (if count == 1 then none else some (record e { ref = sub16 count 1 }), count)

unfoldable pub event_is_single_ref : Event → Bool
event_is_single_ref e = e.ref == 1

-- `tick_t`; the type of its `double` price is the first parameter, with the value 0 of it below.
-- `ask_t`, `bid_t` and `trade_t` are ticks.
pub record Tick (Price : Type 0) : Type 0 where
  pub head : Event
  pub provider : ℕ
  pub instrument : ℕ
  pub price : Price
  pub size : ℕ

module _ {Price : Type 0} (zero_price : Price) where
  unfoldable pub tick_event_init : Tick Price → EventType → Tick Price
  tick_event_init e type = record {
    head = event_init e.head type;
    provider = 0;
    instrument = 0;
    price = zero_price;
    size = 0;
  }

  unfoldable pub ask_event_init : Tick Price → Tick Price
  ask_event_init e = tick_event_init e ask

  unfoldable pub bid_event_init : Tick Price → Tick Price
  bid_event_init e = tick_event_init e bid

  unfoldable pub trade_event_init : Tick Price → Tick Price
  trade_event_init e = tick_event_init e trade

unfoldable pub on_simulation_stop_event_init : Event → Event
on_simulation_stop_event_init e = record (event_init e on_simulator_stop) {
  timestamp = min_date_time;
}

-- The argument is the memory that `malloc` returns, with arbitrary contents.
unfoldable pub new_on_simulation_stop_event : Event → Event
new_on_simulation_stop_event memory = on_simulation_stop_event_init memory
