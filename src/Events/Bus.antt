-- ===== src/Events/Bus.antt =====
-- internal/core/events/bus.go. The map of handlers is an association list.
pub mod Laws
use expense_management.Prelude.{
  String, List, [], ◌∷◌, ◌++◌, map, Option, none, some, str_eq, if◌then◌else◌, ◌<>◌,
}
use expense_management.Errors.{GoError, wrap}
use expense_management.Events.{Event, event_type}

pub record EventBus (H : Type 0) : Type 0 where
  pub handlers : List (String × List H)

module _ {H : Type 0} where
  unfoldable pub new_event_bus : EventBus H
  new_event_bus = record { handlers = [] }

  -- `handlers[t]`, which is nil where the key is missing.
  unfoldable pub handlers_of : String → List (String × List H) → List H
  handlers_of t [] = []
  handlers_of t ((k, hs) ∷ m) = if str_eq k t then hs else handlers_of t m

  add_handler : String → H → List (String × List H) → List (String × List H)
  add_handler t h [] = (t, h ∷ []) ∷ []
  add_handler t h ((k, hs) ∷ m) =
      if str_eq k t then (k, hs ++ h ∷ []) ∷ m else (k, hs) ∷ add_handler t h m

  unfoldable pub subscribe : String → H → EventBus H → EventBus H
  unfolding add_handler
  subscribe t h bus = record { handlers = add_handler t h bus.handlers }

  -- `Publish`: the goroutines that it starts. Its own result is always nil.
  unfoldable pub publish : Event → EventBus H → List (H × Event)
  unfolding handlers_of event_type
  publish e bus = map (λ h. (h, e)) (handlers_of (event_type e) bus.handlers)

  module _ {S : Type 0} (run : H → Event → S → Option GoError × S) where
    -- The loop of `PublishSync` goes on after a handler, or stops at its error.
    abbrev next_or_stop : Event → (S → Option GoError × S) → Option GoError × S → Option GoError × S
    next_or_stop e next (none, s) = next s
    next_or_stop e next (some x, s) =
        (some (wrap ("handler failed for event " <> event_type e) x), s)

    run_handlers : Event → List H → S → Option GoError × S
    run_handlers e [] s = (none, s)
    run_handlers e (h ∷ hs) s = next_or_stop e (run_handlers e hs) (run h e s)

    unfoldable pub publish_sync : Event → EventBus H → S → Option GoError × S
    unfolding handlers_of run_handlers
    publish_sync e bus s = run_handlers e (handlers_of (event_type e) bus.handlers) s
