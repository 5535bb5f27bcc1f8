-- ===== src/Events/Bus/Laws.antt =====
-- What subscribing changes for the publishers of internal/core/events/bus.go.
use expense_management.Prelude.{
  String, List, [], ◌∷◌, ◌++◌, map-append, Option, none, some, ◌≡◌, refl, ◌∙◌, inl, inr, Bool-cases,
  str_eq, eq_iff, if◌then◌else◌, arith, sym, append-nil, eq_refl,
}
use expense_management.Errors.{GoError}
use expense_management.Events.{Event, event_type}
use expense_management.Events.Bus.{
  EventBus, handlers_of, add_handler, subscribe, publish, publish_sync, next_or_stop, run_handlers,
}

module _ {H : Type 0} where
  -- The handlers of a type, after one was added for a type.
  handlers_of-add_handler :
      (t u : String) (h : H) (m : List (String × List H))
      → handlers_of t (add_handler u h m)
        ≡ (if str_eq u t then handlers_of t m ++ h ∷ [] else handlers_of t m)
  unfolding handlers_of add_handler
  handlers_of-add_handler t u h [] = ground arith
  handlers_of-add_handler t u h ((k, hs) ∷ m) =
      ground (arith, handlers_of-add_handler t u h m, eq_iff k u, eq_iff k t, eq_iff u t)

  -- After a subscription, publishing an event starts the goroutines that it started before, in
  -- their order, and after them one for the new handler if the event has the subscription's type.
  publish-subscribe :
      (e : Event) (t : String) (h : H) (bus : EventBus H)
      → publish e (subscribe t h bus)
        ≡ publish e bus ++ (if str_eq t (event_type e) then (h, e) ∷ [] else [])
  unfolding publish subscribe
  publish-subscribe e t h bus = elim (Bool-cases (str_eq t (event_type e))) [
    | inl same ↦
        rw (handlers_of-add_handler (event_type e) t h bus.handlers, same)
          (map-append _ (handlers_of (event_type e) bus.handlers) (h ∷ []))
    | inr other ↦
        rw (handlers_of-add_handler (event_type e) t h bus.handlers, other) (sym (append-nil _))
  ]

  module _ {S : Type 0} (run : H → Event → S → Option GoError × S) where
    -- The loop over more handlers goes on from where it ended, or stops at the first error.
    abbrev continued : Event → List H → Option GoError × S → Option GoError × S
    continued e ys (none, s) = run_handlers run e ys s
    continued e ys (some x, s) = (some x, s)

    next_or_stop-continued :
        (e : Event) (xs ys : List H)
        → ((s : S) → run_handlers run e (xs ++ ys) s ≡ continued e ys (run_handlers run e xs s))
        → (r : Option GoError × S)
        → next_or_stop run e (run_handlers run e (xs ++ ys)) r
          ≡ continued e ys (next_or_stop run e (run_handlers run e xs) r)
    next_or_stop-continued e xs ys later (none, s) = later s
    next_or_stop-continued e xs ys later (some x, s) = refl

    run_handlers-append :
        (e : Event) (xs ys : List H) (s : S)
        → run_handlers run e (xs ++ ys) s ≡ continued e ys (run_handlers run e xs s)
    unfolding run_handlers
    run_handlers-append e [] ys s = refl
    run_handlers-append e (x ∷ xs) ys s =
        next_or_stop-continued e xs ys (run_handlers-append e xs ys) (run x e s)

    -- The handler of a subscription runs last, after all of those before have succeeded; if one of
    -- them failed it does not run, and the error is the same as without it.
    abbrev pub next_handler : Event → H → Option GoError × S → Option GoError × S
    next_handler e h (none, s) = next_or_stop run e (λ s'. (none, s')) (run h e s)
    next_handler e h (some x, s) = (some x, s)

    last_handler :
        (e : Event) (h : H) (r : Option GoError × S) → continued e (h ∷ []) r ≡ next_handler e h r
    unfolding run_handlers
    last_handler e h (some x, s) = refl
    last_handler e h (none, s) = refl

    -- A handler that is subscribed to an event's type runs after all the others, on the state
    -- that they left, if none of them failed; if one did, it does not run and the outcome is the
    -- same as without it.
    publish_sync-subscribe :
        (e : Event) (h : H) (bus : EventBus H) (s : S)
        → publish_sync run e (subscribe (event_type e) h bus) s
          ≡ next_handler e h (publish_sync run e bus s)
    unfolding publish_sync subscribe
    publish_sync-subscribe e h bus s =
        rw
          (
            handlers_of-add_handler (event_type e) (event_type e) h bus.handlers,
            eq_refl (event_type e),
          )
          (run_handlers-append e _ (h ∷ []) s ∙ last_handler e h _)
