-- ===== src/Thread/Race.antt =====
-- Run on the server's thread against Stop on the thread that deletes the object: no lock stands
-- between them, so they interleave statement by statement. A turn of the worker is one test or call
-- of Run, a turn of the stopper one statement of HTTP_Stop and Stop.
pub mod Refines
pub mod Idle
pub mod Serves
pub mod Turns
use ff_http_lws.Base.{
  opt_cons, ℕ, Bool, true, false, ◌||◌, Option, none, some, List, [], ◌∷◌, ◌==◌, if◌then◌else◌,
}
use ff_http_lws.Thread.{HttpThread}

-- Where Run stands: at the test of the loop, at the test of `Context`, at the call, inside
-- `lws_service` with a context (`none` for a null pointer), or returned.
pub data Worker : Type 0 where
  looping testing calling returned : Worker
  in_service : Option ℕ → Worker

-- Where Stop stands: the statements of HTTP_Stop in order, then `bStartThread = false`.
pub data Stopper : Type 0 where
  guarding destroying nulling dropping_protocols emptying_pool clearing_flag finished : Stopper

pub record Sys : Type 0 where
  pub thread : HttpThread
  pub worker : Worker
  pub stopper : Stopper
  -- the contexts handed to `lws_context_destroy`
  pub destroyed : List ℕ

abbrev pub is_destroyed : ℕ → List ℕ → Bool
is_destroyed c [] = false
is_destroyed c (d ∷ ds) = d == c || is_destroyed c ds

-- A null pointer, or a context that is destroyed: "any further use of the context is undefined"
-- (lws-context-vhost.h).
abbrev pub is_wrong : Option ℕ → List ℕ → Bool
is_wrong none ds = true
is_wrong (some c) ds = is_destroyed c ds

-- Run inside `lws_service`. The call is "smart enough to stay asleep until an event is queued"
-- (lws-service.h), so whether it returns in this turn is not for Run to say; and with a wrong context
-- nothing is known of it, and the model has it stay where it is.
abbrev pub service_turn : Bool → Bool → Option ℕ → Worker
service_turn true false c = looping
service_turn _ _ c = in_service c

-- A turn of Run, by whether `lws_service` returns in it, if Run is inside.
worker_turn : Bool → Worker → Sys → Sys
worker_turn wakes looping s = record s {
  worker = if s.thread.start_thread then testing else returned;
}
worker_turn wakes testing s = record s {
  worker = elim s.thread.context [ none ↦ looping | some _ ↦ calling ];
}
worker_turn wakes calling s = record s { worker = in_service s.thread.context }
worker_turn wakes (in_service c) s = record s {
  worker = service_turn wakes (is_wrong c s.destroyed) c;
}
worker_turn wakes returned s = s

stopper_turn : Stopper → Sys → Sys
stopper_turn guarding s = record s {
  stopper = elim s.thread.context [ none ↦ dropping_protocols | some _ ↦ destroying ];
}
stopper_turn destroying s = record s {
  stopper = nulling;
  destroyed = opt_cons s.thread.context s.destroyed;
}
stopper_turn nulling s = record s {
  stopper = dropping_protocols;
  thread = record s.thread { context = none };
}
stopper_turn dropping_protocols s = record s {
  stopper = emptying_pool;
  thread = record s.thread { protocols = none };
}
stopper_turn emptying_pool s = record s {
  stopper = clearing_flag;
  thread = record s.thread { request_pool = [] };
}
stopper_turn clearing_flag s = record s {
  stopper = finished;
  thread = record s.thread { start_thread = false };
}
stopper_turn finished s = s

-- Whose turn it is; for Run, also whether `lws_service` returns in it.
pub data Turn : Type 0 where
  of_worker : (wakes : Bool) → Turn
  of_stopper : Turn

unfoldable pub take_turn : Sys → Turn → Sys
unfolding worker_turn stopper_turn
take_turn s (of_worker wakes) = worker_turn wakes s.worker s
take_turn s of_stopper = stopper_turn s.stopper s

-- An interleaving.
pub schedule : Sys → List Turn → Sys
schedule s [] = s
schedule s (t ∷ ts) = schedule (take_turn s t) ts

-- The worker is inside `lws_service` with a wrong context.
abbrev pub undefined_use : Sys → Bool
undefined_use s = elim s.worker [ in_service c ↦ is_wrong c s.destroyed | _ ↦ false ]
