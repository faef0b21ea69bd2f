-- ===== src/Server/Tests.antt =====
-- A start, and a signal with a file that does not decode.
use shepard.Base.{
  ◌≡◌, refl, String, Bool, true, false, Option, none, some, List, [], ◌∷◌, pos, lookup, insert,
}
use shepard.Base.Text.{trim_space, contains}
use shepard.Config.Types.{Config, resolved_targets}
use shepard.Config.Validation.{validate}
use shepard.Config.Samples.{config_with, lenient}
use shepard.Config.Defaults.{defaults}
use shepard.Queue.{new_request_queue}
use shepard.Limiter.{new_limit_store}
use shepard.Discovery.{new_discovery_store}
use shepard.Readiness.{new_readiness_cache}
use shepard.Acl.{new_client_acl}
use shepard.Acl.Samples.{texts}
use shepard.Gateway.{Gateway, new}
use shepard.Server.{listening, start, Hangup, on_hangups, inbound_keys_disabled}
use shepard.Server.Running.{IsInForce, LeavesConfig, start-IsInForce}

abbrev decode : String → Option Config
decode text = some (config_with "far/" [])

abbrev first : Gateway texts
first = record {
  config = defaults (config_with "far/" []);
  acl = record { networks = "10.0.0.0/8" ∷ [] };
  trusted = none;
  discovery = [];
  readiness = new_readiness_cache;
  limits = new_limit_store;
  queue = record { waiting = 0; max = pos 1 };
  usage_db_path = "usage.db";
}

abbrev nowhere : String → Bool
nowhere ip = false

started :
    start texts nowhere lenient decode false true (some "config")
    ≡ listening (some inbound_keys_disabled) first
unfolding start validate defaults lookup insert trim_space contains resolved_targets new
    new_client_acl new_discovery_store new_request_queue
started = refl

abbrev queued : Gateway texts → Gateway texts
queued g = record g { queue = record g.queue { waiting = 1 } }

abbrev hangups : List (Hangup texts)
hangups =
    record { during = queued; file = some "config" } ∷ record { during = queued; file = none } ∷ []

queued_only : LeavesConfig texts queued
queued_only = record {
  config = λ g. refl;
  acl = λ g. refl;
  trusted = λ g. refl;
  queue = λ g. refl;
  usage_db_path = λ g. refl;
}

start-IsInForce_example :
    IsInForce texts lenient (on_hangups texts nowhere lenient decode hangups first)
start-IsInForce_example =
    start-IsInForce texts lenient nowhere decode false true (some "config")
      (some inbound_keys_disabled) first hangups started (queued_only, (queued_only, tt))
