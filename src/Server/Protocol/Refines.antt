-- ===== src/Server/Protocol/Refines.antt =====
-- The actor does what the machine does, call by call.
use ff_http_lws.Base.{ℕ, ◌≡◌, Bool}
use ff_http_lws.Thread.{ServerSettings}
use ff_http_lws.Server.{
  Environment, EnvironmentDocs, Game, Outcome, ok, undefined_behaviour, never_returns, ◌>>=◌,
}
use ff_http_lws.Server.Protocol.{Machine, has_name, has_thread, Stands}

-- The machine and the actor after one call.
abbrev Agree :
    Environment → ServerSettings → Outcome (Bool × Machine) → Outcome (Bool × Game) → Type 0
Agree env s (ok (b, m)) (ok (c, g)) = (c ≡ b) × Stands env s m g
Agree env s undefined_behaviour undefined_behaviour = Unit {0}
Agree env s never_returns never_returns = Unit {0}
Agree env s (ok m) undefined_behaviour = ⊥
Agree env s (ok m) never_returns = ⊥
Agree env s undefined_behaviour (ok r) = ⊥
Agree env s undefined_behaviour never_returns = ⊥
Agree env s never_returns (ok r) = ⊥
Agree env s never_returns undefined_behaviour = ⊥

module _ {env : Environment} (d : EnvironmentDocs env) (s : ServerSettings) where
  abbrev named : Bool
  named = has_name s

  abbrev created : ℕ → Bool
  created = has_thread env s
