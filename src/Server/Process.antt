-- ===== src/Server/Process.antt =====
-- cmd/shepard/main.go: the settings of the HTTP server, and how the process ends.
use shepard.Base.{ℕ, ◌≡◌, ◌↔◌, refl, ◌⊎◌, inl, inr, String, Bool, true, false, ℤ, arith}
use shepard.Config.Types.{ServerConfig}
use shepard.Server.{Started, not_loaded, only_checked, no_gateway, listening}
use shepard.Acl.{Net}

-- The fields of `http.Server` that `main` sets, besides the handler. There is no write timeout: a
-- stream may last as long as the request's own timeouts let it.
pub record HttpServer : Type 0 where
  pub addr : String
  pub read_header_timeout : ℤ
  pub read_timeout : ℤ
  pub idle_timeout : ℤ
  pub max_header_bytes : ℤ

unfoldable pub http_server : ServerConfig → HttpServer
http_server s = record {
  addr = s.listen;
  read_header_timeout = s.read_header_timeout;
  read_timeout = s.read_timeout;
  idle_timeout = s.idle_timeout;
  max_header_bytes = s.max_header_bytes;
}

-- What `ListenAndServe` returns: that the server was shut down, or another error.
pub data Served : Type 0 where
  server_closed : Served
  serve_fails : String → Served

-- The status of the process, and whether the usage database was closed before: `os.Exit` runs no
-- deferred function.
pub record Exit : Type 0 where
  pub status : ℕ
  pub usage_closed : Bool

abbrev pub after_serving : Served → Exit
after_serving server_closed = record { status = 0; usage_closed = true }
after_serving (serve_fails error) = record { status = 1; usage_closed = false }

module _ (net : Net) where
  unfoldable pub exit_of : Started net → Served → Exit
  exit_of (not_loaded problem) served = record { status = 1; usage_closed = false }
  exit_of only_checked served = record { status = 0; usage_closed = false }
  exit_of no_gateway served = record { status = 1; usage_closed = false }
  exit_of (listening warning g) served = after_serving served

  -- A gateway that was made closes its database exactly when the server was shut down, and the
  -- process then ends without an error; it also does where it was only to check the file.
  exit_of-status :
      (s : Started net) (served : Served)
      → ((exit_of s served).status ≡ 0)
        ↔ (((exit_of s served).usage_closed ≡ true) ⊎ (s ≡ only_checked))
  unfolding exit_of
  exit_of-status (not_loaded problem) served =
      (λ e. absurd (omega (arith, e)), λ h. ground (arith, h))
  exit_of-status only_checked served = (λ e. inr refl, λ h. refl)
  exit_of-status no_gateway served = (λ e. absurd (omega (arith, e)), λ h. ground (arith, h))
  exit_of-status (listening warning g) server_closed = (λ e. inl refl, λ h. refl)
  exit_of-status (listening warning g) (serve_fails error) =
      (λ e. absurd (omega (arith, e)), λ h. ground (arith, h))
