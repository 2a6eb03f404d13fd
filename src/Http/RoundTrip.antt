-- ===== src/Http/RoundTrip.antt =====
-- webserver/svr_http.cc: what `svr_http_parse` makes of a request that was written line by line.
use libeventdisp.Base.{ℕ, ◌-◌, ◌≤◌, ◌≡◌, Option, List, length, All, All}
use libeventdisp.Http.Text.{Bytes}
use libeventdisp.Http.Requests.{requests}

-- What is left to parse gives `l`, with any fuel that is enough.
abbrev Gives : Bytes → List (Option Bytes × Option Bytes) → Type 0
Gives s l = (fuel : ℕ) → length s - 1 ≤ fuel → requests fuel s (length s - 1) ≡ l
