-- ===== src/Http/Status.antt =====
-- webserver/svr_http.cc: the status that `svr_http_header_wio` reads back from a cached header, and the
-- keys under which headers and bodies are cached.
use libeventdisp.Base.{ℕ, ◌≡◌, refl, ◌==◌, Bool-cases, inl, inr}
use libeventdisp.Http.Text.{starts_with}
use libeventdisp.Http.Package.{n_200, n_404}
use libeventdisp.Http.Serve.{Env, status_of, header_200, header_404}

status_404 : (v : ℕ) → status_of (header_404 v) ≡ n_404
unfolding starts_with
status_404 v = elim (Bool-cases (v == 0)) [ inl e ↦ rw e refl | inr e ↦ rw e refl ]

status_200 : (e : Env) (v : ℕ) → status_of (header_200 e v) ≡ n_200
unfolding starts_with header_200
status_200 e v = elim (Bool-cases (v == 0)) [ inl h ↦ rw h refl | inr h ↦ rw h refl ]

-- The header that is made for a file that could be opened says 200, and the one for a file that could
-- not says 404, whatever the version, the dates and the size are.
pub status-header :
    (e : Env) (v : ℕ) → (status_of (header_200 e v) ≡ n_200) × (status_of (header_404 v) ≡ n_404)
status-header e v = (status_200 e v, status_404 v)
