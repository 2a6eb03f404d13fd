-- ===== src/Http/Stream/Tests.antt =====
-- webserver/svr_http.cc: a file of three bytes on the socket, with a write that ends early.
use libeventdisp.Base.{
  ◌+◌, ◌*◌, ◌≤◌, ◌≡◌, refl, ◌<◌, ℕ, false, member, Option, none, some, ok, [], ◌∷◌, ◌++◌, length,
  arith,
}
use libeventdisp.Http.Text.{Bytes, codes, starts_with, find_crlf, find_char, c_str}
use libeventdisp.Http.Package.{
  n_200, Hpkg, new_hpkg, writing_head, writing, fetching, Session, write, load,
}
use libeventdisp.Http.Parse.{read, link, parse_get, parse_loop, parse, parse_aio}
use libeventdisp.Http.Serve.{
  max_keys, header_wio, header_200, put_head, header_rio, head_key, body_key, header, fetch,
  body_wio, body, header_to_body_aio, body_rio, body_pio,
}
use libeventdisp.Http.Serial.Always.{take_pending}
use libeventdisp.Http.Serial.Reach.{Reached, stays}
use libeventdisp.Http.Steps.{done, resume}
use libeventdisp.Http.Stream.{Holds, Doc, Truthful, Sends, sent, writes, reads}
use libeventdisp.Http.Stream.Whole.{Sends_in_order, Sends_whole}
use libeventdisp.Http.Stream.Ends.{calls_in, Sends_ends}
use libeventdisp.Http.Stream.Puts.{Sends-Holds}
use libeventdisp.Http.Keys.{body_key-injective, head_key-body_key}
use libeventdisp.Http.Tests.{
  env, env-IsGood, move, opened_at, fetched, head_sent, opened_returns, parsed-Runs, fetched-Runs,
}

abbrev package_of : Option Hpkg → Hpkg
package_of none = new_hpkg
package_of (some k) = k

abbrev doc : Doc
doc = record { uri = codes "a"; file = 7 ∷ 8 ∷ 9 ∷ []; decimal = λ n. (n + 48) ∷ [] }

env-Truthful : Truthful doc env
env-Truthful = record {
  good = env-IsGood;
  decimal = refl;
  whole = λ key. refl;
  hits = λ key d e. absurd (ground (arith, e));
}

abbrev first_read : Session
first_read = move (fetching 2 0) (done (7 ∷ 8 ∷ 9 ∷ [])) head_sent

abbrev first_written : Session
first_written = move (writing 2 (7 ∷ 8 ∷ 9 ∷ [])) (done (7 ∷ 8 ∷ [])) first_read

abbrev last_read : Session
last_read = move (fetching 2 2) (done (9 ∷ [])) first_written

abbrev last_written : Session
last_written = move (writing 2 (9 ∷ [])) (done (9 ∷ [])) last_read

abbrev end_read : Session
end_read = move (fetching 2 3) (done []) last_written

first-Sends :
    (w : Bytes) (u : Session)
    → Sends doc 2 first_written w u
    → Sends doc 2 head_sent ((7 ∷ 8 ∷ []) ++ w) u
unfolding read load write parse_aio parse parse_loop parse_get link starts_with find_crlf find_char
    fetch header header_rio put_head header_200 header_wio c_str head_key header_to_body_aio body
    body_key body_pio body_wio body_rio
first-Sends w u more =
    reads env 0 (7 ∷ 8 ∷ 9 ∷ []) env-Truthful refl ([], refl) refl
      (writes env (7 ∷ 8 ∷ []) (9 ∷ []) env-Truthful refl (ground arith) refl more)

last-Sends : Sends doc 2 first_written ((9 ∷ []) ++ []) end_read
unfolding read load write parse_aio parse parse_loop parse_get link starts_with find_crlf find_char
    fetch header header_rio put_head header_200 header_wio c_str head_key header_to_body_aio body
    body_key body_pio body_wio body_rio
last-Sends =
    reads env 2 (9 ∷ []) env-Truthful refl ([], refl) refl
      (writes env (9 ∷ []) [] env-Truthful refl (ground arith) refl
        (reads env 3 [] env-Truthful refl refl refl sent))

fetched-Reached : Reached 1 fetched
fetched-Reached = (opened_at, opened_returns, parsed-Runs fetched (fetched-Runs fetched stays))

fetched_idle : fetched.pending ≡ writing_head 2 (header_200 env 1) ∷ []
unfolding read load write parse_aio parse parse_loop parse_get link starts_with find_crlf find_char
    fetch header header_rio put_head header_200 header_wio c_str head_key header_to_body_aio body
    body_key body_pio body_wio body_rio
fetched_idle = refl

-- The package after its header was put into the cache.
abbrev pkg : Hpkg
pkg = package_of (fetched.pkgs 2)

package_at : fetched.pkgs 2 ≡ some pkg
unfolding read load write parse_aio parse parse_loop parse_get link starts_with find_crlf find_char
    fetch header header_rio put_head header_200 header_wio c_str head_key header_to_body_aio body
    body_key body_pio body_wio body_rio
package_at = refl

package_full : pkg.hsn ≡ n_200
unfolding read load write parse_aio parse parse_loop parse_get link starts_with find_crlf find_char
    fetch header header_rio put_head header_200 header_wio c_str head_key header_to_body_aio body
    body_key body_pio body_wio body_rio
package_full = refl

package_uri : pkg.uri ≡ some (codes "a")
unfolding read load write parse_aio parse parse_loop parse_get link starts_with find_crlf find_char
    fetch header header_rio put_head header_200 header_wio c_str head_key header_to_body_aio body
    body_key body_pio body_wio body_rio
package_uri = refl

head_returns :
    resume (writing_head 2 (header_200 env 1)) (done (header_200 env 1)) env (take_pending fetched)
    ≡ ok head_sent
unfolding read load write parse_aio parse parse_loop parse_get link starts_with find_crlf find_char
    fetch header header_rio put_head header_200 header_wio c_str head_key header_to_body_aio body
    body_key body_pio body_wio body_rio
head_returns = refl

end_idle : end_read.pending ≡ writing 2 [] ∷ []
unfolding read load write parse_aio parse parse_loop parse_get link starts_with find_crlf find_char
    fetch header header_rio put_head header_200 header_wio c_str head_key header_to_body_aio body
    body_key body_pio body_wio body_rio
end_idle = refl

Sends_in_order_example : doc.file ≡ (7 ∷ 8 ∷ 9 ∷ []) ++ []
Sends_in_order_example =
    Sends_in_order 1 2 doc env (header_200 env 1) (header_200 env 1) (omega arith) fetched-Reached
      fetched_idle package_at package_full package_uri env-Truthful head_returns
      (first-Sends ((9 ∷ []) ++ []) end_read last-Sends)

Sends_whole_example : (7 ∷ 8 ∷ 9 ∷ []) ≡ doc.file
Sends_whole_example =
    Sends_whole 1 2 doc env (header_200 env 1) (header_200 env 1) (omega arith) fetched-Reached
      fetched_idle package_at package_full package_uri env-Truthful head_returns
      (first-Sends ((9 ∷ []) ++ []) end_read last-Sends) end_idle

Sends_ends_example :
    calls_in (first-Sends ((9 ∷ []) ++ []) end_read last-Sends) ≤ 2 * length doc.file + 1
Sends_ends_example =
    Sends_ends 1 2 doc env (header_200 env 1) (header_200 env 1) (omega arith) fetched-Reached
      fetched_idle package_at package_full package_uri env-Truthful head_returns
      (first-Sends ((9 ∷ []) ++ []) end_read last-Sends)

one_digit : (n : ℕ) → member b'#' (doc.decimal n) ≡ false
one_digit n = ground arith

digits_apart : (n m : ℕ) → doc.decimal n ≡ doc.decimal m → n ≡ m
digits_apart n m e = ground (arith, e)

-- The second URI has a zero, and another character behind it.
same_keys : body_key doc.decimal (codes "a") 3 ≡ body_key doc.decimal (97 ∷ 0 ∷ 98 ∷ []) 3
unfolding body_key c_str
same_keys = refl

short_key : length (c_str (codes "a")) + length (doc.decimal 3) + 2 < max_keys
unfolding c_str
short_key = ground arith

body_key-injective_example : (c_str (codes "a") ≡ c_str (97 ∷ 0 ∷ 98 ∷ [])) × (◌≡◌ {A = ℕ} 3 3)
body_key-injective_example =
    body_key-injective doc.decimal (codes "a") (97 ∷ 0 ∷ 98 ∷ []) 3 3 one_digit digits_apart
      short_key same_keys

head_key-body_key_example :
    head_key (codes "a" ++ b'#' ∷ doc.decimal 0) ≡ body_key doc.decimal (codes "a") 0
head_key-body_key_example =
    head_key-body_key doc.decimal (codes "a") 0 (ground arith) (ground arith)

-- The package after the first write, which ended early.
abbrev second : Hpkg
second = package_of (first_written.pkgs 2)

second_at : first_written.pkgs 2 ≡ some second
unfolding read load write parse_aio parse parse_loop parse_get link starts_with find_crlf find_char
    fetch header header_rio put_head header_200 header_wio c_str head_key header_to_body_aio body
    body_key body_pio body_wio body_rio
second_at = refl

first_written_idle : first_written.pending ≡ fetching 2 2 ∷ []
unfolding read load write parse_aio parse parse_loop parse_get link starts_with find_crlf find_char
    fetch header header_rio put_head header_200 header_wio c_str head_key header_to_body_aio body
    body_key body_pio body_wio body_rio
first_written_idle = refl

short_offset : length (c_str (codes "a")) + length (doc.decimal 2) + 2 < max_keys
unfolding c_str
short_offset = ground arith

Sends-Holds_example : (key : Bytes) × (second.bodykey ≡ some key) × Holds doc key (9 ∷ [])
Sends-Holds_example =
    Sends-Holds 1 2 doc env (header_200 env 1) (header_200 env 1) 2 (9 ∷ []) (omega arith)
      fetched-Reached fetched_idle package_at package_full package_uri env-Truthful head_returns
      (first-Sends [] first_written sent) first_written_idle second_at ([], refl) one_digit
      digits_apart short_offset
