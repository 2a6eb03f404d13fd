-- ===== src/Http/Text.antt =====
-- webserver/svr_http.cc: the texts that the handlers read and write, as lists of bytes. Where a list
-- ends the memory holds zeros: `svr_http_read` clears the buffer before each request.
use Prim.Native.Char.{code}
use Prim.Native.String.{String}
use libeventdisp.Base.{
  ℕ, zero, suc, Bool, true, false, ◌&&◌, Option, none, some, List, [], ◌∷◌, ◌==◌, if◌then◌else◌,
}

abbrev pub Bytes : Type 0
Bytes = List ℕ

abbrev pub codes : String → Bytes
codes String.[] = []
codes (String.◌∷◌ c s) = code c ∷ codes s

abbrev pub take : ℕ → Bytes → Bytes
take n [] = []
take zero (c ∷ s) = []
take (suc n) (c ∷ s) = c ∷ take n s

abbrev pub drop : ℕ → Bytes → Bytes
drop n [] = []
drop zero (c ∷ s) = c ∷ s
drop (suc n) (c ∷ s) = drop n s

-- The C string that starts here.
unfoldable pub c_str : Bytes → Bytes
c_str [] = []
c_str (c ∷ s) = if c == 0 then [] else c ∷ c_str s

-- `strcmp` is 0, on two C strings.
abbrev pub same_text : Bytes → Bytes → Bool
same_text [] [] = true
same_text [] (d ∷ t) = false
same_text (c ∷ s) [] = false
same_text (c ∷ s) (d ∷ t) = c == d && same_text s t

-- `strncmp(s, p, strlen(p))` is 0, for a prefix that is not empty.
unfoldable pub starts_with : Bytes → Bytes → Bool
starts_with [] s = true
starts_with (d ∷ p) [] = false
starts_with (d ∷ p) (c ∷ s) = c == d && starts_with p s

abbrev pub some_suc : Option ℕ → Option ℕ
some_suc none = none
some_suc (some i) = some (suc i)

-- `strstr(s, CRLF)` and `strchr(s, d)`, as offsets.
unfoldable pub find_crlf : Bytes → Option ℕ
find_crlf [] = none
find_crlf (c ∷ s) =
    if c == 0
    then none
    else if c == 13 && starts_with (10 ∷ []) s
    then some 0
    else some_suc (find_crlf s)

unfoldable pub find_char : ℕ → Bytes → Option ℕ
find_char d [] = none
find_char d (c ∷ s) = if c == d then some 0 else if c == 0 then none else some_suc (find_char d s)

abbrev pub crlf : Bytes
crlf = 13 ∷ 10 ∷ []

abbrev pub get_word : Bytes
get_word = codes "GET "

abbrev pub websvrd : Bytes
websvrd = codes "Rain/1.1"

-- The status lines, by the version; the tables have two entries.
abbrev pub sline_200 : ℕ → Bytes
sline_200 v = if v == 0 then codes "HTTP/1.0 200 OK" else codes "HTTP/1.1 200 OK"

abbrev pub sline_400 : ℕ → Bytes
sline_400 v = if v == 0 then codes "HTTP/1.0 400 Bad Request" else codes "HTTP/1.1 400 Bad Request"

abbrev pub sline_404 : ℕ → Bytes
sline_404 v = if v == 0 then codes "HTTP/1.0 404 Not Found" else codes "HTTP/1.1 404 Not Found"
