-- ===== src/Headers/Table.antt =====
-- What src/middleware/headers.rs makes of the headers of an answer, against a table.
use secret_management.Prelude.{
  String, ◌≡◌, refl, ap, ◌∙◌, ◌==◌, if◌then◌else◌, Option, none, [], ◌∷◌, or_else, arith,
}
use secret_management.Std.Map.{get, insert, get-insert, get-remove}
use secret_management.Http.{HeaderMap, Response}
use secret_management.Headers.{harden, security_headers}

abbrev pub fixed_headers : HeaderMap
fixed_headers =
    ("permissions-policy", "camera=(), microphone=(), geolocation=()")
    ∷ ("cache-control", "no-store, no-cache, must-revalidate")
    ∷ ("referrer-policy", "no-referrer")
    ∷ ("content-security-policy", "default-src 'none'; frame-ancestors 'none'")
    ∷ ("strict-transport-security", "max-age=63072000; includeSubDomains; preload")
    ∷ ("x-frame-options", "DENY")
    ∷ ("x-content-type-options", "nosniff")
    ∷ []

-- The value of a header in a hardened answer: that of the table, or else its old one.
abbrev pub hardened : HeaderMap → String → Option String
hardened h n = if "server" == n then none else or_else (get n fixed_headers) (get n h)

-- The entries of a table, the last one first.
abbrev insert_all : HeaderMap → HeaderMap → HeaderMap
insert_all [] h = h
insert_all ((k, v) ∷ table) h = insert k v (insert_all table h)

get-insert_all :
    (table h : HeaderMap) (n : String)
    → get n (insert_all table h) ≡ or_else (get n table) (get n h)
unfolding get
get-insert_all [] h n = refl
get-insert_all ((k, v) ∷ table) h n = rw (get-insert, get-insert_all table h n) (ground arith)

-- A hardened answer has the seven headers of the table with their values, whatever it had under
-- these names, and no "server"; its other headers, its status and its body are the old ones.
pub get-security_headers :
    {B : Type 0} (res : Response B) (n : String)
    → (get n (security_headers res).headers ≡ hardened res.headers n)
      × ((security_headers res).status ≡ res.status)
      × ((security_headers res).body ≡ res.body)
unfolding security_headers harden
get-security_headers res n = (
  get-remove "server" n (insert_all fixed_headers res.headers)
      ∙ ap (λ o. if "server" == n then none else o) (get-insert_all fixed_headers res.headers n),
  refl,
  refl,
)
